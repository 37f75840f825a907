-- ===== src/Knowledge/Merge/Merged.antt =====
-- The graph after internal/knowledge/graph.go, Merge.
use agentfab.Prelude.{
  ℕ, String, List, [], ◌∷◌, ◌++◌, map, ◌==◌, eq_iff, eq_refl, ◌≡◌, refl, sym, ◌∙◌, ap, subst, ◌⊎◌,
  inl, inr, ◌↔◌, Option, some, Table, lookup, insert, lookup-insert, contains, In, In-append,
  In-append_left, In-append_right, contains-In, contains-false, arith, Bool-cases,
}
use agentfab.Prelude.Int.{ℤ, pos, ◌≤ℤ◌, ◌<ℤ◌}
use agentfab.Knowledge.{Node, Edge, Graph, ManifestNode, Manifest, edge_key}
use agentfab.Knowledge.Merge.{better, updated_node, merged_node, merge_nodes, new_edges, merge}

-- No text stands twice.
abbrev pub Distinct : List String → Type 0
Distinct [] = Unit
Distinct (k ∷ ks) = ¬ In k ks × Distinct ks

abbrev pub keys : List Edge → List String
keys es = map edge_key es

-- What a merge does not take away from a node.
abbrev pub Keeps : Node → Option Node → Type 0
Keeps old found =
    (n : Node) × (found ≡ some n)
    × (n.created_at ≡ old.created_at)
    × (n.hits ≡ old.hits)
    × (n.agent ≡ old.agent)
    × (pos 0 <ℤ old.confidence → old.confidence ≤ℤ n.confidence)

new_edges-keys :
    (known : List String) (es : List Edge) (k : String)
    → In k known ⊎ In k (keys (new_edges known es)) ↔ In k known ⊎ In k (keys es)
unfolding new_edges
new_edges-keys known [] k = (λ x. x, λ x. x)
new_edges-keys known (e ∷ es) k =
    let ih = new_edges-keys known es k in
    let step = new_edges-keys (edge_key e ∷ known) es k in
    elim (Bool-cases (contains known (edge_key e))) [
      | inl t ↦ rw t (
        λ x. elim (ih.0 x) [ inl a ↦ inl a | inr b ↦ inr (inr b) ],
        λ x. elim x [
          | inl a ↦ ih.1 (inl a)
          | inr (inl q) ↦
              ih.1 (inl (subst (λ z. In z known) (sym q) (contains-In known (edge_key e) t)))
          | inr (inr b) ↦ ih.1 (inr b)
        ],
      )
      | inr f ↦ rw f (ground (arith, step))
    ]

new_edges-fresh :
    (known : List String) (es : List Edge) (k : String)
    → In k (keys (new_edges known es))
    → ¬ In k known
unfolding new_edges
new_edges-fresh known [] k m n = elim m [ ]
new_edges-fresh known (e ∷ es) k m n = elim (Bool-cases (contains known (edge_key e))) [
  | inl t ↦ new_edges-fresh known es k (rw t at m) n
  | inr f ↦ elim (rw f at m) [
    | inl q ↦ contains-false known (edge_key e) f (subst (λ z. In z known) q n)
    | inr r ↦ new_edges-fresh (edge_key e ∷ known) es k r (inr n)
  ]
]

new_edges-Distinct : (known : List String) (es : List Edge) → Distinct (keys (new_edges known es))
unfolding new_edges
new_edges-Distinct known [] = tt
new_edges-Distinct known (e ∷ es) = elim (Bool-cases (contains known (edge_key e))) [
  | inl t ↦ rw t (new_edges-Distinct known es)
  | inr f ↦ rw f (
    λ m. new_edges-fresh (edge_key e ∷ known) es (edge_key e) m (inl refl),
    new_edges-Distinct (edge_key e ∷ known) es,
  )
]

append-Distinct :
    (xs ys : List String)
    → Distinct xs
    → Distinct ys
    → ((k : String) → In k ys → ¬ In k xs)
    → Distinct (xs ++ ys)
append-Distinct [] ys h g apart = g
append-Distinct (x ∷ xs) ys (new, h) g apart = (
  λ m. elim (In-append x xs ys m) [ inl a ↦ new a | inr b ↦ apart x b (inl refl) ],
  append-Distinct xs ys h g (λ k m n. apart k m (inr n)),
)

Distinct-append : (xs ys : List String) → Distinct (xs ++ ys) → Distinct xs
Distinct-append [] ys h = tt
Distinct-append (x ∷ xs) ys (new, h) =
    (λ m. new (In-append_left x xs ys m), Distinct-append xs ys h)

keys-append : (xs ys : List Edge) → keys (xs ++ ys) ≡ keys xs ++ keys ys
keys-append [] ys = refl
keys-append (x ∷ xs) ys = ap (λ ks. edge_key x ∷ ks) (keys-append xs ys)

better-le : (old new : ℤ) → pos 0 <ℤ old → (old ≤ℤ better old new) × (pos 0 <ℤ better old new)
better-le old new h = (ground arith, ground arith)

module _ (now : ℕ) (request_id request_name : String) where
  merge_nodes-Keeps :
      (ms : List ManifestNode) (nodes : Table Node) (id : String) (old : Node)
      → lookup id nodes ≡ some old
      → Keeps old (lookup id (merge_nodes now request_id request_name ms nodes))
  unfolding merge_nodes merged_node updated_node
  merge_nodes-Keeps [] nodes id old h = (old, h, refl, refl, refl, λ _. omega arith)
  merge_nodes-Keeps (m ∷ ms) nodes id old h =
      let added = merged_node now request_id request_name (lookup m.id nodes) m in
      elim (Bool-cases (m.id == id)) [
        | inl t ↦
            let new = updated_node now request_id request_name old m in
            let there : lookup id (insert m.id added nodes) ≡ some new =
              lookup-insert m.id id added nodes
              ∙ rw t (
                  ap (λ o. some (merged_node now request_id request_name o m))
                    (ap (λ k. lookup k nodes) ((eq_iff m.id id).0 t) ∙ h)) in
            let (n, found, c, hi, a, conf) =
              merge_nodes-Keeps ms (insert m.id added nodes) id new there in
            (
              n,
              found,
              c,
              hi,
              a,
              λ p.
                  let (le, pos_new) = better-le old.confidence m.confidence p in
                  omega (arith, le, conf pos_new),
            )
        | inr f ↦
            merge_nodes-Keeps ms (insert m.id added nodes) id old
              (lookup-insert m.id id added nodes ∙ rw f h)
      ]

  -- A node of the manifest is there afterwards.
  merge_nodes-there :
      (ms : List ManifestNode) (nodes : Table Node) (m : ManifestNode)
      → In m ms
      → (n : Node) × (lookup m.id (merge_nodes now request_id request_name ms nodes) ≡ some n)
  unfolding merge_nodes
  merge_nodes-there [] nodes m i = elim i [ ]
  merge_nodes-there (x ∷ ms) nodes m (inl e) =
      let added = merged_node now request_id request_name (lookup x.id nodes) x in
      let there : lookup x.id (insert x.id added nodes) ≡ some added =
        lookup-insert x.id x.id added nodes ∙ rw (eq_refl x.id) refl in
      let (n, found, _, _, _, _) =
        merge_nodes-Keeps ms (insert x.id added nodes) x.id added there in
      (
        n,
        ap
              (λ (y : ManifestNode).
                lookup y.id (merge_nodes now request_id request_name ms (insert x.id added nodes)))
              e
            ∙ found,
      )
  merge_nodes-there (x ∷ ms) nodes m (inr i) = merge_nodes-there ms _ m i

  -- A merge keeps each node with its time of creation, its hits and its agent, and does not lower a
  -- positive confidence; each node of the manifest is there; the edges are those of both, by their keys;
  -- and no key of an edge stands twice exactly if none did before.
  pub merge-Keeps :
      (m : Manifest) (g : Graph)
      → ((id : String) (old : Node)
          → lookup id g.nodes ≡ some old
          → Keeps old (lookup id (merge now request_id request_name m g).nodes))
        × ((x : ManifestNode)
            → In x m.nodes
            → (n : Node) × (lookup x.id (merge now request_id request_name m g).nodes ≡ some n))
        × ((k : String)
            → In k (keys (merge now request_id request_name m g).edges)
              ↔ In k (keys g.edges) ⊎ In k (keys m.edges))
        × (Distinct (keys (merge now request_id request_name m g).edges) ↔ Distinct (keys g.edges))
  unfolding merge
  merge-Keeps m g =
      let known = keys g.edges in
      let new = new_edges known m.edges in
      (
        merge_nodes-Keeps m.nodes g.nodes,
        merge_nodes-there m.nodes g.nodes,
        λ k.
            let both = new_edges-keys known m.edges k in
            rw (keys-append g.edges new) (
              λ i. both.0 (In-append k known (keys new) i),
              λ i. elim (both.1 i) [
                | inl a ↦ In-append_left k known (keys new) a
                | inr b ↦ In-append_right k known (keys new) b
              ],
            ),
        rw (keys-append g.edges new) (
          Distinct-append known (keys new),
          λ d.
              append-Distinct known (keys new) d (new_edges-Distinct known m.edges)
                (new_edges-fresh known m.edges),
        ),
      )
