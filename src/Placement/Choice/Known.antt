-- ===== src/Placement/Choice/Known.antt =====
-- The nodes that internal/conductor/scheduler.go, instanceNodeMap, finds for instances.
use agentfab.Prelude.{
  ℕ, String, List, [], ◌∷◌, true, false, not, ◌&&◌, ◌==◌, eq_iff, ◌≡◌, refl, sym, subst, ap, ◌∙◌,
  inl, inr, if◌then◌else◌, if-elim, Option, none, some, Table, lookup, insert, lookup-insert, any,
  In, In-any, any-In, arith, Bool-cases,
}
use agentfab.ControlPlane.{Node, AgentInstance}
use agentfab.ControlPlane.Memory.{MemoryStore}
use agentfab.ControlPlane.Memory.Members.{list_nodes}
use agentfab.Placement.Choice.{stands_on, nodes_of, instance_node_map}

abbrev later : Option Node → Option Node → Option Node
later none n = n
later (some m) n = some m

later-now :
    (a : Option Node) (n : Node) (b : Option Node) → later a (some n) ≡ later (later a (some n)) b
later-now none n b = refl
later-now (some m) n b = refl

later-none : (a : Option Node) → later a none ≡ a
later-none none = refl
later-none (some m) = refl

-- The last node of that id.
unfoldable pub last_of : String → List Node → Option Node
last_of id [] = none
last_of id (n ∷ ns) = later (last_of id ns) (if n.id == id then some n else none)

-- The node of an instance, among those that the store lists.
unfoldable pub node_of : MemoryStore → ℕ → AgentInstance → Option Node
unfolding last_of
node_of cp now i = if i.node_id == "" then none else last_of i.node_id (list_nodes cp now).1

module _ (is : List AgentInstance) where
  nodes_of-lookup :
      (ns : List Node) (nodes : Table Node) (id : String)
      → stands_on is id ≡ true
      → lookup id (nodes_of is ns nodes) ≡ later (last_of id ns) (lookup id nodes)
  unfolding nodes_of last_of
  nodes_of-lookup [] nodes id h = refl
  nodes_of-lookup (n ∷ ns) nodes id h = elim (Bool-cases (n.id == id)) [
    | inl t ↦
        let here : stands_on is n.id ≡ true =
          subst (λ k. stands_on is k ≡ true) (sym ((eq_iff n.id id).0 t)) h in
        let rest = nodes_of-lookup ns (insert n.id n nodes) id h in
        rw here (rest ∙ rw (lookup-insert n.id id n nodes, t) (later-now (last_of id ns) n _))
    | inr f ↦
        nodes_of-lookup ns (if stands_on is n.id then insert n.id n nodes else nodes) id h
        ∙ ground (arith, f, lookup-insert n.id id n nodes, later-none (last_of id ns))
  ]

  nodes_of-other :
      (ns : List Node) (nodes : Table Node) (id : String)
      → stands_on is id ≡ false
      → lookup id (nodes_of is ns nodes) ≡ lookup id nodes
  unfolding nodes_of
  nodes_of-other [] nodes id h = refl
  nodes_of-other (n ∷ ns) nodes id h =
      nodes_of-other ns (if stands_on is n.id then insert n.id n nodes else nodes) id h
      ∙ ground (arith, eq_iff n.id id, lookup-insert n.id id n nodes)

  -- Only what has an id is stood on.
  blank_free : stands_on is "" ≡ false
  unfolding stands_on
  blank_free = elim (Bool-cases (stands_on is "")) [
    | inl t ↦ let (i, m, h) = any-In _ is t in ground (arith, h)
    | inr f ↦ f
  ]

  stands_on-In :
      (i : AgentInstance) → In i is → (i.node_id == "") ≡ false → stands_on is i.node_id ≡ true
  unfolding stands_on
  stands_on-In i m h =
      In-any (λ x. not (x.node_id == "") && x.node_id == i.node_id) is i m
        (ground (arith, h, eq_iff i.node_id i.node_id))

  -- The map has the node of each instance.
  pub instance_node_map-node_of :
      (cp : MemoryStore) (now : ℕ) (i : AgentInstance)
      → In i is
      → lookup i.node_id (instance_node_map cp now is).1 ≡ node_of cp now i
  unfolding instance_node_map node_of lookup
  instance_node_map-node_of cp now i m =
      let listed = (list_nodes cp now).1 in
      elim (Bool-cases (i.node_id == "")) [
        | inl t ↦
            let apart =
              subst (λ k. stands_on is k ≡ false) (sym ((eq_iff i.node_id "").0 t)) blank_free in
            if-elim (λ (r : MemoryStore × Table Node). lookup i.node_id r.1 ≡ node_of cp now i)
              (any (λ i. not (i.node_id == "")) is)
              (nodes_of-other listed [] i.node_id apart ∙ rw t refl) (rw t refl)
        | inr f ↦
            let some_stand = In-any (λ x. not (x.node_id == "")) is i m (ap not f) in
            rw (some_stand, f)
              (nodes_of-lookup listed [] i.node_id (stands_on-In i m f)
                ∙ later-none (last_of i.node_id listed))
      ]
