-- ===== src/Knowledge/Prune/Pruned.antt =====
-- The graph that internal/knowledge/prune.go leaves.
use mathlib.Core.List.{Perm}
use agentfab.Prelude.{
  ℕ, ◌≤◌, String, List, [], ◌∷◌, ◌++◌, true, false, not, ◌&&◌, ◌≡◌, ap, ◌∙◌, ◌⊎◌, inl, inr,
  if◌then◌else◌, none, Table, lookup, length, contains, In, In-select, arith,
}
use agentfab.Prelude.Int.{ℤ, pos, leb_ℤ, pos_part, ◌≤ℤ◌}
use agentfab.Loop.{is_empty}
use agentfab.Knowledge.{
  Node, Edge, Graph, PruneOpts, confidence_floor, max_nodes, is_stale, is_connected,
}
use agentfab.Knowledge.Prune.{
  delete_all, ids_where, is_doubtful, Ranked, Sort, excess_ids, clean_edges, prune,
}
use agentfab.Knowledge.Prune.Kept.{
  excess-length, left-passes, In-delete_all, lookup-delete_all, delete_all-append,
}

abbrev pub IsConnected : Graph → Type 0
IsConnected g = (e : Edge) → In e g.edges → is_connected g.nodes e ≡ true

-- What stays is fresh, and its confidence is unset or high enough.
abbrev pub Stays : ℕ → PruneOpts → Graph → String × Node → Type 0
Stays now opts g p =
    In p g.nodes
    × (is_stale now p.1 ≡ false)
    × ((p.1.confidence ≤ℤ pos 0) ⊎ (confidence_floor opts ≤ℤ p.1.confidence))

clean-connected :
    (evicted : List String) (nodes old : Table Node) (edges : List Edge)
    → nodes ≡ delete_all evicted old
    → ((e : Edge) → In e edges → is_connected old e ≡ true) ⊎ (is_empty evicted ≡ false)
    → (e : Edge) → In e (clean_edges evicted nodes edges)
    → is_connected nodes e ≡ true
unfolding clean_edges delete_all
clean-connected [] nodes old edges same (inl h) e m = rw same (h e m)
clean-connected [] nodes old edges same (inr h) e m = absurd (cc h)
clean-connected (x ∷ xs) nodes old edges same h e m = (In-select (is_connected nodes) e edges m).1

confident :
    (floor c : ℤ)
    → (not (leb_ℤ c (pos 0)) && not (leb_ℤ floor c)) ≡ false
    → (c ≤ℤ pos 0) ⊎ (floor ≤ℤ c)
confident floor c h = ground arith

module _ (sort : Sort) (sorts : (rs : List Ranked) → Perm (sort rs) rs) (now : ℕ) (opts : PruneOpts)
    (g : Graph) where
  prune-delete_all : (prune sort now opts g).0.nodes ≡ delete_all (prune sort now opts g).1 g.nodes
  unfolding prune
  prune-delete_all =
      let stale = ids_where (is_stale now) g.nodes in
      let fresh = delete_all stale g.nodes in
      let doubtful = ids_where (is_doubtful (confidence_floor opts)) fresh in
      let excess = excess_ids sort (pos_part (max_nodes opts)) (delete_all doubtful fresh) in
      delete_all-append doubtful excess fresh ∙ delete_all-append stale (doubtful ++ excess) g.nodes

  -- Whatever way the sort puts equals: no more nodes stay than the limit; what stays was there, is not
  -- stale, and is of unset or high enough confidence; and the IDs returned are those that have gone.
  pub prune-Stays :
      (length (prune sort now opts g).0.nodes ≤ pos_part (max_nodes opts))
      × ((p : String × Node) → In p (prune sort now opts g).0.nodes → Stays now opts g p)
      × ((id : String)
          → lookup id (prune sort now opts g).0.nodes
            ≡ (if contains (prune sort now opts g).1 id then none else lookup id g.nodes))
  unfolding prune is_doubtful
  prune-Stays = (
    excess-length sort sorts _ _,
    λ p m.
        let fresh = delete_all (ids_where (is_stale now) g.nodes) g.nodes in
        let doubtful = is_doubtful (confidence_floor opts) in
        let limit = pos_part (max_nodes opts) in
        let (in_sure, _) =
          In-delete_all (excess_ids sort limit (delete_all (ids_where doubtful fresh) fresh)) _ p
            m in
        let (in_fresh, sure) = left-passes doubtful fresh p in_sure in
        let (there, not_stale) = left-passes (is_stale now) g.nodes p in_fresh in
        (there, not_stale, confident _ _ sure),
    λ id. ap (lookup id) prune-delete_all ∙ lookup-delete_all _ _ id,
  )

  -- A graph whose edges have both ends is still one, and a graph from which something has gone is one.
  pub prune-IsConnected :
      IsConnected g ⊎ (is_empty (prune sort now opts g).1 ≡ false)
      → IsConnected (prune sort now opts g).0
  unfolding prune clean_edges
  prune-IsConnected h e m = clean-connected _ _ _ g.edges prune-delete_all h e m
