-- ===== src/Knowledge/Cold/Restore/Returned.antt =====
-- Nodes that internal/knowledge/cold.go moves to the cold graph and then brings back.
use agentfab.Prelude.{
  ℕ, String, List, [], ◌∷◌, ◌==◌, eq_iff, ◌≡◌, refl, ◌∙◌, inl, inr, if◌then◌else◌, if-elim, Option,
  none, some, lookup, lookup-insert, lookup-delete, contains, arith, ok,
}
use agentfab.Prelude.Int.{pos, ◌≤ℤ◌}
use agentfab.Loop.{is_empty}
use agentfab.Knowledge.{Node, Graph, ColdStorageOpts, days, retention_days}
use agentfab.Knowledge.Merge.Merged.{Distinct}
use agentfab.Knowledge.Cold.{Storage, Persists, or_new, Moving, leaves, move_to_cold, load_cold}
use agentfab.Knowledge.Cold.Moved.{ids_of}
use agentfab.Knowledge.Cold.Conserved.{IsConserved, move_to_cold-conserves}
use agentfab.Knowledge.Cold.Restore.{
  Restoring, restore_node, restore_nodes, restore_edges, restore_all, restore_from_cold,
}

abbrev or_else : Option Node → Option Node → Option Node
or_else none b = b
or_else (some n) b = some n

module _ (st : Storage) where
  found-active :
      (x : String) (o : Option Node) (r : Restoring st) (id : String)
      → lookup x r.cold.nodes ≡ o
      → lookup id (restore_node st x o r).active.nodes ≡ (
          if x == id
          then or_else (lookup id r.cold.nodes) (lookup id r.active.nodes)
          else lookup id r.active.nodes)
  unfolding restore_node
  found-active x none r id h = ground (arith, eq_iff x id, h)
  found-active x (some n) r id h =
      ground (arith, eq_iff x id, h, lookup-insert x id n r.active.nodes)

  found-cold :
      (x : String) (o : Option Node) (r : Restoring st) (id : String)
      → lookup x r.cold.nodes ≡ o
      → lookup id (restore_node st x o r).cold.nodes
        ≡ (if x == id then none else lookup id r.cold.nodes)
  unfolding restore_node
  found-cold x none r id h = ground (arith, eq_iff x id, h)
  found-cold x (some n) r id h = lookup-delete x id r.cold.nodes

  restore_nodes-active :
      (ids : List String) (r : Restoring st) (id : String)
      → lookup id (restore_nodes st ids r).active.nodes ≡ (
          if contains ids id
          then or_else (lookup id r.cold.nodes) (lookup id r.active.nodes)
          else lookup id r.active.nodes)
  unfolding restore_nodes contains
  restore_nodes-active [] r id = refl
  restore_nodes-active (x ∷ ids) r id =
      restore_nodes-active ids (restore_node st x (lookup x r.cold.nodes) r) id
      ∙ rw (found-active x (lookup x r.cold.nodes) r id refl)
          (rw (found-cold x (lookup x r.cold.nodes) r id refl) (ground arith))

  -- What a node is after it has moved and come back.
  restore_all-active :
      (ids : List String) (r : Restoring st) (id : String)
      → lookup id (restore_all st ids r).active.nodes ≡ (
          if contains ids id
          then or_else (lookup id r.cold.nodes) (lookup id r.active.nodes)
          else lookup id r.active.nodes)
  unfolding restore_all restore_edges
  restore_all-active ids r id =
      let after = restore_nodes st ids r in
      if-elim
        (λ (a : Restoring st). lookup id a.active.nodes ≡ (
          if contains ids id
          then or_else (lookup id r.cold.nodes) (lookup id r.active.nodes)
          else lookup id r.active.nodes))
        (is_empty after.restored) (restore_nodes-active ids r id) (restore_nodes-active ids r id)

module _ (st : Storage) (lower : String → String) (now : ℕ) (opts : ColdStorageOpts)
    (disk : st.Disk) (active : Graph) where
  abbrev pub moving : Moving st
  moving = move_to_cold st lower now opts disk active

  abbrev pub returned : Node → Node
  returned n = if leaves lower now opts n then record n { updated_at = now } else n

  conserved-back :
      (cold kept : Graph) (r : Moving st) (id : String) (n : Node)
      → IsConserved st lower now opts disk active cold kept r id n
      → (if contains r.moved id
          then or_else (lookup id kept.nodes) (lookup id r.active.nodes)
          else lookup id r.active.nodes)
        ≡ some (returned n)
  conserved-back cold kept r id n (inl (t, m, a, c)) = rw m (rw c (rw t refl))
  conserved-back cold kept r id n (inr (f, m, a, c)) = rw m (rw a (rw f refl))

  -- On a storage that reads what it wrote, with a retention that does not overflow, a cold graph that can be
  -- read or none, and no ID twice in the active graph: if MoveToCold succeeds, the cold graph can be loaded,
  -- and if the nodes that have moved are brought back from it, each node of the active graph is active
  -- again, as it was but for the time of its move.
  pub restore-move_to_cold :
      (cold : Option Graph) (id : String) (n : Node)
      → Persists st
      → load_cold st disk ≡ ok cold
      → moving.result ≡ ok tt
      → Distinct (ids_of active.nodes)
      → lookup id active.nodes ≡ some n
      → pos 0 ≤ℤ days (retention_days opts)
      → (kept : Graph) × (r : Restoring st) × (load_cold st moving.disk ≡ ok (some kept))
        × (restore_from_cold st moving.disk (some moving.active) (some kept) moving.moved ≡ ok r)
        × (lookup id r.active.nodes ≡ some (returned n))
  unfolding restore_from_cold
  restore-move_to_cold cold id n persists loaded done distinct there retention =
      let (kept, stored, conserved) =
        move_to_cold-conserves st lower now opts disk active cold id n persists loaded done distinct
          there retention in
      (
        kept,
        _,
        stored,
        refl,
        restore_all-active st moving.moved _ id
            ∙ conserved-back (or_new cold) kept moving id n conserved,
      )
