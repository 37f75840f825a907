-- ===== src/Knowledge/Cold/Conserved.antt =====
-- internal/knowledge/cold.go, MoveToCold, as a whole: the active graph and the cold graph that is stored.
use agentfab.Prelude.{
  ℕ, String, [], ◌∷◌, Bool, true, false, not, ◌==◌, eq_iff, ◌≡◌, refl, sym, subst, ap, ◌∙◌, ◌⊎◌,
  inl, inr, if-elim, if◌then◌else◌, Option, none, some, Table, lookup, select, In, In-select,
  Option-cases, contains, arith, Bool-cases, Result, ok, err,
}
use agentfab.Prelude.Int.{ℤ, pos, leb_ℤ, ◌≤ℤ◌}
use agentfab.Loop.{is_empty}
use agentfab.Knowledge.{Node, Graph, ColdStorageOpts, days, since, retention_days}
use agentfab.Knowledge.Merge.Merged.{Distinct}
use agentfab.Knowledge.Prune.Pruned.{IsConnected}
use agentfab.Knowledge.Cold.{
  Storage, Persists, ColdError, cold_unwritten, cold_graph_path, save_cold, purged_with, Move,
  Moving, leaves, touches, split_edges, move_all, move_with, move_to_cold, load_cold, expired,
  purge_cold_expired, or_new, move_loaded,
}
use agentfab.Knowledge.Cold.Moved.{
  ids_of, picked_iff, lookup-In, move_nodes-active, move_nodes-moved, move_nodes-cold,
  move_nodes-old,
}

lookup-select :
    (test : String × Node → Bool) (ps : Table Node) (id : String) (n : Node)
    → lookup id ps ≡ some n
    → test (id, n) ≡ true
    → lookup id (select test ps) ≡ some n
unfolding lookup select
lookup-select test [] id n h t = absurd (cc h)
lookup-select test ((k, x) ∷ ps) id n h t = elim (Bool-cases (k == id)) [
  | inl e ↦
      let same : ◌≡◌ {A = String × Node} (k, x) (id, n) = ground (arith, eq_iff k id) in
      let passes : test (k, x) ≡ true = ap test same ∙ t in rw passes (ground arith)
  | inr f ↦
      let rest = lookup-select test ps id n (rw f at h) t in
      if-elim (λ (l : Table Node). lookup id l ≡ some n) (test (k, x)) (rw f rest) rest
]

fresh-not_expired :
    (now : ℕ) (threshold : ℤ) (id : String) (n : Node)
    → pos 0 ≤ℤ threshold
    → expired now threshold (id, record n { updated_at = now }) ≡ false
unfolding expired since
fresh-not_expired now threshold id n h = ground arith

-- A node that has just come is not purged.
purge-keeps :
    (now : ℕ) (retention : ℤ) (g : Graph) (id : String) (n : Node)
    → pos 0 ≤ℤ days retention
    → lookup id g.nodes ≡ some (record n { updated_at = now })
    → lookup id (purge_cold_expired now retention g).0.nodes ≡ some (record n { updated_at = now })
unfolding purge_cold_expired
purge-keeps now retention g id n h there =
    let kept =
      lookup-select (λ p. not (expired now (days retention) p)) g.nodes id _ there
        (ap not (fresh-not_expired now (days retention) id n h)) in
    if-elim (λ (r : Graph × ℕ). lookup id r.0.nodes ≡ some (record n { updated_at = now }))
      (leb_ℤ retention (pos 0)) there
      (if-elim (λ (r : Graph × ℕ). lookup id r.0.nodes ≡ some (record n { updated_at = now }))
        (is_empty (select (expired now (days retention)) g.nodes)) there kept)

-- What is left after the purge was there before.
purge-In :
    (now : ℕ) (retention : ℤ) (g : Graph) (p : String × Node)
    → In p (purge_cold_expired now retention g).0.nodes
    → In p g.nodes
unfolding purge_cold_expired
purge-In now retention g p =
    let P : Graph × ℕ → Type 0 = λ r. In p r.0.nodes → In p g.nodes in
    if-elim P (leb_ℤ retention (pos 0)) (λ m. m)
      (if-elim P (is_empty (select (expired now (days retention)) g.nodes)) (λ m. m)
        (λ m. (In-select (λ q. not (expired now (days retention) q)) p g.nodes m).0))

-- A cold graph that was saved is loaded again.
save_cold-load_cold :
    (st : Storage)
    → Persists st
    → (disk : st.Disk) (g : Graph) → (save_cold st disk g).1 ≡ ok tt
    → load_cold st (save_cold st disk g).0 ≡ ok (some g)
unfolding save_cold load_cold
save_cold-load_cold st persists disk g h = elim (Option-cases (st.encode g)) [
  | inl e ↦ absurd (cc (rw e at h))
  | inr (d, e) ↦
      let done : (if (st.write disk cold_graph_path d).1 then ok tt else err cold_unwritten)
          ≡ ok tt =
        rw e at h in
      let fine : (st.write disk cold_graph_path d).1 ≡ true = ground (arith, done) in
      let (there, read) = persists.written disk cold_graph_path d fine in
      rw e (rw there (rw read (rw (persists.back g d e) refl)))
]

module _ (st : Storage) (lower : String → String) (now : ℕ) (opts : ColdStorageOpts)
    (disk : st.Disk) (active : Graph) where
  -- A node that leaves, with the new time, and one that does not: `kept` has it only if `cold` had it.
  abbrev pub IsConserved : Graph → Graph → Moving st → String → Node → Type 0
  IsConserved cold kept r id n =
      ((leaves lower now opts n ≡ true)
        × (contains r.moved id ≡ true)
        × (lookup id r.active.nodes ≡ none)
        × (lookup id kept.nodes ≡ some (record n { updated_at = now })))
      ⊎ ((leaves lower now opts n ≡ false)
          × (contains r.moved id ≡ false)
          × (lookup id r.active.nodes ≡ some n)
          × ((x : Node) → lookup id kept.nodes ≡ some x → In (id, x) cold.nodes))

  start : Graph → Move st
  start cold = record { disk = disk; active = active.nodes; cold = cold.nodes; moved = [] }

  -- The cold graph that is saved.
  saved : Graph → Graph
  saved cold =
      record (purged_with st now opts active cold (move_all st lower now opts disk active cold)).0 {
        updated_at = now;
      }

  move_with-conserves :
      (cold : Graph) (id : String) (n : Node)
      → Distinct (ids_of active.nodes)
      → lookup id active.nodes ≡ some n
      → pos 0 ≤ℤ days (retention_days opts)
      → IsConserved cold (saved cold) (move_with st lower now opts disk active cold) id n
  unfolding move_with move_all split_edges purged_with saved start contains
  move_with-conserves cold id n distinct there retention =
      let test = leaves lower now opts in
      let place = lookup-In active.nodes id n there in
      let gone = picked_iff test active.nodes id n distinct place in
      let left = move_nodes-active st now test active.nodes (start cold) id in
      let moved = move_nodes-moved st now test active.nodes (start cold) id in
      elim (Bool-cases (test n)) [
        | inl t ↦ inl (
          t,
          moved ∙ gone ∙ t,
          left ∙ rw (gone ∙ t) refl,
          purge-keeps now (retention_days opts) _ id n retention
              (move_nodes-cold st now test active.nodes (start cold) id n distinct place t),
        )
        | inr f ↦ inr (
          f,
          moved ∙ gone ∙ f,
          left ∙ rw (gone ∙ f) there,
          λ x h.
              move_nodes-old st now test active.nodes (start cold) id x (gone ∙ f) (
                purge-In now (retention_days opts) _ (id, x) (lookup-In (saved cold).nodes id x h)),
        )
      ]

  move_with-saved :
      (cold : Graph)
      → Persists st
      → (move_with st lower now opts disk active cold).result ≡ ok tt
      → load_cold st (move_with st lower now opts disk active cold).disk ≡ ok (some (saved cold))
  unfolding move_with saved
  move_with-saved cold persists h =
      save_cold-load_cold st persists (move_all st lower now opts disk active cold).disk
        (saved cold) h

  move_with-IsConnected :
      (cold : Graph)
      → IsConnected active
      → IsConnected (move_with st lower now opts disk active cold).active
  unfolding move_with move_all split_edges start contains
  move_with-IsConnected cold h e m =
      let test = leaves lower now opts in
      let moved = move_all st lower now opts disk active cold in
      let (there, apart) = In-select (λ x. not (touches moved.moved x)) e active.edges m in
      let end = λ (id : String). move_nodes-active st now test active.nodes (start cold) id in
      let known = λ (id : String). move_nodes-moved st now test active.nodes (start cold) id in
      ground (arith, h e there, apart, end e.from, end e.to, known e.from, known e.to)

  loaded-IsConnected :
      (r : Result ColdError (Option Graph))
      → IsConnected active
      → IsConnected (move_loaded st lower now opts disk active r).active
  unfolding move_loaded
  loaded-IsConnected (err e) h = h
  loaded-IsConnected (ok cold) h = move_with-IsConnected (or_new cold) h

  -- On a storage that reads what it wrote, with a retention that does not overflow, a cold graph that can be
  -- read or none, and no ID twice in the active graph: if MoveToCold succeeds, a cold graph is stored, and
  -- each node of the active graph is in the active graph or the stored one. If it is cold and no decision,
  -- it has moved: the stored graph has it with the new time, and the active one has none of its ID. If not,
  -- the active graph has it as it was, and what the stored graph has under its ID was in the cold graph
  -- before.
  pub move_to_cold-conserves :
      (cold : Option Graph) (id : String) (n : Node)
      → Persists st
      → load_cold st disk ≡ ok cold
      → (move_to_cold st lower now opts disk active).result ≡ ok tt
      → Distinct (ids_of active.nodes)
      → lookup id active.nodes ≡ some n
      → pos 0 ≤ℤ days (retention_days opts)
      → (kept : Graph) × (load_cold st (move_to_cold st lower now opts disk active).disk
          ≡ ok (some kept))
        × IsConserved (or_new cold) kept (move_to_cold st lower now opts disk active) id n
  unfolding move_to_cold move_loaded
  move_to_cold-conserves cold id n persists loaded done distinct there retention =
      let Kept : Moving st → Type 0 = λ r.
        (kept : Graph) × (load_cold st r.disk ≡ ok (some kept))
        × IsConserved (or_new cold) kept r id n in
      let fine =
        subst
          (λ (r : Result ColdError (Option Graph)).
            (move_loaded st lower now opts disk active r).result ≡ ok tt)
          loaded done in
      subst
        (λ (r : Result ColdError (Option Graph)).
          Kept (move_loaded st lower now opts disk active r))
        (sym loaded)
        (
          saved (or_new cold),
          move_with-saved (or_new cold) persists fine,
          move_with-conserves (or_new cold) id n distinct there retention,
        )

  -- If each edge of the active graph has both ends, each edge that it keeps has them.
  pub move_to_cold-IsConnected :
      IsConnected active → IsConnected (move_to_cold st lower now opts disk active).active
  unfolding move_to_cold
  move_to_cold-IsConnected h = loaded-IsConnected (load_cold st disk) h
