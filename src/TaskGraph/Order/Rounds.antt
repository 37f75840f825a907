-- ===== src/TaskGraph/Order/Rounds.antt =====
-- The rounds of `TopologicalSort` in internal/taskgraph/dag.go, from the first to the last.
use agentfab.TaskGraph.Order.Invariant.{
  Inv, P, Q, measure, Follows-snoc, Distinct-middle, unique_task, lowered, left, degree_before,
  keep-Inv, push-Inv,
}
use mathlib.Core.List.{append_assoc}
use agentfab.Prelude.{
  length-select-le, length-map, ap, ◌∙◌, Table, In-append_right, ◌+◌, ◌≤◌, String, List, [], ◌∷◌,
  ◌++◌, Bool, false, ◌≡◌, refl, sym, inl, inr, subst, nat_eq, length, length-append, In, arith,
  Bool-cases, select, contains, In-select, select-In, map-In, In-map, contains_absent,
}
use agentfab.Prelude.Int.{decrement_pos, ℤ, pos, decrement}
use agentfab.Prelude.Worklist.{drain, Ends, Keeps, drain-Ends}
use agentfab.TaskGraph.{TaskNode, dependents_of}
use agentfab.TaskGraph.Dependents.{DependsOn, In-dependents_of}
use agentfab.TaskGraph.Order.{
  is_zero, degree, Sorting, release, sort_round, collect_degrees, roots, edges,
}
use agentfab.TaskGraph.Order.Degrees.{
  total_nil, Distinct, ids, count, blocked, blocked-snoc, blocked-zero, blocked_nil,
  count-dependents_of, degree-collect, total, total-insert, total-collect-le,
}

Distinct-ids-select :
    (p : TaskNode → Bool) (tasks : List TaskNode)
    → Distinct (ids tasks)
    → Distinct (ids (select p tasks))
unfolding select
Distinct-ids-select p [] d = tt
Distinct-ids-select p (t ∷ ts) d = elim (Bool-cases (p t)) [
  | inl y ↦ rw y (
    (λ m.
        let (u, k, e) = map-In (λ (t : TaskNode). t.id) t.id (select p ts) m in
        d.0 (In-map (λ (t : TaskNode). t.id) u ts (In-select p u ts k).0 e)),
    Distinct-ids-select p ts d.1,
  )
  | inr n ↦ rw n (Distinct-ids-select p ts d.1)
]

module _ (tasks : List TaskNode) (distinct : Distinct (ids tasks)) where
  release-Keeps :
      (s₀ : Sorting) (queue₀ : List String) (cs : List String) (s : Sorting) (queue : List String)
      → Inv tasks distinct cs s queue
      → total s.in_degree + length queue ≤ total s₀.in_degree + length queue₀
      → Keeps
          (P tasks distinct)
          (Q tasks distinct)
          (measure tasks distinct)
          s₀
          queue₀
          (release cs s queue)
  unfolding release
  release-Keeps s₀ queue₀ [] s queue inv h = (inv, h)
  release-Keeps s₀ queue₀ (c ∷ cs) s queue inv h =
      let (t, m, e) = inv.named c (inl refl) in
      let before = degree_before tasks distinct inv t m e in
      let k = left tasks distinct inv t m e in
      let lower = total-insert c k s.in_degree before in
      let down : decrement (degree s.in_degree c) ≡ pos k = decrement_pos before in
      elim (Bool-cases (nat_eq k 0)) [
        | inl last ↦
            rw (down, last)
              (release-Keeps s₀ queue₀ cs (lowered tasks distinct inv t m e) (queue ++ c ∷ [])
                (push-Inv tasks distinct inv t m e (ground arith))
                (omega (arith, lower, length-append queue (c ∷ []))))
        | inr more ↦
            rw (down, more)
              (release-Keeps s₀ queue₀ cs (lowered tasks distinct inv t m e) queue
                (keep-Inv tasks distinct inv t m e (ground arith)) (omega (arith, lower)))
      ]

  -- The next item goes behind all that it depends on.
  next-Inv :
      (x : String) (s : Sorting) (queue : List String)
      → P tasks distinct s (x ∷ queue)
      → Inv tasks distinct (dependents_of tasks x) (record s { sorted = s.sorted ++ x ∷ [] }) queue
  unfolding count
  next-Inv x s queue inv = record {
    degrees = λ t m. inv.degrees t m ∙ ap pos (fewer t m);
    known = λ c k.
        let (t, m, e, h) = inv.known c (rw (append_assoc s.sorted (x ∷ []) queue) at k) in
        (t, m, e, omega (arith, fewer t m));
    free = λ t m h.
        rw (append_assoc s.sorted (x ∷ []) queue) (inv.free t m (omega (arith, fewer t m)));
    once = rw (append_assoc s.sorted (x ∷ []) queue) inv.once;
    follows = Follows-snoc tasks [] s.sorted x inv.follows (λ d dep. inr (placed d dep));
    named = λ c k. let d = (In-dependents_of tasks x c).0 k in (d.task, d.listed, d.named);
  }
    where
      new : contains s.sorted x ≡ false
      new = contains_absent s.sorted x (Distinct-middle s.sorted x queue inv.once)

      fewer :
          (t : TaskNode)
          → In t tasks
          → blocked s.sorted t.depends_on + 0
            ≡ blocked (s.sorted ++ x ∷ []) t.depends_on + count t.id (dependents_of tasks x)
      fewer t m = omega (
        arith,
        blocked-snoc s.sorted x t.depends_on new,
        count-dependents_of tasks x t distinct m,
      )

      placed : (d : String) → DependsOn tasks d x → In d s.sorted
      placed d dep =
          let (t, m, e, h) = inv.known x (In-append_right x s.sorted (x ∷ queue) (inl refl)) in
          let same : dep.task ≡ t =
            unique_task tasks dep.task t distinct dep.listed m (dep.named ∙ sym e) in
          blocked-zero s.sorted t.depends_on d (omega arith)
            (subst (λ (u : TaskNode). In d u.depends_on) same dep.dep)

  round-Keeps :
      (x : String) (s : Sorting) (queue : List String)
      → P tasks distinct s (x ∷ queue)
      → Keeps
          (P tasks distinct)
          (Q tasks distinct)
          (measure tasks distinct)
          s
          queue
          (sort_round tasks x s queue)
  round-Keeps x s queue inv =
      release-Keeps s queue (dependents_of tasks x) (record s { sorted = s.sorted ++ x ∷ [] }) queue
        (next-Inv x s queue inv) (omega arith)

  abbrev degrees₀ : Table ℤ
  degrees₀ = collect_degrees tasks []

  start-P : P tasks distinct (record { in_degree = degrees₀; sorted = [] }) (roots degrees₀ tasks)
  unfolding count
  start-P = record {
    degrees = λ t m. at_start t m;
    known = λ c k.
        let (t, j, e) = map-In (λ (t : TaskNode). t.id) c (select is_root tasks) k in
        let (m, h) = In-select is_root t tasks j in (t, m, e, ground (arith, at_start t m));
    free = λ t m h.
        In-map (λ (t : TaskNode). t.id) t (select is_root tasks)
          (select-In is_root t tasks m (ground (arith, at_start t m))) refl;
    once = Distinct-ids-select is_root tasks distinct;
    follows = tt;
    named = λ c m. absurd m;
  }
    where
      is_root : TaskNode → Bool
      is_root t = is_zero (degree degrees₀ t.id)

      at_start :
          (t : TaskNode) → In t tasks → degree degrees₀ t.id ≡ pos (blocked [] t.depends_on + 0)
      at_start t m =
          degree-collect tasks [] t distinct m ∙ ap pos (omega (arith, blocked_nil t.depends_on))

  pub sort-Ends : Ends (P tasks distinct) (Q tasks distinct) (measure tasks distinct) (
      drain
        (length tasks + edges tasks)
        (sort_round tasks)
        (record { in_degree = degrees₀; sorted = [] })
        (roots degrees₀ tasks))
  sort-Ends =
      drain-Ends (P tasks distinct) (Q tasks distinct) (measure tasks distinct) (sort_round tasks)
        round-Keeps (length tasks + edges tasks) (record { in_degree = degrees₀; sorted = [] })
        (roots degrees₀ tasks)
        (omega (
          arith,
          total-collect-le tasks [],
          total_nil,
          length-map (λ (t : TaskNode). t.id) (select (λ t. is_zero (degree degrees₀ t.id)) tasks),
          length-select-le (λ (t : TaskNode). is_zero (degree degrees₀ t.id)) tasks,
        ))
        start-P
