-- ===== src/TaskGraph/Readiness/Progress.antt =====
-- The scheduling queries of internal/taskgraph/dag.go against the state of the tasks.
use agentfab.Prelude.{
  String, List, [], ◌∷◌, true, ◌≡◌, refl, sym, ◌≢◌, ◌↔◌, ◌⊎◌, inl, inr, arith, Bool-cases, In,
  In-select, select-In, In-map, map-In, contains-In, In-contains, select, any, any-In, subst,
}
use agentfab.TaskGraph.{TaskNode, pending, completed, escalated, TaskGraph}
use agentfab.TaskGraph.Order.Degrees.{Distinct, ids}
use agentfab.TaskGraph.Order.Invariant.{Follows, unique_task}
use agentfab.TaskGraph.Order.Correct.{IsOrder}
use agentfab.TaskGraph.Readiness.{
  is_passed, is_open, passed_ids, all_in, ready_tasks, all_done, failure_summaries,
  failure_summaries_of, has_failed, has_failures,
}

-- A task of that ID is completed or escalated.
abbrev pub Passed : TaskGraph → String → Type 0
Passed g d =
    (u : TaskNode) × In u g.tasks × (u.id ≡ d) × ((u.status ≡ completed) ⊎ (u.status ≡ escalated))

abbrev pub IsReady : TaskGraph → TaskNode → Type 0
IsReady g t = In t g.tasks × (t.status ≡ pending) × ((d : String) → In d t.depends_on → Passed g d)

all_in_iff :
    (done ds : List String) → (all_in done ds ≡ true) ↔ ((d : String) → In d ds → In d done)
unfolding all_in
all_in_iff done [] = ((λ _ d m. absurd m), (λ _. refl))
all_in_iff done (x ∷ ds) = (
  λ h d m. elim m [
    | inl e ↦ subst (λ z. In z done) (sym e) (contains-In done x (ground arith))
    | inr k ↦ (all_in_iff done ds).0 (ground arith) d k
  ],
  λ h. rw (In-contains done x (h x (inl refl))) ((all_in_iff done ds).1 (λ d m. h d (inr m))),
)

passed_ids_iff : (g : TaskGraph) (d : String) → In d (passed_ids g.tasks) ↔ Passed g d
passed_ids_iff g d = (
  λ m.
      let (u, k, e) =
        map-In (λ (t : TaskNode). t.id) d (select (λ t. is_passed t.status) g.tasks) m in
      let (l, p) = In-select (λ t. is_passed t.status) u g.tasks k in (u, l, e, ground arith),
  λ (u, l, e, p).
      In-map (λ (t : TaskNode). t.id) u (select (λ t. is_passed t.status) g.tasks)
        (select-In (λ t. is_passed t.status) u g.tasks l (ground arith)) e,
)

-- `ReadyTasks` returns exactly the pending tasks whose dependencies are all completed or escalated.
pub ready_tasks-IsReady : (g : TaskGraph) (t : TaskNode) → In t (ready_tasks g) ↔ IsReady g t
unfolding ready_tasks
ready_tasks-IsReady g t = (
  λ m.
      let (k, h) = In-select _ t g.tasks m in
      (
        k,
        ground arith,
        λ d j.
            (passed_ids_iff g d).0
              ((all_in_iff (passed_ids g.tasks) t.depends_on).0 (ground arith) d j),
      ),
  λ (k, p, h). select-In _ t g.tasks k (
      ground (
        arith,
        (all_in_iff (passed_ids g.tasks) t.depends_on).1 (λ d j. (passed_ids_iff g d).1 (h d j)),
      )),
)

module _ (g : TaskGraph) (distinct : Distinct (ids g.tasks))
    (statuses : (t : TaskNode)
      → In t g.tasks
      → (t.status ≡ pending) ⊎ ((t.status ≡ completed) ⊎ (t.status ≡ escalated))) where
  -- Along an order, everything is passed, or something is ready.
  Follows-IsReady :
      (seen xs : List String)
      → Follows g.tasks seen xs
      → ((c : String) → In c xs → In c (ids g.tasks))
      → ((c : String) → In c seen → Passed g c)
      → ((t : TaskNode) × IsReady g t) ⊎ ((c : String) → In c xs → Passed g c)
  Follows-IsReady seen [] f named done = inr (λ c m. absurd m)
  Follows-IsReady seen (x ∷ xs) f named done =
      let (t, k, e) = map-In (λ (t : TaskNode). t.id) x g.tasks (named x (inl refl)) in
      elim (statuses t k) [
        | inl p ↦
            inl (
              t,
              (k, p, λ d j. done d (f.0 d (record { task = t; listed = k; named = e; dep = j }))),
            )
        | inr p ↦
            let passed : Passed g x = (t, k, e, p) in
            elim (Follows-IsReady (x ∷ seen) xs f.1 (λ c m. named c (inr m))
              (λ c m. elim m [ inl e' ↦ subst (Passed g) (sym e') passed | inr j ↦ done c j ])) [
                | inl r ↦ inl r
                | inr all ↦
                    inr (λ c m. elim m [
                      | inl e' ↦ subst (Passed g) (sym e') passed
                      | inr j ↦ all c j
                    ])
              ]
      ]

  -- A graph with distinct IDs that has an order, and whose tasks are pending, completed or
  -- escalated, is never stuck: a task is ready, or `AllDone` holds.
  pub ready_or_done :
      (order : List String)
      → IsOrder g.tasks order
      → ((t : TaskNode) × In t (ready_tasks g)) ⊎ (all_done g ≡ true)
  unfolding all_done
  ready_or_done order o = elim (Bool-cases (any (λ t. is_open t.status) g.tasks)) [
    | inr closed ↦ inr (rw closed)
    | inl open_ ↦ elim (Follows-IsReady [] order o.follows o.known (λ c m. absurd m)) [
      | inl (t, r) ↦ inl (t, (ready_tasks-IsReady g t).1 r)
      | inr all ↦
          let (t, m, h) = any-In (λ t. is_open t.status) g.tasks open_ in
          let (u, k, e, p) = all t.id (o.complete t m) in
          let same = unique_task g.tasks u t distinct k m e in absurd (ground arith)
    ]
  ]

summaries_iff :
    (tasks : List TaskNode)
    → (any (λ t. has_failed t.status t) tasks ≡ true) ↔ (failure_summaries_of tasks ≢ [])
unfolding has_failed failure_summaries_of any
summaries_iff [] = ((λ h. absurd (cc)), (λ h. absurd (h refl)))
summaries_iff (t ∷ ts) = let ih = summaries_iff ts in (ground (arith, ih), ground (arith, ih))

-- `HasFailures` says whether `FailureSummaries` has an entry.
pub has_failures-failure_summaries :
    (g : TaskGraph) → (has_failures g ≡ true) ↔ (failure_summaries g ≢ [])
unfolding has_failures failure_summaries
has_failures-failure_summaries g = summaries_iff g.tasks
