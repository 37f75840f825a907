-- ===== src/TaskGraph/Search/Invariant.antt =====
-- What the loop of the searches in internal/taskgraph/dag.go keeps.
use agentfab.Prelude.Worklist.{Ending, returned, emptied, drain, Ends, Keeps, drain-Ends}
use agentfab.TaskGraph.Search.{search_dependents, hits, visit_children, is_returned}
use agentfab.TaskGraph.{TaskNode, TaskStatus, TaskGraph, find_task, dependents_of}
use agentfab.TaskGraph.Dependents.{Reach, here, step, DependsOn, In-dependents_of}
use mathlib.Core.Option
use agentfab.Prelude.{
  length-select-le, In-append_left, length-append, contains-false, In-append_right, sym,
  contains-In, length-map, ◌↔◌, subst, Bool-cases, In-map, In-append, inr, eq_iff, inl, arith, ◌⊎◌,
  map, select, ◌≢◌, In, Option, none, some, List, [], ◌∷◌, ◌++◌, ◌+◌, ◌≤◌, Bool, true, false, not,
  contains, length, ◌≡◌, refl, some, ◌∷◌, true, false, not, Option, List, Bool, String, ℕ,
}

-- How many task IDs are not yet visited.
abbrev unseen : List String → List String → ℕ
unseen ids visited = length (select (λ i. not (contains visited i)) ids)

unseen-cons-le :
    (ids visited : List String) (c : String) → unseen ids (c ∷ visited) ≤ unseen ids visited
unfolding select contains
unseen-cons-le [] visited c = omega arith
unseen-cons-le (i ∷ ids) visited c = ground (arith, unseen-cons-le ids visited c)

unseen-cons-lt :
    (ids visited : List String) (c : String)
    → In c ids
    → contains visited c ≡ false
    → unseen ids (c ∷ visited) + 1 ≤ unseen ids visited
unfolding select contains
unseen-cons-lt [] visited c m h = elim m [ ]
unseen-cons-lt (i ∷ ids) visited c (inl e) h =
    ground (arith, unseen-cons-le ids visited c, eq_iff c i)
unseen-cons-lt (i ∷ ids) visited c (inr m) h = ground (arith, unseen-cons-lt ids visited c m h)

-- The loop, on one graph, from one task and with one test.
module _ (test : TaskStatus → Bool) (tasks : List TaskNode) (start : String) where
  abbrev pub hit : String → Bool
  hit c = hits test (find_task tasks c)

  -- A task other than `start` that waits for it and passes the test.
  abbrev pub Found : Type 0
  Found = (c : String) × Reach tasks start c × (c ≢ start) × (hit c ≡ true)

  abbrev ids : List String
  ids = map (λ t. t.id) tasks

  -- While the children `cs` of `x` are still to be looked at.
  record Inv (x : String) (cs visited queue : List String) : Type 0 where
    started : In start visited
    current : In x visited
    queued : (y : String) → In y queue → In y visited
    reached : (y : String) → In y visited → Reach tasks start y
    clean : (y : String) → In y visited → (y ≡ start) ⊎ (hit y ≡ false)
    children : (c : String) → In c cs → DependsOn tasks x c
    closed :
        (y : String)
        → In y visited
        → In y queue ⊎ ((c : String) → DependsOn tasks y c → In c visited ⊎ ((y ≡ x) × In c cs))

  abbrev P : List String → List String → Type 0
  P visited queue = (x : String) × Inv x [] visited queue

  abbrev Q : Unit {0} → Type 0
  Q _ = Found

  abbrev measure : List String → ℕ
  measure visited = unseen ids visited

  -- A child that was visited before is passed over.
  skip-Inv :
      {x c : String} {cs visited queue : List String}
      → Inv x (c ∷ cs) visited queue
      → In c visited
      → Inv x cs visited queue
  skip-Inv {x} {c} {cs} {visited} inv old = record {
    started = inv.started;
    current = inv.current;
    queued = inv.queued;
    reached = inv.reached;
    clean = inv.clean;
    children = λ d m. inv.children d (inr m);
    closed = λ y m. elim (inv.closed y m) [
      | inl q ↦ inl q
      | inr f ↦ inr (λ d dep. elim (f d dep) [
        | inl v ↦ inl v
        | inr (_, inl e) ↦ inl (subst (λ z. In z visited) (sym e) old)
        | inr (same, inr k) ↦ inr (same, k)
      ])
    ];
  }

  -- A new child is marked and queued.
  push-Inv :
      {x c : String} {cs visited queue : List String}
      → Inv x (c ∷ cs) visited queue
      → hit c ≡ false
      → Inv x cs (c ∷ visited) (queue ++ c ∷ [])
  push-Inv {x} {c} {cs} {visited} {queue} inv miss = record {
    started = inr inv.started;
    current = inr inv.current;
    queued = λ y m. elim (In-append y queue (c ∷ []) m) [
      | inl q ↦ inr (inv.queued y q)
      | inr (inl e) ↦ inl e
      | inr (inr none_left) ↦ absurd none_left
    ];
    reached = λ y m. elim m [
      | inl e ↦
          subst (Reach tasks start) (sym e)
            (step (inv.reached x inv.current) (inv.children c (inl refl)))
      | inr k ↦ inv.reached y k
    ];
    clean = λ y m. elim m [ inl e ↦ inr (rw e miss) | inr k ↦ inv.clean y k ];
    children = λ d m. inv.children d (inr m);
    closed = λ y m. elim m [
      | inl e ↦ inl (In-append_right y queue (c ∷ []) (inl e))
      | inr k ↦ elim (inv.closed y k) [
        | inl q ↦ inl (In-append_left y queue (c ∷ []) q)
        | inr f ↦ inr (λ d dep. elim (f d dep) [
          | inl v ↦ inl (inr v)
          | inr (_, inl e) ↦ inl (inl e)
          | inr (same, inr j) ↦ inr (same, j)
        ])
      ]
    ];
  }

  -- The task that an item of the queue stands for is one of the graph.
  child_id : {x c : String} → DependsOn tasks x c → In c ids
  child_id d = In-map (λ (t : TaskNode). t.id) d.task tasks d.listed d.named

  visit-Keeps :
      (visited₀ queue₀ : List String) (x : String) (cs visited queue : List String)
      → Inv x cs visited queue
      → measure visited + length queue ≤ measure visited₀ + length queue₀
      → Keeps P Q measure visited₀ queue₀ (visit_children test tasks cs visited queue)
  unfolding visit_children
  visit-Keeps visited₀ queue₀ x [] visited queue inv h = ((x, inv), h)
  visit-Keeps visited₀ queue₀ x (c ∷ cs) visited queue inv h =
      elim (Bool-cases (contains visited c)) [
        | inl old ↦ rw old (
            visit-Keeps visited₀ queue₀ x cs visited queue
              (skip-Inv inv (contains-In visited c old)) h)
        | inr new ↦ elim (Bool-cases (hit c)) [
          | inl found ↦
              rw (new, found)
                (
                  c,
                  step (inv.reached x inv.current) (inv.children c (inl refl)),
                  λ e. contains-false visited c new (subst (λ z. In z visited) (sym e) inv.started),
                  found,
                )
          | inr miss ↦
              rw (new, miss)
                (visit-Keeps visited₀ queue₀ x cs (c ∷ visited) (queue ++ c ∷ [])
                  (push-Inv inv miss)
                  (omega (
                    arith,
                    unseen-cons-lt ids visited c (child_id (inv.children c (inl refl))) new,
                    length-append queue (c ∷ []),
                  )))
        ]
      ]

  round-Keeps :
      (x : String) (visited queue : List String)
      → P visited (x ∷ queue)
      → Keeps P Q measure visited queue
          (visit_children test tasks (dependents_of tasks x) visited queue)
  round-Keeps x visited queue (_, inv) =
      visit-Keeps visited queue x (dependents_of tasks x) visited queue inv' (omega arith)
    where
      inv' : Inv x (dependents_of tasks x) visited queue
      inv' = record {
        started = inv.started;
        current = inv.queued x (inl refl);
        queued = λ y m. inv.queued y (inr m);
        reached = inv.reached;
        clean = inv.clean;
        children = λ c m. (In-dependents_of tasks x c).0 m;
        closed = λ y m. elim (inv.closed y m) [
          | inl (inl e) ↦ inr (λ d dep.
              inr (e, (In-dependents_of tasks x d).1 (subst (λ z. DependsOn tasks z d) e dep)))
          | inl (inr q) ↦ inl q
          | inr f ↦
              inr
                (λ d dep. elim (f d dep) [ inl v ↦ inl v | inr (_, none_left) ↦ absurd none_left ])
        ];
      }

  start-P : P (start ∷ []) (start ∷ [])
  start-P = (
    start,
    record {
      started = inl refl;
      current = inl refl;
      queued = λ y m. m;
      reached = λ y m. elim m [
        | inl e ↦ subst (Reach tasks start) (sym e) here
        | inr none_left ↦ absurd none_left
      ];
      clean = λ y m. elim m [ inl e ↦ inl e | inr none_left ↦ absurd none_left ];
      children = λ c m. absurd m;
      closed = λ y m. inl m;
    },
  )

  -- With an empty queue everything reachable was visited.
  all_visited :
      {x : String} {visited : List String}
      → Inv x [] visited []
      → {c : String} → Reach tasks start c
      → In c visited
  all_visited inv here = inv.started
  all_visited inv (step {a} {b} r d) = elim (inv.closed a (all_visited inv r)) [
    | inl none_left ↦ absurd none_left
    | inr f ↦ elim (f b d) [ inl v ↦ v | inr (_, none_left) ↦ absurd none_left ]
  ]

  not-Found : {visited : List String} → P visited [] → ¬ Found
  not-Found (_, inv) (c, r, other, yes_hit) = elim (inv.clean c (all_visited inv r)) [
    | inl e ↦ other e
    | inr miss ↦ cc
  ]

  -- The answer of an ended loop.
  Answers : Option (Ending (List String) (Unit {0})) → Type 0
  Answers o = (b : Bool) × (Option.map is_returned o ≡ some b) × ((b ≡ true) ↔ Found)

  Ends-Answers : (o : Option (Ending (List String) (Unit {0}))) → Ends P Q measure o → Answers o
  unfolding Answers
  Ends-Answers none e = absurd e
  Ends-Answers (some (returned _)) e = (true, refl, ((λ _. e), (λ _. refl)))
  Ends-Answers (some (emptied s)) e =
      (false, refl, ((λ h. absurd (cc)), (λ f. absurd (not-Found e f))))

  -- The loop ends, and says whether such a task exists.
  loop_lem : Answers (
      drain
        (length tasks + 1)
        (λ x visited queue. visit_children test tasks (dependents_of tasks x) visited queue)
        (start ∷ [])
        (start ∷ []))
  loop_lem = Ends-Answers _ (
      drain-Ends P Q measure _ round-Keeps (length tasks + 1) (start ∷ []) (start ∷ [])
        (omega (
          arith,
          length-select-le (λ i. not (contains (start ∷ []) i)) ids,
          length-map (λ (t : TaskNode). t.id) tasks,
        ))
        start-P)

pub search_lem :
    (test : TaskStatus → Bool) (g : TaskGraph) (id : String)
    → (b : Bool) × (search_dependents test g id ≡ some b) × ((b ≡ true) ↔ Found test g.tasks id)
unfolding search_dependents Answers
search_lem test g id = loop_lem test g.tasks id
