-- ===== src/TaskGraph/Failure/Invariant.antt =====
-- What the loop of `FailDependents` in internal/taskgraph/dag.go keeps.
use mathlib.Core.Option
use agentfab.Prelude.{
  eq_refl, Option-cases, ℕ, suc, ◌+◌, ◌≤◌, String, List, [], ◌∷◌, ◌++◌, true, false, ◌==◌, eq_iff,
  ◌≡◌, refl, sym, ◌⊎◌, inl, inr, subst, if◌then◌else◌, some, length, length-append, In, In-append,
  In-append_left, In-append_right, arith, Bool-cases,
}
use agentfab.Prelude.Worklist.{drain, Ends, Keeps, drain-Ends}
use agentfab.TaskGraph.{TaskNode, find_task, dependents_of}
use agentfab.TaskGraph.Dependents.{DependsOn, In-dependents_of, Reach, here, step}
use agentfab.TaskGraph.Failure.{
  is_settled_status, is_settled, fail, mark_failed, Progress, fail_children,
}

pub find_task-mark_failed :
    (message c d : String) (tasks : List TaskNode)
    → find_task (mark_failed message c tasks) d
      ≡ (if c == d then Option.map (fail message) (find_task tasks d) else find_task tasks d)
unfolding find_task mark_failed
find_task-mark_failed message c d [] = ground (arith, eq_iff c d)
find_task-mark_failed message c d (t ∷ ts) =
    ground (arith, eq_iff c d, eq_iff t.id c, eq_iff t.id d, find_task-mark_failed message c d ts)

-- The tasks that a cascade can still fail.
pub unsettled : List TaskNode → ℕ
unsettled [] = 0
unsettled (t ∷ ts) = if is_settled_status t.status then unsettled ts else suc (unsettled ts)

unsettled-mark_failed :
    (message c : String) (tasks : List TaskNode)
    → is_settled (find_task tasks c) ≡ false
    → unsettled (mark_failed message c tasks) + 1 ≡ unsettled tasks
unfolding find_task mark_failed unsettled
unsettled-mark_failed message c [] h = absurd (cc)
unsettled-mark_failed message c (t ∷ ts) h = elim (Bool-cases (t.id == c)) [
  | inl same ↦ ground arith
  | inr other ↦ ground (arith, unsettled-mark_failed message c ts)
]

unsettled-le : (tasks : List TaskNode) → unsettled tasks ≤ length tasks
unfolding unsettled
unsettled-le [] = omega arith
unsettled-le (t ∷ ts) = ground (arith, unsettled-le ts)

-- The loop, on one graph, from one failed task.
module _ (message : String) (tasks : List TaskNode) (start : String) where
  -- The task of an ID is as it was, or the cascade failed it.
  abbrev pub Entry : Progress → String → Type 0
  Entry p c =
      ((find_task p.tasks c ≡ find_task tasks c) × ¬ In c p.cascaded)
      ⊎ (In c p.cascaded
          × (t : TaskNode) × (find_task tasks c ≡ some t)
          × (is_settled_status t.status ≡ false)
          × (find_task p.tasks c ≡ some (fail message t)))

  abbrev pub Known : Progress → String → Type 0
  Known p y = (y ≡ start) ⊎ In y p.cascaded

  -- While the dependents `cs` of `x` are still to be looked at.
  pub record Inv (x : String) (cs : List String) (p : Progress) (queue : List String) : Type 0 where
    pub current : Known p x
    pub queued : (y : String) → In y queue → Known p y
    pub entries : (c : String) → Entry p c
    pub waiting : (c : String) → In c p.cascaded → Reach tasks start c
    pub children : (c : String) → In c cs → DependsOn tasks x c
    pub closed :
        (y : String)
        → Known p y
        → In y queue
          ⊎ ((d : String)
              → DependsOn tasks y d
              → (is_settled (find_task p.tasks d) ≡ true) ⊎ ((y ≡ x) × In d cs))

  abbrev pub P : Progress → List String → Type 0
  P p queue = (x : String) × Inv x [] p queue

  abbrev pub Q : ⊥ → Type 0
  Q _ = ⊥

  abbrev pub measure : Progress → ℕ
  measure p = unsettled p.tasks

  skip-Inv :
      {x c : String} {cs : List String} {p : Progress} {queue : List String}
      → Inv x (c ∷ cs) p queue
      → is_settled (find_task p.tasks c) ≡ true
      → Inv x cs p queue
  skip-Inv inv done = record {
    current = inv.current;
    queued = inv.queued;
    entries = inv.entries;
    waiting = inv.waiting;
    children = λ d m. inv.children d (inr m);
    closed = λ y k. elim (inv.closed y k) [
      | inl q ↦ inl q
      | inr f ↦ inr (λ d dep. elim (f d dep) [
        | inl v ↦ inl v
        | inr (_, inl e) ↦ inl (rw e done)
        | inr (same, inr m) ↦ inr (same, m)
      ])
    ];
  }

  abbrev marked : String → Progress → Progress
  marked c p = record { tasks = mark_failed message c p.tasks; cascaded = p.cascaded ++ c ∷ [] }

  Known-marked : (c : String) (p : Progress) (y : String) → Known p y → Known (marked c p) y
  Known-marked c p y k = elim k [
    | inl e ↦ inl e
    | inr m ↦ inr (In-append_left y p.cascaded (c ∷ []) m)
  ]

  marked-Known :
      (c : String) (p : Progress) (y : String) → Known (marked c p) y → (y ≡ c) ⊎ Known p y
  marked-Known c p y k = elim k [
    | inl e ↦ inr (inl e)
    | inr m ↦ elim (In-append y p.cascaded (c ∷ []) m) [
      | inl old ↦ inr (inr old)
      | inr (inl e) ↦ inl e
      | inr (inr none_left) ↦ absurd none_left
    ]
  ]

  settled-marked :
      (c d : String) (p : Progress)
      → is_settled (find_task p.tasks d) ≡ true
      → is_settled (find_task (mark_failed message c p.tasks) d) ≡ true
  settled-marked c d p h = rw (find_task-mark_failed message c d p.tasks) (ground arith)

  self-marked :
      (c : String) (p : Progress) → is_settled (find_task (mark_failed message c p.tasks) c) ≡ true
  self-marked c p = rw (find_task-mark_failed message c c p.tasks) (ground (arith, eq_refl c))

  -- The newly failed task was as it was in the beginning.
  Entry-marked :
      (c : String) (p : Progress)
      → Entry p c
      → is_settled (find_task p.tasks c) ≡ false
      → Entry (marked c p) c
  Entry-marked c p e open_ = elim e [
    | inr (_, t, _, _, now) ↦ absurd (ground arith)
    | inl (same, fresh) ↦ elim (Option-cases (find_task tasks c)) [
      | inl missing ↦ absurd (ground arith)
      | inr (t, there) ↦ inr (
        In-append_right c p.cascaded (c ∷ []) (inl refl),
        t,
        there,
        ground arith,
        rw (find_task-mark_failed message c c p.tasks, same, there) (ground (arith, eq_refl c)),
      )
    ]
  ]

  Entry-other : (c d : String) (p : Progress) → Entry p d → (c == d) ≡ false → Entry (marked c p) d
  Entry-other c d p e other = elim e [
    | inl (same, fresh) ↦ inl (
      rw (find_task-mark_failed message c d p.tasks, other) same,
      λ m. elim (In-append d p.cascaded (c ∷ []) m) [
        | inl old ↦ fresh old
        | inr (inl e') ↦ cc ((eq_iff c d).1 (sym e'))
        | inr (inr none_left) ↦ none_left
      ],
    )
    | inr (m, t, there, unsettled_, now) ↦ inr (
      In-append_left d p.cascaded (c ∷ []) m,
      t,
      there,
      unsettled_,
      rw (find_task-mark_failed message c d p.tasks, other) now,
    )
  ]

  Reach-Known :
      {x : String} {p : Progress} {queue cs : List String} → Inv x cs p queue → Reach tasks start x
  Reach-Known {x} inv = elim inv.current [
    | inl e ↦ subst (Reach tasks start) (sym e) here
    | inr m ↦ inv.waiting x m
  ]

  mark-Inv :
      {x c : String} {cs : List String} {p : Progress} {queue : List String}
      → Inv x (c ∷ cs) p queue
      → is_settled (find_task p.tasks c) ≡ false
      → Inv x cs (marked c p) (queue ++ c ∷ [])
  mark-Inv {x} {c} {cs} {p} {queue} inv open_ = record {
    current = Known-marked c p x inv.current;
    queued = λ y m. elim (In-append y queue (c ∷ []) m) [
      | inl q ↦ Known-marked c p y (inv.queued y q)
      | inr (inl e) ↦ inr (In-append_right y p.cascaded (c ∷ []) (inl e))
      | inr (inr none_left) ↦ absurd none_left
    ];
    entries = λ d. elim (Bool-cases (c == d)) [
      | inl same ↦
          subst (Entry (marked c p)) ((eq_iff c d).0 same) (Entry-marked c p (inv.entries c) open_)
      | inr other ↦ Entry-other c d p (inv.entries d) other
    ];
    waiting = λ d m. elim (In-append d p.cascaded (c ∷ []) m) [
      | inl old ↦ inv.waiting d old
      | inr (inl e) ↦
          subst (Reach tasks start) (sym e) (step (Reach-Known inv) (inv.children c (inl refl)))
      | inr (inr none_left) ↦ absurd none_left
    ];
    children = λ d m. inv.children d (inr m);
    closed = λ y k. elim (marked-Known c p y k) [
      | inl e ↦ inl (In-append_right y queue (c ∷ []) (inl e))
      | inr old ↦ elim (inv.closed y old) [
        | inl q ↦ inl (In-append_left y queue (c ∷ []) q)
        | inr f ↦ inr (λ d dep. elim (f d dep) [
          | inl v ↦ inl (settled-marked c d p v)
          | inr (_, inl e) ↦ inl (rw e (self-marked c p))
          | inr (same, inr m) ↦ inr (same, m)
        ])
      ]
    ];
  }

  children-Keeps :
      (p₀ : Progress) (queue₀ : List String) (x : String) (cs : List String) (p : Progress)
      (queue : List String)
      → Inv x cs p queue
      → measure p + length queue ≤ measure p₀ + length queue₀
      → Keeps P Q measure p₀ queue₀ (fail_children message cs p queue)
  unfolding fail_children
  children-Keeps p₀ queue₀ x [] p queue inv h = ((x, inv), h)
  children-Keeps p₀ queue₀ x (c ∷ cs) p queue inv h =
      elim (Bool-cases (is_settled (find_task p.tasks c))) [
        | inl done ↦ rw done (children-Keeps p₀ queue₀ x cs p queue (skip-Inv inv done) h)
        | inr open_ ↦ rw open_ (
            children-Keeps p₀ queue₀ x cs (marked c p) (queue ++ c ∷ []) (mark-Inv inv open_) (
              omega (
                arith,
                unsettled-mark_failed message c p.tasks open_,
                length-append queue (c ∷ []),
              )))
      ]

  round-Keeps :
      (x : String) (p : Progress) (queue : List String)
      → P p (x ∷ queue)
      → Keeps P Q measure p queue (fail_children message (dependents_of tasks x) p queue)
  round-Keeps x p queue (_, inv) =
      children-Keeps p queue x (dependents_of tasks x) p queue inv' (omega arith)
    where
      inv' : Inv x (dependents_of tasks x) p queue
      inv' = record {
        current = inv.queued x (inl refl);
        queued = λ y m. inv.queued y (inr m);
        entries = inv.entries;
        waiting = inv.waiting;
        children = λ c m. (In-dependents_of tasks x c).0 m;
        closed = λ y k. elim (inv.closed y k) [
          | inl (inl e) ↦ inr (λ d dep.
              inr (e, (In-dependents_of tasks x d).1 (subst (λ z. DependsOn tasks z d) e dep)))
          | inl (inr q) ↦ inl q
          | inr f ↦
              inr
                (λ d dep. elim (f d dep) [ inl v ↦ inl v | inr (_, none_left) ↦ absurd none_left ])
        ];
      }

  start-P : P (record { tasks = tasks; cascaded = [] }) (start ∷ [])
  start-P = (
    start,
    record {
      current = inl refl;
      queued = λ y m. elim m [ inl e ↦ inl e | inr none_left ↦ absurd none_left ];
      entries = λ c. inl (refl, λ m. m);
      waiting = λ c m. absurd m;
      children = λ c m. absurd m;
      closed = λ y k. inl k;
    },
  )

  pub loop-Ends : Ends P Q measure (
      drain
        (length tasks + 1)
        (λ x p queue. fail_children message (dependents_of tasks x) p queue)
        (record { tasks = tasks; cascaded = [] })
        (start ∷ []))
  loop-Ends =
      drain-Ends P Q measure _ round-Keeps (length tasks + 1)
        (record { tasks = tasks; cascaded = [] }) (start ∷ []) (omega (arith, unsettled-le tasks))
        start-P
