-- ===== src/TaskGraph/Dependents.antt =====
-- The map of dependents of internal/taskgraph/dag.go against the dependency relation.
use agentfab.Prelude.{
  subst, String, List, [], ◌∷◌, ◌++◌, ◌==◌, eq_iff, ◌≡◌, refl, sym, ◌⊎◌, inl, inr, if◌then◌else◌,
  some, Table, lookup, insert, or_zero, lookup-insert, In, arith, In-append, In-append_left,
  In-append_right, Bool-cases, ◌↔◌,
}
use agentfab.TaskGraph.{TaskNode, find_task, add_dependents, collect_dependents, dependents_of}

-- A task with the ID `b` lists `a` among its dependencies.
pub record DependsOn (tasks : List TaskNode) (a b : String) : Type 0 where
  pub task : TaskNode
  pub listed : In task tasks
  pub named : task.id ≡ b
  pub dep : In a task.depends_on

-- The tasks that wait for `start`, over any number of steps.
pub data Reach (tasks : List TaskNode) (start : String) : String → Type 0 where
  here : Reach tasks start start
  step : {a b : String} → Reach tasks start a → DependsOn tasks a b → Reach tasks start b

DependsOn-split :
    {P : Type 0} (ts : List TaskNode) (t : TaskNode) {a b : String}
    → DependsOn (t ∷ ts) a b
    → (b ≡ t.id → In a t.depends_on → P)
    → (DependsOn ts a b → P)
    → P
DependsOn-split ts t {a} d first later = elim d.listed [
  | inl e ↦ first (cc d.named) (subst (λ (u : TaskNode). In a u.depends_on) e d.dep)
  | inr m ↦ later (record { task = d.task; listed = m; named = d.named; dep = d.dep })
]

abbrev entry : Table (List String) → String → List String
entry m k = or_zero [] (lookup k m)

entry-insert :
    (k j : String) (v : List String) (m : Table (List String))
    → entry (insert k v m) j ≡ (if k == j then v else entry m j)
entry-insert k j v m = rw lookup-insert (ground arith)

In-entry-append :
    (id dep : String) (m : Table (List String)) (k c : String)
    → In c (entry (insert dep (entry m dep ++ id ∷ []) m) k)
      ↔ (In c (entry m k) ⊎ ((c ≡ id) × (k ≡ dep)))
In-entry-append id dep m k c =
    rw (entry-insert dep k (entry m dep ++ id ∷ []) m) (elim (Bool-cases (dep == k)) [
      | inl same ↦ rw same (
          let e = (eq_iff dep k).0 same in
          (
            λ h. elim (In-append c (entry m dep) (id ∷ []) h) [
              | inl old ↦ inl (subst (λ j. In c (entry m j)) e old)
              | inr (inl new) ↦ inr (new, sym e)
              | inr (inr none_left) ↦ absurd none_left
            ],
            λ h. elim h [
              | inl old ↦
                  In-append_left c (entry m dep) (id ∷ [])
                    (subst (λ j. In c (entry m j)) (sym e) old)
              | inr (new, _) ↦ In-append_right c (entry m dep) (id ∷ []) (inl new)
            ],
          ))
      | inr other ↦ rw other (
        inl,
        λ h. elim h [ inl old ↦ old | inr (_, same) ↦ absurd (cc ((eq_iff dep k).1 (sym same))) ],
      )
    ])

-- What a task adds to an entry.
In-add_dependents :
    (id : String) (deps : List String) (m : Table (List String)) (k c : String)
    → In c (entry (add_dependents id deps m) k) ↔ (In c (entry m k) ⊎ ((c ≡ id) × In k deps))
unfolding add_dependents
In-add_dependents id [] m k c =
    (inl, λ h. elim h [ inl old ↦ old | inr (_, none_left) ↦ absurd none_left ])
In-add_dependents id (dep ∷ deps) m k c =
    let ih = In-add_dependents id deps (insert dep (entry m dep ++ id ∷ []) m) k c in
    let one = In-entry-append id dep m k c in
    (
      λ h. elim (ih.0 h) [
        | inl old ↦ elim (one.0 old) [ inl o ↦ inl o | inr (e, d) ↦ inr (e, inl d) ]
        | inr (e, d) ↦ inr (e, inr d)
      ],
      λ h. elim h [
        | inl old ↦ ih.1 (inl (one.1 (inl old)))
        | inr (e, inl d) ↦ ih.1 (inl (one.1 (inr (e, d))))
        | inr (e, inr d) ↦ ih.1 (inr (e, d))
      ],
    )

In-collect :
    (tasks : List TaskNode) (m : Table (List String)) (k c : String)
    → In c (entry (collect_dependents tasks m) k) ↔ (In c (entry m k) ⊎ DependsOn tasks k c)
unfolding collect_dependents
In-collect [] m k c = (inl, λ h. elim h [ inl old ↦ old | inr d ↦ absurd d.listed ])
In-collect (t ∷ ts) m k c =
    let ih = In-collect ts (add_dependents t.id t.depends_on m) k c in
    let one = In-add_dependents t.id t.depends_on m k c in
    (
      λ h. elim (ih.0 h) [
        | inl old ↦ elim (one.0 old) [
          | inl o ↦ inl o
          | inr (e, d) ↦ inr (record { task = t; listed = inl refl; named = sym e; dep = d })
        ]
        | inr d ↦
            inr (record { task = d.task; listed = inr d.listed; named = d.named; dep = d.dep })
      ],
      λ h. elim h [
        | inl old ↦ ih.1 (inl (one.1 (inl old)))
        | inr d ↦
            DependsOn-split ts t d (λ e k. ih.1 (inl (one.1 (inr (e, k))))) (λ d'. ih.1 (inr d'))
      ],
    )

-- The map lists a task under `id` exactly if the task depends on `id`.
pub In-dependents_of :
    (tasks : List TaskNode) (id c : String) → In c (dependents_of tasks id) ↔ DependsOn tasks id c
unfolding lookup
In-dependents_of tasks id c =
    let all = In-collect tasks [] id c in
    (λ h. elim (all.0 h) [ inl none_left ↦ absurd none_left | inr d ↦ d ], λ d. all.1 (inr d))

-- A task that is depended for is found under its ID.
pub find_task-DependsOn :
    (tasks : List TaskNode) {a b : String}
    → DependsOn tasks a b
    → (t : TaskNode) × (find_task tasks b ≡ some t)
unfolding find_task
find_task-DependsOn [] d = absurd d.listed
find_task-DependsOn (t ∷ ts) {a} {b} d = elim (Bool-cases (t.id == b)) [
  | inl same ↦ (t, rw same)
  | inr other ↦
      DependsOn-split ts t d (λ e _. absurd (cc ((eq_iff t.id b).1 (sym e))))
        (λ d'. let (u, e) = find_task-DependsOn ts d' in (u, rw other e))
]
