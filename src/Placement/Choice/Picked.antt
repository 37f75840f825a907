-- ===== src/Placement/Choice/Picked.antt =====
-- What internal/conductor/scheduler.go, selectTaskInstance, takes from the candidates.
use mathlib.Core.Option.{some-injective}
use agentfab.Prelude.{
  String, List, [], ◌∷◌, Bool, true, false, ◌==◌, eq_iff, ◌≡◌, ◌≢◌, refl, sym, subst, ap, ◌∙◌, ◌⊎◌,
  inl, inr, if◌then◌else◌, Option, none, some, Table, select, In, In-select, select-In, arith,
  Bool-cases,
}
use agentfab.Prelude.Int.{ℤ, leb_ℤ, ◌≤ℤ◌}
use agentfab.TaskGraph.{TaskNode}
use agentfab.ControlPlane.{Node, AgentInstance}
use agentfab.Placement.{Scheduler, node_load}
use agentfab.Placement.Choice.{
  by, preferred_or, is_candidate, comes_before, first_of, find_instance, choose,
}

by-le :
    (a b : ℤ) (rest : Bool) → ((by a b rest ≡ true) × (a ≤ℤ b)) ⊎ ((by a b rest ≡ false) × (b ≤ℤ a))
by-le a b rest = elim (Bool-cases (leb_ℤ b a)) [
  | inl t ↦ elim (Bool-cases (by a b rest)) [
    | inl y ↦ inl (y, ground arith)
    | inr n ↦ inr (n, ground arith)
  ]
  | inr f ↦ inl (ground arith, ground arith)
]

-- The instance that the task has already.
abbrev pub IsPreferred : TaskNode → AgentInstance → Type 0
IsPreferred task i = (task.assigned_instance ≢ "") × (i.id ≡ task.assigned_instance)

module _ (s : Scheduler) (task : TaskNode) (nodes : Table Node) where
  comes_before-load :
      (a b : AgentInstance)
      → ((comes_before s task nodes a b ≡ true) × (node_load s a.node_id ≤ℤ node_load s b.node_id))
        ⊎ ((comes_before s task nodes a b ≡ false)
            × (node_load s b.node_id ≤ℤ node_load s a.node_id))
  unfolding comes_before
  comes_before-load a b = by-le (node_load s a.node_id) (node_load s b.node_id) _

  better-least :
      (best i : AgentInstance)
      → (((if comes_before s task nodes i best then i else best) ≡ best)
          ⊎ ((if comes_before s task nodes i best then i else best) ≡ i))
        × (node_load s (if comes_before s task nodes i best then i else best).node_id
            ≤ℤ node_load s best.node_id)
        × (node_load s (if comes_before s task nodes i best then i else best).node_id
            ≤ℤ node_load s i.node_id)
  better-least best i = elim (comes_before-load i best) [
    | inl (t, le) ↦ rw t (inr refl, le, omega arith)
    | inr (f, le) ↦ rw f (inl refl, omega arith, le)
  ]

  -- The first has no more load than any.
  first_of-least :
      (best : AgentInstance) (is : List AgentInstance)
      → ((first_of s task nodes best is ≡ best) ⊎ In (first_of s task nodes best is) is)
        × (node_load s (first_of s task nodes best is).node_id ≤ℤ node_load s best.node_id)
        × ((j : AgentInstance)
            → In j is
            → node_load s (first_of s task nodes best is).node_id ≤ℤ node_load s j.node_id)
  unfolding first_of
  first_of-least best [] = (inl refl, omega arith, λ j m. elim m [ ])
  first_of-least best (i ∷ is) =
      let next = if comes_before s task nodes i best then i else best in
      let (which, le_best, le_i) = better-least best i in
      let (place, le_next, least) = first_of-least next is in
      (
        elim place [
          | inl e ↦ elim which [ inl b ↦ inl (e ∙ b) | inr c ↦ inr (inl (e ∙ c)) ]
          | inr m ↦ inr (inr m)
        ],
        omega (arith, le_next, le_best),
        λ j m. elim m [
          | inl e ↦
              subst
                (λ (x : AgentInstance).
                  node_load s (first_of s task nodes next is).node_id ≤ℤ node_load s x.node_id)
                (sym e) (omega (arith, le_next, le_i))
          | inr k ↦ least j k
        ],
      )

  -- What `choose` takes from the candidates.
  abbrev pub IsPick : List AgentInstance → Option AgentInstance → Type 0
  IsPick instances none = (j : AgentInstance) → In j instances → is_candidate s task nodes j ≡ false
  IsPick instances (some i) =
      In i instances
      × (is_candidate s task nodes i ≡ true)
      × (IsPreferred task i
          ⊎ ((j : AgentInstance)
              → In j instances
              → is_candidate s task nodes j ≡ true
              → ¬ IsPreferred task j × (node_load s i.node_id ≤ℤ node_load s j.node_id)))

  find_instance-In :
      (id : String) (is : List AgentInstance) (x : AgentInstance)
      → find_instance s task nodes id is ≡ some x
      → In x is × (x.id ≡ id)
  unfolding find_instance
  find_instance-In id [] x h = absurd (cc h)
  find_instance-In id (i ∷ is) x h = elim (Bool-cases (i.id == id)) [
    | inl t ↦
        let same = some-injective i x (rw t at h) in
        (inl (sym same), ap (λ (y : AgentInstance). y.id) (sym same) ∙ (eq_iff i.id id).0 t)
    | inr f ↦ let (m, e) = find_instance-In id is x (rw f at h) in (inr m, e)
  ]

  find_instance-none :
      (id : String) (is : List AgentInstance)
      → find_instance s task nodes id is ≡ none
      → (j : AgentInstance) → In j is
      → j.id ≢ id
  unfolding find_instance
  find_instance-none id [] h j m = elim m [ ]
  find_instance-none id (i ∷ is) h j (inl e) =
      λ same. ground (arith, h, eq_iff i.id id, ap (λ (y : AgentInstance). y.id) e)
  find_instance-none id (i ∷ is) h j (inr m) = elim (Bool-cases (i.id == id)) [
    | inl t ↦ absurd (cc (rw t at h))
    | inr f ↦ find_instance-none id is (rw f at h) j m
  ]

  -- The search for it.
  preferred : List AgentInstance → Option AgentInstance
  preferred is =
      if task.assigned_instance == ""
      then none
      else find_instance s task nodes task.assigned_instance is

  preferred-In :
      (is : List AgentInstance) (x : AgentInstance)
      → preferred is ≡ some x
      → In x is × IsPreferred task x
  unfolding preferred
  preferred-In is x h = elim (Bool-cases (task.assigned_instance == "")) [
    | inl t ↦ absurd (cc (rw t at h))
    | inr f ↦
        let (m, e) = find_instance-In task.assigned_instance is x (rw f at h) in
        (m, (λ blank. cc (f, (eq_iff task.assigned_instance "").1 blank), e))
  ]

  preferred-none :
      (is : List AgentInstance)
      → preferred is ≡ none
      → (j : AgentInstance) → In j is
      → ¬ IsPreferred task j
  unfolding preferred
  preferred-none is h j m (given, same) = elim (Bool-cases (task.assigned_instance == "")) [
    | inl t ↦ given ((eq_iff task.assigned_instance "").0 t)
    | inr f ↦ find_instance-none task.assigned_instance is (rw f at h) j m same
  ]

  -- Among the candidates.
  abbrev IsBest : List AgentInstance → AgentInstance → Type 0
  IsBest is x =
      In x is
      × (IsPreferred task x
          ⊎ ((j : AgentInstance)
              → In j is
              → ¬ IsPreferred task j × (node_load s x.node_id ≤ℤ node_load s j.node_id)))

  preferred_or-IsBest :
      (o : Option AgentInstance) (i : AgentInstance) (is : List AgentInstance)
      → preferred (i ∷ is) ≡ o
      → IsBest (i ∷ is) (preferred_or s task nodes o i is)
  preferred_or-IsBest (some x) i is h = let (m, e) = preferred-In (i ∷ is) x h in (m, inl e)
  preferred_or-IsBest none i is h =
      let (place, le, least) = first_of-least i is in
      (
        place,
        inr (λ j m. (
          preferred-none (i ∷ is) h j m,
          elim m [
            | inl e ↦
                subst
                  (λ (x : AgentInstance).
                    node_load s (first_of s task nodes i is).node_id ≤ℤ node_load s x.node_id)
                  (sym e) le
            | inr k ↦ least j k
          ],
        )),
      )

  choose-IsBest :
      (i : AgentInstance) (is : List AgentInstance)
      → (x : AgentInstance) × (choose s task nodes (i ∷ is) ≡ some x) × IsBest (i ∷ is) x
  unfolding choose preferred
  choose-IsBest i is = (_, refl, preferred_or-IsBest (preferred (i ∷ is)) i is refl)

  pub choose-IsPick :
      (instances is : List AgentInstance)
      → is ≡ select (is_candidate s task nodes) instances
      → IsPick instances (choose s task nodes is)
  unfolding choose
  choose-IsPick instances [] e = λ j m. elim (Bool-cases (is_candidate s task nodes j)) [
    | inl t ↦
        elim (subst (In j) (sym e) (select-In (is_candidate s task nodes) j instances m t)) [ ]
    | inr f ↦ f
  ]
  choose-IsPick instances (i ∷ is) e =
      let (x, same, best_of) = choose-IsBest i is in
      let (place, best) = best_of in
      let (m, t) = In-select (is_candidate s task nodes) x instances (subst (In x) e place) in
      subst (IsPick instances) (sym same) (
        m,
        t,
        elim best [
          | inl id ↦ inl id
          | inr least ↦ inr (λ j k c.
              least j
                (subst (In j) (sym e) (select-In (is_candidate s task nodes) j instances k c)))
        ],
      )
