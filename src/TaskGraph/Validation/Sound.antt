-- ===== src/TaskGraph/Validation/Sound.antt =====
-- `Validate` and `ValidateWithRoster` of internal/taskgraph/dag.go against a description of a valid
-- graph.
use agentfab.Prelude.{
  Bool-cases, map-In, String, List, [], ◌∷◌, map, not, ◌&&◌, ◌==◌, eq_iff, ◌≡◌, refl, ◌≢◌, ◌↔◌, ◌⊎◌,
  inl, inr, arith, ok, fail_if, check_each, check_each-All, All-check_each, contains, contains-In,
  In-contains, contains_absent, contains-false, In, All-In, In-All, In-map, subst,
}
use agentfab.Loop.{LoopDefinition, StateConfig}
use agentfab.Loop.Validation.{IsWellFormed, validate-IsWellFormed}
use agentfab.TaskGraph.{TaskNode, TaskGraph, target_profile}
use agentfab.TaskGraph.Dependents.{DependsOn}
use agentfab.TaskGraph.Order.Degrees.{Distinct, ids}
use agentfab.TaskGraph.Order.Invariant.{Follows}
use agentfab.TaskGraph.Order.Correct.{IsOrder, topological_sort-Sorts}
use agentfab.TaskGraph.Validation.{
  check_ids, check_dependency, check_dependencies, check_loop, check_loop_id, check_sort, validate,
  validate_with_roster, check_agent, check_state, check_states,
}

-- A graph that can be scheduled.
pub record IsValid (g : TaskGraph) : Type 0 where
  pub has_ids : (t : TaskNode) → In t g.tasks → t.id ≢ ""
  pub distinct : Distinct (ids g.tasks)
  pub known : (t : TaskNode) → In t g.tasks → (d : String) → In d t.depends_on → In d (ids g.tasks)
  pub order : List String
  pub ordered : IsOrder g.tasks order
  pub loops : (l : LoopDefinition) → In l g.loops → IsWellFormed l
  pub loop_known :
      (t : TaskNode)
      → In t g.tasks
      → (t.loop_id ≡ "") ⊎ In t.loop_id (map (λ (l : LoopDefinition). l.id) g.loops)

-- The first loop.
check_ids-ok :
    (seen : List String) (tasks : List TaskNode)
    → check_ids seen tasks ≡ ok tt
    → ((t : TaskNode) → In t tasks → (t.id ≢ "") × ¬ In t.id seen) × Distinct (ids tasks)
unfolding check_ids
check_ids-ok seen [] h = ((λ t m. absurd m), tt)
check_ids-ok seen (t ∷ ts) h =
    let (each, distinct) = check_ids-ok (t.id ∷ seen) ts (ground arith) in
    (
      λ u m. elim m [
        | inl e ↦ rw e (ground (arith, eq_iff t.id ""), contains-false seen t.id (ground arith))
        | inr k ↦ ((each u k).0, λ j. (each u k).1 (inr j))
      ],
      (
        λ m. let (u, k, e) = map-In (λ (t : TaskNode). t.id) t.id ts m in (each u k).1 (inl e),
        distinct,
      ),
    )

ok-check_ids :
    (seen : List String) (tasks : List TaskNode)
    → ((t : TaskNode) → In t tasks → (t.id ≢ "") × ¬ In t.id seen)
    → Distinct (ids tasks)
    → check_ids seen tasks ≡ ok tt
unfolding check_ids
ok-check_ids seen [] each d = refl
ok-check_ids seen (t ∷ ts) each d =
    let rest =
      ok-check_ids (t.id ∷ seen) ts
        (λ u m. (
          (each u (inr m)).0,
          λ j. elim j [
            | inl e ↦ d.0 (In-map (λ (t : TaskNode). t.id) u ts m e)
            | inr k ↦ (each u (inr m)).1 k
          ],
        ))
        d.1 in
    let new = contains_absent seen t.id (each t (inl refl)).1 in
    ground (arith, eq_iff t.id "", (each t (inl refl)).0)

-- A task of an ordered graph does not depend on itself.
Follows-self :
    (tasks : List TaskNode) (seen xs : List String) (x : String)
    → Follows tasks seen xs
    → Distinct xs
    → ¬ In x seen
    → In x xs
    → ¬ DependsOn tasks x x
Follows-self tasks seen [] x f d fresh m dep = absurd m
Follows-self tasks seen (y ∷ xs) x f d fresh m dep = elim m [
  | inl e ↦ fresh (f.0 x (subst (DependsOn tasks x) e dep))
  | inr k ↦
      Follows-self tasks (y ∷ seen) xs x f.1 d.1
        (λ j. elim j [ inl e ↦ d.0 (subst (λ z. In z xs) e k) | inr l ↦ fresh l ]) k dep
]

record Passes (g : TaskGraph) : Type 0 where
  ids_ok : check_ids [] g.tasks ≡ ok tt
  dependencies_ok : check_each (check_dependencies g) g.tasks ≡ ok tt
  sort_ok : check_sort g ≡ ok tt
  loops_ok : check_each check_loop g.loops ≡ ok tt
  loop_ids_ok : check_each (check_loop_id g) g.tasks ≡ ok tt

validate-Passes : (g : TaskGraph) → validate g ≡ ok tt → Passes g
unfolding validate
validate-Passes g h = ground arith

Passes-validate : (g : TaskGraph) → Passes g → validate g ≡ ok tt
unfolding validate
Passes-validate g p = ground arith

check_loop-ok : (l : LoopDefinition) → (check_loop l ≡ ok tt) ↔ IsWellFormed l
check_loop-ok l = (
  λ h. (validate-IsWellFormed l).0 (ground arith),
  λ w. let e = (validate-IsWellFormed l).1 w in ground arith,
)

loop_reference :
    (g : TaskGraph) (t : TaskNode)
    → check_loop_id g t ≡ ok tt
    → (t.loop_id ≡ "") ⊎ In t.loop_id (map (λ (l : LoopDefinition). l.id) g.loops)
loop_reference g t h = elim (Bool-cases (t.loop_id == "")) [
  | inl y ↦ inl ((eq_iff t.loop_id "").0 y)
  | inr n ↦ inr (contains-In _ t.loop_id (ground arith))
]

Passes-IsValid : (g : TaskGraph) → Passes g → IsValid g
Passes-IsValid g p =
    let (each, distinct) = check_ids-ok [] g.tasks p.ids_ok in
    elim (topological_sort-Sorts g.tasks distinct) [
      | inr (e, _) ↦ absurd (let h = p.sort_ok in ground arith)
      | inl (order, e, ordered) ↦ record {
        has_ids = λ t m. (each t m).0;
        distinct = distinct;
        known = λ t m d k.
            let one = All-In _ _ (check_each-All _ _ p.dependencies_ok) t m in
            let two = All-In _ _ (check_each-All (check_dependency g t) t.depends_on one) d k in
            contains-In (ids g.tasks) d (ground arith);
        order = order;
        ordered = ordered;
        loops = λ l m. (check_loop-ok l).0 (All-In _ _ (check_each-All _ _ p.loops_ok) l m);
        loop_known = λ t m. loop_reference g t (All-In _ _ (check_each-All _ _ p.loop_ids_ok) t m);
      }
    ]

module _ (g : TaskGraph) (v : IsValid g) where
  dependency_passes :
      (t : TaskNode)
      → In t g.tasks
      → (d : String) → In d t.depends_on
      → check_dependency g t d ≡ ok tt
  dependency_passes t m d k = elim (Bool-cases (d == t.id)) [
    | inl same ↦ absurd (
        Follows-self g.tasks [] v.order t.id v.ordered.follows v.ordered.once (λ j. j)
          (v.ordered.complete t m)
          (record {
            task = t;
            listed = m;
            named = refl;
            dep = subst (λ z. In z t.depends_on) ((eq_iff d t.id).0 same) k;
          }))
    | inr other ↦ rw (In-contains (ids g.tasks) d (v.known t m d k), other)
  ]

  loop_id_passes : (t : TaskNode) → In t g.tasks → check_loop_id g t ≡ ok tt
  loop_id_passes t m = elim (v.loop_known t m) [
    | inl blank ↦ ground (arith, eq_iff t.loop_id "")
    | inr k ↦ let e = In-contains _ t.loop_id k in ground arith
  ]

  sort_passes : check_sort g ≡ ok tt
  sort_passes = elim (topological_sort-Sorts g.tasks v.distinct) [
    | inl (order, e, _) ↦ rw e
    | inr (_, none_at_all) ↦ absurd (none_at_all (v.order, v.ordered))
  ]

  IsValid-Passes : Passes g
  IsValid-Passes = record {
    ids_ok = ok-check_ids [] g.tasks (λ t m. (v.has_ids t m, λ j. j)) v.distinct;
    dependencies_ok = All-check_each _ _ (
        In-All _ _
          (λ t m. All-check_each (check_dependency g t) _ (In-All _ _ (dependency_passes t m))));
    sort_ok = sort_passes;
    loops_ok = All-check_each _ _ (In-All _ _ (λ l m. (check_loop-ok l).1 (v.loops l m)));
    loop_ids_ok = All-check_each _ _ (In-All _ _ loop_id_passes);
  }

-- `Validate` returns nil exactly for a graph with distinct IDs that are not empty, known
-- dependencies, an order of its tasks, well-formed loops, and known loop references.
pub validate-IsValid : (g : TaskGraph) → (validate g ≡ ok tt) ↔ IsValid g
validate-IsValid g =
    (λ h. Passes-IsValid g (validate-Passes g h), λ v. Passes-validate g (IsValid-Passes g v))

-- Every agent that the graph names is in the roster.
abbrev pub Staffed : List String → TaskGraph → Type 0
Staffed roster g =
    ((t : TaskNode) → In t g.tasks → (target_profile t ≡ "") ⊎ In (target_profile t) roster)
    × ((l : LoopDefinition)
        → In l g.loops
        → (sc : StateConfig) → In sc l.states
        → (sc.agent ≡ "") ⊎ In sc.agent roster)

-- The form of both checks against the roster.
roster_iff :
    {E : Type 0} (roster : List String) (a : String) (e : E)
    → (fail_if (not (a == "") && not (contains roster a)) e ≡ ok tt) ↔ ((a ≡ "") ⊎ In a roster)
roster_iff roster a e = (
  λ h. elim (Bool-cases (a == "")) [
    | inl y ↦ inl ((eq_iff a "").0 y)
    | inr n ↦ inr (contains-In roster a (ground arith))
  ],
  λ h. elim h [
    | inl y ↦ ground (arith, eq_iff a "")
    | inr m ↦ let c = In-contains roster a m in ground arith
  ],
)

roster-Staffed :
    (g : TaskGraph) (roster : List String)
    → check_each (check_agent roster) g.tasks ≡ ok tt
    → check_each (check_states roster) g.loops ≡ ok tt
    → Staffed roster g
roster-Staffed g roster a b = (
  λ t m. (roster_iff roster (target_profile t) _).0 (All-In _ _ (check_each-All _ _ a) t m),
  λ l m sc k. (roster_iff roster sc.agent _).0 (
      All-In _ _
        (check_each-All (check_state roster l) l.states (All-In _ _ (check_each-All _ _ b) l m)) sc
        k),
)

Staffed-agents :
    (g : TaskGraph) (roster : List String)
    → Staffed roster g
    → check_each (check_agent roster) g.tasks ≡ ok tt
Staffed-agents g roster s =
    All-check_each _ _ (In-All _ _ (λ t m. (roster_iff roster (target_profile t) _).1 (s.0 t m)))

Staffed-states :
    (g : TaskGraph) (roster : List String)
    → Staffed roster g
    → check_each (check_states roster) g.loops ≡ ok tt
Staffed-states g roster s = All-check_each _ _ (
    In-All _ _ (λ l m.
      All-check_each (check_state roster l) l.states
        (In-All _ _ (λ sc k. (roster_iff roster sc.agent _).1 (s.1 l m sc k)))))

-- `ValidateWithRoster` returns nil exactly for a valid graph whose tasks and loop states name no
-- agent outside the roster.
pub validate_with_roster-IsValid :
    (g : TaskGraph) (roster : List String)
    → (validate_with_roster g roster ≡ ok tt) ↔ (IsValid g × Staffed roster g)
unfolding validate_with_roster
validate_with_roster-IsValid g roster = (
  λ h. (
    (validate-IsValid g).0 (ground arith),
    roster-Staffed g roster (ground arith) (ground arith),
  ),
  λ (v, s).
      let a = (validate-IsValid g).1 v in
      let b = Staffed-agents g roster s in let c = Staffed-states g roster s in ground arith,
)
