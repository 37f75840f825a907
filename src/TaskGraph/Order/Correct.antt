-- ===== src/TaskGraph/Order/Correct.antt =====
-- `TopologicalSort` of internal/taskgraph/dag.go against the orders that a task graph has.
use mathlib.Core.List.{append-nil}
use agentfab.Prelude.{
  contains-false, ◌∙◌, ◌+◌, ◌≤◌, String, List, [], ◌∷◌, ◌==◌, eq_iff, ◌≡◌, refl, sym, ◌⊎◌, inl, inr,
  subst, if◌then◌else◌, nat_eq, length, In, arith, Bool-cases, ◌≢◌, Option, none, some, Result, ok,
  err, map-In, In-map, contains-cases, length-map,
}
use agentfab.Prelude.Worklist.{Ending, returned, emptied, Ends}
use agentfab.TaskGraph.{TaskNode, GraphError, has_cycle}
use agentfab.TaskGraph.Order.{Sorting, sort_result, topological_sort}
use agentfab.TaskGraph.Order.Degrees.{count, Distinct, ids, blocked, blocked-pos}
use agentfab.TaskGraph.Order.Invariant.{P, Q, measure, Follows}
use agentfab.TaskGraph.Order.Rounds.{sort-Ends}

-- Every task once, and behind all tasks that it depends on.
pub record IsOrder (tasks : List TaskNode) (order : List String) : Type 0 where
  pub complete : (t : TaskNode) → In t tasks → In t.id order
  pub known : (c : String) → In c order → In c (ids tasks)
  pub once : Distinct order
  pub follows : Follows tasks [] order

without : String → List String → List String
without c [] = []
without c (x ∷ xs) = if x == c then xs else x ∷ without c xs

length-without : (c : String) (xs : List String) → In c xs → length (without c xs) + 1 ≡ length xs
unfolding without
length-without c [] m = elim m [ ]
length-without c (x ∷ xs) (inl e) = ground (arith, eq_iff x c)
length-without c (x ∷ xs) (inr m) = ground (arith, length-without c xs m)

In-without : (c d : String) (xs : List String) → In d xs → d ≢ c → In d (without c xs)
unfolding without
In-without c d [] m h = elim m [ ]
In-without c d (x ∷ xs) (inl e) h = elim (Bool-cases (x == c)) [
  | inl y ↦ absurd (h (e ∙ (eq_iff x c).0 y))
  | inr n ↦ rw n (inl e)
]
In-without c d (x ∷ xs) (inr m) h = elim (Bool-cases (x == c)) [
  | inl y ↦ rw y m
  | inr n ↦ rw n (inr (In-without c d xs m h))
]

Distinct-length-le :
    (xs ys : List String) → Distinct xs → ((c : String) → In c xs → In c ys) → length xs ≤ length ys
Distinct-length-le [] ys d h = omega arith
Distinct-length-le (x ∷ xs) ys d h = omega (
  arith,
  length-without x ys (h x (inl refl)),
  Distinct-length-le xs (without x ys) d.1
      (λ c m. In-without x c ys (h c (inr m)) (λ e. d.0 (subst (λ z. In z xs) e m))),
)

module _ (tasks : List TaskNode) (distinct : Distinct (ids tasks)) (s : Sorting)
    (inv : P tasks distinct s []) where
  sorted-known : (c : String) → In c s.sorted → In c (ids tasks)
  sorted-known c m =
      let (t, k, e, _) = inv.known c (rw append-nil m) in
      In-map (λ (t : TaskNode). t.id) t tasks k e

  sorted-once : Distinct s.sorted
  sorted-once = rw append-nil at inv.once

  sorted-le : length s.sorted ≤ length tasks
  sorted-le = omega (
    arith,
    Distinct-length-le s.sorted (ids tasks) sorted-once sorted-known,
    length-map (λ (t : TaskNode). t.id) tasks,
  )

  -- With as many items as there are tasks, none is missing.
  sorted-IsOrder : length s.sorted ≡ length tasks → IsOrder tasks s.sorted
  sorted-IsOrder full = record {
    complete = λ t m. elim (contains-cases s.sorted t.id) [
      | inl k ↦ k
      | inr missing ↦ absurd (
          omega (
            arith,
            Distinct-length-le (t.id ∷ s.sorted) (ids tasks)
                (contains-false s.sorted t.id missing, sorted-once)
                (λ c m'. elim m' [
                  | inl e ↦ In-map (λ (t : TaskNode). t.id) t tasks m (sym e)
                  | inr k ↦ sorted-known c k
                ]),
            length-map (λ (t : TaskNode). t.id) tasks,
          ))
    ];
    known = sorted-known;
    once = sorted-once;
    follows = inv.follows;
  }

  -- A task whose dependencies are all sorted is sorted.
  sorted-closed :
      (t : TaskNode)
      → In t tasks
      → ((d : String) → In d t.depends_on → In d s.sorted)
      → In t.id s.sorted
  unfolding count
  sorted-closed t m h = elim (Bool-cases (nat_eq (blocked s.sorted t.depends_on) 0)) [
    | inl free ↦ rw append-nil at (inv.free t m (ground arith))
    | inr stuck ↦
        let (d, k, missing) = blocked-pos s.sorted t.depends_on (ground arith) in
        absurd (contains-false s.sorted d missing (h d k))
  ]

  -- So where there is an order, the search follows it to its end.
  Follows-sorted :
      (seen xs : List String)
      → Follows tasks seen xs
      → ((c : String) → In c xs → In c (ids tasks))
      → ((c : String) → In c seen → In c s.sorted)
      → (c : String) → In c xs
      → In c s.sorted
  Follows-sorted seen [] f named done c m = absurd m
  Follows-sorted seen (x ∷ xs) f named done c m =
      let (t, k, e) = map-In (λ (t : TaskNode). t.id) x tasks (named x (inl refl)) in
      let here : In x s.sorted =
        subst (λ z. In z s.sorted) e
          (sorted-closed t k
            (λ d j. done d (f.0 d (record { task = t; listed = k; named = e; dep = j })))) in
      elim m [
        | inl e' ↦ subst (λ z. In z s.sorted) (sym e') here
        | inr l ↦
            Follows-sorted (x ∷ seen) xs f.1 (λ b n. named b (inr n))
              (λ b n. elim n [
                | inl e' ↦ subst (λ z. In z s.sorted) (sym e') here
                | inr o ↦ done b o
              ])
              c l
      ]

  IsOrder-full : (order : List String) → IsOrder tasks order → length s.sorted ≡ length tasks
  IsOrder-full order o =
      let all = Follows-sorted [] order o.follows o.known (λ c m. absurd m) in
      omega (
        arith,
        sorted-le,
        length-map (λ (t : TaskNode). t.id) tasks,
        Distinct-length-le (ids tasks) s.sorted distinct (λ c m.
            let (t, k, e) = map-In (λ (t : TaskNode). t.id) c tasks m in
            all c (subst (λ z. In z order) e (o.complete t k))),
      )

-- The two outcomes of a sort.
abbrev pub Sorts : List TaskNode → Result GraphError (List String) → Type 0
Sorts tasks r =
    ((order : List String) × (r ≡ ok order) × IsOrder tasks order)
    ⊎ ((r ≡ err has_cycle) × ¬ ((order : List String) × IsOrder tasks order))

Ends-Sorts :
    (tasks : List TaskNode) (distinct : Distinct (ids tasks)) (o : Option (Ending Sorting ⊥))
    → Ends (P tasks distinct) (Q tasks distinct) (measure tasks distinct) o
    → Sorts tasks (sort_result tasks o)
Ends-Sorts tasks distinct none e = absurd e
Ends-Sorts tasks distinct (some (returned r)) e = absurd r
Ends-Sorts tasks distinct (some (emptied s)) e =
    elim (Bool-cases (nat_eq (length s.sorted) (length tasks))) [
      | inl full ↦ rw full (inl (s.sorted, refl, sorted-IsOrder tasks distinct s e (ground arith)))
      | inr short ↦ rw short (
          inr
            (refl, λ (order, o). absurd (ground (arith, IsOrder-full tasks distinct s e order o))))
    ]

-- For tasks with distinct IDs `TopologicalSort` ends: it returns an order, in which every task
-- stands once and behind all that it depends on, or it reports a cycle, and then there is no such
-- order.
pub topological_sort-Sorts :
    (tasks : List TaskNode) → Distinct (ids tasks) → Sorts tasks (topological_sort tasks)
unfolding topological_sort
topological_sort-Sorts tasks distinct = Ends-Sorts tasks distinct _ (sort-Ends tasks distinct)
