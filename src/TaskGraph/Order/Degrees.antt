-- ===== src/TaskGraph/Order/Degrees.antt =====
-- The in-degrees and the map of dependents of internal/taskgraph/dag.go, counted.
use agentfab.Prelude.{
  ◌∙◌, In-map, contains-In, ◌<◌, ℕ, ◌+◌, ◌≤◌, String, List, [], ◌∷◌, ◌++◌, map, true, false, ◌==◌,
  eq_iff, eq_refl, ◌≡◌, refl, sym, inl, inr, subst, if◌then◌else◌, length, In, arith, Bool-cases,
  ◌≢◌, Table, lookup, insert, or_zero, lookup-insert, contains,
}
use agentfab.Prelude.Int.{ℤ, pos, pos_part}
use agentfab.TaskGraph.{TaskNode, add_dependents, collect_dependents, dependents_of}
use agentfab.TaskGraph.Order.{degree, collect_degrees, edges}

-- How often a text stands in a list.
unfoldable pub count : String → List String → ℕ
count c [] = 0
count c (x ∷ xs) = (if x == c then 1 else 0) + count c xs

count-append : (c : String) (xs ys : List String) → count c (xs ++ ys) ≡ count c xs + count c ys
unfolding count
count-append c [] ys = omega arith
count-append c (x ∷ xs) ys = omega (arith, count-append c xs ys)

pub In-count : (c : String) (xs : List String) → In c xs → 0 < count c xs
unfolding count
In-count c [] m = elim m [ ]
In-count c (x ∷ xs) (inl e) = ground (arith, eq_iff x c)
In-count c (x ∷ xs) (inr m) = omega (arith, In-count c xs m)

abbrev entry : Table (List String) → String → List String
entry m k = or_zero [] (lookup k m)

-- How often `k` is listed by the tasks with the ID `c`.
pub listings : List TaskNode → String → String → ℕ
listings [] k c = 0
listings (t ∷ ts) k c = (if t.id == c then count k t.depends_on else 0) + listings ts k c

count-entry-insert :
    (id dep : String) (m : Table (List String)) (k c : String)
    → count c (entry (insert dep (entry m dep ++ id ∷ []) m) k)
      ≡ count c (entry m k) + (if id == c then (if dep == k then 1 else 0) else 0)
unfolding count
count-entry-insert id dep m k c = ground (
  arith,
  lookup-insert dep k (entry m dep ++ id ∷ []) m,
  eq_iff dep k,
  count-append c (entry m dep) (id ∷ []),
)

count-add_dependents :
    (id : String) (deps : List String) (m : Table (List String)) (k c : String)
    → count c (entry (add_dependents id deps m) k)
      ≡ count c (entry m k) + (if id == c then count k deps else 0)
unfolding add_dependents count
count-add_dependents id [] m k c = ground arith
count-add_dependents id (dep ∷ deps) m k c = ground (
  arith,
  count-add_dependents id deps (insert dep (entry m dep ++ id ∷ []) m) k c,
  count-entry-insert id dep m k c,
)

count-collect :
    (tasks : List TaskNode) (m : Table (List String)) (k c : String)
    → count c (entry (collect_dependents tasks m) k) ≡ count c (entry m k) + listings tasks k c
unfolding collect_dependents listings
count-collect [] m k c = omega arith
count-collect (t ∷ ts) m k c = omega (
  arith,
  count-collect ts (add_dependents t.id t.depends_on m) k c,
  count-add_dependents t.id t.depends_on m k c,
)

-- No two tasks have one ID.
abbrev pub Distinct : List String → Type 0
Distinct [] = Unit
Distinct (x ∷ xs) = (¬ In x xs) × Distinct xs

abbrev pub ids : List TaskNode → List String
ids tasks = map (λ t. t.id) tasks

listings_absent :
    (tasks : List TaskNode) (k c : String) → ¬ In c (ids tasks) → listings tasks k c ≡ 0
unfolding listings
listings_absent [] k c h = refl
listings_absent (t ∷ ts) k c h = ground (
  arith,
  listings_absent ts k c (λ m. h (inr m)),
  λ (e : t.id ≡ c). h (inl (sym e)),
  eq_iff t.id c,
)

listings_task :
    (tasks : List TaskNode) (k : String) (t : TaskNode)
    → Distinct (ids tasks)
    → In t tasks
    → listings tasks k t.id ≡ count k t.depends_on
unfolding listings
listings_task [] k t d m = elim m [ ]
listings_task (u ∷ ts) k t d (inl e) =
    rw e (ground (arith, eq_refl u.id, listings_absent ts k u.id d.0))
listings_task (u ∷ ts) k t d (inr m) =
    let other : u.id ≢ t.id =
      λ e. d.0 (subst (λ z. In z (ids ts)) (sym e) (In-map (λ (t : TaskNode). t.id) t ts m refl)) in
    ground (arith, eq_iff u.id t.id, listings_task ts k t d.1 m)

-- The map of dependents lists a task once for each time that it names the dependency.
pub count-dependents_of :
    (tasks : List TaskNode) (k : String) (t : TaskNode)
    → Distinct (ids tasks)
    → In t tasks
    → count t.id (dependents_of tasks k) ≡ count k t.depends_on
unfolding lookup count
count-dependents_of tasks k t d m =
    omega (arith, count-collect tasks [] k t.id, listings_task tasks k t d m)

contains-append :
    (xs ys : List String) (d : String)
    → contains (xs ++ ys) d ≡ (if contains xs d then true else contains ys d)
unfolding contains
contains-append [] ys d = refl
contains-append (x ∷ xs) ys d = ground (arith, contains-append xs ys d)

-- The dependencies that are not yet in the order.
pub blocked : List String → List String → ℕ
blocked sorted [] = 0
blocked sorted (d ∷ ds) = (if contains sorted d then 0 else 1) + blocked sorted ds

pub blocked-snoc :
    (sorted : List String) (x : String) (deps : List String)
    → contains sorted x ≡ false
    → blocked sorted deps ≡ blocked (sorted ++ x ∷ []) deps + count x deps
unfolding blocked count contains
blocked-snoc sorted x [] h = omega arith
blocked-snoc sorted x (d ∷ ds) h =
    ground
      (arith, blocked-snoc sorted x ds h, contains-append sorted (x ∷ []) d, eq_iff x d, eq_iff d x)

pub blocked_nil : (deps : List String) → blocked [] deps ≡ length deps
unfolding blocked contains
blocked_nil [] = refl
blocked_nil (d ∷ ds) = omega (arith, blocked_nil ds)

-- With none of them blocked, all dependencies are in the order.
pub blocked-zero :
    (sorted deps : List String) (d : String) → blocked sorted deps ≡ 0 → In d deps → In d sorted
unfolding blocked
blocked-zero sorted [] d h m = elim m [ ]
blocked-zero sorted (x ∷ ds) d h (inl e) =
    contains-In sorted d
      (elim (Bool-cases (contains sorted d)) [ inl y ↦ y | inr n ↦ absurd (ground arith) ])
blocked-zero sorted (x ∷ ds) d h (inr m) = blocked-zero sorted ds d (omega arith) m

-- With one blocked, there is a dependency that is not in the order.
pub blocked-pos :
    (sorted deps : List String)
    → 0 < blocked sorted deps
    → (d : String) × In d deps × (contains sorted d ≡ false)
unfolding blocked
blocked-pos sorted [] h = absurd (omega arith)
blocked-pos sorted (x ∷ ds) h = elim (Bool-cases (contains sorted x)) [
  | inl y ↦ let (d, m, n) = blocked-pos sorted ds (ground arith) in (d, inr m, n)
  | inr n ↦ (x, inl refl, n)
]

pub degree-insert :
    (c d : String) (v : ℤ) (m : Table ℤ)
    → degree (insert c v m) d ≡ (if c == d then v else degree m d)
degree-insert c d v m = ground (arith, lookup-insert c d v m)

degree-collect_absent :
    (tasks : List TaskNode) (m : Table ℤ) (c : String)
    → ¬ In c (ids tasks)
    → degree (collect_degrees tasks m) c ≡ degree m c
unfolding collect_degrees
degree-collect_absent [] m c h = refl
degree-collect_absent (t ∷ ts) m c h =
    degree-collect_absent ts (insert t.id (pos (length t.depends_on)) m) c (λ k. h (inr k))
    ∙ ground (
      arith,
      degree-insert t.id c (pos (length t.depends_on)) m,
      λ (e : t.id ≡ c). h (inl (sym e)),
      eq_iff t.id c,
    )

-- The in-degree of a task is the number of its dependencies.
pub degree-collect :
    (tasks : List TaskNode) (m : Table ℤ) (t : TaskNode)
    → Distinct (ids tasks)
    → In t tasks
    → degree (collect_degrees tasks m) t.id ≡ pos (length t.depends_on)
unfolding collect_degrees
degree-collect [] m t d k = elim k [ ]
degree-collect (u ∷ ts) m t d (inl e) = rw e (
    degree-collect_absent ts (insert u.id (pos (length u.depends_on)) m) u.id d.0
    ∙ ground (arith, degree-insert u.id u.id (pos (length u.depends_on)) m, eq_refl u.id))
degree-collect (u ∷ ts) m t d (inr k) = degree-collect ts _ t d.1 k

-- The sum of the in-degrees, which bounds the pushes that are left.
pub total : Table ℤ → ℕ
total [] = 0
total ((k, v) ∷ m) = pos_part v + total m

pub total_nil : total [] ≡ 0
unfolding total
total_nil = refl

total-insert-le : (c : String) (n : ℕ) (m : Table ℤ) → total (insert c (pos n) m) ≤ n + total m
unfolding total insert
total-insert-le c n [] = omega arith
total-insert-le c n ((k, v) ∷ m) = ground (arith, total-insert-le c n m)

pub total-collect-le :
    (tasks : List TaskNode) (m : Table ℤ) → total (collect_degrees tasks m) ≤ edges tasks + total m
unfolding collect_degrees edges
total-collect-le [] m = omega arith
total-collect-le (t ∷ ts) m = omega (
  arith,
  total-collect-le ts (insert t.id (pos (length t.depends_on)) m),
  total-insert-le t.id (length t.depends_on) m,
)

pub total-insert :
    (c : String) (n : ℕ) (m : Table ℤ)
    → degree m c ≡ pos (n + 1)
    → total (insert c (pos n) m) + 1 ≡ total m
unfolding total insert lookup
total-insert c n [] h = absurd (ground arith)
total-insert c n ((k, v) ∷ m) h = elim (Bool-cases (k == c)) [
  | inl same ↦ ground arith
  | inr other ↦ ground (arith, total-insert c n m)
]
