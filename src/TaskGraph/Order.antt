-- ===== src/TaskGraph/Order.antt =====
-- `TopologicalSort` of internal/taskgraph/dag.go: Kahn's algorithm over the map of in-degrees.
pub mod Degrees
pub mod Invariant
mod Rounds
pub mod Correct
use agentfab.Prelude.{
  ℕ, ◌+◌, String, List, [], ◌∷◌, ◌++◌, map, Bool, true, false, ◌==◌, if◌then◌else◌, nat_eq, Option,
  none, some, length, select, Table, lookup, insert, or_zero, Result, ok, err,
}
use agentfab.Prelude.Int.{ℤ, pos, negsuc, decrement}
use agentfab.Prelude.Worklist.{Round, go, Ending, returned, emptied, drain}
use agentfab.TaskGraph.{TaskNode, dependents_of, GraphError, has_cycle, out_of_fuel}

abbrev pub is_zero : ℤ → Bool
is_zero (pos n) = nat_eq n 0
is_zero (negsuc n) = false

-- `inDegree[id]`.
abbrev pub degree : Table ℤ → String → ℤ
degree m id = or_zero (pos 0) (lookup id m)

-- `inDegree[t.ID] = len(t.DependsOn)`, for each task.
pub collect_degrees : List TaskNode → Table ℤ → Table ℤ
collect_degrees [] m = m
collect_degrees (t ∷ ts) m = collect_degrees ts (insert t.id (pos (length t.depends_on)) m)

abbrev pub roots : Table ℤ → List TaskNode → List String
roots m tasks = map (λ t. t.id) (select (λ t. is_zero (degree m t.id)) tasks)

pub record Sorting : Type 0 where
  pub in_degree : Table ℤ
  pub sorted : List String

-- The inner loop, over the dependents of the item.
pub release : List String → Sorting → List String → Round String Sorting ⊥
release [] s queue = go s queue
release (c ∷ cs) s queue =
    let d = decrement (degree s.in_degree c) in
    release cs (record s { in_degree = insert c d s.in_degree })
      (if is_zero d then queue ++ c ∷ [] else queue)

abbrev pub sort_round : List TaskNode → String → Sorting → List String → Round String Sorting ⊥
sort_round tasks x s queue =
    release (dependents_of tasks x) (record s { sorted = s.sorted ++ x ∷ [] }) queue

pub edges : List TaskNode → ℕ
edges [] = 0
edges (t ∷ ts) = length t.depends_on + edges ts

abbrev pub sort_result : List TaskNode → Option (Ending Sorting ⊥) → Result GraphError (List String)
sort_result tasks none = err out_of_fuel
sort_result tasks (some (returned r)) = absurd r
sort_result tasks (some (emptied s)) =
    if nat_eq (length s.sorted) (length tasks) then ok s.sorted else err has_cycle

-- The fuel is one round for each task and one for each dependency.
unfoldable pub topological_sort : List TaskNode → Result GraphError (List String)
unfolding collect_degrees release edges
topological_sort tasks =
    let degrees = collect_degrees tasks [] in
    sort_result tasks (
      drain (length tasks + edges tasks) (sort_round tasks)
        (record { in_degree = degrees; sorted = [] }) (roots degrees tasks))
