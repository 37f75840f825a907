-- ===== src/TaskGraph/Search.antt =====
-- `HasIncompleteDependents` and `HasRunningDependents` of internal/taskgraph/dag.go, which differ in
-- the test on a dependent, against reachability in the task graph.
use agentfab.Prelude.Worklist.{
  Round, stop, go, Ending, returned, emptied, drain, Ends, Keeps, drain-Ends,
}
use agentfab.TaskGraph.{
  TaskNode, TaskStatus, completed, running, TaskGraph, find_task, dependents, dependents_of,
}
use agentfab.TaskGraph.Dependents.{DependsOn, In-dependents_of}
mod Invariant
pub mod Reachability
use mathlib.Core.Option
use agentfab.Prelude.{
  In-append_left, length-append, contains-false, In-append_right, sym, contains-In, length-map, ◌↔◌,
  subst, Bool-cases, In-map, In-append, inr, eq_iff, inl, arith, ◌⊎◌, map, select, ◌≢◌, In,
  if◌then◌else◌, Option, none, some, List, [], ◌∷◌, ◌++◌, ◌+◌, ◌≤◌, Bool, true, false, not,
  contains, length, ◌≡◌, refl, some, ◌∷◌, true, false, not, Option, List, Bool, String, ℕ,
}

abbrev is_running : TaskStatus → Bool
is_running running = true
is_running s = false

abbrev is_completed : TaskStatus → Bool
is_completed completed = true
is_completed s = false

-- `child != nil && test(child.Status)`.
abbrev hits : (TaskStatus → Bool) → Option TaskNode → Bool
hits test none = false
hits test (some t) = test t.status

-- The inner loop: `visited` and the queue, or the early return.
visit_children :
    (TaskStatus → Bool)
    → List TaskNode
    → List String
    → List String
    → List String
    → Round String (List String) (Unit {0})
visit_children test tasks [] visited queue = go visited queue
visit_children test tasks (child ∷ children) visited queue =
    let skip = visit_children test tasks children visited queue in
    let push = visit_children test tasks children (child ∷ visited) (queue ++ child ∷ []) in
    if contains visited child
    then skip
    else if hits test (find_task tasks child)
    then stop tt
    else push

abbrev is_returned : Ending (List String) (Unit {0}) → Bool
is_returned (returned _) = true
is_returned (emptied _) = false

-- The fuel is the number of tasks, for the pushes, and one for the first item.
unfoldable pub search_dependents : (TaskStatus → Bool) → TaskGraph → String → Option Bool
unfolding visit_children
search_dependents test g id = Option.map is_returned (
    drain (length g.tasks + 1)
      (λ x visited queue. visit_children test g.tasks (dependents_of g.tasks x) visited queue)
      (id ∷ []) (id ∷ []))

unfoldable pub has_incomplete_dependents : TaskGraph → String → Option Bool
has_incomplete_dependents = search_dependents (λ s. not (is_completed s))

unfoldable pub has_running_dependents : TaskGraph → String → Option Bool
has_running_dependents = search_dependents is_running
