-- ===== src/TaskGraph/Validation.antt =====
-- `Validate` and `ValidateWithRoster` of internal/taskgraph/dag.go.
pub mod Sound
use agentfab.Prelude.{
  String, List, [], ◌∷◌, map, Bool, true, false, not, ◌&&◌, ◌==◌, Result, ok, err, ◌>>=◌, ◌>>◌,
  fail_if, check_each, contains,
}
use agentfab.Loop.{LoopDefinition, LoopError, StateConfig}
use agentfab.Loop
use agentfab.TaskGraph.{
  TaskNode, TaskGraph, GraphError, empty_id, duplicate_id, unknown_dependency, self_dependency,
  bad_loop, unknown_loop, unknown_agent, unknown_state_agent, target_profile,
}
use agentfab.TaskGraph.Order.{topological_sort}

-- The first loop, with the IDs seen so far.
check_ids : List String → List TaskNode → Result GraphError (Unit {0})
check_ids seen [] = ok tt
check_ids seen (t ∷ ts) = do
  fail_if (t.id == "") empty_id
  fail_if (contains seen t.id) (duplicate_id t.id)
  check_ids (t.id ∷ seen) ts

abbrev task_ids : TaskGraph → List String
task_ids g = map (λ t. t.id) g.tasks

abbrev check_dependency : TaskGraph → TaskNode → String → Result GraphError (Unit {0})
check_dependency g t dep = do
  fail_if (not (contains (task_ids g) dep)) (unknown_dependency t.id dep)
  fail_if (dep == t.id) (self_dependency t.id)

abbrev check_dependencies : TaskGraph → TaskNode → Result GraphError (Unit {0})
check_dependencies g t = check_each (check_dependency g t) t.depends_on

-- `fmt.Errorf("loop validation: %w", err)`.
abbrev wrap_loop : Result LoopError (Unit {0}) → Result GraphError (Unit {0})
wrap_loop (ok a) = ok a
wrap_loop (err e) = err (bad_loop e)

abbrev check_loop : LoopDefinition → Result GraphError (Unit {0})
check_loop l = wrap_loop (Loop.validate l)

abbrev check_loop_id : TaskGraph → TaskNode → Result GraphError (Unit {0})
check_loop_id g t =
    fail_if (not (t.loop_id == "") && not (contains (map (λ l. l.id) g.loops) t.loop_id))
      (unknown_loop t.id t.loop_id)

-- The sorted IDs are not used.
abbrev check_sort : TaskGraph → Result GraphError (Unit {0})
check_sort g = topological_sort g.tasks >>= λ _. ok tt

unfoldable pub validate : TaskGraph → Result GraphError (Unit {0})
unfolding check_ids
validate g = do
  check_ids [] g.tasks
  check_each (check_dependencies g) g.tasks
  check_sort g
  check_each check_loop g.loops
  check_each (check_loop_id g) g.tasks

abbrev check_agent : List String → TaskNode → Result GraphError (Unit {0})
check_agent roster t =
    fail_if (not (target_profile t == "") && not (contains roster (target_profile t)))
      (unknown_agent t.id (target_profile t))

abbrev check_state : List String → LoopDefinition → StateConfig → Result GraphError (Unit {0})
check_state roster l sc =
    fail_if (not (sc.agent == "") && not (contains roster sc.agent))
      (unknown_state_agent l.id sc.name sc.agent)

abbrev check_states : List String → LoopDefinition → Result GraphError (Unit {0})
check_states roster l = check_each (check_state roster l) l.states

unfoldable pub validate_with_roster : TaskGraph → List String → Result GraphError (Unit {0})
validate_with_roster g roster = do
  validate g
  check_each (check_agent roster) g.tasks
  check_each (check_states roster) g.loops
