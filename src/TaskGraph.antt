-- ===== src/TaskGraph.antt =====
-- internal/taskgraph/types.go, and the map of dependents that internal/taskgraph/dag.go builds in
-- four of its methods. A pointer to a task is its place in the list: `Get` finds the first of an ID.
pub mod Dependents
pub mod Search
pub mod Failure
pub mod Order
pub mod Readiness
pub mod Validation
mod Samples
use agentfab.Prelude.{
  ℕ, String, List, [], ◌∷◌, ◌++◌, Bool, true, false, ◌==◌, if◌then◌else◌, Option, none, some, Table,
  lookup, insert, or_zero,
}
use agentfab.Prelude.Int.{ℤ}
use agentfab.Loop.{LoopDefinition, LoopError}

-- `other` is a text that is none of the constants.
pub data TaskStatus : Type 0 where
  pending running completed failed escalated cancelled : TaskStatus
  other : String → TaskStatus

pub data TaskScope : Type 0 where
  small standard large : TaskScope
  other : String → TaskScope

unfoldable pub effective_scope : TaskScope → TaskScope
effective_scope (TaskScope.other s) = standard
effective_scope s = s

pub record ArtifactFile : Type 0 where
  pub uri : String
  pub mime_type : String
  pub name : String

pub record TaskNode : Type 0 where
  pub id : String
  pub agent : String
  pub profile : String
  pub description : String
  pub depends_on : List String
  pub loop_id : String
  pub scope : TaskScope
  pub timeout : ℤ
  pub budget : ℤ
  pub status : TaskStatus
  pub result : String
  pub artifact_uri : String
  pub artifact_files : List ArtifactFile
  pub assigned_instance : String
  pub execution_node : String
  pub lease_epoch : ℤ
  pub chat_context : String

unfoldable pub target_profile : TaskNode → String
target_profile t = if t.profile == "" then t.agent else t.profile

unfoldable pub execution_target : TaskNode → String
unfolding target_profile
execution_target t = if t.assigned_instance == "" then target_profile t else t.assigned_instance

pub record TaskGraph : Type 0 where
  pub request_id : String
  pub name : String
  pub tasks : List TaskNode
  pub loops : List LoopDefinition

unfoldable pub find_task : List TaskNode → String → Option TaskNode
find_task [] id = none
find_task (t ∷ ts) id = if t.id == id then some t else find_task ts id

-- `g.Get(id)`.
abbrev pub get : TaskGraph → String → Option TaskNode
get g id = find_task g.tasks id

find_loop : List LoopDefinition → String → Option LoopDefinition
find_loop [] id = none
find_loop (l ∷ ls) id = if l.id == id then some l else find_loop ls id

unfoldable pub get_loop : TaskGraph → String → Option LoopDefinition
unfolding find_loop
get_loop g id = find_loop g.loops id

-- The errors of the graph's checks. `out_of_fuel` is the model's own, for a loop whose fuel ended.
pub data GraphError : Type 0 where
  empty_id : GraphError
  duplicate_id : String → GraphError
  unknown_dependency : String → String → GraphError
  self_dependency : String → GraphError
  has_cycle out_of_fuel : GraphError
  bad_loop : LoopError → GraphError
  unknown_loop unknown_agent : String → String → GraphError
  unknown_state_agent : String → String → String → GraphError

-- `dependents[dep] = append(dependents[dep], t.ID)`, for each dependency of a task.
unfoldable pub add_dependents : String → List String → Table (List String) → Table (List String)
add_dependents id [] m = m
add_dependents id (dep ∷ deps) m =
    add_dependents id deps (insert dep (or_zero [] (lookup dep m) ++ id ∷ []) m)

-- … and for each task.
unfoldable pub collect_dependents : List TaskNode → Table (List String) → Table (List String)
collect_dependents [] m = m
collect_dependents (t ∷ ts) m = collect_dependents ts (add_dependents t.id t.depends_on m)

abbrev pub dependents : List TaskNode → Table (List String)
dependents tasks = collect_dependents tasks []

-- `dependents[id]`.
abbrev pub dependents_of : List TaskNode → String → List String
dependents_of tasks id = or_zero [] (lookup id (dependents tasks))
