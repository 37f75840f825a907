-- ===== src/TaskGraph/Samples.antt =====
-- Task graphs of internal/taskgraph: a small plan, a cycle, and what the methods do on them.
use agentfab.Prelude.{
  none, String, List, [], ◌∷◌, true, ◌≡◌, ◌≢◌, ◌↔◌, refl, ◌⊎◌, inl, inr, In, lookup, insert, select,
  contains, check_each, any, some, ok, err, Bool,
}
use agentfab.Prelude.Int.{pos, decrement}
use agentfab.Prelude.Worklist.{drain}
use agentfab.TaskGraph.{
  effective_scope, execution_target, get_loop, TaskNode, TaskStatus, TaskScope, pending, running,
  completed, failed, escalated, TaskGraph, find_task, add_dependents, collect_dependents,
  target_profile, has_cycle, unknown_agent,
}
use agentfab.TaskGraph.Search.{search_dependents, has_incomplete_dependents, has_running_dependents}
use agentfab.TaskGraph.Search.Reachability.{Waits, has_dependents-Waits}
use agentfab.TaskGraph.Failure.{fail_dependents, dependency_failed}
use agentfab.TaskGraph.Failure.Cascade.{IsCascade, fail_dependents-IsCascade}
use agentfab.TaskGraph.Order.{topological_sort}
use agentfab.TaskGraph.Order.Correct.{Sorts, topological_sort-Sorts}
use agentfab.TaskGraph.Readiness.{ready_tasks, all_done, has_failures, failure_summaries}
use agentfab.TaskGraph.Readiness.Progress.{IsReady, ready_tasks-IsReady, ready_or_done}
use agentfab.TaskGraph.Validation.{validate, validate_with_roster}
use agentfab.TaskGraph.Validation.Sound.{
  IsValid, Staffed, validate-IsValid, validate_with_roster-IsValid,
}

abbrev task_ : String → String → List String → TaskStatus → TaskNode
task_ id agent deps status = record {
  id = id;
  agent = agent;
  profile = "";
  description = "";
  depends_on = deps;
  loop_id = "";
  scope = TaskScope.standard;
  timeout = pos 0;
  budget = pos 0;
  status = status;
  result = "";
  artifact_uri = "";
  artifact_files = [];
  assigned_instance = "";
  execution_node = "";
  lease_epoch = pos 0;
  chat_context = "";
}

abbrev graph : List TaskNode → TaskGraph
graph tasks = record { request_id = "r"; name = "plan"; tasks = tasks; loops = [] }

abbrev design : TaskNode
design = task_ "design" "architect" [] completed

abbrev build : TaskNode
build = task_ "build" "developer" ("design" ∷ []) pending

abbrev test : TaskNode
test = task_ "test" "tester" ("build" ∷ "design" ∷ []) pending

-- Listed against the order.
abbrev plan : TaskGraph
plan = graph (test ∷ build ∷ design ∷ [])

abbrev tangle : TaskGraph
tangle =
    graph (task_ "a" "developer" ("b" ∷ []) pending ∷ task_ "b" "developer" ("a" ∷ []) running ∷ [])

abbrev quoted : String → String
quoted s = s

abbrev dropped : TaskNode → TaskNode
dropped t = record t { status = failed; result = "dependency design failed" }

program : Unit {0}
unfolding find_task add_dependents collect_dependents target_profile search_dependents
    has_incomplete_dependents has_running_dependents fail_dependents topological_sort ready_tasks
    all_done has_failures failure_summaries validate validate_with_roster drain lookup insert select
    contains check_each any decrement effective_scope execution_target get_loop
program = tt

sort_plan : topological_sort plan.tasks ≡ ok ("design" ∷ "build" ∷ "test" ∷ [])
unfolding program
sort_plan = refl

sort_tangle : topological_sort tangle.tasks ≡ err has_cycle
unfolding program
sort_tangle = refl

waiting_plan : has_incomplete_dependents plan "design" ≡ some true
unfolding program
waiting_plan = refl

running_tangle : has_running_dependents tangle "a" ≡ some true
unfolding program
running_tangle = refl

fail_plan :
    fail_dependents quoted plan "design"
    ≡ some (graph (dropped test ∷ dropped build ∷ design ∷ []), "test" ∷ "build" ∷ [])
unfolding program
fail_plan = refl

ready_plan : ready_tasks plan ≡ build ∷ []
unfolding program
ready_plan = refl

validate_plan : validate_with_roster plan ("architect" ∷ "developer" ∷ "tester" ∷ []) ≡ ok tt
unfolding program
validate_plan = refl

validate_unstaffed :
    validate_with_roster plan ("architect" ∷ "developer" ∷ []) ≡ err (unknown_agent "test" "tester")
unfolding program
validate_unstaffed = refl

tangle_refused : validate tangle ≡ err has_cycle
unfolding program
tangle_refused = refl

abbrev staff : List String
staff = "architect" ∷ "developer" ∷ "tester" ∷ []

unknown_scope : effective_scope (TaskScope.other "huge") ≡ TaskScope.standard
unfolding program
unknown_scope = refl

target_build : execution_target build ≡ "developer"
unfolding program
target_build = refl

target_assigned : execution_target (record build { assigned_instance = "i" }) ≡ "i"
unfolding program
target_assigned = refl

no_loop : get_loop plan "review" ≡ none
unfolding program
no_loop = refl

plan-IsValid : IsValid plan
plan-IsValid = ((validate_with_roster-IsValid plan staff).0 validate_plan).0

plan_statuses :
    (t : TaskNode)
    → In t plan.tasks
    → (t.status ≡ pending) ⊎ ((t.status ≡ completed) ⊎ (t.status ≡ escalated))
plan_statuses t (inl e) = inl (cc)
plan_statuses t (inr (inl e)) = inl (cc)
plan_statuses t (inr (inr (inl e))) = inr (inl (cc))
plan_statuses t (inr (inr (inr e))) = absurd e

has_dependents-Waits_example :
    ((b : Bool) × (has_incomplete_dependents plan "design" ≡ some b)
      × ((b ≡ true) ↔ Waits (λ s. s ≢ completed) plan "design"))
    × ((b : Bool) × (has_running_dependents plan "design" ≡ some b)
        × ((b ≡ true) ↔ Waits (λ s. s ≡ running) plan "design"))
has_dependents-Waits_example = has_dependents-Waits plan "design"

fail_dependents-IsCascade_example :
    (h : TaskGraph) × (hit : List String) × (fail_dependents quoted plan "design" ≡ some (h, hit))
    × IsCascade (dependency_failed quoted "design") plan "design" h hit
fail_dependents-IsCascade_example = fail_dependents-IsCascade quoted plan "design"

topological_sort-Sorts_example : Sorts plan.tasks (topological_sort plan.tasks)
topological_sort-Sorts_example = topological_sort-Sorts plan.tasks plan-IsValid.distinct

ready_tasks-IsReady_example : In build (ready_tasks plan) ↔ IsReady plan build
ready_tasks-IsReady_example = ready_tasks-IsReady plan build

ready_or_done_example : ((t : TaskNode) × In t (ready_tasks plan)) ⊎ (all_done plan ≡ true)
ready_or_done_example =
    ready_or_done plan plan-IsValid.distinct plan_statuses plan-IsValid.order plan-IsValid.ordered

validate-IsValid_example : (validate plan ≡ ok tt) ↔ IsValid plan
validate-IsValid_example = validate-IsValid plan

validate_with_roster-IsValid_example :
    (validate_with_roster plan staff ≡ ok tt) ↔ (IsValid plan × Staffed staff plan)
validate_with_roster-IsValid_example = validate_with_roster-IsValid plan staff
