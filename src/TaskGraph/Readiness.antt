-- ===== src/TaskGraph/Readiness.antt =====
-- What the scheduler asks of internal/taskgraph/dag.go: which tasks are ready, whether all are done,
-- and what failed.
pub mod Progress
use Prim.Native.String.{◌++◌ as str_append}
use agentfab.Prelude.{
  String, List, [], ◌∷◌, map, Bool, true, false, not, ◌&&◌, ◌||◌, ◌==◌, if◌then◌else◌, Option, none,
  some, select, any, contains,
}
use agentfab.Loop.{is_empty}
use agentfab.TaskGraph.{
  TaskNode, TaskStatus, pending, running, completed, failed, escalated, cancelled, TaskGraph,
  target_profile,
}

abbrev is_pending : TaskStatus → Bool
is_pending pending = true
is_pending s = false

-- `t.Status == StatusCompleted || t.Status == StatusEscalated`.
abbrev is_passed : TaskStatus → Bool
is_passed completed = true
is_passed escalated = true
is_passed s = false

-- The keys of the map `completed`.
abbrev passed_ids : List TaskNode → List String
passed_ids tasks = map (λ t. t.id) (select (λ t. is_passed t.status) tasks)

all_in : List String → List String → Bool
all_in done [] = true
all_in done (d ∷ ds) = if contains done d then all_in done ds else false

unfoldable pub ready_tasks : TaskGraph → List TaskNode
unfolding all_in
ready_tasks g =
    select (λ t. is_pending t.status && all_in (passed_ids g.tasks) t.depends_on) g.tasks

abbrev is_open : TaskStatus → Bool
is_open pending = true
is_open running = true
is_open s = false

unfoldable pub all_done : TaskGraph → Bool
all_done g = not (any (λ t. is_open t.status) g.tasks)

abbrev without_artifacts : TaskNode → Bool
without_artifacts t = is_empty t.artifact_files && t.artifact_uri == ""

abbrev summary : TaskNode → String → String
summary t text =
    str_append "Task "
      (str_append t.id (str_append " (" (str_append (target_profile t) (str_append "): " text))))

summarise : TaskStatus → TaskNode → List String → List String
summarise failed t rest = summary t (if t.result == "" then "failed" else t.result) ∷ rest
summarise escalated t rest =
    if without_artifacts t
    then summary t "escalated (review loop exhausted, no artifacts)" ∷ rest
    else rest
summarise cancelled t rest = summary t "cancelled" ∷ rest
summarise s t rest = rest

failure_summaries_of : List TaskNode → List String
unfolding summarise
failure_summaries_of [] = []
failure_summaries_of (t ∷ ts) = summarise t.status t (failure_summaries_of ts)

unfoldable pub failure_summaries : TaskGraph → List String
unfolding failure_summaries_of
failure_summaries g = failure_summaries_of g.tasks

has_failed : TaskStatus → TaskNode → Bool
has_failed failed t = true
has_failed cancelled t = true
has_failed escalated t = without_artifacts t
has_failed s t = false

unfoldable pub has_failures : TaskGraph → Bool
unfolding has_failed
has_failures g = any (λ t. has_failed t.status t) g.tasks
