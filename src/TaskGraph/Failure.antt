-- ===== src/TaskGraph/Failure.antt =====
-- `FailDependents` of internal/taskgraph/dag.go: the failure of a task, cascaded to what waits for
-- it. The verb `%q` of package fmt, which quotes a text, is the parameter `quote`.
mod Invariant
pub mod Cascade
use mathlib.Core.Option
use Prim.Native.String.{◌++◌ as str_append}
use agentfab.Prelude.{
  ℕ, ◌+◌, String, List, [], ◌∷◌, ◌++◌, Bool, true, false, ◌||◌, ◌==◌, if◌then◌else◌, Option, none,
  some, length,
}
use agentfab.Prelude.Worklist.{Round, go, Ending, returned, emptied, drain}
use agentfab.TaskGraph.{
  TaskNode, TaskStatus, failed, completed, TaskGraph, find_task, dependents_of,
}

abbrev pub is_settled_status : TaskStatus → Bool
is_settled_status failed = true
is_settled_status completed = true
is_settled_status s = false

-- `child == nil || child.Status == StatusFailed || child.Status == StatusCompleted`.
abbrev pub is_settled : Option TaskNode → Bool
is_settled none = true
is_settled (some t) = is_settled_status t.status

abbrev pub fail : String → TaskNode → TaskNode
fail message t = record t { status = failed; result = message }

-- The write through the pointer that `Get` returned.
pub mark_failed : String → String → List TaskNode → List TaskNode
mark_failed message id [] = []
mark_failed message id (t ∷ ts) =
    if t.id == id then fail message t ∷ ts else t ∷ mark_failed message id ts

pub record Progress : Type 0 where
  pub tasks : List TaskNode
  pub cascaded : List String

module _ (message : String) where
  pub fail_children : List String → Progress → List String → Round String Progress ⊥
  fail_children [] p queue = go p queue
  fail_children (child ∷ children) p queue =
      let skip = fail_children children p queue in
      let mark =
        fail_children children
          (record {
            tasks = mark_failed message child p.tasks;
            cascaded = p.cascaded ++ child ∷ [];
          })
          (queue ++ child ∷ []) in
      if is_settled (find_task p.tasks child) then skip else mark

abbrev final : Ending Progress ⊥ → Progress
final (returned r) = absurd r
final (emptied p) = p

-- The fuel is the number of tasks, for the pushes, and one for the first item.
module _ (quote : String → String) where
  abbrev pub dependency_failed : String → String
  dependency_failed id = str_append "dependency " (str_append (quote id) " failed")

  unfoldable pub fail_dependents : TaskGraph → String → Option (TaskGraph × List String)
  unfolding fail_children mark_failed
  fail_dependents g id =
      Option.map (λ e. (record g { tasks = (final e).tasks }, (final e).cascaded))
        (drain (length g.tasks + 1)
          (λ x p queue. fail_children (dependency_failed id) (dependents_of g.tasks x) p queue)
          (record { tasks = g.tasks; cascaded = [] }) (id ∷ []))
