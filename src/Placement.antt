-- ===== src/Placement.antt =====
-- internal/conductor/scheduler.go, in part: which instance a task runs on, and the leases and counts that
-- it holds while it runs. The control plane is the store in memory. A task is a value here: what its
-- pointer would show others is the task that a method returns. What a method emits is left out, and so is
-- a scheduler without a control plane, which places nothing. The store in memory lists without errors.
pub mod Choice
pub mod Tasks
mod Samples
use Prim.Native.String.{compare}
use text.Mathlib.Text.{is_lt}
use agentfab.Prelude.{
  ℕ, String, List, [], ◌∷◌, Bool, true, false, not, ◌&&◌, ◌||◌, ◌==◌, if◌then◌else◌, ltb, nat_eq,
  Option, none, some, Table, lookup, insert, or_zero, select, contains, map, length, Result, ok,
  err,
}
use agentfab.Prelude.Int.{ℤ, pos, leb_ℤ, increment, decrement, of_bits}
use agentfab.Prelude.Blank.{is_blank}
use agentfab.Loop.{is_empty}
use agentfab.TaskGraph.{TaskNode, TaskStatus, target_profile}
use agentfab.ControlPlane.{Node, NodeState, AgentInstance, InstanceState, TaskLease}
use agentfab.ControlPlane.Memory.{MemoryStore, StoreError, Method}
use agentfab.ControlPlane.Memory.Members.{list_nodes, list_instances}
use agentfab.ControlPlane.Memory.TaskLeases.{acquire_task_lease, release_task_lease}

-- Of an agent's definition, what placement reads.
pub record AgentDefinition : Type 0 where
  pub name : String
  pub max_concurrent_tasks : ℤ
  pub required_node_labels : Table String

-- Of a scheduler, what placement reads and changes.
pub record Scheduler : Type 0 where
  pub request_id : String
  pub lease_owner_id : String
  pub agents : List AgentDefinition
  pub graph : Option (List TaskNode)
  pub inflight : Table ℤ
  pub instance_in_flight : Table ℤ
  pub node_in_flight : Table ℤ

-- `m[k]` of a map of counts.
abbrev pub count : String → Table ℤ → ℤ
count k m = or_zero (pos 0) (lookup k m)

abbrev pub bump : String → Table ℤ → Table ℤ
bump k m = insert k (increment (count k m)) m

-- `if m[k] > 0 { m[k]-- }`.
abbrev pub drop_one : String → Table ℤ → Table ℤ
drop_one k m = if leb_ℤ (count k m) (pos 0) then m else insert k (decrement (count k m)) m

limit_in : List AgentDefinition → String → ℤ
limit_in [] agent = pos 0
limit_in (d ∷ ds) agent = if d.name == agent then d.max_concurrent_tasks else limit_in ds agent

unfoldable pub agent_limit : Scheduler → String → ℤ
unfolding limit_in
agent_limit s agent = limit_in s.agents agent

unfoldable pub try_acquire_agent : Scheduler → String → Scheduler × Bool
unfolding agent_limit increment
try_acquire_agent s agent =
    if not (leb_ℤ (agent_limit s agent) (pos 0))
      && leb_ℤ (agent_limit s agent) (count agent s.inflight)
    then (s, false)
    else (record s { inflight = bump agent s.inflight }, true)

unfoldable pub release_agent : Scheduler → String → Scheduler
unfolding decrement
release_agent s agent = record s { inflight = drop_one agent s.inflight }

unfoldable pub lease_owner : Scheduler → String
unfolding is_blank
lease_owner s = if is_blank s.lease_owner_id then "conductor" else s.lease_owner_id

unfoldable pub acquire_instance : String → String → Scheduler → Scheduler
unfolding increment
acquire_instance instance_id node_id s = if instance_id == "" then s else record s {
  instance_in_flight = bump instance_id s.instance_in_flight;
  node_in_flight = if node_id == "" then s.node_in_flight else bump node_id s.node_in_flight;
}

unfoldable pub release_instance : String → String → Scheduler → Scheduler
unfolding decrement
release_instance instance_id node_id s = if instance_id == "" then s else record s {
  instance_in_flight = drop_one instance_id s.instance_in_flight;
  node_in_flight = if node_id == "" then s.node_in_flight else drop_one node_id s.node_in_flight;
}

unfoldable pub instance_load : Scheduler → String → ℤ
instance_load s id = count id s.instance_in_flight

unfoldable pub node_load : Scheduler → String → ℤ
node_load s id = count id s.node_in_flight

abbrev is_over : TaskStatus → Bool
is_over TaskStatus.failed = true
is_over TaskStatus.cancelled = true
is_over st = false

unfoldable pub uses_node : String → String → TaskNode → Bool
uses_node task_id node_id t =
    not (t.id == task_id) && (t.execution_node == node_id && not (is_over t.status))

usage_in : Option (List TaskNode) → String → String → ℤ
unfolding uses_node
usage_in none task_id node_id = pos 0
usage_in (some ts) task_id node_id =
    if node_id == "" then pos 0 else pos (length (select (uses_node task_id node_id) ts))

unfoldable pub request_node_usage : Scheduler → TaskNode → String → ℤ
unfolding usage_in
request_node_usage s task node_id = usage_in s.graph task.id node_id

unfoldable pub is_schedulable_node_state : NodeState → Bool
is_schedulable_node_state NodeState.ready = true
is_schedulable_node_state NodeState.degraded = true
is_schedulable_node_state st = false

unfoldable pub is_schedulable_instance_state : InstanceState → Bool
is_schedulable_instance_state InstanceState.ready = true
is_schedulable_instance_state InstanceState.busy = true
is_schedulable_instance_state st = false

unfoldable pub schedulable_instance_priority : InstanceState → ℤ
schedulable_instance_priority InstanceState.ready = pos 0
schedulable_instance_priority InstanceState.busy = pos 1
schedulable_instance_priority st = pos 2

-- `node.Labels[key] == value`, for each label.
unfoldable pub has_labels : Table String → Node → Bool
has_labels [] node = true
has_labels ((key, value) ∷ rest) node =
    let others = has_labels rest node in or_zero "" (lookup key node.labels) == value && others

unfoldable pub is_eligible_node : AgentDefinition → Option Node → Bool
unfolding is_schedulable_node_state has_labels
is_eligible_node d none = is_empty d.required_node_labels
is_eligible_node d (some node) =
    is_schedulable_node_state node.state && has_labels d.required_node_labels node

unfoldable pub node_at_capacity : Option Node → ℤ → Bool
node_at_capacity none load = false
node_at_capacity (some node) load =
    if leb_ℤ node.capacity.max_tasks (pos 0) then false else leb_ℤ node.capacity.max_tasks load

effective_capacity : Option Node → ℤ
effective_capacity none = pos 0x40000000
effective_capacity (some node) =
    if leb_ℤ node.capacity.max_tasks (pos 0) then pos 0x40000000 else node.capacity.max_tasks

definition_in : List AgentDefinition → String → AgentDefinition
definition_in [] profile = record {
  name = "";
  max_concurrent_tasks = pos 0;
  required_node_labels = [];
}
definition_in (d ∷ ds) profile = if d.name == profile then d else definition_in ds profile

unfoldable pub agent_definition : Scheduler → String → AgentDefinition
unfolding definition_in
agent_definition s profile = definition_in s.agents profile
