-- ===== src/Placement/Choice.antt =====
-- internal/conductor/scheduler.go, selectTaskInstance: the instance for a task.
pub mod Known
pub mod Routable
pub mod Picked
pub mod Chosen
use Prim.Native.String.{compare}
use text.Mathlib.Text.{is_lt}
use agentfab.Prelude.{
  ℕ, String, List, [], ◌∷◌, Bool, true, false, not, ◌&&◌, ◌==◌, if◌then◌else◌, ltb, nat_eq, Option,
  none, some, Table, lookup, insert, select, contains, any,
}
use agentfab.Prelude.Int.{ℤ, leb_ℤ}
use agentfab.TaskGraph.{TaskNode, target_profile}
use agentfab.ControlPlane.{Node, AgentInstance}
use agentfab.ControlPlane.Memory.{MemoryStore}
use agentfab.ControlPlane.Memory.Members.{list_nodes}
use agentfab.Placement.{
  Scheduler, AgentDefinition, agent_definition, instance_load, node_load, request_node_usage,
  is_schedulable_instance_state, schedulable_instance_priority, is_eligible_node, node_at_capacity,
  effective_capacity,
}

-- The nodes that one of the instances stands on.
unfoldable pub stands_on : List AgentInstance → String → Bool
stands_on instances id = any (λ i. not (i.node_id == "") && i.node_id == id) instances

unfoldable pub nodes_of : List AgentInstance → List Node → Table Node → Table Node
unfolding stands_on
nodes_of instances [] nodes = nodes
nodes_of instances (n ∷ ns) nodes =
    nodes_of instances ns (if stands_on instances n.id then insert n.id n nodes else nodes)

-- The store lists its nodes only if an instance has one.
unfoldable pub instance_node_map : MemoryStore → ℕ → List AgentInstance → MemoryStore × Table Node
unfolding nodes_of list_nodes
instance_node_map cp now instances =
    if any (λ i. not (i.node_id == "")) instances
    then (let (after, listed) = list_nodes cp now in (after, nodes_of instances listed []))
    else (cp, [])

-- `if a != b { return a < b }`, and what follows.
abbrev pub by : ℤ → ℤ → Bool → Bool
by a b rest = if leb_ℤ a b && leb_ℤ b a then rest else not (leb_ℤ b a)

module _ (s : Scheduler) (task : TaskNode) (nodes : Table Node) where
  unfoldable pub is_candidate : AgentInstance → Bool
  unfolding is_schedulable_instance_state agent_definition is_eligible_node node_at_capacity
      node_load target_profile
  is_candidate i =
      (is_schedulable_instance_state i.state && not (i.endpoint.address == ""))
      && (is_eligible_node (agent_definition s (target_profile task)) (lookup i.node_id nodes)
          && not (node_at_capacity (lookup i.node_id nodes) (node_load s i.node_id)))

  -- The order of candidates.
  unfoldable pub comes_before : AgentInstance → AgentInstance → Bool
  unfolding node_load instance_load request_node_usage effective_capacity
      schedulable_instance_priority
  comes_before a b = by (node_load s a.node_id) (node_load s b.node_id) (
      by (instance_load s a.id) (instance_load s b.id) (
        by (request_node_usage s task a.node_id) (request_node_usage s task b.node_id) (
          by (effective_capacity (lookup b.node_id nodes))
            (effective_capacity (lookup a.node_id nodes))
            (by (schedulable_instance_priority a.state) (schedulable_instance_priority b.state) (
              if not (nat_eq a.last_heartbeat_at b.last_heartbeat_at)
              then ltb b.last_heartbeat_at a.last_heartbeat_at
              else is_lt (compare a.id b.id))))))

  -- The first of the sorted candidates: the first that none comes before.
  unfoldable pub first_of : AgentInstance → List AgentInstance → AgentInstance
  unfolding comes_before
  first_of best [] = best
  first_of best (i ∷ is) = first_of (if comes_before i best then i else best) is

  unfoldable pub find_instance : String → List AgentInstance → Option AgentInstance
  find_instance id [] = none
  find_instance id (i ∷ is) = if i.id == id then some i else find_instance id is

  -- The instance that the task has already, if it is a candidate, and the first if not.
  abbrev pub preferred_or :
      Option AgentInstance → AgentInstance → List AgentInstance → AgentInstance
  preferred_or (some i) best is = i
  preferred_or none best is = first_of best is

  unfoldable pub choose : List AgentInstance → Option AgentInstance
  unfolding find_instance first_of
  choose [] = none
  choose (i ∷ is) = some (
      preferred_or
        (if task.assigned_instance == ""
          then none
          else find_instance task.assigned_instance (i ∷ is))
        i is)

unfoldable pub select_task_instance :
    Scheduler → MemoryStore → ℕ → TaskNode → List AgentInstance → MemoryStore × Option AgentInstance
unfolding instance_node_map is_candidate choose
select_task_instance s cp now task instances =
    let (after, nodes) = instance_node_map cp now instances in
    (after, choose s task nodes (select (is_candidate s task nodes) instances))
