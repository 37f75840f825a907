-- ===== src/Placement/Choice/Chosen.antt =====
-- The instance that internal/conductor/scheduler.go, selectTaskInstance, chooses.
use agentfab.Prelude.{
  ℕ, List, true, ◌≡◌, refl, sym, subst, ◌⊎◌, inl, inr, Option, none, some, Table, In,
}
use agentfab.Prelude.Int.{◌≤ℤ◌}
use agentfab.TaskGraph.{TaskNode}
use agentfab.ControlPlane.{Node, AgentInstance}
use agentfab.ControlPlane.Memory.{MemoryStore}
use agentfab.Placement.{Scheduler, node_load}
use agentfab.Placement.Choice.{instance_node_map, is_candidate, select_task_instance}
use agentfab.Placement.Choice.Known.{node_of, instance_node_map-node_of}
use agentfab.Placement.Choice.Routable.{Routable, is_candidate-Routable, Routable-is_candidate}
use agentfab.Placement.Choice.Picked.{IsPreferred, IsPick, choose-IsPick}

-- Nothing, if no instance can take the task. If not, one that can: that which the task has already, or, if
-- that cannot, one on a node with no more load than that of any other that can.
abbrev pub IsChoice :
    Scheduler → TaskNode → MemoryStore → ℕ → List AgentInstance → Option AgentInstance → Type 0
IsChoice s task cp now instances none =
    (j : AgentInstance) → In j instances → ¬ Routable s task (node_of cp now j) j
IsChoice s task cp now instances (some i) =
    In i instances
    × Routable s task (node_of cp now i) i
    × (IsPreferred task i
        ⊎ ((j : AgentInstance)
            → In j instances
            → Routable s task (node_of cp now j) j
            → ¬ IsPreferred task j × (node_load s i.node_id ≤ℤ node_load s j.node_id)))

module _ (s : Scheduler) (cp : MemoryStore) (now : ℕ) (task : TaskNode)
    (instances : List AgentInstance) where
  abbrev found : Table Node
  found = (instance_node_map cp now instances).1

  candidate_takes :
      (i : AgentInstance)
      → In i instances
      → is_candidate s task found i ≡ true
      → Routable s task (node_of cp now i) i
  candidate_takes i m h =
      subst (λ n. Routable s task n i) (instance_node_map-node_of instances cp now i m)
        (is_candidate-Routable s task found i h)

  takes_candidate :
      (i : AgentInstance)
      → In i instances
      → Routable s task (node_of cp now i) i
      → is_candidate s task found i ≡ true
  takes_candidate i m h =
      Routable-is_candidate s task found i
        (subst (λ n. Routable s task n i) (sym (instance_node_map-node_of instances cp now i m)) h)

  IsPick-IsChoice :
      (o : Option AgentInstance)
      → IsPick s task found instances o
      → IsChoice s task cp now instances o
  IsPick-IsChoice none h = λ j m r. let t = takes_candidate j m r in let f = h j m in cc
  IsPick-IsChoice (some i) (m, t, best) = (
    m,
    candidate_takes i m t,
    elim best [
      | inl same ↦ inl same
      | inr least ↦ inr (λ j k r. least j k (takes_candidate j k r))
    ],
  )

-- A task gets no instance only if none of those given can take it. The one it gets can take it, and it is
-- the one that the task has already, or, if that cannot take it, one whose node has no more tasks in flight
-- than that of any other that can. An instance can take the task if it is ready or busy and has an address, and its node, the last
-- that the store lists under its node ID, is ready or degraded, has the labels that the agent wants, and has
-- fewer tasks in flight than its limit, if it has one; or there is no such node, and the agent wants no label.
pub select_task_instance-IsChoice :
    (s : Scheduler) (cp : MemoryStore) (now : ℕ) (task : TaskNode) (instances : List AgentInstance)
    → IsChoice s task cp now instances (select_task_instance s cp now task instances).1
unfolding select_task_instance
select_task_instance-IsChoice s cp now task instances =
    IsPick-IsChoice s cp now task instances _
      (choose-IsPick s task (instance_node_map cp now instances).1 instances _ refl)
