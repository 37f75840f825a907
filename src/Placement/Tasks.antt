-- ===== src/Placement/Tasks.antt =====
-- internal/conductor/scheduler.go, prepareTaskPlacement and finishTaskPlacement: a task gets an instance and
-- a lease, and gives them back. The renewal of the lease, which runs beside, is left out.
pub mod Counts
pub mod Held
use agentfab.Prelude.{
  ℕ, String, List, [], ◌∷◌, Bool, true, false, not, ◌||◌, ◌==◌, if◌then◌else◌, Option, none, some,
  Result, ok, err,
}
use agentfab.Prelude.Int.{ℤ, pos, of_bits}
use agentfab.Loop.{is_empty}
use agentfab.TaskGraph.{TaskNode, target_profile}
use agentfab.ControlPlane.{AgentInstance, InstanceState, TaskLease}
use agentfab.ControlPlane.Memory.{MemoryStore, StoreError, Method}
use agentfab.ControlPlane.Memory.Members.{list_instances}
use agentfab.ControlPlane.Memory.TaskLeases.{acquire_task_lease, release_task_lease}
use agentfab.Placement.{Scheduler, lease_owner, acquire_instance, release_instance}
use agentfab.Placement.Choice.{select_task_instance}

pub record TaskPlacement : Type 0 where
  pub instance_id : String
  pub node_id : String
  pub task_lease : TaskLease

pub data PlacementError : Type 0 where
  not_acquired : String → StoreError → PlacementError
  already_held : String → String → PlacementError
  -- The scheduler tries again.
  no_routable_instance : String → PlacementError

-- 30 seconds.
abbrev pub task_lease_ttl : ℤ
task_lease_ttl = pos 30000000000

-- What a placement leaves: the scheduler, the control plane and the task, beside its result.
pub record Placing : Type 0 where
  pub scheduler : Scheduler
  pub store : MemoryStore
  pub task : TaskNode
  pub result : Result PlacementError (Option TaskPlacement)

unfoldable pub asked_lease : Scheduler → TaskNode → AgentInstance → TaskLease
unfolding lease_owner target_profile
asked_lease s task i = record {
  request_id = s.request_id;
  task_id = task.id;
  profile = target_profile task;
  assigned_instance = i.id;
  execution_node = i.node_id;
  owner_id = lease_owner s;
  epoch = 0;
  acquired_at = 0;
  last_heartbeat_at = 0;
  expires_at = 0;
}

-- What follows `AcquireTaskLease`.
unfoldable pub placed : Scheduler → TaskNode → AgentInstance → Method (TaskLease × Bool) → Placing
unfolding acquire_instance
placed s task i (cp, err e) = record {
  scheduler = s;
  store = cp;
  task = task;
  result = err (not_acquired task.id e);
}
placed s task i (cp, ok (lease, false)) = record {
  scheduler = s;
  store = cp;
  task = task;
  result = err (already_held task.id lease.owner_id);
}
placed s task i (cp, ok (lease, true)) = record {
  scheduler = acquire_instance i.id i.node_id s;
  store = cp;
  task = record task { lease_epoch = of_bits lease.epoch };
  result = ok (some (record { instance_id = i.id; node_id = i.node_id; task_lease = lease }));
}

abbrev pub assigned : TaskNode → AgentInstance → TaskNode
assigned task i = record task { assigned_instance = i.id; execution_node = i.node_id }

-- What follows `selectTaskInstance`; `now` is the time at the acquisition.
unfoldable pub place_on : Scheduler → ℕ → TaskNode → MemoryStore × Option AgentInstance → Placing
unfolding placed asked_lease acquire_task_lease target_profile
place_on s now task (cp, none) = record {
  scheduler = s;
  store = cp;
  task = task;
  result = err (no_routable_instance (target_profile task));
}
place_on s now task (cp, some i) =
    placed s (assigned task i) i
      (acquire_task_lease cp (asked_lease s (assigned task i) i) task_lease_ttl now)

-- The three times are those at which the store lists the instances, lists the nodes, and acquires.
unfoldable pub place_among :
    Scheduler → ℕ → ℕ → TaskNode → MemoryStore × List AgentInstance → Placing
unfolding place_on select_task_instance
place_among s listed now task (cp, []) = record {
  scheduler = s;
  store = cp;
  task = record task { assigned_instance = ""; execution_node = ""; lease_epoch = pos 0 };
  result = ok none;
}
place_among s listed now task (cp, i ∷ is) =
    place_on s now task (select_task_instance s cp listed task (i ∷ is))

unfoldable pub prepare_task_placement : Scheduler → MemoryStore → ℕ → ℕ → ℕ → TaskNode → Placing
unfolding place_among list_instances target_profile
prepare_task_placement s cp first listed now task =
    if not (task.loop_id == "") || target_profile task == ""
    then record { scheduler = s; store = cp; task = task; result = ok none }
    else place_among s listed now task (
        list_instances cp
          (record { profile = target_profile task; node_id = ""; state = InstanceState.unset })
          first)

-- A failure to release is only logged, and this store has none.
unfoldable pub finish_task_placement :
    Scheduler → MemoryStore → Option TaskPlacement → Scheduler × MemoryStore
unfolding release_instance release_task_lease
finish_task_placement s cp none = (s, cp)
finish_task_placement s cp (some p) = (
  if p.instance_id == "" then s else release_instance p.instance_id p.node_id s,
  release_task_lease cp p.task_lease,
)
