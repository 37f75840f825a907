-- ===== src/Placement/Tasks/Held.antt =====
-- What a task holds between prepareTaskPlacement and finishTaskPlacement of
-- internal/conductor/scheduler.go, and that it gives all of it back.
use agentfab.Prelude.{Bool, true, ◌≡◌, Option, some, Result, ok, err}
use agentfab.TaskGraph.{TaskNode}
use agentfab.ControlPlane.{TaskLease}
use agentfab.ControlPlane.Memory.{StoreError, Method}
use agentfab.ControlPlane.Memory.TaskLeases.{lookup₂}
use agentfab.Placement.{Scheduler, lease_owner, acquire_instance}
use agentfab.Placement.Tasks.{TaskPlacement, PlacementError, Placing}

abbrev IsAcquired : TaskLease → TaskLease → Method (TaskLease × Bool) → Type 0
IsAcquired l lease m =
    m.1 ≡ ok (lease, true)
    → (lookup₂ l.request_id l.task_id m.0.leases ≡ some lease)
      × (lease.request_id ≡ l.request_id)
      × (lease.task_id ≡ l.task_id)
      × (lease.owner_id ≡ l.owner_id)

abbrev lease_of : TaskLease → Result StoreError (TaskLease × Bool) → TaskLease
lease_of other (ok (lease, _)) = lease
lease_of other (err e) = other

-- If a preparation has placed a task, the store has the lease, in the name of the scheduler, the counts are
-- those with the instance and its node, and the task shows both.
pub record IsHeld (s : Scheduler) (task : TaskNode) (r : Placing) (p : TaskPlacement) : Type 0 where
  pub lease :
      lookup₂ p.task_lease.request_id p.task_lease.task_id r.store.leases ≡ some p.task_lease
  pub of_request : p.task_lease.request_id ≡ s.request_id
  pub of_task : p.task_lease.task_id ≡ task.id
  pub owned : p.task_lease.owner_id ≡ lease_owner s
  pub counted : r.scheduler ≡ acquire_instance p.instance_id p.node_id s
  pub shown : (r.task.assigned_instance ≡ p.instance_id) × (r.task.execution_node ≡ p.node_id)

abbrev Holds : Scheduler → TaskNode → Placing → Type 0
Holds s task r = (p : TaskPlacement) → r.result ≡ ok (some p) → IsHeld s task r p

abbrev placement_of : TaskPlacement → Result PlacementError (Option TaskPlacement) → TaskPlacement
placement_of other (ok (some p)) = p
placement_of other r = other
