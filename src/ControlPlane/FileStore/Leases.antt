-- ===== src/ControlPlane/FileStore/Leases.antt =====
-- The leases of internal/controlplane/file.go. What runs under the lock is the code of
-- internal/controlplane/memory.go, but for `GetTaskLease`, which drops a request's map when it drops the
-- last lease in it.
use agentfab.Prelude.{
  ℕ, String, Bool, ◌==◌, if◌then◌else◌, ltb, Option, none, some, Table, lookup, insert, delete, ok,
}
use agentfab.Prelude.Int.{ℤ, pos, leb_ℤ, pos_part}
use agentfab.Loop.{is_empty}
use agentfab.ControlPlane.{LeaderLease, TaskLease, ProfileLease}
use agentfab.ControlPlane.Memory.{
  MemoryStore, Method, candidate_id_required, leader_ttl_not_positive,
  task_lease_request_id_required, task_lease_task_id_required, task_lease_owner_id_required,
  task_lease_ttl_not_positive, profile_lease_profile_required, profile_lease_instance_required,
  profile_lease_owner_id_required, profile_lease_ttl_not_positive,
}
use agentfab.ControlPlane.Memory.Leader
use agentfab.ControlPlane.Memory.Leader.{held_by_other, granted_lease, refuse_or}
use agentfab.ControlPlane.Memory.ProfileLeases
use agentfab.ControlPlane.Memory.TaskLeases
use agentfab.ControlPlane.FileStore.{Json, World, FileMethod, Faults, change}

-- `return nil` for a change that gives nothing back, and for a reading.
abbrev pub done : MemoryStore → Method (Unit {0})
done s = (s, ok tt)

abbrev pub found : {A : Type 0} → MemoryStore × A → Method A
found (s, a) = (s, ok a)

-- `GetTaskLease`, under the lock.
unfoldable pub drop_lease : MemoryStore → String → String → Table TaskLease → MemoryStore
drop_lease s request_id task_id of_request =
    let left = delete task_id of_request in
    record s {
      leases =
          if is_empty left then delete request_id s.leases else insert request_id left s.leases;
    }

unfoldable pub read_over :
    MemoryStore
    → String
    → String
    → ℕ
    → Table TaskLease
    → Option TaskLease
    → MemoryStore × Option TaskLease
unfolding drop_lease
read_over s request_id task_id now of_request none = (s, none)
read_over s request_id task_id now of_request (some l) =
    if ltb l.expires_at now then (drop_lease s request_id task_id of_request, none) else (s, some l)

unfoldable pub read_in :
    MemoryStore → String → String → ℕ → Option (Table TaskLease) → MemoryStore × Option TaskLease
unfolding read_over
read_in s request_id task_id now none = (s, none)
read_in s request_id task_id now (some of_request) =
    read_over s request_id task_id now of_request (lookup task_id of_request)

module _ (j : Json) (io : Faults) where
  unfoldable pub acquire_leader :
      String → String → ℤ → ℕ → World j → FileMethod j (LeaderLease × Bool)
  acquire_leader candidate address ttl now w =
      change j io
        (if candidate == ""
          then some candidate_id_required
          else if leb_ℤ ttl (pos 0)
          then some leader_ttl_not_positive
          else none)
        (λ s.
          refuse_or s (held_by_other s.leader candidate now)
            (granted_lease s candidate address (pos_part ttl) now))
        w

  unfoldable pub renew_leader : LeaderLease → ℤ → ℕ → World j → FileMethod j LeaderLease
  renew_leader lease ttl now w =
      change j io (if leb_ℤ ttl (pos 0) then some leader_ttl_not_positive else none)
        (λ s. Leader.renew_held s lease (pos_part ttl) now s.leader) w

  unfoldable pub get_leader : ℕ → World j → FileMethod j (Option LeaderLease)
  get_leader now w = change j io none (λ s. Leader.read_held s now s.leader) w

  unfoldable pub release_leader : LeaderLease → World j → FileMethod j (Unit {0})
  release_leader lease w = change j io none (λ s. done (Leader.release_held s lease s.leader)) w

  unfoldable pub acquire_profile_lease :
      ProfileLease → ℤ → ℕ → World j → FileMethod j (ProfileLease × Bool)
  acquire_profile_lease l ttl now w =
      change j io
        (if l.profile == ""
          then some profile_lease_profile_required
          else if l.assigned_instance == ""
          then some profile_lease_instance_required
          else if l.owner_id == ""
          then some profile_lease_owner_id_required
          else if leb_ℤ ttl (pos 0)
          then some profile_lease_ttl_not_positive
          else none)
        (λ s.
          ProfileLeases.acquire_over s l (pos_part ttl) now
            (ProfileLeases.unexpired (lookup l.profile s.profile_leases) now))
        w

  unfoldable pub renew_profile_lease : ProfileLease → ℤ → ℕ → World j → FileMethod j ProfileLease
  renew_profile_lease l ttl now w =
      change j io (if leb_ℤ ttl (pos 0) then some profile_lease_ttl_not_positive else none)
        (λ s. ProfileLeases.renew_over s l (pos_part ttl) now (lookup l.profile s.profile_leases)) w

  unfoldable pub get_profile_lease : String → ℕ → World j → FileMethod j (Option ProfileLease)
  get_profile_lease profile now w =
      change j io none
        (λ s. found (ProfileLeases.read_over s profile now (lookup profile s.profile_leases))) w

  unfoldable pub release_profile_lease : ProfileLease → World j → FileMethod j (Unit {0})
  release_profile_lease l w =
      change j io none
        (λ s. done (ProfileLeases.release_over s l (lookup l.profile s.profile_leases))) w

  unfoldable pub acquire_task_lease : TaskLease → ℤ → ℕ → World j → FileMethod j (TaskLease × Bool)
  acquire_task_lease l ttl now w =
      change j io
        (if l.request_id == ""
          then some task_lease_request_id_required
          else if l.task_id == ""
          then some task_lease_task_id_required
          else if l.owner_id == ""
          then some task_lease_owner_id_required
          else if leb_ℤ ttl (pos 0)
          then some task_lease_ttl_not_positive
          else none)
        (λ s.
          let t = TaskLeases.with_maps s l in
          TaskLeases.acquire_over t l (pos_part ttl) now (
            TaskLeases.held_by_other (TaskLeases.lookup₂ l.request_id l.task_id t.leases) l.owner_id
              now))
        w

  unfoldable pub renew_task_lease : TaskLease → ℤ → ℕ → World j → FileMethod j TaskLease
  renew_task_lease l ttl now w =
      change j io (if leb_ℤ ttl (pos 0) then some task_lease_ttl_not_positive else none)
        (λ s. TaskLeases.renew_in s l (pos_part ttl) now (lookup l.request_id s.leases)) w

  unfoldable pub get_task_lease : String → String → ℕ → World j → FileMethod j (Option TaskLease)
  get_task_lease request_id task_id now w =
      change j io none (λ s. found (read_in s request_id task_id now (lookup request_id s.leases)))
        w

  unfoldable pub release_task_lease : TaskLease → World j → FileMethod j (Unit {0})
  release_task_lease l w =
      change j io none (λ s. done (TaskLeases.release_in s l (lookup l.request_id s.leases))) w
