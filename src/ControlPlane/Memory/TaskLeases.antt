-- ===== src/ControlPlane/Memory/TaskLeases.antt =====
-- The task leases of internal/controlplane/memory.go, by request and task.
pub mod Cases
use agentfab.Prelude.{
  ℕ, ◌+◌, String, [], ◌∷◌, Bool, true, false, not, ◌&&◌, ◌||◌, ◌==◌, if◌then◌else◌, ltb, nat_eq,
  Option, none, some, Table, lookup, insert, delete, or_zero, Result, ok, err,
}
use agentfab.Prelude.Int.{ℤ, pos, leb_ℤ, pos_part}
use agentfab.Loop.{is_empty}
use agentfab.ControlPlane.{TaskLease}
use agentfab.ControlPlane.Memory.{
  MemoryStore, Method, next_epoch, task_lease_request_id_required, task_lease_task_id_required,
  task_lease_owner_id_required, task_lease_ttl_not_positive, task_lease_expired,
  task_lease_request_not_found, task_lease_task_not_found, task_lease_not_owned,
}

-- `if m[k] == nil { m[k] = make(…) }`.
abbrev pub made {ℓ} : {V : Type ℓ} → Option (Table V) → String → Table (Table V) → Table (Table V)
made none k m = insert k [] m
made (some _) k m = m

abbrev pub ensure {ℓ} : {V : Type ℓ} → String → Table (Table V) → Table (Table V)
ensure k m = made (lookup k m) k m

-- `m[k][j]`, and `m[k][j] = v`, of maps of maps.
abbrev pub lookup₂ {ℓ} : {V : Type ℓ} → String → String → Table (Table V) → Option V
lookup₂ k j m = lookup j (or_zero [] (lookup k m))

abbrev pub insert₂ {ℓ} : {V : Type ℓ} → String → String → V → Table (Table V) → Table (Table V)
insert₂ k j v m = insert k (insert j v (or_zero [] (lookup k m))) m

-- `delete(m[k], j)`.
abbrev pub delete₂ {ℓ} : {V : Type ℓ} → String → String → Table (Table V) → Table (Table V)
delete₂ k j m = insert k (delete j (or_zero [] (lookup k m))) m

-- `ok && existing.ExpiresAt.After(now) && existing.OwnerID != lease.OwnerID`.
abbrev pub held_by_other : Option TaskLease → String → ℕ → Option TaskLease
held_by_other none owner now = none
held_by_other (some l) owner now =
    if ltb now l.expires_at && not (l.owner_id == owner) then some l else none

abbrev pub with_maps : MemoryStore → TaskLease → MemoryStore
with_maps s l = record s {
  leases = ensure l.request_id s.leases;
  task_lease_epochs = ensure l.request_id s.task_lease_epochs;
}

abbrev pub fresh : MemoryStore → TaskLease → ℕ → ℕ → TaskLease
fresh s l ttl now = record l {
  epoch = next_epoch (or_zero 0 (lookup₂ l.request_id l.task_id s.task_lease_epochs));
  acquired_at = now;
  last_heartbeat_at = now;
  expires_at = now + ttl;
}

abbrev pub grant : MemoryStore → TaskLease → Method (TaskLease × Bool)
grant s l = (
  record s {
    leases = insert₂ l.request_id l.task_id l s.leases;
    task_lease_epochs = insert₂ l.request_id l.task_id l.epoch s.task_lease_epochs;
  },
  ok (l, true),
)

unfoldable pub acquire_over :
    MemoryStore → TaskLease → ℕ → ℕ → Option TaskLease → Method (TaskLease × Bool)
acquire_over s l ttl now none = grant s (fresh s l ttl now)
acquire_over s l ttl now (some old) = (s, ok (old, false))

unfoldable pub acquire_task_lease : MemoryStore → TaskLease → ℤ → ℕ → Method (TaskLease × Bool)
unfolding acquire_over
acquire_task_lease s l ttl now =
    if l.request_id == ""
    then (s, err task_lease_request_id_required)
    else if l.task_id == ""
    then (s, err task_lease_task_id_required)
    else if l.owner_id == ""
    then (s, err task_lease_owner_id_required)
    else if leb_ℤ ttl (pos 0)
    then (s, err task_lease_ttl_not_positive)
    else let t = with_maps s l in
      acquire_over t l (pos_part ttl) now
        (held_by_other (lookup₂ l.request_id l.task_id t.leases) l.owner_id now)

abbrev pub differs : TaskLease → TaskLease → Bool
differs old l = not (old.owner_id == l.owner_id) || not (nat_eq old.epoch l.epoch)

renew_over : MemoryStore → TaskLease → ℕ → ℕ → Table TaskLease → Option TaskLease → Method TaskLease
renew_over s l ttl now of_request none = (s, err (task_lease_task_not_found l.task_id))
renew_over s l ttl now of_request (some old) =
    if differs old l
    then (s, err (task_lease_not_owned l.owner_id))
    else if ltb old.expires_at now
    then (s, err task_lease_expired)
    else let renewed = record old { last_heartbeat_at = now; expires_at = now + ttl } in
      (
        record s { leases = insert l.request_id (insert l.task_id renewed of_request) s.leases },
        ok renewed,
      )

unfoldable pub renew_in :
    MemoryStore → TaskLease → ℕ → ℕ → Option (Table TaskLease) → Method TaskLease
unfolding renew_over
renew_in s l ttl now none = (s, err (task_lease_request_not_found l.request_id))
renew_in s l ttl now (some of_request) =
    renew_over s l ttl now of_request (lookup l.task_id of_request)

unfoldable pub renew_task_lease : MemoryStore → TaskLease → ℤ → ℕ → Method TaskLease
unfolding renew_in
renew_task_lease s l ttl now =
    if leb_ℤ ttl (pos 0)
    then (s, err task_lease_ttl_not_positive)
    else renew_in s l (pos_part ttl) now (lookup l.request_id s.leases)

unfoldable pub read_over :
    MemoryStore
    → String
    → String
    → ℕ
    → Table TaskLease
    → Option TaskLease
    → MemoryStore × Option TaskLease
read_over s request_id task_id now of_request none = (s, none)
read_over s request_id task_id now of_request (some l) =
    if ltb l.expires_at now
    then (record s { leases = insert request_id (delete task_id of_request) s.leases }, none)
    else (s, some l)

unfoldable pub read_in :
    MemoryStore → String → String → ℕ → Option (Table TaskLease) → MemoryStore × Option TaskLease
unfolding read_over
read_in s request_id task_id now none = (s, none)
read_in s request_id task_id now (some of_request) =
    read_over s request_id task_id now of_request (lookup task_id of_request)

unfoldable pub get_task_lease : MemoryStore → String → String → ℕ → MemoryStore × Option TaskLease
unfolding read_in
get_task_lease s request_id task_id now =
    read_in s request_id task_id now (lookup request_id s.leases)

-- The map of a request goes with its last lease.
unfoldable pub release_over :
    MemoryStore → TaskLease → Table TaskLease → Option TaskLease → MemoryStore
release_over s l of_request none = s
release_over s l of_request (some old) =
    if differs old l
    then s
    else let left = delete l.task_id of_request in
      record s {
        leases =
            if is_empty left
            then delete l.request_id s.leases
            else insert l.request_id left s.leases;
      }

unfoldable pub release_in : MemoryStore → TaskLease → Option (Table TaskLease) → MemoryStore
unfolding release_over
release_in s l none = s
release_in s l (some of_request) = release_over s l of_request (lookup l.task_id of_request)

unfoldable pub release_task_lease : MemoryStore → TaskLease → MemoryStore
unfolding release_in
release_task_lease s l = release_in s l (lookup l.request_id s.leases)
