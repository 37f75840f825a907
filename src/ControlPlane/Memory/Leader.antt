-- ===== src/ControlPlane/Memory/Leader.antt =====
-- The leader lease of internal/controlplane/memory.go.
use agentfab.Prelude.{
  ℕ, ◌+◌, String, Bool, true, false, not, ◌&&◌, ◌||◌, ◌==◌, if◌then◌else◌, ltb, nat_eq, Option,
  none, some, ok, err,
}
use agentfab.Prelude.Int.{ℤ, pos, leb_ℤ, pos_part}
use agentfab.ControlPlane.{LeaderLease}
use agentfab.ControlPlane.Memory.{
  MemoryStore, Method, next_epoch, candidate_id_required, leader_ttl_not_positive, no_leader_lease,
  leader_lease_expired, leader_lease_not_owned,
}

-- The lease that keeps a candidate out: `ExpiresAt.After(now)`, and held by another.
abbrev pub held_by_other : Option LeaderLease → String → ℕ → Option LeaderLease
held_by_other none candidate now = none
held_by_other (some l) candidate now =
    if ltb now l.expires_at && not (l.holder_id == candidate) then some l else none

abbrev pub granted_lease : MemoryStore → String → String → ℕ → ℕ → LeaderLease
granted_lease s candidate address ttl now = record {
  fabric = s.fabric;
  holder_id = candidate;
  holder_address = address;
  epoch = next_epoch s.leader_epoch;
  acquired_at = now;
  last_heartbeat_at = now;
  expires_at = now + ttl;
}

-- The store and the lease after an acquisition that nothing keeps out.
abbrev pub grant : MemoryStore → LeaderLease → Method (LeaderLease × Bool)
grant s lease = (record s { leader = some lease; leader_epoch = lease.epoch }, ok (lease, true))

abbrev pub refuse_or : MemoryStore → Option LeaderLease → LeaderLease → Method (LeaderLease × Bool)
refuse_or s (some l) lease = (s, ok (l, false))
refuse_or s none lease = grant s lease

unfoldable pub acquire_leader : MemoryStore → String → String → ℤ → ℕ → Method (LeaderLease × Bool)
acquire_leader s candidate address ttl now =
    if candidate == ""
    then (s, err candidate_id_required)
    else if leb_ℤ ttl (pos 0)
    then (s, err leader_ttl_not_positive)
    else refuse_or s (held_by_other s.leader candidate now)
        (granted_lease s candidate address (pos_part ttl) now)

-- `HolderID != … || Epoch != …`.
abbrev differs : LeaderLease → LeaderLease → Bool
differs l lease = not (l.holder_id == lease.holder_id) || not (nat_eq l.epoch lease.epoch)

unfoldable pub renew_held :
    MemoryStore → LeaderLease → ℕ → ℕ → Option LeaderLease → Method LeaderLease
renew_held s lease ttl now none = (s, err no_leader_lease)
renew_held s lease ttl now (some l) =
    if differs l lease
    then (s, err (leader_lease_not_owned lease.holder_id))
    else if ltb l.expires_at now
    then (s, err leader_lease_expired)
    else let renewed = record l { last_heartbeat_at = now; expires_at = now + ttl } in
      (record s { leader = some renewed }, ok renewed)

unfoldable pub renew_leader : MemoryStore → LeaderLease → ℤ → ℕ → Method LeaderLease
unfolding renew_held
renew_leader s lease ttl now =
    if leb_ℤ ttl (pos 0)
    then (s, err leader_ttl_not_positive)
    else renew_held s lease (pos_part ttl) now s.leader

unfoldable pub read_held : MemoryStore → ℕ → Option LeaderLease → Method (Option LeaderLease)
read_held s now none = (s, ok none)
read_held s now (some l) =
    if ltb l.expires_at now then (record s { leader = none }, ok none) else (s, ok (some l))

-- The lease, and whether it is there, is an option.
unfoldable pub get_leader : MemoryStore → ℕ → Method (Option LeaderLease)
unfolding read_held
get_leader s now = read_held s now s.leader

unfoldable pub release_held : MemoryStore → LeaderLease → Option LeaderLease → MemoryStore
release_held s lease none = s
release_held s lease (some l) = if differs l lease then s else record s { leader = none }

-- `ReleaseLeader` returns no error.
unfoldable pub release_leader : MemoryStore → LeaderLease → MemoryStore
unfolding release_held
release_leader s lease = release_held s lease s.leader
