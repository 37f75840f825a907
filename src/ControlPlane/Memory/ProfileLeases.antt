-- ===== src/ControlPlane/Memory/ProfileLeases.antt =====
-- The profile leases of internal/controlplane/memory.go: an owner binds a profile to an instance.
pub mod Cases
use agentfab.Prelude.{
  ℕ, ◌+◌, String, Bool, true, false, not, ◌&&◌, ◌||◌, ◌==◌, if◌then◌else◌, ltb, nat_eq, Option,
  none, some, Table, lookup, insert, delete, or_zero, Result, ok, err,
}
use agentfab.Prelude.Int.{ℤ, pos, leb_ℤ, pos_part}
use agentfab.ControlPlane.{ProfileLease}
use agentfab.ControlPlane.Memory.{
  MemoryStore, Method, next_epoch, profile_lease_profile_required, profile_lease_instance_required,
  profile_lease_owner_id_required, profile_lease_ttl_not_positive, profile_lease_expired,
  profile_lease_not_found, profile_lease_not_owned,
}

-- The lease that is not yet over: `ok && existing.ExpiresAt.After(now)`.
abbrev pub unexpired : Option ProfileLease → ℕ → Option ProfileLease
unexpired none now = none
unexpired (some l) now = if ltb now l.expires_at then some l else none

abbrev pub extended : ProfileLease → ℕ → ℕ → ProfileLease
extended l ttl now = record l { last_heartbeat_at = now; expires_at = now + ttl }

abbrev pub fresh : MemoryStore → ProfileLease → ℕ → ℕ → ProfileLease
fresh s l ttl now = record l {
  epoch = next_epoch (or_zero 0 (lookup l.profile s.profile_epochs));
  acquired_at = now;
  last_heartbeat_at = now;
  expires_at = now + ttl;
}

abbrev pub grant : MemoryStore → ProfileLease → Method (ProfileLease × Bool)
grant s l = (
  record s {
    profile_leases = insert l.profile l s.profile_leases;
    profile_epochs = insert l.profile l.epoch s.profile_epochs;
  },
  ok (l, true),
)

-- The three ends of an acquisition: `l` is the lease asked for.
unfoldable pub acquire_over :
    MemoryStore → ProfileLease → ℕ → ℕ → Option ProfileLease → Method (ProfileLease × Bool)
acquire_over s l ttl now none = grant s (fresh s l ttl now)
acquire_over s l ttl now (some old) =
    if old.owner_id == l.owner_id && old.assigned_instance == l.assigned_instance
    then (
      record s { profile_leases = insert l.profile (extended old ttl now) s.profile_leases },
      ok (extended old ttl now, true),
    )
    else (s, ok (old, false))

unfoldable pub acquire_profile_lease :
    MemoryStore → ProfileLease → ℤ → ℕ → Method (ProfileLease × Bool)
unfolding acquire_over
acquire_profile_lease s l ttl now =
    if l.profile == ""
    then (s, err profile_lease_profile_required)
    else if l.assigned_instance == ""
    then (s, err profile_lease_instance_required)
    else if l.owner_id == ""
    then (s, err profile_lease_owner_id_required)
    else if leb_ℤ ttl (pos 0)
    then (s, err profile_lease_ttl_not_positive)
    else acquire_over s l (pos_part ttl) now (unexpired (lookup l.profile s.profile_leases) now)

abbrev differs : ProfileLease → ProfileLease → Bool
differs old l =
    not (old.owner_id == l.owner_id)
    || (not (nat_eq old.epoch l.epoch) || not (old.assigned_instance == l.assigned_instance))

unfoldable pub renew_over :
    MemoryStore → ProfileLease → ℕ → ℕ → Option ProfileLease → Method ProfileLease
renew_over s l ttl now none = (s, err (profile_lease_not_found l.profile))
renew_over s l ttl now (some old) =
    if differs old l
    then (s, err (profile_lease_not_owned l.profile l.owner_id))
    else if ltb old.expires_at now
    then (s, err profile_lease_expired)
    else (
      record s { profile_leases = insert l.profile (extended old ttl now) s.profile_leases },
      ok (extended old ttl now),
    )

unfoldable pub renew_profile_lease : MemoryStore → ProfileLease → ℤ → ℕ → Method ProfileLease
unfolding renew_over
renew_profile_lease s l ttl now =
    if leb_ℤ ttl (pos 0)
    then (s, err profile_lease_ttl_not_positive)
    else renew_over s l (pos_part ttl) now (lookup l.profile s.profile_leases)

unfoldable pub read_over :
    MemoryStore → String → ℕ → Option ProfileLease → MemoryStore × Option ProfileLease
read_over s profile now none = (s, none)
read_over s profile now (some l) =
    if ltb l.expires_at now
    then (record s { profile_leases = delete profile s.profile_leases }, none)
    else (s, some l)

unfoldable pub get_profile_lease : MemoryStore → String → ℕ → MemoryStore × Option ProfileLease
unfolding read_over
get_profile_lease s profile now = read_over s profile now (lookup profile s.profile_leases)

unfoldable pub release_over : MemoryStore → ProfileLease → Option ProfileLease → MemoryStore
release_over s l none = s
release_over s l (some old) =
    if differs old l then s else record s { profile_leases = delete l.profile s.profile_leases }

unfoldable pub release_profile_lease : MemoryStore → ProfileLease → MemoryStore
unfolding release_over
release_profile_lease s l = release_over s l (lookup l.profile s.profile_leases)
