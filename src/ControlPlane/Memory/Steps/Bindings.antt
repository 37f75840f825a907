-- ===== src/ControlPlane/Memory/Steps/Bindings.antt =====
-- Exclusion by profile leases in internal/controlplane/memory.go: as long as the lease of a profile
-- runs, and its owner does not give it up, the profile stays bound to its instance.
use agentfab.Prelude.{◌&&◌, ◌+◌, ◌≤◌, ◌<◌, Bool, ◌==◌, ◌≡◌, ◌≢◌, ◌⊎◌, some, lookup}
use agentfab.Prelude.Int.{pos_part}
use agentfab.ControlPlane.{ProfileLease}
use agentfab.ControlPlane.Memory.{MemoryStore}
use agentfab.ControlPlane.Memory.Steps.{
  Call, acquires_profile_lease, renews_profile_lease, gets_profile_lease, releases_profile_lease,
}

-- A call that neither takes the profile's lease after its end, nor moves the end to an earlier time,
-- nor is the owner giving it up.
abbrev pub SparesProfile : ProfileLease → Call → Type 0
SparesProfile l (acquires_profile_lease a ttl now) =
    (a.profile ≢ l.profile) ⊎ ((now < l.expires_at) × (l.expires_at ≤ now + pos_part ttl))
SparesProfile l (renews_profile_lease a ttl now) = l.expires_at ≤ now + pos_part ttl
SparesProfile l (gets_profile_lease profile now) = now ≤ l.expires_at
SparesProfile l (releases_profile_lease a) =
    (a.profile ≢ l.profile)
    ⊎ ((a.owner_id ≢ l.owner_id)
        ⊎ ((a.epoch ≢ l.epoch) ⊎ (a.assigned_instance ≢ l.assigned_instance)))
SparesProfile l c = Unit

abbrev pub StillBound : ProfileLease → MemoryStore → Type 0
StillBound l s =
    (m : ProfileLease) × (lookup l.profile s.profile_leases ≡ some m)
    × (m.owner_id ≡ l.owner_id)
    × (m.assigned_instance ≡ l.assigned_instance)
    × (m.epoch ≡ l.epoch)
    × (l.expires_at ≤ m.expires_at)

-- `existing.OwnerID == lease.OwnerID && existing.AssignedInstance == lease.AssignedInstance`.
abbrev extends : ProfileLease → ProfileLease → Bool
extends old a = old.owner_id == a.owner_id && old.assigned_instance == a.assigned_instance
