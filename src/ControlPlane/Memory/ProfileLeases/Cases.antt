-- ===== src/ControlPlane/Memory/ProfileLeases/Cases.antt =====
-- The stores that the profile lease methods of internal/controlplane/memory.go leave.
use agentfab.Prelude.{ℕ, String, ◌≡◌, some, lookup, insert, delete, arith, Option-cases, inl, inr}
use agentfab.Prelude.Int.{ℤ, pos_part}
use agentfab.ControlPlane.{ProfileLease}
use agentfab.ControlPlane.Memory.{MemoryStore}
use agentfab.ControlPlane.Memory.ProfileLeases.{
  acquire_profile_lease, renew_profile_lease, get_profile_lease, release_profile_lease, fresh,
  extended, grant,
}

abbrev pub extend_store : MemoryStore → ProfileLease → ProfileLease → ℤ → ℕ → MemoryStore
extend_store s l old ttl now = record s {
  profile_leases = insert l.profile (extended old (pos_part ttl) now) s.profile_leases;
}

abbrev pub drop_store : MemoryStore → String → MemoryStore
drop_store s profile = record s { profile_leases = delete profile s.profile_leases }

module _ {κ} (P : MemoryStore → Type κ) (s : MemoryStore) where
  pub acquire_profile_cases :
      (l : ProfileLease) (ttl : ℤ) (now : ℕ)
      → P s
      → P (grant s (fresh s l (pos_part ttl) now)).0
      → ((old : ProfileLease)
          → lookup l.profile s.profile_leases ≡ some old
          → P (extend_store s l old ttl now))
      → P (acquire_profile_lease s l ttl now).0
  unfolding acquire_profile_lease
  acquire_profile_cases l ttl now same new more =
      elim (Option-cases (lookup l.profile s.profile_leases)) [
        | inl e ↦ ground arith
        | inr (old, e) ↦ ground (arith, more old e)
      ]

  pub renew_profile_cases :
      (l : ProfileLease) (ttl : ℤ) (now : ℕ)
      → P s
      → ((old : ProfileLease)
          → lookup l.profile s.profile_leases ≡ some old
          → P (extend_store s l old ttl now))
      → P (renew_profile_lease s l ttl now).0
  unfolding renew_profile_lease
  renew_profile_cases l ttl now same more =
      elim (Option-cases (lookup l.profile s.profile_leases)) [
        | inl e ↦ ground arith
        | inr (old, e) ↦ ground (arith, more old e)
      ]

  pub get_profile_cases :
      (profile : String) (now : ℕ)
      → P s
      → P (drop_store s profile)
      → P (get_profile_lease s profile now).0
  unfolding get_profile_lease
  get_profile_cases profile now same gone = ground arith

  pub release_profile_cases :
      (l : ProfileLease) → P s → P (drop_store s l.profile) → P (release_profile_lease s l)
  unfolding release_profile_lease
  release_profile_cases l same gone = ground arith
