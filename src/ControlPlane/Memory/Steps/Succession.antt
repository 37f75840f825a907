-- ===== src/ControlPlane/Memory/Steps/Succession.antt =====
-- Acquisitions in internal/controlplane/memory.go: what each of them answers, and how the leases that
-- they give out follow each other.
use agentfab.Prelude.{
  Bool-cases, ℕ, ◌+◌, ◌^◌, ◌<◌, ◌≡◌, ◌≢◌, ◌==◌, refl, ◌⊎◌, inl, inr, String, List, length, Bool,
  true, false, eq_iff, none, some, Option-cases, ok, arith,
}
use agentfab.Prelude.Int.{ℤ, pos, pos_part, leb_ℤ, ◌≤ℤ◌}
use agentfab.ControlPlane.{LeaderLease}
use agentfab.ControlPlane.Memory.{MemoryStore, Method, next_epoch}
use agentfab.ControlPlane.Memory.Leader.{acquire_leader, held_by_other, granted_lease}
use agentfab.ControlPlane.Memory.Steps.{Call, serve_all}
use agentfab.ControlPlane.Memory.Steps.Growth.{serve_all-le, serve_all-upper, leader-Next}
use agentfab.ControlPlane.Memory.Steps.Fencing.{Fails}

-- A lease of `candidate` for `ttl` from `now` on, with the epoch after the last one.
abbrev pub IsGranted : MemoryStore → String → ℤ → ℕ → Method (LeaderLease × Bool) → Type 0
IsGranted s candidate ttl now r =
    (l : LeaderLease) × (r.1 ≡ ok (l, true))
    × (r.0.leader ≡ some l)
    × (r.0.leader_epoch ≡ l.epoch)
    × (l.epoch ≡ next_epoch s.leader_epoch)
    × (l.holder_id ≡ candidate)
    × (l.expires_at ≡ now + pos_part ttl)
    × (now < l.expires_at)

-- Another than `candidate` holds a lease that runs past `now`.
abbrev pub HeldByOther : MemoryStore → String → ℕ → LeaderLease → Type 0
HeldByOther s candidate now l =
    (s.leader ≡ some l) × (l.holder_id ≢ candidate) × (now < l.expires_at)

held-HeldByOther :
    (s : MemoryStore) (candidate : String) (now : ℕ) (l : LeaderLease)
    → held_by_other s.leader candidate now ≡ some l
    → HeldByOther s candidate now l
held-HeldByOther s candidate now l e =
    (ground arith, ground (arith, eq_iff l.holder_id candidate), ground arith)

granted :
    (s : MemoryStore) (candidate address : String) (ttl : ℤ) (now : ℕ)
    → (candidate == "") ≡ false
    → leb_ℤ ttl (pos 0) ≡ false
    → held_by_other s.leader candidate now ≡ none
    → IsGranted s candidate ttl now (acquire_leader s candidate address ttl now)
      × ((l : LeaderLease) → ¬ HeldByOther s candidate now l)
unfolding acquire_leader
granted s candidate address ttl now named lasts free = (
  (
    granted_lease s candidate address (pos_part ttl) now,
    ground arith,
    ground arith,
    ground arith,
    refl,
    refl,
    refl,
    ground arith,
  ),
  λ l (held, other, runs). ground (arith, eq_iff l.holder_id candidate),
)

-- A candidacy ends in one of three ways: without an ID or a positive duration it fails and changes
-- nothing; while the lease of another runs it changes nothing and answers that lease; and else it is
-- given a lease of the next epoch that runs from now for the duration asked for, and no lease of
-- another ran.
pub acquire_leader_cases :
    (s : MemoryStore) (candidate address : String) (ttl : ℤ) (now : ℕ)
    → (((candidate ≡ "") ⊎ (ttl ≤ℤ pos 0)) × Fails s (acquire_leader s candidate address ttl now))
      ⊎ (((l : LeaderLease) × HeldByOther s candidate now l
            × (acquire_leader s candidate address ttl now ≡ (s, ok (l, false))))
          ⊎ (IsGranted s candidate ttl now (acquire_leader s candidate address ttl now)
              × ((l : LeaderLease) → ¬ HeldByOther s candidate now l)))
unfolding acquire_leader
acquire_leader_cases s candidate address ttl now = elim (Bool-cases (candidate == "")) [
  | inl e ↦ inl (inl (ground (arith, eq_iff candidate "")), (ground arith, ground arith))
  | inr e ↦ elim (Bool-cases (leb_ℤ ttl (pos 0))) [
    | inl e' ↦ inl (inr (ground arith), (ground arith, ground arith))
    | inr e' ↦ inr (elim (Option-cases (held_by_other s.leader candidate now)) [
      | inl free ↦ inr (granted s candidate address ttl now e e' free)
      | inr (l, held) ↦ inl (l, held-HeldByOther s candidate now l held, ground arith)
    ])
  ]
]

acquire-epoch :
    (s : MemoryStore) (candidate address : String) (ttl : ℤ) (now : ℕ) (l : LeaderLease)
    → (acquire_leader s candidate address ttl now).1 ≡ ok (l, true)
    → ((acquire_leader s candidate address ttl now).0.leader_epoch ≡ l.epoch)
      × (l.epoch ≡ next_epoch s.leader_epoch)
unfolding acquire_leader
acquire-epoch s candidate address ttl now l e = (ground arith, ground arith)

-- If a candidacy is granted and, after any further calls, another one is granted, the later lease
-- has the greater epoch, as long as the last epoch before them, the number of the calls between and
-- 2 add up to less than 2 ^ 64.
pub leader_epochs_grow :
    (s : MemoryStore) (later : List Call)
    → (candidate address candidate' address' : String) (ttl ttl' : ℤ) (now now' : ℕ)
    → (l l' : LeaderLease) → s.leader_epoch + length later + 2 < 2 ^ 64
    → (acquire_leader s candidate address ttl now).1 ≡ ok (l, true)
    → (acquire_leader
        (serve_all (acquire_leader s candidate address ttl now).0 later)
        candidate'
        address'
        ttl'
        now').1
      ≡ ok (l', true)
    → l.epoch < l'.epoch
leader_epochs_grow s later c a c' a' ttl ttl' now now' l l' room e e' =
    let first = acquire-epoch s c a ttl now l e in
    let reached = serve_all (acquire_leader s c a ttl now).0 later in
    let second = acquire-epoch reached c' a' ttl' now' l' e' in
    let le =
      serve_all-le (λ t. t.leader_epoch) leader-Next (acquire_leader s c a ttl now).0 later
        (omega arith) in
    let top =
      serve_all-upper (λ t. t.leader_epoch) leader-Next (acquire_leader s c a ttl now).0 later in
    omega arith
