-- ===== src/ControlPlane/Memory/Steps/Fencing.antt =====
-- Fencing by epochs in internal/controlplane/memory.go: once a lease was given out anew, the lease
-- before it can neither be renewed nor released, whatever happens later.
use agentfab.Prelude.{
  is_err, ◌≢◌, ℕ, ◌+◌, ◌^◌, ◌<◌, String, List, length, true, ◌≡◌, inl, inr, lookup, arith,
  Option-cases,
}
use agentfab.Prelude.Int.{ℤ}
use agentfab.ControlPlane.{LeaderLease, TaskLease, ProfileLease}
use agentfab.ControlPlane.Memory.{Method, MemoryStore, new_memory_store}
use agentfab.ControlPlane.Memory.Leader.{renew_leader, release_leader}
use agentfab.ControlPlane.Memory.ProfileLeases.{renew_profile_lease, release_profile_lease}
use agentfab.ControlPlane.Memory.TaskLeases.{renew_task_lease, release_task_lease}
use agentfab.ControlPlane.Memory.Steps.{Call, serve_all}
use agentfab.ControlPlane.Memory.Steps.Growth.{serve_all-le, leader-Next, profile-Next, task-Next}
use agentfab.ControlPlane.Memory.Steps.Coherence.{
  IsCoherent, profile_epoch, task_epoch, serve_all-IsCoherent, new-IsCoherent,
}

-- The method fails and leaves the store as it was.
abbrev pub Fails : {A : Type 0} → MemoryStore → Method A → Type 0
Fails s r = (is_err r.1 ≡ true) × (r.0 ≡ s)

-- In a coherent store only the lease with the last epoch can be renewed or released.
stale_leader :
    (s : MemoryStore) (lease : LeaderLease) (ttl : ℤ) (now : ℕ)
    → IsCoherent s
    → lease.epoch ≢ s.leader_epoch
    → Fails s (renew_leader s lease ttl now) × (release_leader s lease ≡ s)
unfolding renew_leader release_leader
stale_leader s lease ttl now v stale = elim (Option-cases s.leader) [
  | inl e ↦ ((ground arith, ground arith), ground arith)
  | inr (l, e) ↦ let last = v.leader l e in ((ground arith, ground arith), ground arith)
]

stale_profile :
    (s : MemoryStore) (lease : ProfileLease) (ttl : ℤ) (now : ℕ)
    → IsCoherent s
    → lease.epoch ≢ profile_epoch s lease.profile
    → Fails s (renew_profile_lease s lease ttl now) × (release_profile_lease s lease ≡ s)
unfolding renew_profile_lease release_profile_lease
stale_profile s lease ttl now v stale =
    elim (Option-cases (lookup lease.profile s.profile_leases)) [
      | inl e ↦ ((ground arith, ground arith), ground arith)
      | inr (l, e) ↦
          let last = v.profiles lease.profile l e in ((ground arith, ground arith), ground arith)
    ]

stale_task :
    (s : MemoryStore) (lease : TaskLease) (ttl : ℤ) (now : ℕ)
    → IsCoherent s
    → lease.epoch ≢ task_epoch s lease.request_id lease.task_id
    → Fails s (renew_task_lease s lease ttl now) × (release_task_lease s lease ≡ s)
unfolding renew_task_lease release_task_lease
stale_task s lease ttl now v stale = elim (Option-cases (lookup lease.request_id s.leases)) [
  | inl e ↦ ((ground arith, ground arith), ground arith)
  | inr (of_request, e) ↦ elim (Option-cases (lookup lease.task_id of_request)) [
    | inl e' ↦ ((ground arith, ground arith), ground arith)
    | inr (l, e') ↦
        let last = v.tasks lease.request_id lease.task_id l (ground arith) in
        ((ground arith, ground arith), ground arith)
  ]
]

-- The store after a history, from the beginning.
abbrev pub after : String → List Call → MemoryStore
after fabric calls = serve_all (new_memory_store fabric) calls

module _ (fabric : String) (before later : List Call) (ttl : ℤ) (now : ℕ) where
  abbrev pub reached : MemoryStore
  reached = serve_all (after fabric before) later

  coherent : IsCoherent reached
  coherent =
      serve_all-IsCoherent (after fabric before) later
        (serve_all-IsCoherent (new_memory_store fabric) before (new-IsCoherent fabric))

  -- A leader lease whose epoch lies below the last one given out is never valid again: whatever
  -- calls the store serves later, short of 2 ^ 64 epochs, `RenewLeader` of that lease fails and
  -- leaves the store as it is, and `ReleaseLeader` leaves it too.
  pub leader_fenced :
      (lease : LeaderLease)
      → lease.epoch < (after fabric before).leader_epoch
      → (after fabric before).leader_epoch + length later < 2 ^ 64
      → Fails reached (renew_leader reached lease ttl now)
        × (release_leader reached lease ≡ reached)
  leader_fenced lease old room =
      let le = serve_all-le (λ s. s.leader_epoch) leader-Next (after fabric before) later room in
      stale_leader reached lease ttl now coherent (omega arith)

  -- A profile lease whose epoch lies below the last one given out for its profile is never valid
  -- again: whatever calls the store serves later, short of 2 ^ 64 epochs, `RenewProfileLease` of
  -- that lease fails and leaves the store as it is, and `ReleaseProfileLease` leaves it too.
  pub profile_lease_fenced :
      (lease : ProfileLease)
      → lease.epoch < profile_epoch (after fabric before) lease.profile
      → profile_epoch (after fabric before) lease.profile + length later < 2 ^ 64
      → Fails reached (renew_profile_lease reached lease ttl now)
        × (release_profile_lease reached lease ≡ reached)
  profile_lease_fenced lease old room =
      let le =
        serve_all-le (λ s. profile_epoch s lease.profile) (profile-Next lease.profile)
          (after fabric before) later room in
      stale_profile reached lease ttl now coherent (omega arith)

  -- A task lease whose epoch lies below the last one given out for its request and task is never
  -- valid again: whatever calls the store serves later, short of 2 ^ 64 epochs, `RenewTaskLease` of
  -- that lease fails and leaves the store as it is, and `ReleaseTaskLease` leaves it too.
  pub task_lease_fenced :
      (lease : TaskLease)
      → lease.epoch < task_epoch (after fabric before) lease.request_id lease.task_id
      → task_epoch (after fabric before) lease.request_id lease.task_id + length later < 2 ^ 64
      → Fails reached (renew_task_lease reached lease ttl now)
        × (release_task_lease reached lease ≡ reached)
  task_lease_fenced lease old room =
      let le =
        serve_all-le (λ s. task_epoch s lease.request_id lease.task_id)
          (task-Next lease.request_id lease.task_id) (after fabric before) later room in
      stale_task reached lease ttl now coherent (omega arith)
