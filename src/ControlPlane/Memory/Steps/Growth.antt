-- ===== src/ControlPlane/Memory/Steps/Growth.antt =====
-- How the epochs of internal/controlplane/memory.go go on: by single steps.
use agentfab.Prelude.{
  ap, ℕ, ◌+◌, ◌^◌, ◌≤◌, ◌<◌, String, List, [], ◌∷◌, length, eq_iff, ◌≡◌, refl, ◌⊎◌, inl, inr,
  or_zero, lookup-insert, arith,
}
use agentfab.ControlPlane.{Table}
use agentfab.ControlPlane.Memory.{MemoryStore, next_epoch}
use agentfab.ControlPlane.Memory.Leader.{acquire_leader, renew_leader, get_leader, release_leader}
use agentfab.ControlPlane.Memory.ProfileLeases.Cases.{
  acquire_profile_cases, renew_profile_cases, get_profile_cases, release_profile_cases,
}
use agentfab.ControlPlane.Memory.TaskLeases.Cases.{
  acquire_task_cases, renew_task_cases, get_task_cases, release_task_cases, lookup₂-ensure,
  lookup₂-insert₂,
}
use agentfab.ControlPlane.Memory.TaskLeases.{ensure, insert₂, lookup₂}
use agentfab.ControlPlane.Memory.Steps.{
  Call, acquires_leader, renews_leader, gets_leader, releases_leader, acquires_profile_lease,
  renews_profile_lease, gets_profile_lease, releases_profile_lease, acquires_task_lease,
  renews_task_lease, gets_task_lease, releases_task_lease, serve, serve_all,
}
use agentfab.ControlPlane.Memory.Steps.Frames.{
  serve-SameLeader, serve-SameProfiles, serve-SameTasks,
}
use agentfab.ControlPlane.Memory.Steps.Coherence.{profile_epoch, task_epoch}

-- The epoch stays, or the next one is given out.
abbrev pub Next : ℕ → ℕ → Type 0
Next old new = (new ≡ old) ⊎ (new ≡ next_epoch old)

-- Short of the wrap an epoch that goes on by single steps never falls.
pub serve_all-le :
    (last : MemoryStore → ℕ)
    → ((s : MemoryStore) (c : Call) → Next (last s) (last (serve s c)))
    → (s : MemoryStore) (cs : List Call) → last s + length cs < 2 ^ 64
    → last s ≤ last (serve_all s cs)
unfolding serve_all
serve_all-le last next s [] h = omega arith
serve_all-le last next s (c ∷ cs) h = elim (next s c) [
  | inl e ↦ omega (arith, serve_all-le last next (serve s c) cs (omega arith))
  | inr e ↦ omega (arith, serve_all-le last next (serve s c) cs (omega arith))
]

-- … and it never goes on by more than there are calls.
pub serve_all-upper :
    (last : MemoryStore → ℕ)
    → ((s : MemoryStore) (c : Call) → Next (last s) (last (serve s c)))
    → (s : MemoryStore) (cs : List Call) → last (serve_all s cs) ≤ last s + length cs
unfolding serve_all
serve_all-upper last next s [] = omega arith
serve_all-upper last next s (c ∷ cs) =
    let rest = serve_all-upper last next (serve s c) cs in
    elim (next s c) [ inl e ↦ omega arith | inr e ↦ omega arith ]

pub leader-Next : (s : MemoryStore) (c : Call) → Next s.leader_epoch (serve s c).leader_epoch
unfolding serve acquire_leader renew_leader get_leader release_leader
leader-Next s (acquires_leader a b d e) = ground arith
leader-Next s (renews_leader a b d) = ground arith
leader-Next s (gets_leader a) = ground arith
leader-Next s (releases_leader a) = ground arith
leader-Next s c = ground (arith, serve-SameLeader s c)

pub profile-Next :
    (p : String) (s : MemoryStore) (c : Call)
    → Next (profile_epoch s p) (profile_epoch (serve s c) p)
unfolding serve
profile-Next p s (acquires_profile_lease a b d) =
    acquire_profile_cases (λ t. Next (profile_epoch s p) (profile_epoch t p)) s a b d (inl refl)
      (ground (
        arith,
        lookup-insert a.profile p (next_epoch (profile_epoch s a.profile)) s.profile_epochs,
        eq_iff a.profile p,
      ))
      (λ x e. inl refl)
profile-Next p s (renews_profile_lease a b d) =
    renew_profile_cases (λ t. Next (profile_epoch s p) (profile_epoch t p)) s a b d (inl refl)
      (λ x e. inl refl)
profile-Next p s (gets_profile_lease a b) =
    get_profile_cases (λ t. Next (profile_epoch s p) (profile_epoch t p)) s a b (inl refl)
      (inl refl)
profile-Next p s (releases_profile_lease a) =
    release_profile_cases (λ t. Next (profile_epoch s p) (profile_epoch t p)) s a (inl refl)
      (inl refl)
profile-Next p s c = ground (arith, serve-SameProfiles s c)

grant-Next :
    (k j r t : String) (m : Table (Table ℕ))
    → Next (or_zero 0 (lookup₂ r t m)) (
        or_zero 0 (
          lookup₂ r t
            (insert₂ k j (next_epoch (or_zero 0 (lookup₂ k j (ensure k m)))) (ensure k m))))
grant-Next k j r t m = ground (
  arith,
  lookup₂-insert₂ k j r t (next_epoch (or_zero 0 (lookup₂ k j (ensure k m)))) (ensure k m),
  lookup₂-ensure k k j m,
  lookup₂-ensure k r t m,
  eq_iff k r,
  eq_iff j t,
)

pub task-Next :
    (r t : String) (s : MemoryStore) (c : Call)
    → Next (task_epoch s r t) (task_epoch (serve s c) r t)
unfolding serve
task-Next r t s (acquires_task_lease a b d) =
    acquire_task_cases (λ u. Next (task_epoch s r t) (task_epoch u r t)) s a b d (inl refl)
      (inl (ap (or_zero 0) (lookup₂-ensure a.request_id r t s.task_lease_epochs)))
      (grant-Next a.request_id a.task_id r t s.task_lease_epochs)
task-Next r t s (renews_task_lease a b d) =
    renew_task_cases (λ u. Next (task_epoch s r t) (task_epoch u r t)) s a b d (inl refl)
      (λ x e. inl refl)
task-Next r t s (gets_task_lease a b d) =
    get_task_cases (λ u. Next (task_epoch s r t) (task_epoch u r t)) s a b d (inl refl) (inl refl)
task-Next r t s (releases_task_lease a) =
    release_task_cases (λ u. Next (task_epoch s r t) (task_epoch u r t)) s a (inl refl) (inl refl)
      (inl refl)
task-Next r t s c = ground (arith, serve-SameTasks s c)
