-- ===== src/ControlPlane/Memory/Steps/Coherence.antt =====
-- The epochs of the leases in internal/controlplane/memory.go: a lease that is held carries the last
-- epoch that was given out for it.
use agentfab.Prelude.{
  delete, Option-cases, ℕ, String, List, [], ◌∷◌, eq_iff, ◌≡◌, inl, inr, some, lookup, insert,
  or_zero, lookup-insert, lookup-delete, arith,
}
use agentfab.ControlPlane.{Table, LeaderLease, TaskLease, ProfileLease}
use agentfab.ControlPlane.Memory.{MemoryStore, new_memory_store}
use agentfab.ControlPlane.Memory.Leader.{acquire_leader, renew_leader, get_leader, release_leader}
use agentfab.ControlPlane.Memory.ProfileLeases.Cases.{
  acquire_profile_cases, renew_profile_cases, get_profile_cases, release_profile_cases,
}
use agentfab.ControlPlane.Memory.TaskLeases.Cases.{
  lookup₂-insert₂, lookup₂-ensure, lookup₂-delete₂, acquire_task_cases, renew_task_cases,
  get_task_cases, release_task_cases,
}
use agentfab.ControlPlane.Memory.TaskLeases.{ensure, insert₂, delete₂, lookup₂}
use agentfab.ControlPlane.Memory.Steps.{
  Call, acquires_leader, renews_leader, gets_leader, releases_leader, acquires_profile_lease,
  renews_profile_lease, gets_profile_lease, releases_profile_lease, acquires_task_lease,
  renews_task_lease, gets_task_lease, releases_task_lease, serve, serve_all,
}
use agentfab.ControlPlane.Memory.Steps.Frames.{
  serve-SameLeader, serve-SameProfiles, serve-SameTasks,
}

-- The last epochs given out.
abbrev pub profile_epoch : MemoryStore → String → ℕ
profile_epoch s profile = or_zero 0 (lookup profile s.profile_epochs)

abbrev pub task_epoch : MemoryStore → String → String → ℕ
task_epoch s request_id task_id = or_zero 0 (lookup₂ request_id task_id s.task_lease_epochs)

abbrev pub LeaderCoherent : MemoryStore → Type 0
LeaderCoherent s = (l : LeaderLease) → s.leader ≡ some l → l.epoch ≡ s.leader_epoch

abbrev pub ProfilesCoherent : MemoryStore → Type 0
ProfilesCoherent s =
    (p : String) (l : ProfileLease)
    → lookup p s.profile_leases ≡ some l
    → l.epoch ≡ profile_epoch s p

abbrev pub TasksCoherent : MemoryStore → Type 0
TasksCoherent s =
    (r t : String) (l : TaskLease) → lookup₂ r t s.leases ≡ some l → l.epoch ≡ task_epoch s r t

pub record IsCoherent (s : MemoryStore) : Type 0 where
  pub leader : LeaderCoherent s
  pub profiles : ProfilesCoherent s
  pub tasks : TasksCoherent s

serve-LeaderCoherent : (s : MemoryStore) (c : Call) → LeaderCoherent s → LeaderCoherent (serve s c)
unfolding serve acquire_leader renew_leader get_leader release_leader
serve-LeaderCoherent s (acquires_leader a b d e) h = λ l q. ground (arith, h l)
serve-LeaderCoherent s (renews_leader a b d) h =
    λ l q. elim (Option-cases s.leader) [ inl e ↦ ground arith | inr (x, e) ↦ ground (arith, h x) ]
serve-LeaderCoherent s (gets_leader a) h = λ l q. ground (arith, h l)
serve-LeaderCoherent s (releases_leader a) h = λ l q. ground (arith, h l)
serve-LeaderCoherent s c h = λ l q. ground (arith, h l, serve-SameLeader s c)

-- Coherence of a map of leases with a map of epochs.
abbrev ProfileMaps : Table ProfileLease → Table ℕ → Type 0
ProfileMaps leases epochs =
    (p : String) (l : ProfileLease)
    → lookup p leases ≡ some l
    → l.epoch ≡ or_zero 0 (lookup p epochs)

module _ (leases : Table ProfileLease) (epochs : Table ℕ) (h : ProfileMaps leases epochs) where
  ProfileMaps-extend :
      (k : String) (x : ProfileLease)
      → x.epoch ≡ or_zero 0 (lookup k epochs)
      → ProfileMaps (insert k x leases) epochs
  ProfileMaps-extend k x e p l q = ground (arith, h p l, lookup-insert k p x leases, eq_iff k p)

  ProfileMaps-grant :
      (k : String) (x : ProfileLease) → ProfileMaps (insert k x leases) (insert k x.epoch epochs)
  ProfileMaps-grant k x p l q =
      ground (arith, h p l, lookup-insert k p x leases, lookup-insert k p x.epoch epochs)

  ProfileMaps-delete : (k : String) → ProfileMaps (delete k leases) epochs
  ProfileMaps-delete k p l q = ground (arith, h p l, lookup-delete k p leases)

serve-ProfilesCoherent :
    (s : MemoryStore) (c : Call) → ProfilesCoherent s → ProfilesCoherent (serve s c)
unfolding serve
serve-ProfilesCoherent s (acquires_profile_lease a b d) h =
    acquire_profile_cases ProfilesCoherent s a b d h
      (ProfileMaps-grant s.profile_leases s.profile_epochs h a.profile _)
      (λ x e. ProfileMaps-extend s.profile_leases s.profile_epochs h a.profile _ (h a.profile x e))
serve-ProfilesCoherent s (renews_profile_lease a b d) h =
    renew_profile_cases ProfilesCoherent s a b d h
      (λ x e. ProfileMaps-extend s.profile_leases s.profile_epochs h a.profile _ (h a.profile x e))
serve-ProfilesCoherent s (gets_profile_lease a b) h =
    get_profile_cases ProfilesCoherent s a b h
      (ProfileMaps-delete s.profile_leases s.profile_epochs h a)
serve-ProfilesCoherent s (releases_profile_lease a) h =
    release_profile_cases ProfilesCoherent s a h
      (ProfileMaps-delete s.profile_leases s.profile_epochs h a.profile)
serve-ProfilesCoherent s c h = λ p l q. ground (arith, h p l, serve-SameProfiles s c)

-- The same for the task leases, in maps of maps.
abbrev TaskMaps : Table (Table TaskLease) → Table (Table ℕ) → Type 0
TaskMaps leases epochs =
    (r t : String) (l : TaskLease)
    → lookup₂ r t leases ≡ some l
    → l.epoch ≡ or_zero 0 (lookup₂ r t epochs)

module _ (leases : Table (Table TaskLease)) (epochs : Table (Table ℕ))
    (h : TaskMaps leases epochs) where
  TaskMaps-ensure : (k : String) → TaskMaps (ensure k leases) (ensure k epochs)
  TaskMaps-ensure k r t l q =
      ground (arith, h r t l, lookup₂-ensure k r t leases, lookup₂-ensure k r t epochs)

  TaskMaps-extend :
      (k j : String) (x : TaskLease)
      → x.epoch ≡ or_zero 0 (lookup₂ k j epochs)
      → TaskMaps (insert₂ k j x leases) epochs
  TaskMaps-extend k j x e r t l q =
      ground (arith, h r t l, lookup₂-insert₂ k j r t x leases, eq_iff k r, eq_iff j t)

  TaskMaps-grant :
      (k j : String) (x : TaskLease) → TaskMaps (insert₂ k j x leases) (insert₂ k j x.epoch epochs)
  TaskMaps-grant k j x r t l q =
      ground
        (arith, h r t l, lookup₂-insert₂ k j r t x leases, lookup₂-insert₂ k j r t x.epoch epochs)

  TaskMaps-delete₂ : (k j : String) → TaskMaps (delete₂ k j leases) epochs
  TaskMaps-delete₂ k j r t l q = ground (arith, h r t l, lookup₂-delete₂ k j r t leases)

  TaskMaps-delete : (k : String) → TaskMaps (delete k leases) epochs
  unfolding lookup
  TaskMaps-delete k r t l q = ground (arith, h r t l, lookup-delete k r leases)

serve-TasksCoherent : (s : MemoryStore) (c : Call) → TasksCoherent s → TasksCoherent (serve s c)
unfolding serve
serve-TasksCoherent s (acquires_task_lease a b d) h =
    let made_ = TaskMaps-ensure s.leases s.task_lease_epochs h a.request_id in
    acquire_task_cases TasksCoherent s a b d h made_
      (TaskMaps-grant _ _ made_ a.request_id a.task_id _)
serve-TasksCoherent s (renews_task_lease a b d) h = renew_task_cases TasksCoherent s a b d h (λ x e.
    TaskMaps-extend s.leases s.task_lease_epochs h a.request_id a.task_id _
      (h a.request_id a.task_id x e))
serve-TasksCoherent s (gets_task_lease a b d) h =
    get_task_cases TasksCoherent s a b d h (TaskMaps-delete₂ s.leases s.task_lease_epochs h a b)
serve-TasksCoherent s (releases_task_lease a) h =
    release_task_cases TasksCoherent s a h
      (TaskMaps-delete₂ s.leases s.task_lease_epochs h a.request_id a.task_id)
      (TaskMaps-delete s.leases s.task_lease_epochs h a.request_id)
serve-TasksCoherent s c h = λ r t l q. ground (arith, h r t l, serve-SameTasks s c)

serve-IsCoherent : (s : MemoryStore) (c : Call) → IsCoherent s → IsCoherent (serve s c)
serve-IsCoherent s c v = record {
  leader = serve-LeaderCoherent s c v.leader;
  profiles = serve-ProfilesCoherent s c v.profiles;
  tasks = serve-TasksCoherent s c v.tasks;
}

pub serve_all-IsCoherent :
    (s : MemoryStore) (cs : List Call) → IsCoherent s → IsCoherent (serve_all s cs)
unfolding serve_all
serve_all-IsCoherent s [] v = v
serve_all-IsCoherent s (c ∷ cs) v = serve_all-IsCoherent (serve s c) cs (serve-IsCoherent s c v)

pub new-IsCoherent : (fabric : String) → IsCoherent (new_memory_store fabric)
unfolding new_memory_store lookup
new-IsCoherent fabric = record {
  leader = λ l q. absurd (cc);
  profiles = λ p l q. absurd (cc);
  tasks = λ r t l q. absurd (cc);
}
