-- ===== src/ControlPlane/Memory/Steps/Exclusion.antt =====
-- Exclusion by leases in internal/controlplane/memory.go: as long as a lease runs, and its owner does
-- not give it up, no call of another owner takes it.
use agentfab.Prelude.{
  is_err, ℕ, ◌+◌, ◌≤◌, ◌<◌, String, List, [], ◌∷◌, All, ◌==◌, eq_iff, ◌≡◌, ◌≢◌, refl, Table,
  if◌then◌else◌, ◌⊎◌, inl, inr, some, lookup, insert, delete, lookup-insert, lookup-delete, arith,
  Bool-cases, Option-cases,
}
use agentfab.Loop.{is_empty}
use agentfab.Prelude.Int.{ℤ, pos_part}
use agentfab.ControlPlane.{LeaderLease, TaskLease}
use agentfab.ControlPlane.Memory.{MemoryStore}
use agentfab.ControlPlane.Memory.Leader.{acquire_leader, renew_leader, get_leader, release_leader}
use agentfab.ControlPlane.Memory.TaskLeases.{
  ensure, fresh, acquire_task_lease, renew_task_lease, get_task_lease, release_task_lease, lookup₂,
  with_maps,
}
use agentfab.ControlPlane.Memory.TaskLeases.Cases.{
  renewed, renew_task_cases, lookup₂-ensure, lookup₂-insert₂,
}
use agentfab.ControlPlane.Memory.Steps.{
  Call, acquires_leader, renews_leader, gets_leader, releases_leader, acquires_task_lease,
  renews_task_lease, gets_task_lease, releases_task_lease, serve, serve_all,
}
use agentfab.ControlPlane.Memory.Steps.Frames.{serve-SameLeader, serve-SameTasks}

-- A call that does not come after the lease `l` is over, and is not a new candidacy of the holder, its
-- giving up the lease, or a renewal to an earlier end.
abbrev pub SparesLeader : LeaderLease → Call → Type 0
SparesLeader l (acquires_leader candidate _ _ now) =
    (candidate ≢ l.holder_id) × (now < l.expires_at)
SparesLeader l (renews_leader _ ttl now) = l.expires_at ≤ now + pos_part ttl
SparesLeader l (gets_leader now) = now ≤ l.expires_at
SparesLeader l (releases_leader lease) = (lease.holder_id ≢ l.holder_id) ⊎ (lease.epoch ≢ l.epoch)
SparesLeader l c = Unit

-- The holder of `l` still leads, in the same epoch, and for at least as long.
abbrev pub StillLeads : LeaderLease → MemoryStore → Type 0
StillLeads l s =
    (m : LeaderLease) × (s.leader ≡ some m)
    × (m.holder_id ≡ l.holder_id)
    × (m.epoch ≡ l.epoch)
    × (l.expires_at ≤ m.expires_at)

serve-StillLeads :
    (l : LeaderLease) (s : MemoryStore) (c : Call)
    → StillLeads l s
    → SparesLeader l c
    → StillLeads l (serve s c)
unfolding serve acquire_leader renew_leader get_leader release_leader
serve-StillLeads l s (acquires_leader candidate a b now) (m, e, h, p, x) r =
    (m, ground (arith, eq_iff m.holder_id candidate), h, p, x)
serve-StillLeads l s (renews_leader lease ttl now) (m, e, h, p, x) r =
    elim (Bool-cases (is_err (renew_leader s lease ttl now).1)) [
      | inl failed ↦ (m, ground arith, h, p, x)
      | inr done ↦ (
        record m { last_heartbeat_at = now; expires_at = now + pos_part ttl },
        ground arith,
        h,
        p,
        r,
      )
    ]
serve-StillLeads l s (gets_leader now) (m, e, h, p, x) r = (m, ground arith, h, p, x)
serve-StillLeads l s (releases_leader lease) (m, e, h, p, x) r =
    (m, ground (arith, eq_iff m.holder_id lease.holder_id), h, p, x)
serve-StillLeads l s c (m, e, h, p, x) r = (m, ground (arith, serve-SameLeader s c), h, p, x)

-- The same for the lease of a task, by its request and task.
abbrev pub SparesTask : String → String → TaskLease → Call → Type 0
SparesTask r t l (acquires_task_lease a _ now) =
    (a.request_id ≢ r) ⊎ ((a.task_id ≢ t) ⊎ ((a.owner_id ≢ l.owner_id) × (now < l.expires_at)))
SparesTask r t l (renews_task_lease _ ttl now) = l.expires_at ≤ now + pos_part ttl
SparesTask r t l (gets_task_lease _ _ now) = now ≤ l.expires_at
SparesTask r t l (releases_task_lease a) =
    (a.request_id ≢ r) ⊎ ((a.task_id ≢ t) ⊎ ((a.owner_id ≢ l.owner_id) ⊎ (a.epoch ≢ l.epoch)))
SparesTask r t l c = Unit

abbrev pub StillOwns : String → String → TaskLease → MemoryStore → Type 0
StillOwns r t l s =
    (m : TaskLease) × (lookup₂ r t s.leases ≡ some m)
    × (m.owner_id ≡ l.owner_id)
    × (m.epoch ≡ l.epoch)
    × (l.expires_at ≤ m.expires_at)

-- What a release leaves of the map of its request.
lookup₂-left :
    (k r t : String) (left : Table TaskLease) (m : Table (Table TaskLease))
    → lookup₂ r t (if is_empty left then delete k m else insert k left m)
      ≡ (if k == r then lookup t left else lookup₂ r t m)
unfolding lookup
lookup₂-left k r t [] m = ground (arith, lookup-delete k r m)
lookup₂-left k r t (x ∷ left) m = ground (arith, lookup-insert k r (x ∷ left) m)

module _ (r t : String) (l : TaskLease) (s : MemoryStore) where
  acquire-StillOwns :
      (a : TaskLease) (ttl : ℤ) (now : ℕ)
      → StillOwns r t l s
      → SparesTask r t l (acquires_task_lease a ttl now)
      → StillOwns r t l (acquire_task_lease s a ttl now).0
  unfolding acquire_task_lease
  acquire-StillOwns a ttl now (m, e, o, p, x) spares = (
    m,
    ground (
      arith,
      lookup₂-ensure a.request_id r t s.leases,
      lookup₂-ensure a.request_id a.request_id a.task_id s.leases,
      lookup₂-insert₂ a.request_id a.task_id r t (fresh (with_maps s a) a (pos_part ttl) now)
          (ensure a.request_id s.leases),
      eq_iff a.request_id r,
      eq_iff a.task_id t,
      eq_iff m.owner_id a.owner_id,
    ),
    o,
    p,
    x,
  )

  renew-StillOwns :
      (a : TaskLease) (ttl : ℤ) (now : ℕ)
      → StillOwns r t l s
      → l.expires_at ≤ now + pos_part ttl
      → StillOwns r t l (renew_task_lease s a ttl now).0
  renew-StillOwns a ttl now (m, e, o, p, x) spares =
      renew_task_cases (StillOwns r t l) s a ttl now (m, e, o, p, x)
        (λ old e'. elim (Bool-cases (a.request_id == r)) [
          | inr other ↦ (
            m,
            ground
                (arith, lookup₂-insert₂ a.request_id a.task_id r t (renewed old ttl now) s.leases),
            o,
            p,
            x,
          )
          | inl same ↦ elim (Bool-cases (a.task_id == t)) [
            | inr other ↦ (
              m,
              ground (
                arith,
                lookup₂-insert₂ a.request_id a.task_id r t (renewed old ttl now) s.leases,
              ),
              o,
              p,
              x,
            )
            | inl same' ↦ (
              renewed m ttl now,
              ground (
                arith,
                lookup₂-insert₂ a.request_id a.task_id r t (renewed old ttl now) s.leases,
                eq_iff a.request_id r,
                eq_iff a.task_id t,
              ),
              o,
              p,
              spares,
            )
          ]
        ])

  get-StillOwns :
      (r' t' : String) (now : ℕ)
      → StillOwns r t l s
      → now ≤ l.expires_at
      → StillOwns r t l (get_task_lease s r' t' now).0
  unfolding get_task_lease
  get-StillOwns r' t' now (m, e, o, p, x) spares = elim (Option-cases (lookup r' s.leases)) [
    | inl e' ↦ (m, ground arith, o, p, x)
    | inr (of_request, e') ↦ (
      m,
      ground (
        arith,
        lookup-insert r' r (delete t' of_request) s.leases,
        lookup-delete t' t of_request,
        eq_iff r' r,
        eq_iff t' t,
      ),
      o,
      p,
      x,
    )
  ]

  release-StillOwns :
      (a : TaskLease)
      → StillOwns r t l s
      → SparesTask r t l (releases_task_lease a)
      → StillOwns r t l (release_task_lease s a)
  unfolding release_task_lease
  release-StillOwns a (m, e, o, p, x) spares = elim (Option-cases (lookup a.request_id s.leases)) [
    | inl e' ↦ (m, ground arith, o, p, x)
    | inr (of_request, e') ↦ (
      m,
      ground (
        arith,
        lookup₂-left a.request_id r t (delete a.task_id of_request) s.leases,
        lookup-delete a.task_id t of_request,
        eq_iff a.request_id r,
        eq_iff a.task_id t,
        eq_iff m.owner_id a.owner_id,
      ),
      o,
      p,
      x,
    )
  ]

serve-StillOwns :
    (r t : String) (l : TaskLease) (s : MemoryStore) (c : Call)
    → StillOwns r t l s
    → SparesTask r t l c
    → StillOwns r t l (serve s c)
unfolding serve
serve-StillOwns r t l s (acquires_task_lease a ttl now) owns spares =
    acquire-StillOwns r t l s a ttl now owns spares
serve-StillOwns r t l s (renews_task_lease a ttl now) owns spares =
    renew-StillOwns r t l s a ttl now owns spares
serve-StillOwns r t l s (gets_task_lease r' t' now) owns spares =
    get-StillOwns r t l s r' t' now owns spares
serve-StillOwns r t l s (releases_task_lease a) owns spares =
    release-StillOwns r t l s a owns spares
serve-StillOwns r t l s c (m, e, o, p, x) spares = (m, ground (arith, serve-SameTasks s c), o, p, x)

module _ (l : LeaderLease) where
  stays-StillLeads :
      (s : MemoryStore) (calls : List Call)
      → StillLeads l s
      → All (SparesLeader l) calls
      → StillLeads l (serve_all s calls)
  unfolding serve_all
  stays-StillLeads s [] leads spares = leads
  stays-StillLeads s (c ∷ cs) leads spares =
      stays-StillLeads (serve s c) cs (serve-StillLeads l s c leads spares.0) spares.1

-- If `l` is the leader's lease, then after any calls none of which is a candidacy of its holder, a
-- candidacy of another at the lease's end or later, a renewal to an earlier end, a read past the end, or
-- a release with the lease's holder and epoch, its holder still leads, in the same epoch and until at
-- least the same time.
pub leader_excludes :
    (l : LeaderLease) (s : MemoryStore) (calls : List Call)
    → s.leader ≡ some l
    → All (SparesLeader l) calls
    → StillLeads l (serve_all s calls)
leader_excludes l s calls e spares =
    stays-StillLeads l s calls (l, e, refl, refl, ground arith) spares

module _ (r t : String) (l : TaskLease) where
  stays-StillOwns :
      (s : MemoryStore) (calls : List Call)
      → StillOwns r t l s
      → All (SparesTask r t l) calls
      → StillOwns r t l (serve_all s calls)
  unfolding serve_all
  stays-StillOwns s [] owns spares = owns
  stays-StillOwns s (c ∷ cs) owns spares =
      stays-StillOwns (serve s c) cs (serve-StillOwns r t l s c owns spares.0) spares.1

-- If `l` is held for task `t` of request `r`, then after any calls none of which, on that task, is
-- an acquisition by its owner, an acquisition by another at the lease's end or later, or a release with
-- its owner and epoch, and none of which renews a task lease for an earlier end or reads one past the
-- end, its owner still holds the task, in the same epoch and until at least the same time.
pub task_lease_excludes :
    (r t : String) (l : TaskLease) (s : MemoryStore) (calls : List Call)
    → lookup₂ r t s.leases ≡ some l
    → All (SparesTask r t l) calls
    → StillOwns r t l (serve_all s calls)
task_lease_excludes r t l s calls e spares =
    stays-StillOwns r t l s calls (l, e, refl, refl, ground arith) spares
