-- ===== src/ControlPlane/Memory/Steps/Requests.antt =====
-- The requests of internal/controlplane/memory.go over a history of calls.
use agentfab.Prelude.{
  ℕ, String, List, [], ◌∷◌, All, Bool, true, false, ◌==◌, eq_iff, if◌then◌else◌, ◌≡◌, ◌≢◌, ◌⊎◌,
  nat_eq, refl, Option, some, lookup, lookup-insert, arith, Bool-cases, inl, inr,
}
use agentfab.ControlPlane.{RequestRecord}
use agentfab.ControlPlane.Memory.{MemoryStore}
use agentfab.ControlPlane.Memory.Leader.{acquire_leader, renew_leader, get_leader, release_leader}
use agentfab.ControlPlane.Memory.Members.{
  register_node, heartbeat_node, get_node, list_nodes, register_instance, heartbeat_instance,
  get_instance, list_instances, remove_instance,
}
use agentfab.ControlPlane.Memory.Records.{
  upsert_attested_node, upsert_request, get_request, created, upsert_task,
}
use agentfab.ControlPlane.Memory.ProfileLeases.{
  acquire_profile_lease, renew_profile_lease, get_profile_lease, release_profile_lease,
}
use agentfab.ControlPlane.Memory.TaskLeases.{
  acquire_task_lease, renew_task_lease, get_task_lease, release_task_lease,
}
use agentfab.ControlPlane.Memory.Steps.{Call, upserts_request, serve, serve_all}

abbrev is_request_call : Call → Bool
is_request_call (upserts_request _ _) = true
is_request_call c = false

serve-requests :
    (s : MemoryStore) (c : Call) → is_request_call c ≡ false → (serve s c).requests ≡ s.requests
unfolding serve register_node heartbeat_node get_node list_nodes register_instance
    heartbeat_instance get_instance list_instances remove_instance upsert_attested_node upsert_task
    acquire_leader renew_leader get_leader release_leader acquire_profile_lease renew_profile_lease
    get_profile_lease release_profile_lease acquire_task_lease renew_task_lease get_task_lease
    release_task_lease
serve-requests s (upserts_request a b) h = absurd (cc)
serve-requests s c h = ground arith

-- A call that does not set a time of creation for the request.
abbrev pub LeavesTime : String → Call → Type 0
LeavesTime id (upserts_request r now) = (r.id ≢ id) ⊎ (r.created_at ≡ 0)
LeavesTime id c = Unit

abbrev pub CreatedAt : String → ℕ → MemoryStore → Type 0
CreatedAt id time s = (r : RequestRecord) × (get_request s id ≡ some r) × (r.created_at ≡ time)

abbrev stored : RequestRecord → ℕ → Option RequestRecord → RequestRecord
stored q now old = record q {
  created_at = if nat_eq q.created_at 0 then created old now else q.created_at;
  updated_at = now;
}

serve-CreatedAt :
    (id : String) (time : ℕ) (s : MemoryStore) (c : Call)
    → CreatedAt id time s
    → LeavesTime id c
    → CreatedAt id time (serve s c)
unfolding serve upsert_request get_request
serve-CreatedAt id time s (upserts_request q now) (r, e, t) leaves =
    let q' = stored q now (lookup q.id s.requests) in
    elim (Bool-cases (q.id == "")) [
      | inl none_given ↦ (r, ground arith, t)
      | inr named ↦ elim (Bool-cases (q.id == id)) [
        | inr other ↦ (r, ground (arith, lookup-insert q.id id q' s.requests), t)
        | inl same ↦ (
          q',
          ground (arith, lookup-insert q.id id q' s.requests),
          ground (arith, eq_iff q.id id),
        )
      ]
    ]
serve-CreatedAt id time s c (r, e, t) leaves = (r, ground (arith, serve-requests s c), t)

serve_all-CreatedAt :
    (id : String) (time : ℕ) (s : MemoryStore) (calls : List Call)
    → CreatedAt id time s
    → All (LeavesTime id) calls
    → CreatedAt id time (serve_all s calls)
unfolding serve_all
serve_all-CreatedAt id time s [] h leaves = h
serve_all-CreatedAt id time s (c ∷ cs) h leaves =
    serve_all-CreatedAt id time (serve s c) cs (serve-CreatedAt id time s c h leaves.0) leaves.1

-- A request keeps its time of creation: whatever calls follow, as long as none of them upserts it with a
-- time of creation of its own, it stays in the store with the time that it had.
pub created_at_stays :
    (id : String) (r : RequestRecord) (s : MemoryStore) (calls : List Call)
    → get_request s id ≡ some r
    → All (LeavesTime id) calls
    → CreatedAt id r.created_at (serve_all s calls)
created_at_stays id r s calls e leaves =
    serve_all-CreatedAt id r.created_at s calls (r, e, refl) leaves
