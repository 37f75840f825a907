-- ===== src/ControlPlane/Memory/Steps/Frames.antt =====
-- What the calls of internal/controlplane/memory.go leave alone: each lease has its own four calls.
use agentfab.Prelude.{Bool, true, false, ◌≡◌, arith}
use agentfab.ControlPlane.Memory.{MemoryStore}
use agentfab.ControlPlane.Memory.Leader.{acquire_leader, renew_leader, get_leader, release_leader}
use agentfab.ControlPlane.Memory.Members.{
  register_node, heartbeat_node, get_node, list_nodes, register_instance, heartbeat_instance,
  get_instance, list_instances, remove_instance,
}
use agentfab.ControlPlane.Memory.Records.{upsert_attested_node, upsert_request, upsert_task}
use agentfab.ControlPlane.Memory.ProfileLeases.{
  acquire_profile_lease, renew_profile_lease, get_profile_lease, release_profile_lease,
}
use agentfab.ControlPlane.Memory.TaskLeases.{
  acquire_task_lease, renew_task_lease, get_task_lease, release_task_lease,
}
use agentfab.ControlPlane.Memory.Steps.{
  Call, acquires_leader, renews_leader, gets_leader, releases_leader, acquires_profile_lease,
  renews_profile_lease, gets_profile_lease, releases_profile_lease, acquires_task_lease,
  renews_task_lease, gets_task_lease, releases_task_lease, serve,
}

abbrev pub is_leader_call : Call → Bool
is_leader_call (acquires_leader _ _ _ _) = true
is_leader_call (renews_leader _ _ _) = true
is_leader_call (gets_leader _) = true
is_leader_call (releases_leader _) = true
is_leader_call c = false

abbrev pub is_profile_call : Call → Bool
is_profile_call (acquires_profile_lease _ _ _) = true
is_profile_call (renews_profile_lease _ _ _) = true
is_profile_call (gets_profile_lease _ _) = true
is_profile_call (releases_profile_lease _) = true
is_profile_call c = false

abbrev pub is_task_call : Call → Bool
is_task_call (acquires_task_lease _ _ _) = true
is_task_call (renews_task_lease _ _ _) = true
is_task_call (gets_task_lease _ _ _) = true
is_task_call (releases_task_lease _) = true
is_task_call c = false

-- One store has the leases of another, but for those of one kind.
abbrev pub SameLeader : MemoryStore → MemoryStore → Type 0
SameLeader s t = (s.leader ≡ t.leader) × (s.leader_epoch ≡ t.leader_epoch)

abbrev pub SameProfiles : MemoryStore → MemoryStore → Type 0
SameProfiles s t = (s.profile_leases ≡ t.profile_leases) × (s.profile_epochs ≡ t.profile_epochs)

abbrev pub SameTasks : MemoryStore → MemoryStore → Type 0
SameTasks s t = (s.leases ≡ t.leases) × (s.task_lease_epochs ≡ t.task_lease_epochs)

pub serve-SameLeader :
    (s : MemoryStore) (c : Call) → is_leader_call c ≡ false → SameLeader (serve s c) s
unfolding serve register_node heartbeat_node get_node list_nodes register_instance
    heartbeat_instance get_instance list_instances remove_instance upsert_attested_node
    upsert_request upsert_task acquire_profile_lease renew_profile_lease get_profile_lease
    release_profile_lease acquire_task_lease renew_task_lease get_task_lease release_task_lease
serve-SameLeader s (acquires_leader a b d e) h = absurd (cc)
serve-SameLeader s c h = (ground arith, ground arith)

pub serve-SameProfiles :
    (s : MemoryStore) (c : Call) → is_profile_call c ≡ false → SameProfiles (serve s c) s
unfolding serve register_node heartbeat_node get_node list_nodes register_instance
    heartbeat_instance get_instance list_instances remove_instance upsert_attested_node
    upsert_request upsert_task acquire_leader renew_leader get_leader release_leader
    acquire_task_lease renew_task_lease get_task_lease release_task_lease
serve-SameProfiles s (acquires_profile_lease a b d) h = absurd (cc)
serve-SameProfiles s c h = (ground arith, ground arith)

pub serve-SameTasks :
    (s : MemoryStore) (c : Call) → is_task_call c ≡ false → SameTasks (serve s c) s
unfolding serve register_node heartbeat_node get_node list_nodes register_instance
    heartbeat_instance get_instance list_instances remove_instance upsert_attested_node
    upsert_request upsert_task acquire_leader renew_leader get_leader release_leader
    acquire_profile_lease renew_profile_lease get_profile_lease release_profile_lease
serve-SameTasks s (acquires_task_lease a b d) h = absurd (cc)
serve-SameTasks s c h = (ground arith, ground arith)
