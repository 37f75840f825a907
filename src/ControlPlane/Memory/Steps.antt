-- ===== src/ControlPlane/Memory/Steps.antt =====
-- A history of the store of internal/controlplane/memory.go: the calls that it serves, in the order
-- in which they take its lock, each with the times that it read.
mod Frames
mod Growth
pub mod Coherence
pub mod Fencing
pub mod Exclusion
pub mod Succession
pub mod Requests
pub mod Bindings
use agentfab.Prelude.{ℕ, suc, String, List, [], ◌∷◌}
use agentfab.Prelude.Int.{ℤ}
use agentfab.ControlPlane.{
  Node, AgentInstance, InstanceFilter, AttestedNodeRecord, LeaderLease, RequestRecord, TaskRecord,
  TaskLease, ProfileLease,
}
use agentfab.ControlPlane.Memory.{MemoryStore}
use agentfab.ControlPlane.Memory.Leader.{acquire_leader, renew_leader, get_leader, release_leader}
use agentfab.ControlPlane.Memory.Members.{
  register_node, heartbeat_node, get_node, list_nodes, register_instance, heartbeat_instance,
  get_instance, list_instances, remove_instance,
}
use agentfab.ControlPlane.Memory.Records.{upsert_attested_node, upsert_request, upsert_task}
use agentfab.ControlPlane.Memory.ProfileLeases.{
  acquire_profile_lease, renew_profile_lease, get_profile_lease, release_profile_lease,
}
use agentfab.ControlPlane.Memory.TaskLeases.{
  acquire_task_lease, renew_task_lease, get_task_lease, release_task_lease,
}

-- The methods that write to the store, the reads that clean up among them.
pub data Call : Type 0 where
  acquires_leader : (candidate address : String) (ttl : ℤ) (now : ℕ) → Call
  renews_leader : (lease : LeaderLease) (ttl : ℤ) (now : ℕ) → Call
  gets_leader : (now : ℕ) → Call
  releases_leader : LeaderLease → Call
  upserts_attested_node : AttestedNodeRecord → Call
  registers_node : (node : Node) (start now : ℕ) → Call
  heartbeats_node : (id : String) (given read now : ℕ) → Call
  gets_node : (id : String) (now : ℕ) → Call
  lists_nodes : (now : ℕ) → Call
  registers_instance : (instance_ : AgentInstance) (start now : ℕ) → Call
  heartbeats_instance : (id : String) (given read now : ℕ) → Call
  gets_instance : (id : String) (now : ℕ) → Call
  lists_instances : (filter : InstanceFilter) (now : ℕ) → Call
  removes_instance : String → Call
  upserts_request : (request : RequestRecord) (now : ℕ) → Call
  upserts_task : (task : TaskRecord) (now : ℕ) → Call
  acquires_profile_lease : (lease : ProfileLease) (ttl : ℤ) (now : ℕ) → Call
  renews_profile_lease : (lease : ProfileLease) (ttl : ℤ) (now : ℕ) → Call
  gets_profile_lease : (profile : String) (now : ℕ) → Call
  releases_profile_lease : ProfileLease → Call
  acquires_task_lease : (lease : TaskLease) (ttl : ℤ) (now : ℕ) → Call
  renews_task_lease : (lease : TaskLease) (ttl : ℤ) (now : ℕ) → Call
  gets_task_lease : (request_id task_id : String) (now : ℕ) → Call
  releases_task_lease : TaskLease → Call

unfoldable pub serve : MemoryStore → Call → MemoryStore
serve s (acquires_leader candidate address ttl now) = (acquire_leader s candidate address ttl now).0
serve s (renews_leader lease ttl now) = (renew_leader s lease ttl now).0
serve s (gets_leader now) = (get_leader s now).0
serve s (releases_leader lease) = release_leader s lease
serve s (upserts_attested_node r) = (upsert_attested_node s r).0
serve s (registers_node node start now) = (register_node s node start now).0
serve s (heartbeats_node id given read now) = (heartbeat_node s id given read now).0
serve s (gets_node id now) = (get_node s id now).0
serve s (lists_nodes now) = (list_nodes s now).0
serve s (registers_instance i start now) = (register_instance s i start now).0
serve s (heartbeats_instance id given read now) = (heartbeat_instance s id given read now).0
serve s (gets_instance id now) = (get_instance s id now).0
serve s (lists_instances f now) = (list_instances s f now).0
serve s (removes_instance id) = remove_instance s id
serve s (upserts_request r now) = (upsert_request s r now).0
serve s (upserts_task t now) = (upsert_task s t now).0
serve s (acquires_profile_lease lease ttl now) = (acquire_profile_lease s lease ttl now).0
serve s (renews_profile_lease lease ttl now) = (renew_profile_lease s lease ttl now).0
serve s (gets_profile_lease profile now) = (get_profile_lease s profile now).0
serve s (releases_profile_lease lease) = release_profile_lease s lease
serve s (acquires_task_lease lease ttl now) = (acquire_task_lease s lease ttl now).0
serve s (renews_task_lease lease ttl now) = (renew_task_lease s lease ttl now).0
serve s (gets_task_lease request_id task_id now) = (get_task_lease s request_id task_id now).0
serve s (releases_task_lease lease) = release_task_lease s lease

unfoldable pub serve_all : MemoryStore → List Call → MemoryStore
serve_all s [] = s
serve_all s (c ∷ cs) = serve_all (serve s c) cs
