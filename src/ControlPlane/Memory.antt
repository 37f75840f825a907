-- ===== src/ControlPlane/Memory.antt =====
-- internal/controlplane/memory.go: the store in memory. A method returns the new store beside its
-- result. Each holds the store's lock, so it is one step; the values that it reads from the clock
-- are its arguments `now`, in the order in which it reads them, and need not grow from call to call.
pub mod Leader
pub mod Members
pub mod Records
pub mod ProfileLeases
pub mod TaskLeases
pub mod Listing
pub mod Steps
use agentfab.Prelude.{
  ℕ, ◌+◌, ◌%◌, ◌^◌, String, [], Option, none, Table, Bool, if◌then◌else◌, Result, ok, err,
}
use agentfab.ControlPlane.{
  LeaderLease, AttestedNodeRecord, Node, AgentInstance, RequestRecord, TaskRecord, ProfileLease,
  TaskLease,
}

pub record MemoryStore : Type 0 where
  pub fabric : String
  pub leader : Option LeaderLease
  pub leader_epoch : ℕ
  pub attested_nodes : Table AttestedNodeRecord
  pub nodes : Table Node
  pub instances : Table AgentInstance
  pub requests : Table RequestRecord
  pub tasks : Table (Table TaskRecord)
  pub profile_leases : Table ProfileLease
  pub profile_epochs : Table ℕ
  pub leases : Table (Table TaskLease)
  pub task_lease_epochs : Table (Table ℕ)

unfoldable pub new_memory_store : String → MemoryStore
new_memory_store fabric = record {
  fabric = fabric;
  leader = none;
  leader_epoch = 0;
  attested_nodes = [];
  nodes = [];
  instances = [];
  requests = [];
  tasks = [];
  profile_leases = [];
  profile_epochs = [];
  leases = [];
  task_lease_epochs = [];
}

-- The errors, with the texts that their messages quote.
pub data StoreError : Type 0 where
  attested_node_id_required : StoreError
  candidate_id_required leader_ttl_not_positive no_leader_lease leader_lease_expired : StoreError
  leader_lease_not_owned : String → StoreError
  node_id_required instance_id_required instance_profile_required : StoreError
  node_not_found instance_not_found : String → StoreError
  request_id_required task_request_id_required task_id_required : StoreError
  task_lease_request_id_required task_lease_task_id_required task_lease_owner_id_required :
      StoreError
  task_lease_ttl_not_positive task_lease_expired : StoreError
  task_lease_request_not_found task_lease_task_not_found task_lease_not_owned : String → StoreError
  profile_lease_profile_required profile_lease_instance_required : StoreError
  profile_lease_owner_id_required profile_lease_ttl_not_positive profile_lease_expired : StoreError
  profile_lease_not_found : String → StoreError
  profile_lease_not_owned : String → String → StoreError

-- What a method of the store does.
abbrev pub Method : Type 0 → Type 0
Method A = MemoryStore × Result StoreError A

-- `epoch + 1`, on 64 bits.
abbrev pub next_epoch : ℕ → ℕ
next_epoch epoch = (epoch + 1) % 2 ^ 64
