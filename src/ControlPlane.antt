-- ===== src/ControlPlane.antt =====
-- internal/controlplane/types.go and liveness.go. A time is a number of nanoseconds, and 0 is the
-- zero time. An epoch is the bit pattern of an int64: the code only compares epochs and counts on.
pub mod Liveness
pub mod Memory
pub mod FileStore
mod Samples
use agentfab.Prelude.{
  ℕ, ◌-◌, String, Bool, true, false, ◌==◌, if◌then◌else◌, ltb, nat_eq, Option, none, some, Table,
  lookup, update_all,
}
use agentfab.Prelude.Int.{ℤ}

-- `unset` is the empty text, `other` one that is none of the constants.
pub data NodeState : Type 0 where
  unset unknown ready degraded draining unavailable : NodeState
  other : String → NodeState

pub data InstanceState : Type 0 where
  unset unknown starting ready busy draining unavailable : InstanceState
  other : String → InstanceState

pub data RequestState : Type 0 where
  pending running completed failed cancelled interrupted : RequestState
  other : String → RequestState

pub record NodeCapacity : Type 0 where
  pub max_instances : ℤ
  pub max_tasks : ℤ

pub record Node : Type 0 where
  pub id : String
  pub address : String
  pub state : NodeState
  pub labels : Table String
  pub bundle_digest : String
  pub profile_digests : Table String
  pub capacity : NodeCapacity
  pub started_at : ℕ
  pub last_heartbeat_at : ℕ

-- internal/runtime/types.go.
pub record Endpoint : Type 0 where
  pub address : String
  pub local : Bool

pub record AgentInstance : Type 0 where
  pub id : String
  pub profile : String
  pub node_id : String
  pub bundle_digest : String
  pub profile_digest : String
  pub endpoint : Endpoint
  pub state : InstanceState
  pub started_at : ℕ
  pub last_heartbeat_at : ℕ

pub record AttestedNodeRecord : Type 0 where
  pub node_id : String
  pub trust_domain : String
  pub claims : Table String
  pub measurements : Table String
  pub attested_at : ℕ
  pub expires_at : ℕ

pub record LeaderLease : Type 0 where
  pub fabric : String
  pub holder_id : String
  pub holder_address : String
  pub epoch : ℕ
  pub acquired_at : ℕ
  pub last_heartbeat_at : ℕ
  pub expires_at : ℕ

pub record RequestRecord : Type 0 where
  pub id : String
  pub state : RequestState
  pub user_request : String
  pub graph_version : ℤ
  pub leader_id : String
  pub created_at : ℕ
  pub updated_at : ℕ

pub record TaskRecord : Type 0 where
  pub request_id : String
  pub task_id : String
  pub profile : String
  pub assigned_instance : String
  pub execution_node : String
  pub status : String
  pub lease_epoch : ℕ
  pub updated_at : ℕ

pub record TaskLease : Type 0 where
  pub request_id : String
  pub task_id : String
  pub profile : String
  pub assigned_instance : String
  pub execution_node : String
  pub owner_id : String
  pub epoch : ℕ
  pub acquired_at : ℕ
  pub last_heartbeat_at : ℕ
  pub expires_at : ℕ

pub record ProfileLease : Type 0 where
  pub profile : String
  pub assigned_instance : String
  pub execution_node : String
  pub owner_id : String
  pub epoch : ℕ
  pub acquired_at : ℕ
  pub last_heartbeat_at : ℕ
  pub expires_at : ℕ

-- An empty text, or an unset state, matches everything.
pub record InstanceFilter : Type 0 where
  pub profile : String
  pub node_id : String
  pub state : InstanceState

-- liveness.go: 20 seconds, in nanoseconds.
abbrev pub node_heartbeat_ttl : ℕ
node_heartbeat_ttl = 20_000_000_000

abbrev pub instance_heartbeat_ttl : ℕ
instance_heartbeat_ttl = 20_000_000_000

abbrev pub node_is_unavailable : NodeState → Bool
node_is_unavailable unavailable = true
node_is_unavailable s = false

abbrev pub instance_is_unavailable : InstanceState → Bool
instance_is_unavailable unavailable = true
instance_is_unavailable s = false

-- `now.Sub(t) > ttl`: a time before `t` is no difference, which is not above the limit either.
unfoldable pub node_heartbeat_expired : Node → ℕ → Bool
node_heartbeat_expired node now =
    if node_is_unavailable node.state
    then false
    else if nat_eq node.last_heartbeat_at 0
    then false
    else ltb node_heartbeat_ttl (now - node.last_heartbeat_at)

-- The node, and whether it is there, is an option.
abbrev pub on_unavailable_node : Option Node → Bool
on_unavailable_node none = false
on_unavailable_node (some node) = node_is_unavailable node.state

unfoldable pub instance_heartbeat_expired : AgentInstance → Option Node → ℕ → Bool
instance_heartbeat_expired i node now =
    if instance_is_unavailable i.state
    then false
    else if on_unavailable_node node
    then true
    else if nat_eq i.last_heartbeat_at 0
    then false
    else ltb instance_heartbeat_ttl (now - i.last_heartbeat_at)

unfoldable pub refresh_node : ℕ → Node → Node
unfolding node_heartbeat_expired
refresh_node now node =
    if node_heartbeat_expired node now then record node { state = NodeState.unavailable } else node

unfoldable pub refresh_instance : Table Node → ℕ → AgentInstance → AgentInstance
unfolding instance_heartbeat_expired
refresh_instance nodes now i =
    if instance_heartbeat_expired i (lookup i.node_id nodes) now
    then record i { state = InstanceState.unavailable }
    else i

-- `normalizeMembershipLiveness`: the instances are judged by the nodes as the first loop left them.
unfoldable pub normalize_nodes : ℕ → Table Node → Table Node
normalize_nodes now nodes = update_all (refresh_node now) nodes

unfoldable pub normalize_instances : ℕ → Table Node → Table AgentInstance → Table AgentInstance
unfolding normalize_nodes
normalize_instances now nodes instances =
    update_all (refresh_instance (normalize_nodes now nodes) now) instances
