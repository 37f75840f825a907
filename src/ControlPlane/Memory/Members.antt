-- ===== src/ControlPlane/Memory/Members.antt =====
-- The nodes and instances of internal/controlplane/memory.go. Every method but `RemoveInstance`
-- first marks what has not been heard of.
use agentfab.Prelude.{
  map, ℕ, String, List, [], ◌∷◌, Bool, ◌&&◌, ◌||◌, ◌==◌, if◌then◌else◌, nat_eq, Option, none, some,
  Table, lookup, insert, delete, values, sort_by, select, ok, err,
}
use agentfab.ControlPlane.{
  Node, NodeState, AgentInstance, InstanceState, InstanceFilter, AttestedNodeRecord,
  normalize_nodes, normalize_instances,
}
use agentfab.ControlPlane.Memory.{
  MemoryStore, Method, node_id_required, node_not_found, instance_id_required,
  instance_profile_required, instance_not_found,
}

-- `if t.IsZero() { t = d }`.
abbrev pub or_time : ℕ → ℕ → ℕ
or_time t d = if nat_eq t 0 then d else t

unfoldable pub normalize : MemoryStore → ℕ → MemoryStore
unfolding normalize_nodes normalize_instances
normalize s now = record s {
  nodes = normalize_nodes now s.nodes;
  instances = normalize_instances now s.nodes s.instances;
}

-- `cloneStringMap`.
unfoldable pub clone_string_map : Table String → Table String
clone_string_map [] = []
clone_string_map ((k, v) ∷ m) = insert k v (clone_string_map m)

unfoldable pub clone_node : Node → Node
unfolding clone_string_map
clone_node node = record node {
  labels = clone_string_map node.labels;
  profile_digests = clone_string_map node.profile_digests;
}

unfoldable pub clone_attested_node_record : AttestedNodeRecord → AttestedNodeRecord
unfolding clone_string_map
clone_attested_node_record r = record r {
  claims = clone_string_map r.claims;
  measurements = clone_string_map r.measurements;
}

abbrev or_ready_node : NodeState → NodeState
or_ready_node NodeState.unset = NodeState.ready
or_ready_node st = st

-- The defaults of a registration; `start` is the time read for a node without a start.
unfoldable pub complete_node : Node → ℕ → Node
complete_node node start =
    let begun = or_time node.started_at start in
    record node {
      state = or_ready_node node.state;
      started_at = begun;
      last_heartbeat_at = or_time node.last_heartbeat_at begun;
    }

unfoldable pub register_node : MemoryStore → Node → ℕ → ℕ → Method (Unit {0})
unfolding normalize complete_node clone_node
register_node s node start now =
    if node.id == ""
    then (s, err node_id_required)
    else let t = normalize s now in
      (record t { nodes = insert node.id (clone_node (complete_node node start)) t.nodes }, ok tt)

-- `State == "" || State == NodeStateUnknown || State == NodeStateUnavailable`.
abbrev revive_node : NodeState → NodeState
revive_node NodeState.unset = NodeState.ready
revive_node NodeState.unknown = NodeState.ready
revive_node NodeState.unavailable = NodeState.ready
revive_node st = st

unfoldable pub beat_node : Node → ℕ → Node
beat_node node at = record node { state = revive_node node.state; last_heartbeat_at = at }

abbrev pub with_node : MemoryStore → String → ℕ → Option Node → Method (Unit {0})
with_node s id at none = (s, err (node_not_found id))
with_node s id at (some node) = (record s { nodes = insert id (beat_node node at) s.nodes }, ok tt)

-- `given` is the argument `at`, and `read` the time read in its place if it is zero.
unfoldable pub heartbeat_node : MemoryStore → String → ℕ → ℕ → ℕ → Method (Unit {0})
unfolding normalize beat_node
heartbeat_node s id given read now =
    if id == ""
    then (s, err node_id_required)
    else let t = normalize s now in with_node t id (or_time given read) (lookup id t.nodes)

abbrev pub clone_found : Option Node → Option Node
clone_found none = none
clone_found (some node) = some (clone_node node)

unfoldable pub get_node : MemoryStore → String → ℕ → MemoryStore × Option Node
unfolding normalize clone_node
get_node s id now = let t = normalize s now in (t, clone_found (lookup id t.nodes))

-- The order of Go's map iteration does not show: the result is sorted by the ID.
unfoldable pub list_nodes : MemoryStore → ℕ → MemoryStore × List Node
unfolding normalize clone_node
list_nodes s now =
    let t = normalize s now in (t, sort_by (λ n. n.id) (map clone_node (values t.nodes)))

abbrev or_ready_instance : InstanceState → InstanceState
or_ready_instance InstanceState.unset = InstanceState.ready
or_ready_instance st = st

unfoldable pub complete_instance : AgentInstance → ℕ → AgentInstance
complete_instance i start =
    let begun = or_time i.started_at start in
    record i {
      state = or_ready_instance i.state;
      started_at = begun;
      last_heartbeat_at = or_time i.last_heartbeat_at begun;
    }

unfoldable pub register_instance : MemoryStore → AgentInstance → ℕ → ℕ → Method (Unit {0})
unfolding normalize complete_instance
register_instance s i start now =
    if i.id == ""
    then (s, err instance_id_required)
    else if i.profile == ""
    then (s, err instance_profile_required)
    else let t = normalize s now in
      (record t { instances = insert i.id (complete_instance i start) t.instances }, ok tt)

abbrev revive_instance : InstanceState → InstanceState
revive_instance InstanceState.unset = InstanceState.ready
revive_instance InstanceState.unknown = InstanceState.ready
revive_instance InstanceState.unavailable = InstanceState.ready
revive_instance st = st

unfoldable pub beat_instance : AgentInstance → ℕ → AgentInstance
beat_instance i at = record i { state = revive_instance i.state; last_heartbeat_at = at }

abbrev pub with_instance : MemoryStore → String → ℕ → Option AgentInstance → Method (Unit {0})
with_instance s id at none = (s, err (instance_not_found id))
with_instance s id at (some i) =
    (record s { instances = insert id (beat_instance i at) s.instances }, ok tt)

unfoldable pub heartbeat_instance : MemoryStore → String → ℕ → ℕ → ℕ → Method (Unit {0})
unfolding normalize beat_instance
heartbeat_instance s id given read now =
    if id == ""
    then (s, err instance_id_required)
    else let t = normalize s now in with_instance t id (or_time given read) (lookup id t.instances)

unfoldable pub get_instance : MemoryStore → String → ℕ → MemoryStore × Option AgentInstance
unfolding normalize
get_instance s id now = let t = normalize s now in (t, lookup id t.instances)

-- `filter.Profile != "" && instance.Profile != filter.Profile` passes an instance over.
abbrev pub fits : String → String → Bool
fits wanted actual = wanted == "" || actual == wanted

-- States are texts: `code` is the text of one.
unfoldable pub state_code : InstanceState → String
state_code InstanceState.unset = ""
state_code InstanceState.unknown = "unknown"
state_code InstanceState.starting = "starting"
state_code InstanceState.ready = "ready"
state_code InstanceState.busy = "busy"
state_code InstanceState.draining = "draining"
state_code InstanceState.unavailable = "unavailable"
state_code (InstanceState.other s) = s

unfoldable pub matches : InstanceFilter → AgentInstance → Bool
unfolding state_code
matches f i =
    fits f.profile i.profile
    && (fits f.node_id i.node_id && fits (state_code f.state) (state_code i.state))

unfoldable pub list_instances : MemoryStore → InstanceFilter → ℕ → MemoryStore × List AgentInstance
unfolding normalize matches
list_instances s f now =
    let t = normalize s now in (t, sort_by (λ i. i.id) (select (matches f) (values t.instances)))

unfoldable pub remove_instance : MemoryStore → String → MemoryStore
remove_instance s id = record s { instances = delete id s.instances }
