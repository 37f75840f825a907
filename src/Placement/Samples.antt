-- ===== src/Placement/Samples.antt =====
-- Two instances of internal/conductor/scheduler.go's tasks, on a node each.
use agentfab.Prelude.{List, [], ◌∷◌, false, none}
use agentfab.Prelude.Int.{pos}
use agentfab.TaskGraph.{TaskNode, TaskStatus, TaskScope}
use agentfab.ControlPlane.{Node, NodeState, AgentInstance, InstanceState}
use agentfab.ControlPlane.Memory.{MemoryStore, new_memory_store}
use agentfab.Placement.{Scheduler}
use agentfab.Placement.Choice.{select_task_instance}
use agentfab.Placement.Choice.Chosen.{IsChoice, select_task_instance-IsChoice}
use agentfab.Placement.Tasks.{TaskPlacement}

abbrev node : Node
node = record {
  id = "n1";
  address = "host";
  state = NodeState.ready;
  labels = [];
  bundle_digest = "";
  profile_digests = [];
  capacity = record { max_instances = pos 0; max_tasks = pos 1 };
  started_at = 1;
  last_heartbeat_at = 1;
}

abbrev worker : AgentInstance
worker = record {
  id = "i1";
  profile = "p";
  node_id = "n1";
  bundle_digest = "";
  profile_digest = "";
  endpoint = record { address = "host:1"; local = false };
  state = InstanceState.ready;
  started_at = 1;
  last_heartbeat_at = 1;
}

abbrev cluster : MemoryStore
cluster = record (new_memory_store "fab") {
  nodes = ("n1", node) ∷ ("n2", record node { id = "n2" }) ∷ [];
  instances = ("i1", worker) ∷ ("i2", record worker { id = "i2"; node_id = "n2" }) ∷ [];
}

abbrev task : TaskNode
task = record {
  id = "t";
  agent = "p";
  profile = "";
  description = "";
  depends_on = [];
  loop_id = "";
  scope = TaskScope.standard;
  timeout = pos 0;
  budget = pos 0;
  status = TaskStatus.pending;
  result = "";
  artifact_uri = "";
  artifact_files = [];
  assigned_instance = "";
  execution_node = "";
  lease_epoch = pos 0;
  chat_context = "";
}

abbrev idle : Scheduler
idle = record {
  request_id = "r";
  lease_owner_id = "c";
  agents = [];
  graph = none;
  inflight = [];
  instance_in_flight = [];
  node_in_flight = [];
}

-- The first node is full.
abbrev full : Scheduler
full = record idle { node_in_flight = ("n1", pos 1) ∷ [] }

abbrev both : List AgentInstance
both = worker ∷ record worker { id = "i2"; node_id = "n2" } ∷ []

select_task_instance-IsChoice_example :
    IsChoice full task cluster 5 both (select_task_instance full cluster 5 task both).1
select_task_instance-IsChoice_example = select_task_instance-IsChoice full cluster 5 task both

abbrev given : TaskPlacement
given = record {
  instance_id = "i1";
  node_id = "n1";
  task_lease = record {
    request_id = "r";
    task_id = "t";
    profile = "p";
    assigned_instance = "i1";
    execution_node = "n1";
    owner_id = "c";
    epoch = 1;
    acquired_at = 5;
    last_heartbeat_at = 5;
    expires_at = 30000000005;
  };
}
