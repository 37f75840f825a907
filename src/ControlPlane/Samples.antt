-- ===== src/ControlPlane/Samples.antt =====
-- Two candidates, two workers, and a node of internal/controlplane, and what the store does with them.
use agentfab.Prelude.{
  inl, In, values, ◌↔◌, ◌==◌, eq_iff, String, List, [], ◌∷◌, true, false, ◌≡◌, ◌≢◌, ◌<◌, ◌+◌, refl,
  ◌⊎◌, inr, some, ok, err, arith, lookup, insert, delete, update_all, ltb,
}
use agentfab.Prelude.Int.{pos, ◌≤ℤ◌}
use agentfab.ControlPlane.Memory.Listing.{Allows, list_instances-In}
use agentfab.ControlPlane.Memory.Records.{get_request, upsert_request}
use agentfab.ControlPlane.Memory.Steps.Requests.{CreatedAt, created_at_stays}
use agentfab.ControlPlane.{
  RequestRecord, RequestState, InstanceFilter, Node, NodeState, AgentInstance, InstanceState,
  LeaderLease, TaskLease, ProfileLease, node_is_unavailable, node_heartbeat_ttl,
  instance_is_unavailable, refresh_node, refresh_instance, node_heartbeat_expired,
  instance_heartbeat_expired, normalize_nodes, normalize_instances,
}
use agentfab.ControlPlane.Liveness.{
  heartbeat_decides, instance_goes_with_node, normalize-idempotent,
}
use agentfab.ControlPlane.Memory.{MemoryStore, new_memory_store, leader_lease_not_owned}
use agentfab.ControlPlane.Memory.Leader.{acquire_leader, renew_leader, get_leader, release_leader}
use agentfab.ControlPlane.Memory.Members.{
  list_instances, state_code, normalize, register_node, heartbeat_node, get_node, register_instance,
  get_instance, complete_node, clone_node, complete_instance, beat_node,
}
use agentfab.ControlPlane.Memory.ProfileLeases.{
  acquire_profile_lease, renew_profile_lease, release_profile_lease,
}
use agentfab.ControlPlane.Memory.TaskLeases.{
  acquire_task_lease, renew_task_lease, release_task_lease, lookup₂,
}
use agentfab.ControlPlane.Memory.Steps.{
  renews_profile_lease, upserts_request, Call, acquires_leader, renews_leader, acquires_task_lease,
  renews_task_lease, releases_task_lease, acquires_profile_lease, releases_profile_lease, serve,
  serve_all,
}
use agentfab.ControlPlane.Memory.Steps.Coherence.{task_epoch, profile_epoch}
use agentfab.ControlPlane.Memory.Steps.Fencing.{
  Fails, after, reached, leader_fenced, profile_lease_fenced, task_lease_fenced,
}
use agentfab.ControlPlane.Memory.Steps.Exclusion.{
  StillLeads, StillOwns, leader_excludes, task_lease_excludes,
}
use agentfab.ControlPlane.Memory.Steps.Succession.{
  IsGranted, HeldByOther, acquire_leader_cases, leader_epochs_grow,
}

abbrev first : LeaderLease
first = record {
  fabric = "fab";
  holder_id = "a";
  holder_address = "host-a";
  epoch = 1;
  acquired_at = 100;
  last_heartbeat_at = 100;
  expires_at = 110;
}

abbrev second : LeaderLease
second = record {
  fabric = "fab";
  holder_id = "b";
  holder_address = "host-b";
  epoch = 2;
  acquired_at = 120;
  last_heartbeat_at = 120;
  expires_at = 130;
}

-- The lease of `a` runs out, and `b` takes over.
abbrev takeover : List Call
takeover =
    acquires_leader "a" "host-a" (pos 10) 100
    ∷ acquires_leader "b" "host-b" (pos 10) 105
    ∷ acquires_leader "b" "host-b" (pos 10) 120
    ∷ []

abbrev led : MemoryStore
led = record (new_memory_store "fab") { leader = some first; leader_epoch = 1 }

apart : (x y : String) → (x == y) ≡ false → x ≢ y
apart x y h e = ground (arith, eq_iff x y)

program : Unit {0}
unfolding new_memory_store serve serve_all acquire_leader renew_leader get_leader release_leader
    acquire_task_lease renew_task_lease release_task_lease acquire_profile_lease renew_profile_lease
    release_profile_lease register_node heartbeat_node get_node register_instance get_instance
    normalize normalize_nodes normalize_instances refresh_node refresh_instance
    node_heartbeat_expired instance_heartbeat_expired complete_node clone_node complete_instance
    beat_node lookup insert delete update_all get_request upsert_request
program = tt

take_over :
    serve_all (new_memory_store "fab") takeover
    ≡ record led { leader = some second; leader_epoch = 2 }
unfolding program
take_over = refl

-- The old leader is turned away.
renew_late :
    renew_leader (record led { leader = some second; leader_epoch = 2 }) first (pos 10) 125
    ≡ (record led { leader = some second; leader_epoch = 2 }, err (leader_lease_not_owned "a"))
unfolding program
renew_late = refl

last_epoch : (after "fab" takeover).leader_epoch ≡ 2
unfolding program
last_epoch = refl

abbrev renewals : List Call
renewals = renews_leader first (pos 50) 125 ∷ []

abbrev led_late : MemoryStore
led_late = reached "fab" takeover renewals (pos 10) 130

leader_fenced_example :
    Fails led_late (renew_leader led_late first (pos 10) 130)
    × (release_leader led_late first ≡ led_late)
leader_fenced_example =
    leader_fenced "fab" takeover renewals (pos 10) 130 first (omega (arith, last_epoch))
      (ground (arith, last_epoch))

abbrev work : String → TaskLease
work owner = record {
  request_id = "r";
  task_id = "t";
  profile = "developer";
  assigned_instance = owner;
  execution_node = "n";
  owner_id = owner;
  epoch = 1;
  acquired_at = 100;
  last_heartbeat_at = 100;
  expires_at = 110;
}

abbrev reassigned : List Call
reassigned =
    acquires_task_lease (work "w1") (pos 10) 100
    ∷ releases_task_lease (work "w1")
    ∷ acquires_task_lease (work "w2") (pos 10) 101
    ∷ []

last_task_epoch : task_epoch (after "fab" reassigned) "r" "t" ≡ 2
unfolding program
last_task_epoch = refl

abbrev worked : MemoryStore
worked = reached "fab" reassigned [] (pos 10) 102

task_lease_fenced_example :
    Fails worked (renew_task_lease worked (work "w1") (pos 10) 102)
    × (release_task_lease worked (work "w1") ≡ worked)
task_lease_fenced_example =
    task_lease_fenced "fab" reassigned [] (pos 10) 102 (work "w1") (omega (arith, last_task_epoch))
      (ground (arith, last_task_epoch))

abbrev binding : String → ProfileLease
binding owner = record {
  profile = "developer";
  assigned_instance = owner;
  execution_node = "n";
  owner_id = owner;
  epoch = 1;
  acquired_at = 100;
  last_heartbeat_at = 100;
  expires_at = 110;
}

abbrev rebound : List Call
rebound =
    acquires_profile_lease (binding "w1") (pos 10) 100
    ∷ releases_profile_lease (binding "w1")
    ∷ acquires_profile_lease (binding "w2") (pos 10) 101
    ∷ []

last_profile_epoch : profile_epoch (after "fab" rebound) "developer" ≡ 2
unfolding program
last_profile_epoch = refl

abbrev bound : MemoryStore
bound = reached "fab" rebound [] (pos 10) 102

profile_lease_fenced_example :
    Fails bound (renew_profile_lease bound (binding "w1") (pos 10) 102)
    × (release_profile_lease bound (binding "w1") ≡ bound)
profile_lease_fenced_example =
    profile_lease_fenced "fab" rebound [] (pos 10) 102 (binding "w1")
      (omega (arith, last_profile_epoch)) (ground (arith, last_profile_epoch))

-- A rival, a renewal, and a call on something else, while `a` leads.
abbrev busy_calls : List Call
busy_calls =
    acquires_leader "b" "host-b" (pos 10) 105
    ∷ renews_leader first (pos 10) 108
    ∷ acquires_task_lease (work "w1") (pos 10) 109
    ∷ []

leader_excludes_example : StillLeads first (serve_all led busy_calls)
leader_excludes_example =
    leader_excludes first led busy_calls refl
      ((apart "b" "a" refl, omega arith), (omega arith, (tt, tt)))

abbrev held : MemoryStore
held = record (new_memory_store "fab") {
  leases = ("r", ("t", work "w1") ∷ []) ∷ [];
  task_lease_epochs = ("r", ("t", 1) ∷ []) ∷ [];
}

held_task : lookup₂ "r" "t" held.leases ≡ some (work "w1")
unfolding program
held_task = refl

abbrev rivals : List Call
rivals =
    acquires_task_lease (work "w2") (pos 10) 105
    ∷ renews_task_lease (work "w1") (pos 10) 106
    ∷ acquires_leader "a" "host-a" (pos 10) 107
    ∷ []

task_lease_excludes_example : StillOwns "r" "t" (work "w1") (serve_all held rivals)
task_lease_excludes_example =
    task_lease_excludes "r" "t" (work "w1") held rivals held_task
      (inr (inr (apart "w2" "w1" refl, omega arith)), (omega arith, (tt, tt)))

abbrev vacant : MemoryStore
vacant = new_memory_store "fab"

abbrev rival : String
rival = "b"

acquire_leader_cases_example :
    (((rival ≡ "") ⊎ (pos 10 ≤ℤ pos 0))
      × Fails vacant (acquire_leader vacant rival "host-b" (pos 10) 100))
    ⊎ (((l : LeaderLease) × HeldByOther vacant rival 100 l
          × (acquire_leader vacant rival "host-b" (pos 10) 100 ≡ (vacant, ok (l, false))))
        ⊎ (IsGranted vacant rival (pos 10) 100 (acquire_leader vacant rival "host-b" (pos 10) 100)
            × ((l : LeaderLease) → ¬ HeldByOther vacant rival 100 l)))
acquire_leader_cases_example = acquire_leader_cases vacant rival "host-b" (pos 10) 100

first_granted : (acquire_leader vacant "a" "host-a" (pos 10) 100).1 ≡ ok (first, true)
unfolding program
first_granted = refl

second_granted :
    (acquire_leader
      (serve_all (acquire_leader vacant "a" "host-a" (pos 10) 100).0 busy_calls)
      "b"
      "host-b"
      (pos 10)
      120).1
    ≡ ok (second, true)
unfolding program
second_granted = refl

no_epoch : vacant.leader_epoch ≡ 0
unfolding program
no_epoch = refl

leader_epochs_grow_example : first.epoch < second.epoch
leader_epochs_grow_example =
    leader_epochs_grow vacant busy_calls "a" "host-a" "b" "host-b" (pos 10) (pos 10) 100 120 first
      second (ground (arith, no_epoch)) first_granted second_granted

abbrev machine : Node
machine = record {
  id = "n";
  address = "host-n";
  state = NodeState.unavailable;
  labels = [];
  bundle_digest = "";
  profile_digests = [];
  capacity = record { max_instances = pos 0; max_tasks = pos 0 };
  started_at = 1;
  last_heartbeat_at = 1;
}

abbrev worker : AgentInstance
worker = record {
  id = "i";
  profile = "developer";
  node_id = "n";
  bundle_digest = "";
  profile_digest = "";
  endpoint = record { address = "host-i"; local = false };
  state = InstanceState.ready;
  started_at = 1;
  last_heartbeat_at = 1;
}

abbrev joined : MemoryStore
joined = record vacant { nodes = ("n", machine) ∷ []; instances = ("i", worker) ∷ [] }

joined_node : lookup "n" joined.nodes ≡ some machine
unfolding program
joined_node = refl

heartbeat_decides_example :
    (n : Node) × ((get_node (heartbeat_node joined "n" 50 60 60).0 "n" 100).1 ≡ some n)
    × (n.last_heartbeat_at ≡ 50)
    × (node_is_unavailable n.state ≡ ltb (50 + node_heartbeat_ttl) 100)
heartbeat_decides_example =
    heartbeat_decides joined "n" machine 50 60 60 100 (apart "n" "" refl) (ground arith) joined_node

lost :
    lookup "i" (normalize joined 2).instances
    ≡ some (record worker { state = InstanceState.unavailable })
unfolding program
lost = refl

lost_node : lookup "n" (normalize joined 2).nodes ≡ some machine
unfolding program
lost_node = refl

instance_goes_with_node_example : instance_is_unavailable InstanceState.unavailable ≡ true
instance_goes_with_node_example =
    instance_goes_with_node joined 2 "i" (record worker { state = InstanceState.unavailable })
      machine lost lost_node refl

normalize-idempotent_example : normalize (normalize joined 2) 2 ≡ normalize joined 2
normalize-idempotent_example = normalize-idempotent joined 2

abbrev asked_for : InstanceFilter
asked_for = record { profile = "developer"; node_id = ""; state = InstanceState.unset }

list_instances-In_example : In worker (list_instances joined asked_for 2).1 ↔ (
    In worker (values (normalize joined 2).instances)
    × Allows asked_for.profile worker.profile
    × Allows asked_for.node_id worker.node_id
    × Allows (state_code asked_for.state) (state_code worker.state))
list_instances-In_example = list_instances-In joined asked_for 2 worker

abbrev request : RequestRecord
request = record {
  id = "r";
  state = RequestState.running;
  user_request = "build it";
  graph_version = pos 1;
  leader_id = "a";
  created_at = 7;
  updated_at = 7;
}

abbrev asked : MemoryStore
asked = record vacant { requests = ("r", request) ∷ [] }

request_there : get_request asked "r" ≡ some request
unfolding program
request_there = refl

-- An update without a time of creation, and another request.
abbrev updates : List Call
updates =
    upserts_request (record request { state = RequestState.completed; created_at = 0 }) 9
    ∷ upserts_request (record request { id = "q" }) 10
    ∷ []

created_at_stays_example : CreatedAt "r" 7 (serve_all asked updates)
created_at_stays_example =
    created_at_stays "r" request asked updates request_there
      (inr refl, (inl (apart "q" "r" refl), tt))

abbrev leased : MemoryStore
leased = record vacant {
  profile_leases = ("developer", binding "w1") ∷ [];
  profile_epochs = ("developer", 1) ∷ [];
}

-- A rival and a renewal.
abbrev bids : List Call
bids =
    acquires_profile_lease (binding "w2") (pos 10) 105
    ∷ renews_profile_lease (binding "w1") (pos 10) 106
    ∷ []
