-- ===== src/ControlPlane/FileStore/Calls.antt =====
-- The calls that the stores of internal/controlplane/interfaces.go serve, what they answer, and the
-- histories of internal/controlplane/memory.go and file.go.
use agentfab.Prelude.{
  String, List, [], ◌∷◌, Bool, true, false, if◌then◌else◌, lookup, is_err, Option, none, some,
  Result, ok, err,
}
use agentfab.ControlPlane.{
  Node, AgentInstance, AttestedNodeRecord, LeaderLease, RequestRecord, TaskRecord, TaskLease,
  ProfileLease,
}
use agentfab.ControlPlane.Memory.{MemoryStore, StoreError}
use agentfab.ControlPlane.Memory.Leader
use agentfab.ControlPlane.Memory.Members
use agentfab.ControlPlane.Memory.Records
use agentfab.ControlPlane.Memory.ProfileLeases
use agentfab.ControlPlane.Memory.TaskLeases
use agentfab.ControlPlane.Memory.Steps.{
  Call, acquires_leader, renews_leader, gets_leader, releases_leader, upserts_attested_node,
  registers_node, heartbeats_node, gets_node, lists_nodes, registers_instance, heartbeats_instance,
  gets_instance, lists_instances, removes_instance, upserts_request, upserts_task,
  acquires_profile_lease, renews_profile_lease, gets_profile_lease, releases_profile_lease,
  acquires_task_lease, renews_task_lease, gets_task_lease, releases_task_lease, serve,
}
use agentfab.ControlPlane.FileStore.{Json, World, FileMethod, refused, Faults}
use agentfab.ControlPlane.FileStore.Leases.{read_in}
use agentfab.ControlPlane.FileStore.Leases as FileLeases
use agentfab.ControlPlane.FileStore.Members as FileMembers
use agentfab.ControlPlane.FileStore.Records as FileRecords

-- A method that may write, or one that only reads.
pub data Operation : Type 0 where
  calls : Call → Operation
  gets_attested_node gets_request lists_tasks : String → Operation
  lists_requests : Operation

-- What a method returns, by its type.
pub data Answer : Type 0 where
  finished : Result StoreError (Unit {0}) → Answer
  leader_taken : Result StoreError (LeaderLease × Bool) → Answer
  leader_renewed : Result StoreError LeaderLease → Answer
  leader_found : Result StoreError (Option LeaderLease) → Answer
  node_found : Result StoreError (Option Node) → Answer
  nodes_listed : Result StoreError (List Node) → Answer
  instance_found : Result StoreError (Option AgentInstance) → Answer
  instances_listed : Result StoreError (List AgentInstance) → Answer
  profile_taken : Result StoreError (ProfileLease × Bool) → Answer
  profile_renewed : Result StoreError ProfileLease → Answer
  profile_found : Result StoreError (Option ProfileLease) → Answer
  task_taken : Result StoreError (TaskLease × Bool) → Answer
  task_renewed : Result StoreError TaskLease → Answer
  task_found : Result StoreError (Option TaskLease) → Answer
  attested_found : Result StoreError (Option AttestedNodeRecord) → Answer
  request_found : Result StoreError (Option RequestRecord) → Answer
  requests_listed : Result StoreError (List RequestRecord) → Answer
  tasks_listed : Result StoreError (List TaskRecord) → Answer

unfoldable pub memory_answer : MemoryStore → Operation → Answer
memory_answer s (calls (acquires_leader candidate address ttl now)) =
    leader_taken (Leader.acquire_leader s candidate address ttl now).1
memory_answer s (calls (renews_leader l ttl now)) =
    leader_renewed (Leader.renew_leader s l ttl now).1
memory_answer s (calls (gets_leader now)) = leader_found (Leader.get_leader s now).1
memory_answer s (calls (releases_leader l)) = finished (ok tt)
memory_answer s (calls (upserts_attested_node r)) = finished (Records.upsert_attested_node s r).1
memory_answer s (calls (registers_node n start now)) =
    finished (Members.register_node s n start now).1
memory_answer s (calls (heartbeats_node id given read now)) =
    finished (Members.heartbeat_node s id given read now).1
memory_answer s (calls (gets_node id now)) = node_found (ok (Members.get_node s id now).1)
memory_answer s (calls (lists_nodes now)) = nodes_listed (ok (Members.list_nodes s now).1)
memory_answer s (calls (registers_instance i start now)) =
    finished (Members.register_instance s i start now).1
memory_answer s (calls (heartbeats_instance id given read now)) =
    finished (Members.heartbeat_instance s id given read now).1
memory_answer s (calls (gets_instance id now)) =
    instance_found (ok (Members.get_instance s id now).1)
memory_answer s (calls (lists_instances f now)) =
    instances_listed (ok (Members.list_instances s f now).1)
memory_answer s (calls (removes_instance id)) = finished (ok tt)
memory_answer s (calls (upserts_request r now)) = finished (Records.upsert_request s r now).1
memory_answer s (calls (upserts_task t now)) = finished (Records.upsert_task s t now).1
memory_answer s (calls (acquires_profile_lease l ttl now)) =
    profile_taken (ProfileLeases.acquire_profile_lease s l ttl now).1
memory_answer s (calls (renews_profile_lease l ttl now)) =
    profile_renewed (ProfileLeases.renew_profile_lease s l ttl now).1
memory_answer s (calls (gets_profile_lease profile now)) =
    profile_found (ok (ProfileLeases.get_profile_lease s profile now).1)
memory_answer s (calls (releases_profile_lease l)) = finished (ok tt)
memory_answer s (calls (acquires_task_lease l ttl now)) =
    task_taken (TaskLeases.acquire_task_lease s l ttl now).1
memory_answer s (calls (renews_task_lease l ttl now)) =
    task_renewed (TaskLeases.renew_task_lease s l ttl now).1
memory_answer s (calls (gets_task_lease r t now)) =
    task_found (ok (TaskLeases.get_task_lease s r t now).1)
memory_answer s (calls (releases_task_lease l)) = finished (ok tt)
memory_answer s (gets_attested_node id) = attested_found (ok (Records.get_attested_node s id))
memory_answer s (gets_request id) = request_found (ok (Records.get_request s id))
memory_answer s (lists_tasks id) = tasks_listed (ok (Records.list_tasks s id))
memory_answer s lists_requests = requests_listed (ok (Records.list_requests s))

unfoldable pub memory_next : MemoryStore → Operation → MemoryStore
memory_next s (calls c) = serve s c
memory_next s (gets_attested_node id) = s
memory_next s (gets_request id) = s
memory_next s (lists_tasks id) = s
memory_next s lists_requests = s

unfoldable pub memory_answers : MemoryStore → List Operation → List Answer
memory_answers s [] = []
memory_answers s (o ∷ os) = memory_answer s o ∷ memory_answers (memory_next s o) os

-- Where the file is not written.
abbrev only_reads : Operation → Bool
only_reads (calls (gets_node _ _)) = true
only_reads (calls (lists_nodes _)) = true
only_reads (calls (gets_instance _ _)) = true
only_reads (calls (lists_instances _ _)) = true
only_reads (calls c) = false
only_reads o = true

abbrev pub is_failure : Answer → Bool
is_failure (finished r) = is_err r
is_failure (leader_taken r) = is_err r
is_failure (leader_renewed r) = is_err r
is_failure (leader_found r) = is_err r
is_failure (node_found r) = is_err r
is_failure (nodes_listed r) = is_err r
is_failure (instance_found r) = is_err r
is_failure (instances_listed r) = is_err r
is_failure (profile_taken r) = is_err r
is_failure (profile_renewed r) = is_err r
is_failure (profile_found r) = is_err r
is_failure (task_taken r) = is_err r
is_failure (task_renewed r) = is_err r
is_failure (task_found r) = is_err r
is_failure (attested_found r) = is_err r
is_failure (request_found r) = is_err r
is_failure (requests_listed r) = is_err r
is_failure (tasks_listed r) = is_err r

-- The one state that all the processes share: a call that fails or only reads leaves it, and a call of
-- `GetTaskLease` drops a map that it has emptied.
abbrev written : MemoryStore → Operation → MemoryStore
written d (calls (gets_task_lease r t now)) = (read_in d r t now (lookup r d.leases)).0
written d o = memory_next d o

unfoldable pub shared_next : MemoryStore → Operation → MemoryStore
unfolding memory_answer memory_next
shared_next d o =
    if only_reads o then d else if is_failure (memory_answer d o) then d else written d o

-- Each process's store answers as one store in memory would on the shared state.
unfoldable pub shared_answers : MemoryStore → List Operation → List Answer
shared_answers d [] = []
shared_answers d (o ∷ os) = memory_answer d o ∷ shared_answers (shared_next d o) os

module _ (j : Json) where
  -- No answer where the system failed.
  abbrev pub settled :
      {A : Type 0} → (Result StoreError A → Answer) → FileMethod j A → World j × Option Answer
  settled f (w, ok a) = (w, some (f (ok a)))
  settled f (w, err (refused e)) = (w, some (f (err e)))
  settled f (w, err e) = (w, none)

  unfoldable pub file_step : Faults → World j → Operation → World j × Option Answer
  file_step io w (calls (acquires_leader candidate address ttl now)) =
      settled leader_taken (FileLeases.acquire_leader j io candidate address ttl now w)
  file_step io w (calls (renews_leader l ttl now)) =
      settled leader_renewed (FileLeases.renew_leader j io l ttl now w)
  file_step io w (calls (gets_leader now)) = settled leader_found (FileLeases.get_leader j io now w)
  file_step io w (calls (releases_leader l)) = settled finished (FileLeases.release_leader j io l w)
  file_step io w (calls (upserts_attested_node r)) =
      settled finished (FileRecords.upsert_attested_node j io r w)
  file_step io w (calls (registers_node n start now)) =
      settled finished (FileMembers.register_node j io n start now w)
  file_step io w (calls (heartbeats_node id given read now)) =
      settled finished (FileMembers.heartbeat_node j io id given read now w)
  file_step io w (calls (gets_node id now)) =
      settled node_found (FileMembers.get_node j io id now w)
  file_step io w (calls (lists_nodes now)) =
      settled nodes_listed (FileMembers.list_nodes j io now w)
  file_step io w (calls (registers_instance i start now)) =
      settled finished (FileMembers.register_instance j io i start now w)
  file_step io w (calls (heartbeats_instance id given read now)) =
      settled finished (FileMembers.heartbeat_instance j io id given read now w)
  file_step io w (calls (gets_instance id now)) =
      settled instance_found (FileMembers.get_instance j io id now w)
  file_step io w (calls (lists_instances f now)) =
      settled instances_listed (FileMembers.list_instances j io f now w)
  file_step io w (calls (removes_instance id)) =
      settled finished (FileMembers.remove_instance j io id w)
  file_step io w (calls (upserts_request r now)) =
      settled finished (FileRecords.upsert_request j io r now w)
  file_step io w (calls (upserts_task t now)) =
      settled finished (FileRecords.upsert_task j io t now w)
  file_step io w (calls (acquires_profile_lease l ttl now)) =
      settled profile_taken (FileLeases.acquire_profile_lease j io l ttl now w)
  file_step io w (calls (renews_profile_lease l ttl now)) =
      settled profile_renewed (FileLeases.renew_profile_lease j io l ttl now w)
  file_step io w (calls (gets_profile_lease profile now)) =
      settled profile_found (FileLeases.get_profile_lease j io profile now w)
  file_step io w (calls (releases_profile_lease l)) =
      settled finished (FileLeases.release_profile_lease j io l w)
  file_step io w (calls (acquires_task_lease l ttl now)) =
      settled task_taken (FileLeases.acquire_task_lease j io l ttl now w)
  file_step io w (calls (renews_task_lease l ttl now)) =
      settled task_renewed (FileLeases.renew_task_lease j io l ttl now w)
  file_step io w (calls (gets_task_lease r t now)) =
      settled task_found (FileLeases.get_task_lease j io r t now w)
  file_step io w (calls (releases_task_lease l)) =
      settled finished (FileLeases.release_task_lease j io l w)
  file_step io w (gets_attested_node id) =
      settled attested_found (FileRecords.get_attested_node j io id w)
  file_step io w (gets_request id) = settled request_found (FileRecords.get_request j io id w)
  file_step io w (lists_tasks id) = settled tasks_listed (FileRecords.list_tasks j io id w)
  file_step io w lists_requests = settled requests_listed (FileRecords.list_requests j io w)

  -- A history on one file: each call is made on the store of its process, as that store is then.
  unfoldable pub file_answers :
      Option j.Bytes → List (MemoryStore × Operation) → List (Option Answer)
  file_answers file [] = []
  file_answers file ((s, o) ∷ rest) =
      let (w, a) = file_step (λ _. false) (record { store = s; file = file }) o in
      a ∷ file_answers w.file rest
