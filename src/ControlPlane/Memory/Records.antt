-- ===== src/ControlPlane/Memory/Records.antt =====
-- The attested nodes, requests and tasks of internal/controlplane/memory.go.
use agentfab.Prelude.{
  ℕ, String, List, [], ◌==◌, if◌then◌else◌, nat_eq, Option, none, some, lookup, insert, or_zero,
  values, sort_by, ok, err,
}
use agentfab.ControlPlane.{AttestedNodeRecord, RequestRecord, TaskRecord}
use agentfab.ControlPlane.Memory.{
  MemoryStore, Method, attested_node_id_required, request_id_required, task_request_id_required,
  task_id_required,
}
use agentfab.ControlPlane.Memory.Members.{clone_attested_node_record}

unfoldable pub upsert_attested_node : MemoryStore → AttestedNodeRecord → Method (Unit {0})
unfolding clone_attested_node_record
upsert_attested_node s r = if r.node_id == "" then (s, err attested_node_id_required) else (
  record s { attested_nodes = insert r.node_id (clone_attested_node_record r) s.attested_nodes },
  ok tt,
)

abbrev pub clone_attested : Option AttestedNodeRecord → Option AttestedNodeRecord
clone_attested none = none
clone_attested (some r) = some (clone_attested_node_record r)

unfoldable pub get_attested_node : MemoryStore → String → Option AttestedNodeRecord
unfolding clone_attested_node_record
get_attested_node s id = clone_attested (lookup id s.attested_nodes)

-- A request without a time of creation keeps that of the record before it.
abbrev pub created : Option RequestRecord → ℕ → ℕ
created none now = now
created (some old) now = old.created_at

unfoldable pub upsert_request : MemoryStore → RequestRecord → ℕ → Method (Unit {0})
upsert_request s r now = if r.id == "" then (s, err request_id_required) else (
  record s {
    requests =
        insert r.id
          (record r {
            created_at =
                if nat_eq r.created_at 0
                then created (lookup r.id s.requests) now
                else r.created_at;
            updated_at = now;
          })
          s.requests;
  },
  ok tt,
)

unfoldable pub get_request : MemoryStore → String → Option RequestRecord
get_request s id = lookup id s.requests

unfoldable pub list_requests : MemoryStore → List RequestRecord
list_requests s = sort_by (λ r. r.id) (values s.requests)

unfoldable pub upsert_task : MemoryStore → TaskRecord → ℕ → Method (Unit {0})
upsert_task s t now =
    if t.request_id == ""
    then (s, err task_request_id_required)
    else if t.task_id == ""
    then (s, err task_id_required)
    else let of_request = or_zero [] (lookup t.request_id s.tasks) in
      (
        record s {
          tasks =
              insert t.request_id (insert t.task_id (record t { updated_at = now }) of_request)
                s.tasks;
        },
        ok tt,
      )

unfoldable pub list_tasks : MemoryStore → String → List TaskRecord
list_tasks s request_id = sort_by (λ t. t.task_id) (values (or_zero [] (lookup request_id s.tasks)))
