-- ===== src/ControlPlane/FileStore/Records.antt =====
-- The attested nodes, requests and tasks of internal/controlplane/file.go.
use agentfab.Prelude.{
  ℕ, String, List, [], ◌==◌, if◌then◌else◌, nat_eq, Option, none, some, lookup, insert, or_zero,
  values, sort_by, ok,
}
use agentfab.ControlPlane.{AttestedNodeRecord, RequestRecord, TaskRecord}
use agentfab.ControlPlane.Memory.{
  attested_node_id_required, request_id_required, task_request_id_required, task_id_required,
}
use agentfab.ControlPlane.Memory.Members.{clone_attested_node_record}
use agentfab.ControlPlane.Memory.Records.{clone_attested, created}
use agentfab.ControlPlane.FileStore.{Json, World, FileMethod, Faults, with_state, change}

module _ (j : Json) (io : Faults) where
  unfoldable pub upsert_attested_node : AttestedNodeRecord → World j → FileMethod j (Unit {0})
  upsert_attested_node r w =
      change j io (if r.node_id == "" then some attested_node_id_required else none)
        (λ s. (
          record s {
            attested_nodes = insert r.node_id (clone_attested_node_record r) s.attested_nodes;
          },
          ok tt,
        ))
        w

  unfoldable pub get_attested_node : String → World j → FileMethod j (Option AttestedNodeRecord)
  get_attested_node id w =
      with_state j io (λ s. (s, ok (clone_attested (lookup id s.attested_nodes)))) w

  unfoldable pub upsert_request : RequestRecord → ℕ → World j → FileMethod j (Unit {0})
  upsert_request r now w =
      change j io (if r.id == "" then some request_id_required else none)
        (λ s.
          let time =
            if nat_eq r.created_at 0 then created (lookup r.id s.requests) now else r.created_at in
          (
            record s {
              requests = insert r.id (record r { created_at = time; updated_at = now }) s.requests;
            },
            ok tt,
          ))
        w

  unfoldable pub get_request : String → World j → FileMethod j (Option RequestRecord)
  get_request id w = with_state j io (λ s. (s, ok (lookup id s.requests))) w

  unfoldable pub list_requests : World j → FileMethod j (List RequestRecord)
  list_requests w = with_state j io (λ s. (s, ok (sort_by (λ r. r.id) (values s.requests)))) w

  unfoldable pub upsert_task : TaskRecord → ℕ → World j → FileMethod j (Unit {0})
  upsert_task t now w =
      change j io
        (if t.request_id == ""
          then some task_request_id_required
          else if t.task_id == ""
          then some task_id_required
          else none)
        (λ s.
          let of_request = or_zero [] (lookup t.request_id s.tasks) in
          let tasks = insert t.task_id (record t { updated_at = now }) of_request in
          (record s { tasks = insert t.request_id tasks s.tasks }, ok tt))
        w

  unfoldable pub list_tasks : String → World j → FileMethod j (List TaskRecord)
  list_tasks request_id w =
      with_state j io
        (λ s. (s, ok (sort_by (λ t. t.task_id) (values (or_zero [] (lookup request_id s.tasks))))))
        w
