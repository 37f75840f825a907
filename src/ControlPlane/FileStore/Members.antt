-- ===== src/ControlPlane/FileStore/Members.antt =====
-- The nodes and instances of internal/controlplane/file.go. A reading marks what was not heard of in the
-- state that it loaded, and does not write the marks back.
use agentfab.Prelude.{
  ℕ, String, List, map, ◌==◌, if◌then◌else◌, Option, none, some, lookup, insert, delete, values,
  sort_by, select, ok,
}
use agentfab.ControlPlane.{Node, AgentInstance, InstanceFilter}
use agentfab.ControlPlane.Memory.{node_id_required, instance_id_required, instance_profile_required}
use agentfab.ControlPlane.Memory.Members.{
  normalize, clone_node, complete_node, complete_instance, with_node, with_instance, or_time,
  clone_found, matches,
}
use agentfab.ControlPlane.FileStore.{Json, World, FileMethod, Faults, with_state, change}

module _ (j : Json) (io : Faults) where
  unfoldable pub register_node : Node → ℕ → ℕ → World j → FileMethod j (Unit {0})
  register_node node start now w =
      change j io (if node.id == "" then some node_id_required else none)
        (λ s.
          let t = normalize s now in
          (
            record t { nodes = insert node.id (clone_node (complete_node node start)) t.nodes },
            ok tt,
          ))
        w

  unfoldable pub heartbeat_node : String → ℕ → ℕ → ℕ → World j → FileMethod j (Unit {0})
  heartbeat_node id given read now w =
      change j io (if id == "" then some node_id_required else none)
        (λ s. let t = normalize s now in with_node t id (or_time given read) (lookup id t.nodes)) w

  unfoldable pub get_node : String → ℕ → World j → FileMethod j (Option Node)
  get_node id now w =
      with_state j io (λ s. let t = normalize s now in (t, ok (clone_found (lookup id t.nodes)))) w

  unfoldable pub list_nodes : ℕ → World j → FileMethod j (List Node)
  list_nodes now w =
      with_state j io
        (λ s.
          let t = normalize s now in
          (t, ok (sort_by (λ n. n.id) (map clone_node (values t.nodes)))))
        w

  unfoldable pub register_instance : AgentInstance → ℕ → ℕ → World j → FileMethod j (Unit {0})
  register_instance i start now w =
      change j io
        (if i.id == ""
          then some instance_id_required
          else if i.profile == ""
          then some instance_profile_required
          else none)
        (λ s.
          let t = normalize s now in
          (record t { instances = insert i.id (complete_instance i start) t.instances }, ok tt))
        w

  unfoldable pub heartbeat_instance : String → ℕ → ℕ → ℕ → World j → FileMethod j (Unit {0})
  heartbeat_instance id given read now w =
      change j io (if id == "" then some instance_id_required else none)
        (λ s.
          let t = normalize s now in
          with_instance t id (or_time given read) (lookup id t.instances))
        w

  unfoldable pub get_instance : String → ℕ → World j → FileMethod j (Option AgentInstance)
  get_instance id now w =
      with_state j io (λ s. let t = normalize s now in (t, ok (lookup id t.instances))) w

  unfoldable pub list_instances : InstanceFilter → ℕ → World j → FileMethod j (List AgentInstance)
  list_instances f now w =
      with_state j io
        (λ s.
          let t = normalize s now in
          (t, ok (sort_by (λ i. i.id) (select (matches f) (values t.instances)))))
        w

  unfoldable pub remove_instance : String → World j → FileMethod j (Unit {0})
  remove_instance id w =
      change j io none (λ s. (record s { instances = delete id s.instances }, ok tt)) w
