-- ===== src/ControlPlane/Liveness.antt =====
-- internal/controlplane/liveness.go through the methods of internal/controlplane/memory.go: who has
-- been heard of is available, who has not is not, and an instance goes with its node.
use agentfab.Prelude.{
  ℕ, ◌+◌, String, [], ◌∷◌, true, false, eq_iff, ltb, ◌≡◌, ◌≢◌, refl, ap, ◌∙◌, inl, inr, some, Table,
  lookup, insert, update_all, lookup-insert, lookup-update_all, arith, Option-cases,
}
use agentfab.ControlPlane.{
  Node, AgentInstance, node_heartbeat_ttl, node_is_unavailable, instance_is_unavailable,
  node_heartbeat_expired, instance_heartbeat_expired, refresh_node, refresh_instance,
  normalize_nodes, normalize_instances,
}
use agentfab.ControlPlane.Memory.{MemoryStore}
use agentfab.ControlPlane.Memory.Members.{
  normalize, heartbeat_node, beat_node, get_node, clone_node,
}

-- What a node's state says after a heartbeat and then a reading.
beat-refresh :
    (node : Node) (at later : ℕ)
    → at ≢ 0
    → (refresh_node later (beat_node node at)).last_heartbeat_at ≡ at
unfolding refresh_node beat_node
beat-refresh node at later h = ground arith

beat-available : (node : Node) (at : ℕ) → node_is_unavailable (beat_node node at).state ≡ false
unfolding beat_node
beat-available node at = ground arith

refresh-decides :
    (node : Node) (later : ℕ)
    → node_is_unavailable node.state ≡ false
    → node.last_heartbeat_at ≢ 0
    → node_is_unavailable (refresh_node later node).state
      ≡ ltb (node.last_heartbeat_at + node_heartbeat_ttl) later
unfolding refresh_node node_heartbeat_expired
refresh-decides node later up beaten = ground arith

-- A heartbeat for a node of the store with an ID, at a time `given` that is not the zero time,
-- decides how the node is seen: a later look finds it with that time, and finds it unavailable
-- exactly if more than the heartbeat limit has passed since `given`.
pub heartbeat_decides :
    (s : MemoryStore) (id : String) (node : Node) (given read now later : ℕ)
    → id ≢ ""
    → given ≢ 0
    → lookup id s.nodes ≡ some node
    → (n : Node) × ((get_node (heartbeat_node s id given read now).0 id later).1 ≡ some n)
      × (n.last_heartbeat_at ≡ given)
      × (node_is_unavailable n.state ≡ ltb (given + node_heartbeat_ttl) later)
unfolding heartbeat_node get_node normalize normalize_nodes clone_node
heartbeat_decides s id node given read now later named timed found =
    let beaten = beat_node (refresh_node now node) given in
    (
      clone_node (refresh_node later beaten),
      ground (
        arith,
        eq_iff id "",
        eq_iff id id,
        lookup-update_all (refresh_node now) id s.nodes,
        lookup-insert id id beaten (update_all (refresh_node now) s.nodes),
        lookup-update_all (refresh_node later) id
            (insert id beaten (update_all (refresh_node now) s.nodes)),
      ),
      beat-refresh (refresh_node now node) given later timed,
      refresh-decides beaten later (beat-available (refresh_node now node) given) timed,
    )

on_unavailable-refresh :
    (nodes : Table Node) (node : Node) (now : ℕ) (i : AgentInstance)
    → lookup i.node_id nodes ≡ some node
    → node_is_unavailable node.state ≡ true
    → instance_is_unavailable (refresh_instance nodes now i).state ≡ true
unfolding refresh_instance instance_heartbeat_expired
on_unavailable-refresh nodes node now i e gone = ground arith

refresh-node_id :
    (nodes : Table Node) (now : ℕ) (i : AgentInstance)
    → (refresh_instance nodes now i).node_id ≡ i.node_id
unfolding refresh_instance
refresh-node_id nodes now i = ground arith

-- After the marking that starts the methods on members but RemoveInstance, no instance outlives its node: an instance
-- whose node is there and unavailable is unavailable.
pub instance_goes_with_node :
    (s : MemoryStore) (now : ℕ) (id : String) (i : AgentInstance) (node : Node)
    → lookup id (normalize s now).instances ≡ some i
    → lookup i.node_id (normalize s now).nodes ≡ some node
    → node_is_unavailable node.state ≡ true
    → instance_is_unavailable i.state ≡ true
unfolding normalize normalize_instances
instance_goes_with_node s now id i node found on gone =
    elim (Option-cases (lookup id s.instances)) [
      | inl e ↦ ground (
        arith,
        lookup-update_all (refresh_instance (normalize_nodes now s.nodes) now) id s.instances,
      )
      | inr (raw, e) ↦ ground (
        arith,
        lookup-update_all (refresh_instance (normalize_nodes now s.nodes) now) id s.instances,
        refresh-node_id (normalize_nodes now s.nodes) now raw,
        on_unavailable-refresh (normalize_nodes now s.nodes) node now raw,
      )
    ]

refresh_node-idempotent :
    (now : ℕ) (node : Node) → refresh_node now (refresh_node now node) ≡ refresh_node now node
unfolding refresh_node node_heartbeat_expired
refresh_node-idempotent now node = ground arith

refresh_instance-idempotent :
    (nodes : Table Node) (now : ℕ) (i : AgentInstance)
    → refresh_instance nodes now (refresh_instance nodes now i) ≡ refresh_instance nodes now i
unfolding refresh_instance instance_heartbeat_expired
refresh_instance-idempotent nodes now i = ground arith

update_all-idempotent {ℓ} :
    {V : Type ℓ}
    → (f : V → V) → ((v : V) → f (f v) ≡ f v)
    → (m : Table V) → update_all f (update_all f m) ≡ update_all f m
unfolding update_all
update_all-idempotent f h [] = refl
update_all-idempotent f h ((k, v) ∷ m) = ground (arith, h v, update_all-idempotent f h m)

-- Marking the nodes and instances that were not heard of twice at one time is marking them once.
pub normalize-idempotent :
    (s : MemoryStore) (now : ℕ) → normalize (normalize s now) now ≡ normalize s now
unfolding normalize normalize_nodes normalize_instances
normalize-idempotent s now =
    let nodes = normalize_nodes now s.nodes in
    let instances = normalize_instances now s.nodes s.instances in
    ap (λ ns. record s { nodes = ns; instances = update_all (refresh_instance ns now) instances })
      (update_all-idempotent (refresh_node now) (refresh_node-idempotent now) s.nodes)
    ∙ ap (λ is. record s { nodes = nodes; instances = is })
        (update_all-idempotent (refresh_instance nodes now) (refresh_instance-idempotent nodes now)
          s.instances)
