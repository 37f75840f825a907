-- ===== src/Placement/Choice/Routable.antt =====
-- What internal/conductor/scheduler.go asks of an instance that a task may run on.
use agentfab.Prelude.{
  String, false, Option, none, [], ◌∷◌, true, eq_iff, ◌≡◌, ◌≢◌, refl, ap, ◌⊎◌, inl, inr, some,
  Table, lookup, or_zero, In, arith,
}
use agentfab.Prelude.Int.{ℤ, pos, ◌<ℤ◌}
use agentfab.Loop.{is_empty}
use agentfab.TaskGraph.{TaskNode, target_profile}
use agentfab.ControlPlane.{Node, NodeState, AgentInstance, InstanceState}
use agentfab.Placement.{
  Scheduler, agent_definition, node_load, is_schedulable_instance_state, is_schedulable_node_state,
  has_labels, is_eligible_node, node_at_capacity,
}
use agentfab.Placement.Choice.{is_candidate}

-- What a node is like that a task may go to.
abbrev pub Takes : Scheduler → TaskNode → Node → ℤ → Type 0
Takes s task n load =
    ((n.state ≡ NodeState.ready) ⊎ (n.state ≡ NodeState.degraded))
    × ((key value : String)
        → In (key, value) (agent_definition s (target_profile task)).required_node_labels
        → or_zero "" (lookup key n.labels) ≡ value)
    × (pos 0 <ℤ n.capacity.max_tasks → load <ℤ n.capacity.max_tasks)

-- The same, where the node is not known: the agent may not ask for labels.
abbrev pub Admits : Scheduler → TaskNode → Option Node → ℤ → Type 0
Admits s task none load = (agent_definition s (target_profile task)).required_node_labels ≡ []
Admits s task (some n) load = Takes s task n load

-- An instance, on that node, that can take the task.
abbrev pub Routable : Scheduler → TaskNode → Option Node → AgentInstance → Type 0
Routable s task node i =
    ((i.state ≡ InstanceState.ready) ⊎ (i.state ≡ InstanceState.busy))
    × (i.endpoint.address ≢ "")
    × Admits s task node (node_load s i.node_id)

has_labels-In :
    (labels : Table String) (n : Node) (key value : String)
    → has_labels labels n ≡ true
    → In (key, value) labels
    → or_zero "" (lookup key n.labels) ≡ value
unfolding has_labels
has_labels-In [] n key value h m = elim m [ ]
has_labels-In ((k, v) ∷ rest) n key value h (inl e) = ground (
  arith,
  h,
  eq_iff (or_zero "" (lookup k n.labels)) v,
  ap (λ (q : String × String). q.0) e,
  ap (λ (q : String × String). q.1) e,
)
has_labels-In ((k, v) ∷ rest) n key value h (inr m) =
    has_labels-In rest n key value (ground (arith, h)) m

empty_list : (labels : Table String) → is_empty labels ≡ true → labels ≡ []
empty_list [] h = refl
empty_list (x ∷ xs) h = absurd (cc h)

In-has_labels :
    (labels : Table String) (n : Node)
    → ((key value : String) → In (key, value) labels → or_zero "" (lookup key n.labels) ≡ value)
    → has_labels labels n ≡ true
unfolding has_labels
In-has_labels [] n h = refl
In-has_labels ((k, v) ∷ rest) n h =
    let others = In-has_labels rest n (λ key value m. h key value (inr m)) in
    ground (arith, others, eq_iff (or_zero "" (lookup k n.labels)) v, h k v (inl refl))

schedulable :
    (st : InstanceState)
    → is_schedulable_instance_state st ≡ true
    → (st ≡ InstanceState.ready) ⊎ (st ≡ InstanceState.busy)
unfolding is_schedulable_instance_state
schedulable InstanceState.ready h = inl refl
schedulable InstanceState.busy h = inr refl
schedulable InstanceState.unset h = absurd (cc h)
schedulable InstanceState.unknown h = absurd (cc h)
schedulable InstanceState.starting h = absurd (cc h)
schedulable InstanceState.draining h = absurd (cc h)
schedulable InstanceState.unavailable h = absurd (cc h)
schedulable (InstanceState.other x) h = absurd (cc h)

schedulable_node :
    (st : NodeState)
    → is_schedulable_node_state st ≡ true
    → (st ≡ NodeState.ready) ⊎ (st ≡ NodeState.degraded)
unfolding is_schedulable_node_state
schedulable_node NodeState.ready h = inl refl
schedulable_node NodeState.degraded h = inr refl
schedulable_node NodeState.unset h = absurd (cc h)
schedulable_node NodeState.unknown h = absurd (cc h)
schedulable_node NodeState.draining h = absurd (cc h)
schedulable_node NodeState.unavailable h = absurd (cc h)
schedulable_node (NodeState.other x) h = absurd (cc h)

state-schedulable :
    (st : InstanceState)
    → (st ≡ InstanceState.ready) ⊎ (st ≡ InstanceState.busy)
    → is_schedulable_instance_state st ≡ true
unfolding is_schedulable_instance_state
state-schedulable st (inl e) = rw e refl
state-schedulable st (inr e) = rw e refl

state-schedulable_node :
    (st : NodeState)
    → (st ≡ NodeState.ready) ⊎ (st ≡ NodeState.degraded)
    → is_schedulable_node_state st ≡ true
unfolding is_schedulable_node_state
state-schedulable_node st (inl e) = rw e refl
state-schedulable_node st (inr e) = rw e refl

module _ (s : Scheduler) (task : TaskNode) (load : ℤ) where
  -- The two tests on a node.
  node_passes-Admits :
      (node : Option Node)
      → is_eligible_node (agent_definition s (target_profile task)) node ≡ true
      → node_at_capacity node load ≡ false
      → Admits s task node load
  unfolding is_eligible_node node_at_capacity
  node_passes-Admits none eligible free =
      empty_list (agent_definition s (target_profile task)).required_node_labels eligible
  node_passes-Admits (some n) eligible free =
      let labels = (agent_definition s (target_profile task)).required_node_labels in
      (
        schedulable_node n.state (ground (arith, eligible)),
        λ key value m. has_labels-In labels n key value (ground (arith, eligible)) m,
        λ limited. ground (arith, free),
      )

  Admits-node_passes :
      (node : Option Node)
      → Admits s task node load
      → (is_eligible_node (agent_definition s (target_profile task)) node ≡ true)
        × (node_at_capacity node load ≡ false)
  unfolding is_eligible_node node_at_capacity
  Admits-node_passes none h = (rw h refl, refl)
  Admits-node_passes (some n) (state, labels, free) = (
    ground (
      arith,
      state-schedulable_node n.state state,
      In-has_labels (agent_definition s (target_profile task)).required_node_labels n labels,
    ),
    ground (arith, free),
  )

module _ (s : Scheduler) (task : TaskNode) (nodes : Table Node) (i : AgentInstance) where
  -- A candidate passes the tests, and what passes them is one.
  pub is_candidate-Routable :
      is_candidate s task nodes i ≡ true → Routable s task (lookup i.node_id nodes) i
  unfolding is_candidate
  is_candidate-Routable h = (
    schedulable i.state (ground (arith, h)),
    λ e. ground (arith, h, (eq_iff i.endpoint.address "").1 e),
    node_passes-Admits s task (node_load s i.node_id) (lookup i.node_id nodes) (ground (arith, h))
        (ground (arith, h)),
  )

  pub Routable-is_candidate :
      Routable s task (lookup i.node_id nodes) i → is_candidate s task nodes i ≡ true
  unfolding is_candidate
  Routable-is_candidate (state, address, admits) =
      let (eligible, free) =
        Admits-node_passes s task (node_load s i.node_id) (lookup i.node_id nodes) admits in
      ground (
        arith,
        state-schedulable i.state state,
        address,
        eq_iff i.endpoint.address "",
        eligible,
        free,
      )
