-- ===== src/TaskGraph/Search/Reachability.antt =====
-- The searches of internal/taskgraph/dag.go answer for everything that is reachable.
use agentfab.Prelude.{String, Bool, true, not, ◌≡◌, refl, ◌≢◌, ◌↔◌, Option, none, some, arith}
use agentfab.TaskGraph.{TaskNode, TaskStatus, completed, running, TaskGraph, get}
use agentfab.TaskGraph.Search.{
  hits, search_dependents, has_incomplete_dependents, has_running_dependents, is_completed,
  is_running,
}
use agentfab.TaskGraph.Dependents.{Reach}
use agentfab.TaskGraph.Search.Invariant.{Found, search_lem}

-- A task other than `id` waits for it, over any number of steps, with such a status.
abbrev pub Waits : (TaskStatus → Type 0) → TaskGraph → String → Type 0
Waits S g id =
    (c : String) × (t : TaskNode) × Reach g.tasks id c × (c ≢ id) × (get g c ≡ some t) × S t.status

hits-some :
    (test : TaskStatus → Bool) (o : Option TaskNode)
    → hits test o ≡ true
    → (t : TaskNode) × (o ≡ some t) × (test t.status ≡ true)
hits-some test none h = absurd (cc)
hits-some test (some t) h = (t, refl, h)

module _ (S : TaskStatus → Type 0) (test : TaskStatus → Bool)
    (decides : (s : TaskStatus) → (test s ≡ true) ↔ S s) (g : TaskGraph) (id : String) where
  Found-Waits : Found test g.tasks id ↔ Waits S g id
  Found-Waits = (
    λ (c, r, other, h).
        let (t, e, y) = hits-some test (get g c) h in (c, t, r, other, e, (decides t.status).0 y),
    λ (c, t, r, other, e, s). (c, r, other, rw e ((decides t.status).1 s)),
  )

  search_dependents-Waits :
      (b : Bool) × (search_dependents test g id ≡ some b) × ((b ≡ true) ↔ Waits S g id)
  search_dependents-Waits =
      let (b, e, w) = search_lem test g id in
      (b, e, (λ h. Found-Waits.0 (w.0 h), λ x. w.1 (Found-Waits.1 x)))

not-completed_iff : (s : TaskStatus) → (not (is_completed s) ≡ true) ↔ (s ≢ completed)
not-completed_iff s = ground arith

running_iff : (s : TaskStatus) → (is_running s ≡ true) ↔ (s ≡ running)
running_iff s = ground arith

-- Both searches end, whatever the graph, cycles included. `HasIncompleteDependents` says whether
-- some other task that waits for the given one, directly or through others, is not completed, and
-- `HasRunningDependents` whether one is running.
pub has_dependents-Waits :
    (g : TaskGraph) (id : String)
    → ((b : Bool) × (has_incomplete_dependents g id ≡ some b)
        × ((b ≡ true) ↔ Waits (λ s. s ≢ completed) g id))
      × ((b : Bool) × (has_running_dependents g id ≡ some b)
          × ((b ≡ true) ↔ Waits (λ s. s ≡ running) g id))
unfolding has_incomplete_dependents has_running_dependents
has_dependents-Waits g id = (
  search_dependents-Waits (λ s. s ≢ completed) (λ s. not (is_completed s)) not-completed_iff g id,
  search_dependents-Waits (λ s. s ≡ running) is_running running_iff g id,
)
