-- ===== src/TaskGraph/Failure/Cascade.antt =====
-- What `FailDependents` of internal/taskgraph/dag.go promises.
use mathlib.Core.Option
use agentfab.Prelude.{
  ◌∙◌, String, List, [], true, ◌≡◌, refl, ◌⊎◌, inl, inr, Option, none, some, In, ◌≢◌, arith,
}
use agentfab.Prelude.Worklist.{Ending, returned, emptied, Ends}
use agentfab.TaskGraph.{TaskNode, failed, completed, TaskGraph, get}
use agentfab.TaskGraph.Dependents.{find_task-DependsOn, DependsOn, Reach}
use agentfab.TaskGraph.Failure.{
  final, is_settled, fail, Progress, fail_dependents, dependency_failed,
}
use agentfab.TaskGraph.Failure.Invariant.{P, Q, measure, loop-Ends}

-- The graph `h` is `g` after the failure of `id`, cascaded to the tasks `hit`.
pub record IsCascade (message : String) (g : TaskGraph) (id : String) (h : TaskGraph)
    (hit : List String) : Type 0 where
  pub same_request : h.request_id ≡ g.request_id
  pub same_name : h.name ≡ g.name
  pub same_loops : h.loops ≡ g.loops
  -- A task is as before, or it was neither failed nor completed and is failed now, with the message.
  pub entries :
      (c : String)
      → ((get h c ≡ get g c) × ¬ In c hit)
        ⊎ (In c hit
            × (t : TaskNode) × (get g c ≡ some t)
            × (t.status ≢ failed)
            × (t.status ≢ completed)
            × (get h c ≡ some (fail message t)))
  -- Only what waits for the failed task is failed.
  pub waiting : (c : String) → In c hit → Reach g.tasks id c
  -- Whatever depends on the failed task, or on one that the cascade failed, is failed or completed.
  pub closed :
      (c d : String)
      → (c ≡ id) ⊎ In c hit
      → DependsOn g.tasks c d
      → (t : TaskNode) × (get h d ≡ some t) × ((t.status ≡ failed) ⊎ (t.status ≡ completed))

settled_task :
    (o : Option TaskNode) (t : TaskNode)
    → o ≡ some t
    → is_settled o ≡ true
    → (u : TaskNode) × (o ≡ some u) × ((u.status ≡ failed) ⊎ (u.status ≡ completed))
settled_task o t e h = (t, e, ground arith)

module _ (message : String) (g : TaskGraph) (id : String) where
  P-IsCascade :
      (p : Progress)
      → P message g.tasks id p []
      → IsCascade message g id (record g { tasks = p.tasks }) p.cascaded
  P-IsCascade p (x, inv) =
      let after = record g { tasks = p.tasks } in
      record {
        same_request = refl;
        same_name = refl;
        same_loops = refl;
        entries = λ c. elim (inv.entries c) [
          | inl same ↦ inl same
          | inr (m, t, there, open_, now) ↦ inr (m, t, there, ground arith, ground arith, now)
        ];
        waiting = inv.waiting;
        closed = λ c d k dep.
            let settled : is_settled (get after d) ≡ true = elim (inv.closed c k) [
              | inl none_left ↦ absurd none_left
              | inr f ↦ elim (f d dep) [ inl y ↦ y | inr (_, none_left) ↦ absurd none_left ]
            ] in
            let (u, there) = find_task-DependsOn g.tasks dep in
            elim (inv.entries d) [
              | inl (same, _) ↦ settled_task (get after d) u (same ∙ there) settled
              | inr (_, t, _, _, now) ↦ settled_task (get after d) (fail message t) now settled
            ];
      }

  abbrev Cascades : Option (TaskGraph × List String) → Type 0
  Cascades none = ⊥
  Cascades (some (h, hit)) = IsCascade message g id h hit

  Ends-Cascades :
      (o : Option (Ending Progress ⊥))
      → Ends (P message g.tasks id) (Q message g.tasks id) (measure message g.tasks id) o
      → Cascades (Option.map (λ e. (record g { tasks = (final e).tasks }, (final e).cascaded)) o)
  Ends-Cascades none e = e
  Ends-Cascades (some (returned r)) e = absurd r
  Ends-Cascades (some (emptied p)) e = P-IsCascade p e

Cascades-some :
    {message : String} {g : TaskGraph} {id : String} (o : Option (TaskGraph × List String))
    → Cascades message g id o
    → (h : TaskGraph) × (hit : List String) × (o ≡ some (h, hit)) × IsCascade message g id h hit
Cascades-some none c = absurd c
Cascades-some (some (h, hit)) c = (h, hit, refl, c)

-- `FailDependents` ends on every graph, cycles included. It fails, with a message that names the
-- failed task, tasks that wait for it and were neither failed nor completed, and returns their IDs;
-- all other tasks stay as they were. Afterwards everything that depends on the failed task, or on
-- one of those, is failed or completed.
pub fail_dependents-IsCascade :
    (quote : String → String) (g : TaskGraph) (id : String)
    → (h : TaskGraph) × (hit : List String) × (fail_dependents quote g id ≡ some (h, hit))
      × IsCascade (dependency_failed quote id) g id h hit
unfolding fail_dependents
fail_dependents-IsCascade quote g id = Cascades-some _ (
    Ends-Cascades (dependency_failed quote id) g id _
      (loop-Ends (dependency_failed quote id) g.tasks id))
