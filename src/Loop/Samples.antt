-- ===== src/Loop/Samples.antt =====
-- A review loop of a developer and an architect, and what the machine does on it.
use agentfab.Prelude.{
  ◌↔◌, ℕ, ◌≤◌, String, List, [], ◌∷◌, true, false, ◌≡◌, refl, ◌⊎◌, ok, err, In, arith, any,
  contains, check_each, select,
}
use agentfab.Prelude.Int.{pos, increment}
use agentfab.Loop.{
  restore_fsm, force_escalate, is_review_state, agent_for_state, review_guidelines_for_state,
  StateConfig, Transition, LoopDefinition, Fsm, validate, new_fsm, transition, is_terminal,
  resolve_next_state, find_target, escalated, max_not_positive, invalid_transition,
  no_matching_transition,
}
use agentfab.Loop.Validation.{IsWellFormed, validate-IsWellFormed}
use agentfab.Loop.Runs.{
  run, successes, is_ok, successes-le, run_progress, Described, transition_cases,
}
use agentfab.Loop.Routing.{Resolution, resolve_next_state-Resolution, Follows, resolve-transition}

abbrev state : String → String → StateConfig
state name agent = record { name = name; agent = agent; review_guidelines = "" }

abbrev edge : String → String → String → Transition
edge from to condition = record { from = from; to = to; condition = condition }

abbrev review : LoopDefinition
review = record {
  id = "review";
  participants = "developer" ∷ "architect" ∷ [];
  states =
      state "WORKING" "developer"
      ∷ state "REVIEWING" "architect"
      ∷ state "APPROVED" ""
      ∷ state "ESCALATED" ""
      ∷ [];
  transitions =
      edge "WORKING" "REVIEWING" ""
      ∷ edge "REVIEWING" "APPROVED" "approved"
      ∷ edge "REVIEWING" "WORKING" "revise"
      ∷ [];
  initial_state = "WORKING";
  terminal_states = "APPROVED" ∷ "ESCALATED" ∷ [];
  max_transitions = pos 3;
}

abbrev at : String → ℕ → Fsm
at name n = record {
  def = review;
  state = record { loop_id = "review"; current_state = name; transition_count = pos n };
}

program : Unit {0}
unfolding validate new_fsm transition is_terminal resolve_next_state find_target run successes any
    contains check_each select increment restore_fsm force_escalate is_review_state agent_for_state
    review_guidelines_for_state
program = tt

review_passes : validate review ≡ ok tt
unfolding program
review_passes = refl

validate_no_budget :
    validate (record review { max_transitions = pos 0 }) ≡ err (max_not_positive "review")
unfolding program
validate_no_budget = refl

review_starts : new_fsm review ≡ ok (at "WORKING" 0)
unfolding program
review_starts = refl

abbrev asked : List String
asked = "REVIEWING" ∷ "APPROVED" ∷ "WORKING" ∷ []

asked_end : run (at "WORKING" 0) asked ≡ at "APPROVED" 2
unfolding program
asked_end = refl

transition_back :
    transition (at "WORKING" 1) "APPROVED"
    ≡ (at "WORKING" 1, err (invalid_transition "review" "WORKING" "APPROVED"))
unfolding program
transition_back = refl

transition_spent : transition (at "REVIEWING" 3) "APPROVED" ≡ (at "ESCALATED" 4, ok escalated)
unfolding program
transition_spent = refl

resolve_revise : resolve_next_state review "REVIEWING" "revise" ≡ ok "WORKING"
unfolding program
resolve_revise = refl

resolve_silent :
    resolve_next_state review "REVIEWING" "" ≡ err (no_matching_transition "REVIEWING" "")
unfolding program
resolve_silent = refl

live_reviewing : is_terminal (at "REVIEWING" 1) ≡ false
unfolding program
live_reviewing = refl

given_up : force_escalate (restore_fsm review (at "REVIEWING" 1).state) ≡ at "ESCALATED" 2
unfolding program
given_up = refl

reviewing : is_review_state review "REVIEWING" ≡ true
unfolding program
reviewing = refl

not_reviewing : is_review_state review "WORKING" ≡ false
unfolding program
not_reviewing = refl

architect_reviews : agent_for_state review "REVIEWING" ≡ "architect"
unfolding program
architect_reviews = refl

no_guidelines : review_guidelines_for_state review "nowhere" ≡ ""
unfolding program
no_guidelines = refl

validate-IsWellFormed_example : (validate review ≡ ok tt) ↔ IsWellFormed review
validate-IsWellFormed_example = validate-IsWellFormed review

successes-le_example :
    ((run (at "WORKING" 0) asked).state.transition_count ≡ pos (successes (at "WORKING" 0) asked))
    × ((successes (at "WORKING" 0) asked ≤ 3)
        ⊎ ((successes (at "WORKING" 0) asked ≡ 4)
            × (is_terminal (run (at "WORKING" 0) asked) ≡ true)))
successes-le_example = successes-le review 3 (at "WORKING" 0) asked refl (omega arith) review_starts

run_progress_example :
    In
      (run (at "WORKING" 0) asked).state.current_state
      ("WORKING" ∷ "REVIEWING" ∷ "APPROVED" ∷ "ESCALATED" ∷ [])
    × ((is_terminal (run (at "WORKING" 0) asked) ≡ true)
        ⊎ ((to : String) × (is_ok (transition (run (at "WORKING" 0) asked) to).1 ≡ 1)))
run_progress_example = run_progress review 3 (at "WORKING" 0) asked refl (omega arith) review_starts

transition_cases_example : Described (at "REVIEWING" 3) "APPROVED" (at "ESCALATED" 4, ok escalated)
unfolding program
transition_cases_example = transition_cases (at "REVIEWING" 3) "APPROVED"

resolve_next_state-Resolution_example :
    Resolution review "REVIEWING" "revise" (resolve_next_state review "REVIEWING" "revise")
resolve_next_state-Resolution_example = resolve_next_state-Resolution review "REVIEWING" "revise"

resolve-transition_example :
    Follows (at "REVIEWING" 1) "WORKING" (transition (at "REVIEWING" 1) "WORKING")
resolve-transition_example =
    resolve-transition (at "REVIEWING" 1) "revise" "WORKING" live_reviewing resolve_revise
