-- ===== src/Loop.antt =====
-- internal/loop/types.go, fsm.go and the routing half of resolve.go: the review loop as a state
-- machine. A method with a pointer receiver returns the new machine beside its result.
pub mod Validation
pub mod Runs
pub mod Routing
mod Samples
use agentfab.Prelude.{
  ℕ, String, List, [], ◌∷◌, map, Bool, true, false, not, ◌&&◌, ◌||◌, ◌==◌, if◌then◌else◌, Result,
  ok, err, ◌>>=◌, ◌>>◌, fail_if, check_each, contains, select, any, Option, none, some,
}
use agentfab.Prelude.Int.{ℤ, pos, leb_ℤ, increment}

pub record StateConfig : Type 0 where
  pub name : String
  pub agent : String
  pub review_guidelines : String

pub record Transition : Type 0 where
  pub from : String
  pub to : String
  pub condition : String

pub record LoopDefinition : Type 0 where
  pub id : String
  pub participants : List String
  pub states : List StateConfig
  pub transitions : List Transition
  pub initial_state : String
  pub terminal_states : List String
  pub max_transitions : ℤ

pub record LoopState : Type 0 where
  pub loop_id : String
  pub current_state : String
  pub transition_count : ℤ

abbrev pub state_names : LoopDefinition → List String
state_names def = map (λ s. s.name) def.states

-- The first state of that name, or the empty text.
review_guidelines_in : List StateConfig → String → String
review_guidelines_in [] state = ""
review_guidelines_in (s ∷ ss) state =
    if s.name == state then s.review_guidelines else review_guidelines_in ss state

unfoldable pub review_guidelines_for_state : LoopDefinition → String → String
unfolding review_guidelines_in
review_guidelines_for_state def = review_guidelines_in def.states

agent_in : List StateConfig → String → String
agent_in [] state = ""
agent_in (s ∷ ss) state = if s.name == state then s.agent else agent_in ss state

unfoldable pub agent_for_state : LoopDefinition → String → String
unfolding agent_in
agent_for_state def = agent_in def.states

-- The errors, with the texts that their messages quote.
pub data LoopError : Type 0 where
  id_required : LoopError
  state_required initial_required terminal_required max_not_positive : String → LoopError
  initial_not_in_states terminal_not_in_states agent_missing : String → String → LoopError
  participant_unassigned from_unknown to_unknown no_outgoing : String → String → LoopError
  escalated_not_in_states escalated_not_terminal : String → LoopError
  in_terminal_state : String → String → LoopError
  invalid_transition : String → String → String → LoopError
  no_transitions : String → LoopError
  no_matching_transition : String → String → LoopError

abbrev pub is_empty {ℓ} : {A : Type ℓ} → List A → Bool
is_empty [] = true
is_empty (x ∷ xs) = false

module _ (def : LoopDefinition) where
  abbrev check_terminal : String → Result LoopError (Unit {0})
  check_terminal ts =
      fail_if (not (contains (state_names def) ts)) (terminal_not_in_states def.id ts)

  abbrev check_agent : StateConfig → Result LoopError (Unit {0})
  check_agent sc =
      fail_if (not (contains def.terminal_states sc.name) && sc.agent == "")
        (agent_missing def.id sc.name)

  -- `agentInState` holds the agents that are not empty.
  abbrev agents_in_states : List String
  agents_in_states = select (λ a. not (a == "")) (map (λ sc. sc.agent) def.states)

  abbrev check_participant : String → Result LoopError (Unit {0})
  check_participant p =
      fail_if (not (contains agents_in_states p)) (participant_unassigned def.id p)

  abbrev check_transition : Transition → Result LoopError (Unit {0})
  check_transition t = do
    fail_if (not (contains (state_names def) t.from)) (from_unknown def.id t.from)
    fail_if (not (contains (state_names def) t.to)) (to_unknown def.id t.to)

  -- `hasOutgoing` holds the sources of the transitions.
  abbrev check_outgoing : StateConfig → Result LoopError (Unit {0})
  check_outgoing sc =
      fail_if
        (not (contains def.terminal_states sc.name)
          && not (contains (map (λ t. t.from) def.transitions) sc.name))
        (no_outgoing def.id sc.name)

  unfoldable pub validate : Result LoopError (Unit {0})
  validate = do
    fail_if (def.id == "") id_required
    fail_if (is_empty def.states) (state_required def.id)
    fail_if (def.initial_state == "") (initial_required def.id)
    fail_if (is_empty def.terminal_states) (terminal_required def.id)
    fail_if (leb_ℤ def.max_transitions (pos 0)) (max_not_positive def.id)
    fail_if (not (contains (state_names def) def.initial_state))
        (initial_not_in_states def.id def.initial_state)
    check_each check_terminal def.terminal_states
    check_each check_agent def.states
    check_each check_participant def.participants
    check_each check_transition def.transitions
    fail_if (not (contains (state_names def) "ESCALATED")) (escalated_not_in_states def.id)
    fail_if (not (contains def.terminal_states "ESCALATED")) (escalated_not_terminal def.id)
    check_each check_outgoing def.states

pub data TransitionResult : Type 0 where
  transitioned escalated : TransitionResult

pub record Fsm : Type 0 where
  pub def : LoopDefinition
  pub state : LoopState

unfoldable pub new_fsm : LoopDefinition → Result LoopError Fsm
new_fsm def = do
  validate def
  ok (record {
    def = def;
    state = record {
      loop_id = def.id;
      current_state = def.initial_state;
      transition_count = pos 0;
    };
  })

unfoldable pub restore_fsm : LoopDefinition → LoopState → Fsm
restore_fsm def state = record { def = def; state = state }

unfoldable pub is_terminal : Fsm → Bool
is_terminal f = contains f.def.terminal_states f.state.current_state

move_to : Fsm → String → Fsm
move_to f to = record f {
  state = record {
    loop_id = f.state.loop_id;
    current_state = to;
    transition_count = increment f.state.transition_count;
  };
}

abbrev connects : String → String → Transition → Bool
connects from to t = t.from == from && t.to == to

unfoldable pub transition : Fsm → String → Fsm × Result LoopError TransitionResult
unfolding move_to
transition f to =
    if is_terminal f
    then (f, err (in_terminal_state f.def.id f.state.current_state))
    else if leb_ℤ f.def.max_transitions f.state.transition_count
    then (move_to f "ESCALATED", ok escalated)
    else if any (connects f.state.current_state to) f.def.transitions
    then (move_to f to, ok transitioned)
    else (f, err (invalid_transition f.def.id f.state.current_state to))

unfoldable pub force_escalate : Fsm → Fsm
unfolding move_to
force_escalate f = move_to f "ESCALATED"

-- resolve.go. The first loop collects the candidates, the others take the first that fits.
abbrev candidates : LoopDefinition → String → List Transition
candidates def current = select (λ t. t.from == current) def.transitions

-- `for _, t := range candidates { if … { return t.To, nil } }`.
unfoldable pub find_target : (Transition → Bool) → List Transition → Option String
find_target p [] = none
find_target p (t ∷ ts) = if p t then some t.to else find_target p ts

-- A return that ends the function, else what comes after it.
abbrev or_else : Result LoopError String → Option String → Result LoopError String
or_else rest none = rest
or_else rest (some s) = ok s

only_unconditional : List Transition → Option String
only_unconditional (t ∷ []) = if t.condition == "" then some t.to else none
only_unconditional ts = none

match_verdict : String → List Transition → Option String
unfolding find_target
match_verdict verdict ts =
    if verdict == "" then none else find_target (λ t. t.condition == verdict) ts

unfoldable pub resolve_next_state : LoopDefinition → String → String → Result LoopError String
unfolding only_unconditional match_verdict
resolve_next_state def current verdict =
    let ts = candidates def current in
    if is_empty ts
    then err (no_transitions current)
    else or_else
        (or_else
          (or_else (err (no_matching_transition current verdict))
            (find_target (λ t. t.condition == "") ts))
          (match_verdict verdict ts))
        (only_unconditional ts)

unfoldable pub is_review_state : LoopDefinition → String → Bool
is_review_state def state = any (λ t. t.from == state && not (t.condition == "")) def.transitions
