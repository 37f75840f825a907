-- ===== src/Loop/Validation.antt =====
-- `Validate` of internal/loop/fsm.go against a description of a well-formed loop.
use agentfab.Prelude.{
  contains-false, In-map, contains-cases, contains_absent, map-In, String, [], map, true, false,
  not, ◌==◌, eq_iff, ◌≡◌, ◌≢◌, ◌↔◌, ok, check_each, check_each-All, All-check_each, contains,
  contains-In, In-contains, In, All-In, In-All, In-select, select-In, arith, inl, inr,
}
use agentfab.Prelude.Int.{pos, ◌<ℤ◌, leb_ℤ}
use agentfab.Loop.{
  StateConfig, Transition, LoopDefinition, state_names, validate, is_empty, check_terminal,
  check_agent, check_participant, check_transition, check_outgoing, agents_in_states,
}

-- What a loop definition has to be for the machine to run.
pub record IsWellFormed (def : LoopDefinition) : Type 0 where
  pub has_id : def.id ≢ ""
  pub has_states : def.states ≢ []
  pub has_initial : def.initial_state ≢ ""
  pub has_terminal : def.terminal_states ≢ []
  pub has_budget : pos 0 <ℤ def.max_transitions
  pub initial_known : In def.initial_state (state_names def)
  pub terminal_known : (s : String) → In s def.terminal_states → In s (state_names def)
  pub has_agent :
      (sc : StateConfig) → In sc def.states → ¬ In sc.name def.terminal_states → sc.agent ≢ ""
  pub participates :
      (p : String)
      → In p def.participants
      → (p ≢ "") × (sc : StateConfig) × In sc def.states × (sc.agent ≡ p)
  pub ends_known :
      (t : Transition)
      → In t def.transitions
      → In t.from (state_names def) × In t.to (state_names def)
  pub escalated_known : In "ESCALATED" (state_names def)
  pub escalated_terminal : In "ESCALATED" def.terminal_states
  pub has_outgoing :
      (sc : StateConfig)
      → In sc def.states
      → ¬ In sc.name def.terminal_states
      → (t : Transition) × In t def.transitions × (t.from ≡ sc.name)

-- The checks of `validate`, each passed.
record Passes (def : LoopDefinition) : Type 0 where
  id : (def.id == "") ≡ false
  states : is_empty def.states ≡ false
  initial : (def.initial_state == "") ≡ false
  terminal : is_empty def.terminal_states ≡ false
  budget : leb_ℤ def.max_transitions (pos 0) ≡ false
  initial_in : contains (state_names def) def.initial_state ≡ true
  terminals : check_each (check_terminal def) def.terminal_states ≡ ok tt
  agents : check_each (check_agent def) def.states ≡ ok tt
  participants : check_each (check_participant def) def.participants ≡ ok tt
  transitions : check_each (check_transition def) def.transitions ≡ ok tt
  escalated_in : contains (state_names def) "ESCALATED" ≡ true
  escalated_terminal : contains def.terminal_states "ESCALATED" ≡ true
  outgoing : check_each (check_outgoing def) def.states ≡ ok tt

validate-Passes : (def : LoopDefinition) → validate def ≡ ok tt → Passes def
unfolding validate
validate-Passes def h = ground arith

Passes-validate : (def : LoopDefinition) → Passes def → validate def ≡ ok tt
unfolding validate
Passes-validate def p = ground arith

-- Each check, passed, against what it says.
module _ (def : LoopDefinition) where
  check_terminal_lem : (s : String) → check_terminal def s ≡ ok tt → In s (state_names def)
  check_terminal_lem s h = contains-In _ s (ground arith)

  check_agent_lem :
      (sc : StateConfig)
      → check_agent def sc ≡ ok tt
      → ¬ In sc.name def.terminal_states
      → sc.agent ≢ ""
  check_agent_lem sc h live =
      ground (arith, contains_absent def.terminal_states sc.name live, eq_iff sc.agent "")

  check_participant_lem :
      (p : String)
      → check_participant def p ≡ ok tt
      → (p ≢ "") × (sc : StateConfig) × In sc def.states × (sc.agent ≡ p)
  check_participant_lem p h =
      let (m, named) =
        In-select (λ a. not (a == "")) p (map (λ sc. sc.agent) def.states)
          (contains-In (agents_in_states def) p (ground arith)) in
      let (sc, k, e) = map-In (λ (sc : StateConfig). sc.agent) p def.states m in
      (ground (arith, eq_iff p ""), sc, k, e)

  check_transition_lem :
      (t : Transition)
      → check_transition def t ≡ ok tt
      → In t.from (state_names def) × In t.to (state_names def)
  check_transition_lem t h =
      (contains-In _ t.from (ground arith), contains-In _ t.to (ground arith))

  check_outgoing_lem :
      (sc : StateConfig)
      → check_outgoing def sc ≡ ok tt
      → ¬ In sc.name def.terminal_states
      → (t : Transition) × In t def.transitions × (t.from ≡ sc.name)
  check_outgoing_lem sc h live =
      map-In (λ (t : Transition). t.from) sc.name def.transitions
        (contains-In _ sc.name (ground (arith, contains_absent def.terminal_states sc.name live)))

Passes-IsWellFormed : (def : LoopDefinition) → Passes def → IsWellFormed def
Passes-IsWellFormed def p = record {
  has_id = ground (arith, p.id, eq_iff def.id "");
  has_states = ground (arith, p.states);
  has_initial = ground (arith, p.initial, eq_iff def.initial_state "");
  has_terminal = ground (arith, p.terminal);
  has_budget = ground (arith, p.budget);
  initial_known = contains-In _ _ p.initial_in;
  terminal_known =
      λ s m. check_terminal_lem def s (All-In _ _ (check_each-All _ _ p.terminals) s m);
  has_agent = λ sc m. check_agent_lem def sc (All-In _ _ (check_each-All _ _ p.agents) sc m);
  participates =
      λ q m. check_participant_lem def q (All-In _ _ (check_each-All _ _ p.participants) q m);
  ends_known =
      λ t m. check_transition_lem def t (All-In _ _ (check_each-All _ _ p.transitions) t m);
  escalated_known = contains-In _ _ p.escalated_in;
  escalated_terminal = contains-In _ _ p.escalated_terminal;
  has_outgoing =
      λ sc m. check_outgoing_lem def sc (All-In _ _ (check_each-All _ _ p.outgoing) sc m);
}

module _ (def : LoopDefinition) (w : IsWellFormed def) where
  check_terminal_passes : (s : String) → In s def.terminal_states → check_terminal def s ≡ ok tt
  check_terminal_passes s m = rw (In-contains _ _ (w.terminal_known s m))

  check_transition_passes : (t : Transition) → In t def.transitions → check_transition def t ≡ ok tt
  check_transition_passes t m = rw (
    In-contains (state_names def) t.from (w.ends_known t m).0,
    In-contains (state_names def) t.to (w.ends_known t m).1,
  )

  check_agent_passes : (sc : StateConfig) → In sc def.states → check_agent def sc ≡ ok tt
  check_agent_passes sc m = elim (contains-cases def.terminal_states sc.name) [
    | inl t ↦ rw (In-contains _ _ t)
    | inr f ↦ rw f (ground (arith, w.has_agent sc m (contains-false _ _ f), eq_iff sc.agent ""))
  ]

  check_participant_passes : (p : String) → In p def.participants → check_participant def p ≡ ok tt
  check_participant_passes p m =
      let (named, sc, k, e) = w.participates p m in
      let among : In p (map (λ (sc : StateConfig). sc.agent) def.states) =
        In-map (λ (sc : StateConfig). sc.agent) sc def.states k e in
      rw (
        In-contains _ _ (
          select-In (λ a. not (a == "")) p (map (λ sc. sc.agent) def.states) among
            (ground (arith, eq_iff p ""))))

  check_outgoing_passes : (sc : StateConfig) → In sc def.states → check_outgoing def sc ≡ ok tt
  check_outgoing_passes sc m = elim (contains-cases def.terminal_states sc.name) [
    | inl t ↦ rw (In-contains def.terminal_states sc.name t)
    | inr f ↦
        let (t, k, e) = w.has_outgoing sc m (contains-false _ _ f) in
        let known : In sc.name (map (λ (t : Transition). t.from) def.transitions) =
          In-map (λ (t : Transition). t.from) t def.transitions k e in
        rw (f, In-contains _ _ known)
  ]

  IsWellFormed-Passes : Passes def
  IsWellFormed-Passes = record {
    id = ground (arith, w.has_id, eq_iff def.id "");
    states = ground (arith, w.has_states);
    initial = ground (arith, w.has_initial, eq_iff def.initial_state "");
    terminal = ground (arith, w.has_terminal);
    budget = ground (arith, w.has_budget);
    initial_in = In-contains _ _ w.initial_known;
    terminals = All-check_each _ _ (In-All _ _ check_terminal_passes);
    agents = All-check_each _ _ (In-All _ _ check_agent_passes);
    participants = All-check_each _ _ (In-All _ _ check_participant_passes);
    transitions = All-check_each _ _ (In-All _ _ check_transition_passes);
    escalated_in = In-contains _ _ w.escalated_known;
    escalated_terminal = In-contains _ _ w.escalated_terminal;
    outgoing = All-check_each _ _ (In-All _ _ check_outgoing_passes);
  }

-- `Validate` returns nil for a loop definition exactly when the definition is well formed: it has
-- an ID, states, a positive budget, known initial and terminal states, an agent and a way out for
-- each state that is not terminal, participants that occur, transitions between known states, and
-- ESCALATED among the terminal states.
pub validate-IsWellFormed : (def : LoopDefinition) → (validate def ≡ ok tt) ↔ IsWellFormed def
validate-IsWellFormed def = (
  λ h. Passes-IsWellFormed def (validate-Passes def h),
  λ w. Passes-validate def (IsWellFormed-Passes def w),
)
