-- ===== src/Loop/Runs.antt =====
-- The machine of internal/loop/fsm.go over a whole review: which states it is in, how many moves
-- it makes, and that it never stops short of a terminal state.
use native.Mathlib.Nat.{zero-add, add-zero, add_assoc}
use agentfab.Prelude.{
  leb, eq_refl, ◌∙◌, map-In, ok-cases, subst, ℕ, ◌+◌, ◌≤◌, ◌<◌, String, List, [], ◌∷◌, true, false,
  eq_iff, ◌≡◌, refl, ◌⊎◌, inl, inr, Result, ok, err, In-contains, contains-false, In, arith,
  Bool-cases, any, any-In, In-any,
}
use agentfab.Prelude.Int.{pos, increment, increment-pos, leb_ℤ, ◌<ℤ◌, ◌≤ℤ◌, max_int}
use agentfab.Loop.{
  StateConfig, Transition, LoopDefinition, Fsm, LoopError, state_names, validate, new_fsm,
  is_terminal, transition, TransitionResult, transitioned, escalated, connects, move_to,
}
use agentfab.Loop.Validation.{IsWellFormed, validate-IsWellFormed}

-- The calls of `Transition` that a review makes, and how many of them succeed.
unfoldable pub run : Fsm → List String → Fsm
run f [] = f
run f (to ∷ tos) = run (transition f to).0 tos

abbrev pub is_ok : Result LoopError TransitionResult → ℕ
is_ok (ok _) = 1
is_ok (err _) = 0

unfoldable pub successes : Fsm → List String → ℕ
successes f [] = 0
successes f (to ∷ tos) = is_ok (transition f to).1 + successes (transition f to).0 tos

-- The machine stands in a known state of a well-formed loop with budget `m`, after `n` moves; only
-- the last move may go past the budget.
pub record IsSound (m n : ℕ) (f : Fsm) : Type 0 where
  pub well_formed : IsWellFormed f.def
  pub budget : f.def.max_transitions ≡ pos m
  pub small : m < max_int
  pub counted : f.state.transition_count ≡ pos n
  pub known : In f.state.current_state (state_names f.def)
  pub bounded : (n ≤ m) ⊎ (In f.state.current_state f.def.terminal_states × (n ≤ m + 1))

is_terminal_In : (f : Fsm) → In f.state.current_state f.def.terminal_states → is_terminal f ≡ true
unfolding is_terminal
is_terminal_In f h = In-contains _ _ h

IsSound-le : {m n : ℕ} {f : Fsm} → IsSound m n f → n ≤ m + 1
IsSound-le s = elim s.bounded [ inl h ↦ omega arith | inr h ↦ h.1 ]

-- Outside the terminal states the budget is not passed.
live_le : {m n : ℕ} {f : Fsm} → IsSound m n f → is_terminal f ≡ false → n ≤ m
live_le {f = f} s live = elim s.bounded [ inl h ↦ h | inr h ↦ absurd (cc (is_terminal_In f h.0)) ]

move_to-IsSound :
    {m n : ℕ} {f : Fsm} (to : String)
    → IsSound m n f
    → n ≤ m
    → In to (state_names f.def)
    → ((n + 1 ≤ m) ⊎ (In to f.def.terminal_states))
    → IsSound m (n + 1) (move_to f to)
unfolding move_to
move_to-IsSound {m} {n} {f} to s h known room = record {
  well_formed = s.well_formed;
  budget = s.budget;
  small = s.small;
  counted = let e = increment-pos n (let l = s.small in omega arith) in rw s.counted e;
  known = known;
  bounded = elim room [ inl r ↦ inl r | inr t ↦ inr (t, omega arith) ];
}

-- What one call of `Transition` does, on each of its branches.
data Outcome (f : Fsm) (to : String) : Fsm × Result LoopError TransitionResult → Type 0 where
  refused : {e : LoopError} → Outcome f to (f, err e)
  exhausted :
      is_terminal f ≡ false
      → leb_ℤ f.def.max_transitions f.state.transition_count ≡ true
      → Outcome f to (move_to f "ESCALATED", ok escalated)
  followed :
      (t : Transition)
      → In t f.def.transitions
      → t.from ≡ f.state.current_state
      → t.to ≡ to
      → is_terminal f ≡ false
      → leb_ℤ f.def.max_transitions f.state.transition_count ≡ false
      → Outcome f to (move_to f to, ok transitioned)

transition-Outcome : (f : Fsm) (to : String) → Outcome f to (transition f to)
unfolding transition
transition-Outcome f to = elim (Bool-cases (is_terminal f)) [
  | inl t ↦ rw t refused
  | inr live ↦ elim (Bool-cases (leb_ℤ f.def.max_transitions f.state.transition_count)) [
    | inl full ↦ rw (live, full) (exhausted live full)
    | inr room ↦ elim (Bool-cases (any (connects f.state.current_state to) f.def.transitions)) [
      | inl found ↦
          let (t, m, h) = any-In _ f.def.transitions found in
          rw (live, room, found)
            (followed t m (ground (arith, eq_iff t.from f.state.current_state))
              (ground (arith, eq_iff t.to to)) live room)
      | inr lost ↦ rw (live, room, lost) refused
    ]
  ]
]

module _ {m n : ℕ} {f : Fsm} (s : IsSound m n f) where
  full_eq : leb_ℤ f.def.max_transitions f.state.transition_count ≡ true → m ≤ n
  full_eq h = let b = s.budget in let c = s.counted in ground arith

  room_lt : leb_ℤ f.def.max_transitions f.state.transition_count ≡ false → n < m
  room_lt h = let b = s.budget in let c = s.counted in ground arith

  Outcome-IsSound :
      (to : String) {r : Fsm × Result LoopError TransitionResult}
      → Outcome f to r
      → IsSound m (n + is_ok r.1) r.0
  Outcome-IsSound to refused = rw add-zero s
  Outcome-IsSound to (exhausted live full) =
      move_to-IsSound "ESCALATED" s (live_le s live) s.well_formed.escalated_known
        (inr s.well_formed.escalated_terminal)
  Outcome-IsSound to (followed t k from e live room) =
      move_to-IsSound to s (live_le s live)
        (subst (λ x. In x (state_names f.def)) e (s.well_formed.ends_known t k).1)
        (inl (let l = room_lt room in omega arith))

  transition-IsSound : (to : String) → IsSound m (n + is_ok (transition f to).1) (transition f to).0
  transition-IsSound to = Outcome-IsSound to (transition-Outcome f to)

run-IsSound :
    (m n : ℕ) (f : Fsm) (tos : List String)
    → IsSound m n f
    → IsSound m (n + successes f tos) (run f tos)
unfolding run successes
run-IsSound m n f [] s = rw add-zero s
run-IsSound m n f (to ∷ tos) s =
    rw (← add_assoc n (is_ok (transition f to).1) (successes (transition f to).0 tos)) (
      run-IsSound m (n + is_ok (transition f to).1) (transition f to).0 tos
        (transition-IsSound s to))

new_fsm-IsSound :
    (def : LoopDefinition) (m : ℕ) {f : Fsm}
    → def.max_transitions ≡ pos m
    → m < max_int
    → new_fsm def ≡ ok f
    → IsSound m 0 f
unfolding new_fsm
new_fsm-IsSound def m {f} budget small h = elim (ok-cases (validate def)) [
  | inl v ↦
      let w = (validate-IsWellFormed def).0 v in
      let e : f ≡ record {
        def = def;
        state = record {
          loop_id = def.id;
          current_state = def.initial_state;
          transition_count = pos 0;
        };
      } =
        ground arith in
      rw e (record {
        well_formed = w;
        budget = budget;
        small = small;
        counted = refl;
        known = w.initial_known;
        bounded = inl (omega arith);
      })
  | inr (e, v) ↦ absurd (cc)
]

transition-def : (f : Fsm) (to : String) → (transition f to).0.def ≡ f.def
unfolding transition move_to
transition-def f to = ground arith

run-def : (f : Fsm) (tos : List String) → (run f tos).def ≡ f.def
unfolding run
run-def f [] = refl
run-def f (to ∷ tos) = run-def (transition f to).0 tos ∙ transition-def f to

new_fsm-def : (def : LoopDefinition) {f : Fsm} → new_fsm def ≡ ok f → f.def ≡ def
unfolding new_fsm
new_fsm-def def h = elim (ok-cases (validate def)) [
  | inl v ↦ ground arith
  | inr (e, v) ↦ absurd (cc)
]

-- Where a transition of the definition leads, a machine that is not terminal moves, there or to ESCALATED.
pub transition_granted :
    (f : Fsm) (t : Transition)
    → In t f.def.transitions
    → t.from ≡ f.state.current_state
    → is_terminal f ≡ false
    → is_ok (transition f t.to).1 ≡ 1
unfolding transition
transition_granted f t m from live =
    let found =
      In-any (connects f.state.current_state t.to) f.def.transitions t m
        (ground (arith, eq_iff t.from f.state.current_state, eq_refl t.to)) in
    ground arith

-- Every state that is not terminal has a way out.
live_move :
    {m n : ℕ} {f : Fsm}
    → IsSound m n f
    → is_terminal f ≡ false
    → (to : String) × (is_ok (transition f to).1 ≡ 1)
unfolding is_terminal
live_move {f = f} s live =
    let (sc, k, named) =
      map-In (λ (sc : StateConfig). sc.name) f.state.current_state f.def.states s.known in
    let (t, among, from) = s.well_formed.has_outgoing sc k (λ c.
      contains-false f.def.terminal_states f.state.current_state live
        (subst (λ x. In x f.def.terminal_states) named c)) in
    (t.to, transition_granted f t among (from ∙ named) live)

module _ (def : LoopDefinition) (m : ℕ) (f : Fsm) (tos : List String)
    (budget : def.max_transitions ≡ pos m) (small : m < max_int) (made : new_fsm def ≡ ok f) where
  sound : IsSound m (successes f tos) (run f tos)
  sound =
      rw (zero-add (successes f tos)) at
        (run-IsSound m 0 f tos (new_fsm-IsSound def m budget small made))

  -- A new machine with a budget of `m` moves, less than 2^63 - 1, whatever it is asked, has made at
  -- most `m` moves, or it has made `m + 1` and is terminal. The number of moves made is its transition
  -- count.
  pub successes-le :
      ((run f tos).state.transition_count ≡ pos (successes f tos))
      × ((successes f tos ≤ m) ⊎ ((successes f tos ≡ m + 1) × (is_terminal (run f tos) ≡ true)))
  successes-le = (
    sound.counted,
    elim (Bool-cases (leb (successes f tos) m)) [
      | inl h ↦ inl (ground arith)
      | inr h ↦ elim sound.bounded [
        | inl le ↦ absurd (ground arith)
        | inr last ↦ inr (ground (arith, last.1), is_terminal_In (run f tos) last.0)
      ]
    ],
  )

  -- Whatever a new machine with a budget of less than 2^63 - 1 moves is asked, it stands in a state of its definition, and it is terminal or
  -- there is a request that it grants.
  pub run_progress :
      In (run f tos).state.current_state (state_names def)
      × ((is_terminal (run f tos) ≡ true)
          ⊎ ((to : String) × (is_ok (transition (run f tos) to).1 ≡ 1)))
  run_progress = (
    rw (run-def f tos ∙ new_fsm-def def made) at sound.known,
    elim (Bool-cases (is_terminal (run f tos))) [
      | inl t ↦ inl t
      | inr live ↦ inr (live_move sound live)
    ],
  )

-- What a call returns and the machine that it leaves.
abbrev pub Described : (f : Fsm) (to : String) → Fsm × Result LoopError TransitionResult → Type 0
Described f to (g, r) =
    ((is_ok r ≡ 0) × (g ≡ f))
    ⊎ ((is_terminal f ≡ false)
        × (g.def ≡ f.def)
        × (g.state.transition_count ≡ increment f.state.transition_count)
        × (((r ≡ ok transitioned)
              × (g.state.current_state ≡ to)
              × (f.state.transition_count <ℤ f.def.max_transitions)
              × ((t : Transition) × In t f.def.transitions
                  × (t.from ≡ f.state.current_state)
                  × (t.to ≡ to)))
            ⊎ ((r ≡ ok escalated)
                × (g.state.current_state ≡ "ESCALATED")
                × (f.def.max_transitions ≤ℤ f.state.transition_count))))

-- A request is refused and leaves the machine as it was, or the machine was not terminal, counts
-- one more transition and moves: to the requested state, by a transition of its definition and
-- within the budget, or to ESCALATED with the budget used up.
pub transition_cases : (f : Fsm) (to : String) → Described f to (transition f to)
unfolding move_to
transition_cases f to = go (transition-Outcome f to)
  where
    go : {r : Fsm × Result LoopError TransitionResult} → Outcome f to r → Described f to r
    go refused = inl (refl, refl)
    go (exhausted live full) = inr (live, refl, refl, inr (refl, refl, ground arith))
    go (followed t k from e live room) =
        inr (live, refl, refl, inl (refl, refl, ground arith, (t, k, from, e)))
