-- ===== src/Loop/Routing.antt =====
-- `ResolveNextState` of internal/loop/resolve.go: which transition a verdict selects, and that the
-- machine of fsm.go grants it.
use agentfab.Prelude.{
  sym, subst, Option-cases, String, List, [], ◌∷◌, Bool, true, false, ◌==◌, eq_iff, ◌≡◌, refl, ◌≢◌,
  inl, inr, ◌⊎◌, Result, ok, err, In, arith, Bool-cases, none, some, In-select, select-In,
  if◌then◌else◌,
}
use agentfab.Loop.{
  no_transitions, is_empty, no_matching_transition, Transition, LoopDefinition, LoopError, Fsm,
  candidates, find_target, or_else, only_unconditional, match_verdict, resolve_next_state,
  transition, is_terminal, TransitionResult, transitioned, escalated,
}
use agentfab.Prelude.Int.{◌≤ℤ◌, ◌<ℤ◌}
use agentfab.Loop.Runs.{is_ok, transition_granted, transition_cases, Described}

find_target-In :
    (p : Transition → Bool) (ts : List Transition) (to : String)
    → find_target p ts ≡ some to
    → (t : Transition) × In t ts × (t.to ≡ to) × (p t ≡ true)
unfolding find_target
find_target-In p [] to h = absurd (cc)
find_target-In p (t ∷ ts) to h = elim (Bool-cases (p t)) [
  | inl y ↦ (t, inl refl, ground arith, y)
  | inr n ↦ let (u, m, e, y) = find_target-In p ts to (ground arith) in (u, inr m, e, y)
]

find_target-none :
    (p : Transition → Bool) (ts : List Transition) (t : Transition)
    → find_target p ts ≡ none
    → In t ts
    → p t ≡ false
unfolding find_target
find_target-none p [] t h m = elim m [ ]
find_target-none p (x ∷ ts) t h (inl e) = ground arith
find_target-none p (x ∷ ts) t h (inr m) = ground (arith, find_target-none p ts t)

In-candidates :
    (def : LoopDefinition) (cur : String) (t : Transition)
    → In t (candidates def cur)
    → In t def.transitions × (t.from ≡ cur)
In-candidates def cur t m =
    let (k, e) = In-select (λ t. t.from == cur) t def.transitions m in (k, (eq_iff t.from cur).0 e)

candidates-In :
    (def : LoopDefinition) (cur : String) (t : Transition)
    → In t def.transitions
    → t.from ≡ cur
    → In t (candidates def cur)
candidates-In def cur t m e =
    select-In (λ t. t.from == cur) t def.transitions m ((eq_iff t.from cur).1 e)

-- How a verdict is answered in a state: by a transition with that condition, if the verdict is not
-- empty and there is one; else by a transition without condition, if there is one; else not.
pub data Resolution (def : LoopDefinition) (cur verdict : String)
    : Result LoopError String → Type 0 where
  by_verdict :
      (t : Transition)
      → In t def.transitions
      → t.from ≡ cur
      → t.condition ≡ verdict
      → verdict ≢ ""
      → Resolution def cur verdict (ok t.to)
  by_default :
      (t : Transition)
      → In t def.transitions
      → t.from ≡ cur
      → t.condition ≡ ""
      → ((u : Transition)
          → In u def.transitions
          → u.from ≡ cur
          → u.condition ≡ verdict
          → verdict ≡ "")
      → Resolution def cur verdict (ok t.to)
  unanswered :
      (e : LoopError)
      → ((u : Transition)
          → In u def.transitions
          → u.from ≡ cur
          → (u.condition ≢ verdict) × (u.condition ≢ ""))
      → Resolution def cur verdict (err e)

module _ (def : LoopDefinition) (cur verdict : String) where
  abbrev Answers : Result LoopError String → Type 0
  Answers r = Resolution def cur verdict r

  -- The answer of the third search, where the second found nothing.
  default_search :
      (e : LoopError)
      → ((u : Transition)
          → In u def.transitions
          → u.from ≡ cur
          → u.condition ≡ verdict
          → verdict ≡ "")
      → Answers (or_else (err e) (find_target (λ t. t.condition == "") (candidates def cur)))
  default_search e open_ =
      elim (Option-cases (find_target (λ t. t.condition == "") (candidates def cur))) [
        | inl missed ↦ rw missed (
            unanswered e (λ u m from.
              let plain = find_target-none _ _ u missed (candidates-In def cur u m from) in
              (
                λ c. ground (arith, eq_iff u.condition "", open_ u m from c),
                ground (arith, eq_iff u.condition ""),
              )))
        | inr (to, found) ↦
            let (t, m, e', plain) = find_target-In _ (candidates def cur) to found in
            let (k, from) = In-candidates def cur t m in
            rw (found, ← e') (by_default t k from ((eq_iff t.condition "").0 plain) open_)
      ]

  verdict_search :
      (e : LoopError)
      → Answers (
          or_else
            (or_else (err e) (find_target (λ t. t.condition == "") (candidates def cur)))
            (match_verdict verdict (candidates def cur)))
  unfolding match_verdict
  verdict_search e = elim (Bool-cases (verdict == "")) [
    | inl blank ↦ rw blank (default_search e (λ u m from c. (eq_iff verdict "").0 blank))
    | inr given ↦
        elim (Option-cases (find_target (λ t. t.condition == verdict) (candidates def cur))) [
          | inl missed ↦
              rw (given, missed)
                (default_search e (λ u m from c. absurd (
                  cc (
                    (eq_iff u.condition verdict).1 c,
                    find_target-none _ _ u missed (candidates-In def cur u m from),
                  ))))
          | inr (to, found) ↦
              let (t, m, e', hit) = find_target-In _ (candidates def cur) to found in
              let (k, from) = In-candidates def cur t m in
              rw (given, found, ← e')
                (by_verdict t k from ((eq_iff t.condition verdict).0 hit)
                  (ground (arith, eq_iff verdict "")))
        ]
  ]

  -- The whole search, over the candidates as a list `ts`.
  search_all :
      (e e' : LoopError) (ts : List Transition)
      → ts ≡ candidates def cur
      → Answers (
          if is_empty ts
          then err e'
          else or_else
              (or_else
                (or_else (err e) (find_target (λ t. t.condition == "") ts))
                (match_verdict verdict ts))
              (only_unconditional ts))
  unfolding only_unconditional
  search_all e e' [] h =
      unanswered e' (λ u m from. absurd (subst (In u) (sym h) (candidates-In def cur u m from)))
  search_all e e' (t ∷ []) h = elim (Bool-cases (t.condition == "")) [
    | inl plain ↦
        let (k, from) = In-candidates def cur t (subst (In t) h (inl refl)) in
        rw plain (
          by_default t k from ((eq_iff t.condition "").0 plain) (λ u m f c.
            elim (subst (In u) (sym h) (candidates-In def cur u m f)) [
              | inl same ↦ ground (arith, eq_iff t.condition "")
              | inr none_left ↦ absurd none_left
            ]))
    | inr cond ↦ rw (cond, h) (verdict_search e)
  ]
  search_all e e' (t ∷ u ∷ ts) h = rw h (verdict_search e)

-- `ResolveNextState` answers every verdict in every state, as `Resolution` describes: it never
-- fails where a transition of that condition, or one without condition, leaves the state, and a
-- matching transition is preferred.
pub resolve_next_state-Resolution :
    (def : LoopDefinition) (cur verdict : String)
    → Resolution def cur verdict (resolve_next_state def cur verdict)
unfolding resolve_next_state
resolve_next_state-Resolution def cur verdict =
    search_all def cur verdict (no_matching_transition cur verdict) (no_transitions cur)
      (candidates def cur) refl

Resolution-ok :
    {def : LoopDefinition} {cur verdict : String} {r : Result LoopError String}
    → Resolution def cur verdict r
    → (to : String) → r ≡ ok to
    → (t : Transition) × In t def.transitions × (t.from ≡ cur) × (t.to ≡ to)
Resolution-ok (by_verdict t m from _ _) to e = (t, m, from, ground arith)
Resolution-ok (by_default t m from _ _) to e = (t, m, from, ground arith)
Resolution-ok (unanswered _ _) to e = absurd (cc)

-- A move to the state, within the budget, or to ESCALATED once the budget is used up.
abbrev pub Follows : Fsm → String → Fsm × Result LoopError TransitionResult → Type 0
Follows f to (g, r) =
    ((f.state.transition_count <ℤ f.def.max_transitions)
      × (r ≡ ok transitioned)
      × (g.state.current_state ≡ to))
    ⊎ ((f.def.max_transitions ≤ℤ f.state.transition_count)
        × (r ≡ ok escalated)
        × (g.state.current_state ≡ "ESCALATED"))

granted-Follows :
    (f : Fsm) (to : String) (r : Fsm × Result LoopError TransitionResult)
    → Described f to r
    → is_ok r.1 ≡ 1
    → Follows f to r
granted-Follows f to (g, r) (inl (refused, same)) h = absurd (omega arith)
granted-Follows f to (g, r) (inr (live, d, n, inl (e, at, room, t))) h = inl (room, e, at)
granted-Follows f to (g, r) (inr (live, d, n, inr (e, at, full))) h = inr (full, e, at)

-- A machine that is not terminal and is asked for the state that `ResolveNextState` answers with moves
-- there, if its transition count is below its budget; if not, it moves to ESCALATED.
pub resolve-transition :
    (f : Fsm) (verdict to : String)
    → is_terminal f ≡ false
    → resolve_next_state f.def f.state.current_state verdict ≡ ok to
    → Follows f to (transition f to)
resolve-transition f verdict to live h =
    let (t, m, from, e) =
      Resolution-ok (resolve_next_state-Resolution f.def f.state.current_state verdict) to h in
    granted-Follows f to (transition f to) (transition_cases f to)
      (subst (λ x. is_ok (transition f x).1 ≡ 1) e (transition_granted f t m from live))
