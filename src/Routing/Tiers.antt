-- ===== src/Routing/Tiers.antt =====
-- The tiers of internal/routing/router.go: which model is chosen, and how escalation moves it.
use agentfab.Prelude.{
  suc, ℕ, zero, suc, ◌+◌, ◌≤◌, ◌<◌, String, List, [], ◌∷◌, length, if◌then◌else◌, leb, ltb, ◌≡◌,
  ◌≢◌, refl, ◌⊎◌, inl, inr, some, Table, lookup, lookup-insert, In, arith, eq_iff,
}
use agentfab.Routing.{
  AdaptiveRouter, new_adaptive_router, tier_key, current_tier, escalate_tier, tiers_of, get_elem?,
  clamp, choose, select_model, model_factory, escalate_in, escalate,
}

pub get_elem?-In :
    (xs : List String) (n : ℕ) → n < length xs → (x : String) × (get_elem? xs n ≡ some x) × In x xs
unfolding get_elem?
get_elem?-In [] n h = absurd (omega arith)
get_elem?-In (x ∷ xs) zero h = (x, refl, inl refl)
get_elem?-In (x ∷ xs) (suc n) h = let (y, e, m) = get_elem?-In xs n (omega arith) in (y, e, inr m)

pub clamp-lt : (tier n : ℕ) → 0 < n → clamp tier n < n
clamp-lt tier n h = ground arith

choose-In :
    (r : AdaptiveRouter) (agent task_id default_model : String) (tiers : List String)
    → (model : String) × (choose r agent task_id default_model tiers ≡ some model)
      × (((tiers ≡ []) × (model ≡ default_model)) ⊎ In model tiers)
choose-In r agent task_id default_model [] = (default_model, refl, inl (refl, refl))
choose-In r agent task_id default_model (x ∷ xs) =
    let tier = current_tier r.tracker agent task_id in
    let (model, e, m) =
      get_elem?-In (x ∷ xs) (clamp tier (length (x ∷ xs)))
        (clamp-lt tier (length (x ∷ xs)) (omega arith)) in
    (model, e, inr m)

-- Whatever the state, the factory calls the base factory, on the default model for an agent without
-- tiers and on one of the agent's tiers for any other: no index is out of range.
pub model_factory-In {ℓ} :
    {A : Type ℓ}
    → (base : String → A) (r : AdaptiveRouter) (agent task_id default_model : String)
    → (model : String) × (model_factory base r agent task_id default_model ≡ some (base model))
      × (((tiers_of r agent ≡ []) × (model ≡ default_model)) ⊎ In model (tiers_of r agent))
unfolding model_factory
model_factory-In base r agent task_id default_model =
    let (model, e, m) = choose-In r agent task_id default_model (tiers_of r agent) in
    (model, rw e refl, m)

-- `n` escalations of one task in a row.
unfoldable pub escalate_times : ℕ → AdaptiveRouter → String → String → AdaptiveRouter
escalate_times zero r agent task_id = r
escalate_times (suc n) r agent task_id = escalate_times n (escalate r agent task_id).0 agent task_id

-- The tier of a task moves up by one, to the last index at most.
abbrev capped : ℕ → ℕ → ℕ
capped n top = if leb top n then top else n

module _ (agent task_id : String) (x : String) (xs : List String) where
  escalate-tier :
      (r : AdaptiveRouter)
      → lookup agent r.tiers ≡ some (x ∷ xs)
      → current_tier r.tracker agent task_id ≤ length xs
      → ((escalate r agent task_id).0.tiers ≡ r.tiers)
        × (current_tier (escalate r agent task_id).0.tracker agent task_id
            ≡ capped (current_tier r.tracker agent task_id + 1) (length xs))
        × ((escalate r agent task_id).1 ≡ ltb (current_tier r.tracker agent task_id) (length xs))
  unfolding escalate
  escalate-tier r e h = (
    ground arith,
    ground (
      arith,
      lookup-insert (tier_key agent task_id) (tier_key agent task_id)
          (current_tier r.tracker agent task_id + 1) r.tracker.state,
      eq_iff (tier_key agent task_id) (tier_key agent task_id),
    ),
    ground arith,
  )

  escalate_times-tier :
      (n : ℕ) (r : AdaptiveRouter)
      → lookup agent r.tiers ≡ some (x ∷ xs)
      → current_tier r.tracker agent task_id ≤ length xs
      → ((escalate_times n r agent task_id).tiers ≡ r.tiers)
        × (current_tier (escalate_times n r agent task_id).tracker agent task_id
            ≡ capped (current_tier r.tracker agent task_id + n) (length xs))
  unfolding escalate_times
  escalate_times-tier zero r e h = (refl, ground arith)
  escalate_times-tier (suc n) r e h =
      let (same, moved, _) = escalate-tier r e h in
      let (same', moved') =
        escalate_times-tier n (escalate r agent task_id).0 (rw same e) (ground arith) in
      (ground arith, ground arith)

-- From a new router on, `n` escalations of a task, for an agent that has tiers, move it `n` tiers
-- up, to the last tier at most: that tier's model is the one chosen, and the next escalation
-- succeeds exactly below the last tier.
pub escalations-select :
    (tiers : Table (List String)) (agent task_id default_model x : String) (xs : List String)
    (n : ℕ)
    → lookup agent tiers ≡ some (x ∷ xs)
    → (select_model
          (escalate_times n (new_adaptive_router tiers) agent task_id)
          agent
          task_id
          default_model
        ≡ get_elem? (x ∷ xs) (if leb (length xs) n then length xs else n))
      × ((escalate (escalate_times n (new_adaptive_router tiers) agent task_id) agent task_id).1
          ≡ ltb n (length xs))
unfolding select_model lookup
escalations-select tiers agent task_id default_model x xs n e =
    let fresh = new_adaptive_router tiers in
    let (same, moved) = escalate_times-tier agent task_id x xs n fresh e (omega arith) in
    let (_, _, again) =
      escalate-tier agent task_id x xs (escalate_times n fresh agent task_id) (ground arith)
        (ground arith) in
    (ground arith, ground arith)

module _ (r : AdaptiveRouter) (agent task_id agent' task_id' : String)
    (apart : tier_key agent task_id ≢ tier_key agent' task_id') where
  escalate_in-other :
      (tiers : List String)
      → ((escalate_in r agent task_id tiers).0.tiers ≡ r.tiers)
        × (current_tier (escalate_in r agent task_id tiers).0.tracker agent' task_id'
            ≡ current_tier r.tracker agent' task_id')
  unfolding escalate_tier
  escalate_in-other [] = (refl, refl)
  escalate_in-other (x ∷ xs) = (
    ground arith,
    ground (
      arith,
      lookup-insert (tier_key agent task_id) (tier_key agent' task_id')
          (current_tier r.tracker agent task_id + 1) r.tracker.state,
      eq_iff (tier_key agent task_id) (tier_key agent' task_id'),
    ),
  )

choose-same :
    (r s : AdaptiveRouter) (agent task_id default_model : String) (tiers : List String)
    → current_tier r.tracker agent task_id ≡ current_tier s.tracker agent task_id
    → choose r agent task_id default_model tiers ≡ choose s agent task_id default_model tiers
choose-same r s agent task_id default_model [] e = refl
choose-same r s agent task_id default_model (x ∷ xs) e = rw e refl

-- An escalation leaves the choice for an agent and a task with another key as it is.
pub escalate-other :
    (r : AdaptiveRouter) (agent task_id agent' task_id' default_model : String)
    → tier_key agent task_id ≢ tier_key agent' task_id'
    → select_model (escalate r agent task_id).0 agent' task_id' default_model
      ≡ select_model r agent' task_id' default_model
unfolding select_model escalate
escalate-other r agent task_id agent' task_id' default_model apart =
    let (same, kept) = escalate_in-other r agent task_id agent' task_id' apart (tiers_of r agent) in
    rw same (
      choose-same (escalate r agent task_id).0 r agent' task_id' default_model (tiers_of r agent')
        kept)
