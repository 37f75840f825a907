-- ===== src/Routing.antt =====
-- internal/routing/router.go and tracker.go: the model that an agent is given for a task, from the
-- cheapest of its tiers on. The base factory is a parameter, the agent and the task stand for the
-- context that carries them, and `none` is the panic of an index out of range. A tier grows only
-- below the last index, so it does not wrap; a count is the bit pattern of an int.
pub mod Tiers
pub mod Outcomes
mod Samples
use Prim.Native.String.{◌++◌ as str_append}
use agentfab.Prelude.{
  suc, ℕ, zero, suc, ◌+◌, ◌-◌, ◌%◌, ◌^◌, String, List, [], ◌∷◌, length, map, Bool, true, false,
  if◌then◌else◌, leb, Option, none, some, Table, lookup, insert, values, or_zero,
}

pub record TierStat : Type 0 where
  pub agent : String
  pub model : String
  pub tier : ℕ
  pub success : ℕ
  pub failure : ℕ
  pub total : ℕ

pub record TierAcc : Type 0 where
  pub agent : String
  pub model : String
  pub tier : ℕ
  pub success : ℕ
  pub failure : ℕ

pub record Tracker : Type 0 where
  pub state : Table ℕ
  pub stats : Table TierAcc

abbrev pub new_tracker : Tracker
new_tracker = record { state = []; stats = [] }

abbrev pub tier_key : String → String → String
tier_key agent task_id = str_append agent (str_append ":" task_id)

abbrev pub stat_key : String → String → String
stat_key agent model = str_append agent (str_append ":" model)

abbrev pub current_tier : Tracker → String → String → ℕ
current_tier t agent task_id = or_zero 0 (lookup (tier_key agent task_id) t.state)

unfoldable pub escalate_tier : Tracker → String → String → ℕ → Tracker × (ℕ × Bool)
escalate_tier t agent task_id max_tier =
    let cur = current_tier t agent task_id in
    if leb max_tier cur
    then (t, (cur, false))
    else (record t { state = insert (tier_key agent task_id) (cur + 1) t.state }, (cur + 1, true))

-- `&tierAcc{…}` where the key is missing.
abbrev pub or_new : String → String → ℕ → Option TierAcc → TierAcc
or_new agent model tier none = record {
  agent = agent;
  model = model;
  tier = tier;
  success = 0;
  failure = 0;
}
or_new agent model tier (some acc) = acc

abbrev pub tally : Bool → TierAcc → TierAcc
tally true acc = record acc { success = (acc.success + 1) % 2 ^ 64 }
tally false acc = record acc { failure = (acc.failure + 1) % 2 ^ 64 }

unfoldable pub record_tier : Tracker → String → String → ℕ → Bool → Tracker
record_tier t agent model tier success =
    let key = stat_key agent model in
    record t {
      stats = insert key (tally success (or_new agent model tier (lookup key t.stats))) t.stats;
    }

abbrev pub tier_stat : TierAcc → TierStat
tier_stat acc = record {
  agent = acc.agent;
  model = acc.model;
  tier = acc.tier;
  success = acc.success;
  failure = acc.failure;
  total = (acc.success + acc.failure) % 2 ^ 64;
}

-- In the order of the map, which Go leaves open.
abbrev pub report_stats : Tracker → List TierStat
report_stats t = map tier_stat (values t.stats)

pub record AdaptiveRouter : Type 0 where
  pub tiers : Table (List String)
  pub tracker : Tracker

abbrev pub new_adaptive_router : Table (List String) → AdaptiveRouter
new_adaptive_router tiers = record { tiers = tiers; tracker = new_tracker }

-- `r.Tiers[agent]`: a missing agent reads as no tiers, which the code treats in the same way.
abbrev pub tiers_of : AdaptiveRouter → String → List String
tiers_of r agent = or_zero [] (lookup agent r.tiers)

unfoldable pub get_elem? : List String → ℕ → Option String
get_elem? [] n = none
get_elem? (x ∷ xs) zero = some x
get_elem? (x ∷ xs) (suc n) = get_elem? xs n

-- `if tier >= len(tiers) { tier = len(tiers) - 1 }`.
abbrev pub clamp : ℕ → ℕ → ℕ
clamp tier n = if leb n tier then n - 1 else tier

abbrev pub choose : AdaptiveRouter → String → String → String → List String → Option String
choose r agent task_id default_model [] = some default_model
choose r agent task_id default_model (x ∷ xs) =
    get_elem? (x ∷ xs) (clamp (current_tier r.tracker agent task_id) (length (x ∷ xs)))

unfoldable pub select_model : AdaptiveRouter → String → String → String → Option String
select_model r agent task_id default_model = choose r agent task_id default_model (tiers_of r agent)

-- `ModelFactory`, with the result of `Base` on the model that is chosen.
abbrev pub built {ℓ} : {A : Type ℓ} → (String → A) → Option String → Option A
built base none = none
built base (some model) = some (base model)

unfoldable pub model_factory {ℓ} :
    {A : Type ℓ} → (String → A) → AdaptiveRouter → String → String → String → Option A
unfolding select_model
model_factory base r agent task_id default_model =
    built base (select_model r agent task_id default_model)

abbrev pub escalate_in : AdaptiveRouter → String → String → List String → AdaptiveRouter × Bool
escalate_in r agent task_id [] = (r, false)
escalate_in r agent task_id (x ∷ xs) =
    let (t, (new_tier, escalated)) = escalate_tier r.tracker agent task_id (length (x ∷ xs) - 1) in
    (record r { tracker = t }, escalated)

unfoldable pub escalate : AdaptiveRouter → String → String → AdaptiveRouter × Bool
unfolding escalate_tier
escalate r agent task_id = escalate_in r agent task_id (tiers_of r agent)

abbrev pub record_model : AdaptiveRouter → String → ℕ → Bool → Option String → Option AdaptiveRouter
record_model r agent tier success none = none
record_model r agent tier success (some model) =
    some (record r { tracker = record_tier r.tracker agent model tier success })

abbrev pub record_in : AdaptiveRouter → String → String → Bool → List String → Option AdaptiveRouter
record_in r agent task_id success [] = some r
record_in r agent task_id success (x ∷ xs) =
    let tier = clamp (current_tier r.tracker agent task_id) (length (x ∷ xs)) in
    record_model r agent tier success (get_elem? (x ∷ xs) tier)

unfoldable pub record_outcome : AdaptiveRouter → String → String → Bool → Option AdaptiveRouter
unfolding record_tier
record_outcome r agent task_id success = record_in r agent task_id success (tiers_of r agent)

unfoldable pub report : AdaptiveRouter → List TierStat
report r = report_stats r.tracker
