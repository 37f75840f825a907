-- ===== src/Routing/Outcomes.antt =====
-- The statistics of internal/routing/tracker.go against the calls that were made.
use agentfab.Prelude.{
  ◌∙◌, ℕ, ◌+◌, ◌≤◌, ◌<◌, ◌^◌, String, List, [], ◌∷◌, length, map, Bool, true, false, ◌≡◌, refl,
  Option, none, some, Table, lookup, insert, values, or_zero, arith,
}
use agentfab.Routing.{
  AdaptiveRouter, Tracker, TierAcc, TierStat, new_adaptive_router, stat_key, current_tier, tiers_of,
  clamp, or_new, tally, tier_stat, record_tier, record_in, record_outcome, escalate, report,
}
use agentfab.Routing.Tiers.{get_elem?-In, clamp-lt}

-- The calls on a router that change it.
pub data Call : Type 0 where
  escalates : (agent task_id : String) → Call
  records : (agent task_id : String) (success : Bool) → Call

abbrev pub serve : AdaptiveRouter → Call → Option AdaptiveRouter
serve r (escalates agent task_id) = some (escalate r agent task_id).0
serve r (records agent task_id success) = record_outcome r agent task_id success

abbrev pub serve_next :
    (AdaptiveRouter → Option AdaptiveRouter) → Option AdaptiveRouter → Option AdaptiveRouter
serve_next k none = none
serve_next k (some r) = k r

unfoldable pub serve_all : List Call → AdaptiveRouter → Option AdaptiveRouter
serve_all [] r = some r
serve_all (c ∷ cs) r = serve_next (λ s. serve_all cs s) (serve r c)

abbrev pub has_tiers : List String → ℕ
has_tiers [] = 0
has_tiers (x ∷ xs) = 1

-- The outcomes of agents that have tiers.
abbrev pub counted : Table (List String) → Call → ℕ
counted tiers (escalates agent task_id) = 0
counted tiers (records agent task_id success) = has_tiers (or_zero [] (lookup agent tiers))

unfoldable pub outcomes : Table (List String) → List Call → ℕ
outcomes tiers [] = 0
outcomes tiers (c ∷ cs) = counted tiers c + outcomes tiers cs

unfoldable pub sum_totals : List TierStat → ℕ
sum_totals [] = 0
sum_totals (s ∷ ss) = s.total + sum_totals ss

sum_weights : Table TierAcc → ℕ
sum_weights [] = 0
sum_weights ((k, acc) ∷ m) = acc.success + acc.failure + sum_weights m

abbrev weight_of : Option TierAcc → ℕ
weight_of none = 0
weight_of (some acc) = acc.success + acc.failure

lookup-le : (k : String) (m : Table TierAcc) → weight_of (lookup k m) ≤ sum_weights m
unfolding lookup sum_weights
lookup-le k [] = omega arith
lookup-le k ((j, acc) ∷ m) = ground (arith, lookup-le k m)

insert-sum :
    (k : String) (acc : TierAcc) (m : Table TierAcc)
    → sum_weights (insert k acc m) + weight_of (lookup k m)
      ≡ sum_weights m + (acc.success + acc.failure)
unfolding lookup insert sum_weights
insert-sum k acc [] = omega arith
insert-sum k acc ((j, old) ∷ m) = ground (arith, insert-sum k acc m)

tally-weight :
    (success : Bool) (agent model : String) (tier : ℕ) (o : Option TierAcc)
    → weight_of o + 1 < 2 ^ 64
    → (tally success (or_new agent model tier o)).success
        + (tally success (or_new agent model tier o)).failure
      ≡ weight_of o + 1
tally-weight true agent model tier none h = ground arith
tally-weight true agent model tier (some acc) h = ground arith
tally-weight false agent model tier none h = ground arith
tally-weight false agent model tier (some acc) h = ground arith

record_tier-sum :
    (t : Tracker) (agent model : String) (tier : ℕ) (success : Bool)
    → sum_weights t.stats + 1 < 2 ^ 64
    → sum_weights (record_tier t agent model tier success).stats ≡ sum_weights t.stats + 1
unfolding record_tier
record_tier-sum t agent model tier success h =
    let k = stat_key agent model in
    let le = lookup-le k t.stats in
    let w = tally-weight success agent model tier (lookup k t.stats) (omega arith) in
    let i = insert-sum k (tally success (or_new agent model tier (lookup k t.stats))) t.stats in
    omega arith

-- A call keeps the tiers, and adds what it counts.
abbrev Counts : AdaptiveRouter → ℕ → Option AdaptiveRouter → Type 0
Counts r n o =
    (s : AdaptiveRouter) × (o ≡ some s)
    × (s.tiers ≡ r.tiers)
    × (sum_weights s.tracker.stats ≡ sum_weights r.tracker.stats + n)

escalate-Counts :
    (r : AdaptiveRouter) (agent task_id : String) → Counts r 0 (some (escalate r agent task_id).0)
unfolding escalate
escalate-Counts r agent task_id = ((escalate r agent task_id).0, refl, ground arith, ground arith)

record_in-Counts :
    (r : AdaptiveRouter) (agent task_id : String) (success : Bool) (tiers : List String)
    → sum_weights r.tracker.stats + 1 < 2 ^ 64
    → Counts r (has_tiers tiers) (record_in r agent task_id success tiers)
record_in-Counts r agent task_id success [] h = (r, refl, refl, omega arith)
record_in-Counts r agent task_id success (x ∷ xs) h =
    let tier = current_tier r.tracker agent task_id in
    let (model, e, m) =
      get_elem?-In (x ∷ xs) (clamp tier (length (x ∷ xs)))
        (clamp-lt tier (length (x ∷ xs)) (omega arith)) in
    let t = record_tier r.tracker agent model (clamp tier (length (x ∷ xs))) success in
    (
      record r { tracker = t },
      rw e refl,
      refl,
      record_tier-sum r.tracker agent model (clamp tier (length (x ∷ xs))) success h,
    )

serve-Counts :
    (r : AdaptiveRouter) (c : Call)
    → sum_weights r.tracker.stats + 1 < 2 ^ 64
    → Counts r (counted r.tiers c) (serve r c)
unfolding record_outcome
serve-Counts r (escalates agent task_id) h = escalate-Counts r agent task_id
serve-Counts r (records agent task_id success) h =
    record_in-Counts r agent task_id success (tiers_of r agent) h

counted-le : (tiers : Table (List String)) (c : Call) → counted tiers c ≤ 1
counted-le tiers (escalates agent task_id) = omega arith
counted-le tiers (records agent task_id success) = ground arith

serve_all-Counts :
    (r : AdaptiveRouter) (cs : List Call)
    → sum_weights r.tracker.stats + length cs < 2 ^ 64
    → Counts r (outcomes r.tiers cs) (serve_all cs r)
unfolding serve_all outcomes
serve_all-Counts r [] h = (r, refl, refl, omega arith)
serve_all-Counts r (c ∷ cs) h =
    let (s, e, same, w) = serve-Counts r c (omega arith) in
    let le = counted-le r.tiers c in
    let (t, e', same', w') = serve_all-Counts s cs (omega arith) in
    (t, rw e e', same' ∙ same, ground arith)

outcomes-le : (tiers : Table (List String)) (cs : List Call) → outcomes tiers cs ≤ length cs
unfolding outcomes
outcomes-le tiers [] = omega arith
outcomes-le tiers (c ∷ cs) = omega (arith, counted-le tiers c, outcomes-le tiers cs)

report-sum :
    (m : Table TierAcc)
    → sum_weights m < 2 ^ 64
    → sum_totals (map tier_stat (values m)) ≡ sum_weights m
unfolding sum_totals values sum_weights
report-sum [] h = refl
report-sum ((k, acc) ∷ m) h = ground (arith, report-sum m)

-- No sequence of escalations and outcomes on a new router panics, and the totals of the report add up
-- to the number of outcomes of agents that have tiers, for fewer than 2 ^ 64 calls.
pub report-outcomes :
    (tiers : Table (List String)) (cs : List Call)
    → length cs < 2 ^ 64
    → (r : AdaptiveRouter) × (serve_all cs (new_adaptive_router tiers) ≡ some r)
      × (sum_totals (report r) ≡ outcomes tiers cs)
unfolding report sum_weights
report-outcomes tiers cs h =
    let (r, e, same, w) = serve_all-Counts (new_adaptive_router tiers) cs (omega arith) in
    let total = report-sum r.tracker.stats (omega (arith, outcomes-le tiers cs)) in
    (r, e, omega arith)
