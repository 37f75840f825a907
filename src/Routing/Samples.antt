-- ===== src/Routing/Samples.antt =====
-- An agent with three tiers of internal/routing, and one without.
use agentfab.Prelude.{
  String, List, [], ◌∷◌, true, false, ◌≡◌, ◌≢◌, refl, ◌⊎◌, some, Table, lookup, insert, values, In,
  arith, eq_iff,
}
use agentfab.Routing.{
  AdaptiveRouter, new_adaptive_router, tier_key, tiers_of, get_elem?, escalate_tier, record_tier,
  select_model, model_factory, escalate, record_outcome, report,
}
use agentfab.Routing.Tiers.{model_factory-In, escalate_times, escalations-select}
use agentfab.Routing.Outcomes.{
  Call, escalates, records, serve_all, outcomes, sum_totals, report-outcomes,
}

abbrev models : Table (List String)
models = ("developer", "small" ∷ "medium" ∷ "large" ∷ []) ∷ ("architect", []) ∷ []

abbrev router : AdaptiveRouter
router = new_adaptive_router models

abbrev calls : List Call
calls =
    records "developer" "t1" false
    ∷ escalates "developer" "t1"
    ∷ records "developer" "t1" true
    ∷ records "architect" "t2" true
    ∷ []

program : Unit {0}
unfolding escalate_tier record_tier get_elem? select_model model_factory escalate record_outcome
    report escalate_times serve_all outcomes sum_totals lookup insert values
program = tt

models_developer : lookup "developer" models ≡ some ("small" ∷ "medium" ∷ "large" ∷ [])
unfolding program
models_developer = refl

first_choice : select_model router "developer" "t1" "default" ≡ some "small"
unfolding program
first_choice = refl

last_choice :
    select_model (escalate_times 5 router "developer" "t1") "developer" "t1" "default"
    ≡ some "large"
unfolding program
last_choice = refl

no_choice : select_model router "architect" "t1" "default" ≡ some "default"
unfolding program
no_choice = refl

two_counted : outcomes models calls ≡ 2
unfolding program
two_counted = refl

abbrev built_ : String → String
built_ model = model

model_factory-In_example :
    (model : String) × (model_factory built_ router "developer" "t1" "default" ≡ some model)
    × (((tiers_of router "developer" ≡ []) × (model ≡ "default"))
        ⊎ In model (tiers_of router "developer"))
model_factory-In_example = model_factory-In built_ router "developer" "t1" "default"

escalations-select_example :
    (select_model (escalate_times 1 router "developer" "t1") "developer" "t1" "default"
      ≡ get_elem? ("small" ∷ "medium" ∷ "large" ∷ []) 1)
    × ((escalate (escalate_times 1 router "developer" "t1") "developer" "t1").1 ≡ true)
escalations-select_example =
    escalations-select models "developer" "t1" "default" "small" ("medium" ∷ "large" ∷ []) 1
      models_developer

keys_apart : tier_key "developer" "t1" ≢ tier_key "developer" "t2"
keys_apart e = ground (arith, eq_iff (tier_key "developer" "t1") (tier_key "developer" "t2"))

report-outcomes_example :
    (r : AdaptiveRouter) × (serve_all calls router ≡ some r)
    × (sum_totals (report r) ≡ outcomes models calls)
report-outcomes_example = report-outcomes models calls (omega arith)
