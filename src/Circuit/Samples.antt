-- ===== src/Circuit/Samples.antt =====
-- A breaker of internal/agent/circuit.go with the default threshold.
use agentfab.Prelude.{List, [], ◌∷◌, true, false, ◌≡◌, ◌↔◌, refl, arith}
use agentfab.Prelude.Int.{pos, increment}
use agentfab.Circuit.{new_circuit_breaker, record_success, record_error, is_tripped}
use agentfab.Circuit.Streaks.{Outcome, success, error, tell_all, HasStreak, trips_iff}

abbrev mixed : List Outcome
mixed = error ∷ error ∷ success ∷ error ∷ error ∷ error ∷ success ∷ []

program : Unit {0}
unfolding new_circuit_breaker record_success record_error tell_all increment
program = tt

mixed_trip : is_tripped (tell_all (new_circuit_breaker (pos 0)) mixed) ≡ true
unfolding program
mixed_trip = refl

four_needed : is_tripped (tell_all (new_circuit_breaker (pos 4)) mixed) ≡ false
unfolding program
four_needed = refl

trips_iff_example :
    (is_tripped (tell_all (new_circuit_breaker (pos 0)) mixed) ≡ true) ↔ HasStreak 3 mixed
trips_iff_example = trips_iff (pos 0) mixed (omega arith)
