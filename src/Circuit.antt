-- ===== src/Circuit.antt =====
-- internal/agent/circuit.go: a breaker that trips after a number of errors in a row.
pub mod Streaks
mod Samples
use agentfab.Prelude.{ℕ, List, [], ◌∷◌, Bool, true, false, if◌then◌else◌, Option, none, some}
use agentfab.Prelude.Int.{ℤ, pos, leb_ℤ, increment}

pub record CircuitBreaker : Type 0 where
  pub threshold : ℤ
  pub count : ℤ
  pub tripped : Bool

abbrev pub effective_threshold : ℤ → ℤ
effective_threshold threshold = if leb_ℤ threshold (pos 0) then pos 3 else threshold

unfoldable pub new_circuit_breaker : ℤ → CircuitBreaker
new_circuit_breaker threshold = record {
  threshold = effective_threshold threshold;
  count = pos 0;
  tripped = false;
}

unfoldable pub record_success : CircuitBreaker → CircuitBreaker
record_success cb = record cb { count = pos 0 }

-- With the number that the error's message holds.
unfoldable pub record_error : CircuitBreaker → CircuitBreaker × Option ℤ
record_error cb =
    let n = increment cb.count in
    if leb_ℤ cb.threshold n
    then (record cb { count = n; tripped = true }, some n)
    else (record cb { count = n }, none)

abbrev pub is_tripped : CircuitBreaker → Bool
is_tripped cb = cb.tripped
