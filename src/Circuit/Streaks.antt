-- ===== src/Circuit/Streaks.antt =====
-- The breaker of internal/agent/circuit.go against the outcomes that it was told of.
use agentfab.Prelude.{
  ℕ, zero, suc, ◌+◌, ◌≤◌, ◌<◌, List, [], ◌∷◌, true, false, if◌then◌else◌, ◌≡◌, ◌⊎◌, inl, inr, ◌↔◌,
  arith,
}
use agentfab.Prelude.Int.{ℤ, pos, negsuc, pos_part, leb_ℤ, increment-pos, max_int}
use agentfab.Circuit.{
  CircuitBreaker, effective_threshold, new_circuit_breaker, record_success, record_error,
  is_tripped,
}

pub data Outcome : Type 0 where
  success error : Outcome

abbrev pub tell : CircuitBreaker → Outcome → CircuitBreaker
tell cb success = record_success cb
tell cb error = (record_error cb).0

unfoldable pub tell_all : CircuitBreaker → List Outcome → CircuitBreaker
tell_all cb [] = cb
tell_all cb (o ∷ os) = tell_all (tell cb o) os

-- The outcomes begin with `n` errors.
abbrev pub Starts : ℕ → List Outcome → Type 0
Starts zero os = Unit
Starts (suc n) [] = ⊥
Starts (suc n) (success ∷ os) = ⊥
Starts (suc n) (error ∷ os) = Starts n os

-- Somewhere among the outcomes stand `k` errors in a row, for a `k` that is not 0.
abbrev pub HasStreak : ℕ → List Outcome → Type 0
HasStreak k [] = ⊥
HasStreak k (o ∷ os) = Starts k (o ∷ os) ⊎ HasStreak k os

Starts-weaken : (m n : ℕ) (os : List Outcome) → m ≤ n → Starts n os → Starts m os
Starts-weaken zero n os h s = tt
Starts-weaken (suc m) zero os h s = absurd (omega arith)
Starts-weaken (suc m) (suc n) [] h s = absurd s
Starts-weaken (suc m) (suc n) (success ∷ os) h s = absurd s
Starts-weaken (suc m) (suc n) (error ∷ os) h s = Starts-weaken m n os (omega arith) s

Starts-HasStreak : (k : ℕ) (os : List Outcome) → Starts (suc k) os → HasStreak (suc k) os
Starts-HasStreak k [] s = s
Starts-HasStreak k (o ∷ os) s = inl s

tripped-stays :
    (cb : CircuitBreaker) (os : List Outcome)
    → cb.tripped ≡ true
    → is_tripped (tell_all cb os) ≡ true
unfolding tell_all record_success record_error
tripped-stays cb [] h = h
tripped-stays cb (success ∷ os) h = tripped-stays (record_success cb) os h
tripped-stays cb (error ∷ os) h = tripped-stays (record_error cb).0 os (ground arith)

module _ (k : ℕ) (small : k < max_int) where
  abbrev counting : ℕ → CircuitBreaker
  counting n = record { threshold = pos (suc k); count = pos n; tripped = false }

  record_error-counting :
      (n : ℕ)
      → n ≤ k
      → (record_error (counting n)).0 ≡ (
          if leb_ℤ (pos (suc k)) (pos (n + 1))
          then record (counting (n + 1)) { tripped = true }
          else counting (n + 1))
  unfolding record_error
  record_error-counting n h = rw (increment-pos n (omega arith)) (ground arith)

  record_error-below : (n : ℕ) → n < k → (record_error (counting n)).0 ≡ counting (n + 1)
  record_error-below n h = rw (record_error-counting n (omega arith)) (ground arith)

  -- `d` more errors are let through.
  counting-trips :
      (n d : ℕ) (os : List Outcome)
      → n + d ≡ k
      → (is_tripped (tell_all (counting n) os) ≡ true) ↔ (Starts (suc d) os ⊎ HasStreak (suc k) os)
  unfolding tell_all record_success
  counting-trips n d [] e = (λ h. absurd (cc), λ h. elim h [ inl x ↦ absurd x | inr x ↦ absurd x ])
  counting-trips n d (success ∷ os) e =
      let (to, from) = counting-trips 0 k os (omega arith) in
      (
        λ h. elim (to h) [ inl s ↦ inr (inr (Starts-HasStreak k os s)) | inr s ↦ inr (inr s) ],
        λ h. elim h [ inl x ↦ absurd x | inr (inl x) ↦ absurd x | inr (inr s) ↦ from (inr s) ],
      )
  counting-trips n zero (error ∷ os) e = (
    λ h. inl tt,
    λ h.
        tripped-stays (record_error (counting n)).0 os
          (rw (record_error-counting n (omega arith)) (ground arith)),
  )
  counting-trips n (suc d) (error ∷ os) e =
      let (to, from) = counting-trips (n + 1) d os (omega arith) in
      rw (record_error-below n (omega arith)) (
        λ h. elim (to h) [ inl s ↦ inl s | inr s ↦ inr (inr s) ],
        λ h. from (elim h [
          | inl s ↦ inl s
          | inr (inl s) ↦ inl (Starts-weaken (suc d) k os (omega arith) s)
          | inr (inr s) ↦ inr s
        ]),
      )

  new-trips :
      (os : List Outcome) → (is_tripped (tell_all (counting 0) os) ≡ true) ↔ HasStreak (suc k) os
  new-trips os =
      let (to, from) = counting-trips 0 k os (omega arith) in
      (λ h. elim (to h) [ inl s ↦ Starts-HasStreak k os s | inr s ↦ s ], λ h. from (inr h))

positive : (k : ℕ) → effective_threshold (pos (suc k)) ≡ pos (suc k)
positive k = ground arith

negative : (n : ℕ) → effective_threshold (negsuc n) ≡ pos 3
negative n = ground arith

-- The breaker is tripped exactly if as many errors as its threshold says stood in a row at some time, 3
-- for a threshold that is not positive, whatever other outcomes there were.
pub trips_iff :
    (threshold : ℤ) (os : List Outcome)
    → pos_part threshold ≤ max_int
    → (is_tripped (tell_all (new_circuit_breaker threshold) os) ≡ true)
      ↔ HasStreak (pos_part (effective_threshold threshold)) os
unfolding new_circuit_breaker
trips_iff (pos zero) os small = new-trips 2 (omega arith) os
trips_iff (pos (suc k)) os small = rw (positive k) (new-trips k (omega arith) os)
trips_iff (negsuc n) os small = rw (negative n) (new-trips 2 (omega arith) os)
