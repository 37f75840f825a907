-- ===== src/Prelude/Errors.antt =====
-- Go's pair of a value and an error: the value is there exactly if the error is nil.
use mathlib.Core.Path.{◌≡◌, refl}
use mathlib.Core.Bool.{Bool, true, false}
use mathlib.Core.Logic.{◌⊎◌, inl, inr}
use mathlib.Core.List.{List, [], ◌∷◌}
use native.Mathlib.Omega.{arith}
use agentfab.Prelude.Lists.{All}

pub data Result {ℓ κ} (E : Type ℓ) (A : Type κ) : Type (ℓ ⊔ κ) where
  ok : A → Result E A
  err : E → Result E A

infixl 5 ◌>>=◌ ◌>>◌
abbrev pub ◌>>=◌ {ℓ κ μ} :
    {E : Type ℓ} {A : Type κ} {B : Type μ} → Result E A → (A → Result E B) → Result E B
ok a >>= f = f a
err e >>= f = err e

abbrev pub ◌>>◌ {ℓ κ} : {E : Type ℓ} {B : Type κ} → Result E (Unit {0}) → Result E B → Result E B
m >> k = m >>= λ _. k

-- `if test { return err }`.
abbrev pub fail_if {ℓ} : {E : Type ℓ} → Bool → E → Result E (Unit {0})
fail_if true e = err e
fail_if false e = ok tt

-- `for _, x := range xs { if … { return err } }`.
unfoldable pub check_each {ℓ κ} :
    {E : Type ℓ} {A : Type κ} → (A → Result E (Unit {0})) → List A → Result E (Unit {0})
check_each f [] = ok tt
check_each f (x ∷ xs) = f x >> check_each f xs

module _ {ℓ κ} {E : Type ℓ} {A : Type κ} (f : A → Result E (Unit {0})) where
  pub check_each-All : (xs : List A) → check_each f xs ≡ ok tt → All (λ x. f x ≡ ok tt) xs
  unfolding check_each
  check_each-All [] h = tt
  check_each-All (x ∷ xs) h = (ground arith, check_each-All xs (ground arith))

  pub All-check_each : (xs : List A) → All (λ x. f x ≡ ok tt) xs → check_each f xs ≡ ok tt
  unfolding check_each
  All-check_each [] h = refl
  All-check_each (x ∷ xs) h = ground (arith, All-check_each xs h.1)

pub ok-cases {ℓ} : {E : Type ℓ} (r : Result E (Unit {0})) → (r ≡ ok tt) ⊎ ((e : E) × (r ≡ err e))
ok-cases (ok tt) = inl refl
ok-cases (err e) = inr (e, refl)

abbrev pub is_err {ℓ κ} : {E : Type ℓ} {A : Type κ} → Result E A → Bool
is_err (ok a) = false
is_err (err e) = true
