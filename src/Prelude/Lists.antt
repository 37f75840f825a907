-- ===== src/Prelude/Lists.antt =====
-- Lists measured by native numbers, membership tests on texts, and predicates by recursion.
use Prim.Native.Nat.{ℕ, suc, ◌+◌, ◌≤◌}
use Prim.Native.String.{String}
use mathlib.Core.Path.{◌≡◌, refl, sym, subst}
use mathlib.Core.Bool.{Bool, true, false, ◌||◌}
use mathlib.Core.Logic.{◌⊎◌, inl, inr}
use mathlib.Core.List.{List, [], ◌∷◌, ◌++◌, map}
use native.Mathlib.Omega.{arith}
use text.Mathlib.Text.{◌==◌}
use text.Mathlib.TextEquality.{eq_iff}
use agentfab.Prelude.Tests.{if◌then◌else◌, Bool-cases}

module _ {ℓ} {A : Type ℓ} where
  abbrev pub length : List A → ℕ
  length [] = 0
  length (x ∷ xs) = suc (length xs)

  pub length-append : (xs ys : List A) → length (xs ++ ys) ≡ length xs + length ys
  length-append [] ys = omega arith
  length-append (x ∷ xs) ys = omega (arith, length-append xs ys)

  -- `for … { if test(x) { out = append(out, x) } }`.
  unfoldable pub select : (A → Bool) → List A → List A
  select p [] = []
  select p (x ∷ xs) = if p x then x ∷ select p xs else select p xs

  -- `for … { if test(x) { return true } }`.
  unfoldable pub any : (A → Bool) → List A → Bool
  any p [] = false
  any p (x ∷ xs) = p x || any p xs

  abbrev pub All {κ} : (A → Type κ) → List A → Type κ
  All P [] = Unit
  All P (x ∷ xs) = P x × All P xs

-- Membership as a place in the list.
abbrev pub In : {A : Type 0} → A → List A → Type 0
In a [] = ⊥
In a (x ∷ xs) = (a ≡ x) ⊎ In a xs

pub All-In {κ} : {A : Type 0} (P : A → Type κ) (xs : List A) → All P xs → (a : A) → In a xs → P a
All-In P [] h a m = elim m [ ]
All-In P (x ∷ xs) h a (inl e) = subst P (sym e) h.0
All-In P (x ∷ xs) h a (inr m) = All-In P xs h.1 a m

pub In-All {κ} : {A : Type 0} (P : A → Type κ) (xs : List A) → ((a : A) → In a xs → P a) → All P xs
In-All P [] h = tt
In-All P (x ∷ xs) h = (h x (inl refl), In-All P xs (λ a m. h a (inr m)))

module _ {A : Type 0} where
  pub In-append_left : (a : A) (xs ys : List A) → In a xs → In a (xs ++ ys)
  In-append_left a [] ys m = elim m [ ]
  In-append_left a (x ∷ xs) ys (inl e) = inl e
  In-append_left a (x ∷ xs) ys (inr m) = inr (In-append_left a xs ys m)

  pub In-append_right : (a : A) (xs ys : List A) → In a ys → In a (xs ++ ys)
  In-append_right a [] ys m = m
  In-append_right a (x ∷ xs) ys m = inr (In-append_right a xs ys m)

  pub In-append : (a : A) (xs ys : List A) → In a (xs ++ ys) → In a xs ⊎ In a ys
  In-append a [] ys m = inr m
  In-append a (x ∷ xs) ys (inl e) = inl (inl e)
  In-append a (x ∷ xs) ys (inr m) = elim (In-append a xs ys m) [
    | inl l ↦ inl (inr l)
    | inr r ↦ inr r
  ]

  pub In-select : (p : A → Bool) (a : A) (xs : List A) → In a (select p xs) → In a xs × (p a ≡ true)
  unfolding select
  In-select p a [] m = elim m [ ]
  In-select p a (x ∷ xs) m = elim (Bool-cases (p x)) [
    | inl t ↦ elim (rw t at m) [
      | inl e ↦ (inl e, rw e t)
      | inr k ↦ let r = In-select p a xs k in (inr r.0, r.1)
    ]
    | inr f ↦ let r = In-select p a xs (rw f at m) in (inr r.0, r.1)
  ]

  pub select-In : (p : A → Bool) (a : A) (xs : List A) → In a xs → p a ≡ true → In a (select p xs)
  unfolding select
  select-In p a [] m h = elim m [ ]
  select-In p a (x ∷ xs) m h = elim (Bool-cases (p x)) [
    | inl t ↦ rw t (elim m [ inl e ↦ inl e | inr k ↦ inr (select-In p a xs k h) ])
    | inr f ↦ rw f (elim m [ inl e ↦ absurd (cc) | inr k ↦ select-In p a xs k h ])
  ]

  pub any-In : (p : A → Bool) (xs : List A) → any p xs ≡ true → (a : A) × In a xs × (p a ≡ true)
  unfolding any
  any-In p [] h = absurd (cc)
  any-In p (x ∷ xs) h = elim (Bool-cases (p x)) [
    | inl t ↦ (x, inl refl, t)
    | inr f ↦ let (a, m, t) = any-In p xs (ground arith) in (a, inr m, t)
  ]

  pub In-any : (p : A → Bool) (xs : List A) (a : A) → In a xs → p a ≡ true → any p xs ≡ true
  unfolding any
  In-any p [] a m h = elim m [ ]
  In-any p (x ∷ xs) a (inl e) h = ground arith
  In-any p (x ∷ xs) a (inr m) h = ground (arith, In-any p xs a m h)

-- A Go set of texts, `map[string]bool`, by the list of the keys that it holds.
unfoldable pub contains : List String → String → Bool
contains [] k = false
contains (x ∷ xs) k = x == k || contains xs k

pub contains-In : (xs : List String) (k : String) → contains xs k ≡ true → In k xs
unfolding contains
contains-In [] k h = absurd (cc)
contains-In (x ∷ xs) k h = elim (Bool-cases (x == k)) [
  | inl t ↦ inl (sym ((eq_iff x k).0 t))
  | inr f ↦ inr (contains-In xs k (ground arith))
]

pub In-contains : (xs : List String) (k : String) → In k xs → contains xs k ≡ true
unfolding contains
In-contains [] k m = elim m [ ]
In-contains (x ∷ xs) k (inl e) = ground (arith, eq_iff x k)
In-contains (x ∷ xs) k (inr m) = ground (arith, In-contains xs k m)

pub contains-false : (xs : List String) (k : String) → contains xs k ≡ false → ¬ In k xs
contains-false xs k h m = cc (In-contains xs k m)

pub contains-cases : (xs : List String) (k : String) → In k xs ⊎ (contains xs k ≡ false)
contains-cases xs k = elim (Bool-cases (contains xs k)) [
  | inl t ↦ inl (contains-In xs k t)
  | inr f ↦ inr f
]

pub contains_absent : (xs : List String) (k : String) → ¬ In k xs → contains xs k ≡ false
contains_absent xs k h = elim (contains-cases xs k) [ inl m ↦ absurd (h m) | inr f ↦ f ]

module _ {A B : Type 0} (f : A → B) where
  pub In-map : (a : A) (xs : List A) {b : B} → In a xs → f a ≡ b → In b (map f xs)
  In-map a [] m h = elim m [ ]
  In-map a (x ∷ xs) (inl e) h = inl (cc)
  In-map a (x ∷ xs) (inr m) h = inr (In-map a xs m h)

  pub map-In : (b : B) (xs : List A) → In b (map f xs) → (a : A) × In a xs × (f a ≡ b)
  map-In b [] m = elim m [ ]
  map-In b (x ∷ xs) (inl e) = (x, inl refl, sym e)
  map-In b (x ∷ xs) (inr m) = let (a, k, e) = map-In b xs m in (a, inr k, e)

pub length-map {ℓ κ} :
    {A : Type ℓ} {B : Type κ} (f : A → B) (xs : List A) → length (map f xs) ≡ length xs
length-map f [] = refl
length-map f (x ∷ xs) = omega (arith, length-map f xs)

pub length-select-le {ℓ} :
    {A : Type ℓ} (p : A → Bool) (xs : List A) → length (select p xs) ≤ length xs
unfolding select
length-select-le p [] = omega arith
length-select-le p (x ∷ xs) = ground (arith, length-select-le p xs)
