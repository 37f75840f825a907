-- ===== src/Prelude/Int.antt =====
-- Go's signed `int` and `int64`: 64 bits, with the wrap of `++` written out.
use Prim.Native.Nat.{ℕ, zero, suc, ◌+◌, ◌-◌, ◌^◌, ◌≤◌, ◌<◌}
use mathlib.Core.Path.{◌≡◌}
use mathlib.Core.Bool.{Bool}
use native.Mathlib.Omega.{arith}
use agentfab.Prelude.Tests.{leb, nat_eq, if◌then◌else◌}

-- `negsuc n` is -(n + 1).
pub data ℤ : Type 0 where
  pos : ℕ → ℤ
  negsuc : ℕ → ℤ

abbrev pub pos_part : ℤ → ℕ
pos_part (pos n) = n
pos_part (negsuc n) = 0

abbrev pub neg_part : ℤ → ℕ
neg_part (pos n) = 0
neg_part (negsuc n) = suc n

infix 50 ◌≤ℤ◌ ◌<ℤ◌
abbrev pub ◌≤ℤ◌ : ℤ → ℤ → Type 0
a ≤ℤ b = pos_part a + neg_part b ≤ pos_part b + neg_part a

abbrev pub ◌<ℤ◌ : ℤ → ℤ → Type 0
a <ℤ b = pos_part a + neg_part b < pos_part b + neg_part a

abbrev pub leb_ℤ : ℤ → ℤ → Bool
leb_ℤ a b = leb (pos_part a + neg_part b) (pos_part b + neg_part a)

abbrev pub max_int : ℕ
max_int = 0x7fffffffffffffff

-- The signed number of 64 bits.
abbrev pub of_bits : ℕ → ℤ
of_bits n = if leb n max_int then pos n else negsuc (2 ^ 64 - 1 - n)

-- `n++` on 64 bits.
unfoldable pub increment : ℤ → ℤ
increment (pos n) = if nat_eq n max_int then negsuc max_int else pos (n + 1)
increment (negsuc zero) = pos 0
increment (negsuc (suc n)) = negsuc n

-- `n--` on 64 bits.
unfoldable pub decrement : ℤ → ℤ
decrement (pos zero) = negsuc 0
decrement (pos (suc n)) = pos n
decrement (negsuc n) = if nat_eq n max_int then pos max_int else negsuc (n + 1)

pub increment-pos : (n : ℕ) → n < max_int → increment (pos n) ≡ pos (n + 1)
unfolding increment
increment-pos n h = ground arith

pub decrement_pos : {a : ℤ} {n : ℕ} → a ≡ pos (n + 1) → decrement a ≡ pos n
unfolding decrement
decrement_pos h = ground arith
