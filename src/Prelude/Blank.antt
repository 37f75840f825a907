-- ===== src/Prelude/Blank.antt =====
-- Go's `strings.TrimSpace`, as far as it asks whether anything is left: the spaces of Unicode.
use Prim.Native.Nat.{ℕ}
use Prim.Native.Char.{code}
use Prim.Native.String.{String, [], ◌∷◌}
use mathlib.Core.Bool.{Bool, true, ◌&&◌, ◌||◌}
use agentfab.Prelude.Tests.{leb, nat_eq}

abbrev within : ℕ → ℕ → ℕ → Bool
within low high n = leb low n && leb n high

unfoldable pub is_space : ℕ → Bool
is_space n =
    within 9 13 n
    || nat_eq n 0x20
    || nat_eq n 0x85
    || nat_eq n 0xa0
    || nat_eq n 0x1680
    || within 0x2000 0x200a n
    || within 0x2028 0x2029 n
    || nat_eq n 0x202f
    || nat_eq n 0x205f
    || nat_eq n 0x3000

-- `strings.TrimSpace(s) == ""`.
unfoldable pub is_blank : String → Bool
unfolding is_space
is_blank [] = true
is_blank (c ∷ s) = let rest = is_blank s in is_space (code c) && rest
