-- ===== src/Prelude/Maps.antt =====
-- Go's `map[string]V` as an association list. A key stands once in a map that starts empty.
use Prim.Native.String.{String, compare}
use mathlib.Core.Path.{◌≡◌, refl}
use mathlib.Core.Option.{Option, none, some}
use mathlib.Core.Option
use mathlib.Core.List.{List, [], ◌∷◌}
use native.Mathlib.Omega.{arith}
use text.Mathlib.Text.{◌==◌, is_lt}
use text.Mathlib.TextEquality.{eq_iff}
use agentfab.Prelude.Tests.{if◌then◌else◌}

abbrev pub Table {ℓ} : Type ℓ → Type ℓ
Table V = List (String × V)

module _ {ℓ} {V : Type ℓ} where
  -- `delete(m, k)`.
  unfoldable pub delete : String → Table V → Table V
  delete key [] = []
  delete key ((at, w) ∷ rest) = if at == key then delete key rest else (at, w) ∷ delete key rest

  -- `v, ok := m[k]`.
  unfoldable pub lookup : String → Table V → Option V
  lookup key [] = none
  lookup key ((at, w) ∷ rest) = if at == key then some w else lookup key rest

  -- `for k, v := range m { m[k] = f(v) }`.
  unfoldable pub update_all : (V → V) → Table V → Table V
  update_all f [] = []
  update_all f ((at, w) ∷ rest) = (at, f w) ∷ update_all f rest

  -- `m[k] = v`.
  unfoldable pub insert : String → V → Table V → Table V
  insert key new [] = (key, new) ∷ []
  insert key new ((at, w) ∷ rest) =
      if at == key then (at, new) ∷ rest else (at, w) ∷ insert key new rest

  pub lookup-delete :
      (key asked : String) (table : Table V)
      → lookup asked (delete key table) ≡ (if key == asked then none else lookup asked table)
  unfolding lookup delete
  lookup-delete key asked [] = ground (arith, eq_iff key asked)
  lookup-delete key asked ((at, w) ∷ rest) =
      ground (arith, lookup-delete key asked rest, eq_iff at asked, eq_iff at key, eq_iff key asked)

  pub lookup-insert :
      (key asked : String) (new : V) (table : Table V)
      → lookup asked (insert key new table)
        ≡ (if key == asked then some new else lookup asked table)
  unfolding lookup insert
  lookup-insert key asked new [] = refl
  lookup-insert key asked new ((at, w) ∷ rest) =
      ground
        (arith, lookup-insert key asked new rest, eq_iff at asked, eq_iff at key, eq_iff key asked)

  pub lookup-update_all :
      (f : V → V) (k : String) (m : Table V) → lookup k (update_all f m) ≡ Option.map f (lookup k m)
  unfolding lookup update_all
  lookup-update_all f k [] = refl
  lookup-update_all f k ((i, w) ∷ m) = ground (arith, lookup-update_all f k m)

-- A read of a map with a zero value: `m[k]`.
abbrev pub or_zero {ℓ} : {V : Type ℓ} → V → Option V → V
or_zero z none = z
or_zero z (some v) = v

pub ruleset table_laws = (lookup-insert, lookup-delete, lookup-update_all)

module _ {ℓ} {V : Type ℓ} where
  -- `for _, v := range m { out = append(out, v) }`.
  unfoldable pub values : Table V → List V
  values [] = []
  values ((k, v) ∷ m) = v ∷ values m

  -- `sort.Slice` by a text.
  unfoldable pub insert_sorted : (V → String) → V → List V → List V
  insert_sorted key x [] = x ∷ []
  insert_sorted key x (y ∷ ys) =
      if is_lt (compare (key y) (key x)) then y ∷ insert_sorted key x ys else x ∷ y ∷ ys

  unfoldable pub sort_by : (V → String) → List V → List V
  unfolding insert_sorted
  sort_by key [] = []
  sort_by key (x ∷ xs) = insert_sorted key x (sort_by key xs)
