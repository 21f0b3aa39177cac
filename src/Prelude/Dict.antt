-- ===== src/Prelude/Dict.antt =====
-- Go's `map[string]V` as an association list with at most one entry for a key. The order of the
-- entries is the order in which a `range` loop of the model visits them.
use Prim.Native.String.{String}
use mathlib.Core.Path.{◌≡◌, refl}
use mathlib.Core.Option.{Option, none, some}
use mathlib.Core.List.{List, [], ◌∷◌}
use native.Mathlib.Omega.{arith}
use text.Mathlib.Text.{◌==◌}
use text.Mathlib.TextEquality.{eq_iff}
use gateway_runtime.Prelude.Tests.{if◌then◌else◌}

abbrev pub Dict {ℓ} : Type ℓ → Type ℓ
Dict V = List (String × V)

module _ {ℓ} {V : Type ℓ} where
  -- `v, ok := entries[key]`
  unfoldable pub lookup : String → Dict V → Option V
  lookup key [] = none
  lookup key (e ∷ rest) = if e.0 == key then some e.1 else lookup key rest

  -- `entries[key] = value`
  unfoldable pub insert : String → V → Dict V → Dict V
  insert key value [] = (key, value) ∷ []
  insert key value (e ∷ rest) =
      if e.0 == key then (key, value) ∷ rest else e ∷ insert key value rest

  -- `delete(entries, key)`
  unfoldable pub erase : String → Dict V → Dict V
  erase key [] = []
  erase key (e ∷ rest) = if e.0 == key then erase key rest else e ∷ erase key rest

  pub lookup-insert :
      (key other : String) (value : V) (entries : Dict V)
      → lookup other (insert key value entries)
        ≡ (if key == other then some value else lookup other entries)
  unfolding lookup insert
  lookup-insert key other value [] = refl
  lookup-insert key other value (e ∷ rest) =
      let later = lookup-insert key other value rest in
      ground (arith, later, eq_iff key other, eq_iff e.0 key, eq_iff e.0 other)

  pub lookup-erase :
      (key other : String) (entries : Dict V)
      → lookup other (erase key entries) ≡ (if key == other then none else lookup other entries)
  unfolding lookup erase
  lookup-erase key other [] = ground arith
  lookup-erase key other (e ∷ rest) =
      let later = lookup-erase key other rest in
      ground (arith, later, eq_iff key other, eq_iff e.0 key, eq_iff e.0 other)

pub ruleset dict_laws = (lookup-insert, lookup-erase)
