-- ===== src/Text/Search.antt =====
-- What `contains` and `has_prefix` say of a text.
use Prim.Native.Char.{Char}
use Prim.Native.String.{[], ◌∷◌, ◌++◌}
use text.Mathlib.TextLemmas.{nil-append, cons-append}
use gateway_runtime.Prelude.{String, ◌≡◌, ◌≢◌, refl, true, false, arith}
use gateway_runtime.Text.{has_prefix, contains}

-- `p` stands somewhere in `s`.
abbrev pub IsInside : String → String → Type 0
IsInside p s = (before : String) × (after : String) × (s ≡ before ++ (p ++ after))

has_prefix-append : (p after : String) → has_prefix (p ++ after) p ≡ true
unfolding has_prefix
has_prefix-append [] after = refl
has_prefix-append (d ∷ p) after = rw cons-append (ground (arith, has_prefix-append p after))

contains_of_prefix : (s p : String) → has_prefix s p ≡ true → contains s p ≡ true
unfolding contains
contains_of_prefix [] p h = h
contains_of_prefix (c ∷ s) p h = rw h refl

contains-cons : (c : Char) (s p : String) → contains s p ≡ true → contains (c ∷ s) p ≡ true
unfolding contains
contains-cons c s p h = ground arith

contains-append : (before p after : String) → contains (before ++ (p ++ after)) p ≡ true
contains-append [] p after =
    rw nil-append (contains_of_prefix (p ++ after) p (has_prefix-append p after))
contains-append (c ∷ before) p after =
    rw cons-append (contains-cons c (before ++ (p ++ after)) p (contains-append before p after))

-- A text that the search rejects does not hold the pattern.
pub not-IsInside : (p s : String) → contains s p ≡ false → ¬ IsInside p s
not-IsInside p s h (before, after, e) = cc (h, e, contains-append before p after)

-- A text without the prefix does not begin with it.
pub not-begins : (p s : String) → has_prefix s p ≡ false → (after : String) → s ≢ p ++ after
not-begins p s h after e = cc (h, e, has_prefix-append p after)
