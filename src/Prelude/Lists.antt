-- ===== src/Prelude/Lists.antt =====
-- Lists over the native numbers, and a predicate that holds of every member.
use Prim.Native.Nat.{ℕ, suc}
use Prim.Native.String.{String}
use mathlib.Core.Path.{◌≡◌, refl}
use mathlib.Core.Bool.{Bool, true, false, ◌||◌}
use mathlib.Core.List.{List, [], ◌∷◌, ◌++◌}
use native.Mathlib.Omega.{arith}
use text.Mathlib.Text.{◌==◌}
use text.Mathlib.TextEquality.{eq_iff}

module _ {ℓ} {A : Type ℓ} where
  abbrev pub length : List A → ℕ
  length [] = 0
  length (x ∷ xs) = suc (length xs)

  abbrev pub is_empty : List A → Bool
  is_empty [] = true
  is_empty (x ∷ xs) = false

module _ {ℓ κ} {A : Type ℓ} (P : A → Type κ) where
  abbrev pub All : List A → Type κ
  All [] = Unit
  All (x ∷ xs) = P x × All xs

  pub All-append : (xs ys : List A) → All xs → All ys → All (xs ++ ys)
  All-append [] ys _ hy = hy
  All-append (x ∷ xs) ys (px, hx) hy = (px, All-append xs ys hx hy)

-- a set of texts, and the search of a list of texts
abbrev pub contains_str : List String → String → Bool
contains_str [] a = false
contains_str (x ∷ xs) a = x == a || contains_str xs a

pub contains_str-append :
    (xs ys : List String) (a : String)
    → contains_str (xs ++ ys) a ≡ (contains_str xs a || contains_str ys a)
contains_str-append [] ys a = refl
contains_str-append (x ∷ xs) ys a = ground (arith, contains_str-append xs ys a)

-- `P` of every text that the list contains
pub All-contains_str {κ} :
    (P : String → Type κ) (xs : List String) (a : String)
    → All P xs
    → contains_str xs a ≡ true
    → P a
All-contains_str P [] a h e = cc
All-contains_str P (x ∷ xs) a (p, h) e = ground (arith, eq_iff x a, All-contains_str P xs a h)

-- no text twice
abbrev pub IsDistinct : List String → Type 0
IsDistinct [] = Unit
IsDistinct (x ∷ xs) = (contains_str xs x ≡ false) × IsDistinct xs
