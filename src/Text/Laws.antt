-- ===== src/Text/Laws.antt =====
-- What trimming leaves, and tests of the text functions at literals.
use Prim.Native.Char.{Char}
use Prim.Native.String.{[], ◌∷◌}
use gateway_runtime.Prelude.{
  String, true, false, ◌≡◌, refl, ap, ◌∙◌, inl, inr, Bool-cases, List, some,
}
use gateway_runtime.Text.{
  is_space, trim_left, trim_right, trim_space, keep, contains, to_lower, equal_fold, split, cut,
  replace_all,
}

keep-trim_right : (c : Char) (s : String) → trim_right (keep c s) ≡ keep c (trim_right s)
unfolding trim_right
keep-trim_right c [] = elim (Bool-cases (is_space c)) [ inl e ↦ rw e | inr e ↦ rw (e, keep) (rw e) ]
keep-trim_right c (d ∷ s) = refl

trim_right_idem : (s : String) → trim_right (trim_right s) ≡ trim_right s
unfolding trim_right
trim_right_idem [] = refl
trim_right_idem (c ∷ s) = keep-trim_right c (trim_right s) ∙ ap (keep c) (trim_right_idem s)

trim_left-keep : (c : Char) (s : String) → is_space c ≡ false → trim_left (keep c s) ≡ keep c s
unfolding trim_left
trim_left-keep c [] e = rw e (rw e)
trim_left-keep c (d ∷ s) e = rw e

trim_left-trim_right-trim_left :
    (s : String) → trim_left (trim_right (trim_left s)) ≡ trim_right (trim_left s)
unfolding trim_left trim_right
trim_left-trim_right-trim_left [] = refl
trim_left-trim_right-trim_left (c ∷ s) = elim (Bool-cases (is_space c)) [
  | inl e ↦ rw e (trim_left-trim_right-trim_left s)
  | inr e ↦ rw e (trim_left-keep c (trim_right s) e)
]

-- Trimming a trimmed text changes nothing.
pub trim_space_idem : (s : String) → trim_space (trim_space s) ≡ trim_space s
unfolding trim_space
trim_space_idem s = ap trim_right (trim_left-trim_right-trim_left s) ∙ trim_right_idem (trim_left s)

trims : trim_space " \t a b \n" ≡ "a b"
unfolding trim_space
trims = refl

lowers : to_lower (" ReBFF") ≡ " rebff"
unfolding to_lower
lowers = refl

folds : equal_fold "bearer" "BEARER" ≡ true
unfolding equal_fold
folds = refl

splits : split "a,,b" "," ≡ List.◌∷◌ "a" (List.◌∷◌ "" (List.◌∷◌ "b" List.[]))
unfolding split
splits = refl

cuts : cut "a:b:c" ":" ≡ some ("a", "b:c")
unfolding cut
cuts = refl

finds : contains "a/../b" ".." ≡ true
unfolding contains
finds = refl

replaces : replace_all "a|b" "|" "," ≡ "a,b"
unfolding replace_all
replaces = refl
