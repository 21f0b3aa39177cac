-- ===== src/Text.antt =====
-- The functions of Go's `strings` package that the runtime uses. A text is the sequence of its code
-- points, as Go's bytes are where they are valid UTF-8. Lowering and folding map every letter whose
-- lower case or fold is an ASCII letter, and leave other letters alone.
pub mod Laws
pub mod Decimal
pub mod Search
pub mod Trim
pub mod Clean
use Prim.Native.Char.{Char, code}
use Prim.Native.String.{[], ◌∷◌}
use mathlib.Core.List
use gateway_runtime.Prelude.{
  ℕ, String, Bool, true, false, ◌&&◌, ◌||◌, List, Option, none, some, leb, ◌==◌, str_eq,
  if◌then◌else◌,
}

-- `unicode.IsSpace`
unfoldable pub is_space : Char → Bool
is_space c =
    let n = code c in
    (leb 9 n && leb n 13)
    || n == 32
    || n == 0x85
    || n == 0xa0
    || n == 0x1680
    || (leb 0x2000 n && leb n 0x200a)
    || n == 0x2028
    || n == 0x2029
    || n == 0x202f
    || n == 0x205f
    || n == 0x3000

unfoldable pub trim_left : String → String
trim_left [] = []
trim_left (c ∷ s) = if is_space c then trim_left s else c ∷ s

-- `c` in front of a text whose trailing space is gone
abbrev pub keep : Char → String → String
keep c [] = if is_space c then [] else c ∷ []
keep c (d ∷ s) = c ∷ d ∷ s

unfoldable pub trim_right : String → String
trim_right [] = []
trim_right (c ∷ s) = keep c (trim_right s)

-- `strings.TrimSpace`
unfoldable pub trim_space : String → String
unfolding trim_left trim_right is_space
trim_space s = trim_right (trim_left s)

-- `strings.HasPrefix`
unfoldable pub has_prefix : String → String → Bool
has_prefix s [] = true
has_prefix [] (d ∷ p) = false
has_prefix (c ∷ s) (d ∷ p) = code c == code d && has_prefix s p

-- `strings.Contains`
unfoldable pub contains : String → String → Bool
unfolding has_prefix
contains [] p = has_prefix [] p
contains (c ∷ s) p = has_prefix (c ∷ s) p || contains s p

translate : String → String → Char → Char
translate (u ∷ us) (l ∷ ls) c = if code u == code c then l else translate us ls c
translate _ _ c = c

-- The letters whose lower case is an ASCII letter: A to Z, the Kelvin sign and the dotted capital I.
lower_char : Char → Char
unfolding translate
lower_char = translate "ABCDEFGHIJKLMNOPQRSTUVWXYZKİ" "abcdefghijklmnopqrstuvwxyzki"

-- The letters that fold to an ASCII letter: A to Z, the Kelvin sign and the long s.
fold_char : Char → Char
unfolding translate
fold_char = translate "ABCDEFGHIJKLMNOPQRSTUVWXYZKſ" "abcdefghijklmnopqrstuvwxyzks"

map_chars : (Char → Char) → String → String
map_chars f [] = []
map_chars f (c ∷ s) = f c ∷ map_chars f s

-- `strings.ToLower`
unfoldable pub to_lower : String → String
unfolding map_chars lower_char
to_lower = map_chars lower_char

-- `strings.EqualFold`
unfoldable pub equal_fold : String → String → Bool
unfolding map_chars fold_char
equal_fold s t = str_eq (map_chars fold_char s) (map_chars fold_char t)

abbrev push : Char → List String → List String
push c List.[] = List.◌∷◌ (c ∷ []) List.[]
push c (List.◌∷◌ p ps) = List.◌∷◌ (c ∷ p) ps

-- `strings.Split` at a separator of one character
unfoldable pub split : String → Char → List String
split [] sep = List.◌∷◌ [] List.[]
split (c ∷ s) sep =
    let rest = split s sep in if code c == code sep then List.◌∷◌ [] rest else push c rest

abbrev push_front : Char → Option (String × String) → Option (String × String)
push_front c none = none
push_front c (some (a, b)) = some (c ∷ a, b)

-- `strings.Cut` at a separator of one character; `strings.SplitN` with at most two parts
unfoldable pub cut : String → Char → Option (String × String)
cut [] sep = none
cut (c ∷ s) sep =
    let rest = cut s sep in if code c == code sep then some ([], s) else push_front c rest

-- `strings.ReplaceAll` of one character by another
unfoldable pub replace_all : String → Char → Char → String
unfolding map_chars
replace_all s old new = map_chars (λ c. if code c == code old then new else c) s
