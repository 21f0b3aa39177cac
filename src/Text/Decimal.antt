-- ===== src/Text/Decimal.antt =====
-- `strconv.ParseInt(s, 10, 64)`.
use Prim.Native.Char.{code}
use Prim.Native.String.{[], ◌∷◌}
use gateway_runtime.Prelude.{
  ℕ, zero, suc, ◌+◌, ◌-◌, ◌*◌, ◌^◌, String, ◌≡◌, refl, ◌&&◌, Option, none, some, leb, ltb, ◌==◌,
  if◌then◌else◌,
}
use gateway_runtime.Duration.{ℤ, pos, negsuc}

digits : ℕ → String → Option ℕ
digits n [] = some n
digits n (c ∷ s) =
    let rest = digits (n * 10 + (code c - b'0')) s in
    if leb b'0' (code c) && leb (code c) b'9' then rest else none

-- the magnitude of a text that must have a digit
magnitude : String → Option ℕ
unfolding digits
magnitude [] = none
magnitude (c ∷ s) = digits 0 (c ∷ s)

abbrev negate : ℕ → ℤ
negate zero = pos 0
negate (suc n) = negsuc n

abbrev non_negative : Option ℕ → Option ℤ
non_negative none = none
non_negative (some n) = if ltb n (2 ^ 63) then some (pos n) else none

abbrev negative : Option ℕ → Option ℤ
negative none = none
negative (some n) = if leb n (2 ^ 63) then some (negate n) else none

unfoldable pub parse_int : String → Option ℤ
unfolding magnitude
parse_int [] = none
parse_int (c ∷ s) =
    if code c == b'-'
    then negative (magnitude s)
    else if code c == b'+'
    then non_negative (magnitude s)
    else non_negative (magnitude (c ∷ s))

parses : parse_int "-120" ≡ some (negsuc 119)
unfolding parse_int
parses = refl

overflows : parse_int "9223372036854775808" ≡ none
unfolding parse_int
overflows = refl
