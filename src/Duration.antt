-- ===== src/Duration.antt =====
-- Go's `time.Duration` and `int64`: signed numbers of nanoseconds, with the wrap-around of a product
-- written out. The library's ℤ stands on other numbers than those of `arith`.
use gateway_runtime.Prelude.{
  ℕ, ◌-◌, ◌*◌, ◌%◌, ◌^◌, ◌<◌, ◌≡◌, Bool, true, false, ltb, ◌==◌, if◌then◌else◌, arith,
}

-- `negsuc n` is -(n + 1).
pub data ℤ : Type 0 where
  pos : ℕ → ℤ
  negsuc : ℕ → ℤ

abbrev pub Duration : Type 0
Duration = ℤ

-- `time.Second` and its multiples, in nanoseconds
abbrev pub second : ℕ
second = 1000000000

abbrev pub minute : ℕ
minute = 60 * second

abbrev pub hour : ℕ
hour = 60 * minute

-- x > 0
abbrev pub is_positive : ℤ → Bool
is_positive (pos n) = ltb 0 n
is_positive (negsuc n) = false

-- x < 0
abbrev pub is_negative : ℤ → Bool
is_negative (pos n) = false
is_negative (negsuc n) = true

-- a > b
abbrev pub exceeds : ℤ → ℤ → Bool
exceeds (pos a) (pos b) = ltb b a
exceeds (pos a) (negsuc b) = true
exceeds (negsuc a) (pos b) = false
exceeds (negsuc a) (negsuc b) = ltb a b

abbrev pub eq_ℤ : ℤ → ℤ → Bool
eq_ℤ (pos a) (pos b) = a == b
eq_ℤ (negsuc a) (negsuc b) = a == b
eq_ℤ _ _ = false

-- The magnitude of a positive number; what a setting falls back to where it is not positive:
-- `if d <= 0 { d = default }`.
abbrev pub positive_or : ℤ → ℕ → ℕ
positive_or (pos n) d = if ltb 0 n then n else d
positive_or (negsuc n) d = d

-- The 64-bit pattern of a product of positive numbers, read as a signed number.
unfoldable pub to_int64 : ℕ → ℤ
to_int64 n = let m = n % 2 ^ 64 in if ltb m (2 ^ 63) then pos m else negsuc (2 ^ 64 - 1 - m)

-- `time.Duration(seconds) * time.Second`
unfoldable pub seconds : ℕ → Duration
unfolding to_int64
seconds n = to_int64 (n * second)

pub positive_or-pos : (d : ℤ) (k : ℕ) → 0 < k → 0 < positive_or d k
positive_or-pos d k h = ground arith

-- Below the bound of an `int64` the product is exact.
pub seconds_exact : (n : ℕ) → n * second < 2 ^ 63 → seconds n ≡ pos (n * second)
unfolding seconds
seconds_exact n h = ground arith
