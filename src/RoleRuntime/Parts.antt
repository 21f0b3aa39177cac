-- ===== src/RoleRuntime/Parts.antt =====
-- `validateCompletedParts`: the parts that complete a multipart upload.
use gateway_runtime.Prelude.{
  String, Bool, false, ◌||◌, not, List, [], ◌∷◌, Result, ok, ◌>>=◌, ◌>>◌, require, leb, is_empty,
  length, str_eq,
}
use gateway_runtime.Duration.{ℤ, pos, exceeds, eq_ℤ}
use gateway_runtime.Text.{trim_space}
use gateway_runtime.Capability.{CompletedPart}

-- n < 1 || n > 10000
abbrev pub bad_part_number : ℤ → Bool
bad_part_number n = exceeds (pos 1) n || exceeds n (pos 10000)

abbrev pub seen_part : List ℤ → ℤ → Bool
seen_part [] n = false
seen_part (m ∷ seen) n = eq_ℤ m n || seen_part seen n

abbrev pub trimmed_part : CompletedPart → CompletedPart
trimmed_part p = record { part_number = p.part_number; etag = trim_space p.etag }

-- The loop; `seen` holds the part numbers before, and the rest of `out` is returned.
unfoldable pub check_parts : List ℤ → List CompletedPart → Result String (List CompletedPart)
check_parts seen [] = ok []
check_parts seen (p ∷ parts) = do
  require (not (bad_part_number p.part_number)) "part_number must be between 1 and 10000"
  require (not (str_eq (trim_space p.etag) "")) "etag is required for every part"
  require (not (seen_part seen p.part_number)) "duplicate part_number"
  out ← check_parts (p.part_number ∷ seen) parts
  ok (trimmed_part p ∷ out)

unfoldable pub validate_completed_parts : List CompletedPart → Result String (List CompletedPart)
unfolding check_parts
validate_completed_parts parts = do
  require (not (is_empty parts)) "parts are required"
  require (leb (length parts) 10000) "too many parts"
  check_parts [] parts
