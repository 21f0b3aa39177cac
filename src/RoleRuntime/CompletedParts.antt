-- ===== src/RoleRuntime/CompletedParts.antt =====
-- server.go: the lists of parts that complete an upload.
use gateway_runtime.Prelude.{
  ℕ, ◌≤◌, ◌≡◌, ◌≢◌, ◌↔◌, refl, ap, sym, true, false, not, List, [], ◌∷◌, map, ok, leb, leb→le,
  le→leb, ◌∙◌, is_empty, length, All, str_eq, eq_iff, arith, on_ok, on_require, ok-injective,
  not-eq-true,
}
use gateway_runtime.Duration.{ℤ, pos, negsuc, eq_ℤ}
use gateway_runtime.Text.{trim_space}
use gateway_runtime.Capability.{CompletedPart}
use gateway_runtime.RoleRuntime.Parts.{
  bad_part_number, seen_part, trimmed_part, check_parts, validate_completed_parts,
}

-- 1 ≤ n ≤ 10000
abbrev pub InRange : ℤ → Type 0
InRange n = (k : ℕ) × (n ≡ pos k) × (1 ≤ k) × (k ≤ 10000)

abbrev pub IsPart : CompletedPart → Type 0
IsPart p = InRange p.part_number × (trim_space p.etag ≢ "")

-- a part number that no later part has
abbrev pub Differs : ℤ → List CompletedPart → Type 0
Differs n = All (λ q. q.part_number ≢ n)

abbrev pub DistinctParts : List CompletedPart → Type 0
DistinctParts [] = Unit
DistinctParts (p ∷ parts) = Differs p.part_number parts × DistinctParts parts

-- no part has a number of the list
abbrev Fresh : List ℤ → List CompletedPart → Type 0
Fresh seen = All (λ q. seen_part seen q.part_number ≡ false)

eq_ℤ_iff : (a b : ℤ) → (eq_ℤ a b ≡ true) ↔ (a ≡ b)
eq_ℤ_iff a b = ground arith

InRange-iff : (n : ℤ) → (bad_part_number n ≡ false) ↔ InRange n
InRange-iff (pos k) =
    (λ h. (k, refl, ground arith, ground arith), λ h. let (j, e, lo, hi) = h in ground arith)
InRange-iff (negsuc k) = (λ h. absurd (ground arith), λ h. let (j, e, lo, hi) = h in cc)

Fresh-cons :
    (m : ℤ) (seen : List ℤ) (parts : List CompletedPart)
    → Fresh (m ∷ seen) parts ↔ (Differs m parts × Fresh seen parts)
Fresh-cons m seen [] = (λ h. (tt, tt), λ h. tt)
Fresh-cons m seen (q ∷ parts) =
    let n = q.part_number in
    (
      λ h.
          let (d, f) = (Fresh-cons m seen parts).0 h.1 in
          ((ground (arith, h.0, eq_ℤ_iff m n), d), (ground (arith, h.0), f)),
      λ h. (ground (arith, h.0.0, h.1.0, eq_ℤ_iff m n), (Fresh-cons m seen parts).1 (h.0.1, h.1.1)),
    )

check_parts_sound :
    (seen : List ℤ) (parts : List CompletedPart) {out : List CompletedPart}
    → check_parts seen parts ≡ ok out
    → All IsPart parts × DistinctParts parts × Fresh seen parts × (out ≡ map trimmed_part parts)
unfolding check_parts
check_parts_sound seen [] e = (tt, tt, tt, sym (ok-injective e))
check_parts_sound seen (p ∷ parts) e =
    let n = p.part_number in
    on_require (not (bad_part_number n)) _ _ e λ numbered e₁.
      on_require (not (str_eq (trim_space p.etag) "")) _ _ e₁ λ tagged e₂.
        on_require (not (seen_part seen n)) _ _ e₂ λ fresh e₃.
          on_ok (check_parts (n ∷ seen) parts) _ e₃ λ rest checked e₄.
            let (all, distinct, freshes, same) = check_parts_sound (n ∷ seen) parts checked in
            let (differs, older) = (Fresh-cons n seen parts).0 freshes in
            (
              (
                (
                  (InRange-iff n).0 (not-eq-true _ numbered),
                  ground (arith, eq_iff (trim_space p.etag) "", not-eq-true _ tagged),
                ),
                all,
              ),
              (differs, distinct),
              (not-eq-true _ fresh, older),
              sym (ok-injective e₄) ∙ ap (λ xs. trimmed_part p ∷ xs) same,
            )

check_parts_complete :
    (seen : List ℤ) (parts : List CompletedPart)
    → All IsPart parts
    → DistinctParts parts
    → Fresh seen parts
    → check_parts seen parts ≡ ok (map trimmed_part parts)
unfolding check_parts
check_parts_complete seen [] a d f = refl
check_parts_complete seen (p ∷ parts) ((r, t), a) (n, d) (f, fs) =
    let numbered = (InRange-iff p.part_number).1 r in
    let tagged : str_eq (trim_space p.etag) "" ≡ false =
      ground (arith, eq_iff (trim_space p.etag) "") in
    let rest =
      check_parts_complete (p.part_number ∷ seen) parts a d
        ((Fresh-cons p.part_number seen parts).1 (n, fs)) in
    rw (numbered, tagged, f, rest) refl

pos-length : (parts : List CompletedPart) → is_empty parts ≡ false → 1 ≤ length parts
pos-length [] h = cc
pos-length (p ∷ parts) h = omega arith

length-pos : (parts : List CompletedPart) → 1 ≤ length parts → is_empty parts ≡ false
length-pos [] h = absurd (omega arith)
length-pos (p ∷ parts) h = refl

Fresh-nil : (parts : List CompletedPart) → Fresh [] parts
Fresh-nil [] = tt
Fresh-nil (p ∷ parts) = (refl, Fresh-nil parts)

-- Parts complete an upload exactly where there are 1 to 10000 of them, every number is between 1 and
-- 10000, no number is repeated, and no ETag is blank; what is sent on is the same parts with their
-- ETags trimmed.
pub validate_completed_parts_iff :
    (parts out : List CompletedPart)
    → (validate_completed_parts parts ≡ ok out) ↔ (
        (1 ≤ length parts)
        × (length parts ≤ 10000)
        × All IsPart parts
        × DistinctParts parts
        × (out ≡ map trimmed_part parts))
unfolding validate_completed_parts
validate_completed_parts_iff parts out = (
  λ e. on_require (not (is_empty parts)) _ _ e λ given e₁.
      on_require (leb (length parts) 10000) _ _ e₁ λ few e₂.
        let (all, distinct, fresh, same) = check_parts_sound [] parts e₂ in
        (pos-length parts (not-eq-true _ given), leb→le _ _ few, all, distinct, same),
  λ h.
      let (some_part, few, all, distinct, same) = h in
      rw (length-pos parts some_part, le→leb _ _ few, same)
        (check_parts_complete [] parts all distinct (Fresh-nil parts)),
)
