-- ===== src/StorageContract/Verification.antt =====
-- contracts.go: the conditions under which an upload counts as verified.
use gateway_runtime.Prelude.{
  String, Bool, true, ◌&&◌, ◌≡◌, refl, ap, ◌∙◌, ◌↔◌, ◌⊎◌, inl, inr, List, [], ◌∷◌, ◌++◌, Option,
  none, some, ok, is_empty, str_eq, eq_iff, arith, on_ok, ok-injective, All, Bool-cases,
}
use gateway_runtime.Prelude.Dict.{Dict}
use gateway_runtime.Duration.{ℤ}
use gateway_runtime.Text.{trim_space, equal_fold}
use gateway_runtime.Capability.{StorageMetadata}
use gateway_runtime.StorageContract.{
  UploadVerificationIntent, UploadVerificationResult, validate_verification, size_mismatch,
  type_mismatch, algorithm_key, actual_checksum, checksum_mismatches, all_mismatches,
  verification_result, verify_upload,
}

-- no size is expected, or the stored one
abbrev pub IsSize : Option ℤ → ℤ → Type 0
IsSize none actual = Unit
IsSize (some n) actual = actual ≡ n

-- no type is expected, or the stored one without regard to case
abbrev pub IsContentType : String → String → Type 0
IsContentType expected actual =
    (str_eq (trim_space expected) "" ≡ true)
    ⊎ (equal_fold (trim_space expected) (trim_space actual) ≡ true)

-- the stored checksum of the algorithm is the one that is expected
abbrev pub IsChecksum : Dict String → String × String → Type 0
IsChecksum stored e = trim_space e.1 ≡ actual_checksum (algorithm_key e.0) stored

-- The object is there and is what the intent expects.
pub record IsAsExpected (i : UploadVerificationIntent) (m : StorageMetadata) : Type 0 where
  pub exists : m.exists ≡ true
  pub size : IsSize i.expected_size m.size
  pub content_type : IsContentType i.expected_content_type m.content_type
  pub checksums : All (IsChecksum m.checksums) i.expected_checksums

is_empty-append : {A : Type 0} (xs ys : List A) → is_empty (xs ++ ys) ≡ (is_empty xs && is_empty ys)
is_empty-append [] ys = refl
is_empty-append (x ∷ xs) ys = refl

and-eq-true : (a b : Bool) → (a && b) ≡ true → (a ≡ true) × (b ≡ true)
and-eq-true a b h = ground arith

size_mismatch-IsSize :
    (expected : Option ℤ) (actual : ℤ)
    → (is_empty (size_mismatch expected actual) ≡ true) ↔ IsSize expected actual
unfolding size_mismatch
size_mismatch-IsSize none actual = (λ h. tt, λ h. refl)
size_mismatch-IsSize (some n) actual = ground arith

type_mismatch-IsContentType :
    (expected actual : String)
    → (is_empty (type_mismatch expected actual) ≡ true) ↔ IsContentType expected actual
unfolding type_mismatch
type_mismatch-IsContentType expected actual = ground arith

checksum_mismatches-IsChecksum :
    (expected stored : Dict String)
    → (is_empty (checksum_mismatches expected stored) ≡ true) ↔ All (IsChecksum stored) expected
unfolding checksum_mismatches
checksum_mismatches-IsChecksum [] stored = (λ h. tt, λ h. refl)
checksum_mismatches-IsChecksum (e ∷ rest) stored =
    let later = checksum_mismatches-IsChecksum rest stored in
    let same = eq_iff (trim_space e.1) (actual_checksum (algorithm_key e.0) stored) in
    elim (Bool-cases (str_eq (trim_space e.1) (actual_checksum (algorithm_key e.0) stored))) [
      | inl p ↦ (λ h. (same.0 p, later.0 (rw p at h)), λ h. rw p (later.1 h.1))
      | inr p ↦ (λ h. absurd (cc (rw p at h)), λ h. absurd (cc (p, same.1 h.0)))
    ]

verified_iff :
    (i : UploadVerificationIntent) (m : StorageMetadata)
    → ((verification_result i m).verified ≡ true) ↔ IsAsExpected i m
unfolding verification_result all_mismatches
verified_iff i m =
    let size = size_mismatch-IsSize i.expected_size m.size in
    let type = type_mismatch-IsContentType i.expected_content_type m.content_type in
    let sums = checksum_mismatches-IsChecksum i.expected_checksums m.checksums in
    elim (Bool-cases m.exists) [
      | inr gone ↦ (λ h. absurd (cc (rw gone at h)), λ h. absurd (cc (gone, h.exists)))
      | inl here ↦ (
        λ h.
            let all = rw (here, is_empty-append, is_empty-append) at h in
            let split = and-eq-true _ _ all in
            let rest = and-eq-true _ _ split.1 in
            record {
              exists = here;
              size = size.0 split.0;
              content_type = type.0 rest.0;
              checksums = sums.0 rest.1;
            },
        λ h.
            rw
              (
                here,
                is_empty-append,
                is_empty-append,
                size.1 h.size,
                type.1 h.content_type,
                sums.1 h.checksums,
              )
              refl,
      )
    ]

-- `VerifyUpload` verifies an upload exactly where the intent is valid, the object exists, and its size,
-- its content type (without regard to case) and the checksum of every expected algorithm are the
-- expected ones, each where one is expected.
pub verify_upload_iff :
    (i : UploadVerificationIntent) (m : StorageMetadata)
    → ((r : UploadVerificationResult) × (verify_upload i m ≡ ok r) × (r.verified ≡ true))
      ↔ ((validate_verification i ≡ ok tt) × IsAsExpected i m)
unfolding verify_upload
verify_upload_iff i m = (
  λ h.
      let (r, e, v) = h in
      on_ok (validate_verification i) _ e λ u valid e₁. (
        valid,
        (verified_iff i m).0
            (ap (λ (q : UploadVerificationResult). q.verified) (ok-injective e₁) ∙ v),
      ),
  λ h. (verification_result i m, rw (h.0) refl, (verified_iff i m).1 h.1),
)
