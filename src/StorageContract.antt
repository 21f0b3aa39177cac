-- ===== src/StorageContract.antt =====
-- internal/storagecontract/contracts.go: the intents and references that clients and applications
-- exchange with the storage role, their validation, and the check of an upload against its metadata.
pub mod Verification
mod Tests
use gateway_runtime.Prelude.{
  ℕ, String, Bool, true, false, ◌||◌, ◌&&◌, not, List, [], ◌∷◌, ◌++◌, Option, none, some, Result,
  ok, ◌>>◌, require, is_empty, str_eq, if◌then◌else◌,
}
use gateway_runtime.Prelude.Dict.{Dict}
use gateway_runtime.Duration.{ℤ, Duration, is_negative, eq_ℤ}
use gateway_runtime.Text.{trim_space, has_prefix, contains, to_lower, equal_fold}
use gateway_runtime.Capability.{PresignedOperation, StorageMetadata}

pub record UploadIntent : Type 0 where
  pub target : String
  pub object_key : String
  pub content_type : String
  pub expires_in : Duration

pub record DownloadIntent : Type 0 where
  pub target : String
  pub object_key : String
  pub expires_in : Duration

pub record StorageReference : Type 0 where
  pub target : String
  pub object_key : String
  pub version_id : String
  pub etag : String
  pub size : ℤ
  pub content_type : String
  pub checksums : Dict String

-- `expected_size` is a pointer: `none` for nil.
pub record UploadVerificationIntent : Type 0 where
  pub target : String
  pub object_key : String
  pub expected_size : Option ℤ
  pub expected_content_type : String
  pub expected_checksums : Dict String

-- A size is kept as a number where the source prints it.
pub data Shown : Type 0 where
  text : String → Shown
  number : ℤ → Shown

pub data Field : Type 0 where
  object size content_type : Field
  checksum : String → Field

pub record VerificationMismatch : Type 0 where
  pub field : Field
  pub expected : Shown
  pub actual : Shown

pub record UploadVerificationResult : Type 0 where
  pub verified : Bool
  pub reference : StorageReference
  pub mismatches : List VerificationMismatch

pub record UploadGrant : Type 0 where
  pub url : String
  pub method : String
  pub expires_at : ℕ
  pub headers : Dict String

pub record DownloadGrant : Type 0 where
  pub url : String
  pub method : String
  pub expires_at : ℕ
  pub headers : Dict String

-- The last test is for two backslashes: the Go literal is "\\\\".
unfoldable pub bad_key : String → Bool
bad_key key = has_prefix key "/" || contains key ".." || contains key "\\\\"

unfoldable pub validate_object_key : String → Result String (Unit {0})
unfolding bad_key
validate_object_key v =
    let key = trim_space v in
    require (not (str_eq key "")) "object_key is required"
    >> require (not (bad_key key)) "object_key is invalid"

unfoldable pub require_target : String → Result String (Unit {0})
require_target target = require (not (str_eq (trim_space target) "")) "target is required"

unfoldable pub validate_upload : UploadIntent → Result String (Unit {0})
unfolding require_target validate_object_key
validate_upload i =
    require_target i.target
    >> (validate_object_key i.object_key
        >> require (not (is_negative i.expires_in)) "expires_in must not be negative")

unfoldable pub validate_download : DownloadIntent → Result String (Unit {0})
unfolding require_target validate_object_key
validate_download i =
    require_target i.target
    >> (validate_object_key i.object_key
        >> require (not (is_negative i.expires_in)) "expires_in must not be negative")

unfoldable pub validate_reference : StorageReference → Result String (Unit {0})
unfolding require_target validate_object_key
validate_reference r =
    require_target r.target
    >> (validate_object_key r.object_key
        >> require (not (is_negative r.size)) "size must not be negative")

abbrev negative_size : Option ℤ → Bool
negative_size none = false
negative_size (some n) = is_negative n

-- the loop of `Validate` over the expected checksums
unfoldable pub checksums_given : Dict String → Bool
checksums_given [] = true
checksums_given ((algorithm, value) ∷ rest) =
    not (str_eq (trim_space algorithm) "" || str_eq (trim_space value) "") && checksums_given rest

unfoldable pub validate_verification : UploadVerificationIntent → Result String (Unit {0})
unfolding require_target validate_object_key checksums_given
validate_verification i =
    require_target i.target
    >> (validate_object_key i.object_key
        >> (require (not (negative_size i.expected_size)) "expected_size must not be negative"
            >> require (checksums_given i.expected_checksums)
                "expected checksum algorithm and value are required"))

unfoldable pub reference_from_metadata : String → StorageMetadata → StorageReference
reference_from_metadata target m = record {
  target = trim_space target;
  object_key = m.object_key;
  version_id = m.version_id;
  etag = m.etag;
  size = m.size;
  content_type = m.content_type;
  checksums = m.checksums;
}

unfoldable pub upload_grant_from_operation : PresignedOperation → UploadGrant
upload_grant_from_operation op = record {
  url = op.url;
  method = op.method;
  expires_at = op.expires_at;
  headers = op.headers;
}

unfoldable pub download_grant_from_operation : PresignedOperation → DownloadGrant
download_grant_from_operation op = record {
  url = op.url;
  method = op.method;
  expires_at = op.expires_at;
  headers = op.headers;
}

unfoldable pub size_mismatch : Option ℤ → ℤ → List VerificationMismatch
size_mismatch none actual = []
size_mismatch (some n) actual =
    if eq_ℤ actual n
    then []
    else record { field = size; expected = number n; actual = number actual } ∷ []

unfoldable pub type_mismatch : String → String → List VerificationMismatch
type_mismatch expected actual =
    if str_eq (trim_space expected) "" || equal_fold (trim_space expected) (trim_space actual)
    then []
    else record {
      field = content_type;
      expected = text (trim_space expected);
      actual = text (trim_space actual);
    }
      ∷ []

-- an algorithm's name as it is compared
abbrev pub algorithm_key : String → String
algorithm_key algorithm = to_lower (trim_space algorithm)

-- The inner loop: the first stored checksum of the algorithm, the empty text where there is none.
unfoldable pub actual_checksum : String → Dict String → String
actual_checksum key [] = ""
actual_checksum key ((algorithm, value) ∷ rest) =
    if str_eq (algorithm_key algorithm) key then trim_space value else actual_checksum key rest

abbrev checksum_mismatch : String → String → String → List VerificationMismatch
checksum_mismatch key expected actual =
    if str_eq expected actual
    then []
    else record { field = checksum key; expected = text expected; actual = text actual } ∷ []

unfoldable pub checksum_mismatches : Dict String → Dict String → List VerificationMismatch
unfolding actual_checksum
checksum_mismatches [] stored = []
checksum_mismatches ((algorithm, expected) ∷ rest) stored =
    checksum_mismatch (algorithm_key algorithm) (trim_space expected)
      (actual_checksum (algorithm_key algorithm) stored)
    ++ checksum_mismatches rest stored

unfoldable pub all_mismatches :
    UploadVerificationIntent → StorageMetadata → List VerificationMismatch
unfolding size_mismatch type_mismatch checksum_mismatches
all_mismatches i m =
    size_mismatch i.expected_size m.size
    ++ (type_mismatch i.expected_content_type m.content_type
        ++ checksum_mismatches i.expected_checksums m.checksums)

unfoldable pub verification_result :
    UploadVerificationIntent → StorageMetadata → UploadVerificationResult
unfolding reference_from_metadata all_mismatches
verification_result i m =
    let reference = reference_from_metadata i.target m in
    if m.exists
    then record {
      verified = is_empty (all_mismatches i m);
      reference = reference;
      mismatches = all_mismatches i m;
    }
    else record {
      verified = false;
      reference = reference;
      mismatches =
          record { field = object; expected = text "exists"; actual = text "not_found" } ∷ [];
    }

unfoldable pub verify_upload :
    UploadVerificationIntent → StorageMetadata → Result String UploadVerificationResult
unfolding validate_verification verification_result
verify_upload i m = validate_verification i >> ok (verification_result i m)
