-- ===== src/StorageContract/Tests.antt =====
-- An upload with a size, a type and one checksum, and what the storage says of it.
use gateway_runtime.Prelude.{◌≡◌, refl, ◌↔◌, [], ◌∷◌, some, true, ok}
use gateway_runtime.Duration.{pos}
use gateway_runtime.Text.{trim_space, has_prefix, contains}
use gateway_runtime.Capability.{StorageMetadata}
use gateway_runtime.StorageContract.{
  UploadVerificationIntent, UploadVerificationResult, validate_object_key, validate_verification,
  verify_upload,
}
use gateway_runtime.StorageContract.Verification.{IsAsExpected, verify_upload_iff}

abbrev intent : UploadVerificationIntent
intent = record {
  target = "docs";
  object_key = "a/b";
  expected_size = some (pos 3);
  expected_content_type = "text/plain";
  expected_checksums = ("SHA256", "abc") ∷ [];
}

abbrev stored : StorageMetadata
stored = record {
  exists = true;
  bucket = "b1";
  object_key = "a/b";
  size = pos 3;
  content_type = "Text/Plain";
  etag = "e";
  version_id = "";
  last_modified = 0;
  checksums = ("sha256", "abc") ∷ [];
  metadata = [];
}

verify_upload_iff_example :
    ((r : UploadVerificationResult) × (verify_upload intent stored ≡ ok r) × (r.verified ≡ true))
    ↔ ((validate_verification intent ≡ ok tt) × IsAsExpected intent stored)
verify_upload_iff_example = verify_upload_iff intent stored

-- a single backslash passes
backslash : validate_object_key "a\\b" ≡ ok tt
unfolding validate_object_key has_prefix contains trim_space
backslash = refl
