-- ===== src/RoleRuntime/Metadata.antt =====
-- The handlers of the capability metadata (`registerStorageCapability`).
use gateway_runtime.Prelude.{String, false, Option, ok, err, ◌>>=◌, ◌>>◌, some_or}
use gateway_runtime.Duration.{pos}
use gateway_runtime.Text.{trim_space}
use gateway_runtime.Http.{Request}
use gateway_runtime.Capability.{PresignedRequest, StorageMetadataRequest, StorageMetadata}
use gateway_runtime.StorageContract.{
  UploadVerificationIntent, validate_verification, verify_upload, validate_reference,
  reference_from_metadata,
}
use gateway_runtime.RoleRuntime.{
  Config, VerificationRequest, Response, write_error, write_no_store, respond, metadata,
  verification, reference, storage_provider_error,
}
use gateway_runtime.RoleRuntime.Validate.{
  storage_request_from_query, validate_storage_request, bad_request,
}
use gateway_runtime.RoleRuntime.Authorize.{authorize_storage}
use gateway_runtime.RoleRuntime.Invocation.{Handled, get_metadata, require_metadata}

abbrev pub metadata_request : PresignedRequest → StorageMetadataRequest
metadata_request base = record { bucket = base.bucket; object_key = base.object_key }

-- `GET /storage/metadata`
unfoldable pub storage_metadata : Config → Request → Handled
storage_metadata cfg r = do
  (base, target) ← storage_request_from_query cfg r
  authorize_storage cfg r target "storage.metadata" false
  provider ← require_metadata cfg target
  ok (
      get_metadata provider (metadata_request base)
        (respond (λ m. write_no_store 200 (metadata m))))

unfoldable pub intent_of : VerificationRequest → UploadVerificationIntent
intent_of req = record {
  target = trim_space req.target;
  object_key = trim_space req.object_key;
  expected_size = req.expected_size;
  expected_content_type = trim_space req.expected_content_type;
  expected_checksums = req.expected_checksums;
}

abbrev write_verification : UploadVerificationIntent → StorageMetadata → Response
write_verification intent m = elim (verify_upload intent m) [
  | ok result ↦ write_no_store 200 (verification result)
  | err e ↦ write_error 400 e
]

-- `POST /storage/intents/verify`
unfoldable pub verify_intent : Config → Request → Option VerificationRequest → Handled
verify_intent cfg r body = do
  req ← some_or body (write_error 400 "invalid_request")
  let intent = intent_of req
  bad_request (validate_verification intent)
  base ← bad_request (
      validate_storage_request cfg (record {
        target = intent.target;
        operation = "";
        bucket = "";
        object_key = intent.object_key;
        content_type = "";
        expires_in_seconds = pos 0;
      }))
  authorize_storage cfg r intent.target "storage.metadata" false
  provider ← require_metadata cfg intent.target
  ok (get_metadata provider (metadata_request base) (respond (write_verification intent)))

abbrev write_reference : String → StorageMetadata → Response
write_reference target m =
    let ref = reference_from_metadata target m in
    elim (validate_reference ref) [
      | ok u ↦ write_no_store 200 (reference ref)
      | err e ↦ storage_provider_error
    ]

-- `GET /storage/references/metadata`
unfoldable pub reference_metadata : Config → Request → Handled
reference_metadata cfg r = do
  (base, target) ← storage_request_from_query cfg r
  authorize_storage cfg r target "storage.metadata" false
  provider ← require_metadata cfg target
  ok (get_metadata provider (metadata_request base) (respond (write_reference target)))
