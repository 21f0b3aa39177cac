-- ===== src/RoleRuntime.antt =====
-- internal/roleruntime/server.go: the HTTP server of the specialised roles. This file has its
-- configuration and its responses; the children have the checks and the handlers. A handler is a
-- function of the request: it either refuses it with a response, or names the one call of a signer
-- that answers it.
pub mod Validate
pub mod Authorize
pub mod Signers
pub mod Parts
pub mod Invocation
pub mod Presign
pub mod Metadata
pub mod Multipart
pub mod Routes
pub mod Register
pub mod Owned
pub mod Registered
pub mod Authorized
pub mod Validated
pub mod Gate
pub mod CompletedParts
pub mod Readiness
pub mod Lifetimes
mod Tests
use gateway_runtime.Prelude.{ℕ, String, Bool, true, false, List, Option, Result, ok, err, is_empty}
use gateway_runtime.Prelude.Dict.{Dict}
use gateway_runtime.Duration.{ℤ, Duration}
use gateway_runtime.Capability.{
  PresignedRequest, PresignedOperation, MultipartUpload, MultipartCompleteResult, StorageMetadata,
  StorageSigner, CompletedPart,
}
use gateway_runtime.StorageTarget
use gateway_runtime.StorageProvider
use gateway_runtime.AccessPolicy
use gateway_runtime.WorkloadAuth
use gateway_runtime.StorageContract.{
  UploadGrant, DownloadGrant, UploadVerificationResult, StorageReference,
}
use gateway_runtime.RuntimeCfg.{Selection}

-- A pointer or an interface that may be nil is an `Option`.
pub record Config : Type 0 where
  pub base_path : String
  pub selection : Selection
  pub storage_signer : Option StorageSigner
  pub storage_providers : StorageProvider.Registry
  pub storage_default_ttl : Duration
  pub storage_max_ttl : Duration
  pub storage_targets : StorageTarget.Registry
  pub storage_access_policy : Option AccessPolicy.Evaluator
  pub storage_subject_header : String
  pub workload_verifier : Option WorkloadAuth.Verifier
  pub workload_auth_required : Bool

pub record StorageRequest : Type 0 where
  pub target : String
  pub operation : String
  pub bucket : String
  pub object_key : String
  pub content_type : String
  pub expires_in_seconds : ℤ

pub record VerificationRequest : Type 0 where
  pub target : String
  pub object_key : String
  pub expected_size : Option ℤ
  pub expected_content_type : String
  pub expected_checksums : Dict String

pub record MultipartRequest : Type 0 where
  pub target : String
  pub bucket : String
  pub object_key : String
  pub content_type : String
  pub upload_id : String
  pub part_number : ℤ
  pub expires_in_seconds : ℤ
  pub parts : List CompletedPart

-- What `writeJSON` encodes.
pub data Body : Type 0 where
  empty : Body
  error : String → Body
  denied : String → Body
  live : List String → Body
  not_ready : String → Body
  ready : List String → Body
  provider_not_configured : String → String → Body
  operation : PresignedOperation → Body
  upload_grant : UploadGrant → Body
  download_grant : DownloadGrant → Body
  multipart_upload : MultipartUpload → Body
  multipart_result : MultipartCompleteResult → Body
  metadata : StorageMetadata → Body
  verification : UploadVerificationResult → Body
  reference : StorageReference → Body

-- `no_store` is the header `Cache-Control: no-store`.
pub record Response : Type 0 where
  pub status : ℕ
  pub no_store : Bool
  pub body : Body

abbrev pub write_json : ℕ → Body → Response
write_json status body = record { status = status; no_store = false; body = body }

abbrev pub write_no_store : ℕ → Body → Response
write_no_store status body = record { status = status; no_store = true; body = body }

-- `writeJSON(w, status, map[string]string{"error": message})`
abbrev pub write_error : ℕ → String → Response
write_error status message = write_json status (error message)

unfoldable pub provider_unavailable : String → String → Response
provider_unavailable role capability = write_json 503 (provider_not_configured role capability)

unfoldable pub storage_provider_error : Response
storage_provider_error = write_error 502 "storage_provider_error"

-- a signer's error hidden behind `writeStorageProviderError`, its value written by the handler
abbrev pub respond : {A : Type 0} → (A → Response) → Result String A → Response
respond f (ok a) = f a
respond f (err e) = storage_provider_error

unfoldable pub write_storage_result : Result String PresignedOperation → Response
unfolding storage_provider_error
write_storage_result = respond (λ op. write_no_store 200 (operation op))
