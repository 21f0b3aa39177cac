-- ===== src/Capability.antt =====
-- internal/capability/storage.go: the requests and results of object storage, and the interface of
-- the signers that serve them. A signer is a remote service: its answers are functions of the
-- request, chosen by whoever instantiates the record.
use gateway_runtime.Prelude.{ℕ, String, Bool, List, Option, Result}
use gateway_runtime.Prelude.Dict.{Dict}
use gateway_runtime.Duration.{ℤ, Duration}

pub record PresignedRequest : Type 0 where
  pub bucket : String
  pub object_key : String
  pub content_type : String
  pub expires_in : Duration

-- `expires_at` is in nanoseconds since the year 1.
pub record PresignedOperation : Type 0 where
  pub url : String
  pub method : String
  pub expires_at : ℕ
  pub headers : Dict String

pub record MultipartInitiateRequest : Type 0 where
  pub bucket : String
  pub object_key : String
  pub content_type : String
  pub expires_in : Duration

pub record MultipartUpload : Type 0 where
  pub upload_id : String
  pub bucket : String
  pub object_key : String
  pub expires_at : ℕ

pub record MultipartPartRequest : Type 0 where
  pub bucket : String
  pub object_key : String
  pub upload_id : String
  pub part_number : ℤ
  pub expires_in : Duration

pub record CompletedPart : Type 0 where
  pub part_number : ℤ
  pub etag : String

pub record MultipartCompleteRequest : Type 0 where
  pub bucket : String
  pub object_key : String
  pub upload_id : String
  pub parts : List CompletedPart

pub record MultipartCompleteResult : Type 0 where
  pub etag : String
  pub version_id : String
  pub location : String

pub record MultipartAbortRequest : Type 0 where
  pub bucket : String
  pub object_key : String
  pub upload_id : String

pub record StorageMetadataRequest : Type 0 where
  pub bucket : String
  pub object_key : String

pub record StorageMetadata : Type 0 where
  pub exists : Bool
  pub bucket : String
  pub object_key : String
  pub size : ℤ
  pub content_type : String
  pub etag : String
  pub version_id : String
  pub last_modified : ℕ
  pub checksums : Dict String
  pub metadata : Dict String

-- the methods that `MultipartStorageSigner` adds to `StorageSigner`
pub record MultipartStorageSigner : Type 0 where
  pub initiate_multipart : MultipartInitiateRequest → Result String MultipartUpload
  pub presign_multipart_part : MultipartPartRequest → Result String PresignedOperation
  pub complete_multipart : MultipartCompleteRequest → Result String MultipartCompleteResult
  pub abort_multipart : MultipartAbortRequest → Result String (Unit {0})

pub record StorageMetadataProvider : Type 0 where
  pub get_metadata : StorageMetadataRequest → Result String StorageMetadata

-- A type assertion `signer.(MultipartStorageSigner)` succeeds where `multipart` is `some`.
pub record StorageSigner : Type 0 where
  pub presign_put : PresignedRequest → Result String PresignedOperation
  pub presign_get : PresignedRequest → Result String PresignedOperation
  pub multipart : Option MultipartStorageSigner
  pub metadata : Option StorageMetadataProvider
