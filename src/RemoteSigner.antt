-- ===== src/RemoteSigner.antt =====
-- internal/storage/remote_signer.go: the signer that asks a remote service. encoding/json is a parameter
-- (`Codec`), and an answer without a body leaves the zero value of its type.
use gateway_runtime.Prelude.{
  ℕ, suc, zero, ◌/◌, false, String, List, [], Option, none, some, Result, ok, err,
}
use gateway_runtime.Duration.{ℤ, pos, negsuc, Duration, second}
use gateway_runtime.Capability.{
  PresignedRequest, PresignedOperation, MultipartInitiateRequest, MultipartUpload,
  MultipartPartRequest, CompletedPart, MultipartCompleteRequest, MultipartCompleteResult,
  MultipartAbortRequest, StorageMetadataRequest, StorageMetadata, StorageSigner,
}
use gateway_runtime.Outbound.Client.{Client, Environment, CallSpec, ClientError, do_json}

-- what is sent, with the fields of the source's payload types
pub data Payload : Type 0 where
  presign_payload : String → String → String → ℤ → Payload
  initiate_payload : String → String → String → ℤ → Payload
  part_payload : String → String → String → ℤ → ℤ → Payload
  complete_payload : String → String → String → List CompletedPart → Payload
  abort_payload : String → String → String → Payload
  metadata_payload : String → String → Payload

-- encoding/json at the payloads and the responses, and the text of an error
pub record Codec : Type 0 where
  pub encode : Payload → Result String String
  pub operation : List ℕ → Result String PresignedOperation
  pub upload : List ℕ → Result String MultipartUpload
  pub completed : List ℕ → Result String MultipartCompleteResult
  pub metadata : List ℕ → Result String StorageMetadata
  pub message : ClientError → String

abbrev negate : ℕ → ℤ
negate zero = pos 0
negate (suc n) = negsuc n

-- `int64(d / time.Second)`: rounded towards zero
abbrev pub whole_seconds : Duration → ℤ
whole_seconds (pos n) = pos (n / second)
whole_seconds (negsuc n) = negate (suc n / second)

abbrev zero_operation : PresignedOperation
zero_operation = record { url = ""; method = ""; expires_at = 0; headers = [] }

abbrev zero_upload : MultipartUpload
zero_upload = record { upload_id = ""; bucket = ""; object_key = ""; expires_at = 0 }

abbrev zero_result : MultipartCompleteResult
zero_result = record { etag = ""; version_id = ""; location = "" }

abbrev zero_metadata : StorageMetadata
zero_metadata = record {
  exists = false;
  bucket = "";
  object_key = "";
  size = pos 0;
  content_type = "";
  etag = "";
  version_id = "";
  last_modified = 0;
  checksums = [];
  metadata = [];
}

abbrev or_zero : {A : Type 0} → A → Option A → A
or_zero z none = z
or_zero z (some a) = a

abbrev answered : {A : Type 0} → Codec → A → Result ClientError (Option A) → Result String A
answered codec z (ok a) = ok (or_zero z a)
answered codec z (err e) = err (codec.message e)

-- `s.sessionID(ctx)`: the empty text where no source of it is set
abbrev session_id_of : Option String → String
session_id_of none = ""
session_id_of (some id) = id

abbrev pub spec :
    {A : Type 0}
    → Codec
    → Option String
    → String
    → Payload
    → Option (List ℕ → Result String A)
    → CallSpec A
spec codec session route payload decode = record {
  session_id = session_id_of session;
  method = "POST";
  route = route;
  body = some (codec.encode payload);
  decode = decode;
}

-- `s.HTTP.DoJSON`, or the error of a client that is nil
unfoldable pub post :
    {W A : Type 0}
    → Option (Client W)
    → Environment W
    → W
    → Codec
    → Option String
    → A
    → String
    → Option (List ℕ → Result String A)
    → Payload
    → Result String A
unfolding do_json
post none env w codec session z route decode payload = err "remote signer client is not configured"
post (some client) env w codec session z route decode payload =
    answered codec z (do_json client env (spec codec session route payload decode) w).0

module _ {W : Type 0} (client : Option (Client W)) (env : Environment W) (w : W) (codec : Codec)
    (session : Option String) where
  unfoldable pub presign : String → PresignedRequest → Result String PresignedOperation
  unfolding post
  presign route req =
      post client env w codec session zero_operation route (some codec.operation)
        (presign_payload req.bucket req.object_key req.content_type (whole_seconds req.expires_in))

  unfoldable pub initiate_multipart : MultipartInitiateRequest → Result String MultipartUpload
  unfolding post
  initiate_multipart req =
      post client env w codec session zero_upload "/api/storage/multipart/initiate"
        (some codec.upload)
        (initiate_payload req.bucket req.object_key req.content_type (whole_seconds req.expires_in))

  unfoldable pub presign_multipart_part : MultipartPartRequest → Result String PresignedOperation
  unfolding post
  presign_multipart_part req =
      post client env w codec session zero_operation "/api/storage/multipart/part"
        (some codec.operation)
        (part_payload req.bucket req.object_key req.upload_id req.part_number
          (whole_seconds req.expires_in))

  unfoldable pub complete_multipart :
      MultipartCompleteRequest → Result String MultipartCompleteResult
  unfolding post
  complete_multipart req =
      post client env w codec session zero_result "/api/storage/multipart/complete"
        (some codec.completed) (complete_payload req.bucket req.object_key req.upload_id req.parts)

  unfoldable pub abort_multipart : MultipartAbortRequest → Result String (Unit {0})
  unfolding post
  abort_multipart req =
      post client env w codec session tt "/api/storage/multipart/abort" none
        (abort_payload req.bucket req.object_key req.upload_id)

  unfoldable pub get_metadata : StorageMetadataRequest → Result String StorageMetadata
  unfolding post
  get_metadata req =
      post client env w codec session zero_metadata "/api/storage/metadata" (some codec.metadata)
        (metadata_payload req.bucket req.object_key)

  -- `RemoteSigner` has the methods of all three interfaces. Its calls start in the world `w`.
  abbrev pub remote_signer : StorageSigner
  remote_signer = record {
    presign_put = presign "/api/storage/presign/put";
    presign_get = presign "/api/storage/presign/get";
    multipart = some (record {
      initiate_multipart = initiate_multipart;
      presign_multipart_part = presign_multipart_part;
      complete_multipart = complete_multipart;
      abort_multipart = abort_multipart;
    });
    metadata = some (record { get_metadata = get_metadata });
  }
