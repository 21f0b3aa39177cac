-- ===== src/RoleRuntime/Invocation.antt =====
-- The one call of a signer by which a handler answers: the signer, the request that it is sent, and
-- how its result is written. `serve` makes the call; a refused request makes none.
use gateway_runtime.Prelude.{String, Result, ok, err, some_or, ◌>>=◌}
use gateway_runtime.Capability.{
  StorageSigner, MultipartStorageSigner, StorageMetadataProvider, PresignedRequest,
  PresignedOperation, MultipartInitiateRequest, MultipartUpload, MultipartPartRequest,
  MultipartCompleteRequest, MultipartCompleteResult, MultipartAbortRequest, StorageMetadataRequest,
  StorageMetadata,
}
use gateway_runtime.RuntimeCfg.{role_storage}
use gateway_runtime.RoleRuntime.{Config, Response, provider_unavailable}
use gateway_runtime.RoleRuntime.Signers.{storage_signer_for_target}

pub data Invocation : Type 0 where
  presign_put presign_get :
      StorageSigner → PresignedRequest → (Result String PresignedOperation → Response) → Invocation
  initiate_multipart :
      MultipartStorageSigner
      → MultipartInitiateRequest
      → (Result String MultipartUpload → Response)
      → Invocation
  presign_part :
      MultipartStorageSigner
      → MultipartPartRequest
      → (Result String PresignedOperation → Response)
      → Invocation
  complete_multipart :
      MultipartStorageSigner
      → MultipartCompleteRequest
      → (Result String MultipartCompleteResult → Response)
      → Invocation
  abort_multipart :
      MultipartStorageSigner
      → MultipartAbortRequest
      → (Result String (Unit {0}) → Response)
      → Invocation
  get_metadata :
      StorageMetadataProvider
      → StorageMetadataRequest
      → (Result String StorageMetadata → Response)
      → Invocation

abbrev pub Handled : Type 0
Handled = Result Response Invocation

unfoldable pub invoke : Invocation → Response
invoke (presign_put s q k) = k (s.presign_put q)
invoke (presign_get s q k) = k (s.presign_get q)
invoke (initiate_multipart s q k) = k (s.initiate_multipart q)
invoke (presign_part s q k) = k (s.presign_multipart_part q)
invoke (complete_multipart s q k) = k (s.complete_multipart q)
invoke (abort_multipart s q k) = k (s.abort_multipart q)
invoke (get_metadata s q k) = k (s.get_metadata q)

-- the response that the client gets
unfoldable pub serve : Handled → Response
unfolding invoke
serve (ok i) = invoke i
serve (err response) = response

-- the bucket and the object key that the call names
unfoldable pub object_of : Invocation → String × String
object_of (presign_put s q k) = (q.bucket, q.object_key)
object_of (presign_get s q k) = (q.bucket, q.object_key)
object_of (initiate_multipart s q k) = (q.bucket, q.object_key)
object_of (presign_part s q k) = (q.bucket, q.object_key)
object_of (complete_multipart s q k) = (q.bucket, q.object_key)
object_of (abort_multipart s q k) = (q.bucket, q.object_key)
object_of (get_metadata s q k) = (q.bucket, q.object_key)

-- `storageSignerForTarget`, or the response that the provider of a capability is not there
unfoldable pub require_signer : Config → String → String → Result Response StorageSigner
unfolding storage_signer_for_target provider_unavailable
require_signer cfg target c =
    some_or (storage_signer_for_target cfg target) (provider_unavailable role_storage c)

-- the same with the type assertions to the wider interfaces
unfoldable pub require_multipart : Config → String → Result Response MultipartStorageSigner
unfolding require_signer
require_multipart cfg target = do
  s ← require_signer cfg target "multipart"
  some_or s.multipart (provider_unavailable role_storage "multipart")

unfoldable pub require_metadata : Config → String → Result Response StorageMetadataProvider
unfolding require_signer
require_metadata cfg target = do
  s ← require_signer cfg target "metadata"
  some_or s.metadata (provider_unavailable role_storage "metadata")
