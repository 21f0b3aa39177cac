-- ===== src/RoleRuntime/Routes.antt =====
-- The storage role's routes as one function: a request to an endpoint, with the body as
-- encoding/json decodes it for that endpoint (`none` where it fails).
use gateway_runtime.Prelude.{String, Bool, true, false, Option}
use gateway_runtime.Http.{Request}
use gateway_runtime.RoleRuntime.{Config, StorageRequest, VerificationRequest, MultipartRequest}
use gateway_runtime.RoleRuntime.Presign
use gateway_runtime.RoleRuntime.Metadata
use gateway_runtime.RoleRuntime.Multipart
use gateway_runtime.RoleRuntime.Invocation.{
  Invocation, Handled, presign_put, presign_get, initiate_multipart, presign_part,
  complete_multipart, abort_multipart, get_metadata,
}

pub data Call : Type 0 where
  upload upload_intent download_intent presign : Option StorageRequest → Call
  download storage_metadata reference_metadata : Call
  verify_intent : Option VerificationRequest → Call
  initiate part complete abort : Option MultipartRequest → Call

-- the handler that `registerStorageCapability` and `registerMultipartRoutes` register
unfoldable pub handle : Config → Request → Call → Handled
handle cfg r (upload body) = Presign.upload cfg r body
handle cfg r (upload_intent body) = Presign.upload_intent cfg r body
handle cfg r download = Presign.download cfg r
handle cfg r (download_intent body) = Presign.download_intent cfg r body
handle cfg r (presign body) = Presign.presign cfg r body
handle cfg r storage_metadata = Metadata.storage_metadata cfg r
handle cfg r (verify_intent body) = Metadata.verify_intent cfg r body
handle cfg r reference_metadata = Metadata.reference_metadata cfg r
handle cfg r (initiate body) = Multipart.initiate cfg r body
handle cfg r (part body) = Multipart.part cfg r body
handle cfg r (complete body) = Multipart.complete cfg r body
handle cfg r (abort body) = Multipart.abort cfg r body

-- The canonical action of each signer's method, and whether it writes.
abbrev pub action_of : Invocation → String
action_of (presign_put s q k) = "storage.upload"
action_of (presign_get s q k) = "storage.download"
action_of (initiate_multipart s q k) = "storage.multipart"
action_of (presign_part s q k) = "storage.multipart"
action_of (complete_multipart s q k) = "storage.multipart"
action_of (abort_multipart s q k) = "storage.multipart"
action_of (get_metadata s q k) = "storage.metadata"

abbrev pub writes : Invocation → Bool
writes (presign_put s q k) = true
writes (presign_get s q k) = false
writes (initiate_multipart s q k) = true
writes (presign_part s q k) = true
writes (complete_multipart s q k) = true
writes (abort_multipart s q k) = true
writes (get_metadata s q k) = false
