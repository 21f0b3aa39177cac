-- ===== src/RoleRuntime/Presign.antt =====
-- The handlers of the capabilities upload, download and presign (`registerStorageCapability`).
use gateway_runtime.Prelude.{
  String, ◌||◌, true, false, Option, ok, err, ◌>>=◌, ◌>>◌, some_or, str_eq, if◌then◌else◌,
}
use gateway_runtime.Text.{trim_space, to_lower}
use gateway_runtime.Http.{Request}
use gateway_runtime.Capability.{PresignedRequest}
use gateway_runtime.StorageContract.{
  validate_upload, validate_download, upload_grant_from_operation, download_grant_from_operation,
}
use gateway_runtime.RoleRuntime.{
  Config, StorageRequest, write_error, write_no_store, respond, write_storage_result, upload_grant,
  download_grant,
}
use gateway_runtime.RoleRuntime.Validate.{
  decode_storage_request, storage_request_from_query, validate_storage_request, bad_request,
}
use gateway_runtime.RoleRuntime.Authorize.{authorize_storage}
use gateway_runtime.RoleRuntime.Invocation.{Handled, presign_put, presign_get, require_signer}

-- `POST /storage/upload`
unfoldable pub upload : Config → Request → Option StorageRequest → Handled
upload cfg r body = do
  (req, target) ← decode_storage_request cfg body
  authorize_storage cfg r target "storage.upload" true
  signer ← require_signer cfg target "upload"
  ok (presign_put signer req write_storage_result)

-- `POST /storage/intents/upload`
unfoldable pub upload_intent : Config → Request → Option StorageRequest → Handled
upload_intent cfg r body = do
  (req, target) ← decode_storage_request cfg body
  bad_request (
      validate_upload (record {
        target = target;
        object_key = req.object_key;
        content_type = req.content_type;
        expires_in = req.expires_in;
      }))
  authorize_storage cfg r target "storage.upload" true
  signer ← require_signer cfg target "upload"
  ok (
      presign_put signer req
        (respond (λ op. write_no_store 200 (upload_grant (upload_grant_from_operation op)))))

-- `GET /storage/download`
unfoldable pub download : Config → Request → Handled
download cfg r = do
  (req, target) ← storage_request_from_query cfg r
  authorize_storage cfg r target "storage.download" false
  signer ← require_signer cfg target "download"
  ok (presign_get signer req write_storage_result)

-- `POST /storage/intents/download`
unfoldable pub download_intent : Config → Request → Option StorageRequest → Handled
download_intent cfg r body = do
  (req, target) ← decode_storage_request cfg body
  bad_request (
      validate_download
        (record { target = target; object_key = req.object_key; expires_in = req.expires_in }))
  authorize_storage cfg r target "storage.download" false
  signer ← require_signer cfg target "download"
  ok (
      presign_get signer req
        (respond (λ op. write_no_store 200 (download_grant (download_grant_from_operation op)))))

unfoldable pub presign_upload : Config → Request → String → PresignedRequest → Handled
presign_upload cfg r target req = do
  authorize_storage cfg r target "storage.upload" true
  signer ← require_signer cfg target "presign"
  ok (presign_put signer req write_storage_result)

unfoldable pub presign_download : Config → Request → String → PresignedRequest → Handled
presign_download cfg r target req = do
  authorize_storage cfg r target "storage.download" false
  signer ← require_signer cfg target "presign"
  ok (presign_get signer req write_storage_result)

-- the `switch` on the operation's name
unfoldable pub presign_operation : Config → Request → StorageRequest → PresignedRequest → Handled
presign_operation cfg r body req =
    let op = to_lower (trim_space body.operation) in
    if str_eq op "put" || str_eq op "upload"
    then presign_upload cfg r body.target req
    else if str_eq op "get" || str_eq op "download"
    then presign_download cfg r body.target req
    else err (write_error 400 "operation must be put/upload or get/download")

-- `POST /storage/presign`
unfoldable pub presign : Config → Request → Option StorageRequest → Handled
presign cfg r body = do
  decoded ← some_or body (write_error 400 "invalid_request")
  req ← bad_request (validate_storage_request cfg decoded)
  presign_operation cfg r decoded req
