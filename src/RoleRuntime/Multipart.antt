-- ===== src/RoleRuntime/Multipart.antt =====
-- The handlers of multipart uploads (`registerMultipartRoutes`).
use gateway_runtime.Prelude.{
  String, true, not, Option, Result, ok, ◌>>=◌, ◌>>◌, require, some_or, str_eq,
}
use gateway_runtime.Duration.{ℤ, pos}
use gateway_runtime.Text.{trim_space}
use gateway_runtime.Http.{Request}
use gateway_runtime.RoleRuntime.{
  Config, StorageRequest, MultipartRequest, Response, write_error, write_json, write_no_store,
  respond, write_storage_result, multipart_upload, multipart_result, empty,
}
use gateway_runtime.RoleRuntime.Validate.{validate_storage_request, bad_request}
use gateway_runtime.RoleRuntime.Authorize.{authorize_storage}
use gateway_runtime.RoleRuntime.Parts.{bad_part_number, validate_completed_parts}
use gateway_runtime.RoleRuntime.Invocation.{
  Handled, initiate_multipart, presign_part, complete_multipart, abort_multipart, require_multipart,
}

-- the `storageRequest` that each handler validates, with the fields that it copies
abbrev pub storage_request : MultipartRequest → String → ℤ → StorageRequest
storage_request req content_type expires = record {
  target = req.target;
  operation = "";
  bucket = req.bucket;
  object_key = req.object_key;
  content_type = content_type;
  expires_in_seconds = expires;
}

abbrev pub require_upload_id : MultipartRequest → Result Response String
require_upload_id req =
    require (not (str_eq (trim_space req.upload_id) "")) (write_error 400 "upload_id is required")
    >> ok (trim_space req.upload_id)

-- `POST /storage/multipart/initiate`
unfoldable pub initiate : Config → Request → Option MultipartRequest → Handled
initiate cfg r body = do
  req ← some_or body (write_error 400 "invalid_request")
  base ←
      bad_request
        (validate_storage_request cfg (storage_request req req.content_type req.expires_in_seconds))
  authorize_storage cfg r req.target "storage.multipart" true
  signer ← require_multipart cfg req.target
  ok (
      initiate_multipart signer
        (record {
          bucket = base.bucket;
          object_key = base.object_key;
          content_type = base.content_type;
          expires_in = base.expires_in;
        })
        (respond (λ out. write_no_store 200 (multipart_upload out))))

-- `POST /storage/multipart/part`
unfoldable pub part : Config → Request → Option MultipartRequest → Handled
part cfg r body = do
  req ← some_or body (write_error 400 "invalid_request")
  base ← bad_request (validate_storage_request cfg (storage_request req "" req.expires_in_seconds))
  upload_id ← require_upload_id req
  require (not (bad_part_number req.part_number))
      (write_error 400 "part_number must be between 1 and 10000")
  authorize_storage cfg r req.target "storage.multipart" true
  signer ← require_multipart cfg req.target
  ok (
      presign_part signer
        (record {
          bucket = base.bucket;
          object_key = base.object_key;
          upload_id = upload_id;
          part_number = req.part_number;
          expires_in = base.expires_in;
        })
        write_storage_result)

-- `POST /storage/multipart/complete`
unfoldable pub complete : Config → Request → Option MultipartRequest → Handled
complete cfg r body = do
  req ← some_or body (write_error 400 "invalid_request")
  base ← bad_request (validate_storage_request cfg (storage_request req "" (pos 0)))
  upload_id ← require_upload_id req
  parts ← bad_request (validate_completed_parts req.parts)
  authorize_storage cfg r req.target "storage.multipart" true
  signer ← require_multipart cfg req.target
  ok (
      complete_multipart signer
        (record {
          bucket = base.bucket;
          object_key = base.object_key;
          upload_id = upload_id;
          parts = parts;
        })
        (respond (λ out. write_json 200 (multipart_result out))))

-- `POST /storage/multipart/abort`
unfoldable pub abort : Config → Request → Option MultipartRequest → Handled
abort cfg r body = do
  req ← some_or body (write_error 400 "invalid_request")
  base ← bad_request (validate_storage_request cfg (storage_request req "" (pos 0)))
  upload_id ← require_upload_id req
  authorize_storage cfg r req.target "storage.multipart" true
  signer ← require_multipart cfg req.target
  ok (
      abort_multipart signer
        (record { bucket = base.bucket; object_key = base.object_key; upload_id = upload_id })
        (respond (λ u. write_json 204 empty)))
