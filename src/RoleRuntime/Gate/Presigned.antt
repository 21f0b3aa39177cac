-- ===== src/RoleRuntime/Gate/Presigned.antt =====
-- The handlers of upload, download and presign.
use gateway_runtime.Prelude.{
  String, true, false, ◌||◌, ◌≡◌, refl, Option, ok, str_eq, some_or, err-ne-ok, on_ok,
  map_err-eq-ok, Bool-cases, inl, inr,
}
use gateway_runtime.Text.{trim_space, to_lower}
use gateway_runtime.Http.{Request}
use gateway_runtime.Capability.{PresignedRequest}
use gateway_runtime.StorageContract.{validate_upload, validate_download}
use gateway_runtime.RoleRuntime.{Config, StorageRequest}
use gateway_runtime.RoleRuntime.Validate.{
  validate_storage_request, bad_request, decode_storage_request, storage_request_from_query,
}
use gateway_runtime.RoleRuntime.Authorize.{authorize_storage}
use gateway_runtime.RoleRuntime.Presign
use gateway_runtime.RoleRuntime.Invocation.{Invocation, object_of, require_signer}
use gateway_runtime.RoleRuntime.Gate.Relation.{Gated, Decoded, decode-Decoded, query-Decoded, gate}

module _ (cfg : Config) (r : Request) {i : Invocation} where
  pub upload-Gated :
      (body : Option StorageRequest) → Presign.upload cfg r body ≡ ok i → Gated cfg r i
  unfolding Presign.upload object_of
  upload-Gated body e = on_ok (decode_storage_request cfg body) _ e λ p decoded e₁.
      on_ok (authorize_storage cfg r p.1 "storage.upload" true) _ e₁ λ u auth e₂.
        on_ok (require_signer cfg p.1 "upload") _ e₂
          λ s found e₃. gate cfg r p _ (decode-Decoded cfg body decoded) auth refl e₃

  pub upload_intent-Gated :
      (body : Option StorageRequest) → Presign.upload_intent cfg r body ≡ ok i → Gated cfg r i
  unfolding Presign.upload_intent object_of
  upload_intent-Gated body e = on_ok (decode_storage_request cfg body) _ e λ p decoded e₁.
      on_ok (bad_request (validate_upload _)) _ e₁ λ v intent e₂.
        on_ok (authorize_storage cfg r p.1 "storage.upload" true) _ e₂ λ u auth e₃.
          on_ok (require_signer cfg p.1 "upload") _ e₃
            λ s found e₄. gate cfg r p _ (decode-Decoded cfg body decoded) auth refl e₄

  pub download-Gated : Presign.download cfg r ≡ ok i → Gated cfg r i
  unfolding Presign.download object_of
  download-Gated e = on_ok (storage_request_from_query cfg r) _ e λ p decoded e₁.
      on_ok (authorize_storage cfg r p.1 "storage.download" false) _ e₁ λ u auth e₂.
        on_ok (require_signer cfg p.1 "download") _ e₂
          λ s found e₃. gate cfg r p _ (query-Decoded cfg r decoded) auth refl e₃

  pub download_intent-Gated :
      (body : Option StorageRequest) → Presign.download_intent cfg r body ≡ ok i → Gated cfg r i
  unfolding Presign.download_intent object_of
  download_intent-Gated body e = on_ok (decode_storage_request cfg body) _ e λ p decoded e₁.
      on_ok (bad_request (validate_download _)) _ e₁ λ v intent e₂.
        on_ok (authorize_storage cfg r p.1 "storage.download" false) _ e₂ λ u auth e₃.
          on_ok (require_signer cfg p.1 "download") _ e₃
            λ s found e₄. gate cfg r p _ (decode-Decoded cfg body decoded) auth refl e₄

  pub presign_upload-Gated :
      (target : String) (base : PresignedRequest)
      → Decoded cfg (base, target)
      → Presign.presign_upload cfg r target base ≡ ok i
      → Gated cfg r i
  unfolding Presign.presign_upload object_of
  presign_upload-Gated target base decoded e =
      on_ok (authorize_storage cfg r target "storage.upload" true) _ e λ u auth e₁.
        on_ok (require_signer cfg target "presign") _ e₁
          λ s found e₂. gate cfg r (base, target) _ decoded auth refl e₂

  pub presign_download-Gated :
      (target : String) (base : PresignedRequest)
      → Decoded cfg (base, target)
      → Presign.presign_download cfg r target base ≡ ok i
      → Gated cfg r i
  unfolding Presign.presign_download object_of
  presign_download-Gated target base decoded e =
      on_ok (authorize_storage cfg r target "storage.download" false) _ e λ u auth e₁.
        on_ok (require_signer cfg target "presign") _ e₁
          λ s found e₂. gate cfg r (base, target) _ decoded auth refl e₂

  pub presign_operation-Gated :
      (body : StorageRequest) (base : PresignedRequest)
      → Decoded cfg (base, body.target)
      → Presign.presign_operation cfg r body base ≡ ok i
      → Gated cfg r i
  unfolding Presign.presign_operation
  presign_operation-Gated body base decoded e =
      let op = to_lower (trim_space body.operation) in
      elim (Bool-cases (str_eq op "put" || str_eq op "upload")) [
        | inl put ↦ presign_upload-Gated body.target base decoded (rw put at e)
        | inr other ↦ elim (Bool-cases (str_eq op "get" || str_eq op "download")) [
          | inl get ↦ presign_download-Gated body.target base decoded (rw (other, get) at e)
          | inr bad ↦ absurd (err-ne-ok (rw (other, bad) at e))
        ]
      ]

  pub presign-Gated :
      (body : Option StorageRequest) → Presign.presign cfg r body ≡ ok i → Gated cfg r i
  unfolding Presign.presign
  presign-Gated body e = on_ok (some_or body _) _ e λ req given e₁.
      on_ok (bad_request (validate_storage_request cfg req)) _ e₁
        λ base valid e₂. presign_operation-Gated req base (req, map_err-eq-ok _ _ valid, refl) e₂
