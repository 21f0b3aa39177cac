-- ===== src/RoleRuntime/Gate/Parted.antt =====
-- The handlers of multipart uploads.
use gateway_runtime.Prelude.{
  true, not, ◌≡◌, refl, Option, ok, some_or, on_ok, on_require, map_err-eq-ok,
}
use gateway_runtime.Http.{Request}
use gateway_runtime.RoleRuntime.{Config, MultipartRequest}
use gateway_runtime.RoleRuntime.Validate.{validate_storage_request, bad_request}
use gateway_runtime.RoleRuntime.Authorize.{authorize_storage}
use gateway_runtime.RoleRuntime.Parts.{bad_part_number, validate_completed_parts}
use gateway_runtime.RoleRuntime.Multipart
use gateway_runtime.RoleRuntime.Multipart.{require_upload_id, storage_request}
use gateway_runtime.RoleRuntime.Invocation.{Invocation, object_of, require_multipart}
use gateway_runtime.RoleRuntime.Gate.Relation.{Gated, gate}

module _ (cfg : Config) (r : Request) {i : Invocation} where
  pub initiate-Gated :
      (body : Option MultipartRequest) → Multipart.initiate cfg r body ≡ ok i → Gated cfg r i
  unfolding Multipart.initiate object_of
  initiate-Gated body e = on_ok (some_or body _) _ e λ req given e₁.
      on_ok (bad_request (validate_storage_request cfg _)) _ e₁ λ base valid e₂.
        on_ok (authorize_storage cfg r req.target "storage.multipart" true) _ e₂ λ u auth e₃.
          on_ok (require_multipart cfg req.target) _ e₃ λ s found e₄.
            gate cfg r (base, req.target) _ (_, map_err-eq-ok _ _ valid, refl) auth refl e₄

  pub part-Gated :
      (body : Option MultipartRequest) → Multipart.part cfg r body ≡ ok i → Gated cfg r i
  unfolding Multipart.part object_of
  part-Gated body e = on_ok (some_or body _) _ e λ req given e₁.
      on_ok (bad_request (validate_storage_request cfg _)) _ e₁ λ base valid e₂.
        on_ok (require_upload_id req) _ e₂ λ upload_id named e₃.
          on_require (not (bad_part_number req.part_number)) _ _ e₃ λ numbered e₄.
            on_ok (authorize_storage cfg r req.target "storage.multipart" true) _ e₄ λ u auth e₅.
              on_ok (require_multipart cfg req.target) _ e₅ λ s found e₆.
                gate cfg r (base, req.target) _ (_, map_err-eq-ok _ _ valid, refl) auth refl e₆

  pub complete-Gated :
      (body : Option MultipartRequest) → Multipart.complete cfg r body ≡ ok i → Gated cfg r i
  unfolding Multipart.complete object_of
  complete-Gated body e = on_ok (some_or body _) _ e λ req given e₁.
      on_ok (bad_request (validate_storage_request cfg _)) _ e₁ λ base valid e₂.
        on_ok (require_upload_id req) _ e₂ λ upload_id named e₃.
          on_ok (bad_request (validate_completed_parts req.parts)) _ e₃ λ parts whole e₄.
            on_ok (authorize_storage cfg r req.target "storage.multipart" true) _ e₄ λ u auth e₅.
              on_ok (require_multipart cfg req.target) _ e₅ λ s found e₆.
                gate cfg r (base, req.target) _ (_, map_err-eq-ok _ _ valid, refl) auth refl e₆

  pub abort-Gated :
      (body : Option MultipartRequest) → Multipart.abort cfg r body ≡ ok i → Gated cfg r i
  unfolding Multipart.abort object_of
  abort-Gated body e = on_ok (some_or body _) _ e λ req given e₁.
      on_ok (bad_request (validate_storage_request cfg _)) _ e₁ λ base valid e₂.
        on_ok (require_upload_id req) _ e₂ λ upload_id named e₃.
          on_ok (authorize_storage cfg r req.target "storage.multipart" true) _ e₃ λ u auth e₄.
            on_ok (require_multipart cfg req.target) _ e₄ λ s found e₅.
              gate cfg r (base, req.target) _ (_, map_err-eq-ok _ _ valid, refl) auth refl e₅
