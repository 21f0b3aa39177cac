-- ===== src/RoleRuntime/Gate/Described.antt =====
-- The handlers of metadata.
use gateway_runtime.Prelude.{false, ◌≡◌, refl, Option, ok, some_or, on_ok, map_err-eq-ok}
use gateway_runtime.Http.{Request}
use gateway_runtime.StorageContract.{validate_verification}
use gateway_runtime.RoleRuntime.{Config, VerificationRequest}
use gateway_runtime.RoleRuntime.Validate.{
  validate_storage_request, bad_request, storage_request_from_query,
}
use gateway_runtime.RoleRuntime.Authorize.{authorize_storage}
use gateway_runtime.RoleRuntime.Metadata
use gateway_runtime.RoleRuntime.Metadata.{intent_of}
use gateway_runtime.RoleRuntime.Invocation.{Invocation, object_of, require_metadata}
use gateway_runtime.RoleRuntime.Gate.Relation.{Gated, query-Decoded, gate}

module _ (cfg : Config) (r : Request) {i : Invocation} where
  pub storage_metadata-Gated : Metadata.storage_metadata cfg r ≡ ok i → Gated cfg r i
  unfolding Metadata.storage_metadata object_of
  storage_metadata-Gated e = on_ok (storage_request_from_query cfg r) _ e λ p decoded e₁.
      on_ok (authorize_storage cfg r p.1 "storage.metadata" false) _ e₁ λ u auth e₂.
        on_ok (require_metadata cfg p.1) _ e₂
          λ s found e₃. gate cfg r p _ (query-Decoded cfg r decoded) auth refl e₃

  pub reference_metadata-Gated : Metadata.reference_metadata cfg r ≡ ok i → Gated cfg r i
  unfolding Metadata.reference_metadata object_of
  reference_metadata-Gated e = on_ok (storage_request_from_query cfg r) _ e λ p decoded e₁.
      on_ok (authorize_storage cfg r p.1 "storage.metadata" false) _ e₁ λ u auth e₂.
        on_ok (require_metadata cfg p.1) _ e₂
          λ s found e₃. gate cfg r p _ (query-Decoded cfg r decoded) auth refl e₃

  pub verify_intent-Gated :
      (body : Option VerificationRequest) → Metadata.verify_intent cfg r body ≡ ok i → Gated cfg r i
  unfolding Metadata.verify_intent object_of
  verify_intent-Gated body e = on_ok (some_or body _) _ e λ req given e₁.
      on_ok (bad_request (validate_verification (intent_of req))) _ e₁ λ v intent e₂.
        on_ok (bad_request (validate_storage_request cfg _)) _ e₂ λ base valid e₃.
          on_ok (authorize_storage cfg r (intent_of req).target "storage.metadata" false) _ e₃
            λ u auth e₄. on_ok (require_metadata cfg (intent_of req).target) _ e₄ λ s found e₅.
              gate cfg r (base, (intent_of req).target) _ (_, map_err-eq-ok _ _ valid, refl) auth
                refl e₅
