-- ===== src/RoleRuntime/Gate.antt =====
-- server.go: every handler of the storage role, from its request to the call of a signer.
mod Relation
mod Presigned
mod Described
mod Parted
pub use Relation.{Gated}
use Presigned.{
  upload-Gated, upload_intent-Gated, download-Gated, download_intent-Gated, presign_upload-Gated,
  presign_download-Gated, presign_operation-Gated, presign-Gated,
}
use Described.{storage_metadata-Gated, reference_metadata-Gated, verify_intent-Gated}
use Parted.{initiate-Gated, part-Gated, complete-Gated, abort-Gated}
use gateway_runtime.Prelude.{
  String, Bool, true, false, ◌||◌, not, ◌≡◌, refl, ap, sym, ◌∙◌, Option, none, some, Result, ok,
  err, str_eq, some_or, map_err, err-ne-ok, if◌then◌else◌, on_ok, on_require, ok-injective,
  some_or-eq-ok, map_err-eq-ok, subst, Bool-cases, inl, inr, is_empty, some_inj,
}
use gateway_runtime.Duration.{ℤ, pos}
use gateway_runtime.Text.{trim_space, to_lower}
use gateway_runtime.Text.Laws.{trim_space_idem}
use gateway_runtime.Http.{Request}
use gateway_runtime.Capability.{PresignedRequest}
use gateway_runtime.StorageContract.{validate_upload, validate_download, validate_verification}
use gateway_runtime.RoleRuntime.{
  Config, StorageRequest, VerificationRequest, MultipartRequest, Response,
}
use gateway_runtime.RoleRuntime.Validate.{
  validate_storage_request, bad_request, decode_storage_request, query_seconds,
  storage_request_from_query,
}
use gateway_runtime.RoleRuntime.Authorize.{authorize_storage}
use gateway_runtime.RoleRuntime.Parts.{bad_part_number, validate_completed_parts}
use gateway_runtime.RoleRuntime.Presign
use gateway_runtime.RoleRuntime.Metadata
use gateway_runtime.RoleRuntime.Metadata.{intent_of}
use gateway_runtime.RoleRuntime.Multipart
use gateway_runtime.RoleRuntime.Multipart.{require_upload_id, storage_request}
use gateway_runtime.RoleRuntime.Invocation.{
  Invocation, Handled, object_of, require_signer, require_multipart, require_metadata,
}
use gateway_runtime.RoleRuntime.Routes.{
  Call, upload, upload_intent, download_intent, presign, download, storage_metadata,
  reference_metadata, verify_intent, initiate, part, complete, abort, handle, action_of, writes,
}
use gateway_runtime.StorageTarget
use gateway_runtime.RoleRuntime.Authorized.{Authorized, authorize_storage_iff}
use gateway_runtime.RoleRuntime.Validated.{IsBucket, IsSafeKey, validate-ValidRequest}

-- Whatever the endpoint, a signer is called only for a request that passed `validateStorageRequest`,
-- with the bucket and the key that validation returned, and that passed `authorizeStorage` for the
-- same target and for the action (and the write access) of the signer's method that is called.
pub handle-Gated :
    (cfg : Config) (r : Request) (c : Call) (i : Invocation) → handle cfg r c ≡ ok i → Gated cfg r i
unfolding handle
handle-Gated cfg r (upload body) i e = upload-Gated cfg r body e
handle-Gated cfg r (upload_intent body) i e = upload_intent-Gated cfg r body e
handle-Gated cfg r (download_intent body) i e = download_intent-Gated cfg r body e
handle-Gated cfg r (presign body) i e = presign-Gated cfg r body e
handle-Gated cfg r download i e = download-Gated cfg r e
handle-Gated cfg r storage_metadata i e = storage_metadata-Gated cfg r e
handle-Gated cfg r reference_metadata i e = reference_metadata-Gated cfg r e
handle-Gated cfg r (verify_intent body) i e = verify_intent-Gated cfg r body e
handle-Gated cfg r (initiate body) i e = initiate-Gated cfg r body e
handle-Gated cfg r (part body) i e = part-Gated cfg r body e
handle-Gated cfg r (complete body) i e = complete-Gated cfg r body e
handle-Gated cfg r (abort body) i e = abort-Gated cfg r body e

-- the bucket that validation chose is the bucket of the target that was authorized
IsBucket-target :
    (cfg : Config) (req : StorageRequest) (bucket name : String) (t : StorageTarget.Target)
    → is_empty cfg.storage_targets ≡ false
    → IsBucket cfg req bucket
    → name ≡ trim_space req.target
    → StorageTarget.resolve cfg.storage_targets name ≡ some t
    → bucket ≡ t.bucket
IsBucket-target cfg req bucket name t some_set (inl (none_set, _, _)) same listed = cc
IsBucket-target cfg req bucket name t some_set (inr (_, (t', listed', e))) same listed =
    e
    ∙ ap (λ t. t.bucket)
        (some_inj
          (sym listed' ∙ (ap (StorageTarget.resolve cfg.storage_targets) (sym same) ∙ listed)))

-- Where targets are configured, every call of a signer is authorized: for some configured target the
-- policy allowed the action of the called method to the request's actor, the call's bucket is that
-- target's, no write goes to a read-only target, and the call's object key is safe.
pub handle-Authorized :
    (cfg : Config) (r : Request) (c : Call) (i : Invocation)
    → is_empty cfg.storage_targets ≡ false
    → handle cfg r c ≡ ok i
    → (name : String) × (a : Authorized cfg r name (action_of i) (writes i)) × ((object_of i).0
        ≡ a.target.bucket)
      × IsSafeKey (object_of i).1
handle-Authorized cfg r c i some_set e =
    let g = handle-Gated cfg r c i e in
    let a =
      (authorize_storage_iff cfg r g.target (action_of i) (writes i) some_set).0 g.authorized in
    let v = validate-ValidRequest cfg g.req g.base g.validated in
    (
      trim_space g.target,
      a,
      ap (λ o. o.0) g.object
          ∙ IsBucket-target cfg g.req g.base.bucket (trim_space g.target) a.target some_set v.bucket
              g.same_target a.listed,
      subst IsSafeKey (sym (ap (λ o. o.1) g.object)) v.key,
    )
