-- ===== src/RoleRuntime/Gate/Relation.antt =====
-- The relation between a request and the call of a signer that it leads to.
use gateway_runtime.Prelude.{
  String, ◌≡◌, Option, ok, some_or, on_ok, ok-injective, map_err-eq-ok, subst,
}
use gateway_runtime.Text.{trim_space}
use gateway_runtime.Text.Laws.{trim_space_idem}
use gateway_runtime.Http.{Request}
use gateway_runtime.Capability.{PresignedRequest}
use gateway_runtime.RoleRuntime.{Config, StorageRequest}
use gateway_runtime.RoleRuntime.Validate.{
  validate_storage_request, bad_request, decode_storage_request, query_seconds,
  storage_request_from_query,
}
use gateway_runtime.RoleRuntime.Authorize.{authorize_storage}
use gateway_runtime.RoleRuntime.Invocation.{Invocation, Handled, object_of}
use gateway_runtime.RoleRuntime.Routes.{action_of, writes}

-- A request was validated and authorized for a call: the validated request has the call's bucket and
-- key, and the target that was authorized, for the action of the signer's method that is called.
pub record Gated (cfg : Config) (r : Request) (i : Invocation) : Type 0 where
  pub req : StorageRequest
  pub base : PresignedRequest
  pub validated : validate_storage_request cfg req ≡ ok base
  pub object : object_of i ≡ (base.bucket, base.object_key)
  pub target : String
  pub same_target : trim_space target ≡ trim_space req.target
  pub authorized : authorize_storage cfg r target (action_of i) (writes i) ≡ ok tt

-- what the decoders return
abbrev pub Decoded : Config → PresignedRequest × String → Type 0
Decoded cfg p =
    (req : StorageRequest) × (validate_storage_request cfg req ≡ ok p.0)
    × (trim_space p.1 ≡ trim_space req.target)

pub decode-Decoded :
    (cfg : Config) (body : Option StorageRequest) {p : PresignedRequest × String}
    → decode_storage_request cfg body ≡ ok p
    → Decoded cfg p
unfolding decode_storage_request
decode-Decoded cfg body e = on_ok (some_or body _) _ e λ req given e₁.
    on_ok (bad_request (validate_storage_request cfg req)) _ e₁ λ base valid e₂.
      subst (Decoded cfg) (ok-injective e₂)
        (req, map_err-eq-ok _ _ valid, trim_space_idem req.target)

pub query-Decoded :
    (cfg : Config) (r : Request) {p : PresignedRequest × String}
    → storage_request_from_query cfg r ≡ ok p
    → Decoded cfg p
unfolding storage_request_from_query
query-Decoded cfg r e =
    on_ok (query_seconds (r.query "expires_in_seconds")) _ e λ expires parsed e₁.
      on_ok (bad_request (validate_storage_request cfg _)) _ e₁ λ base valid e₂.
        subst (Decoded cfg) (ok-injective e₂)
          (_, map_err-eq-ok _ _ valid, trim_space_idem (r.query "target"))

-- the end of each handler
pub gate :
    (cfg : Config) (r : Request) (p : PresignedRequest × String) (made : Invocation)
    {i : Invocation}
    → Decoded cfg p
    → authorize_storage cfg r p.1 (action_of made) (writes made) ≡ ok tt
    → object_of made ≡ (p.0.bucket, p.0.object_key)
    → ◌≡◌ {A = Handled} (ok made) (ok i)
    → Gated cfg r i
gate cfg r p made (req, valid, same) auth object e = subst (Gated cfg r) (ok-injective e) (record {
  req = req;
  base = p.0;
  validated = valid;
  object = object;
  target = p.1;
  same_target = same;
  authorized = auth;
})
