-- ===== src/RoleRuntime/Tests.antt =====
-- A configuration with one target, and requests to it.
use gateway_runtime.Prelude.{
  suc, ◌+◌, ◌*◌, ◌^◌, ◌≤◌, ◌≡◌, refl, ◌↔◌, String, true, false, List, [], ◌∷◌, map, none, some, ok,
  err, All, length, ◌++◌, str_eq, if◌then◌else◌, arith,
}
use gateway_runtime.Prelude.Dict.{Dict, lookup, insert}
use gateway_runtime.Duration.{pos, second, seconds, to_int64}
use gateway_runtime.Text.{
  split, to_lower, replace_all, trim_space, has_prefix, contains, equal_fold, cut,
}
use gateway_runtime.Http.{Request}
use gateway_runtime.Capability.{PresignedRequest, StorageSigner, CompletedPart}
use gateway_runtime.StorageTarget
use gateway_runtime.StorageProvider
use gateway_runtime.AccessPolicy.{Evaluator}
use gateway_runtime.WorkloadAuth.{Verifier, bearer_token}
use gateway_runtime.RequestIdentity.{extract, validate_actor, policy_context}
use gateway_runtime.RuntimeCfg.{
  role_streaming, is_role, parse_roles, parse_capabilities, defaults, has_role, role_storage,
}
use gateway_runtime.RoleRuntime.Register.{register, selected_patterns, system_patterns}
use gateway_runtime.RoleRuntime.Registered.{register-parse_capabilities}
use gateway_runtime.RoleRuntime.{Config, StorageRequest, provider_unavailable, write_storage_result}
use gateway_runtime.RoleRuntime.Validate.{
  resolve_bucket, bad_key, object_key_of, default_ttl, max_ttl, ttl_of, validate_storage_request,
  decode_storage_request,
}
use gateway_runtime.RoleRuntime.Authorize.{
  claimed_identity, verify_workload, policy_request, decide, authorize_target, authorize_storage,
}
use gateway_runtime.RoleRuntime.Signers.{
  storage_signer_for_target, has_capability, check_signer, check_providers,
  validate_storage_providers_ready, storage_provider_required, health_ready,
}
use gateway_runtime.RoleRuntime.Invocation.{
  Invocation, presign_put, require_signer, invoke, serve, object_of,
}
use gateway_runtime.RoleRuntime.Parts.{validate_completed_parts, trimmed_part}
use gateway_runtime.RoleRuntime.Presign
use gateway_runtime.RoleRuntime.Routes.{upload, handle, action_of, writes}
use gateway_runtime.RoleRuntime.Gate.{Gated, handle-Gated, handle-Authorized}
use gateway_runtime.RoleRuntime.Authorized.{Authorized, authorize_storage_iff}
use gateway_runtime.RoleRuntime.Validated.{ValidRequest, IsSafeKey, validate-ValidRequest}
use gateway_runtime.RoleRuntime.CompletedParts.{IsPart, DistinctParts, validate_completed_parts_iff}
use gateway_runtime.RoleRuntime.Lifetimes.{validate-exact_lifetime, validate-wraps}
use gateway_runtime.RoleRuntime.Readiness.{IsReady, health_ready-IsReady}

server : Unit {0}
unfolding handle Presign.upload decode_storage_request validate_storage_request resolve_bucket
    object_key_of bad_key ttl_of default_ttl max_ttl authorize_storage authorize_target
    claimed_identity verify_workload policy_request decide extract validate_actor policy_context
    require_signer storage_signer_for_target StorageTarget.resolve StorageProvider.resolve
    bearer_token cut equal_fold lookup insert trim_space has_prefix contains seconds to_int64
    provider_unavailable has_role has_capability check_signer check_providers
    validate_storage_providers_ready storage_provider_required health_ready validate_completed_parts
    invoke serve
server = tt

abbrev signer : StorageSigner
signer = record {
  presign_put = λ q. err "offline";
  presign_get = λ q. err "offline";
  multipart = none;
  metadata = none;
}

-- allows uploads by ann
abbrev policy : Evaluator
policy = record {
  authorize = λ q. ok (record {
    allow = if str_eq q.subject "ann" then str_eq q.action "storage.upload" else false;
    reason = "";
  });
}

abbrev verifier : Verifier
verifier = record {
  verify = λ raw.
      if str_eq raw "t1"
      then ok (record { service = "worker"; subject = "w"; issuer = "i" })
      else err "bad token";
}

abbrev config : Config
config = record {
  base_path = "/";
  selection = record {
    roles = role_storage ∷ [];
    capabilities = (role_storage, "upload" ∷ []) ∷ [];
  };
  storage_signer = some signer;
  storage_providers = [];
  storage_default_ttl = pos 0;
  storage_max_ttl = pos 0;
  storage_targets =
      ("docs", record { provider = "default"; bucket = "b1"; read_only = false }) ∷ [];
  storage_access_policy = some policy;
  storage_subject_header = "";
  workload_verifier = some verifier;
  workload_auth_required = true;
}

abbrev request : Request
request = record {
  header = λ name.
      if str_eq name "Authorization"
      then "Bearer t1"
      else if str_eq name "X-Actor-Subject"
      then "ann"
      else "";
  query = λ name. "";
}

abbrev body : StorageRequest
body = record {
  target = "docs";
  operation = "";
  bucket = "other";
  object_key = " a/b ";
  content_type = "text/plain";
  expires_in_seconds = pos 60;
}

abbrev base : PresignedRequest
base = record {
  bucket = "b1";
  object_key = "a/b";
  content_type = "text/plain";
  expires_in = pos 60000000000;
}

abbrev made : Invocation
made = presign_put signer base write_storage_result

uploads : handle config request (upload (some body)) ≡ ok made
unfolding server
uploads = refl

authorizes : authorize_storage config request "docs" "storage.upload" true ≡ ok tt
unfolding server
authorizes = refl

validates : validate_storage_request config body ≡ ok base
unfolding server
validates = refl

has_storage : has_role config.selection role_storage ≡ true
unfolding server
has_storage = refl

needs_provider : storage_provider_required config.selection ≡ true
unfolding server
needs_provider = refl

is_ready : (health_ready config).status ≡ 200
unfolding server
is_ready = refl

handle-Authorized_example :
    (name : String) × (a : Authorized config request name (action_of made) (writes made))
    × ((object_of made).0 ≡ a.target.bucket)
    × IsSafeKey (object_of made).1
handle-Authorized_example = handle-Authorized config request (upload (some body)) made refl uploads

handle-Gated_example : Gated config request made
handle-Gated_example = handle-Gated config request (upload (some body)) made uploads

authorize_storage_iff_example :
    (authorize_storage config request "docs" "storage.upload" true ≡ ok tt)
    ↔ Authorized config request (trim_space "docs") "storage.upload" true
authorize_storage_iff_example =
    authorize_storage_iff config request "docs" "storage.upload" true refl

validate-ValidRequest_example : ValidRequest config body base
validate-ValidRequest_example = validate-ValidRequest config body base validates

abbrev parts : List CompletedPart
parts =
    record { part_number = pos 2; etag = " e2 " } ∷ record { part_number = pos 1; etag = "e1" } ∷ []

validate_completed_parts_iff_example :
    (validate_completed_parts parts ≡ ok (map trimmed_part parts)) ↔ (
      (1 ≤ length parts)
      × (length parts ≤ 10000)
      × All IsPart parts
      × DistinctParts parts
      × (map trimmed_part parts ≡ map trimmed_part parts))
validate_completed_parts_iff_example = validate_completed_parts_iff parts (map trimmed_part parts)

validate-exact_lifetime_example : base.expires_in ≡ pos (60 * second)
validate-exact_lifetime_example =
    validate-exact_lifetime config body base 59 refl (omega arith) validates

validate-wraps_example :
    validate_storage_request config (record body { expires_in_seconds = pos (suc (2 ^ 55 + 59)) })
    ≡ validate_storage_request config (record body { expires_in_seconds = pos 60 })
validate-wraps_example = validate-wraps config body 59

health_ready-IsReady_example : IsReady config
health_ready-IsReady_example = health_ready-IsReady config has_storage needs_provider is_ready

-- two roles, one with a capability that the text repeats and one with its defaults
abbrev two_roles : List String
two_roles = role_storage ∷ role_streaming ∷ []

abbrev two_capabilities : Dict (List String)
two_capabilities =
    (role_storage, "presign" ∷ "multipart" ∷ [])
    ∷ (role_streaming, "playback" ∷ "manifest" ∷ "token" ∷ "origin-select" ∷ "audit" ∷ [])
    ∷ []

two_roles_parse : parse_roles "storage,Streaming" ≡ ok two_roles
unfolding parse_roles is_role trim_space split to_lower lookup
two_roles_parse = refl

two_capabilities_parse :
    parse_capabilities two_roles "storage:presign|multipart|presign" ≡ ok two_capabilities
unfolding parse_capabilities trim_space split to_lower cut contains replace_all lookup insert
    defaults
two_capabilities_parse = refl

register-parse_capabilities_example :
    register (record { roles = two_roles; capabilities = two_capabilities })
    ≡ some (system_patterns ++ selected_patterns two_roles two_capabilities)
register-parse_capabilities_example =
    register-parse_capabilities "storage,Streaming" "storage:presign|multipart|presign" two_roles
      two_capabilities two_roles_parse two_capabilities_parse

-- a capability that is selected twice would make `HandleFunc` panic
twice_panics :
    register (record {
      roles = role_storage ∷ [];
      capabilities = (role_storage, "presign" ∷ "presign" ∷ []) ∷ [];
    })
    ≡ none
unfolding register selected_patterns lookup
twice_panics = refl
