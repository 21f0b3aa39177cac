-- ===== src/AppApi.antt =====
-- internal/appapi/handler.go: the application's own routes. The domain's service and the storage signer are
-- parameters with errors of a type `E`; `kind_of` is `errors.As` at the outbound error, and `Json` is
-- encoding/json.
pub mod ObjectKey
pub mod Upload
mod Tests
use Prim.Native.String.{◌++◌}
use gateway_runtime.Prelude.{
  ℕ, suc, ◌-◌, ◌*◌, ◌%◌, ◌^◌, String, Bool, true, false, ◌&&◌, ◌||◌, not, List, [], ◌∷◌, Option,
  none, some, Result, ok, err, is_empty, str_eq, if◌then◌else◌,
}
use gateway_runtime.Prelude.{◌++◌ as append}
use gateway_runtime.Prelude.Dict.{Dict}
use gateway_runtime.Prelude.Exec.{Exec}
use gateway_runtime.Text.{trim_space, has_prefix, contains}
use gateway_runtime.Text.Trim.{trim_of}
use gateway_runtime.Text.Clean.{clean}
use gateway_runtime.Duration.{
  ℤ, pos, negsuc, Duration, second, minute, is_positive, exceeds, to_int64, positive_or,
}
use gateway_runtime.Capability.{PresignedRequest, PresignedOperation}
use gateway_runtime.Session
use gateway_runtime.Session.{Session}
use gateway_runtime.Policy
use gateway_runtime.Outbound.{
  ErrorKind, bad_request, unauthorized, forbidden, not_found, conflict, rate_limited, unavailable,
  upstream_error,
}
use gateway_runtime.Middleware.{Request, Response, Handler, with_header}
use gateway_runtime.Middleware.Authorization.{
  Sink, Stamp, Actor, nobody, actor_of, new_event, enrich_audit_event, append_event,
  require_permission,
}

pub record ManagedItem : Type 0 where
  pub id : String
  pub name : String

pub record UploadRequest : Type 0 where
  pub object_key : String
  pub content_type : String
  pub expires_in : ℤ

-- encoding/json; `upload_request` decodes a body of at most 32 KiB without unknown fields
pub record Json : Type 0 where
  pub error : String → String
  pub item : ManagedItem → String
  pub operation : PresignedOperation → String
  pub upload_request : Request → Option UploadRequest

-- the loop over the prefixes
unfoldable pub has_allowed_prefix : String → List String → Bool
unfolding trim_of trim_space has_prefix
has_allowed_prefix key [] = false
has_allowed_prefix key (raw ∷ rest) =
    let prefix = trim_of "/" (trim_space raw) in
    (not (str_eq prefix "") && (str_eq key prefix || has_prefix key (prefix ++ "/")))
    || has_allowed_prefix key rest

unfoldable pub validate_object_key : String → List String → Option String
unfolding trim_space has_prefix contains clean has_allowed_prefix
validate_object_key raw prefixes =
    let key = trim_space raw in
    if str_eq key "" || has_prefix key "/" || contains key "\\"
    then none
    else if str_eq (clean key) "."
        || str_eq (clean key) ".."
        || has_prefix (clean key) "../"
        || not (str_eq (clean key) key)
    then none
    else if is_empty prefixes
    then none
    else if has_allowed_prefix (clean key) prefixes
    then some (clean key)
    else none

-- `time.Duration(in.ExpiresIn) * time.Second`, with the wrap-around of 64 bits
unfoldable pub seconds_of : ℤ → Duration
unfolding to_int64
seconds_of (pos n) = to_int64 (n * second)
seconds_of (negsuc n) = to_int64 (2 ^ 64 - (suc n * second) % 2 ^ 64)

abbrev pub ttl_or_default : Duration → Duration
ttl_or_default ttl = if is_positive ttl then ttl else pos (5 * minute)

unfoldable pub status_of_kind : Option ErrorKind → ℕ
status_of_kind none = 502
status_of_kind (some bad_request) = 400
status_of_kind (some unauthorized) = 401
status_of_kind (some forbidden) = 403
status_of_kind (some not_found) = 404
status_of_kind (some conflict) = 409
status_of_kind (some rate_limited) = 429
status_of_kind (some unavailable) = 503
status_of_kind (some upstream_error) = 502

-- the texts of the kinds in errors.go
abbrev kind_text : ErrorKind → String
kind_text bad_request = "bad_request"
kind_text unauthorized = "unauthorized"
kind_text forbidden = "forbidden"
kind_text not_found = "not_found"
kind_text conflict = "conflict"
kind_text rate_limited = "rate_limited"
kind_text unavailable = "unavailable"
kind_text upstream_error = "upstream_error"

abbrev code_of : Option ErrorKind → String
code_of none = "upstream_error"
code_of (some kind) = kind_text kind

-- `writeJSON`
abbrev pub write_json : ℕ → String → Response
write_json status body = record {
  status = status;
  headers = ("Content-Type", "application/json") ∷ [];
  cookies = [];
  body = body;
}

pub record Api (E W : Type 0) : Type 0 where
  pub sessions : Session.Store W
  pub policy : Option Policy.Evaluator
  pub domain : Option (String → String → Exec E W ManagedItem)
  pub storage : Option (PresignedRequest → Exec E W PresignedOperation)
  pub audit : Option (Sink W)
  pub upload_bucket : String
  pub upload_prefixes : List String
  pub max_presign_ttl : Duration

abbrev session_actor : Option Session → Actor
session_actor none = nobody
session_actor (some s) = actor_of s

module _ {E W : Type 0} (h : Api E W) (json : Json) (kind_of : E → Option ErrorKind)
    (stamp : Stamp) where
  -- `Handler.emit`
  unfoldable pub emit : Request → String → String → String → String → ℕ → Dict String → W → W
  emit r action target resource outcome status attributes w =
      let actor = session_actor r.context.session in
      append_event h.audit
        (record (enrich_audit_event r (new_event stamp action target outcome)) {
          actor = actor.subject;
          actor_username = actor.username;
          resource_id = resource;
          http_status = status;
          attributes = attributes;
        })
        w

  -- `writeError`
  abbrev pub write_error : ℕ → String → Response
  write_error status code = write_json status (json.error code)

  abbrev pub write_outbound_error : E → Response
  write_outbound_error e = write_error (status_of_kind (kind_of e)) (code_of (kind_of e))

  abbrev item_answer : Request → String → Result E ManagedItem → W → Response × W
  item_answer r id (ok item) w = (
    write_json 200 (json.item item),
    emit r "managed-item.read" "managed-item" id "success" 200 [] w,
  )
  item_answer r id (err e) w = (
    write_outbound_error e,
    emit r "managed-item.read" "managed-item" id "failure" (status_of_kind (kind_of e)) [] w,
  )

  abbrev with_session :
      (String → String → Exec E W ManagedItem) → Request → String → Option String → W → Response × W
  with_session domain r id none w = (write_error 401 "unauthorized", w)
  with_session domain r id (some session) w =
      if str_eq session ""
      then (write_error 401 "unauthorized", w)
      else item_answer r id (domain session id w).0 (domain session id w).1

  -- `getManagedItem`; `id` is the path's value
  unfoldable pub get_managed_item :
      (String → String → Exec E W ManagedItem) → (Request → String) → Handler W
  unfolding emit status_of_kind
  get_managed_item domain path_id r w =
      let id = trim_space (path_id r) in
      if str_eq id "" || contains id "/"
      then (
        write_error 400 "invalid_id",
        emit r "managed-item.read" "managed-item" id "deny" 400 (("reason", "invalid_id") ∷ []) w,
      )
      else with_session domain r id (r.cookie "__Host-bff_session") w

  abbrev refuse_upload : Request → String → String → W → Response × W
  refuse_upload r key reason w = (
    write_error 400 reason,
    emit r "storage.presign_put" "object" key "deny" 400 (("reason", reason) ∷ []) w,
  )

  abbrev pub operation_answer : Request → String → Result E PresignedOperation → W → Response × W
  operation_answer r key (ok op) w = (
    with_header "Cache-Control" "no-store" (write_json 200 (json.operation op)),
    emit r "storage.presign_put" "object" key "success" 200
        (("bucket", h.upload_bucket) ∷ ("object_key", key) ∷ []) w,
  )
  operation_answer r key (err e) w = (
    write_outbound_error e,
    emit r "storage.presign_put" "object" key "failure" (status_of_kind (kind_of e)) [] w,
  )

  abbrev pub signed_request : UploadRequest → String → PresignedRequest
  signed_request body key = record {
    bucket = h.upload_bucket;
    object_key = key;
    content_type = trim_space body.content_type;
    expires_in = ttl_or_default (seconds_of body.expires_in);
  }

  abbrev keyed :
      (PresignedRequest → Exec E W PresignedOperation)
      → Request
      → UploadRequest
      → Option String
      → W
      → Response × W
  keyed sign r body none w = refuse_upload r "" "invalid_object_key" w
  keyed sign r body (some key) w =
      if str_eq (trim_space h.upload_bucket) ""
      then refuse_upload r "" "invalid_object_key" w
      else if exceeds (ttl_or_default (seconds_of body.expires_in))
          (pos (positive_or h.max_presign_ttl (15 * minute)))
      then refuse_upload r key "expiry_too_long" w
      else operation_answer r key (sign (signed_request body key) w).0
          (sign (signed_request body key) w).1

  abbrev decoded :
      (PresignedRequest → Exec E W PresignedOperation)
      → Request
      → Option UploadRequest
      → W
      → Response × W
  decoded sign r none w = refuse_upload r "" "invalid_request" w
  decoded sign r (some body) w =
      keyed sign r body (validate_object_key body.object_key h.upload_prefixes) w

  -- `presignUpload`
  unfoldable pub presign_upload : (PresignedRequest → Exec E W PresignedOperation) → Handler W
  unfolding emit status_of_kind
  presign_upload sign r w = decoded sign r (json.upload_request r) w

  abbrev guard : String → Handler W → Handler W
  guard permission next =
      require_permission h.audit stamp permission "__Host-bff_session" h.sessions h.policy next

  abbrev item_routes :
      (Request → String) → Option (String → String → Exec E W ManagedItem) → Dict (Handler W)
  item_routes path_id none = []
  item_routes path_id (some domain) =
      ("GET /api/managed-items/{id}", guard "managed-item.read" (get_managed_item domain path_id))
      ∷ []

  abbrev upload_routes : Option (PresignedRequest → Exec E W PresignedOperation) → Dict (Handler W)
  upload_routes none = []
  upload_routes (some sign) =
      ("POST /api/storage/upload-url", guard "storage.upload" (presign_upload sign)) ∷ []

  -- `Register`: the patterns with their handlers
  unfoldable pub register : (Request → String) → Dict (Handler W)
  unfolding get_managed_item presign_upload
  register path_id = append (item_routes path_id h.domain) (upload_routes h.storage)
