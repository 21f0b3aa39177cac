-- ===== src/RoleRuntime/Validate.antt =====
-- `validateStorageRequest`: the bucket, the object key and the lifetime of a request.
use gateway_runtime.Prelude.{
  ℕ, zero, suc, ◌*◌, String, Bool, ◌||◌, not, Option, Result, ok, ◌>>=◌, ◌>>◌, require, some_or,
  map_err, is_empty, str_eq, if◌then◌else◌,
}
use gateway_runtime.Duration.{
  ℤ, pos, negsuc, Duration, minute, hour, is_positive, exceeds, positive_or, seconds,
}
use gateway_runtime.Text.{trim_space, has_prefix, contains}
use gateway_runtime.Text.Decimal.{parse_int}
use gateway_runtime.Capability.{PresignedRequest}
use gateway_runtime.StorageTarget
use gateway_runtime.Http.{Request}
use gateway_runtime.RoleRuntime.{Config, StorageRequest, Response, write_error}

-- The bucket: that of the named target where targets are configured, otherwise the request's own.
unfoldable pub resolve_bucket : Config → StorageRequest → Result String String
resolve_bucket cfg req =
    if is_empty cfg.storage_targets
    then (do
      require (not (str_eq (trim_space req.bucket) "")) "bucket is required"
      ok (trim_space req.bucket))
    else do
      require (not (str_eq (trim_space req.target) "")) "target is required"
      target ←
          some_or (StorageTarget.resolve cfg.storage_targets (trim_space req.target))
            "unknown storage target"
      ok target.bucket

unfoldable pub bad_key : String → Bool
bad_key key = has_prefix key "/" || contains key ".." || contains key "\\"

unfoldable pub object_key_of : StorageRequest → Result String String
unfolding bad_key
object_key_of req = do
  require (not (str_eq (trim_space req.object_key) "")) "object_key is required"
  require (not (bad_key (trim_space req.object_key))) "object_key is invalid"
  ok (trim_space req.object_key)

unfoldable pub default_ttl : Config → ℕ
default_ttl cfg = positive_or cfg.storage_default_ttl (15 * minute)

unfoldable pub max_ttl : Config → ℕ
max_ttl cfg = positive_or cfg.storage_max_ttl hour

-- the lifetime that is asked for, or the default where none is
abbrev pub requested_ttl : ℕ → ℤ → Duration
requested_ttl default (pos zero) = pos default
requested_ttl default (pos (suc n)) = seconds (suc n)
requested_ttl default (negsuc n) = pos default

unfoldable pub ttl_of : Config → StorageRequest → Result String Duration
unfolding default_ttl max_ttl
ttl_of cfg req = do
  let ttl = requested_ttl (default_ttl cfg) req.expires_in_seconds
  require (is_positive ttl) "expires_in_seconds exceeds allowed TTL"
  require (not (exceeds ttl (pos (max_ttl cfg)))) "expires_in_seconds exceeds allowed TTL"
  ok ttl

unfoldable pub validate_storage_request : Config → StorageRequest → Result String PresignedRequest
unfolding resolve_bucket object_key_of ttl_of
validate_storage_request cfg req = do
  bucket ← resolve_bucket cfg req
  key ← object_key_of req
  ttl ← ttl_of cfg req
  ok (record {
    bucket = bucket;
    object_key = key;
    content_type = trim_space req.content_type;
    expires_in = ttl;
  })

abbrev pub bad_request : {A : Type 0} → Result String A → Result Response A
bad_request = map_err (write_error 400)

-- `decodeStorageRequest`, from the body as encoding/json decodes it (`none` where it fails)
unfoldable pub decode_storage_request :
    Config → Option StorageRequest → Result Response (PresignedRequest × String)
decode_storage_request cfg body = do
  req ← some_or body (write_error 400 "invalid_request")
  presigned ← bad_request (validate_storage_request cfg req)
  ok (presigned, trim_space req.target)

-- The request that the query parameters make.
unfoldable pub query_seconds : String → Result Response ℤ
query_seconds raw =
    if str_eq (trim_space raw) ""
    then ok (pos 0)
    else some_or (parse_int (trim_space raw)) (write_error 400 "invalid expires_in_seconds")

unfoldable pub storage_request_from_query :
    Config → Request → Result Response (PresignedRequest × String)
unfolding query_seconds
storage_request_from_query cfg r = do
  expires ← query_seconds (r.query "expires_in_seconds")
  presigned ← bad_request (
      validate_storage_request cfg (record {
        target = r.query "target";
        operation = "";
        bucket = r.query "bucket";
        object_key = r.query "object_key";
        content_type = "";
        expires_in_seconds = expires;
      }))
  ok (presigned, trim_space (r.query "target"))
