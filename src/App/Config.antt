-- ===== src/App/Config.antt =====
-- config.go: the configuration and `Validate`. `F` is the type of float64.
use gateway_runtime.Prelude.{
  String, Bool, true, false, ◌&&◌, ◌||◌, not, List, [], ◌∷◌, Option, none, some, Result, ok, err,
  ◌>>=◌, ◌>>◌, require, is_empty, is_some, str_eq, if◌then◌else◌,
}
use gateway_runtime.Prelude.Dict.{Dict, lookup}
use gateway_runtime.Duration.{ℤ, pos, Duration, is_positive, is_negative, exceeds, eq_ℤ}
use gateway_runtime.Text.{trim_space, has_prefix, split}
use gateway_runtime.Text.Trim.{trim_right_of}
use gateway_runtime.Text.Clean.{clean}
use gateway_runtime.StorageTarget
use gateway_runtime.StorageTarget.{Target}
use gateway_runtime.RuntimeCfg
use gateway_runtime.RuntimeCfg.{Selection, role_storage, has_role}

pub record TelemetryConfig : Type 0 where
  pub metrics_enabled : Bool
  pub audit_enabled : Bool
  pub access_log_enabled : Bool
  pub trace_enabled : Bool

pub record LimitsConfig (F : Type 0) : Type 0 where
  pub max_request_body_bytes : ℤ
  pub max_concurrency : ℤ
  pub rate_per_second : F
  pub rate_burst : ℤ
  pub rate_max_entries : ℤ
  pub auth_rate_per_second : F
  pub auth_rate_burst : ℤ

pub record HttpConfig : Type 0 where
  pub addr : String
  pub base_path : String
  pub public_url : String
  pub trusted_proxy_cidrs : List String

pub record StoreConfig : Type 0 where
  pub backend : String
  pub redis_url : String
  pub redis_prefix : String

pub record OidcConfig : Type 0 where
  pub issuer : String
  pub client_id : String
  pub client_secret : String
  pub scopes : List String

pub record StorageProviderConfig : Type 0 where
  pub signer_base_url : String

pub record StorageWorkloadAuthConfig : Type 0 where
  pub mode : String
  pub issuer : String
  pub audience : String
  pub required : Bool

pub record StorageRoleConfig : Type 0 where
  pub signer_base_url : String
  pub signer_timeout : Duration
  pub providers : Dict StorageProviderConfig
  pub default_ttl : Duration
  pub max_ttl : Duration
  pub targets : StorageTarget.Registry
  pub access_policy_url : String
  pub access_policy_timeout : Duration
  pub subject_header : String
  pub workload_auth : StorageWorkloadAuthConfig

pub record SessionConfig : Type 0 where
  pub max_lifetime : Duration
  pub idle_timeout : Duration
  pub touch_interval : Duration

pub record PolicyConfig : Type 0 where
  pub provider : String
  pub role_permissions : Dict (List String)
  pub role_capabilities : Dict (List String)

pub record Config (F : Type 0) : Type 0 where
  pub runtime : Selection
  pub http : HttpConfig
  pub telemetry : TelemetryConfig
  pub limits : LimitsConfig F
  pub oidc : OidcConfig
  pub store : StoreConfig
  pub policy : PolicyConfig
  pub session : SessionConfig
  pub storage : StorageRoleConfig

-- what the code reads of a `url.URL`
pub record ParsedUrl : Type 0 where
  pub scheme : String
  pub host : String
  pub path : String
  pub raw_query : String
  pub fragment : String

-- the loop over the segments
unfoldable pub no_dots : List String → Bool
no_dots [] = true
no_dots (x ∷ rest) = not (str_eq x ".." || str_eq x ".") && no_dots rest

abbrev cleaned_base : String → String
cleaned_base c = if str_eq c "." || str_eq c "/" then "" else trim_right_of "/" c

unfoldable pub normalize_base_path : String → Result String String
unfolding no_dots clean trim_right_of has_prefix split
normalize_base_path v = if str_eq v "" || str_eq v "/" then ok "" else do
  require (has_prefix v "/") "http base path must start with /"
  require (no_dots (split v "/")) "http base path must not contain dot segments"
  ok (cleaned_base (clean v))

abbrev both_or_none : Bool → Bool → Bool
both_or_none a b = if a then b else not b

unfoldable pub validate_oidc : OidcConfig → Result String (Unit {0})
validate_oidc c =
    require
      (both_or_none (not (str_eq (trim_space c.issuer) ""))
        (not (str_eq (trim_space c.client_id) "")))
      "oidc issuer and client id must be configured together"

unfoldable pub validate_store : StoreConfig → Result String (Unit {0})
validate_store c =
    if str_eq c.backend "memory"
    then ok tt
    else if str_eq c.backend "redis"
    then require (not (str_eq (trim_space c.redis_url) ""))
        "redis URL is required when store backend is redis"
    else err "unsupported store backend"

abbrev pub is_zero_duration : Duration → Bool
is_zero_duration d = eq_ℤ d (pos 0)

unfoldable pub validate_session : SessionConfig → Result String (Unit {0})
validate_session c =
    if is_zero_duration c.max_lifetime
      && is_zero_duration c.idle_timeout
      && is_zero_duration c.touch_interval
    then ok tt
    else do
      require (is_positive c.max_lifetime) "session max lifetime must be positive"
      require (is_positive c.idle_timeout && not (exceeds c.idle_timeout c.max_lifetime))
          "session idle timeout must be positive and <= max lifetime"
      require (is_positive c.touch_interval && not (exceeds c.touch_interval c.idle_timeout))
          "session touch interval must be positive and <= idle timeout"

unfoldable pub validate_targets :
    Dict StorageProviderConfig → Dict Target → Result String (Unit {0})
validate_targets providers [] = ok tt
validate_targets providers ((name, t) ∷ rest) =
    require (is_some (lookup t.provider providers))
      "storage target references unconfigured provider"
    >> validate_targets providers rest

-- `if test { … }` around a check
abbrev pub when : Bool → Result String (Unit {0}) → Result String (Unit {0})
when test check = if test then check else ok tt

abbrev pub storage_configured : Selection → StorageRoleConfig → Bool
storage_configured sel c =
    has_role sel role_storage
    || not (str_eq c.signer_base_url "")
    || not (is_empty c.providers)
    || not (is_zero_duration c.signer_timeout)
    || not (is_zero_duration c.default_ttl)
    || not (is_zero_duration c.max_ttl)
    || not (is_empty c.targets)
    || not (str_eq c.access_policy_url "")

module _ {F : Type 0} (below_zero : F → Bool) where
  unfoldable pub validate_limits : LimitsConfig F → Result String (Unit {0})
  validate_limits c = do
    require (not (is_negative c.max_request_body_bytes)) "max request body bytes must be >= 0"
    require
        (not (
          is_negative c.max_concurrency
          || below_zero c.rate_per_second
          || is_negative c.rate_burst
          || is_negative c.rate_max_entries
          || below_zero c.auth_rate_per_second
          || is_negative c.auth_rate_burst))
        "limits must be >= 0"

module _ (parse : String → Option ParsedUrl) where
  -- `u, err := url.Parse(s); err != nil || u.Scheme == "" || u.Host == ""`, negated
  abbrev absolute_url : Option ParsedUrl → Bool
  absolute_url none = false
  absolute_url (some u) = not (str_eq u.scheme "" || str_eq u.host "")

  abbrev pub is_absolute : String → Bool
  is_absolute s = absolute_url (parse s)

  abbrev plain_url : Option ParsedUrl → Bool
  plain_url none = false
  plain_url (some u) = not (not (str_eq u.raw_query "") || not (str_eq u.fragment ""))

  unfoldable pub validate_http : HttpConfig → Result String (Unit {0})
  unfolding normalize_base_path
  validate_http c = do
    require (not (str_eq c.addr "")) "http addr is required"
    base ← normalize_base_path c.base_path
    require (is_absolute c.public_url) "http public URL must be absolute"
    require (plain_url (parse c.public_url)) "http public URL must not contain query or fragment"

  -- the loops over the providers and the targets
  unfoldable pub validate_providers : Dict StorageProviderConfig → Result String (Unit {0})
  validate_providers [] = ok tt
  validate_providers ((name, p) ∷ rest) =
      require (not (str_eq (trim_space name) "")) "storage provider name is required"
      >> (require (is_absolute (trim_space p.signer_base_url))
            "storage provider signer base URL must be absolute"
          >> validate_providers rest)

  unfoldable pub validate_workload_auth : StorageWorkloadAuthConfig → Result String (Unit {0})
  validate_workload_auth c =
      if str_eq c.mode "" || str_eq c.mode "disabled"
      then require (not c.required) "storage workload auth cannot be required when mode is disabled"
      else if str_eq c.mode "oidc"
      then (do
        require (not (str_eq (trim_space c.issuer) "" || str_eq (trim_space c.audience) ""))
            "storage workload OIDC issuer and audience are required"
        require (is_absolute c.issuer) "storage workload OIDC issuer must be absolute")
      else err "unsupported storage workload auth mode"

  unfoldable pub validate_storage : StorageRoleConfig → Result String (Unit {0})
  unfolding validate_providers validate_targets validate_workload_auth
  validate_storage c = do
    require (is_positive c.signer_timeout) "storage signer timeout must be positive"
    require
        (is_positive c.default_ttl
          && is_positive c.max_ttl
          && not (exceeds c.default_ttl c.max_ttl))
        "storage presign TTLs must be positive and default <= max"
    when (not (str_eq c.signer_base_url ""))
        (require (is_absolute c.signer_base_url) "storage signer base URL must be absolute")
    validate_providers c.providers
    when (not (is_empty c.providers)) (validate_targets c.providers c.targets)
    require (is_positive c.access_policy_timeout) "storage access policy timeout must be positive"
    require (not (str_eq (trim_space c.subject_header) "")) "storage subject header is required"
    require (is_empty c.targets || not (str_eq c.access_policy_url ""))
        "storage access policy URL is required when storage targets are configured"
    when (not (str_eq c.access_policy_url ""))
        (require (is_absolute c.access_policy_url) "storage access policy URL must be absolute")
    validate_workload_auth c.workload_auth

  -- `Config.Validate`
  unfoldable pub validate :
      {F : Type 0} (below_zero : F → Bool) → Config F → Result String (Unit {0})
  unfolding validate_http validate_limits validate_oidc validate_store validate_session
      validate_storage has_role
  validate below_zero c = do
    when (not (is_empty c.runtime.roles)) (RuntimeCfg.validate c.runtime)
    validate_http c.http
    validate_limits below_zero c.limits
    validate_oidc c.oidc
    validate_store c.store
    validate_session c.session
    when (storage_configured c.runtime c.storage) (validate_storage c.storage)
    require (str_eq c.policy.provider "" || str_eq c.policy.provider "static")
        "unsupported policy provider"
