-- ===== src/App/Load.antt =====
-- config.go: `LoadConfig` and the readers of the environment. An error is the variable's name, or a
-- fixed text; the texts that the source formats are left out.
use gateway_runtime.Prelude.{
  String, Bool, true, false, not, List, [], ◌∷◌, Option, none, some, Result, ok, err, ◌>>=◌, ◌>>◌,
  require, some_or, ◌*◌, ◌^◌, str_eq, contains_str, map, if◌then◌else◌,
}
use gateway_runtime.Prelude.Dict.{Dict, lookup, insert, erase}
use gateway_runtime.Duration.{ℤ, pos, Duration, second, minute, hour}
use gateway_runtime.Text.{trim_space, to_lower, equal_fold, split}
use gateway_runtime.Text.Decimal.{parse_int}
use gateway_runtime.StorageTarget
use gateway_runtime.RuntimeCfg
use gateway_runtime.RuntimeCfg.{Selection, parse_roles, parse_capabilities}
use gateway_runtime.App.Config.{
  Config, ParsedUrl, StorageProviderConfig, StorageRoleConfig, SessionConfig, HttpConfig,
  TelemetryConfig, LimitsConfig, StoreConfig, OidcConfig, PolicyConfig, StorageWorkloadAuthConfig,
  validate,
}

-- The environment, and the functions of the standard library that stand for parameters: how time and
-- strconv write and read durations and floats, url.Parse, and what encoding/json decodes from a text.
-- `rate` and `auth_rate` are the constants 50 and 0.2.
pub record Surroundings (F : Type 0) : Type 0 where
  pub env : String → Option String
  pub duration_text : Duration → String
  pub parse_duration : String → Option Duration
  pub int_text : ℤ → String
  pub float_text : F → String
  pub parse_float : String → Option F
  pub rate : F
  pub auth_rate : F
  pub below_zero : F → Bool
  pub parse_url : String → Option ParsedUrl
  pub decode_targets : String → Option StorageTarget.Registry
  pub decode_providers : String → Option (Dict StorageProviderConfig)
  pub decode_lists : String → Option (Dict (List String))

-- `strconv.ParseBool`
unfoldable pub parse_bool : String → Option Bool
parse_bool s =
    if contains_str ("1" ∷ "t" ∷ "T" ∷ "TRUE" ∷ "true" ∷ "True" ∷ []) s
    then some true
    else if contains_str ("0" ∷ "f" ∷ "F" ∷ "FALSE" ∷ "false" ∷ "False" ∷ []) s
    then some false
    else none

-- `strconv.FormatBool`
abbrev bool_text : Bool → String
bool_text true = "true"
bool_text false = "false"

-- the loop of `splitCSV`
unfoldable pub csv_items : List String → List String
csv_items [] = []
csv_items (item ∷ items) =
    let rest = csv_items items in
    if str_eq (trim_space item) "" then rest else trim_space item ∷ rest

unfoldable pub split_csv : String → List String
unfolding csv_items split trim_space
split_csv v = csv_items (split v ",")

-- one round of the loop of `parseStorageProviders`, at a name whose entry is `provider`
abbrev pub trimmed_provider : StorageProviderConfig → StorageProviderConfig
trimmed_provider c = record { signer_base_url = trim_space c.signer_base_url }

unfoldable pub provider_entry :
    String
    → StorageProviderConfig
    → Dict StorageProviderConfig
    → Result String (Dict StorageProviderConfig)
provider_entry name c out = do
  require (not (str_eq (trim_space name) "")) "storage provider name is required"
  require (not (str_eq (trim_space c.signer_base_url) ""))
      "storage provider signer_base_url is required"
  ok (
      if str_eq (trim_space name) name
      then insert name (trimmed_provider c) out
      else insert (trim_space name) (trimmed_provider c) (erase name out))

abbrev provider_found :
    String
    → Option StorageProviderConfig
    → Dict StorageProviderConfig
    → Result String (Dict StorageProviderConfig)
provider_found name none out = ok out
provider_found name (some c) out = provider_entry name c out

-- The loop ranges over the map that it writes to: an entry is read when its name is visited. A name
-- that the loop adds may be visited or not in Go; here it is not, and a second visit changes nothing.
unfoldable pub provider_entries :
    List String → Dict StorageProviderConfig → Result String (Dict StorageProviderConfig)
unfolding provider_entry
provider_entries [] out = ok out
provider_entries (name ∷ names) out =
    provider_found name (lookup name out) out >>= λ out'. provider_entries names out'

unfoldable pub parse_storage_providers :
    String → Option (Dict StorageProviderConfig) → Result String (Dict StorageProviderConfig)
unfolding provider_entries lookup insert erase trim_space
parse_storage_providers raw decoded = if str_eq (trim_space raw) "" then ok [] else elim decoded [
  | none ↦ err "parse storage providers"
  | some entries ↦ provider_entries (map (λ e. e.0) entries) entries
]

unfoldable pub parse_string_slice_map :
    String → Option (Dict (List String)) → Result String (Dict (List String))
unfolding trim_space
parse_string_slice_map raw decoded =
    if str_eq (trim_space raw) "" then ok [] else some_or decoded "invalid map of lists"

module _ {F : Type 0} (s : Surroundings F) where
  abbrev value_or : Option String → String → String
  value_or none fallback = fallback
  value_or (some v) fallback = v

  unfoldable pub env_or : String → String → String
  env_or name fallback = value_or (s.env name) fallback

  -- `os.Getenv`
  abbrev pub getenv : String → String
  getenv name = env_or name ""

  unfoldable pub duration_env : String → Duration → Result String Duration
  duration_env name fallback =
      some_or (s.parse_duration (env_or name (s.duration_text fallback))) name

  -- `strconv.Atoi` where an int has 64 bits, and `strconv.ParseInt(raw, 10, 64)`
  unfoldable pub int_env : String → ℤ → Result String ℤ
  int_env name fallback = some_or (parse_int (trim_space (env_or name (s.int_text fallback)))) name

  unfoldable pub int64_env : String → ℤ → Result String ℤ
  int64_env name fallback =
      some_or (parse_int (trim_space (env_or name (s.int_text fallback)))) name

  unfoldable pub float_env : String → F → Result String F
  float_env name fallback =
      some_or (s.parse_float (trim_space (env_or name (s.float_text fallback)))) name

  unfoldable pub bool_env : String → Bool → Result String Bool
  bool_env name fallback = some_or (parse_bool (trim_space (env_or name (bool_text fallback)))) name

  unfoldable pub load_runtime : Result String Selection
  load_runtime = do
    roles ← parse_roles (getenv "GATEWAY_ROLE")
    capabilities ← parse_capabilities roles (getenv "GATEWAY_CAPABILITIES")
    let selection : Selection = record { roles = roles; capabilities = capabilities }
    RuntimeCfg.validate selection
    ok selection

  unfoldable pub load_telemetry : Result String TelemetryConfig
  load_telemetry = do
    metrics ← bool_env "BFF_METRICS_ENABLED" true
    audit ← bool_env "BFF_AUDIT_ENABLED" true
    access_log ← bool_env "BFF_ACCESS_LOG_ENABLED" true
    trace ← bool_env "BFF_TRACE_ENABLED" true
    ok (record {
      metrics_enabled = metrics;
      audit_enabled = audit;
      access_log_enabled = access_log;
      trace_enabled = trace;
    })

  unfoldable pub load_session : Result String SessionConfig
  load_session = do
    max_lifetime ← duration_env "BFF_SESSION_MAX_LIFETIME" (pos (8 * hour))
    idle_timeout ← duration_env "BFF_SESSION_IDLE_TIMEOUT" (pos (30 * minute))
    touch_interval ← duration_env "BFF_SESSION_TOUCH_INTERVAL" (pos minute)
    ok (record {
      max_lifetime = max_lifetime;
      idle_timeout = idle_timeout;
      touch_interval = touch_interval;
    })

  unfoldable pub load_workload_auth : StorageWorkloadAuthConfig
  load_workload_auth = record {
    mode = to_lower (trim_space (env_or "STORAGE_WORKLOAD_AUTH_MODE" "disabled"));
    issuer = trim_space (getenv "STORAGE_WORKLOAD_OIDC_ISSUER");
    audience = trim_space (getenv "STORAGE_WORKLOAD_OIDC_AUDIENCE");
    required = equal_fold (trim_space (env_or "STORAGE_WORKLOAD_AUTH_REQUIRED" "false")) "true";
  }

  unfoldable pub load_storage : Result String StorageRoleConfig
  load_storage = do
    signer_timeout ← duration_env "STORAGE_SIGNER_TIMEOUT" (pos (5 * second))
    default_ttl ← duration_env "STORAGE_PRESIGN_DEFAULT_TTL" (pos (15 * minute))
    max_ttl ← duration_env "STORAGE_PRESIGN_MAX_TTL" (pos hour)
    policy_timeout ← duration_env "STORAGE_ACCESS_POLICY_TIMEOUT" (pos (3 * second))
    targets ←
        StorageTarget.parse (getenv "STORAGE_TARGETS_JSON")
          (s.decode_targets (getenv "STORAGE_TARGETS_JSON"))
    providers ←
        parse_storage_providers (getenv "STORAGE_PROVIDERS_JSON")
          (s.decode_providers (getenv "STORAGE_PROVIDERS_JSON"))
    ok (record {
      signer_base_url = trim_space (getenv "STORAGE_SIGNER_BASE_URL");
      signer_timeout = signer_timeout;
      providers = providers;
      default_ttl = default_ttl;
      max_ttl = max_ttl;
      targets = targets;
      access_policy_url = trim_space (getenv "STORAGE_ACCESS_POLICY_URL");
      access_policy_timeout = policy_timeout;
      subject_header = env_or "STORAGE_SUBJECT_HEADER" "X-Auth-Subject";
      workload_auth = load_workload_auth;
    })

  unfoldable pub load_limits : Result String (LimitsConfig F)
  load_limits = do
    max_body ← int64_env "BFF_LIMIT_MAX_REQUEST_BODY_BYTES" (pos (2 ^ 20))
    max_concurrency ← int_env "BFF_LIMIT_MAX_CONCURRENCY" (pos 256)
    rate_per_second ← float_env "BFF_LIMIT_RATE_PER_SECOND" s.rate
    rate_burst ← int_env "BFF_LIMIT_RATE_BURST" (pos 100)
    rate_max_entries ← int_env "BFF_LIMIT_RATE_MAX_ENTRIES" (pos 10000)
    auth_rate_per_second ← float_env "BFF_LIMIT_AUTH_RATE_PER_SECOND" s.auth_rate
    auth_rate_burst ← int_env "BFF_LIMIT_AUTH_RATE_BURST" (pos 10)
    ok (record {
      max_request_body_bytes = max_body;
      max_concurrency = max_concurrency;
      rate_per_second = rate_per_second;
      rate_burst = rate_burst;
      rate_max_entries = rate_max_entries;
      auth_rate_per_second = auth_rate_per_second;
      auth_rate_burst = auth_rate_burst;
    })

  unfoldable pub load_policy : Result String PolicyConfig
  load_policy = do
    permissions ←
        parse_string_slice_map (getenv "BFF_POLICY_ROLE_PERMISSIONS")
          (s.decode_lists (getenv "BFF_POLICY_ROLE_PERMISSIONS"))
    capabilities ←
        parse_string_slice_map (getenv "BFF_POLICY_ROLE_CAPABILITIES")
          (s.decode_lists (getenv "BFF_POLICY_ROLE_CAPABILITIES"))
    ok (record {
      provider = env_or "BFF_POLICY_PROVIDER" "static";
      role_permissions = permissions;
      role_capabilities = capabilities;
    })

  unfoldable pub load_http : HttpConfig
  load_http = record {
    addr = env_or "BFF_HTTP_ADDR" ":8080";
    base_path = env_or "BFF_HTTP_BASE_PATH" "";
    public_url = env_or "BFF_HTTP_PUBLIC_URL" "http://localhost:8080";
    trusted_proxy_cidrs = split_csv (getenv "BFF_TRUSTED_PROXY_CIDRS");
  }

  unfoldable pub load_oidc : OidcConfig
  load_oidc = record {
    issuer = getenv "BFF_OIDC_ISSUER";
    client_id = getenv "BFF_OIDC_CLIENT_ID";
    client_secret = getenv "BFF_OIDC_CLIENT_SECRET";
    scopes = split_csv (env_or "BFF_OIDC_SCOPES" "openid,profile,email");
  }

  unfoldable pub load_store : StoreConfig
  load_store = record {
    backend = env_or "BFF_STORE_BACKEND" "memory";
    redis_url = getenv "BFF_REDIS_URL";
    redis_prefix = env_or "BFF_REDIS_PREFIX" "rebff";
  }

  -- `LoadConfig`
  unfoldable pub load : Result String (Config F)
  load = do
    runtime ← load_runtime
    telemetry ← load_telemetry
    session ← load_session
    storage ← load_storage
    limits ← load_limits
    policy ← load_policy
    let cfg : Config F = record {
      runtime = runtime;
      http = load_http;
      telemetry = telemetry;
      limits = limits;
      oidc = load_oidc;
      store = load_store;
      policy = policy;
      session = session;
      storage = storage;
    }
    validate s.parse_url s.below_zero cfg
    ok cfg
