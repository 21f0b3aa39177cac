-- ===== src/App/Tests.antt =====
-- A configuration of the storage role with one provider, one target and a policy service, and the
-- surroundings of a process in which no call is answered.
use gateway_runtime.Prelude.{
  ℕ, String, Bool, true, false, [], ◌∷◌, Option, none, some, ok, err, ◌≡◌, refl, ◌↔◌, str_eq,
  if◌then◌else◌, ◌*◌, ◌^◌,
}
use gateway_runtime.Prelude.Dict.{Dict, lookup, insert}
use gateway_runtime.Text.{trim_space, to_lower, equal_fold, split}
use gateway_runtime.Text.Decimal.{parse_int}
use gateway_runtime.Text.Trim.{trim_right_of}
use gateway_runtime.Duration.{ℤ, pos, Duration, second, minute, hour, eq_ℤ}
use gateway_runtime.StorageTarget
use gateway_runtime.RuntimeCfg
use gateway_runtime.RuntimeCfg.{
  Selection, role_storage, has_role, parse_roles, parse_capabilities, defaults,
}
use gateway_runtime.RoleRuntime
use gateway_runtime.RoleRuntime.Signers.{health_ready, storage_provider_required}
use gateway_runtime.Outbound.Client.{Environment}
use gateway_runtime.App.Config.{
  Config, ParsedUrl, StorageRoleConfig, validate, validate_http, validate_limits, validate_oidc,
  validate_store, validate_session, validate_storage,
}
use gateway_runtime.App.Wiring.{
  Process, Dialled, signer_of, evaluator_of, role_config, storage_config, new_client,
}
use gateway_runtime.App.Sound.{IsSoundSession, IsSoundStorage, validate-IsSound}
use gateway_runtime.App.Ready.{CanServe, storage_config-ready_iff}
use gateway_runtime.App.Load.{
  Surroundings, load, load_runtime, load_telemetry, load_session, load_storage, load_limits,
  load_policy, load_http, load_oidc, load_store, load_workload_auth, env_or, bool_env, duration_env,
  int_env, int64_env, float_env, parse_bool, split_csv, parse_storage_providers,
  parse_string_slice_map,
}
use gateway_runtime.App.Loaded.{
  ReadsBack, in_empty, default_config, load-IsSound, load-default_config,
}

-- every text but the empty one is an absolute URL
abbrev parse : String → Option ParsedUrl
parse s =
    if str_eq s ""
    then none
    else some (record {
      scheme = "http";
      host = "localhost:8080";
      path = "";
      raw_query = "";
      fragment = "";
    })

abbrev silent : Environment ℕ
silent = record {
  make = λ r. ok r;
  send = λ r w. (err "no route to host", w);
  context_error = λ w. none;
  timer = λ n w. (ok tt, w);
  request_id = "r-1";
  trace_id = "";
}

abbrev process : Process ℕ
process = record {
  parse = parse;
  dial = λ u timeout. silent;
  world = 0;
  codec = record {
    encode = λ p. ok "{}";
    operation = λ b. err "no operation";
    upload = λ b. err "no upload";
    completed = λ b. err "no result";
    metadata = λ b. err "no metadata";
    message = λ e. "failed";
  };
  encode_request = λ r. ok "{}";
  decode_decision = λ b. err "no decision";
  discover = λ issuer audience. err "no issuer";
}

abbrev storage : StorageRoleConfig
storage = record {
  signer_base_url = "";
  signer_timeout = pos (5 * second);
  providers = ("default", record { signer_base_url = "https://signer.test" }) ∷ [];
  default_ttl = pos (15 * minute);
  max_ttl = pos hour;
  targets = ("media", record { provider = "default"; bucket = "b"; read_only = false }) ∷ [];
  access_policy_url = "https://policy.test";
  access_policy_timeout = pos (3 * second);
  subject_header = "X-Auth-Subject";
  workload_auth = record { mode = "disabled"; issuer = ""; audience = ""; required = false };
}

abbrev config : Config ℕ
config = record {
  runtime = record {
    roles = role_storage ∷ [];
    capabilities = (role_storage, "upload" ∷ "metadata" ∷ []) ∷ [];
  };
  http = record {
    addr = ":8080";
    base_path = "/gw";
    public_url = "http://localhost:8080";
    trusted_proxy_cidrs = [];
  };
  telemetry = record {
    metrics_enabled = true;
    audit_enabled = true;
    access_log_enabled = true;
    trace_enabled = true;
  };
  limits = record {
    max_request_body_bytes = pos 10;
    max_concurrency = pos 1;
    rate_per_second = 1;
    rate_burst = pos 1;
    rate_max_entries = pos 1;
    auth_rate_per_second = 1;
    auth_rate_burst = pos 1;
  };
  oidc = record { issuer = ""; client_id = ""; client_secret = ""; scopes = [] };
  store = record { backend = "memory"; redis_url = ""; redis_prefix = "" };
  policy = record { provider = "static"; role_permissions = []; role_capabilities = [] };
  session = record {
    max_lifetime = pos hour;
    idle_timeout = pos minute;
    touch_interval = pos second;
  };
  storage = storage;
}

abbrev never : ℕ → Bool
never n = false

config_is_valid : validate parse never config ≡ ok tt
unfolding validate validate_http validate_limits validate_oidc validate_store validate_session
    validate_storage RuntimeCfg.validate trim_space has_role lookup
config_is_valid = refl

storage_role : has_role config.runtime role_storage ≡ true
unfolding has_role
storage_role = refl

validate-IsSound_example : IsSoundSession config.session × IsSoundStorage parse config.storage
validate-IsSound_example = validate-IsSound never parse config config_is_valid storage_role

abbrev dialled : Dialled ℕ
dialled = record {
  client = record {
    base_path = "";
    tokens = none;
    max_retries = pos 1;
    retry_backoff = pos 50000000;
    max_body_bytes = pos (2 ^ 20);
  };
  environment = silent;
}

abbrev built : RoleRuntime.Config
built =
    role_config process config none
      (("default", record { signer = some (signer_of process dialled) }) ∷ []) none
      (some (evaluator_of process dialled))

config_builds : storage_config process config ≡ ok built
unfolding storage_config new_client insert trim_right_of has_role
config_builds = refl

needs_provider : storage_provider_required config.runtime ≡ true
unfolding storage_provider_required lookup
needs_provider = refl

provider_trimmed : trim_space "default" ≡ "default"
unfolding trim_space
provider_trimmed = refl

storage_config-ready_iff_example : ((health_ready built).status ≡ 200) ↔ CanServe storage
storage_config-ready_iff_example =
    storage_config-ready_iff process config never built config_is_valid storage_role needs_provider
      (provider_trimmed, tt) config_builds

-- the texts of the constants
abbrev text_of : Dict ℤ → ℤ → String
text_of [] n = ""
text_of ((text, m) ∷ rest) n = if eq_ℤ m n then text else text_of rest n

abbrev durations : Dict Duration
durations =
    ("8h0m0s", pos (8 * hour))
    ∷ ("30m0s", pos (30 * minute))
    ∷ ("1m0s", pos minute)
    ∷ ("5s", pos (5 * second))
    ∷ ("15m0s", pos (15 * minute))
    ∷ ("1h0m0s", pos hour)
    ∷ ("3s", pos (3 * second))
    ∷ []

abbrev ints : Dict ℤ
ints =
    ("1048576", pos (2 ^ 20))
    ∷ ("256", pos 256)
    ∷ ("100", pos 100)
    ∷ ("10000", pos 10000)
    ∷ ("10", pos 10)
    ∷ []

find_duration : String → Option Duration
unfolding lookup
find_duration text = lookup text durations

abbrev surroundings : Surroundings ℕ
surroundings = record {
  env = λ name. if str_eq name "GATEWAY_ROLE" then some " Storage " else none;
  duration_text = text_of durations;
  parse_duration = find_duration;
  int_text = text_of ints;
  float_text = λ n. "1";
  parse_float = λ text. some 1;
  rate = 1;
  auth_rate = 1;
  below_zero = never;
  parse_url = parse;
  decode_targets = λ raw. none;
  decode_providers = λ raw. none;
  decode_lists = λ raw. none;
}

reads_back : ReadsBack surroundings
unfolding find_duration trim_space parse_int
reads_back = record {
  durations = (refl, (refl, (refl, (refl, (refl, (refl, (refl, tt)))))));
  ints = (refl, (refl, (refl, (refl, (refl, tt)))));
  rate = refl;
  auth_rate = refl;
  rates = (refl, refl);
  url = refl;
}

load-default_config_example : load (in_empty surroundings) ≡ ok (default_config surroundings)
load-default_config_example = load-default_config surroundings reads_back

abbrev storage_only : Selection
storage_only = record {
  roles = role_storage ∷ [];
  capabilities =
      (role_storage, "upload" ∷ "download" ∷ "multipart" ∷ "presign" ∷ "metadata" ∷ "audit" ∷ [])
      ∷ [];
}

abbrev loaded : Config ℕ
loaded = record (default_config surroundings) { runtime = storage_only }

storage_loads : load surroundings ≡ ok loaded
unfolding load load_runtime load_telemetry load_session load_storage load_limits load_policy
    load_http load_oidc load_store load_workload_auth env_or bool_env duration_env int_env int64_env
    float_env parse_bool split_csv parse_storage_providers parse_string_slice_map parse_roles
    parse_capabilities RuntimeCfg.validate validate validate_http validate_limits validate_oidc
    validate_store validate_session validate_storage has_role lookup insert defaults trim_space
    to_lower equal_fold split StorageTarget.parse find_duration parse_int
storage_loads = refl

loaded_role : has_role storage_only role_storage ≡ true
unfolding has_role
loaded_role = refl

load-IsSound_example :
    (RuntimeCfg.validate storage_only ≡ ok tt)
    × IsSoundSession loaded.session
    × IsSoundStorage parse loaded.storage
load-IsSound_example = load-IsSound surroundings loaded storage_loads loaded_role
