-- ===== src/App/Loaded.antt =====
-- config.go: what `LoadConfig` returns.
use gateway_runtime.Prelude.{
  true, false, ◌≡◌, refl, List, [], ◌∷◌, none, some, ok, All, on_ok, ok-injective, subst, ◌*◌, ◌^◌,
}
use gateway_runtime.Prelude.Dict.{lookup, insert}
use gateway_runtime.Text.{trim_space, to_lower, equal_fold}
use gateway_runtime.Text.Decimal.{parse_int}
use gateway_runtime.Duration.{ℤ, pos, Duration, second, minute, hour}
use gateway_runtime.StorageTarget
use gateway_runtime.RuntimeCfg
use gateway_runtime.RuntimeCfg.{
  Selection, role_rebff, role_storage, has_role, defaults, parse_roles, parse_capabilities,
}
use gateway_runtime.App.Config.{
  Config, SessionConfig, StorageRoleConfig, LimitsConfig, validate, validate_http, validate_limits,
  validate_oidc, validate_store, validate_session, validate_storage,
}
use gateway_runtime.App.Load.{
  Surroundings, load, load_runtime, load_telemetry, load_session, load_storage, load_limits,
  load_policy, load_http, load_oidc, load_store, load_workload_auth, env_or, bool_env, duration_env,
  int_env, int64_env, float_env, parse_bool, split_csv, parse_storage_providers,
  parse_string_slice_map,
}
use gateway_runtime.App.Sound.{IsSoundSession, IsSoundStorage, validate-IsSound}

module _ {F : Type 0} (s : Surroundings F) where
  load_runtime-validate :
      (sel : Selection) → load_runtime s ≡ ok sel → RuntimeCfg.validate sel ≡ ok tt
  unfolding load_runtime
  load_runtime-validate sel h = on_ok (parse_roles _) _ h λ roles _ h₁.
      on_ok (parse_capabilities roles _) _ h₁ λ caps _ h₂.
        on_ok (RuntimeCfg.validate (record { roles = roles; capabilities = caps })) _ h₂
          λ _ valid h₃.
            subst (λ (t : Selection). RuntimeCfg.validate t ≡ ok tt) (ok-injective h₃) valid

  -- A configuration that LoadConfig returns and that selects the storage role has roles and capabilities
  -- that pass the validation of the runtime's selection, sound session settings and sound storage
  -- settings.
  pub load-IsSound :
      (cfg : Config F)
      → load s ≡ ok cfg
      → has_role cfg.runtime role_storage ≡ true
      → (RuntimeCfg.validate cfg.runtime ≡ ok tt)
        × IsSoundSession cfg.session
        × IsSoundStorage s.parse_url cfg.storage
  unfolding load
  load-IsSound cfg h role = on_ok (load_runtime s) _ h λ runtime selected h₁.
      on_ok (load_telemetry s) _ h₁ λ telemetry _ h₂. on_ok (load_session s) _ h₂ λ session _ h₃.
        on_ok (load_storage s) _ h₃ λ storage _ h₄. on_ok (load_limits s) _ h₄ λ limits _ h₅.
          on_ok (load_policy s) _ h₅ λ policy _ h₆.
            on_ok (validate s.parse_url s.below_zero _) _ h₆ λ _ valid h₇.
              let same = ok-injective h₇ in
              let sound =
                validate-IsSound s.below_zero s.parse_url _
                  (subst (λ (c : Config F). validate s.parse_url s.below_zero c ≡ ok tt) same valid)
                  role in
              (
                subst (λ (c : Config F). RuntimeCfg.validate c.runtime ≡ ok tt) same
                    (load_runtime-validate runtime selected),
                sound.0,
                sound.1,
              )

-- the constants of LoadConfig
abbrev fallback_durations : List Duration
fallback_durations =
    pos (8 * hour)
    ∷ pos (30 * minute)
    ∷ pos minute
    ∷ pos (5 * second)
    ∷ pos (15 * minute)
    ∷ pos hour
    ∷ pos (3 * second)
    ∷ []

abbrev fallback_ints : List ℤ
fallback_ints = pos (2 ^ 20) ∷ pos 256 ∷ pos 100 ∷ pos 10000 ∷ pos 10 ∷ []

-- What LoadConfig writes as a text for a missing variable reads back, the constant rates are not
-- negative, and the default public URL parses.
pub record ReadsBack {F : Type 0} (s : Surroundings F) : Type 0 where
  pub durations : All (λ d. s.parse_duration (s.duration_text d) ≡ some d) fallback_durations
  pub ints : All (λ n. parse_int (trim_space (s.int_text n)) ≡ some n) fallback_ints
  pub rate : s.parse_float (trim_space (s.float_text s.rate)) ≡ some s.rate
  pub auth_rate : s.parse_float (trim_space (s.float_text s.auth_rate)) ≡ some s.auth_rate
  pub rates : (s.below_zero s.rate ≡ false) × (s.below_zero s.auth_rate ≡ false)
  pub url :
      s.parse_url "http://localhost:8080"
      ≡ some (record {
        scheme = "http";
        host = "localhost:8080";
        path = "";
        raw_query = "";
        fragment = "";
      })

abbrev pub in_empty : {F : Type 0} → Surroundings F → Surroundings F
in_empty s = record s { env = λ _. none }

abbrev default_session : SessionConfig
default_session = record {
  max_lifetime = pos (8 * hour);
  idle_timeout = pos (30 * minute);
  touch_interval = pos minute;
}

abbrev default_storage : StorageRoleConfig
default_storage = record {
  signer_base_url = "";
  signer_timeout = pos (5 * second);
  providers = [];
  default_ttl = pos (15 * minute);
  max_ttl = pos hour;
  targets = [];
  access_policy_url = "";
  access_policy_timeout = pos (3 * second);
  subject_header = "X-Auth-Subject";
  workload_auth = record { mode = "disabled"; issuer = ""; audience = ""; required = false };
}

abbrev default_limits : {F : Type 0} → Surroundings F → LimitsConfig F
default_limits s = record {
  max_request_body_bytes = pos (2 ^ 20);
  max_concurrency = pos 256;
  rate_per_second = s.rate;
  rate_burst = pos 100;
  rate_max_entries = pos 10000;
  auth_rate_per_second = s.auth_rate;
  auth_rate_burst = pos 10;
}

abbrev pub default_config : {F : Type 0} → Surroundings F → Config F
default_config s = record {
  runtime = record {
    roles = role_rebff ∷ [];
    capabilities =
        (
          role_rebff,
          "oidc" ∷ "session" ∷ "token-refresh" ∷ "csrf" ∷ "user-context" ∷ "api-proxy"
              ∷ "coarse-authz" ∷ "audit" ∷ "trace-propagation" ∷ [],
        )
        ∷ [];
  };
  http = record {
    addr = ":8080";
    base_path = "";
    public_url = "http://localhost:8080";
    trusted_proxy_cidrs = [];
  };
  telemetry = record {
    metrics_enabled = true;
    audit_enabled = true;
    access_log_enabled = true;
    trace_enabled = true;
  };
  limits = default_limits s;
  oidc = record {
    issuer = "";
    client_id = "";
    client_secret = "";
    scopes = "openid" ∷ "profile" ∷ "email" ∷ [];
  };
  store = record { backend = "memory"; redis_url = ""; redis_prefix = "rebff" };
  policy = record { provider = "static"; role_permissions = []; role_capabilities = [] };
  session = default_session;
  storage = default_storage;
}

module _ {F : Type 0} (s : Surroundings F) (back : ReadsBack s) where
  load_runtime-empty : load_runtime (in_empty s) ≡ ok (default_config s).runtime
  unfolding load_runtime env_or defaults parse_roles parse_capabilities RuntimeCfg.validate
      trim_space lookup insert
  load_runtime-empty = refl

  load_session-empty : load_session (in_empty s) ≡ ok default_session
  unfolding load_session duration_env env_or
  load_session-empty = let d = back.durations in rw (d.0, d.1.0, d.1.1.0)

  load_telemetry-empty : load_telemetry (in_empty s) ≡ ok (default_config s).telemetry
  unfolding load_telemetry bool_env env_or parse_bool trim_space
  load_telemetry-empty = refl

  load_storage-empty : load_storage (in_empty s) ≡ ok default_storage
  unfolding load_storage duration_env env_or load_workload_auth StorageTarget.parse
      parse_storage_providers trim_space to_lower equal_fold
  load_storage-empty = let d = back.durations.1.1.1 in rw (d.0, d.1.0, d.1.1.0, d.1.1.1.0)

  load_limits-empty : load_limits (in_empty s) ≡ ok (default_limits s)
  unfolding load_limits int_env int64_env float_env env_or
  load_limits-empty =
      let n = back.ints in
      rw (n.0, n.1.0, n.1.1.0, n.1.1.1.0, n.1.1.1.1.0, back.rate, back.auth_rate)

  load_policy-empty : load_policy (in_empty s) ≡ ok (default_config s).policy
  unfolding load_policy parse_string_slice_map env_or trim_space
  load_policy-empty = refl

  validate-default : validate s.parse_url s.below_zero (default_config s) ≡ ok tt
  unfolding validate validate_http validate_limits validate_oidc validate_store validate_session
      validate_storage RuntimeCfg.validate trim_space has_role
  validate-default = rw (back.url, back.rates.0, back.rates.1)

  -- In an empty environment LoadConfig returns the default configuration, which selects the role rebff
  -- with all its capabilities, if what it writes as a text for a missing variable reads back as the
  -- same value, the constant rates are not negative, and the default public URL parses.
  pub load-default_config : load (in_empty s) ≡ ok (default_config s)
  unfolding load load_http load_oidc load_store env_or split_csv
  load-default_config = rw (
    load_runtime-empty, load_telemetry-empty, load_session-empty, load_storage-empty,
    load_limits-empty, load_policy-empty, validate-default,
  )
