-- ===== src/App/Wiring.antt =====
-- app.go: how RunWith puts the storage role together from a configuration, and `outbound.New`
-- (outbound/client.go). The surroundings of a client (its transport, its timer) and the world in which
-- its calls start are parameters, and so is the discovery of the workload's issuer.
use gateway_runtime.Prelude.{
  ℕ, ◌*◌, ◌^◌, String, Bool, false, ◌||◌, not, List, [], ◌∷◌, Option, none, some, Result, ok, err,
  ◌>>=◌, str_eq, if◌then◌else◌,
}
use gateway_runtime.Prelude.Dict.{Dict, insert}
use gateway_runtime.Duration.{pos, Duration, second, positive_or}
use gateway_runtime.Text.Trim.{trim_right_of}
use gateway_runtime.Capability.{StorageSigner}
use gateway_runtime.StorageProvider
use gateway_runtime.StorageProvider.{Provider}
use gateway_runtime.AccessPolicy
use gateway_runtime.AccessPolicy.{Decision, Evaluator, remote_authorize}
use gateway_runtime.WorkloadAuth.{Verifier, Claims, new_oidc}
use gateway_runtime.Outbound.Client.{Client, Environment, ClientError, do_json}
use gateway_runtime.RemoteSigner.{Codec, remote_signer}
use gateway_runtime.RuntimeCfg.{has_role, role_rebff}
use gateway_runtime.RoleRuntime
use gateway_runtime.App.Config.{
  Config, ParsedUrl, StorageProviderConfig, StorageRoleConfig, normalize_base_path,
}

-- What the process finds around it. `dial` gives the surroundings of a client for a base URL and a
-- timeout.
pub record Process (W : Type 0) : Type 0 where
  pub parse : String → Option ParsedUrl
  pub dial : ParsedUrl → ℕ → Environment W
  pub world : W
  pub codec : Codec
  pub encode_request : AccessPolicy.Request → Result String String
  pub decode_decision : List ℕ → Result String Decision
  pub discover : String → String → Result String (String → Result String Claims)

-- a client with its surroundings
pub record Dialled (W : Type 0) : Type 0 where
  pub client : Client W
  pub environment : Environment W

abbrev dialled : {W : Type 0} → Process W → ℕ → Option ParsedUrl → Result String (Dialled W)
dialled p timeout none = err "outbound base URL must be absolute"
dialled p timeout (some u) =
    if str_eq u.scheme "" || str_eq u.host ""
    then err "outbound base URL must be absolute"
    else ok (record {
      client = record {
        base_path = u.path;
        tokens = none;
        max_retries = pos 1;
        retry_backoff = pos 50000000;
        max_body_bytes = pos (2 ^ 20);
      };
      environment = p.dial u timeout;
    })

-- `outbound.New`
unfoldable pub new_client : {W : Type 0} → Process W → String → Duration → Result String (Dialled W)
unfolding trim_right_of
new_client p base_url timeout =
    dialled p (positive_or timeout (5 * second)) (p.parse (trim_right_of "/" base_url))

-- `storage.RemoteSigner{HTTP: client}`
abbrev pub signer_of : {W : Type 0} → Process W → Dialled W → StorageSigner
signer_of p d = remote_signer (some d.client) d.environment p.world p.codec none

abbrev decision_of :
    {W : Type 0} → Process W → Result ClientError (Option Decision) → Result String Decision
decision_of p (ok none) = ok (record { allow = false; reason = "" })
decision_of p (ok (some d)) = ok d
decision_of p (err e) = err (p.codec.message e)

-- `accesspolicy.Remote{HTTP: client}`
abbrev pub evaluator_of : {W : Type 0} → Process W → Dialled W → Evaluator
evaluator_of p d = record {
  authorize = remote_authorize (
      some (λ req.
        decision_of p
          (do_json d.client d.environment
            (record {
              session_id = "";
              method = "POST";
              route = "/v1/authorize";
              body = some (p.encode_request req);
              decode = some p.decode_decision;
            })
            p.world).0));
}

-- `if test { x, err = … }` around an initialisation that leaves nil otherwise
abbrev pub init_if : {A : Type 0} → Bool → Result String A → Result String (Option A)
init_if test r = if test then (r >>= λ a. ok (some a)) else ok none

module _ {W : Type 0} (p : Process W) where
  unfoldable pub init_signer : StorageRoleConfig → Result String (Option StorageSigner)
  unfolding new_client
  init_signer c =
      init_if (not (str_eq c.signer_base_url ""))
        (new_client p c.signer_base_url c.signer_timeout >>= λ d. ok (signer_of p d))

  -- the loop over the providers
  unfoldable pub init_providers :
      Duration
      → Dict StorageProviderConfig
      → StorageProvider.Registry
      → Result String StorageProvider.Registry
  unfolding new_client insert
  init_providers timeout [] out = ok out
  init_providers timeout ((name, c) ∷ rest) out = new_client p c.signer_base_url timeout >>= λ d.
      init_providers timeout rest (insert name (record { signer = some (signer_of p d) }) out)

  unfoldable pub init_verifier : StorageRoleConfig → Result String (Option Verifier)
  unfolding new_oidc
  init_verifier c = init_if (str_eq c.workload_auth.mode "oidc") (
      new_oidc p.discover
        (record { issuer = c.workload_auth.issuer; audience = c.workload_auth.audience }))

  unfoldable pub init_policy : StorageRoleConfig → Result String (Option Evaluator)
  unfolding new_client
  init_policy c =
      init_if (not (str_eq c.access_policy_url ""))
        (new_client p c.access_policy_url c.access_policy_timeout >>= λ d. ok (evaluator_of p d))

  abbrev pub or_nothing : Result String String → String
  or_nothing (ok base) = base
  or_nothing (err e) = ""

  -- the configuration that is handed over
  abbrev pub role_config :
      {F : Type 0}
      → Config F
      → Option StorageSigner
      → StorageProvider.Registry
      → Option Verifier
      → Option Evaluator
      → RoleRuntime.Config
  role_config cfg signer providers verifier policy = record {
    base_path = or_nothing (normalize_base_path cfg.http.base_path);
    selection = cfg.runtime;
    storage_signer = signer;
    storage_providers = providers;
    storage_default_ttl = cfg.storage.default_ttl;
    storage_max_ttl = cfg.storage.max_ttl;
    storage_targets = cfg.storage.targets;
    storage_access_policy = policy;
    storage_subject_header = cfg.storage.subject_header;
    workload_verifier = verifier;
    workload_auth_required = cfg.storage.workload_auth.required;
  }

  -- RunWith up to the call of `roleruntime.Run`, for a configuration with the role storage. With rebff
  -- beside it, it has more than one role.
  unfoldable pub storage_config : {F : Type 0} → Config F → Result String RoleRuntime.Config
  unfolding init_signer init_providers init_verifier init_policy
  storage_config cfg =
      if has_role cfg.runtime role_rebff
      then err "rebff cannot be combined with specialized roles in v0.1.0"
      else do
        signer ← init_signer cfg.storage
        providers ← init_providers cfg.storage.signer_timeout cfg.storage.providers []
        verifier ← init_verifier cfg.storage
        policy ← init_policy cfg.storage
        ok (role_config cfg signer providers verifier policy)
