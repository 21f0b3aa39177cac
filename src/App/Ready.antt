-- ===== src/App/Ready.antt =====
-- app.go and config.go together with the readiness of the storage role in roleruntime/server.go.
use gateway_runtime.Prelude.{
  some_or, some_or-eq-ok, ap, subst, sym, refl, err-ne-ok, or-false, ◌∙◌, not-eq-true, String, Bool,
  true, false, ◌≡◌, ◌&&◌, not, [], ◌∷◌, Option, none, some, Result, ok, ◌>>=◌, is_empty, is_some,
  str_eq, on_ok, ok-injective, All, arith, Bool-cases, inl, inr, ◌↔◌, map,
}
use gateway_runtime.Prelude.Dict.{Dict, lookup, insert}
use gateway_runtime.Text.{trim_space}
use gateway_runtime.Duration.{Duration}
use gateway_runtime.Capability.{StorageSigner}
use gateway_runtime.StorageTarget.{Target}
use gateway_runtime.WorkloadAuth.{Verifier}
use gateway_runtime.AccessPolicy.{Evaluator}
use gateway_runtime.StorageProvider
use gateway_runtime.StorageProvider.{Provider, signer_of}
use gateway_runtime.RuntimeCfg.{Selection, role_storage, role_rebff, has_role}
use gateway_runtime.RoleRuntime
use gateway_runtime.RoleRuntime.Signers.{
  health_ready, check_signer, check_providers, validate_storage_providers_ready,
  storage_provider_required,
}
use gateway_runtime.App.Config.{Config, StorageProviderConfig, StorageRoleConfig, validate}
use gateway_runtime.App.Wiring.{
  Process, new_client, init_signer, init_providers, init_verifier, init_policy, role_config,
  signer_of as signer_of_client, storage_config,
}
use gateway_runtime.App.Built.{
  IsFull, check_signer-full, init_providers-full, lookup-init_providers, check_providers-ok,
  init_if-is_some, IsFullSigner, init_signer-full,
}
use gateway_runtime.App.Sound.{validate-IsSound}

-- What `Validate` does not ask for: a signer where there is no provider, and a provider named
-- `default` where there are providers and no targets.
pub record CanServe (c : StorageRoleConfig) : Type 0 where
  pub single : is_empty c.providers ≡ true → str_eq c.signer_base_url "" ≡ false
  pub unnamed :
      is_empty c.providers ≡ false
      → is_empty c.targets ≡ true
      → is_some (lookup "default" c.providers) ≡ true

-- no space around the provider of a target
abbrev pub AreTrimmed : Dict Target → Type 0
AreTrimmed = All (λ e. trim_space e.1.provider ≡ e.1.provider)

check_single :
    (sel : Selection) (o : Option StorageSigner)
    → IsFullSigner o
    → is_some o ≡ true
    → (some_or o "storage_signer_not_configured" >>= check_signer sel) ≡ ok tt
check_single sel none f e = absurd (cc)
check_single sel (some s) (m, k) e = check_signer-full sel s m k

-- The registry has the names of the configuration, all with full signers.
record IsBuilt (c : StorageRoleConfig) (cfg : RoleRuntime.Config) : Type 0 where
  full : All IsFull cfg.storage_providers
  names :
      (name : String)
      → is_some (lookup name cfg.storage_providers) ≡ is_some (lookup name c.providers)
  empty : is_empty cfg.storage_providers ≡ is_empty c.providers
  single : IsFullSigner cfg.storage_signer
  given : is_some cfg.storage_signer ≡ not (str_eq c.signer_base_url "")
  targets : cfg.storage_targets ≡ c.targets

target_names :
    (c : StorageRoleConfig) (cfg : RoleRuntime.Config)
    → IsBuilt c cfg
    → (targets : Dict Target) → AreTrimmed targets
    → All (λ e. is_some (lookup e.1.provider c.providers) ≡ true) targets
    → All
        (λ name. is_some (StorageProvider.resolve cfg.storage_providers name) ≡ true)
        (map (λ e. e.1.provider) targets)
unfolding StorageProvider.resolve
target_names c cfg b [] t k = tt
target_names c cfg b (e ∷ targets) (t, ts) (k, ks) =
    (rw (t, b.names e.1.provider) k, target_names c cfg b targets ts ks)

validate_storage_providers_ready-ok :
    (c : StorageRoleConfig) (cfg : RoleRuntime.Config)
    → IsBuilt c cfg
    → AreTrimmed c.targets
    → (is_empty c.providers ≡ false
        → All (λ e. is_some (lookup e.1.provider c.providers) ≡ true) c.targets)
    → CanServe c
    → validate_storage_providers_ready cfg ≡ ok tt
unfolding validate_storage_providers_ready StorageProvider.resolve trim_space
validate_storage_providers_ready-ok c cfg b t known can = elim (Bool-cases (is_empty c.providers)) [
  | inl none_given ↦
      rw (b.empty, none_given)
        (check_single cfg.selection cfg.storage_signer b.single
          (rw (b.given, can.single none_given)))
  | inr several ↦
      rw (b.empty, several)
        (elim (Bool-cases (is_empty cfg.storage_targets)) [
          | inl untargeted ↦ rw untargeted (
              check_providers-ok cfg b.full ("default" ∷ [])
                (rw (b.names "default") (can.unnamed several (rw (b.targets) at untargeted)), tt))
          | inr targeted ↦ rw targeted (
              check_providers-ok cfg b.full _ (
                target_names c cfg b cfg.storage_targets (rw (b.targets) t)
                  (rw (b.targets) (known several))))
        ])
]

is_some-signer_of :
    (o : Option Provider) {s : StorageSigner} → signer_of o ≡ some s → is_some o ≡ true
is_some-signer_of none h = cc
is_some-signer_of (some x) h = refl

validate_storage_providers_ready-CanServe :
    (c : StorageRoleConfig) (cfg : RoleRuntime.Config)
    → IsBuilt c cfg
    → validate_storage_providers_ready cfg ≡ ok tt
    → CanServe c
unfolding validate_storage_providers_ready check_providers StorageProvider.resolve trim_space
validate_storage_providers_ready-CanServe c cfg b h = record {
  single = λ none_given.
      on_ok (some_or cfg.storage_signer _) _ (rw (b.empty, none_given) at h)
        λ s found _. not-eq-true _ (sym b.given ∙ ap is_some (some_or-eq-ok _ _ found));
  unnamed = λ several untargeted.
      on_ok (some_or (signer_of (StorageProvider.resolve cfg.storage_providers "default")) _) _
        (rw (b.empty, several, b.targets, untargeted) at h)
        λ s found _. sym (b.names "default") ∙ is_some-signer_of _ (some_or-eq-ok _ _ found);
}

-- the status where nothing but the providers is in doubt
health_ready-status :
    (cfg : RoleRuntime.Config)
    → has_role cfg.selection role_storage ≡ true
    → storage_provider_required cfg.selection ≡ true
    → (cfg.workload_auth_required ≡ true → is_some cfg.workload_verifier ≡ true)
    → (is_empty cfg.storage_targets ≡ false → is_some cfg.storage_access_policy ≡ true)
    → ((health_ready cfg).status ≡ 200) ↔ (validate_storage_providers_ready cfg ≡ ok tt)
unfolding health_ready
health_ready-status cfg role needed verifier policy = (λ h. ground arith, λ h. ground arith)

and-true : (b : Bool) → (b && true) ≡ b
and-true b = ground arith

insert_nonempty :
    (name : String) (e : Provider) (out : Dict Provider) → is_empty (insert name e out) ≡ false
unfolding insert
insert_nonempty name e [] = refl
insert_nonempty name e ((j, x) ∷ out) = ground arith

init_providers-empty :
    {W : Type 0} (p : Process W) (timeout : Duration) (providers : Dict StorageProviderConfig)
    (out : Dict Provider) {out' : Dict Provider}
    → init_providers p timeout providers out ≡ ok out'
    → is_empty out' ≡ (is_empty providers && is_empty out)
unfolding init_providers
init_providers-empty p timeout [] out h = ap is_empty (sym (ok-injective h))
init_providers-empty p timeout ((name, c) ∷ rest) out h =
    on_ok (new_client p c.signer_base_url timeout) _ h λ d _ h₁.
      let built : Provider = record { signer = some (signer_of_client p d) } in
      ground (arith, init_providers-empty p timeout rest _ h₁, insert_nonempty name built out)

module _ {F W : Type 0} (p : Process W) (cfg : Config F) where
  role_config-IsBuilt :
      {signer : Option StorageSigner} {providers : Dict Provider} (verifier : Option Verifier)
      (policy : Option Evaluator)
      → init_signer p cfg.storage ≡ ok signer
      → init_providers p cfg.storage.signer_timeout cfg.storage.providers [] ≡ ok providers
      → IsBuilt cfg.storage (role_config p cfg signer providers verifier policy)
  unfolding init_signer lookup
  role_config-IsBuilt verifier policy s ps = record {
    full = init_providers-full p cfg.storage.signer_timeout cfg.storage.providers [] ps tt;
    names = λ name.
        lookup-init_providers p cfg.storage.signer_timeout cfg.storage.providers [] name ps
        ∙ or-false _;
    empty =
        init_providers-empty p cfg.storage.signer_timeout cfg.storage.providers [] ps ∙ and-true _;
    single = init_signer-full p cfg.storage s;
    given = init_if-is_some _ _ _ s;
    targets = refl;
  }

  verifier_given :
      {verifier : Option Verifier}
      → init_verifier p cfg.storage ≡ ok verifier
      → str_eq cfg.storage.workload_auth.mode "oidc" ≡ true
      → is_some verifier ≡ true
  unfolding init_verifier
  verifier_given h mode = init_if-is_some _ _ _ h ∙ mode

  policy_given :
      {policy : Option Evaluator}
      → init_policy p cfg.storage ≡ ok policy
      → str_eq cfg.storage.access_policy_url "" ≡ false
      → is_some policy ≡ true
  unfolding init_policy
  policy_given h url = init_if-is_some _ _ _ h ∙ ap not url

  -- the parts of the process, put together
  abbrev built_parts : Result String RoleRuntime.Config
  built_parts = do
    signer ← init_signer p cfg.storage
    providers ← init_providers p cfg.storage.signer_timeout cfg.storage.providers []
    verifier ← init_verifier p cfg.storage
    policy ← init_policy p cfg.storage
    ok (role_config p cfg signer providers verifier policy)

  -- what is built, is built without rebff
  storage_config-alone :
      (rc : RoleRuntime.Config) → storage_config p cfg ≡ ok rc → built_parts ≡ ok rc
  unfolding storage_config
  storage_config-alone rc h = elim (Bool-cases (has_role cfg.runtime role_rebff)) [
    | inl both ↦ absurd (err-ne-ok (rw both at h))
    | inr alone ↦ rw alone at h
  ]

  -- Let a configuration with the storage role pass `Validate`, enable a capability that needs a
  -- provider, and have no space around the providers that its targets name. The process that RunWith
  -- builds from it answers `GET /health/ready` with 200 exactly when a signer's URL is given or there
  -- are providers, and, if there are providers and no targets, one of them is named `default`.
  pub storage_config-ready_iff :
      (below_zero : F → Bool) (rc : RoleRuntime.Config)
      → validate p.parse below_zero cfg ≡ ok tt
      → has_role cfg.runtime role_storage ≡ true
      → storage_provider_required cfg.runtime ≡ true
      → AreTrimmed cfg.storage.targets
      → storage_config p cfg ≡ ok rc
      → ((health_ready rc).status ≡ 200) ↔ CanServe cfg.storage
  unfolding storage_config
  storage_config-ready_iff below_zero rc valid role needed trimmed h =
      let sound = (validate-IsSound below_zero p.parse cfg valid role).1 in
      let h₀ = storage_config-alone rc h in
      on_ok (init_signer p cfg.storage) _ h₀ λ signer s h₁.
        on_ok (init_providers p cfg.storage.signer_timeout cfg.storage.providers []) _ h₁
          λ providers ps h₂. on_ok (init_verifier p cfg.storage) _ h₂ λ verifier v h₃.
            on_ok (init_policy p cfg.storage) _ h₃ λ policy a h₄.
              let made = role_config p cfg signer providers verifier policy in
              let built = role_config-IsBuilt verifier policy s ps in
              let status =
                health_ready-status made role needed (λ r. verifier_given v (sound.workload r))
                  (λ t. policy_given a (sound.policy t).0) in
              subst
                (λ (c : RoleRuntime.Config). ((health_ready c).status ≡ 200) ↔ CanServe cfg.storage)
                (ok-injective h₄)
                (
                  λ e.
                      validate_storage_providers_ready-CanServe cfg.storage made built (status.0 e),
                  λ can. status.1 (
                      validate_storage_providers_ready-ok cfg.storage made built trimmed
                        sound.targets can),
                )
