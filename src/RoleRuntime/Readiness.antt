-- ===== src/RoleRuntime/Readiness.antt =====
-- server.go: the readiness endpoint and what the handlers need of the configuration.
use gateway_runtime.Prelude.{
  String, true, false, ◌||◌, not, ◌≡◌, List, [], ◌∷◌, map, Option, some, ok, is_empty, is_some, All,
  str_eq, arith, some_or, some_or-eq-ok, on_ok, on_require, require-eq-ok_last, Bool-cases, inl,
  inr, ◌⊎◌, subst, some_inj,
}
use gateway_runtime.Prelude.Dict.{Dict, lookup}
use gateway_runtime.Text.{trim_space}
use gateway_runtime.Capability.{StorageSigner}
use gateway_runtime.StorageTarget
use gateway_runtime.StorageTarget.{Target}
use gateway_runtime.StorageProvider
use gateway_runtime.StorageProvider.{signer_of}
use gateway_runtime.RuntimeCfg.{Selection, role_storage, has_role}
use gateway_runtime.RoleRuntime.{Config}
use gateway_runtime.RoleRuntime.Signers.{
  storage_signer_for_target, has_capability, check_signer, check_providers, provider_names,
  validate_storage_providers_ready, storage_provider_required, health_ready,
}

-- A signer that serves every capability that is enabled for the storage role.
pub record IsCapable (sel : Selection) (s : StorageSigner) : Type 0 where
  pub multipart : has_capability sel role_storage "multipart" ≡ true → is_some s.multipart ≡ true
  pub metadata : has_capability sel role_storage "metadata" ≡ true → is_some s.metadata ≡ true

check_signer-IsCapable :
    (sel : Selection) (s : StorageSigner) → check_signer sel s ≡ ok tt → IsCapable sel s
unfolding check_signer
check_signer-IsCapable sel s e =
    on_require (not (has_capability sel role_storage "multipart") || is_some s.multipart) _ _ e
      λ m e₁.
        let k =
          require-eq-ok_last
            (not (has_capability sel role_storage "metadata") || is_some s.metadata) _ e₁ in
        record { multipart = λ h. ground (arith, m, h); metadata = λ h. ground (arith, k, h) }

abbrev pub Serves : Config → Option StorageSigner → Type 0
Serves cfg found = (s : StorageSigner) × (found ≡ some s) × IsCapable cfg.selection s

check_providers-Serves :
    (cfg : Config) (names : List String)
    → check_providers cfg names ≡ ok tt
    → All
        (λ name. Serves cfg (signer_of (StorageProvider.resolve cfg.storage_providers name)))
        names
unfolding check_providers
check_providers-Serves cfg [] e = tt
check_providers-Serves cfg (name ∷ names) e =
    on_ok (some_or (signer_of (StorageProvider.resolve cfg.storage_providers name)) _) _ e
      λ s found e₁. on_ok (check_signer cfg.selection s) _ e₁ λ u capable e₂. (
        (s, some_or-eq-ok _ _ found, check_signer-IsCapable cfg.selection s capable),
        check_providers-Serves cfg names e₂,
      )

-- what holds of every target's provider holds of the provider of a target that is found
All-lookup :
    (P : String → Type 0) (name : String) (targets : Dict Target) (t : Target)
    → All P (map (λ e. e.1.provider) targets)
    → lookup name targets ≡ some t
    → P t.provider
unfolding lookup
All-lookup P name [] t h e = absurd (cc)
All-lookup P name ((j, u) ∷ targets) t (p, h) e = elim (Bool-cases (str_eq j name)) [
  | inl same ↦ subst (λ (v : Target). P v.provider) (some_inj (rw same at e)) p
  | inr other ↦ All-lookup P name targets t h (rw other at e)
]

abbrev ServedBy : Config → String → Type 0
ServedBy cfg provider =
    Serves cfg (signer_of (StorageProvider.resolve cfg.storage_providers provider))

-- the registry of providers is in use
several-Serves :
    (cfg : Config) (name : String) (t : Target)
    → is_empty cfg.storage_providers ≡ false
    → is_empty cfg.storage_targets ≡ false
    → check_providers cfg (provider_names cfg) ≡ ok tt
    → StorageTarget.resolve cfg.storage_targets (trim_space name) ≡ some t
    → Serves cfg (storage_signer_for_target cfg name)
unfolding storage_signer_for_target
several-Serves cfg name t several targeted e listed =
    let named = rw targeted at (check_providers-Serves cfg (provider_names cfg) e) in
    let served =
      All-lookup (ServedBy cfg) (trim_space (trim_space name)) cfg.storage_targets t named
        (unfold StorageTarget.resolve in listed) in
    rw (several, targeted, listed) served

default-Serves :
    (cfg : Config) (name : String)
    → is_empty cfg.storage_providers ≡ false
    → is_empty cfg.storage_targets ≡ true
    → check_providers cfg (provider_names cfg) ≡ ok tt
    → Serves cfg (storage_signer_for_target cfg name)
unfolding storage_signer_for_target
default-Serves cfg name several untargeted e =
    let named = rw untargeted at (check_providers-Serves cfg (provider_names cfg) e) in
    rw (several, untargeted) named.0

-- A name that requests may use: any where no target is configured, otherwise a configured one.
abbrev pub IsKnown : Config → String → Type 0
IsKnown cfg name =
    (is_empty cfg.storage_targets ≡ true)
    ⊎ ((t : Target) × (StorageTarget.resolve cfg.storage_targets (trim_space name) ≡ some t))

providers-Serves :
    (cfg : Config) (name : String)
    → validate_storage_providers_ready cfg ≡ ok tt
    → IsKnown cfg name
    → Serves cfg (storage_signer_for_target cfg name)
unfolding validate_storage_providers_ready
providers-Serves cfg name e known = elim (Bool-cases (is_empty cfg.storage_providers)) [
  | inl single ↦ on_ok (some_or cfg.storage_signer _) _ (rw single at e) λ s found e₁.
      unfold storage_signer_for_target in
      rw single (s, some_or-eq-ok _ _ found, check_signer-IsCapable cfg.selection s e₁)
  | inr several ↦ elim (Bool-cases (is_empty cfg.storage_targets)) [
    | inl untargeted ↦ default-Serves cfg name several untargeted (rw several at e)
    | inr targeted ↦ elim known [
      | inl untargeted ↦ absurd (cc)
      | inr found ↦ several-Serves cfg name found.0 several targeted (rw several at e) found.1
    ]
  ]
]

-- What the handlers need of the configuration.
pub record IsReady (cfg : Config) : Type 0 where
  pub signers : (name : String) → IsKnown cfg name → Serves cfg (storage_signer_for_target cfg name)
  pub policy : is_empty cfg.storage_targets ≡ false → is_some cfg.storage_access_policy ≡ true
  pub verifier : cfg.workload_auth_required ≡ true → is_some cfg.workload_verifier ≡ true

health_ready-providers :
    (cfg : Config)
    → has_role cfg.selection role_storage ≡ true
    → storage_provider_required cfg.selection ≡ true
    → (health_ready cfg).status ≡ 200
    → (validate_storage_providers_ready cfg ≡ ok tt)
      × (is_empty cfg.storage_targets ≡ false → is_some cfg.storage_access_policy ≡ true)
      × (cfg.workload_auth_required ≡ true → is_some cfg.workload_verifier ≡ true)
unfolding health_ready
health_ready-providers cfg role needed e = ground arith

-- Where `GET /health/ready` answers 200 for a storage role with a capability that needs a provider,
-- every known target has a signer, with the multipart and the metadata interfaces where those
-- capabilities are enabled; the access policy is configured where targets are, and the workload's
-- verifier where it is required.
pub health_ready-IsReady :
    (cfg : Config)
    → has_role cfg.selection role_storage ≡ true
    → storage_provider_required cfg.selection ≡ true
    → (health_ready cfg).status ≡ 200
    → IsReady cfg
health_ready-IsReady cfg role needed e =
    let (ready, policy, verifier) = health_ready-providers cfg role needed e in
    record {
      signers = λ name known. providers-Serves cfg name ready known;
      policy = policy;
      verifier = verifier;
    }
