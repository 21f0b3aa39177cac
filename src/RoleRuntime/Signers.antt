-- ===== src/RoleRuntime/Signers.antt =====
-- `storageSignerForTarget` and the readiness checks of the configured signers.
use gateway_runtime.Prelude.{
  String, Bool, false, ◌||◌, ◌&&◌, not, List, [], ◌∷◌, map, Option, none, some, Result, ok, err,
  ◌>>=◌, ◌>>◌, require, some_or, is_empty, is_some, contains_str, if◌then◌else◌,
}
use gateway_runtime.Prelude.Dict.{lookup}
use gateway_runtime.Text.{trim_space}
use gateway_runtime.Capability.{StorageSigner}
use gateway_runtime.StorageTarget
use gateway_runtime.StorageTarget.{Target}
use gateway_runtime.StorageProvider
use gateway_runtime.StorageProvider.{signer_of}
use gateway_runtime.RuntimeCfg.{Selection, role_storage, or_empty, has_role}
use gateway_runtime.RoleRuntime.{Config, Response, write_json, not_ready, ready, live}

abbrev provider_of : Config → Option Target → Option StorageSigner
provider_of cfg none = none
provider_of cfg (some target) =
    signer_of (StorageProvider.resolve cfg.storage_providers target.provider)

unfoldable pub storage_signer_for_target : Config → String → Option StorageSigner
storage_signer_for_target cfg name =
    if is_empty cfg.storage_providers
    then cfg.storage_signer
    else if is_empty cfg.storage_targets
    then signer_of (StorageProvider.resolve cfg.storage_providers "default")
    else provider_of cfg (StorageTarget.resolve cfg.storage_targets (trim_space name))

unfoldable pub has_capability : Selection → String → String → Bool
unfolding lookup
has_capability selection role want =
    contains_str (or_empty (lookup role selection.capabilities)) want

-- The signer has what the enabled capabilities need.
unfoldable pub check_signer : Selection → StorageSigner → Result String (Unit {0})
unfolding has_capability
check_signer selection s =
    require (not (has_capability selection role_storage "multipart") || is_some s.multipart)
      "storage_multipart_not_supported"
    >> require (not (has_capability selection role_storage "metadata") || is_some s.metadata)
        "storage_metadata_not_supported"

-- the loop over the providers' names
unfoldable pub check_providers : Config → List String → Result String (Unit {0})
check_providers cfg [] = ok tt
check_providers cfg (name ∷ names) =
    some_or (signer_of (StorageProvider.resolve cfg.storage_providers name))
      "storage_provider_not_configured"
    >>= λ s. check_signer cfg.selection s >> check_providers cfg names

-- The providers that the targets name. The source collects them in a set; a repeated name is checked
-- again here, with the same answer.
abbrev pub provider_names : Config → List String
provider_names cfg =
    if is_empty cfg.storage_targets
    then "default" ∷ []
    else map (λ e. e.1.provider) cfg.storage_targets

unfoldable pub validate_storage_providers_ready : Config → Result String (Unit {0})
unfolding check_providers check_signer
validate_storage_providers_ready cfg =
    if is_empty cfg.storage_providers
    then (some_or cfg.storage_signer "storage_signer_not_configured" >>= check_signer cfg.selection)
    else check_providers cfg (provider_names cfg)

abbrev pub needs_provider : String → Bool
needs_provider c =
    contains_str ("upload" ∷ "download" ∷ "presign" ∷ "multipart" ∷ "metadata" ∷ []) c

unfoldable pub any_needs_provider : List String → Bool
any_needs_provider [] = false
any_needs_provider (c ∷ caps) = needs_provider c || any_needs_provider caps

unfoldable pub storage_provider_required : Selection → Bool
unfolding any_needs_provider lookup
storage_provider_required selection =
    any_needs_provider (or_empty (lookup role_storage selection.capabilities))

abbrev unready : String → Response
unready reason = write_json 503 (not_ready reason)

abbrev ready_or : Config → Result String (Unit {0}) → Response
ready_or cfg (ok u) = write_json 200 (ready cfg.selection.roles)
ready_or cfg (err reason) = unready reason

-- `GET /health/ready`
unfoldable pub health_ready : Config → Response
unfolding has_role storage_provider_required validate_storage_providers_ready
health_ready cfg =
    let storage = has_role cfg.selection role_storage in
    if storage && (cfg.workload_auth_required && not (is_some cfg.workload_verifier))
    then unready "workload_auth_not_configured"
    else if storage
        && (not (is_empty cfg.storage_targets) && not (is_some cfg.storage_access_policy))
    then unready "storage_access_policy_not_configured"
    else if storage && storage_provider_required cfg.selection
    then ready_or cfg (validate_storage_providers_ready cfg)
    else write_json 200 (ready cfg.selection.roles)

-- `GET /health/live`
unfoldable pub health_live : Config → Response
health_live cfg = write_json 200 (live cfg.selection.roles)
