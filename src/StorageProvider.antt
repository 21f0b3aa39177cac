-- ===== src/StorageProvider.antt =====
-- internal/storageprovider/registry.go: the configured signers by name.
use gateway_runtime.Prelude.{
  String, List, [], ◌∷◌, Option, none, some, Result, ok, err, ◌>>=◌, str_eq, if◌then◌else◌,
}
use gateway_runtime.Prelude.Dict.{Dict, lookup}
use gateway_runtime.Text.{trim_space}
use gateway_runtime.Capability.{StorageSigner}

-- `signer` is `none` for Go's nil.
pub record Provider : Type 0 where
  pub signer : Option StorageSigner

abbrev pub Registry : Type 0
Registry = Dict Provider

unfoldable pub resolve : Registry → String → Option Provider
unfolding lookup
resolve r name = lookup (trim_space name) r

-- `r.Resolve(name)` followed by the test for nil
abbrev pub signer_of : Option Provider → Option StorageSigner
signer_of none = none
signer_of (some p) = p.signer

abbrev check_provider : Option Provider → Result String (Unit {0})
check_provider none = err "storage provider is not configured"
check_provider (some p) = elim p.signer [
  | none ↦ err "storage provider signer is not configured"
  | some s ↦ ok tt
]

unfoldable pub validate_required : Registry → List String → Result String (Unit {0})
unfolding resolve
validate_required r [] = ok tt
validate_required r (name ∷ names) =
    let name' = (if str_eq (trim_space name) "" then "default" else trim_space name) in
    check_provider (resolve r name') >>= λ _. validate_required r names
