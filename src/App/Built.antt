-- ===== src/App/Built.antt =====
-- app.go: the signers that RunWith builds have every interface, under the names of the configuration.
use gateway_runtime.Prelude.{
  ap, subst, sym, refl, err-ne-ok, String, Bool, true, false, ◌≡◌, ◌||◌, not, List, [], ◌∷◌, Option,
  none, some, Result, ok, err, ◌>>=◌, is_some, str_eq, on_ok, ok-injective, All, arith, Bool-cases,
  inl, inr,
}
use gateway_runtime.Prelude.Dict.{Dict, lookup, insert, lookup-insert}
use gateway_runtime.Text.{trim_space}
use gateway_runtime.Duration.{Duration}
use gateway_runtime.Capability.{StorageSigner}
use gateway_runtime.StorageProvider
use gateway_runtime.StorageProvider.{Provider, signer_of}
use gateway_runtime.RuntimeCfg.{Selection}
use gateway_runtime.RoleRuntime
use gateway_runtime.RoleRuntime.Signers.{check_signer, check_providers}
use gateway_runtime.App.Config.{StorageProviderConfig, StorageRoleConfig}
use gateway_runtime.App.Wiring.{
  Process, new_client, init_signer, init_providers, init_if, signer_of as signer_of_client,
}

-- a provider whose signer has every interface
abbrev pub IsFull : String × Provider → Type 0
IsFull e =
    (s : StorageSigner) × (e.1.signer ≡ some s)
    × (is_some s.multipart ≡ true)
    × (is_some s.metadata ≡ true)

pub check_signer-full :
    (sel : Selection) (s : StorageSigner)
    → is_some s.multipart ≡ true
    → is_some s.metadata ≡ true
    → check_signer sel s ≡ ok tt
unfolding check_signer
check_signer-full sel s m k = ground arith

All-insert :
    (name : String) (e : Provider) (out : Dict Provider)
    → IsFull (name, e)
    → All IsFull out
    → All IsFull (insert name e out)
unfolding insert
All-insert name e [] h hs = (h, tt)
All-insert name e ((j, x) ∷ out) h (k, hs) = elim (Bool-cases (str_eq j name)) [
  | inl same ↦ rw same (h, hs)
  | inr other ↦ rw other (k, All-insert name e out h hs)
]

module _ {W : Type 0} (p : Process W) (timeout : Duration) where
  pub init_providers-full :
      (providers : Dict StorageProviderConfig) (out : Dict Provider) {out' : Dict Provider}
      → init_providers p timeout providers out ≡ ok out'
      → All IsFull out
      → All IsFull out'
  unfolding init_providers
  init_providers-full [] out h hs = subst (All IsFull) (ok-injective h) hs
  init_providers-full ((name, c) ∷ rest) out h hs =
      on_ok (new_client p c.signer_base_url timeout) _ h
        λ d _ h₁. init_providers-full rest _ h₁ (All-insert name _ out (_, refl, refl, refl) hs)

  pub lookup-init_providers :
      (providers : Dict StorageProviderConfig) (out : Dict Provider) (name : String)
      {out' : Dict Provider}
      → init_providers p timeout providers out ≡ ok out'
      → is_some (lookup name out') ≡ (is_some (lookup name providers) || is_some (lookup name out))
  unfolding init_providers lookup
  lookup-init_providers [] out name h =
      ap (λ (d : Dict Provider). is_some (lookup name d)) (sym (ok-injective h))
  lookup-init_providers ((key, c) ∷ rest) out name h =
      on_ok (new_client p c.signer_base_url timeout) _ h λ d _ h₁. ground (
        arith,
        lookup-init_providers rest _ name h₁,
        lookup-insert key name (record { signer = some (signer_of_client p d) }) out,
      )

-- what is known of the configured registry
module _ (cfg : RoleRuntime.Config) (full : All IsFull cfg.storage_providers) where
  pub lookup-check_signer :
      (name : String) (out : Dict Provider)
      → All IsFull out
      → is_some (lookup name out) ≡ true
      → (s : StorageSigner) × (signer_of (lookup name out) ≡ some s)
        × (check_signer cfg.selection s ≡ ok tt)
  unfolding lookup
  lookup-check_signer name [] h e = absurd (cc)
  lookup-check_signer name ((j, x) ∷ out) ((s, is_signer, m, k), hs) e =
      elim (Bool-cases (str_eq j name)) [
        | inl same ↦ rw same (s, is_signer, check_signer-full cfg.selection s m k)
        | inr other ↦ rw other (lookup-check_signer name out hs (rw other at e))
      ]

  pub check_providers-ok :
      (names : List String)
      → All (λ name. is_some (StorageProvider.resolve cfg.storage_providers name) ≡ true) names
      → check_providers cfg names ≡ ok tt
  unfolding check_providers StorageProvider.resolve
  check_providers-ok [] h = refl
  check_providers-ok (name ∷ names) (h, hs) =
      let (s, found, checked) =
        lookup-check_signer (trim_space name) cfg.storage_providers full h in
      rw (found, checked) (check_providers-ok names hs)

pub init_if-is_some :
    {A : Type 0} (test : Bool) (r : Result String A) (o : Option A)
    → init_if test r ≡ ok o
    → is_some o ≡ test
init_if-is_some true (ok a) o h = ap is_some (sym (ok-injective h))
init_if-is_some true (err e) o h = absurd (err-ne-ok h)
init_if-is_some false r o h = ap is_some (sym (ok-injective h))

-- a single signer with every interface, where there is one
abbrev pub IsFullSigner : Option StorageSigner → Type 0
IsFullSigner none = Unit
IsFullSigner (some s) = (is_some s.multipart ≡ true) × (is_some s.metadata ≡ true)

pub init_signer-full :
    {W : Type 0} (p : Process W) (c : StorageRoleConfig) {o : Option StorageSigner}
    → init_signer p c ≡ ok o
    → IsFullSigner o
unfolding init_signer
init_signer-full p c h = elim (Bool-cases (not (str_eq c.signer_base_url ""))) [
  | inl given ↦
      on_ok (new_client p c.signer_base_url c.signer_timeout >>= λ d. ok (signer_of_client p d)) _
        (rw given at h)
        λ s made h₁. on_ok (new_client p c.signer_base_url c.signer_timeout) _ made λ d _ h₂.
          subst IsFullSigner (ok-injective h₁)
            (subst (λ (s' : StorageSigner). IsFullSigner (some s')) (ok-injective h₂) (refl, refl))
  | inr absent ↦ subst IsFullSigner (ok-injective (rw absent at h)) tt
]
