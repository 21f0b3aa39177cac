-- ===== src/App/Sound.antt =====
-- config.go: the session and the storage settings behind `Validate`.
use gateway_runtime.Prelude.{
  subst, sym, err-ne-ok, or-eq-false, not-eq-true, String, Bool, true, false, ◌≡◌, refl, ◌&&◌, ◌||◌,
  not, [], ◌∷◌, Option, Result, ok, is_empty, is_some, str_eq, on_require, on_ok,
  require-eq-ok_last, All, arith, eq_iff, Bool-cases, ◌⊎◌, inl, inr,
}
use gateway_runtime.Prelude.Dict.{Dict, lookup}
use gateway_runtime.Text.{trim_space}
use gateway_runtime.Duration.{Duration, is_positive, exceeds}
use gateway_runtime.StorageTarget.{Target}
use gateway_runtime.RuntimeCfg.{role_storage, has_role}
use gateway_runtime.App.Config.{
  Config, ParsedUrl, SessionConfig, StorageRoleConfig, StorageProviderConfig,
  StorageWorkloadAuthConfig, validate, validate_session, validate_storage, validate_providers,
  validate_targets, validate_workload_auth, is_absolute, when, storage_configured, validate_http,
  validate_limits, validate_oidc, validate_store, is_zero_duration,
}

-- a positive lifetime within another
abbrev pub IsWithin : Duration → Duration → Type 0
IsWithin a b = (is_positive a ≡ true) × (exceeds a b ≡ false)

abbrev IsNamedUrl : (String → Option ParsedUrl) → String × StorageProviderConfig → Type 0
IsNamedUrl parse e =
    (str_eq (trim_space e.0) "" ≡ false)
    × (is_absolute parse (trim_space e.1.signer_base_url) ≡ true)

-- What the storage role relies on.
pub record IsSoundStorage (parse : String → Option ParsedUrl) (c : StorageRoleConfig) : Type 0 where
  pub ttl : IsWithin c.default_ttl c.max_ttl
  pub signer : str_eq c.signer_base_url "" ≡ false → is_absolute parse c.signer_base_url ≡ true
  pub providers : All (IsNamedUrl parse) c.providers
  pub targets :
      is_empty c.providers ≡ false
      → All (λ e. is_some (lookup e.1.provider c.providers) ≡ true) c.targets
  pub policy :
      is_empty c.targets ≡ false
      → (str_eq c.access_policy_url "" ≡ false) × (is_absolute parse c.access_policy_url ≡ true)
  pub workload : c.workload_auth.required ≡ true → str_eq c.workload_auth.mode "oidc" ≡ true
  pub issuer :
      str_eq c.workload_auth.mode "oidc" ≡ true
      → (str_eq (trim_space c.workload_auth.issuer) "" ≡ false)
        × (str_eq (trim_space c.workload_auth.audience) "" ≡ false)

-- Either the session's settings are all zero, or each is positive and within the one before.
abbrev pub IsSoundSession : SessionConfig → Type 0
IsSoundSession c =
    ((is_zero_duration c.max_lifetime
        && is_zero_duration c.idle_timeout
        && is_zero_duration c.touch_interval)
      ≡ true)
    ⊎ ((is_positive c.max_lifetime ≡ true)
        × IsWithin c.idle_timeout c.max_lifetime
        × IsWithin c.touch_interval c.idle_timeout)

when-eq-ok : (b : Bool) (m : Result String (Unit {0})) → when b m ≡ ok tt → b ≡ true → m ≡ ok tt
when-eq-ok true m h e = h
when-eq-ok false m h e = cc

when-not-eq-ok :
    (b : Bool) (m : Result String (Unit {0})) → when (not b) m ≡ ok tt → b ≡ false → m ≡ ok tt
when-not-eq-ok true m h e = cc
when-not-eq-ok false m h e = h

policy_given : (a b : Bool) → (a || not b) ≡ true → a ≡ false → b ≡ false
policy_given a b h e = ground arith

and-not : (a b : Bool) → (a && not b) ≡ true → (a ≡ true) × (b ≡ false)
and-not a b h = ground arith

validate_providers-IsNamedUrl :
    (parse : String → Option ParsedUrl) (providers : Dict StorageProviderConfig)
    → validate_providers parse providers ≡ ok tt
    → All (IsNamedUrl parse) providers
unfolding validate_providers
validate_providers-IsNamedUrl parse [] h = tt
validate_providers-IsNamedUrl parse ((name, c) ∷ rest) h =
    on_require (not (str_eq (trim_space name) "")) _ _ h λ named h₁.
      on_require (is_absolute parse (trim_space c.signer_base_url)) _ _ h₁ λ absolute h₂.
        ((ground (arith, named), absolute), validate_providers-IsNamedUrl parse rest h₂)

validate_targets-known :
    (providers : Dict StorageProviderConfig) (targets : Dict Target)
    → validate_targets providers targets ≡ ok tt
    → All (λ e. is_some (lookup e.1.provider providers) ≡ true) targets
unfolding validate_targets
validate_targets-known providers [] h = tt
validate_targets-known providers ((name, t) ∷ rest) h =
    on_require (is_some (lookup t.provider providers)) _ _ h
      λ known h₁. (known, validate_targets-known providers rest h₁)

oidc_enables :
    (mode : String) → str_eq mode "oidc" ≡ true → (str_eq mode "" || str_eq mode "disabled") ≡ false
oidc_enables mode h =
    subst (λ (m : String). (str_eq m "" || str_eq m "disabled") ≡ false)
      (sym ((eq_iff mode "oidc").0 h)) refl

required-oidc :
    (parse : String → Option ParsedUrl) (c : StorageWorkloadAuthConfig)
    → validate_workload_auth parse c ≡ ok tt
    → c.required ≡ true
    → str_eq c.mode "oidc" ≡ true
unfolding validate_workload_auth
required-oidc parse c h r = elim (Bool-cases (str_eq c.mode "" || str_eq c.mode "disabled")) [
  | inl off ↦ absurd (err-ne-ok (rw (off, r) at h))
  | inr on ↦ elim (Bool-cases (str_eq c.mode "oidc")) [
    | inl oidc ↦ oidc
    | inr other ↦ absurd (err-ne-ok (rw (on, other) at h))
  ]
]

oidc-configured :
    (parse : String → Option ParsedUrl) (c : StorageWorkloadAuthConfig)
    → validate_workload_auth parse c ≡ ok tt
    → str_eq c.mode "oidc" ≡ true
    → (str_eq (trim_space c.issuer) "" ≡ false) × (str_eq (trim_space c.audience) "" ≡ false)
unfolding validate_workload_auth
oidc-configured parse c h oidc =
    on_require (not (str_eq (trim_space c.issuer) "" || str_eq (trim_space c.audience) "")) _ _
      (rw (oidc_enables c.mode oidc, oidc) at h) λ given _. or-eq-false _ _ (not-eq-true _ given)

validate_session-IsSoundSession :
    (c : SessionConfig) → validate_session c ≡ ok tt → IsSoundSession c
unfolding validate_session
validate_session-IsSoundSession c h =
    elim (Bool-cases (
      is_zero_duration c.max_lifetime
      && is_zero_duration c.idle_timeout
      && is_zero_duration c.touch_interval)) [
        | inl zero ↦ inl zero
        | inr given ↦ inr (
            on_require (is_positive c.max_lifetime) _ _ (rw given at h) λ lifetime h₁.
              on_require (is_positive c.idle_timeout && not (exceeds c.idle_timeout c.max_lifetime))
                _ _ h₁
                λ idle h₂.
                  let interval =
                    require-eq-ok_last
                      (is_positive c.touch_interval
                        && not (exceeds c.touch_interval c.idle_timeout))
                      _ h₂ in
                  (lifetime, and-not _ _ idle, and-not _ _ interval))
      ]

pub validate_storage-IsSoundStorage :
    (parse : String → Option ParsedUrl) (c : StorageRoleConfig)
    → validate_storage parse c ≡ ok tt
    → IsSoundStorage parse c
unfolding validate_storage
validate_storage-IsSoundStorage parse c h = on_require (is_positive c.signer_timeout) _ _ h λ _ h₁.
    on_require
      (is_positive c.default_ttl && is_positive c.max_ttl && not (exceeds c.default_ttl c.max_ttl))
      _ _ h₁
      λ ttl h₂. on_ok (when (not (str_eq c.signer_base_url "")) _) _ h₂ λ _ signer h₃.
        on_ok (validate_providers parse c.providers) _ h₃ λ _ providers h₄.
          on_ok (when (not (is_empty c.providers)) _) _ h₄ λ _ targets h₅.
            on_require (is_positive c.access_policy_timeout) _ _ h₅ λ _ h₆.
              on_require (not (str_eq (trim_space c.subject_header) "")) _ _ h₆ λ _ h₇.
                on_require (is_empty c.targets || not (str_eq c.access_policy_url "")) _ _ h₇
                  λ policy h₈.
                    on_ok (when (not (str_eq c.access_policy_url "")) _) _ h₈ λ _ url workload.
                      record {
                        ttl = ground (arith, ttl);
                        signer = λ e. require-eq-ok_last _ _ (when-not-eq-ok _ _ signer e);
                        providers = validate_providers-IsNamedUrl parse c.providers providers;
                        targets = λ e.
                            validate_targets-known c.providers c.targets
                              (when-not-eq-ok _ _ targets e);
                        policy = λ e.
                            let given = policy_given _ _ policy e in
                            (given, require-eq-ok_last _ _ (when-not-eq-ok _ _ url given));
                        workload = required-oidc parse c.workload_auth workload;
                        issuer = oidc-configured parse c.workload_auth workload;
                      }

-- A configuration that selects the storage role and passes `Validate` has sound session settings (all
-- zero, or each positive and within the one before) and sound storage settings: the default lifetime of a presigned operation is positive and
-- within the maximum; a signer's URL is absolute where it is given; every provider has a name and an
-- absolute URL; where there are providers, every target names one of them; where there are targets,
-- the policy service has an absolute URL; and where a workload token is required, the mode is oidc,
-- with an issuer and an audience.
pub validate-IsSound :
    {F : Type 0} (below_zero : F → Bool) (parse : String → Option ParsedUrl) (cfg : Config F)
    → validate parse below_zero cfg ≡ ok tt
    → has_role cfg.runtime role_storage ≡ true
    → IsSoundSession cfg.session × IsSoundStorage parse cfg.storage
unfolding validate
validate-IsSound below_zero parse cfg h role =
    on_ok (when (not (is_empty cfg.runtime.roles)) _) _ h λ _ _ h₁.
      on_ok (validate_http parse cfg.http) _ h₁ λ _ _ h₂.
        on_ok (validate_limits below_zero cfg.limits) _ h₂ λ _ _ h₃.
          on_ok (validate_oidc cfg.oidc) _ h₃ λ _ _ h₄.
            on_ok (validate_store cfg.store) _ h₄ λ _ _ h₅.
              on_ok (validate_session cfg.session) _ h₅ λ _ session h₆.
                on_ok (when (storage_configured cfg.runtime cfg.storage) _) _ h₆ λ _ storage _. (
                  validate_session-IsSoundSession cfg.session session,
                  validate_storage-IsSoundStorage parse cfg.storage (
                      when-eq-ok (storage_configured cfg.runtime cfg.storage) _ storage
                        (rw role refl)),
                )
