-- ===== src/RoleRuntime/Validated.antt =====
-- server.go: the conditions that `validateStorageRequest` checks.
use Prim.Native.String.{◌++◌}
use gateway_runtime.Prelude.{
  ℕ, ◌≤◌, ◌<◌, String, true, false, not, ◌≡◌, ◌≢◌, refl, sym, ◌⊎◌, inl, inr, some, ok, is_empty,
  str_eq, eq_iff, arith, Bool-cases, on_ok, on_require, not-eq-true, ok-injective, some_or,
  some_or-eq-ok, or-eq-false, subst,
}
use gateway_runtime.Duration.{ℤ, pos, negsuc, is_positive, exceeds}
use gateway_runtime.Text.{trim_space}
use gateway_runtime.Text.Laws.{trim_space_idem}
use gateway_runtime.Text.Search.{IsInside, not-IsInside, not-begins}
use gateway_runtime.Capability.{PresignedRequest}
use gateway_runtime.StorageTarget
use gateway_runtime.StorageTarget.{Target}
use gateway_runtime.RoleRuntime.{Config, StorageRequest}
use gateway_runtime.RoleRuntime.Validate.{
  resolve_bucket, bad_key, object_key_of, default_ttl, max_ttl, requested_ttl, ttl_of,
  validate_storage_request,
}

-- A key that stays inside its bucket.
pub record IsSafeKey (key : String) : Type 0 where
  pub given : key ≢ ""
  pub trimmed : trim_space key ≡ key
  pub relative : (rest : String) → key ≢ "/" ++ rest
  pub no_parent : ¬ IsInside ".." key
  pub no_backslash : ¬ IsInside "\\" key

-- The bucket of the named target, or the client's own where no target is configured.
abbrev pub IsBucket : Config → StorageRequest → String → Type 0
IsBucket cfg req bucket =
    ((is_empty cfg.storage_targets ≡ true) × (bucket ≡ trim_space req.bucket) × (bucket ≢ ""))
    ⊎ ((is_empty cfg.storage_targets ≡ false)
        × ((t : Target) × (StorageTarget.resolve cfg.storage_targets (trim_space req.target)
              ≡ some t)
            × (bucket ≡ t.bucket)))

pub record ValidRequest (cfg : Config) (req : StorageRequest) (base : PresignedRequest)
    : Type 0 where
  pub bucket : IsBucket cfg req base.bucket
  pub key : IsSafeKey base.object_key
  pub same_key : base.object_key ≡ trim_space req.object_key
  pub ttl : ℕ
  pub expires : base.expires_in ≡ pos ttl
  pub positive : 0 < ttl
  pub bounded : ttl ≤ max_ttl cfg

str_ne : (s t : String) → str_eq s t ≡ false → s ≢ t
str_ne s t h e = ground (arith, eq_iff s t)

resolve_bucket-IsBucket :
    (cfg : Config) (req : StorageRequest) {bucket : String}
    → resolve_bucket cfg req ≡ ok bucket
    → IsBucket cfg req bucket
unfolding resolve_bucket
resolve_bucket-IsBucket cfg req e = elim (Bool-cases (is_empty cfg.storage_targets)) [
  | inl none_set ↦
      on_require (not (str_eq (trim_space req.bucket) "")) _ _ (rw none_set at e) λ given e'. inl (
        none_set,
        sym (ok-injective e'),
        subst (λ b. b ≢ "") (ok-injective e') (str_ne _ "" (not-eq-true _ given)),
      )
  | inr some_set ↦
      on_require (not (str_eq (trim_space req.target) "")) _ _ (rw some_set at e) λ given e₁.
        on_ok (some_or (StorageTarget.resolve cfg.storage_targets (trim_space req.target)) _) _ e₁
          λ t listed e₂. inr (some_set, (t, some_or-eq-ok _ _ listed, sym (ok-injective e₂)))
]

object_key_of-IsSafeKey :
    (req : StorageRequest) {key : String}
    → object_key_of req ≡ ok key
    → IsSafeKey key × (key ≡ trim_space req.object_key)
unfolding object_key_of bad_key
object_key_of-IsSafeKey req e =
    let key = trim_space req.object_key in
    on_require (not (str_eq key "")) _ _ e λ given e₁.
      on_require (not (bad_key key)) _ _ e₁ λ good e₂.
        let (first, no_backslash) = or-eq-false _ _ (not-eq-true (bad_key key) good) in
        let (relative, no_parent) = or-eq-false _ _ first in
        subst (λ k. IsSafeKey k × (k ≡ trim_space req.object_key)) (ok-injective e₂)
          (
            record {
              given = str_ne key "" (not-eq-true (str_eq key "") given);
              trimmed = trim_space_idem req.object_key;
              relative = not-begins "/" key relative;
              no_parent = not-IsInside ".." key no_parent;
              no_backslash = not-IsInside "\\" key no_backslash;
            },
            refl,
          )

abbrev IsLifetime : Config → ℤ → Type 0
IsLifetime cfg d = (n : ℕ) × (d ≡ pos n) × (0 < n) × (n ≤ max_ttl cfg)

lifetime :
    (cfg : Config) (d : ℤ)
    → is_positive d ≡ true
    → exceeds d (pos (max_ttl cfg)) ≡ false
    → IsLifetime cfg d
lifetime cfg (pos n) p b = (n, refl, ground arith, ground arith)
lifetime cfg (negsuc n) p b = absurd (ground arith)

ttl_of-IsLifetime :
    (cfg : Config) (req : StorageRequest) {d : ℤ} → ttl_of cfg req ≡ ok d → IsLifetime cfg d
unfolding ttl_of
ttl_of-IsLifetime cfg req e =
    let asked = requested_ttl (default_ttl cfg) req.expires_in_seconds in
    on_require (is_positive asked) _ _ e λ positive e₁.
      on_require (not (exceeds asked (pos (max_ttl cfg)))) _ _ e₁ λ bounded e₂.
        subst (IsLifetime cfg) (ok-injective e₂)
          (lifetime cfg asked positive (not-eq-true _ bounded))

-- A request that passes has the bucket of its target (its own only where no target is configured), an
-- object key that is trimmed, not blank, relative and free of ".." and backslashes, and a lifetime
-- that is positive and at most the configured maximum.
pub validate-ValidRequest :
    (cfg : Config) (req : StorageRequest) (base : PresignedRequest)
    → validate_storage_request cfg req ≡ ok base
    → ValidRequest cfg req base
unfolding validate_storage_request
validate-ValidRequest cfg req base e = on_ok (resolve_bucket cfg req) _ e λ bucket from e₁.
    on_ok (object_key_of req) _ e₁ λ key safe e₂. on_ok (ttl_of cfg req) _ e₂ λ d life e₃.
      let (is_safe, same) = object_key_of-IsSafeKey req safe in
      let (n, is_pos, positive, bounded) = ttl_of-IsLifetime cfg req life in
      subst (ValidRequest cfg req) (ok-injective e₃) (record {
        bucket = resolve_bucket-IsBucket cfg req from;
        key = is_safe;
        same_key = same;
        ttl = n;
        expires = is_pos;
        positive = positive;
        bounded = bounded;
      })
