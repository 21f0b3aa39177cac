-- ===== src/RoleRuntime/Lifetimes.antt =====
-- server.go: the lifetime that a request asks for, and the product that computes it.
use gateway_runtime.Prelude.{
  ℕ, suc, ◌+◌, ◌*◌, ◌%◌, ◌^◌, ◌<◌, ◌≡◌, ap, ◌∙◌, not, ok, arith, on_ok, on_require, ok-injective,
  sym,
}
use gateway_runtime.Duration.{pos, second, is_positive, exceeds, seconds, seconds_exact}
use gateway_runtime.Capability.{PresignedRequest}
use gateway_runtime.RoleRuntime.{Config, StorageRequest}
use gateway_runtime.RoleRuntime.Validate.{
  resolve_bucket, object_key_of, default_ttl, max_ttl, requested_ttl, ttl_of,
  validate_storage_request,
}

-- The lifetime is the one asked for, in nanoseconds, where it stays below the bound of an `int64`.
pub validate-exact_lifetime :
    (cfg : Config) (req : StorageRequest) (base : PresignedRequest) (n : ℕ)
    → req.expires_in_seconds ≡ pos (suc n)
    → suc n * second < 2 ^ 63
    → validate_storage_request cfg req ≡ ok base
    → base.expires_in ≡ pos (suc n * second)
unfolding validate_storage_request ttl_of
validate-exact_lifetime cfg req base n asked small e =
    on_ok (resolve_bucket cfg req) _ e λ bucket from e₁.
      on_ok (object_key_of req) _ e₁ λ key safe e₂. on_ok (ttl_of cfg req) _ e₂ λ d life e₃.
        let d₀ = requested_ttl (default_ttl cfg) req.expires_in_seconds in
        on_require (is_positive d₀) _ _ life λ positive l₁.
          on_require (not (exceeds d₀ (pos (max_ttl cfg)))) _ _ l₁ λ bounded l₂.
            ap (λ (b : PresignedRequest). b.expires_in) (sym (ok-injective e₃))
            ∙ (sym (ok-injective l₂)
                ∙ (ap (requested_ttl (default_ttl cfg)) asked ∙ seconds_exact (suc n) small))

seconds-wrap : (n : ℕ) → seconds (suc (2 ^ 55 + n)) ≡ seconds (suc n)
unfolding seconds
seconds-wrap n =
    let e : suc (2 ^ 55 + n) * second % 2 ^ 64 ≡ suc n * second % 2 ^ 64 = omega arith in
    ground (arith, e)

-- A request for 2^55 seconds more is answered exactly as the one without them, since the product with
-- the number of nanoseconds in a second wraps around: more than a billion years are accepted as a
-- short lifetime, where the short one is, and not refused.
pub validate-wraps :
    (cfg : Config) (req : StorageRequest) (n : ℕ)
    → validate_storage_request cfg (record req { expires_in_seconds = pos (suc (2 ^ 55 + n)) })
      ≡ validate_storage_request cfg (record req { expires_in_seconds = pos (suc n) })
unfolding validate_storage_request resolve_bucket object_key_of ttl_of
validate-wraps cfg req n = rw (seconds-wrap n)
