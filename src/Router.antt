-- ===== src/Router.antt =====
-- internal/httpx/router.go: `NewRouter`, the middleware around the application's mux in its order. The mux with its
-- routes, mounted below the base path, is a parameter (net/http). Logs and metrics are left out. The
-- world holds the two limiters and the semaphore's places beside the application's own part.
pub mod Layers
pub mod Guarded
pub mod Passage
mod Tests
use gateway_runtime.Prelude.{ℕ, String, Bool, List, [], ◌∷◌, Option, if◌then◌else◌}
use gateway_runtime.Duration.{ℤ, pos}
use gateway_runtime.Session.{Time}
use gateway_runtime.Middleware.{
  Request, Response, Handler, security_headers, max_request_body_bytes,
}
use gateway_runtime.Middleware.Csrf.{Origin, CsrfConfig, csrf}
use gateway_runtime.Middleware.Proxy.{Net, client_ip, request_metadata}
use gateway_runtime.Middleware.RateLimit.{Floats, RateLimitConfig, Limiter, rate_limit}
use gateway_runtime.Middleware.Concurrency.{Arrival, free, placed, busy, arrive, leave}
use gateway_runtime.Middleware.RequestId.{request_id, trace_context}

pub record RouterDeps (F Network : Type 0) : Type 0 where
  pub public_url : String
  pub secure_cookies : Bool
  pub trusted_proxy : List Network
  pub max_request_body_bytes : ℤ
  pub max_concurrency : ℤ
  pub rate_per_second : F
  pub rate_burst : ℤ
  pub rate_max_entries : ℤ
  pub auth_rate_per_second : F
  pub auth_rate_burst : ℤ
  pub trace_enabled : Bool
  pub csrf_cookie_name : String

-- what is drawn and read for one request
pub record Draws : Type 0 where
  pub request_id : String
  pub trace_id : String
  pub csrf_token : String
  pub now : Time

abbrev pub World : Type 0 → Type 0 → Type 0
World F W = Limiter F × (Limiter F × (ℕ × W))

module _ {W : Type 0} (next : Handler W) where
  -- the handler of `ConcurrencyLimit` after its decision
  abbrev placed_or_busy : Request → Arrival × ℕ → W → Response × (ℕ × W)
  placed_or_busy r (free, taken) w = ((next r w).0, (taken, (next r w).1))
  placed_or_busy r (placed, taken) w = ((next r w).0, (leave placed taken, (next r w).1))
  placed_or_busy r (busy resp, taken) w = (resp, (taken, w))

  -- `ConcurrencyLimit`, for a request that no other meets on its way
  unfoldable pub concurrency_limit : ℤ → Handler (ℕ × W)
  unfolding arrive leave
  concurrency_limit limit r (taken, w) = placed_or_busy r (arrive limit r taken) w

module _ {F : Type 0} (net : Net) (fl : Floats F) (parse : String → Option Origin)
    (deps : RouterDeps F net.Network) (d : Draws) {W : Type 0} (app : Handler W) where
  abbrev pub csrf_config : CsrfConfig
  csrf_config = record {
    public_url = deps.public_url;
    secure = deps.secure_cookies;
    cookie_name = deps.csrf_cookie_name;
  }

  abbrev pub auth_limits : RateLimitConfig F
  auth_limits = record {
    rate_per_second = deps.auth_rate_per_second;
    burst = deps.auth_rate_burst;
    idle_ttl = pos 0;
    max_entries = deps.rate_max_entries;
    path_suffixes = "/auth/login" ∷ [];
  }

  abbrev pub limits : RateLimitConfig F
  limits = record {
    rate_per_second = deps.rate_per_second;
    burst = deps.rate_burst;
    idle_ttl = pos 0;
    max_entries = deps.rate_max_entries;
    path_suffixes = [];
  }

  -- `if deps.TraceEnabled`
  abbrev pub traced : Handler (World F W) → Handler (World F W)
  traced next = if deps.trace_enabled then trace_context d.trace_id next else next

  -- what stands behind the identifiers and the headers
  unfoldable pub guarded : Handler (World F W)
  unfolding rate_limit concurrency_limit max_request_body_bytes csrf
  guarded = rate_limit fl limits (client_ip net deps.trusted_proxy) d.now (
      rate_limit fl auth_limits (client_ip net deps.trusted_proxy) d.now (
        concurrency_limit
          (max_request_body_bytes deps.max_request_body_bytes
            (csrf parse csrf_config d.csrf_token app))
          deps.max_concurrency))

  -- `NewRouter`
  unfoldable pub new_router : Handler (World F W)
  unfolding request_id trace_context security_headers request_metadata guarded
  new_router =
      request_id d.request_id
        (traced (security_headers (request_metadata net deps.trusted_proxy guarded)))
