-- ===== src/Middleware.antt =====
-- internal/httpx/middleware: what the handlers of the browser gateway stand behind. This file has the
-- requests, the handlers, and the middleware without a decision of its own; the children have the rest.
-- Metrics are left out. A random text is a field of the request (`Drawn`), empty where the source fails.
pub mod Csrf
pub mod CsrfLaws
pub mod Proxy
pub mod ClientAddress
pub mod Authorization
pub mod Permitted
pub mod RateLimit
pub mod Buckets
pub mod Concurrency
pub mod RequestId
mod Tests
use gateway_runtime.Prelude.{
  ℕ, String, Bool, true, false, ◌||◌, ◌&&◌, List, [], ◌∷◌, Option, some, if◌then◌else◌,
}
use gateway_runtime.Prelude.Dict.{Dict, insert}
use gateway_runtime.Duration.{ℤ, is_positive}
use gateway_runtime.Text.Trim.{has_suffix}
use gateway_runtime.Session.{Session, Time}

-- `http.Cookie` as the code sets it
pub record Cookie : Type 0 where
  pub name : String
  pub value : String
  pub secure : Bool
  pub http_only : Bool
  pub max_age : ℤ
  pub expires : Time

-- what the request's context holds
pub record Context : Type 0 where
  pub request_id : String
  pub trace_id : String
  pub client_ip : String
  pub client_ip_source : String
  pub cf_ray : String
  pub session : Option Session

-- A request; `cookie` is `r.Cookie(name)` with its error as `none`. `limit` is the bound on the body that
-- is read, where there is one.
pub record Request : Type 0 where
  pub method : String
  pub path : String
  pub remote_addr : String
  pub header : String → String
  pub query : String → String
  pub cookie : String → Option String
  pub limit : Option ℤ
  pub context : Context

pub record Response : Type 0 where
  pub status : ℕ
  pub headers : Dict String
  pub cookies : Dict Cookie
  pub body : String

-- `http.Handler`, over a world that it changes
abbrev pub Handler : Type 0 → Type 0
Handler W = Request → W → Response × W

-- `http.Error`
abbrev pub http_error : ℕ → String → Response
http_error status message = record { status = status; headers = []; cookies = []; body = message }

-- `http.SetCookie` before the rest of the response is written
abbrev pub with_cookie : Cookie → Response → Response
with_cookie c resp = record resp { cookies = (c.name, c) ∷ resp.cookies }

abbrev pub with_header : String → String → Response → Response
with_header key value resp = record resp { headers = (key, value) ∷ resp.headers }

-- a change of the response on its way out
abbrev pub on_response : {W : Type 0} → (Response → Response) → Response × W → Response × W
on_response f (resp, w) = (f resp, w)

unfoldable pub operational_path : String → Bool
unfolding has_suffix
operational_path path =
    has_suffix path "/health/live" || has_suffix path "/health/ready" || has_suffix path "/metrics"

-- body_limit.go
unfoldable pub max_request_body_bytes : {W : Type 0} → ℤ → Handler W → Handler W
max_request_body_bytes limit next =
    if is_positive limit then (λ r w. next (record r { limit = some limit }) w) else next

-- security_headers.go
unfoldable pub security_headers : {W : Type 0} → Handler W → Handler W
security_headers next r w =
    on_response
      (λ resp. with_header "X-Content-Type-Options" "nosniff" (
        with_header "X-Frame-Options" "DENY" (
          with_header "Referrer-Policy" "no-referrer" (
            with_header "Permissions-Policy" "camera=(), microphone=(), geolocation=()" (
              with_header "Cross-Origin-Opener-Policy" "same-origin"
                (with_header "Cross-Origin-Resource-Policy" "same-origin" resp))))))
      (next r w)
