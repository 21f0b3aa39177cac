-- ===== src/Router/Tests.antt =====
-- A form that the router lets pass, and one that it refuses.
use gateway_runtime.Prelude.{
  ℕ, ◌+◌, ◌-◌, ◌≡◌, refl, String, [], true, false, some, none, Option, leb, ltb, str_eq,
  if◌then◌else◌,
}
use gateway_runtime.Duration.{pos}
use gateway_runtime.Text.{split, trim_space, equal_fold}
use gateway_runtime.Middleware.{Request, Handler, http_error}
use gateway_runtime.Middleware.Csrf.{Origin, csrf, constant_time_equal}
use gateway_runtime.Middleware.Proxy.{client_identity, Net}
use gateway_runtime.Middleware.RateLimit.{rate_limit, admit, Floats, new_limiter}
use gateway_runtime.Middleware.RequestId.{request_id, trace_context}
use gateway_runtime.Router.{RouterDeps, Draws, World, new_router}

-- addresses as texts, without trusted networks
abbrev net : Net
net = record {
  Ip = String;
  Network = ℕ;
  parse_ip = λ s. some s;
  ip_text = λ ip. ip;
  parse_cidr = λ s. none;
  holds = λ n ip. false;
  split_host_port = λ s. some s;
}

-- whole numbers for floats
abbrev whole : Floats ℕ
whole = record {
  of_int = λ n. 2;
  add = λ a b. a + b;
  mul = λ a b. a;
  less_one = λ a. a - 1;
  exceeds = λ a b. ltb b a;
  at_least_one = λ a. leb 1 a;
  seconds = λ now last. 0;
  above_zero = λ a. ltb 0 a;
}

abbrev deps : RouterDeps ℕ ℕ
deps = record {
  public_url = "https://app";
  secure_cookies = true;
  trusted_proxy = [];
  max_request_body_bytes = pos 1024;
  max_concurrency = pos 3;
  rate_per_second = 1;
  rate_burst = pos 2;
  rate_max_entries = pos 10;
  auth_rate_per_second = 1;
  auth_rate_burst = pos 2;
  trace_enabled = true;
  csrf_cookie_name = "csrf";
}

abbrev draws : Draws
draws = record { request_id = "q1"; trace_id = "t1"; csrf_token = "n1"; now = 1000 }

abbrev parse : String → Option Origin
parse s = if str_eq s "" then none else some (record { scheme = "https"; host = "app" })

-- the application counts its requests
abbrev app : Handler ℕ
app r w = (http_error 200 r.context.request_id, w + 1)

abbrev form : Request
form = record {
  method = "POST";
  path = "/auth/logout";
  remote_addr = "9.9.9.9";
  header = λ name.
      if str_eq name "Origin"
      then "https://app"
      else if str_eq name "X-CSRF-Token"
      then "n0"
      else "";
  query = λ name. "";
  cookie = λ name. some "n0";
  limit = none;
  context = record {
    request_id = "";
    trace_id = "";
    client_ip = "";
    client_ip_source = "";
    cf_ray = "";
    session = none;
  };
}

abbrev start : World ℕ ℕ
start = (new_limiter, (new_limiter, (1, 0)))

passes : (new_router net whole parse deps draws app form start).0.body ≡ "q1"
unfolding new_router rate_limit admit csrf trim_space client_identity request_id trace_context split
    equal_fold constant_time_equal
passes = refl

-- without the token, the form is refused
forged :
    (new_router net whole parse deps draws app
      (record form { cookie = λ name. none })
      start).0.status
    ≡ 403
unfolding new_router rate_limit admit csrf trim_space client_identity request_id trace_context split
    equal_fold constant_time_equal
forged = refl
