-- ===== src/Middleware/Tests.antt =====
-- Requests of a browser behind one proxy.
use gateway_runtime.Prelude.{
  ℕ, ◌+◌, ◌≤◌, ◌≡◌, refl, String, false, List, [], ◌∷◌, Option, none, some, length, str_eq,
  if◌then◌else◌, ◌⊎◌, ltb, leb, ◌-◌, ◌/◌, ◌||◌,
}
use gateway_runtime.Text.{trim_space}
use gateway_runtime.Duration.{pos}
use gateway_runtime.Session.{Session, Time}
use gateway_runtime.Session.Expiry.{Limits}
use gateway_runtime.Policy.{Static}
use gateway_runtime.Middleware.{Request, Handler, http_error, on_response}
use gateway_runtime.Middleware.Csrf.{Origin, CsrfConfig, csrf, ensure_csrf_cookie}
use gateway_runtime.Middleware.CsrfLaws.{MayPass, csrf-MayPass}
use gateway_runtime.Middleware.Proxy.{Net, client_identity}
use gateway_runtime.Middleware.ClientAddress.{Identified, client_identity-Identified}
use gateway_runtime.Middleware.Authorization.{Stamp}
use gateway_runtime.Middleware.RateLimit.{Floats, RateLimitConfig, new_limiter, rate_limit, admit}
use gateway_runtime.Middleware.Buckets.{after, length-after}
use gateway_runtime.Middleware.Concurrency.{
  Server, Reached, idle, next, come, return, placed, free, busy, server_busy, leave, arrive,
  IsCounted, Reached-IsCounted,
}

abbrev header : String → String
header name =
    if str_eq name "Origin"
    then "https://app.test"
    else if str_eq name "X-CSRF-Token"
    then "t1"
    else if str_eq name "X-Forwarded-For"
    then "6.6.6.6, 9.9.9.9 ,10.0.0.1"
    else ""

abbrev cookie : String → Option String
cookie name =
    if str_eq name "bff_csrf"
    then some "t1"
    else if str_eq name "bff_session"
    then some "s1"
    else none

abbrev request : Request
request = record {
  method = "POST";
  path = "/api/items";
  remote_addr = "10.0.0.2:443";
  header = header;
  query = λ name. "";
  cookie = cookie;
  limit = none;
  context = record {
    request_id = "r-1";
    trace_id = "";
    client_ip = "";
    client_ip_source = "";
    cf_ray = "";
    session = none;
  };
}

abbrev start : ℕ
start = 0

abbrev answer : {W : Type 0} → Handler W
answer r w = (record { status = 200; headers = []; cookies = []; body = "fine" }, w)

abbrev parse : String → Option Origin
parse s = if str_eq s "" then none else some (record { scheme = "https"; host = "app.test" })

abbrev csrf_config : CsrfConfig
csrf_config = record { public_url = "https://app.test"; secure = false; cookie_name = "bff_csrf" }

csrf-MayPass_example :
    (MayPass parse csrf_config request
      × (csrf parse csrf_config "t2" answer request start
          ≡ on_response (ensure_csrf_cookie csrf_config "t2" request) (answer request start)))
    ⊎ (¬ MayPass parse csrf_config request
        × (message : String) × (csrf parse csrf_config "t2" answer request start
            ≡ (ensure_csrf_cookie csrf_config "t2" request (http_error 403 message), start)))
csrf-MayPass_example = csrf-MayPass parse csrf_config "t2" answer request start

-- addresses are texts; the only network holds those that begin with 10
abbrev net : Net
net = record {
  Ip = String;
  Network = ℕ;
  parse_ip = λ s. if str_eq s "" then none else some s;
  ip_text = λ ip. ip;
  parse_cidr = λ s. some 10;
  holds = λ n ip. str_eq ip "10.0.0.1" || str_eq ip "10.0.0.2";
  split_host_port = λ s. some "10.0.0.2";
}

client_address : client_identity net (10 ∷ []) request ≡ ("9.9.9.9", "x-forwarded-for")
unfolding client_identity trim_space
client_address = refl

client_identity-Identified_example :
    Identified net (10 ∷ []) request "10.0.0.2" (client_identity net (10 ∷ []) request)
client_identity-Identified_example = client_identity-Identified net (10 ∷ []) request

abbrev limits : Limits
limits = record { max_lifetime = pos 100; idle_timeout = pos 30; touch_interval = pos 5 }

abbrev session : Session
session = record {
  id = "s1";
  subject = "ann";
  issuer = "i";
  username = "ann";
  display_name = "Ann";
  email = "";
  roles = "viewer" ∷ [];
  created_at = 1000;
  expires_at = 1100;
  last_seen = 1010;
}

abbrev policy : Static
policy = record {
  role_permissions = ("viewer", "managed-item.read" ∷ []) ∷ [];
  role_capabilities = [];
}

abbrev stamp : Stamp
stamp = record { id = "e1"; at = 1012 }

-- whole numbers for floats
abbrev whole : Floats ℕ
whole = record {
  of_int = λ n. 2;
  add = λ a b. a + b;
  mul = λ a b. a;
  less_one = λ a. a - 1;
  exceeds = λ a b. ltb b a;
  at_least_one = λ a. leb 1 a;
  seconds = λ now last. (now - last) / 1000000000;
  above_zero = λ a. ltb 0 a;
}

abbrev rate_config : RateLimitConfig ℕ
rate_config = record {
  rate_per_second = 1;
  burst = pos 2;
  idle_ttl = pos 0;
  max_entries = pos 1;
  path_suffixes = [];
}

abbrev by_path : Request → String
by_path r = r.path

abbrev requests : List (Time × Request)
requests =
    (1000, request)
    ∷ (1001, record request { path = "/a" })
    ∷ (1002, record request { path = "/b" })
    ∷ []

two_buckets :
    length (after whole rate_config by_path answer requests (new_limiter, start)).0.buckets ≡ 2
unfolding rate_limit admit
two_buckets = refl

length-after_example :
    length (after whole rate_config by_path answer requests (new_limiter, start)).0.buckets ≤ 2
length-after_example = length-after whole rate_config by_path answer requests start

-- a request that runs, and one for a probe, which runs without a place
abbrev probe : Request
probe = record request { path = "/health/live" }

abbrev one_running : Server
one_running = record { running = placed ∷ []; taken = 1 }

-- the second request is refused, and its return gives back nothing; so does the probe's
served : Reached (pos 1) one_running
unfolding arrive leave
served =
    let empty : Server = record { running = []; taken = 0 } in
    let crowd : Server = record { running = free ∷ busy server_busy ∷ placed ∷ []; taken = 1 } in
    let pair : Server = record { running = busy server_busy ∷ placed ∷ []; taken = 1 } in
    next
      (next
        (next (next (next idle (come request empty)) (come request one_running)) (come probe pair))
        (return crowd [] (busy server_busy ∷ placed ∷ []) free refl))
      (return pair [] (placed ∷ []) (busy server_busy) refl)

Reached-IsCounted_example : IsCounted (pos 1) one_running
Reached-IsCounted_example = Reached-IsCounted served
