-- ===== src/Auth/Tests.antt =====
-- One login with a provider that accepts one code, and its logout.
use gateway_runtime.Prelude.{
  ◌≡◌, refl, String, true, false, [], Option, none, some, ok, err, str_eq, if◌then◌else◌,
}
use gateway_runtime.Prelude.Dict.{lookup, insert, erase}
use gateway_runtime.Duration.{pos}
use gateway_runtime.Text.{has_prefix, equal_fold}
use gateway_runtime.Session.{Time, Session}
use gateway_runtime.Session
use gateway_runtime.Token
use gateway_runtime.Auth
use gateway_runtime.Auth.{ExchangeResult, Url, flow_not_found, safe_local_return_to}
use gateway_runtime.Auth.Service.{
  CallbackResult, flow_error, start_login, complete_callback, logout, Random,
}
use gateway_runtime.Auth.World.{World, Answers, Settings, Outages, service}
use gateway_runtime.UserContext.{Context}
use gateway_runtime.Auth.SingleUse.{state-single_use}
use gateway_runtime.Auth.Outcome.{
  Outcome, IsLoggedOut, complete_callback-Outcome, logout-IsLoggedOut,
}
use gateway_runtime.Auth.Handlers.{Draws, me, logout_session}
use gateway_runtime.Auth.SignedOut
use gateway_runtime.Auth.SignedOut.{Surroundings, handler_at}
use gateway_runtime.Middleware.{Request}
use gateway_runtime.Auth.ReturnTo.{Reached, return_to-IsSafe}

login_process : Unit {0}
unfolding start_login complete_callback logout Auth.memory_put Auth.memory_take Session.memory_put
    Session.memory_delete Token.memory_put Token.memory_get Token.memory_delete lookup insert erase
    safe_local_return_to has_prefix
login_process = tt

abbrev exchanged : ExchangeResult
exchanged = record {
  identity = record {
    subject = "ann";
    issuer = "idp";
    username = "ann";
    display_name = "Ann";
    email = "";
    roles = [];
  };
  tokens = record { access_token = "a1"; refresh_token = "r1"; id_token = "i1"; expiry = 0 };
}

abbrev answers : Answers
answers = record {
  authorize = λ state nonce challenge redirect. ok "https://idp/authorize";
  exchange = λ code verifier redirect nonce.
      if str_eq code "c1"
      then (if str_eq verifier "v" then ok exchanged else err "verifier")
      else err "code";
  end_session = λ hint redirect. ok "https://idp/logout";
  refuses = λ set. none;
}

abbrev settings : Settings
settings = record {
  redirect_uri = "https://app/callback";
  logout_return = "/bye";
  flow_ttl = pos 50;
  session_ttl = pos 500;
}

-- reads a text as a path on the same host
abbrev parse_path : String → Option Url
parse_path v = some (record { is_abs = false; host = ""; path = v })

abbrev challenge : String → String
challenge verifier = verifier

abbrev empty : World
empty = record { flows = []; sessions = []; tokens = [] }

abbrev begun : World
begun =
    (start_login (service answers settings 10) parse_path challenge "/docs" (ok "st") (ok "n")
      (ok "v") 10 empty).1

abbrev result : CallbackResult
result = record {
  session_id = "s1";
  subject = "ann";
  username = "ann";
  return_to = "/docs";
  expires_at = 520;
}

completes :
    (complete_callback (service answers settings 20) "st" "c1" (ok "s1") 20 begun).0 ≡ ok result
unfolding login_process
completes = refl

late_fails :
    (complete_callback (service answers settings 60) "st" "c1" (ok "s1") 60 begun).0
    ≡ err (flow_error flow_not_found)
unfolding login_process
late_fails = refl

state-single_use_example :
    let after = (complete_callback (service answers settings 20) "st" "c1" (ok "s1") 20 begun).1 in
    complete_callback (service answers settings 21) "st" "c2" (ok "s2") 21 after
    ≡ (err (flow_error flow_not_found), after)
state-single_use_example =
    state-single_use answers settings "st" "c1" "c2" (ok "s1") (ok "s2") 20 21 begun refl refl

unused : (id : String) → ◌≡◌ {A = Random} (ok "s1") (ok id) → lookup id begun.sessions ≡ none
unfolding login_process
unused id e = refl

complete_callback-Outcome_example :
    Outcome answers settings "c1"
      (ok "s1")
      20
      "st"
      begun
      (complete_callback (service answers settings 20) "st" "c1" (ok "s1") 20 begun)
complete_callback-Outcome_example =
    complete_callback-Outcome answers settings "st" "c1" (ok "s1") 20 begun refl unused

logout-IsLoggedOut_example :
    let after = (complete_callback (service answers settings 20) "st" "c1" (ok "s1") 20 begun).1 in
    IsLoggedOut "s1" after (logout (service answers settings 30) "s1" true after).1
logout-IsLoggedOut_example =
    logout-IsLoggedOut answers settings true 30 "s1"
      (complete_callback (service answers settings 20) "st" "c1" (ok "s1") 20 begun).1 refl

reached : Reached parse_path challenge answers settings begun
reached = Reached.begin "/docs" (ok "st") (ok "n") (ok "v") 10 (Reached.start empty refl)

return_to-IsSafe_example : safe_local_return_to parse_path result.return_to ≡ true
return_to-IsSafe_example =
    return_to-IsSafe "st" "c1" (ok "s1") 20 result reached refl unused completes

-- what the resolver of the user's context finds
abbrev context : Context
context = record {
  subject = "ann";
  username = "ann";
  display_name = "Ann";
  email = "";
  roles = [];
  permissions = [];
  tenant_id = "";
  project_id = "";
  auth_level = "";
  capabilities = [];
}

-- the handlers of a process whose sink drops every event
abbrev surroundings : Surroundings
surroundings = record {
  user_context = some (λ key w. (ok context, w));
  forget = λ key w. (ok tt, w);
  audit = λ e w. (ok tt, w);
  secure = false;
  cookie_name = "";
  forget_quiet = λ key w. refl;
  audit_quiet = λ e w. refl;
}

abbrev draws : Draws
draws = record {
  parse = λ text. none;
  challenge = λ verifier. verifier;
  state = ok "st";
  nonce = ok "n";
  verifier = ok "v";
  session = ok "s1";
  now = 30;
  stamp = record { id = "e1"; at = 30 };
  location = λ r url. url;
  encode = λ context. context.subject;
}

abbrev signed_in : Request
signed_in = record {
  method = "POST";
  path = "/auth/logout";
  remote_addr = "";
  header = λ name. "";
  query = λ name. "";
  cookie = λ name. some "s1";
  limit = none;
  context = record {
    request_id = "";
    trace_id = "";
    client_ip = "";
    client_ip_source = "";
    cf_ray = "";
    session = none;
  };
}

abbrev logged_in : World
logged_in = (complete_callback (service answers settings 20) "st" "c1" (ok "s1") 20 begun).1

abbrev steady : Outages
steady = record {
  get_session = λ key. none;
  delete_session = λ key. none;
  get_tokens = λ key. none;
  delete_tokens = λ key. none;
}

-- a process that cannot delete a session
abbrev stuck : Outages
stuck = record steady { delete_session = λ key. some "down" }

abbrev ann : Session
ann = record {
  id = "s1";
  subject = "ann";
  issuer = "idp";
  username = "ann";
  display_name = "Ann";
  email = "";
  roles = [];
  created_at = 20;
  expires_at = 520;
  last_seen = 20;
}

-- the user's context is answered before the logout
answered_before :
    (me (handler_at answers settings steady surroundings 25) draws signed_in logged_in).0.status
    ≡ 200
unfolding me login_process Session.memory_get
answered_before = refl

-- and after a logout that fails, which is answered 503
answered_after_failure :
    let p =
      logout_session
        (handler_at answers settings stuck surroundings 30)
        draws
        signed_in
        logged_in in
    (p.0.status ≡ 503)
    × ((me (handler_at answers settings steady surroundings 40) draws signed_in p.1).0.status ≡ 200)
unfolding me logout_session equal_fold login_process Session.memory_get
answered_after_failure = (refl, refl)
