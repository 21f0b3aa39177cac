-- ===== src/Auth/Handlers.antt =====
-- http.go: the handlers of the login. The service is there; what it draws and reads (the clock, random texts, the
-- parser of URLs and the challenge) comes with the request as `Draws`, and `location` is how http.Redirect
-- writes a URL. Metrics are left out.
use gateway_runtime.Prelude.{
  ℕ, String, Bool, true, [], ◌∷◌, Option, none, some, Result, ok, err, str_eq, if◌then◌else◌,
}
use gateway_runtime.Prelude.Dict.{Dict}
use gateway_runtime.Prelude.Exec.{Exec}
use gateway_runtime.Text.{equal_fold}
use gateway_runtime.Duration.{ℤ, pos, negsuc}
use gateway_runtime.Session
use gateway_runtime.Session.{Session, StoreError, not_found, Time}
use gateway_runtime.Auth.{Url}
use gateway_runtime.Auth.Service.{
  Service, AuthError, invalid_return_to, CallbackResult, Random, start_login, complete_callback,
  logout,
}
use gateway_runtime.UserContext
use gateway_runtime.UserContext.{Resolver, ResolveError, cache_key}
use gateway_runtime.Middleware.{Request, Response, Cookie, Handler, http_error, with_cookie}
use gateway_runtime.Middleware.Authorization.{
  Sink, Stamp, Actor, nobody, actor_of, new_event, enrich_audit_event, append_event,
}

-- `delete` is that of the cache
pub record AuthHandler (W : Type 0) : Type 0 where
  pub service : Service W
  pub user_context : Option (Resolver W)
  pub delete : Option (String → Exec String W (Unit {0}))
  pub audit : Option (Sink W)
  pub secure : Bool
  pub cookie_name : String

pub record Draws : Type 0 where
  pub parse : String → Option Url
  pub challenge : String → String
  pub state : Random
  pub nonce : Random
  pub verifier : Random
  pub session : Random
  pub now : Time
  pub stamp : Stamp
  pub location : Request → String → String
  pub encode : UserContext.Context → String

abbrev bool_string : Bool → String
bool_string v = if v then "true" else "false"

module _ {W : Type 0} (h : AuthHandler W) (d : Draws) where
  abbrev pub name_of : String
  name_of = if str_eq h.cookie_name "" then "__Host-bff_session" else h.cookie_name

  abbrev redirect : Request → String → ℕ → Response
  redirect r url status = record {
    status = status;
    headers = ("Location", d.location r url) ∷ [];
    cookies = [];
    body = "";
  }

  -- `Handler.emit`
  unfoldable pub emit : Request → Actor → String → String → ℕ → Dict String → W → W
  emit r actor action outcome status attributes w =
      append_event h.audit
        (record (enrich_audit_event r (new_event d.stamp action "session" outcome)) {
          actor = actor.subject;
          actor_username = actor.username;
          http_status = status;
          attributes = attributes;
        })
        w

  abbrev login_answer : Request → Result AuthError String → W → Response × W
  login_answer r (ok url) w = (redirect r url 302, w)
  login_answer r (err invalid_return_to) w = (
    http_error 400 "invalid login request",
    emit r nobody "auth.login" "deny" 400 (("reason", "invalid_return_to") ∷ []) w,
  )
  login_answer r (err _) w = (
    http_error 503 "authentication service unavailable",
    emit r nobody "auth.login" "error" 503 (("reason", "authentication_service_unavailable") ∷ [])
        w,
  )

  unfoldable pub login : Handler W
  unfolding emit
  login r w =
      let started =
        start_login h.service d.parse d.challenge (r.query "return_to") d.state d.nonce d.verifier
          d.now w in
      login_answer r started.0 started.1

  abbrev pub session_cookie : String → Time → ℤ → Cookie
  session_cookie value expires max_age = record {
    name = name_of;
    value = value;
    secure = h.secure;
    http_only = true;
    max_age = max_age;
    expires = expires;
  }

  abbrev callback_answer : Request → Result AuthError CallbackResult → W → Response × W
  callback_answer r (err e) w = (
    http_error 401 "authentication failed",
    emit r nobody "auth.login" "deny" 401 (("reason", "invalid_callback") ∷ []) w,
  )
  callback_answer r (ok result) w = (
    with_cookie (session_cookie result.session_id result.expires_at (pos 0))
        (redirect r result.return_to 302),
    emit r (record { subject = result.subject; username = result.username }) "auth.login" "success"
        302 [] w,
  )

  unfoldable pub callback : Handler W
  unfolding emit
  callback r w =
      let completed =
        complete_callback h.service (r.query "state") (r.query "code") d.session d.now w in
      callback_answer r completed.0 completed.1

  abbrev known_actor : Result StoreError Session → Actor
  known_actor (ok s) = actor_of s
  known_actor (err e) = nobody

  abbrev pub who : Option (Session.Store W) → Option String → W → Actor × W
  who (some sessions) (some id) w = (known_actor (sessions.get id w).0, (sessions.get id w).1)
  who _ _ w = (nobody, w)

  abbrev value_of : Option String → String
  value_of none = ""
  value_of (some v) = v

  abbrev forget : Option (String → Exec String W (Unit {0})) → String → W → W
  forget none id w = w
  forget (some delete) id w = if str_eq id "" then w else (delete (cache_key id) w).1

  abbrev pub logout_answer :
      Request → Actor → String → Bool → Result AuthError String → W → Response × W
  logout_answer r actor id global (err e) w = (
    http_error 503 "logout unavailable",
    emit r actor "auth.logout" "failure" 503 (("global", bool_string global) ∷ []) w,
  )
  logout_answer r actor id global (ok url) w = (
    with_cookie (session_cookie "" 0 (negsuc 0)) (redirect r url 303),
    forget h.delete id
        (emit r actor "auth.logout" "success" 303 (("global", bool_string global) ∷ []) w),
  )

  unfoldable pub logout_session : Handler W
  unfolding emit equal_fold
  logout_session r w =
      let id = value_of (r.cookie name_of) in
      let global = equal_fold (r.query "global") "true" in
      let found = who h.service.sessions (r.cookie name_of) w in
      let done = logout h.service id global found.1 in
      logout_answer r found.0 id global done.0 done.1

  abbrev unauthorized : W → Response × W
  unauthorized w = (http_error 401 "unauthorized", w)

  abbrev context_answer : Result ResolveError UserContext.Context → W → Response × W
  context_answer (err e) w = unauthorized w
  context_answer (ok context) w = (
    record {
      status = 200;
      headers = ("Content-Type", "application/json") ∷ ("Cache-Control", "no-store") ∷ [];
      cookies = [];
      body = d.encode context;
    },
    w,
  )

  abbrev after_session : Resolver W → String → Result StoreError Session → W → Response × W
  after_session resolve id (err not_found) w = unauthorized w
  after_session resolve id (err (Session.failed e)) w =
      (http_error 503 "session store unavailable", w)
  after_session resolve id (ok s) w = context_answer (resolve id w).0 (resolve id w).1

  abbrev me_with : Option String → Option (Resolver W) → Option (Session.Store W) → W → Response × W
  me_with (some id) (some resolve) (some sessions) w =
      after_session resolve id (sessions.get id w).0 (sessions.get id w).1
  me_with _ _ _ w = unauthorized w

  unfoldable pub me : Handler W
  me r w = me_with (r.cookie name_of) h.user_context h.service.sessions w
