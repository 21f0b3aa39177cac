-- ===== src/Auth/Service.antt =====
-- service.go: the operations of the service. A store or the provider may be nil; calling it then is the
-- error `nil_dereference`, Go's panic.
use gateway_runtime.Prelude.{
  ◌+◌, ◌-◌, ◌*◌, ◌/◌, String, Bool, ◌||◌, ◌&&◌, not, Option, none, some, Result, ok, err, leb,
  str_eq, if◌then◌else◌,
}
use gateway_runtime.Prelude.Exec.{Exec, pure, raise, ◌>>=◌, ignore, attempt, wrap}
use gateway_runtime.Duration.{ℤ, pos, negsuc, Duration, second, minute, hour, positive_or}
use gateway_runtime.Session
use gateway_runtime.Session.{Time, Session, StoreError, not_found}
use gateway_runtime.Token
use gateway_runtime.Token.{Set}
use gateway_runtime.Token.Manager.{unix_epoch}
use gateway_runtime.Auth.{
  Identity, TokenSet, ExchangeResult, IdentityProvider, Flow, FlowError, FlowStore, Url,
  safe_local_return_to,
}

pub data AuthError : Type 0 where
  not_configured invalid_return_to missing_state_or_code incomplete_identity : AuthError
  sessions_not_configured nil_dereference : AuthError
  random_failed provider_failed : String → AuthError
  flow_error : FlowError → AuthError
  session_error token_error load_logout_token delete_logout_token delete_session :
      StoreError → AuthError

abbrev pub session_cookie_name_for : Bool → String
session_cookie_name_for secure = if secure then "__Host-bff_session" else "bff_session"

pub record Service (W : Type 0) : Type 0 where
  pub provider : Option (IdentityProvider W)
  pub flows : Option (FlowStore W)
  pub sessions : Option (Session.Store W)
  pub tokens : Option (Token.Store W)
  pub redirect_uri : String
  pub logout_return : String
  pub flow_ttl : Duration
  pub session_ttl : Duration

pub record CallbackResult : Type 0 where
  pub session_id : String
  pub subject : String
  pub username : String
  pub return_to : String
  pub expires_at : Time

-- a text of the random source, or its error
abbrev pub Random : Type 0
Random = Result String String

abbrev pub or_root : String → String
or_root return_to = if str_eq return_to "" then "/" else return_to

-- `t.Unix()`
abbrev pub unix : Time → ℤ
unix t =
    if leb unix_epoch (t / second)
    then pos (t / second - unix_epoch)
    else negsuc (unix_epoch - t / second - 1)

-- the session and the token set that a callback stores
abbrev pub new_session : String → Identity → Time → Time → Session
new_session id who now expires = record {
  id = id;
  subject = who.subject;
  issuer = who.issuer;
  username = who.username;
  display_name = who.display_name;
  email = who.email;
  roles = who.roles;
  created_at = now;
  expires_at = expires;
  last_seen = now;
}

abbrev pub new_set : TokenSet → Set
new_set t = record {
  access_token = t.access_token;
  refresh_token = t.refresh_token;
  id_token = t.id_token;
  expiry_unix = unix t.expiry;
}

module _ {W : Type 0} (s : Service W) where
  -- a call through an interface value that may be nil
  abbrev pub deref : {A : Type 0} → Option A → Exec AuthError W A
  deref none = raise nil_dereference
  deref (some a) = pure a

  abbrev drawn : Random → Exec AuthError W String
  drawn (ok text) = pure text
  drawn (err e) = raise (random_failed e)

  -- from the three random texts on
  abbrev pub begin_flow :
      (String → String)
      → IdentityProvider W
      → FlowStore W
      → String
      → String
      → String
      → String
      → Time
      → Exec AuthError W String
  begin_flow challenge provider flows return_to state nonce verifier now =
      wrap flow_error (
        flows.put (record {
          state = state;
          nonce = nonce;
          code_verifier = verifier;
          return_to = return_to;
          expires_at = now + positive_or s.flow_ttl (5 * minute);
        }))
      >>= λ _.
          wrap provider_failed
            (provider.authorization_url state nonce (challenge verifier) s.redirect_uri)

  abbrev pub start_configured :
      (String → Option Url)
      → (String → String)
      → IdentityProvider W
      → FlowStore W
      → String
      → Random
      → Random
      → Random
      → Time
      → Exec AuthError W String
  start_configured parse challenge provider flows return_to r₁ r₂ r₃ now =
      if not (safe_local_return_to parse return_to)
      then raise invalid_return_to
      else (drawn r₁ >>= λ state. drawn r₂ >>= λ nonce. drawn r₃ >>= λ verifier.
          begin_flow challenge provider flows return_to state nonce verifier now)

  abbrev start_with :
      (String → Option Url)
      → (String → String)
      → Option (IdentityProvider W)
      → Option (FlowStore W)
      → String
      → Random
      → Random
      → Random
      → Time
      → Exec AuthError W String
  start_with parse challenge (some provider) (some flows) return_to r₁ r₂ r₃ now =
      start_configured parse challenge provider flows (or_root return_to) r₁ r₂ r₃ now
  start_with parse challenge (some provider) none return_to r₁ r₂ r₃ now = raise not_configured
  start_with parse challenge none flows return_to r₁ r₂ r₃ now = raise not_configured

  -- `StartLogin`: the provider's URL
  unfoldable pub start_login :
      (String → Option Url)
      → (String → String)
      → String
      → Random
      → Random
      → Random
      → Time
      → Exec AuthError W String
  start_login parse challenge return_to r₁ r₂ r₃ now =
      start_with parse challenge s.provider s.flows return_to r₁ r₂ r₃ now

  -- after the put of the token set: where it failed, the session is deleted again
  abbrev pub or_rollback :
      Session.Store W → String → Result StoreError (Unit {0}) → Exec AuthError W (Unit {0})
  or_rollback sessions id (ok _) = pure tt
  or_rollback sessions id (err e) =
      ignore {E = AuthError} (sessions.delete id) >>= λ _. raise (token_error e)

  -- from the provider's result on
  abbrev pub establish : Flow → ExchangeResult → Random → Time → Exec AuthError W CallbackResult
  establish flow result r now =
      if str_eq result.identity.subject "" || str_eq result.identity.issuer ""
      then raise incomplete_identity
      else (drawn r >>= λ id.
          let expires = now + positive_or s.session_ttl (8 * hour) in
          deref s.sessions >>= λ (sessions : Session.Store W).
          wrap session_error (sessions.put (new_session id result.identity now expires)) >>= λ _.
          deref s.tokens >>= λ (tokens : Token.Store W).
          attempt (tokens.put id (new_set result.tokens) expires) >>= λ stored.
          or_rollback sessions id stored >>= λ _. pure (record {
            session_id = id;
            subject = result.identity.subject;
            username = result.identity.username;
            return_to = flow.return_to;
            expires_at = expires;
          }))

  -- `CompleteCallback`
  unfoldable pub complete_callback :
      String → String → Random → Time → Exec AuthError W CallbackResult
  complete_callback state code r now =
      if str_eq state "" || str_eq code ""
      then raise missing_state_or_code
      else (deref s.flows >>= λ (flows : FlowStore W).
          wrap flow_error (flows.take state) >>= λ (flow : Flow).
          deref s.provider >>= λ (provider : IdentityProvider W).
          wrap provider_failed (provider.exchange code flow.code_verifier s.redirect_uri flow.nonce)
          >>= λ (result : ExchangeResult). establish flow result r now)

  -- the ID token for the provider's end of session; a missing set gives none
  abbrev id_token_of : Result StoreError Set → Exec AuthError W String
  id_token_of (ok ts) = pure ts.id_token
  id_token_of (err not_found) = pure ""
  id_token_of (err (Session.failed e)) = raise (load_logout_token (Session.failed e))

  abbrev pub drop_tokens : Option (Token.Store W) → String → Exec AuthError W String
  drop_tokens none id = pure ""
  drop_tokens (some tokens) id = attempt (tokens.get id) >>= λ r. id_token_of r >>= λ id_token.
      wrap delete_logout_token (tokens.delete id) >>= λ _. pure id_token

  abbrev pub drop_session : Option (Session.Store W) → String → Exec AuthError W (Unit {0})
  drop_session none id = raise sessions_not_configured
  drop_session (some sessions) id = wrap delete_session (sessions.delete id)

  -- `Logout`: the URL to go to
  unfoldable pub logout : String → Bool → Exec AuthError W String
  logout id global =
      if str_eq id ""
      then pure s.logout_return
      else (drop_tokens s.tokens id >>= λ id_token. drop_session s.sessions id >>= λ _.
          if global && not (str_eq id_token "")
          then (deref s.provider >>= λ (provider : IdentityProvider W).
              wrap provider_failed (provider.end_session_url id_token s.logout_return))
          else pure s.logout_return)
