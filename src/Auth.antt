-- ===== src/Auth.antt =====
-- internal/auth: the login flows, their memory store (flow_store.go), and the service that starts a
-- login, completes the provider's callback and logs out (service.go). The identity provider, the URL
-- parser, SHA-256 with its encoding and the random source are parameters: a random text or the error of
-- the source is an argument of the operation that draws it.
pub mod Service
pub mod World
pub mod SingleUse
pub mod Outcome
pub mod ReturnTo
pub mod Handlers
pub mod Unsteady
pub mod SignedOut
mod Tests
use gateway_runtime.Prelude.{
  String, Bool, true, false, ◌||◌, not, List, Option, none, some, Result, ok, err, str_eq,
  if◌then◌else◌,
}
use gateway_runtime.Prelude.Dict.{Dict, lookup, insert, erase}
use gateway_runtime.Prelude.Exec.{Exec}
use gateway_runtime.Text.{has_prefix}
use gateway_runtime.Session.{Time, is_after}

pub record Identity : Type 0 where
  pub subject : String
  pub issuer : String
  pub username : String
  pub display_name : String
  pub email : String
  pub roles : List String

pub record TokenSet : Type 0 where
  pub access_token : String
  pub refresh_token : String
  pub id_token : String
  pub expiry : Time

pub record ExchangeResult : Type 0 where
  pub identity : Identity
  pub tokens : TokenSet

-- the interface `IdentityProvider`, with the arguments in the source's order
pub record IdentityProvider (W : Type 0) : Type 0 where
  pub authorization_url : String → String → String → String → Exec String W String
  pub exchange : String → String → String → String → Exec String W ExchangeResult
  pub end_session_url : String → String → Exec String W String

-- unconfigured.go
abbrev pub unconfigured_provider : {W : Type 0} → IdentityProvider W
unconfigured_provider = record {
  authorization_url =
      λ state nonce challenge redirect w. (err "identity provider is not configured", w);
  exchange = λ code verifier redirect nonce w. (err "identity provider is not configured", w);
  end_session_url = λ hint redirect w. (err "identity provider is not configured", w);
}

pub record Flow : Type 0 where
  pub state : String
  pub nonce : String
  pub code_verifier : String
  pub return_to : String
  pub expires_at : Time

-- `ErrFlowNotFound`, and any other error of a store
pub data FlowError : Type 0 where
  flow_not_found : FlowError
  flow_failed : String → FlowError

pub record FlowStore (W : Type 0) : Type 0 where
  pub put : Flow → Exec FlowError W (Unit {0})
  pub take : String → Exec FlowError W Flow

unfoldable pub memory_put : Flow → Exec FlowError (Dict Flow) (Unit {0})
unfolding insert
memory_put flow w = (ok tt, insert flow.state flow w)

-- the entry is deleted before its expiry is looked at
abbrev taken : Time → String → Option Flow → Exec FlowError (Dict Flow) Flow
taken now state none w = (err flow_not_found, w)
taken now state (some flow) w =
    (if not (is_after flow.expires_at now) then err flow_not_found else ok flow, erase state w)

unfoldable pub memory_take : Time → String → Exec FlowError (Dict Flow) Flow
unfolding lookup erase
memory_take now state w = taken now state (lookup state w) w

-- what the code reads of a parsed `net/url.URL`
pub record Url : Type 0 where
  pub is_abs : Bool
  pub host : String
  pub path : String

-- `safeLocalReturnTo`
abbrev safe_url : String → Option Url → Bool
safe_url v none = false
safe_url v (some u) =
    if u.is_abs || not (str_eq u.host "") || not (has_prefix u.path "/")
    then false
    else not (has_prefix v "//")

unfoldable pub safe_local_return_to : (String → Option Url) → String → Bool
safe_local_return_to parse v = safe_url v (parse v)
