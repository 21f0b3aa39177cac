-- ===== src/Auth/World.antt =====
-- One process: the memory stores of flows, sessions and token sets behind the service. The token store
-- may refuse a set, as one behind a network can; the provider is any function of what it is sent. The stores
-- of `unsteady` can also fail to read and to delete.
use gateway_runtime.Prelude.{String, Option, none, some, Result, err}
use gateway_runtime.Prelude.Dict.{Dict}
use gateway_runtime.Prelude.Exec.{Exec, raise}
use gateway_runtime.Duration.{Duration}
use gateway_runtime.Session
use gateway_runtime.Session.{Time, Session, StoreError}
use gateway_runtime.Token
use gateway_runtime.Token.{Set, MemoryEntry}
use gateway_runtime.Auth
use gateway_runtime.Auth.{Flow, FlowStore, ExchangeResult, IdentityProvider}
use gateway_runtime.Auth.Service.{Service}

pub record World : Type 0 where
  pub flows : Dict Flow
  pub sessions : Dict Session
  pub tokens : Dict MemoryEntry

module _ {E A : Type 0} where
  -- a call on one of the stores
  abbrev pub on_flows : Exec E (Dict Flow) A → Exec E World A
  on_flows m w = ((m w.flows).0, record w { flows = (m w.flows).1 })

  abbrev pub on_sessions : Exec E (Dict Session) A → Exec E World A
  on_sessions m w = ((m w.sessions).0, record w { sessions = (m w.sessions).1 })

  abbrev pub on_tokens : Exec E (Dict MemoryEntry) A → Exec E World A
  on_tokens m w = ((m w.tokens).0, record w { tokens = (m w.tokens).1 })

-- what the provider answers, without regard to earlier calls
pub record Answers : Type 0 where
  pub authorize : String → String → String → String → Result String String
  pub exchange : String → String → String → String → Result String ExchangeResult
  pub end_session : String → String → Result String String
  pub refuses : Set → Option StoreError

abbrev pub put_or_refuse :
    Option StoreError → String → Set → Time → Exec StoreError (Dict MemoryEntry) (Unit {0})
put_or_refuse none id v expires = Token.memory_put id v expires
put_or_refuse (some e) id v expires = λ w. (err e, w)

pub record Settings : Type 0 where
  pub redirect_uri : String
  pub logout_return : String
  pub flow_ttl : Duration
  pub session_ttl : Duration

-- the service of the process while its clock reads `now`
abbrev pub service : Answers → Settings → Time → Service World
service a c now = record {
  provider = some (record {
    authorization_url =
        λ state nonce challenge redirect w. (a.authorize state nonce challenge redirect, w);
    exchange = λ code verifier redirect nonce w. (a.exchange code verifier redirect nonce, w);
    end_session_url = λ hint redirect w. (a.end_session hint redirect, w);
  });
  flows = some (record {
    put = λ flow. on_flows (Auth.memory_put flow);
    take = λ state. on_flows (Auth.memory_take now state);
  });
  sessions = some (record {
    get = λ id. on_sessions (Session.memory_get now id);
    put = λ v. on_sessions (Session.memory_put v);
    delete = λ id. on_sessions (Session.memory_delete id);
  });
  tokens = some (record {
    get = λ id. on_tokens (Token.memory_get now id);
    put = λ id v expires. on_tokens (put_or_refuse (a.refuses v) id v expires);
    delete = λ id. on_tokens (Token.memory_delete id);
  });
  redirect_uri = c.redirect_uri;
  logout_return = c.logout_return;
  flow_ttl = c.flow_ttl;
  session_ttl = c.session_ttl;
}

-- the calls of the shared stores that fail, by identifier; a call that fails has no effect
pub record Outages : Type 0 where
  pub get_session : String → Option String
  pub delete_session : String → Option String
  pub get_tokens : String → Option String
  pub delete_tokens : String → Option String

abbrev pub or_fail :
    {A : Type 0} → Option String → Exec StoreError World A → Exec StoreError World A
or_fail none m = m
or_fail (some reason) m = raise (Session.failed reason)

-- the service with stores that fail now and then
abbrev pub unsteady : Answers → Settings → Outages → Time → Service World
unsteady a c o now = record (service a c now) {
  sessions = some (record {
    get = λ id. or_fail (o.get_session id) (on_sessions (Session.memory_get now id));
    put = λ v. on_sessions (Session.memory_put v);
    delete = λ id. or_fail (o.delete_session id) (on_sessions (Session.memory_delete id));
  });
  tokens = some (record {
    get = λ id. or_fail (o.get_tokens id) (on_tokens (Token.memory_get now id));
    put = λ id v expires. on_tokens (put_or_refuse (a.refuses v) id v expires);
    delete = λ id. or_fail (o.delete_tokens id) (on_tokens (Token.memory_delete id));
  });
}
