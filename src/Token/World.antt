-- ===== src/Token/World.antt =====
-- One process: the memory stores of sessions and tokens, the memory locker (lock.go), and the refresh
-- tokens that were sent to the provider.
use gateway_runtime.Prelude.{
  ℕ, String, List, [], ◌∷◌, some, Result, ok, err, contains_str, str_eq, if◌then◌else◌,
}
use gateway_runtime.Prelude.Dict.{Dict}
use gateway_runtime.Prelude.Exec.{Exec}
use gateway_runtime.Duration.{Duration}
use gateway_runtime.Session
use gateway_runtime.Session.{Time, Session, StoreError}
use gateway_runtime.Token
use gateway_runtime.Token.{Set, MemoryEntry}
use gateway_runtime.Token.Manager.{Locker, StoreManager}

pub record World : Type 0 where
  pub sessions : Dict Session
  pub tokens : Dict MemoryEntry
  pub held : List String
  pub sent : List String

module _ {E A : Type 0} where
  -- a call on one of the stores
  abbrev pub on_sessions : Exec E (Dict Session) A → Exec E World A
  on_sessions m w = ((m w.sessions).0, record w { sessions = (m w.sessions).1 })

  abbrev pub on_tokens : Exec E (Dict MemoryEntry) A → Exec E World A
  on_tokens m w = ((m w.tokens).0, record w { tokens = (m w.tokens).1 })

abbrev pub session_store : Time → Session.Store World
session_store now = record {
  get = λ id. on_sessions (Session.memory_get now id);
  put = λ v. on_sessions (Session.memory_put v);
  delete = λ id. on_sessions (Session.memory_delete id);
}

abbrev pub token_store : Time → Token.Store World
token_store now = record {
  get = λ id. on_tokens (Token.memory_get now id);
  put = λ id v expires. on_tokens (Token.memory_put id v expires);
  delete = λ id. on_tokens (Token.memory_delete id);
}

-- every occurrence of a key, of which there is at most one
unfoldable pub release : String → List String → List String
release key [] = []
release key (k ∷ held) = if str_eq k key then release key held else k ∷ release key held

-- `MemoryLocker.Lock`: the semaphore of a key is taken if it is free; a caller that finds it taken
-- waits, here until its context ends.
unfoldable pub memory_lock : String → ℕ → Exec String World (Unit {0})
memory_lock key ttl w =
    if contains_str w.held key
    then (err "context done", w)
    else (ok tt, record w { held = key ∷ w.held })

unfoldable pub memory_unlock : String → Exec String World (Unit {0})
unfolding release
memory_unlock key w = (ok tt, record w { held = release key w.held })

abbrev pub memory_locker : Locker World
memory_locker = record { lock = memory_lock; unlock = memory_unlock }

-- the provider's answer to a refresh token, and the record that it was asked
abbrev pub asking : (String → Result String Set) → String → Exec String World Set
asking answer refresh_token w = (answer refresh_token, record w { sent = refresh_token ∷ w.sent })

-- The manager of the process while the stores' clock reads `now`.
abbrev pub manager : (String → Result String Set) → Duration → Duration → Time → StoreManager World
manager answer refresh_before lock_ttl now = record {
  store = some (token_store now);
  sessions = some (session_store now);
  refresher = some (asking answer);
  locker = some memory_locker;
  refresh_before = refresh_before;
  lock_ttl = lock_ttl;
}
