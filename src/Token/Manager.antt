-- ===== src/Token/Manager.antt =====
-- manager.go: `StoreManager.AccessToken`. A store, the refresher and the locker may be nil.
use Prim.Native.String.{◌++◌}
use gateway_runtime.Prelude.{
  ℕ, ◌+◌, ◌*◌, String, Bool, true, false, ◌||◌, ◌&&◌, not, Option, none, some, Result, ok, err, ltb,
  leb, str_eq, if◌then◌else◌,
}
use gateway_runtime.Prelude.Exec.{Exec, pure, raise, ◌>>=◌, ◌>>◌, ignore, attempt, wrap}
use gateway_runtime.Duration.{ℤ, pos, negsuc, Duration, second, positive_or}
use gateway_runtime.Session
use gateway_runtime.Session.{Time, Session, StoreError}
use gateway_runtime.Token.{Set, Store}

pub data TokenError : Type 0 where
  not_configured access_token_missing refresh_unavailable sessions_required : TokenError
  store_error : StoreError → TokenError
  lock_error refresh_failed : String → TokenError
  persist_error : StoreError → TokenError

-- `RefreshLocker`: the lock that is held, or an error; and its release.
pub record Locker (W : Type 0) : Type 0 where
  pub lock : String → ℕ → Exec String W (Unit {0})
  pub unlock : String → Exec String W (Unit {0})

pub record StoreManager (W : Type 0) : Type 0 where
  pub store : Option (Store W)
  pub sessions : Option (Session.Store W)
  pub refresher : Option (String → Exec String W Set)
  pub locker : Option (Locker W)
  pub refresh_before : Duration
  pub lock_ttl : Duration

-- The Unix epoch, in seconds since the year 1.
abbrev pub unix_epoch : ℕ
unix_epoch = 62135596800

-- `time.Unix(n, 0)`
abbrev pub unix_time : ℕ → Time
unix_time n = (unix_epoch + n) * second

-- `needsRefresh`: no expiry never asks for a refresh.
abbrev expires_soon : ℤ → ℕ → Time → Bool
expires_soon (pos n) before now = ltb 0 n && not (ltb (now + before) (unix_time n))
expires_soon (negsuc n) before now = false

unfoldable pub needs_refresh : Duration → Set → Time → Bool
needs_refresh refresh_before set now =
    expires_soon set.expiry_unix (positive_or refresh_before (30 * second)) now

-- `n <= now.Unix()`, for a reading after the Unix epoch
abbrev pub unix_passed : ℤ → Time → Bool
unix_passed (pos n) now = leb (unix_time n) now
unix_passed (negsuc n) now = true

-- A refreshed set that the manager may keep: `refreshed.AccessToken != "" && refreshed.ExpiryUnix > now`.
abbrev pub is_usable : Set → Time → Bool
is_usable set now = not (str_eq set.access_token "" || unix_passed set.expiry_unix now)

abbrev or_old : String → String → String
or_old new old = if str_eq new "" then old else new

-- the refresh token and the ID token of the old set, where the new one has none
abbrev pub merged : Set → Set → Set
merged new old = record new {
  refresh_token = or_old new.refresh_token old.refresh_token;
  id_token = or_old new.id_token old.id_token;
}

module _ {W : Type 0} (m : StoreManager W) (store : Store W) (session_id : String) where
  -- `m.Sessions.Delete`, where there are sessions
  abbrev delete_session : Option (Session.Store W) → Exec TokenError W (Unit {0})
  delete_session none = pure tt
  delete_session (some s) = ignore (s.delete session_id)

  unfoldable pub invalidate : Exec TokenError W (Unit {0})
  invalidate = ignore {E = TokenError} (store.delete session_id) >> delete_session m.sessions

  abbrev pub session_expiry : Option (Session.Store W) → Exec TokenError W Time
  session_expiry none = raise sessions_required
  session_expiry (some s) =
      wrap store_error (s.get session_id) >>= λ (v : Session). pure v.expires_at

  abbrev pub persist : Set → Result TokenError Time → Exec TokenError W String
  persist set (ok expires) =
      wrap persist_error (store.put session_id set expires) >>= λ _. pure set.access_token
  persist set (err e) = invalidate >>= λ _. raise e

  -- from the refresher's answer on
  unfoldable pub store_refreshed : Set → Time → Result String Set → Exec TokenError W String
  unfolding invalidate
  store_refreshed current now (err e) = invalidate >>= λ _. raise (refresh_failed e)
  store_refreshed current now (ok refreshed) =
      if is_usable refreshed now
      then (attempt (session_expiry m.sessions) >>= λ r. persist (merged refreshed current) r)
      else (invalidate >>= λ _. raise (refresh_failed "invalid refreshed token set"))

  -- under the lock: another replica may have refreshed while this request waited
  unfoldable pub refresh_locked :
      (String → Exec String W Set) → Time → Time → Exec TokenError W String
  unfolding store_refreshed
  refresh_locked refresh now₂ now₃ = wrap store_error (store.get session_id) >>= λ (current : Set).
      if not (needs_refresh m.refresh_before current now₂)
      then pure current.access_token
      else if str_eq current.refresh_token ""
      then raise refresh_unavailable
      else (attempt (refresh current.refresh_token) >>= λ r. store_refreshed current now₃ r)

  -- `defer unlock()`: the lock is released after the body, whether it fails or not
  abbrev pub locked : Option (Locker W) → Exec TokenError W String → Exec TokenError W String
  locked none body = body
  locked (some l) body =
      wrap lock_error
        (l.lock ("token-refresh:" ++ session_id) (positive_or m.lock_ttl (10 * second)))
      >>= λ _. attempt body >>= λ r.
          ignore {E = TokenError} (l.unlock ("token-refresh:" ++ session_id)) >>= λ _. λ w. (r, w)

  abbrev pub refresh_with :
      Option (String → Exec String W Set) → Set → Time → Time → Exec TokenError W String
  refresh_with none current now₂ now₃ = raise refresh_unavailable
  refresh_with (some refresh) current now₂ now₃ =
      if str_eq current.refresh_token ""
      then raise refresh_unavailable
      else locked m.locker (refresh_locked refresh now₂ now₃)

  unfoldable pub access_token_from : Time → Time → Time → Exec TokenError W String
  unfolding refresh_locked
  access_token_from now₁ now₂ now₃ = wrap store_error (store.get session_id) >>= λ (current : Set).
      if str_eq current.access_token ""
      then raise access_token_missing
      else if not (needs_refresh m.refresh_before current now₁)
      then pure current.access_token
      else refresh_with m.refresher current now₂ now₃

abbrev with_store :
    {W : Type 0}
    → StoreManager W
    → Option (Store W)
    → String
    → Time
    → Time
    → Time
    → Exec TokenError W String
with_store m none id now₁ now₂ now₃ = raise not_configured
with_store m (some store) id now₁ now₂ now₃ = access_token_from m store id now₁ now₂ now₃

-- `AccessToken`
unfoldable pub access_token :
    {W : Type 0} → StoreManager W → String → Time → Time → Time → Exec TokenError W String
unfolding access_token_from
access_token m id now₁ now₂ now₃ = with_store m m.store id now₁ now₂ now₃
