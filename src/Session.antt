-- ===== src/Session.antt =====
-- internal/session: browser sessions, the store's interface, the memory store (memory.go) and the
-- store that enforces lifetimes on top of another one (lifecycle.go). A time is in nanoseconds since
-- the year 1, so that Go's zero time is 0. An operation takes the clock's reading as an argument.
pub mod Lifecycle
pub mod Expiry
pub mod Activity
mod Tests
use gateway_runtime.Prelude.{
  ℕ, ◌+◌, ◌-◌, String, Bool, ◌||◌, ◌&&◌, not, List, Option, none, some, Result, ok, err, ltb, leb,
  ◌==◌, if◌then◌else◌,
}
use gateway_runtime.Prelude.Dict.{Dict, lookup, insert, erase}
use gateway_runtime.Prelude.Exec.{Exec, pure, raise, ◌>>=◌, ◌>>◌, ignore}

abbrev pub Time : Type 0
Time = ℕ

-- `t.IsZero()`
abbrev pub is_zero : Time → Bool
is_zero t = t == 0

-- `a.After(b)`
abbrev pub is_after : Time → Time → Bool
is_after a b = ltb b a

pub record Session : Type 0 where
  pub id : String
  pub subject : String
  pub issuer : String
  pub username : String
  pub display_name : String
  pub email : String
  pub roles : List String
  pub created_at : Time
  pub expires_at : Time
  pub last_seen : Time

-- `ErrNotFound`, and any other error of a store
pub data StoreError : Type 0 where
  not_found : StoreError
  failed : String → StoreError

-- the interface `session.Store` over a world that the calls change
pub record Store (W : Type 0) : Type 0 where
  pub get : String → Exec StoreError W Session
  pub put : Session → Exec StoreError W (Unit {0})
  pub delete : String → Exec StoreError W (Unit {0})

-- an expiry that has passed; the zero time never expires
abbrev pub has_expired : Time → Time → Bool
has_expired expires now = not (is_zero expires) && not (is_after expires now)

abbrev memory_found : Time → String → Option Session → Exec StoreError (Dict Session) Session
memory_found now id none w = (err not_found, w)
memory_found now id (some v) w =
    if has_expired v.expires_at now then (err not_found, erase id w) else (ok v, w)

unfoldable pub memory_get : Time → String → Exec StoreError (Dict Session) Session
unfolding lookup erase
memory_get now id w = memory_found now id (lookup id w) w

unfoldable pub memory_put : Session → Exec StoreError (Dict Session) (Unit {0})
unfolding insert
memory_put v w = (ok tt, insert v.id v w)

unfoldable pub memory_delete : String → Exec StoreError (Dict Session) (Unit {0})
unfolding erase
memory_delete id w = (ok tt, erase id w)

-- the memory store while its clock reads `now`
abbrev pub memory_store : Time → Store (Dict Session)
memory_store now = record { get = memory_get now; put = memory_put; delete = memory_delete }
