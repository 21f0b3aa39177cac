-- ===== src/Token.antt =====
-- internal/token: the token sets of sessions, the memory store (memory.go), and the manager that
-- refreshes an access token before it expires (manager.go). The manager reads its clock up to three
-- times; each reading is an argument.
pub mod Manager
pub mod World
pub mod Refresh
pub mod Once
mod Tests
use gateway_runtime.Prelude.{
  ℕ, String, Bool, ◌&&◌, not, Option, none, some, Result, ok, err, if◌then◌else◌,
}
use gateway_runtime.Prelude.Dict.{Dict, lookup, insert, erase}
use gateway_runtime.Prelude.Exec.{Exec}
use gateway_runtime.Duration.{ℤ}
use gateway_runtime.Session.{Time, StoreError, not_found, has_expired}

pub record Set : Type 0 where
  pub access_token : String
  pub refresh_token : String
  pub id_token : String
  pub expiry_unix : ℤ

-- the interface `token.Store` over a world that the calls change
pub record Store (W : Type 0) : Type 0 where
  pub get : String → Exec StoreError W Set
  pub put : String → Set → Time → Exec StoreError W (Unit {0})
  pub delete : String → Exec StoreError W (Unit {0})

pub record MemoryEntry : Type 0 where
  pub set : Set
  pub expires_at : Time

abbrev memory_found : Time → String → Option MemoryEntry → Exec StoreError (Dict MemoryEntry) Set
memory_found now id none w = (err not_found, w)
memory_found now id (some v) w =
    if has_expired v.expires_at now then (err not_found, erase id w) else (ok v.set, w)

unfoldable pub memory_get : Time → String → Exec StoreError (Dict MemoryEntry) Set
unfolding lookup erase
memory_get now id w = memory_found now id (lookup id w) w

unfoldable pub memory_put : String → Set → Time → Exec StoreError (Dict MemoryEntry) (Unit {0})
unfolding insert
memory_put id v expires w = (ok tt, insert id (record { set = v; expires_at = expires }) w)

unfoldable pub memory_delete : String → Exec StoreError (Dict MemoryEntry) (Unit {0})
unfolding erase
memory_delete id w = (ok tt, erase id w)
