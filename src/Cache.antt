-- ===== src/Cache.antt =====
-- internal/cache: the interface (cache.go) and the memory cache (memory.go), at values of one type.
-- encoding/json is a parameter (`Codec`), and the clock's reading is an argument.
use gateway_runtime.Prelude.{
  suc, ◌+◌, ◌-◌, String, Option, none, some, Result, ok, err, if◌then◌else◌,
}
use gateway_runtime.Prelude.Dict.{Dict, lookup, insert, erase}
use gateway_runtime.Prelude.Exec.{Exec}
use gateway_runtime.Duration.{pos, negsuc, Duration}
use gateway_runtime.Session.{Time, has_expired}

-- the interface `Cache`; `none` stands for a value that is not found
pub record Cache (W A : Type 0) : Type 0 where
  pub get : String → Exec String W (Option A)
  pub set : String → A → Duration → Exec String W (Unit {0})
  pub delete : String → Exec String W (Unit {0})

pub record Codec (A : Type 0) : Type 0 where
  pub encode : A → Result String String
  pub decode : String → Result String A

pub record MemoryEntry : Type 0 where
  pub content : String
  pub expires_at : Time

-- `t.Add(d)`, where it does not fall before the year 1
abbrev pub add_to : Time → Duration → Time
add_to t (pos n) = t + n
add_to t (negsuc n) = t - suc n

module _ {A : Type 0} (codec : Codec A) (now : Time) where
  abbrev unmarshalled :
      Result String A → Dict MemoryEntry → Result String (Option A) × Dict MemoryEntry
  unmarshalled (ok a) w = (ok (some a), w)
  unmarshalled (err e) w = (err e, w)

  abbrev memory_found : String → Option MemoryEntry → Exec String (Dict MemoryEntry) (Option A)
  memory_found key none w = (ok none, w)
  memory_found key (some entry) w =
      if has_expired entry.expires_at now
      then (ok none, erase key w)
      else unmarshalled (codec.decode entry.content) w

  unfoldable pub memory_get : String → Exec String (Dict MemoryEntry) (Option A)
  unfolding lookup erase
  memory_get key w = memory_found key (lookup key w) w

  abbrev memory_write :
      String → Duration → Result String String → Exec String (Dict MemoryEntry) (Unit {0})
  memory_write key ttl (err e) w = (err e, w)
  memory_write key ttl (ok content) w =
      (ok tt, insert key (record { content = content; expires_at = add_to now ttl }) w)

  unfoldable pub memory_set : String → A → Duration → Exec String (Dict MemoryEntry) (Unit {0})
  unfolding insert
  memory_set key value ttl w = memory_write key ttl (codec.encode value) w

  unfoldable pub memory_delete : String → Exec String (Dict MemoryEntry) (Unit {0})
  unfolding erase
  memory_delete key w = (ok tt, erase key w)

  -- the interface that the memory cache fills
  abbrev pub memory_cache : Cache (Dict MemoryEntry) A
  memory_cache = record { get = memory_get; set = memory_set; delete = memory_delete }
