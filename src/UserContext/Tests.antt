-- ===== src/UserContext/Tests.antt =====
-- The context of ann, cached for a minute.
use gateway_runtime.Prelude.{ℕ, ◌+◌, ◌<◌, ◌≤◌, ◌≡◌, refl, [], none, ok, ◌⊎◌, arith, ◌*◌}
use gateway_runtime.Prelude.Dict.{lookup}
use gateway_runtime.Duration.{second}
use gateway_runtime.Cache.{Codec, MemoryEntry}
use gateway_runtime.UserContext.{Context, Resolver, cache_key}
use gateway_runtime.UserContext.Cached.{resolve_at, resolve-resolve}

abbrev ann : Context
ann = record {
  subject = "ann";
  username = "ann";
  display_name = "Ann";
  email = "";
  roles = [];
  permissions = [];
  tenant_id = "";
  project_id = "";
  auth_level = "authenticated";
  capabilities = [];
}

-- the world counts the calls
abbrev counting : Resolver ℕ
counting id w = (ok ann, w + 1)

abbrev codec : Codec Context
codec = record { encode = λ v. ok "ann"; decode = λ text. ok ann }

abbrev life : ℕ
life = 60 * second

abbrev start : ℕ
start = 0

absent : lookup {V = MemoryEntry} (cache_key "s1") [] ≡ none
unfolding lookup
absent = refl

resolve-resolve_example :
    let st = (resolve_at counting codec life 1000 "s1" ([], start)).1 in
    ((1500 < 1000 + life) × (resolve_at counting codec life 1500 "s1" st ≡ (ok ann, st)))
    ⊎ ((1000 + life ≤ 1500)
        × ((resolve_at counting codec life 1500 "s1" st).0 ≡ (counting "s1" 1).0))
resolve-resolve_example =
    resolve-resolve counting codec life 1000 1500 "s1" [] start 1 ann "ann" (omega arith) absent
      refl refl refl
