-- ===== src/Session/Tests.antt =====
-- A session of ann, in a store that limits its lifetime and its idle time.
use gateway_runtime.Prelude.{
  ◌≡◌, refl, ◌↔◌, [], ◌∷◌, some, ok, err, arith, Bool-cases, str_eq, eq_iff, inl, inr,
}
use gateway_runtime.Prelude.Dict.{Dict, lookup}
use gateway_runtime.Duration.{pos}
use gateway_runtime.Session.{Session, not_found, memory_get, memory_put, memory_delete}
use gateway_runtime.Session.Lifecycle.{touch, get}
use gateway_runtime.Session.Expiry.{Limits, over, IsLive, seen, get_iff}
use gateway_runtime.Session.Activity.{Trace, start, step, read, Keeps, lifetime_is_absolute}

abbrev limits : Limits
limits = record { max_lifetime = pos 100; idle_timeout = pos 30; touch_interval = pos 5 }

abbrev session : Session
session = record {
  id = "s1";
  subject = "ann";
  issuer = "i";
  username = "ann";
  display_name = "Ann";
  email = "";
  roles = [];
  created_at = 1000;
  expires_at = 1100;
  last_seen = 1010;
}

abbrev stored : Dict Session
stored = ("s1", session) ∷ []

store_tests :
    ((get (over limits 1012) 1012 "s1" stored).0 ≡ ok session)
    × ((get (over limits 1020) 1020 "s1" stored).0 ≡ ok (record session { last_seen = 1020 }))
    × (get (over limits 1040) 1040 "s1" stored ≡ (err not_found, []))
    × (get (over limits 1100) 1100 "s1" stored ≡ (err not_found, []))
    × ((get (over limits 1012) 1012 "s2" stored).0 ≡ err not_found)
unfolding get touch memory_get memory_put memory_delete
store_tests = (refl, refl, refl, refl, refl)

get_iff_example : ((get (over limits 1020) 1020 "s1" stored).0 ≡ ok (seen limits 1020 session)) ↔ (
    (s : Session) × (lookup "s1" stored ≡ some s)
    × IsLive limits 1020 s
    × (seen limits 1020 session ≡ seen limits 1020 s))
get_iff_example = get_iff limits 1020 "s1" stored (seen limits 1020 session)

-- a read that records the last use, and a login of somebody else
read_once : Trace limits "s1" stored (get (over limits 1020) 1020 "s1" stored).1
read_once = step start (read 1020 "s1" stored)

Keeps-one : Keeps "s1" 1000 stored
unfolding lookup
Keeps-one j = elim (Bool-cases (str_eq "s1" j)) [
  | inl e ↦ rw e ((eq_iff "s1" j).0 e, λ _. refl)
  | inr e ↦ rw e tt
]

lifetime_is_absolute_example :
    (get (over limits 1100) 1100 "s1" (get (over limits 1020) 1020 "s1" stored).1).0 ≡ err not_found
lifetime_is_absolute_example =
    lifetime_is_absolute 1000 1100 read_once Keeps-one (omega arith) (omega arith) (omega arith)
