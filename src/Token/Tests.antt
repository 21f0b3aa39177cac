-- ===== src/Token/Tests.antt =====
-- A token set of one session before and after it is due, and a provider that answers one refresh token.
use gateway_runtime.Prelude.{
  ◌≡◌, refl, String, true, false, [], ◌∷◌, Result, some, ok, err, str_eq, if◌then◌else◌,
}
use gateway_runtime.Prelude.Dict.{lookup}
use gateway_runtime.Duration.{pos}
use gateway_runtime.Session.{Session}
use gateway_runtime.Token.{Set, MemoryEntry}
use gateway_runtime.Token.Manager.{unix_time, needs_refresh, is_usable, access_token}
use gateway_runtime.Token.World.{World, manager}
use gateway_runtime.Token.Once.{refresh-once}
use gateway_runtime.Token.Refresh.{NeedsRefresh, Outcome, refresh-Outcome}

abbrev old : Set
old = record { access_token = "a1"; refresh_token = "r1"; id_token = "i1"; expiry_unix = pos 1000 }

abbrev entry : MemoryEntry
entry = record { set = old; expires_at = 0 }

abbrev session : Session
session = record {
  id = "s1";
  subject = "ann";
  issuer = "i";
  username = "ann";
  display_name = "Ann";
  email = "";
  roles = [];
  created_at = 0;
  expires_at = 0;
  last_seen = 0;
}

abbrev world : World
world = record {
  sessions = ("s1", session) ∷ [];
  tokens = ("s1", entry) ∷ [];
  held = [];
  sent = [];
}

abbrev answer : String → Result String Set
answer refresh_token =
    if str_eq refresh_token "r1"
    then ok
        (record { access_token = "a2"; refresh_token = ""; id_token = ""; expiry_unix = pos 2000 })
    else err "invalid_grant"

due :
    NeedsRefresh answer
      (pos 0)
      (pos 0)
      (unix_time 980)
      (unix_time 980)
      (unix_time 980)
      (unix_time 980)
      "s1"
      world
      entry
unfolding lookup needs_refresh
due = record {
  stored = refl;
  unexpired = refl;
  has_access = refl;
  has_refresh = refl;
  due = refl;
  still_due = refl;
  unlocked = refl;
}

refresh-Outcome_example :
    Outcome answer
      (pos 0)
      (pos 0)
      (unix_time 980)
      (unix_time 980)
      (unix_time 980)
      (unix_time 980)
      "s1"
      world
      entry
      (access_token
        (manager answer (pos 0) (pos 0) (unix_time 980))
        "s1"
        (unix_time 980)
        (unix_time 980)
        (unix_time 980)
        world)
refresh-Outcome_example =
    refresh-Outcome answer (pos 0) (pos 0) (unix_time 980) (unix_time 980) (unix_time 980)
      (unix_time 980) "s1" world entry due

abbrev fresh : Set
fresh = record { access_token = "a2"; refresh_token = ""; id_token = ""; expiry_unix = pos 2000 }

usable : is_usable fresh (unix_time 980) ≡ true
unfolding needs_refresh
usable = refl

not_due : needs_refresh (pos 0) fresh (unix_time 1500) ≡ false
unfolding needs_refresh
not_due = refl

found : lookup "s1" world.sessions ≡ some session
unfolding lookup
found = refl

refresh-once_example :
    let v =
      (access_token
        (manager answer (pos 0) (pos 0) (unix_time 980))
        "s1"
        (unix_time 980)
        (unix_time 980)
        (unix_time 980)
        world).1 in
    access_token
      (manager answer (pos 0) (pos 0) (unix_time 1500))
      "s1"
      (unix_time 1500)
      (unix_time 1500)
      (unix_time 1500)
      v
    ≡ (ok "a2", v)
refresh-once_example =
    refresh-once answer (pos 0) (pos 0) (unix_time 980) (unix_time 980) (unix_time 980)
      (unix_time 980) "s1" world entry fresh session (unix_time 1500) (unix_time 1500)
      (unix_time 1500) (unix_time 1500) due refl usable found refl refl not_due
