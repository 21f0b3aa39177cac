-- ===== src/Session/Expiry.antt =====
-- lifecycle.go and memory.go: the lifecycle store over the memory store, and the sessions that are live.
use gateway_runtime.Prelude.{
  ◌+◌, ◌<◌, ◌≡◌, ◌⊎◌, ◌↔◌, refl, ap, inl, inr, String, true, false, none, some, ok, err,
  Option-cases, Bool-cases, arith, if◌then◌else◌,
}
use gateway_runtime.Prelude.Dict.{Dict, lookup, insert, erase}
use gateway_runtime.Duration.{Duration}
use gateway_runtime.Session.{
  Time, Session, not_found, has_expired, memory_store, memory_get, memory_put, memory_delete,
}
use gateway_runtime.Session.Lifecycle.{LifecycleStore, magnitude, has_passed, is_due, touch, get}

pub record Limits : Type 0 where
  pub max_lifetime : Duration
  pub idle_timeout : Duration
  pub touch_interval : Duration

-- the lifecycle store over the memory store, while the clock reads `now`
abbrev pub over : Limits → Time → LifecycleStore (Dict Session)
over l now = record {
  next = memory_store now;
  max_lifetime = l.max_lifetime;
  idle_timeout = l.idle_timeout;
  touch_interval = l.touch_interval;
}

-- A session that may be used at a time.
pub record IsLive (l : Limits) (now : Time) (s : Session) : Type 0 where
  pub unexpired : (s.expires_at ≡ 0) ⊎ (now < s.expires_at)
  pub young :
      (magnitude l.max_lifetime ≡ 0)
      ⊎ (s.created_at ≡ 0)
      ⊎ (now < s.created_at + magnitude l.max_lifetime)
  pub active :
      (magnitude l.idle_timeout ≡ 0)
      ⊎ (s.last_seen ≡ 0)
      ⊎ (now < s.last_seen + magnitude l.idle_timeout)

-- the session as it is returned, with its last use recorded where that is due
abbrev pub seen : Limits → Time → Session → Session
seen l now s =
    if is_due l.idle_timeout l.touch_interval s.last_seen now
    then record s { last_seen = now }
    else s

has_expired_iff : (t now : Time) → (has_expired t now ≡ false) ↔ ((t ≡ 0) ⊎ (now < t))
has_expired_iff t now = ground arith

has_passed_iff :
    (d : Duration) (t now : Time)
    → (has_passed d t now ≡ false) ↔ ((magnitude d ≡ 0) ⊎ (t ≡ 0) ⊎ (now < t + magnitude d))
has_passed_iff d t now = ground arith

-- the world after a live session was returned
abbrev pub recorded : Limits → Time → Session → Dict Session → Dict Session
recorded l now s w =
    if is_due l.idle_timeout l.touch_interval s.last_seen now
    then insert s.id (seen l now s) w
    else w

module _ (l : Limits) (now : Time) (id : String) (w : Dict Session) where
  touch_lem : (s : Session) → touch (over l now) now s w ≡ (ok (seen l now s), recorded l now s w)
  unfolding touch memory_put
  touch_lem s = elim (Bool-cases (is_due l.idle_timeout l.touch_interval s.last_seen now)) [
    | inl e ↦ rw e refl
    | inr e ↦ rw e refl
  ]

  pub get_missing : lookup id w ≡ none → get (over l now) now id w ≡ (err not_found, w)
  unfolding get memory_get
  get_missing e = rw e refl

  pub get_live :
      (s : Session)
      → lookup id w ≡ some s
      → IsLive l now s
      → get (over l now) now id w ≡ (ok (seen l now s), recorded l now s w)
  unfolding get memory_get
  get_live s e live =
      rw
        (
          e,
          (has_expired_iff s.expires_at now).1 live.unexpired,
          (has_passed_iff l.max_lifetime s.created_at now).1 live.young,
          (has_passed_iff l.idle_timeout s.last_seen now).1 live.active,
        )
        (touch_lem s)

  IsLive-or_ended :
      (s : Session)
      → IsLive l now s
        ⊎ (has_expired s.expires_at now ≡ true)
        ⊎ ((has_expired s.expires_at now ≡ false)
            × (has_passed l.max_lifetime s.created_at now ≡ true))
        ⊎ ((has_expired s.expires_at now ≡ false)
            × (has_passed l.max_lifetime s.created_at now ≡ false)
            × (has_passed l.idle_timeout s.last_seen now ≡ true))
  IsLive-or_ended s = elim (Bool-cases (has_expired s.expires_at now)) [
    | inl e ↦ inr (inl e)
    | inr e ↦ elim (Bool-cases (has_passed l.max_lifetime s.created_at now)) [
      | inl m ↦ inr (inr (inl (e, m)))
      | inr m ↦ elim (Bool-cases (has_passed l.idle_timeout s.last_seen now)) [
        | inl t ↦ inr (inr (inr (e, m, t)))
        | inr t ↦ inl (record {
          unexpired = (has_expired_iff s.expires_at now).0 e;
          young = (has_passed_iff l.max_lifetime s.created_at now).0 m;
          active = (has_passed_iff l.idle_timeout s.last_seen now).0 t;
        })
      ]
    ]
  ]

  pub get_ended :
      (s : Session)
      → lookup id w ≡ some s
      → ¬ IsLive l now s
      → get (over l now) now id w ≡ (err not_found, erase id w)
  unfolding get memory_get memory_delete
  get_ended s e dead = elim (IsLive-or_ended s) [
    | inl live ↦ absurd (dead live)
    | inr (inl expired) ↦ rw (e, expired) refl
    | inr (inr (inl (fresh, old))) ↦ rw (e, fresh, old) refl
    | inr (inr (inr (fresh, young, idle))) ↦ rw (e, fresh, young, idle) refl
  ]

  get-not_found_of_ended :
      (s : Session)
      → lookup id w ≡ some s
      → ¬ IsLive l now s
      → (get (over l now) now id w).0 ≡ err not_found
  get-not_found_of_ended s e dead = ap (λ p. p.0) (get_ended s e dead)

  pub IsLive-dec : (s : Session) → IsLive l now s ⊎ ¬ IsLive l now s
  IsLive-dec s = elim (IsLive-or_ended s) [
    | inl live ↦ inl live
    | inr (inl expired) ↦ inr (λ h. cc (expired, (has_expired_iff s.expires_at now).1 h.unexpired))
    | inr (inr (inl (fresh, old))) ↦
        inr (λ h. cc (old, (has_passed_iff l.max_lifetime s.created_at now).1 h.young))
    | inr (inr (inr (fresh, young, idle))) ↦
        inr (λ h. cc (idle, (has_passed_iff l.idle_timeout s.last_seen now).1 h.active))
  ]

-- `Get` returns a session exactly where one is stored under the identifier and is live: it has not
-- expired, and neither its absolute lifetime nor its idle timeout has passed. What it returns is the
-- stored session, with its last use set to now where recording that was due.
pub get_iff :
    (l : Limits) (now : Time) (id : String) (w : Dict Session) (v : Session)
    → ((get (over l now) now id w).0 ≡ ok v)
      ↔ ((s : Session) × (lookup id w ≡ some s) × IsLive l now s × (v ≡ seen l now s))
get_iff l now id w v = (
  λ h. elim (Option-cases (lookup id w)) [
    | inl e ↦ absurd (cc (h, ap (λ p. p.0) (get_missing l now id w e)))
    | inr (s, e) ↦ elim (IsLive-dec l now id w s) [
      | inl live ↦ (s, e, live, cc (h, ap (λ p. p.0) (get_live l now id w s e live)))
      | inr dead ↦ absurd (cc (h, get-not_found_of_ended l now id w s e dead))
    ]
  ],
  λ h. let (s, e, live, same) = h in rw same (ap (λ p. p.0) (get_live l now id w s e live)),
)
