-- ===== src/Session/Lifecycle.antt =====
-- lifecycle.go: a store that ends a session at its absolute lifetime and at its idle timeout, and
-- that records when a session was last seen.
use gateway_runtime.Prelude.{ℕ, ◌+◌, ◌-◌, String, Bool, ◌||◌, ◌&&◌, not, ltb, leb, if◌then◌else◌}
use gateway_runtime.Prelude.Exec.{Exec, pure, raise, ◌>>=◌, ignore}
use gateway_runtime.Duration.{pos, negsuc, Duration, minute, positive_or}
use gateway_runtime.Session.{Time, is_zero, is_after, Session, StoreError, not_found, Store}

pub record LifecycleStore (W : Type 0) : Type 0 where
  pub next : Store W
  pub max_lifetime : Duration
  pub idle_timeout : Duration
  pub touch_interval : Duration

-- a duration where it is positive, 0 where it is not
abbrev pub magnitude : Duration → ℕ
magnitude (pos n) = n
magnitude (negsuc n) = 0

-- `d > 0 && !t.IsZero() && !t.Add(d).After(now)`
abbrev pub has_passed : Duration → Time → Time → Bool
has_passed d t now =
    ltb 0 (magnitude d) && (not (is_zero t) && not (is_after (t + magnitude d) now))

-- `s.IdleTimeout > 0 && (v.LastSeen.IsZero() || now.Sub(v.LastSeen) >= touch)`
abbrev pub is_due : Duration → Duration → Time → Time → Bool
is_due idle touch last_seen now =
    ltb 0 (magnitude idle)
    && (is_zero last_seen || leb (positive_or touch minute) (now - last_seen))

module _ {W : Type 0} (s : LifecycleStore W) (now : Time) where
  unfoldable pub touch : Session → Exec StoreError W Session
  touch v =
      if is_due s.idle_timeout s.touch_interval v.last_seen now
      then (s.next.put (record v { last_seen = now }) >>= λ _. pure (record v { last_seen = now }))
      else pure v

  unfoldable pub get : String → Exec StoreError W Session
  unfolding touch
  get id = s.next.get id >>= λ v.
      if has_passed s.max_lifetime v.created_at now
      then (ignore (s.next.delete id) >>= λ _. raise not_found)
      else if has_passed s.idle_timeout v.last_seen now
      then (ignore (s.next.delete id) >>= λ _. raise not_found)
      else touch v

  abbrev or_now : Time → Time
  or_now t = if is_zero t then now else t

  -- the expiry after `Put`: no later than the absolute lifetime allows
  abbrev pub capped : Time → Time → Time
  capped created expires =
      let absolute = created + magnitude s.max_lifetime in
      if ltb 0 (magnitude s.max_lifetime) && (is_zero expires || is_after expires absolute)
      then absolute
      else expires

  unfoldable pub put : Session → Exec StoreError W (Unit {0})
  put v = s.next.put (record v {
    created_at = or_now v.created_at;
    last_seen = or_now v.last_seen;
    expires_at = capped (or_now v.created_at) v.expires_at;
  })

  unfoldable pub delete : String → Exec StoreError W (Unit {0})
  delete id = s.next.delete id

-- the interface that the lifecycle store fills
abbrev pub lifecycle_store : {W : Type 0} → LifecycleStore W → Time → Store W
lifecycle_store s now = record { get = get s now; put = put s now; delete = delete s now }
