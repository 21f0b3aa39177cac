-- ===== src/Token/Once.antt =====
-- manager.go: a call of `AccessToken` after one that refreshed.
use gateway_runtime.Prelude.{
  String, true, false, ◌≡◌, refl, ◌∙◌, some, Result, ok, str_eq, eq_refl, not-eq-true, or-eq-false,
}
use gateway_runtime.Prelude.Dict.{lookup, lookup-insert}
use gateway_runtime.Duration.{Duration}
use gateway_runtime.Session.{Time, Session, has_expired}
use gateway_runtime.Token.{Set, MemoryEntry}
use gateway_runtime.Token.Manager.{needs_refresh, is_usable, merged, access_token}
use gateway_runtime.Token.World.{World, manager}
use gateway_runtime.Token.Refresh.{NeedsRefresh, current-kept, refreshed-renewed, renewed}

usable-given : (s : Set) (now : Time) → is_usable s now ≡ true → str_eq s.access_token "" ≡ false
usable-given s now h = (or-eq-false _ _ (not-eq-true _ h)).0

-- After a token set was renewed with a usable answer of the provider, a later call of the same session
-- returns the renewed access token and changes nothing: no refresh token is sent again. The session has
-- not expired at either call, and the new set is not due for a refresh at the later one.
pub refresh-once :
    (answer : String → Result String Set) (before ttl : Duration) (t n₁ n₂ n₃ : Time) (id : String)
    (w : World) (e : MemoryEntry) (fresh : Set) (s : Session) (t' m₁ m₂ m₃ : Time)
    → NeedsRefresh answer before ttl t n₁ n₂ n₃ id w e
    → answer e.set.refresh_token ≡ ok fresh
    → is_usable fresh n₃ ≡ true
    → lookup id w.sessions ≡ some s
    → has_expired s.expires_at t ≡ false
    → has_expired s.expires_at t' ≡ false
    → needs_refresh before fresh m₁ ≡ false
    → let v = (access_token (manager answer before ttl t) id n₁ n₂ n₃ w).1 in
      access_token (manager answer before ttl t') id m₁ m₂ m₃ v ≡ (ok fresh.access_token, v)
unfolding needs_refresh
refresh-once answer before ttl t n₁ n₂ n₃ id w e fresh s t' m₁ m₂ m₃ h answered good lives valid
      later current =
    rw (refreshed-renewed answer before ttl t n₁ n₂ n₃ id w e fresh s h answered good lives valid) (
      current-kept answer before ttl t' m₁ m₂ m₃ id
        (renewed answer before ttl t n₁ n₂ n₃ id w e fresh s)
        (record { set = merged fresh e.set; expires_at = s.expires_at })
        (lookup-insert id id _ w.tokens ∙ rw (eq_refl id) refl) later (usable-given fresh n₃ good)
        current)
