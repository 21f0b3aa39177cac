-- ===== src/Token/Refresh.antt =====
-- manager.go: `AccessToken` with the stores of a process, branch by branch.
use Prim.Native.String.{◌++◌}
use gateway_runtime.Prelude.{
  String, true, false, ◌≡◌, refl, ◌∙◌, List, [], ◌∷◌, none, some, Result, ok, err, contains_str,
  str_eq, eq_refl, arith, Bool-cases, Option-cases, Result-cases, ◌⊎◌, inl, inr,
}
use gateway_runtime.Prelude.Dict.{Dict, lookup, insert, erase, lookup-erase}
use gateway_runtime.Duration.{Duration}
use gateway_runtime.Session
use gateway_runtime.Session.{Time, Session, StoreError, has_expired}
use gateway_runtime.Token
use gateway_runtime.Token.{Set, MemoryEntry}
use gateway_runtime.Token.Manager.{
  TokenError, refresh_failed, store_error, needs_refresh, is_usable, merged, store_refreshed,
  access_token,
}
use gateway_runtime.Token.World.{World, manager, memory_lock, memory_unlock, release, token_store}

abbrev lock_key : String → String
lock_key id = "token-refresh:" ++ id

release-fresh :
    (key : String) (held : List String) → contains_str held key ≡ false → release key held ≡ held
unfolding release
release-fresh key [] h = refl
release-fresh key (k ∷ held) h = ground (arith, release-fresh key held)

release-lock :
    (key : String) (held : List String)
    → contains_str held key ≡ false
    → release key (key ∷ held) ≡ held
unfolding release
release-lock key held h = rw (eq_refl key) (release-fresh key held h)

module _ (answer : String → Result String Set) (before ttl : Duration) (t n₁ n₂ n₃ : Time)
    (id : String) (w : World) where
  -- A stored set that is about to expire, whose refresh token can be sent.
  pub record NeedsRefresh (e : MemoryEntry) : Type 0 where
    pub stored : lookup id w.tokens ≡ some e
    pub unexpired : has_expired e.expires_at t ≡ false
    pub has_access : str_eq e.set.access_token "" ≡ false
    pub has_refresh : str_eq e.set.refresh_token "" ≡ false
    pub due : needs_refresh before e.set n₁ ≡ true
    pub still_due : needs_refresh before e.set n₂ ≡ true
    pub unlocked : contains_str w.held (lock_key id) ≡ false

  -- the world in which the provider was asked and the session was ended
  abbrev ended : MemoryEntry → World
  ended e = record {
    sessions = erase id w.sessions;
    tokens = erase id w.tokens;
    held = w.held;
    sent = e.set.refresh_token ∷ w.sent;
  }

  -- From a set that needs a refresh, the manager takes the lock, asks the provider, and goes on from
  -- its answer.
  reaches-refresh :
      (e : MemoryEntry) (r : Result TokenError String) (v : World)
      → NeedsRefresh e
      → store_refreshed
          (manager answer before ttl t)
          (token_store t)
          id
          e.set
          n₃
          (answer e.set.refresh_token)
          (record w { held = lock_key id ∷ w.held; sent = e.set.refresh_token ∷ w.sent })
        ≡ (r, record v { held = lock_key id ∷ w.held })
      → access_token (manager answer before ttl t) id n₁ n₂ n₃ w ≡ (r, record v { held = w.held })
  unfolding access_token memory_lock memory_unlock Token.memory_get
  reaches-refresh e r v h run =
      rw
        (
          h.stored,
          h.unexpired,
          h.has_access,
          h.due,
          h.has_refresh,
          h.unlocked,
          h.stored,
          h.unexpired,
          h.still_due,
          h.has_refresh,
          run,
          release-lock (lock_key id) w.held h.unlocked,
        )
        refl

  refused-ended :
      (e : MemoryEntry) (reason : String)
      → NeedsRefresh e
      → answer e.set.refresh_token ≡ err reason
      → access_token (manager answer before ttl t) id n₁ n₂ n₃ w
        ≡ (err (refresh_failed reason), ended e)
  unfolding store_refreshed Token.memory_delete Session.memory_delete
  refused-ended e reason h refused =
      reaches-refresh e (err (refresh_failed reason)) (ended e) h (rw refused refl)

  unusable-ended :
      (e : MemoryEntry) (fresh : Set)
      → NeedsRefresh e
      → answer e.set.refresh_token ≡ ok fresh
      → is_usable fresh n₃ ≡ false
      → access_token (manager answer before ttl t) id n₁ n₂ n₃ w
        ≡ (err (refresh_failed "invalid refreshed token set"), ended e)
  unfolding store_refreshed Token.memory_delete Session.memory_delete
  unusable-ended e fresh h answered bad =
      reaches-refresh e (err (refresh_failed "invalid refreshed token set")) (ended e) h
        (rw (answered, bad) refl)

  -- the world in which the refreshed set is stored until the session's expiry
  abbrev pub renewed : MemoryEntry → Set → Session → World
  renewed e fresh s = record w {
    tokens = insert id (record { set = merged fresh e.set; expires_at = s.expires_at }) w.tokens;
    sent = e.set.refresh_token ∷ w.sent;
  }

  pub refreshed-renewed :
      (e : MemoryEntry) (fresh : Set) (s : Session)
      → NeedsRefresh e
      → answer e.set.refresh_token ≡ ok fresh
      → is_usable fresh n₃ ≡ true
      → lookup id w.sessions ≡ some s
      → has_expired s.expires_at t ≡ false
      → access_token (manager answer before ttl t) id n₁ n₂ n₃ w
        ≡ (ok fresh.access_token, renewed e fresh s)
  unfolding store_refreshed Token.memory_put Session.memory_get
  refreshed-renewed e fresh s h answered good lives valid =
      reaches-refresh e (ok fresh.access_token) (renewed e fresh s) h
        (rw (answered, good, lives, valid) refl)

  orphan-ended :
      (e : MemoryEntry) (fresh : Set)
      → NeedsRefresh e
      → answer e.set.refresh_token ≡ ok fresh
      → is_usable fresh n₃ ≡ true
      → lookup id w.sessions ≡ none
      → access_token (manager answer before ttl t) id n₁ n₂ n₃ w
        ≡ (err (store_error Session.not_found), ended e)
  unfolding store_refreshed Token.memory_delete Session.memory_get Session.memory_delete
  orphan-ended e fresh h answered good gone =
      reaches-refresh e (err (store_error Session.not_found)) (ended e) h
        (rw (answered, good, gone) refl)

  -- A set that is not about to expire is returned, and nothing is changed or sent.
  pub current-kept :
      (e : MemoryEntry)
      → lookup id w.tokens ≡ some e
      → has_expired e.expires_at t ≡ false
      → str_eq e.set.access_token "" ≡ false
      → needs_refresh before e.set n₁ ≡ false
      → access_token (manager answer before ttl t) id n₁ n₂ n₃ w ≡ (ok e.set.access_token, w)
  unfolding access_token Token.memory_get
  current-kept e stored valid given fresh = rw (stored, valid, given, fresh) refl

  -- The session is over: its token set and the session are gone, and no other session is touched.
  pub record IsEnded (v : World) : Type 0 where
    pub no_tokens : lookup id v.tokens ≡ none
    pub no_session : lookup id v.sessions ≡ none
    pub other_tokens : (j : String) → str_eq id j ≡ false → lookup j v.tokens ≡ lookup j w.tokens
    pub other_sessions :
        (j : String) → str_eq id j ≡ false → lookup j v.sessions ≡ lookup j w.sessions

  -- The session goes on: the refreshed set is stored until the session's expiry, with the old refresh
  -- token where the provider sent none.
  pub record IsRenewed (e : MemoryEntry) (token : String) (v : World) : Type 0 where
    pub fresh : Set
    pub answered : answer e.set.refresh_token ≡ ok fresh
    pub usable : is_usable fresh n₃ ≡ true
    pub returned : token ≡ fresh.access_token
    pub session : Session
    pub lives : lookup id w.sessions ≡ some session
    pub valid : has_expired session.expires_at t ≡ false
    pub world : v ≡ renewed e fresh session

  -- No session can carry the refreshed set: there is none, or it has expired.
  abbrev pub HasNoSession : Type 0
  HasNoSession =
      (lookup id w.sessions ≡ none)
      ⊎ ((s : Session) × (lookup id w.sessions ≡ some s) × (has_expired s.expires_at t ≡ true))

  -- The error of a refresh, with its cause: the provider refuses, its answer cannot be used, or the
  -- session is over.
  abbrev pub IsCause : MemoryEntry → TokenError → Type 0
  IsCause e er =
      ((reason : String) × (answer e.set.refresh_token ≡ err reason) × (er ≡ refresh_failed reason))
      ⊎ ((fresh : Set) × (answer e.set.refresh_token ≡ ok fresh)
          × (is_usable fresh n₃ ≡ false)
          × (er ≡ refresh_failed "invalid refreshed token set"))
      ⊎ ((fresh : Set) × (answer e.set.refresh_token ≡ ok fresh)
          × (is_usable fresh n₃ ≡ true)
          × HasNoSession
          × (er ≡ store_error Session.not_found))

  -- what a refresh ends in
  abbrev pub Outcome : MemoryEntry → Result TokenError String × World → Type 0
  Outcome e p =
      ((token : String) × (p.0 ≡ ok token) × IsRenewed e token p.1)
      ⊎ ((er : TokenError) × (p.0 ≡ err er) × IsCause e er × IsEnded p.1)

  lookup-erase_self : {V : Type 0} (m : Dict V) → lookup id (erase id m) ≡ none
  lookup-erase_self m = rw (lookup-erase, eq_refl id) refl

  lookup-erase_other :
      {V : Type 0} (m : Dict V) (j : String)
      → str_eq id j ≡ false
      → lookup j (erase id m) ≡ lookup j m
  lookup-erase_other m j h = rw (lookup-erase, h) refl

  ended-IsEnded : (e : MemoryEntry) → IsEnded (ended e)
  ended-IsEnded e = record {
    no_tokens = lookup-erase_self w.tokens;
    no_session = lookup-erase_self w.sessions;
    other_tokens = lookup-erase_other w.tokens;
    other_sessions = lookup-erase_other w.sessions;
  }

  -- the session is stored, and has expired: reading it removes it, and ending it removes it again
  abbrev ended_twice : MemoryEntry → World
  ended_twice e = record (ended e) { sessions = erase id (erase id w.sessions) }

  expired-ended :
      (e : MemoryEntry) (fresh : Set) (s : Session)
      → NeedsRefresh e
      → answer e.set.refresh_token ≡ ok fresh
      → is_usable fresh n₃ ≡ true
      → lookup id w.sessions ≡ some s
      → has_expired s.expires_at t ≡ true
      → access_token (manager answer before ttl t) id n₁ n₂ n₃ w
        ≡ (err (store_error Session.not_found), ended_twice e)
  unfolding store_refreshed Token.memory_delete Session.memory_get Session.memory_delete
  expired-ended e fresh s h answered good lives late =
      reaches-refresh e (err (store_error Session.not_found)) (ended_twice e) h
        (rw (answered, good, lives, late) refl)

  ended_twice-IsEnded : (e : MemoryEntry) → IsEnded (ended_twice e)
  ended_twice-IsEnded e = record {
    no_tokens = lookup-erase_self w.tokens;
    no_session = lookup-erase_self (erase id w.sessions);
    other_tokens = lookup-erase_other w.tokens;
    other_sessions =
        λ j h. lookup-erase_other (erase id w.sessions) j h ∙ lookup-erase_other w.sessions j h;
  }

  session-Outcome :
      (e : MemoryEntry) (fresh : Set)
      → NeedsRefresh e
      → answer e.set.refresh_token ≡ ok fresh
      → is_usable fresh n₃ ≡ true
      → Outcome e (access_token (manager answer before ttl t) id n₁ n₂ n₃ w)
  session-Outcome e fresh h answered good = elim (Option-cases (lookup id w.sessions)) [
    | inl gone ↦
        rw (orphan-ended e fresh h answered good gone)
          (inr (_, refl, inr (inr (fresh, answered, good, inl gone, refl)), ended-IsEnded e))
    | inr (s, lives) ↦ elim (Bool-cases (has_expired s.expires_at t)) [
      | inl late ↦ rw (expired-ended e fresh s h answered good lives late) (
          inr (
            _,
            refl,
            inr (inr (fresh, answered, good, inr (s, lives, late), refl)),
            ended_twice-IsEnded e,
          ))
      | inr valid ↦ rw (refreshed-renewed e fresh s h answered good lives valid) (
          inl (
            fresh.access_token,
            refl,
            record {
              fresh = fresh;
              answered = answered;
              usable = good;
              returned = refl;
              session = s;
              lives = lives;
              valid = valid;
              world = refl;
            },
          ))
    ]
  ]

  -- Let a token set be stored with an access token and a refresh token, due for a refresh before and
  -- under the lock, and the lock be free. Where the provider answers with a usable set and the session
  -- is there and has not expired, the new set is stored until the session's expiry, and its access token
  -- is returned. Only where the provider refuses, its answer is not usable, or the session is missing or
  -- has expired, the call fails with the error of that cause; then both the token set and the session
  -- are gone, while other sessions keep theirs.
  pub refresh-Outcome :
      (e : MemoryEntry)
      → NeedsRefresh e
      → Outcome e (access_token (manager answer before ttl t) id n₁ n₂ n₃ w)
  refresh-Outcome e h = elim (Result-cases (answer e.set.refresh_token)) [
    | inr (reason, refused) ↦
        rw (refused-ended e reason h refused)
          (inr (_, refl, inl (reason, refused, refl), ended-IsEnded e))
    | inl (fresh, answered) ↦ elim (Bool-cases (is_usable fresh n₃)) [
      | inl good ↦ session-Outcome e fresh h answered good
      | inr bad ↦
          rw (unusable-ended e fresh h answered bad)
            (inr (_, refl, inr (inl (fresh, answered, bad, refl)), ended-IsEnded e))
    ]
  ]
