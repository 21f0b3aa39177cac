-- ===== src/Auth/Unsteady.antt =====
-- service.go: what a logout leaves in stores that may fail.
use gateway_runtime.Prelude.{
  String, Bool, true, false, ◌≡◌, refl, ◌⊎◌, inl, inr, none, some, Result, ok, err, str_eq,
  Option-cases, Bool-cases, Result-cases,
}
use gateway_runtime.Prelude.Dict.{lookup, erase}
use gateway_runtime.Session
use gateway_runtime.Session.{Time, not_found, has_expired}
use gateway_runtime.Token
use gateway_runtime.Token.{Set, MemoryEntry}
use gateway_runtime.Auth.Service.{AuthError, logout}
use gateway_runtime.Auth.World.{World, Answers, Settings, Outages, unsteady}

module _ (o : Outages) (id : String) where
  -- the calls of the stores on which a logout depends work
  pub record StoresWork : Type 0 where
    pub reads : o.get_tokens id ≡ none
    pub deletes_tokens : o.delete_tokens id ≡ none
    pub deletes_session : o.delete_session id ≡ none

  -- one of them fails
  abbrev pub StoresFail : Type 0
  StoresFail =
      (reason : String) × ((o.get_tokens id ≡ some reason)
        ⊎ (o.delete_tokens id ≡ some reason)
        ⊎ (o.delete_session id ≡ some reason))

module _ (a : Answers) (c : Settings) (now : Time) (id : String) (w : World) where
  -- the provider gives no URL for the end of its session, for the ID token that is stored
  pub record ProviderFails : Type 0 where
    pub set : Set
    pub read : (Token.memory_get now id w.tokens).0 ≡ ok set
    pub given : str_eq set.id_token "" ≡ false
    pub reason : String
    pub fails : a.end_session set.id_token c.logout_return ≡ err reason

module _ (a : Answers) (c : Settings) (o : Outages) (global : Bool) (now : Time) (id : String)
    (w : World) where
  -- what a logout ends in
  abbrev pub End : Result AuthError String × World → Type 0
  End q =
      (StoresWork o id × ((url : String) × (q.0 ≡ ok url)) × (q.1.sessions ≡ erase id w.sessions))
      ⊎ (StoresWork o id
          × (global ≡ true)
          × ProviderFails a c now id w
          × ((e : AuthError) × (q.0 ≡ err e))
          × (q.1.sessions ≡ erase id w.sessions))
      ⊎ (StoresFail o id × ((e : AuthError) × (q.0 ≡ err e)) × (q.1.sessions ≡ w.sessions))

  -- a token set is read, or there is none
  token_read :
      ((v : Set) × ((Token.memory_get now id w.tokens).0 ≡ ok v))
      ⊎ ((Token.memory_get now id w.tokens).0 ≡ err not_found)
  unfolding Token.memory_get
  token_read = elim (Option-cases (lookup id w.tokens)) [
    | inl e ↦ inr (rw e refl)
    | inr (v, e) ↦ elim (Bool-cases (has_expired v.expires_at now)) [
      | inl late ↦ inr (rw (e, late) refl)
      | inr valid ↦ inl (v.set, rw (e, valid) refl)
    ]
  ]

  module _ (named : str_eq id "" ≡ false) where
    -- the token set has been read, and everything is deleted
    logout_found :
        (v : Set)
        → (Token.memory_get now id w.tokens).0 ≡ ok v
        → StoresWork o id
        → End (logout (unsteady a c o now) id global w)
    unfolding logout Session.memory_delete Token.memory_delete
    logout_found v got works = elim (Bool-cases global) [
      | inr stays ↦
          rw (named, works.reads, got, works.deletes_tokens, works.deletes_session, stays)
            (inl (works, (_, refl), refl))
      | inl leaves ↦ elim (Bool-cases (str_eq v.id_token "")) [
        | inl blank ↦
            rw (named, works.reads, got, works.deletes_tokens, works.deletes_session, leaves, blank)
              (inl (works, (_, refl), refl))
        | inr given ↦ elim (Result-cases (a.end_session v.id_token c.logout_return)) [
          | inl (url, e) ↦
              rw
                (
                  named, works.reads, got, works.deletes_tokens, works.deletes_session, leaves,
                  given, e,
                )
                (inl (works, (_, refl), refl))
          | inr (reason, e) ↦
              let fails : ProviderFails a c now id w = record {
                set = v;
                read = got;
                given = given;
                reason = reason;
                fails = e;
              } in
              rw
                (
                  named, works.reads, got, works.deletes_tokens, works.deletes_session, leaves,
                  given, e,
                )
                (inr (inl (works, refl, fails, (_, refl), refl)))
        ]
      ]
    ]

    -- there was no token set, and the session is deleted
    logout_without :
        (Token.memory_get now id w.tokens).0 ≡ err not_found
        → StoresWork o id
        → End (logout (unsteady a c o now) id global w)
    unfolding logout Session.memory_delete Token.memory_delete
    logout_without missing works = elim (Bool-cases global) [
      | inr stays ↦
          rw (named, works.reads, missing, works.deletes_tokens, works.deletes_session, stays)
            (inl (works, (_, refl), refl))
      | inl leaves ↦
          rw (named, works.reads, missing, works.deletes_tokens, works.deletes_session, leaves)
            (inl (works, (_, refl), refl))
    ]

    logout_unread :
        (reason : String)
        → o.get_tokens id ≡ some reason
        → End (logout (unsteady a c o now) id global w)
    unfolding logout
    logout_unread reason e = rw (named, e) (inr (inr ((reason, inl refl), (_, refl), refl)))

    logout_undeleted_tokens :
        (reason : String)
        → o.get_tokens id ≡ none
        → o.delete_tokens id ≡ some reason
        → End (logout (unsteady a c o now) id global w)
    unfolding logout
    logout_undeleted_tokens reason reads e = elim token_read [
      | inl (v, got) ↦
          rw (named, reads, got, e) (inr (inr ((reason, inr (inl refl)), (_, refl), refl)))
      | inr missing ↦
          rw (named, reads, missing, e) (inr (inr ((reason, inr (inl refl)), (_, refl), refl)))
    ]

    logout_undeleted_session :
        (reason : String)
        → o.get_tokens id ≡ none
        → o.delete_tokens id ≡ none
        → o.delete_session id ≡ some reason
        → End (logout (unsteady a c o now) id global w)
    unfolding logout Token.memory_delete
    logout_undeleted_session reason reads deletes e = elim token_read [
      | inl (v, got) ↦
          rw (named, reads, got, deletes, e) (inr (inr ((reason, inr (inr refl)), (_, refl), refl)))
      | inr missing ↦
          rw (named, reads, missing, deletes, e)
            (inr (inr ((reason, inr (inr refl)), (_, refl), refl)))
    ]

    pub logout-End : End (logout (unsteady a c o now) id global w)
    logout-End = elim (Option-cases (o.get_tokens id)) [
      | inr (reason, e) ↦ logout_unread reason e
      | inl reads ↦ elim (Option-cases (o.delete_tokens id)) [
        | inr (reason, e) ↦ logout_undeleted_tokens reason reads e
        | inl tokens ↦ elim (Option-cases (o.delete_session id)) [
          | inr (reason, e) ↦ logout_undeleted_session reason reads tokens e
          | inl session ↦
              let works : StoresWork o id = record {
                reads = reads;
                deletes_tokens = tokens;
                deletes_session = session;
              } in
              elim token_read [
                | inl (v, got) ↦ logout_found v got works
                | inr missing ↦ logout_without missing works
              ]
        ]
      ]
    ]
