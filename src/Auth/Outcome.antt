-- ===== src/Auth/Outcome.antt =====
-- service.go: what a callback and a logout leave in the stores.
use gateway_runtime.Prelude.{
  ◌<◌, ◌≡◌, refl, ap, sym, ◌∙◌, ◌⊎◌, inl, inr, String, Bool, true, false, ◌||◌, none, some, Result,
  ok, err, Option-cases, Bool-cases, Result-cases, str_eq, eq_iff, eq_refl, arith,
}
use gateway_runtime.Prelude.Dict.{Dict, lookup, insert, erase, lookup-insert, lookup-erase}
use gateway_runtime.Session
use gateway_runtime.Session.{Time, Session, has_expired, is_after}
use gateway_runtime.Token
use gateway_runtime.Token.{MemoryEntry}
use gateway_runtime.Auth.{Flow, ExchangeResult}
use gateway_runtime.Auth.Service.{
  AuthError, Random, CallbackResult, complete_callback, establish, new_set, logout,
}
use gateway_runtime.Auth.World.{World, Answers, Settings, service}
use gateway_runtime.Auth.SingleUse.{
  HasParameters, IsComplete, callback, used, callback_unknown, callback_late, callback_refused,
  callback_exchanged, establish_incomplete, establish_undrawn, establish-rolled_back,
  establish_stored, callback_result, established,
}

module _ (a : Answers) (c : Settings) (code : String) (r : Random) (now : Time) (state : String)
    (w : World) where
  -- The login is complete: an unexpired flow was stored under the state, the provider accepted the code
  -- with that flow's verifier and nonce, and the session and its token set are stored.
  pub record IsEstablished (res : CallbackResult) (v : World) : Type 0 where
    pub flow : Flow
    pub stored : lookup state w.flows ≡ some flow
    pub unexpired : now < flow.expires_at
    pub result : ExchangeResult
    pub answered : a.exchange code flow.code_verifier c.redirect_uri flow.nonce ≡ ok result
    pub complete : IsComplete a c flow result now w
    pub id : String
    pub drawn : r ≡ ok id
    pub returned : res ≡ callback_result a c flow result now w id
    pub world : v ≡ established a c flow result now (used a c code r now state w) id

  -- no session and no token set was added, changed or removed
  pub record IsUntouched (v : World) : Type 0 where
    pub same_sessions : (j : String) → lookup j v.sessions ≡ lookup j w.sessions
    pub same_tokens : v.tokens ≡ w.tokens

  abbrev pub Outcome : Result AuthError CallbackResult × World → Type 0
  Outcome p =
      ((res : CallbackResult) × (p.0 ≡ ok res) × IsEstablished res p.1)
      ⊎ ((e : AuthError) × (p.0 ≡ err e) × IsUntouched p.1)

  untouched : IsUntouched w
  untouched = record { same_sessions = λ j. refl; same_tokens = refl }

  used-IsUntouched : IsUntouched (used a c code r now state w)
  used-IsUntouched = record { same_sessions = λ j. refl; same_tokens = refl }

  erase-insert :
      {V : Type 0} (id : String) (v : V) (m : Dict V) (j : String)
      → lookup id m ≡ none
      → lookup j (erase id (insert id v m)) ≡ lookup j m
  erase-insert id v m j h = elim (Bool-cases (str_eq id j)) [
    | inl e ↦ rw (lookup-erase, e) (sym (ap (λ k. lookup k m) (sym ((eq_iff id j).0 e)) ∙ h))
    | inr e ↦ rw (lookup-erase, e) (rw (lookup-insert, e) refl)
  ]

  module _ (flow : Flow) (result : ExchangeResult) (given : HasParameters a c code r now state w)
      (stored : lookup state w.flows ≡ some flow) (valid : is_after flow.expires_at now ≡ true)
      (answered : a.exchange code flow.code_verifier c.redirect_uri flow.nonce ≡ ok result) where
    exchanged-Outcome :
        ((id : String) → r ≡ ok id → lookup id w.sessions ≡ none)
        → Outcome (establish (service a c now) flow result r now (used a c code r now state w))
    exchanged-Outcome fresh =
        let u = used a c code r now state w in
        elim (Bool-cases (str_eq result.identity.subject "" || str_eq result.identity.issuer "")) [
          | inl h ↦
              rw (establish_incomplete a c flow result now u r h) (inr (_, refl, used-IsUntouched))
          | inr h ↦ elim (Result-cases r) [
            | inr (e, p) ↦
                rw (p, establish_undrawn a c flow result now u e h)
                  (inr (_, refl, record { same_sessions = λ j. refl; same_tokens = refl }))
            | inl (id, p) ↦ elim (Option-cases (a.refuses (new_set result.tokens))) [
              | inr (e, refused) ↦ inr (
                _,
                ap (λ q. (establish (service a c now) flow result q now u).0) p
                    ∙ ap (λ q. q.0) (establish-rolled_back a c flow result now u id e h refused),
                let end =
                      ap (λ q. (establish (service a c now) flow result q now u).1) p
                      ∙ ap (λ q. q.1)
                          (establish-rolled_back a c flow result now u id e h refused) in
                    record {
                      same_sessions = λ j.
                          ap (λ v. lookup j v.sessions) end
                          ∙ erase-insert id _ w.sessions j (fresh id p);
                      same_tokens = ap (λ v. v.tokens) end;
                    },
              )
              | inl accepted ↦ inl (
                _,
                ap (λ q. (establish (service a c now) flow result q now u).0) p
                    ∙ ap (λ q. q.0) (establish_stored a c flow result now u id h accepted),
                record {
                  flow = flow;
                  stored = stored;
                  unexpired = ground (arith, valid);
                  result = result;
                  answered = answered;
                  complete = h;
                  id = id;
                  drawn = p;
                  returned = refl;
                  world =
                      ap (λ q. (establish (service a c now) flow result q now u).1) p
                      ∙ ap (λ q. q.1) (establish_stored a c flow result now u id h accepted);
                },
              )
            ]
          ]
        ]

  callback-Outcome :
      HasParameters a c code r now state w
      → ((id : String) → r ≡ ok id → lookup id w.sessions ≡ none)
      → Outcome (callback a c code r now state w)
  callback-Outcome given fresh = elim (Option-cases (lookup state w.flows)) [
    | inl e ↦ rw (callback_unknown a c code r now state w given e) (inr (_, refl, untouched))
    | inr (flow, e) ↦ elim (Bool-cases (is_after flow.expires_at now)) [
      | inr late ↦
          rw (callback_late a c code r now state w flow given e late)
            (inr (_, refl, used-IsUntouched))
      | inl valid ↦
          elim (Result-cases (a.exchange code flow.code_verifier c.redirect_uri flow.nonce)) [
            | inr (reason, refused) ↦
                rw (callback_refused a c code r now state w flow reason given e valid refused)
                  (inr (_, refl, used-IsUntouched))
            | inl (result, answered) ↦
                rw (callback_exchanged a c code r now state w flow result given e valid answered)
                  (exchanged-Outcome flow result given e valid answered fresh)
          ]
    ]
  ]

-- A callback with a state and a code either completes the login or leaves every session and token set
-- as it was, also where the token store refuses the set after the session was stored. It completes the
-- login only for an unexpired flow stored under the state, and where the provider accepts the code with
-- that flow's verifier and nonce and names a subject and an issuer; then both the session and its token
-- set are stored. The new identifier, where one is drawn, is of no session yet.
pub complete_callback-Outcome :
    (a : Answers) (c : Settings) (state code : String) (r : Random) (now : Time) (w : World)
    → HasParameters a c code r now state w
    → ((id : String) → r ≡ ok id → lookup id w.sessions ≡ none)
    → Outcome a c code r now state w (complete_callback (service a c now) state code r now w)
complete_callback-Outcome a c state code r now w given fresh =
    callback-Outcome a c code r now state w given fresh

-- The session is over: neither a session nor a token set is stored under the identifier, and those of
-- other identifiers are as before.
pub record IsLoggedOut (id : String) (w v : World) : Type 0 where
  pub no_session : lookup id v.sessions ≡ none
  pub no_tokens : lookup id v.tokens ≡ none
  pub other_sessions :
      (j : String) → str_eq id j ≡ false → lookup j v.sessions ≡ lookup j w.sessions
  pub other_tokens : (j : String) → str_eq id j ≡ false → lookup j v.tokens ≡ lookup j w.tokens

lookup-erase_other :
    {V : Type 0} (id : String) (m : Dict V) (j : String)
    → str_eq id j ≡ false
    → lookup j (erase id m) ≡ lookup j m
lookup-erase_other id m j h = rw (lookup-erase, h) refl

module _ (a : Answers) (c : Settings) (global : Bool) (now : Time) (id : String) (w : World)
    (named : str_eq id "" ≡ false) where
  -- the world without the session and its tokens
  abbrev without : Dict MemoryEntry → World
  without tokens = record w { sessions = erase id w.sessions; tokens = tokens }

  logout_missing :
      lookup id w.tokens ≡ none
      → (logout (service a c now) id global w).1 ≡ without (erase id w.tokens)
  unfolding logout Session.memory_delete Token.memory_get Token.memory_delete
  logout_missing e = elim (Bool-cases global) [
    | inl g ↦ rw (named, e, g) refl
    | inr g ↦ rw (named, e, g) refl
  ]

  logout_expired :
      (e : MemoryEntry)
      → lookup id w.tokens ≡ some e
      → has_expired e.expires_at now ≡ true
      → (logout (service a c now) id global w).1 ≡ without (erase id (erase id w.tokens))
  unfolding logout Session.memory_delete Token.memory_get Token.memory_delete
  logout_expired e stored late = elim (Bool-cases global) [
    | inl g ↦ rw (named, stored, late, g) refl
    | inr g ↦ rw (named, stored, late, g) refl
  ]

  logout_found :
      (e : MemoryEntry)
      → lookup id w.tokens ≡ some e
      → has_expired e.expires_at now ≡ false
      → (logout (service a c now) id global w).1 ≡ without (erase id w.tokens)
  unfolding logout Session.memory_delete Token.memory_get Token.memory_delete
  logout_found e stored valid = elim (Bool-cases global) [
    | inr g ↦ rw (named, stored, valid, g) refl
    | inl g ↦ elim (Bool-cases (str_eq e.set.id_token "")) [
      | inl t ↦ rw (named, stored, valid, g, t) refl
      | inr t ↦ rw (named, stored, valid, g, t) refl
    ]
  ]

  without-IsLoggedOut : IsLoggedOut id w (without (erase id w.tokens))
  without-IsLoggedOut = record {
    no_session = rw (lookup-erase, eq_refl id) refl;
    no_tokens = rw (lookup-erase, eq_refl id) refl;
    other_sessions = lookup-erase_other id w.sessions;
    other_tokens = lookup-erase_other id w.tokens;
  }

  without_twice-IsLoggedOut : IsLoggedOut id w (without (erase id (erase id w.tokens)))
  without_twice-IsLoggedOut = record {
    no_session = rw (lookup-erase, eq_refl id) refl;
    no_tokens = rw (lookup-erase, eq_refl id) refl;
    other_sessions = lookup-erase_other id w.sessions;
    other_tokens =
        λ j h. lookup-erase_other id (erase id w.tokens) j h ∙ lookup-erase_other id w.tokens j h;
  }

-- After a logout from stores that do not fail, with a session identifier that is not empty, local or
-- global, neither the session nor its token set is stored, and no other session is touched; so too where
-- the provider fails to give the URL of its end of session.
pub logout-IsLoggedOut :
    (a : Answers) (c : Settings) (global : Bool) (now : Time) (id : String) (w : World)
    → str_eq id "" ≡ false
    → IsLoggedOut id w (logout (service a c now) id global w).1
logout-IsLoggedOut a c global now id w named = elim (Option-cases (lookup id w.tokens)) [
  | inl e ↦
      rw (logout_missing a c global now id w named e)
        (without-IsLoggedOut a c global now id w named)
  | inr (e, stored) ↦ elim (Bool-cases (has_expired e.expires_at now)) [
    | inl late ↦
        rw (logout_expired a c global now id w named e stored late)
          (without_twice-IsLoggedOut a c global now id w named)
    | inr valid ↦
        rw (logout_found a c global now id w named e stored valid)
          (without-IsLoggedOut a c global now id w named)
  ]
]
