-- ===== src/Auth/SingleUse.antt =====
-- service.go and flow_store.go: what becomes of a flow in a callback, branch by branch.
use gateway_runtime.Prelude.{
  ◌+◌, ◌*◌, ◌≡◌, refl, ap, ◌∙◌, ◌⊎◌, inl, inr, String, true, false, ◌||◌, none, some, Result, ok,
  err, Option-cases, Bool-cases, Result-cases, str_eq, eq_refl,
}
use gateway_runtime.Prelude.Dict.{lookup, insert, erase, lookup-erase}
use gateway_runtime.Duration.{hour, positive_or}
use gateway_runtime.Session
use gateway_runtime.Session.{Time, Session, StoreError, is_after}
use gateway_runtime.Token
use gateway_runtime.Auth.{Flow, flow_not_found, memory_take, ExchangeResult}
use gateway_runtime.Auth.Service.{
  AuthError, flow_error, incomplete_identity, provider_failed, random_failed, token_error, Random,
  CallbackResult, complete_callback, establish, new_session, new_set,
}
use gateway_runtime.Auth.World.{World, Answers, Settings, service}

module _ (a : Answers) (c : Settings) (code : String) (r : Random) (now : Time) (state : String)
    (w : World) where
  -- both parameters of the callback were sent
  abbrev pub HasParameters : Type 0
  HasParameters = (str_eq state "" || str_eq code "") ≡ false

  abbrev pub callback : Result AuthError CallbackResult × World
  callback = complete_callback (service a c now) state code r now w

  -- the world in which the flow is used up
  abbrev pub used : World
  used = record w { flows = erase state w.flows }

  pub callback_unknown :
      HasParameters → lookup state w.flows ≡ none → callback ≡ (err (flow_error flow_not_found), w)
  unfolding complete_callback memory_take
  callback_unknown given e = rw (given, e) refl

  pub callback_late :
      (flow : Flow)
      → HasParameters
      → lookup state w.flows ≡ some flow
      → is_after flow.expires_at now ≡ false
      → callback ≡ (err (flow_error flow_not_found), used)
  unfolding complete_callback memory_take
  callback_late flow given e late = rw (given, e, late) refl

  pub callback_refused :
      (flow : Flow) (reason : String)
      → HasParameters
      → lookup state w.flows ≡ some flow
      → is_after flow.expires_at now ≡ true
      → a.exchange code flow.code_verifier c.redirect_uri flow.nonce ≡ err reason
      → callback ≡ (err (provider_failed reason), used)
  unfolding complete_callback memory_take
  callback_refused flow reason given e valid refused = rw (given, e, valid, refused) refl

  -- from the provider's result on, what is left is to establish the session
  pub callback_exchanged :
      (flow : Flow) (result : ExchangeResult)
      → HasParameters
      → lookup state w.flows ≡ some flow
      → is_after flow.expires_at now ≡ true
      → a.exchange code flow.code_verifier c.redirect_uri flow.nonce ≡ ok result
      → callback ≡ establish (service a c now) flow result r now used
  unfolding complete_callback memory_take
  callback_exchanged flow result given e valid answered = rw (given, e, valid, answered) refl

module _ (a : Answers) (c : Settings) (flow : Flow) (result : ExchangeResult) (now : Time)
    (w : World) where
  -- the provider named a subject and an issuer
  abbrev pub IsComplete : Type 0
  IsComplete = (str_eq result.identity.subject "" || str_eq result.identity.issuer "") ≡ false

  pub establish_incomplete :
      (r : Random)
      → (str_eq result.identity.subject "" || str_eq result.identity.issuer "") ≡ true
      → establish (service a c now) flow result r now w ≡ (err incomplete_identity, w)
  establish_incomplete r h = rw h refl

  pub establish_undrawn :
      (e : String)
      → IsComplete
      → establish (service a c now) flow result (err e) now w ≡ (err (random_failed e), w)
  establish_undrawn e h = rw h refl

  abbrev pub expiry : Time
  expiry = now + positive_or c.session_ttl (8 * hour)

  abbrev pub stored_session : String → Session
  stored_session id = new_session id result.identity now expiry

  -- the world in which the session was stored and, for a refused token set, deleted again
  abbrev pub rolled_back : String → World
  rolled_back id = record w { sessions = erase id (insert id (stored_session id) w.sessions) }

  pub establish-rolled_back :
      (id : String) (e : StoreError)
      → IsComplete
      → a.refuses (new_set result.tokens) ≡ some e
      → establish (service a c now) flow result (ok id) now w
        ≡ (err (token_error e), rolled_back id)
  unfolding Session.memory_put Session.memory_delete
  establish-rolled_back id e h refused = rw (h, refused) refl

  abbrev pub callback_result : String → CallbackResult
  callback_result id = record {
    session_id = id;
    subject = result.identity.subject;
    username = result.identity.username;
    return_to = flow.return_to;
    expires_at = expiry;
  }

  -- the world in which the session and its token set are stored
  abbrev pub established : String → World
  established id = record w {
    sessions = insert id (stored_session id) w.sessions;
    tokens = insert id (record { set = new_set result.tokens; expires_at = expiry }) w.tokens;
  }

  pub establish_stored :
      (id : String)
      → IsComplete
      → a.refuses (new_set result.tokens) ≡ none
      → establish (service a c now) flow result (ok id) now w
        ≡ (ok (callback_result id), established id)
  unfolding Session.memory_put Token.memory_put
  establish_stored id h accepted = rw (h, accepted) refl

  -- establishing a session leaves the flows as they are
  pub establish-flows :
      (r : Random) → (establish (service a c now) flow result r now w).1.flows ≡ w.flows
  establish-flows r =
      elim (Bool-cases (str_eq result.identity.subject "" || str_eq result.identity.issuer "")) [
        | inl h ↦ rw (establish_incomplete r h) refl
        | inr h ↦ elim (Result-cases r) [
          | inr (e, p) ↦ rw (p, establish_undrawn e h) refl
          | inl (id, p) ↦ elim (Option-cases (a.refuses (new_set result.tokens))) [
            | inl accepted ↦ rw (p, establish_stored id h accepted) refl
            | inr (e, refused) ↦ rw (p, establish-rolled_back id e h refused) refl
          ]
        ]
      ]

module _ (a : Answers) (c : Settings) (code : String) (r : Random) (now : Time) (state : String)
    (w : World) where
  pub callback-flows :
      HasParameters a c code r now state w
      → (callback a c code r now state w).1.flows ≡ w.flows × (lookup state w.flows ≡ none)
        ⊎ ((callback a c code r now state w).1.flows ≡ erase state w.flows)
  callback-flows given = elim (Option-cases (lookup state w.flows)) [
    | inl e ↦ inl (ap (λ p. p.1.flows) (callback_unknown a c code r now state w given e), e)
    | inr (flow, e) ↦ elim (Bool-cases (is_after flow.expires_at now)) [
      | inr late ↦
          inr (ap (λ p. p.1.flows) (callback_late a c code r now state w flow given e late))
      | inl valid ↦
          elim (Result-cases (a.exchange code flow.code_verifier c.redirect_uri flow.nonce)) [
            | inr (reason, refused) ↦ inr (
                ap (λ p. p.1.flows)
                  (callback_refused a c code r now state w flow reason given e valid refused))
            | inl (result, answered) ↦ inr (
                ap (λ p. p.1.flows)
                  (callback_exchanged a c code r now state w flow result given e valid answered)
                ∙ establish-flows a c flow result now (used a c code r now state w) r)
          ]
    ]
  ]

  pub state-gone :
      HasParameters a c code r now state w
      → lookup state (callback a c code r now state w).1.flows ≡ none
  state-gone given = elim (callback-flows given) [
    | inl (same, e) ↦ rw same e
    | inr gone ↦ rw gone (rw (lookup-erase, eq_refl state) refl)
  ]

-- A second callback with the same state fails with the error for an unknown flow, and changes nothing,
-- whatever the first one returned, with any code and at any time. Both callbacks are sent a state and a
-- code that are not empty.
pub state-single_use :
    (a : Answers) (c : Settings) (state code₁ code₂ : String) (r₁ r₂ : Random) (now₁ now₂ : Time)
    (w : World)
    → HasParameters a c code₁ r₁ now₁ state w
    → HasParameters a c code₂ r₂ now₂ state w
    → let after = (complete_callback (service a c now₁) state code₁ r₁ now₁ w).1 in
      complete_callback (service a c now₂) state code₂ r₂ now₂ after
      ≡ (err (flow_error flow_not_found), after)
state-single_use a c state code₁ code₂ r₁ r₂ now₁ now₂ w given₁ given₂ =
    callback_unknown a c code₂ r₂ now₂ state (callback a c code₁ r₁ now₁ state w).1 given₂
      (state-gone a c code₁ r₁ now₁ state w given₁)
