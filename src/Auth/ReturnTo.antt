-- ===== src/Auth/ReturnTo.antt =====
-- service.go: where a login goes back to, from `StartLogin` to the end of the callback.
use gateway_runtime.Prelude.{
  ◌+◌, ◌*◌, ◌≡◌, refl, ap, sym, ◌∙◌, ◌⊎◌, inl, inr, String, true, false, ◌||◌, Option, none, some,
  Result, ok, err, Bool-cases, Result-cases, some_inj, ok-injective, [], str_eq,
}
use gateway_runtime.Prelude.Dict.{lookup, insert, erase, lookup-insert, lookup-erase}
use gateway_runtime.Duration.{minute, positive_or}
use gateway_runtime.Session.{Time}
use gateway_runtime.Auth.{Flow, memory_put, Url, safe_local_return_to}
use gateway_runtime.Auth.Service.{
  AuthError, invalid_return_to, random_failed, Random, CallbackResult, or_root, start_login,
  complete_callback,
}
use gateway_runtime.Auth.World.{World, Answers, Settings, service}
use gateway_runtime.Auth.SingleUse.{HasParameters, callback, callback-flows}
use gateway_runtime.Auth.Outcome.{complete_callback-Outcome}

module _ (parse : String → Option Url) (challenge : String → String) (a : Answers) (c : Settings)
    (return_to : String) (r₁ r₂ r₃ : Random) (now : Time) (w : World) where
  abbrev pub login : Result AuthError String × World
  login = start_login (service a c now) parse challenge return_to r₁ r₂ r₃ now w

  abbrev pub new_flow : String → String → String → Flow
  new_flow state nonce verifier = record {
    state = state;
    nonce = nonce;
    code_verifier = verifier;
    return_to = or_root return_to;
    expires_at = now + positive_or c.flow_ttl (5 * minute);
  }

  -- the world with the flow of this login
  abbrev pub begun : Flow → World
  begun flow = record w { flows = insert flow.state flow w.flows }

  -- A login that was begun: its target is safe, and its flow is stored under the state.
  pub record IsBegun (v : World) : Type 0 where
    pub state : String
    pub nonce : String
    pub verifier : String
    pub safe : safe_local_return_to parse (or_root return_to) ≡ true
    pub drawn : (r₁ ≡ ok state) × (r₂ ≡ ok nonce) × (r₃ ≡ ok verifier)
    pub world : v ≡ begun (new_flow state nonce verifier)

  login_unsafe :
      safe_local_return_to parse (or_root return_to) ≡ false → login ≡ (err invalid_return_to, w)
  unfolding start_login
  login_unsafe h = rw h refl

  login_undrawn₁ :
      (e : String)
      → safe_local_return_to parse (or_root return_to) ≡ true
      → r₁ ≡ err e
      → login ≡ (err (random_failed e), w)
  unfolding start_login
  login_undrawn₁ e h p = rw (h, p) refl

  login_undrawn₂ :
      (state e : String)
      → safe_local_return_to parse (or_root return_to) ≡ true
      → r₁ ≡ ok state
      → r₂ ≡ err e
      → login ≡ (err (random_failed e), w)
  unfolding start_login
  login_undrawn₂ state e h p q = rw (h, p, q) refl

  login_undrawn₃ :
      (state nonce e : String)
      → safe_local_return_to parse (or_root return_to) ≡ true
      → r₁ ≡ ok state
      → r₂ ≡ ok nonce
      → r₃ ≡ err e
      → login ≡ (err (random_failed e), w)
  unfolding start_login
  login_undrawn₃ state nonce e h p q s = rw (h, p, q, s) refl

  login_begun :
      (state nonce verifier : String)
      → safe_local_return_to parse (or_root return_to) ≡ true
      → r₁ ≡ ok state
      → r₂ ≡ ok nonce
      → r₃ ≡ ok verifier
      → login.1 ≡ begun (new_flow state nonce verifier)
  unfolding start_login memory_put
  login_begun state nonce verifier h p q s = rw (h, p, q, s) refl

  pub IsBegun-or_same : IsBegun login.1 ⊎ (((e : AuthError) × (login.0 ≡ err e)) × (login.1 ≡ w))
  IsBegun-or_same = elim (Bool-cases (safe_local_return_to parse (or_root return_to))) [
    | inr h ↦ inr ((_, ap (λ p. p.0) (login_unsafe h)), ap (λ p. p.1) (login_unsafe h))
    | inl h ↦ elim (Result-cases r₁) [
      | inr (e, p) ↦
          inr ((_, ap (λ p. p.0) (login_undrawn₁ e h p)), ap (λ p. p.1) (login_undrawn₁ e h p))
      | inl (state, p) ↦ elim (Result-cases r₂) [
        | inr (e, q) ↦ inr (
          (_, ap (λ p. p.0) (login_undrawn₂ state e h p q)),
          ap (λ p. p.1) (login_undrawn₂ state e h p q),
        )
        | inl (nonce, q) ↦ elim (Result-cases r₃) [
          | inr (e, s) ↦ inr (
            (_, ap (λ p. p.0) (login_undrawn₃ state nonce e h p q s)),
            ap (λ p. p.1) (login_undrawn₃ state nonce e h p q s),
          )
          | inl (verifier, s) ↦ inl (record {
            state = state;
            nonce = nonce;
            verifier = verifier;
            safe = h;
            drawn = (p, q, s);
            world = login_begun state nonce verifier h p q s;
          })
        ]
      ]
    ]
  ]

-- every flow goes back to a target that is safe
abbrev pub IsSafe : (String → Option Url) → World → Type 0
IsSafe parse w =
    (k : String) (flow : Flow)
    → lookup k w.flows ≡ some flow
    → safe_local_return_to parse flow.return_to ≡ true

IsSafe-login :
    (parse : String → Option Url) (challenge : String → String) (a : Answers) (c : Settings)
    (return_to : String) (r₁ r₂ r₃ : Random) (now : Time) (w : World)
    → IsSafe parse w
    → IsSafe parse (login parse challenge a c return_to r₁ r₂ r₃ now w).1
IsSafe-login parse challenge a c return_to r₁ r₂ r₃ now w h =
    elim (IsBegun-or_same parse challenge a c return_to r₁ r₂ r₃ now w) [
      | inr (_, same) ↦ rw same h
      | inl b ↦ rw b.world (λ k flow e. elim (Bool-cases (str_eq b.state k)) [
        | inl here ↦ rw (sym (some_inj (rw (lookup-insert, here) at e))) b.safe
        | inr other ↦ h k flow (rw (lookup-insert, other) at e)
      ])
    ]

IsSafe-erase :
    (parse : String → Option Url) (k : String) (w v : World)
    → v.flows ≡ erase k w.flows
    → IsSafe parse w
    → IsSafe parse v
IsSafe-erase parse k w v gone h j flow e = elim (Bool-cases (str_eq k j)) [
  | inl here ↦ absurd (cc (rw (gone, lookup-erase, here) at e))
  | inr other ↦ h j flow (rw (gone, lookup-erase, other) at e)
]

-- The operations on the flows, from a process without flows.
pub data Reached (parse : String → Option Url) (challenge : String → String) (a : Answers)
    (c : Settings) : World → Type 0 where
  start : (w : World) → w.flows ≡ [] → Reached parse challenge a c w
  begin :
      {w : World} (return_to : String) (r₁ r₂ r₃ : Random) (now : Time)
      → Reached parse challenge a c w
      → Reached parse challenge a c
          (start_login (service a c now) parse challenge return_to r₁ r₂ r₃ now w).1
  complete :
      {w : World} (state code : String) (r : Random) (now : Time)
      → Reached parse challenge a c w
      → Reached parse challenge a c (complete_callback (service a c now) state code r now w).1

IsSafe-callback :
    (parse : String → Option Url) (a : Answers) (c : Settings) (state code : String) (r : Random)
    (now : Time) (w : World)
    → IsSafe parse w
    → IsSafe parse (complete_callback (service a c now) state code r now w).1
unfolding complete_callback
IsSafe-callback parse a c state code r now w h =
    elim (Bool-cases (str_eq state "" || str_eq code "")) [
      | inl missing ↦ rw missing h
      | inr given ↦ elim (callback-flows a c code r now state w given) [
        | inl (same, _) ↦ λ k flow e. h k flow (ap (lookup k) (sym same) ∙ e)
        | inr gone ↦ IsSafe-erase parse state w (callback a c code r now state w).1 gone h
      ]
    ]

Reached-IsSafe :
    {parse : String → Option Url} {challenge : String → String} {a : Answers} {c : Settings}
    {w : World}
    → Reached parse challenge a c w
    → IsSafe parse w
unfolding lookup
Reached-IsSafe (start w h) = λ k flow e. absurd (cc (rw h at e))
Reached-IsSafe {parse} {challenge} {a} {c} (begin {w} return_to r₁ r₂ r₃ now before) =
    IsSafe-login parse challenge a c return_to r₁ r₂ r₃ now w (Reached-IsSafe before)
Reached-IsSafe {parse} {challenge} {a} {c} (complete {w} state code r now before) =
    IsSafe-callback parse a c state code r now w (Reached-IsSafe before)

-- In a process that started without flows, after any logins and callbacks, a callback that completes a
-- login sends the browser back to a target that `safeLocalReturnTo` accepts. The new identifier, where
-- one is drawn, is of no session yet.
pub return_to-IsSafe :
    {parse : String → Option Url} {challenge : String → String} {a : Answers} {c : Settings}
    {w : World} (state code : String) (r : Random) (now : Time) (res : CallbackResult)
    → Reached parse challenge a c w
    → HasParameters a c code r now state w
    → ((id : String) → r ≡ ok id → lookup id w.sessions ≡ none)
    → (complete_callback (service a c now) state code r now w).0 ≡ ok res
    → safe_local_return_to parse res.return_to ≡ true
return_to-IsSafe {a = a} {c = c} {w = w} state code r now res before given fresh done =
    elim (complete_callback-Outcome a c state code r now w given fresh) [
      | inr (e, failed, _) ↦ absurd (cc (done, failed))
      | inl (res₂, p, m) ↦
          let same = ok-injective (sym done ∙ p) ∙ m.returned in
          rw (ap (λ x. x.return_to) same) (Reached-IsSafe before state m.flow m.stored)
    ]
