-- ===== src/Middleware/CsrfLaws.antt =====
-- csrf.go: the requests that reach the handler behind the check.
use gateway_runtime.Prelude.{
  String, true, false, ◌≡◌, sym, refl, not, [], ◌∷◌, Option, none, some, str_eq, contains_str,
  Bool-cases, Option-cases, eq_iff, eq_refl, ◌⊎◌, inl, inr, not-eq-true, and-eq-true,
}
use gateway_runtime.Text.{equal_fold}
use gateway_runtime.Middleware.{Request, Handler, http_error, on_response}
use gateway_runtime.Middleware.Csrf.{
  Origin, CsrfConfig, csrf, refusal, name_of, origin_of, same_origin_with, constant_time_equal,
  ensure_csrf_cookie, value_of,
}

-- The request names an origin with the scheme and the host of the public URL.
pub record IsSameOrigin (parse : String → Option Origin) (cfg : CsrfConfig) (r : Request)
    : Type 0 where
  pub public : Origin
  pub sent : Origin
  pub configured : parse cfg.public_url ≡ some public
  pub named : str_eq (origin_of r) "" ≡ false
  pub parsed : parse (origin_of r) ≡ some sent
  pub scheme : equal_fold sent.scheme public.scheme ≡ true
  pub host : equal_fold sent.host public.host ≡ true

-- The header repeats the token of the cookie.
pub record RepeatsToken (cfg : CsrfConfig) (r : Request) : Type 0 where
  pub token : String
  pub cookie : r.cookie (name_of cfg) ≡ some token
  pub given : str_eq token "" ≡ false
  pub header : r.header "X-CSRF-Token" ≡ token

abbrev pub MayPass : (String → Option Origin) → CsrfConfig → Request → Type 0
MayPass parse cfg r =
    (contains_str ("GET" ∷ "HEAD" ∷ "OPTIONS" ∷ "TRACE" ∷ []) r.method ≡ true)
    ⊎ (IsSameOrigin parse cfg r × RepeatsToken cfg r)

module _ (parse : String → Option Origin) (cfg : CsrfConfig) (r : Request) where
  same_origin-true :
      IsSameOrigin parse cfg r → same_origin_with parse r (parse cfg.public_url) ≡ true
  same_origin-true h = rw (h.configured, h.named, h.parsed, h.scheme, h.host) refl

  IsSameOrigin-of :
      same_origin_with parse r (parse cfg.public_url) ≡ true → IsSameOrigin parse cfg r
  IsSameOrigin-of h = elim (Option-cases (parse cfg.public_url)) [
    | inl e ↦ absurd (cc (rw e at h))
    | inr (public, e) ↦ elim (Option-cases (parse (origin_of r))) [
      | inl e₁ ↦
          absurd (cc ((and-eq-true (not (str_eq (origin_of r) "")) false (rw (e, e₁) at h)).1))
      | inr (sent, e₁) ↦
          let (named, agree) = and-eq-true _ _ (rw (e, e₁) at h) in
          let (scheme, host) = and-eq-true _ _ agree in
          record {
            public = public;
            sent = sent;
            configured = e;
            named = not-eq-true _ named;
            parsed = e₁;
            scheme = scheme;
            host = host;
          }
    ]
  ]

  RepeatsToken-of :
      str_eq (value_of (r.cookie (name_of cfg))) "" ≡ false
      → constant_time_equal (value_of (r.cookie (name_of cfg))) (r.header "X-CSRF-Token") ≡ true
      → RepeatsToken cfg r
  unfolding constant_time_equal
  RepeatsToken-of given same = elim (Option-cases (r.cookie (name_of cfg))) [
    | inl e ↦ absurd (cc (rw e at given))
    | inr (token, e) ↦ record {
      token = token;
      cookie = e;
      given = rw e at given;
      header = sym (
          (eq_iff token (r.header "X-CSRF-Token")).0
            (and-eq-true (not (str_eq token "")) _ (rw e at same)).1);
    }
  ]

  repeats-true :
      (t : RepeatsToken cfg r) → constant_time_equal t.token (r.header "X-CSRF-Token") ≡ true
  unfolding constant_time_equal
  repeats-true t = rw (t.header, t.given, eq_refl t.token) refl

  refusal-MayPass : MayPass parse cfg r → refusal parse cfg r ≡ none
  unfolding refusal
  refusal-MayPass (inl harmless) = rw harmless refl
  refusal-MayPass (inr (origin, t)) =
      elim (Bool-cases (contains_str ("GET" ∷ "HEAD" ∷ "OPTIONS" ∷ "TRACE" ∷ []) r.method)) [
        | inl harmless ↦ rw harmless refl
        | inr unsafe ↦ rw (unsafe, same_origin-true origin, t.cookie, t.given, repeats-true t) refl
      ]

  MayPass-of : refusal parse cfg r ≡ none → MayPass parse cfg r
  unfolding refusal
  MayPass-of h =
      elim (Bool-cases (contains_str ("GET" ∷ "HEAD" ∷ "OPTIONS" ∷ "TRACE" ∷ []) r.method)) [
        | inl harmless ↦ inl harmless
        | inr unsafe ↦ elim (Bool-cases (same_origin_with parse r (parse cfg.public_url))) [
          | inr foreign ↦ absurd (cc (rw (unsafe, foreign) at h))
          | inl same ↦ elim (Bool-cases (str_eq (value_of (r.cookie (name_of cfg))) "")) [
            | inl missing ↦ absurd (cc (rw (unsafe, same, missing) at h))
            | inr given ↦
                elim (Bool-cases (
                  constant_time_equal (value_of (r.cookie (name_of cfg)))
                    (r.header "X-CSRF-Token"))) [
                      | inr other ↦ absurd (cc (rw (unsafe, same, given, other) at h))
                      | inl repeats ↦ inr (IsSameOrigin-of same, RepeatsToken-of given repeats)
                    ]
          ]
        ]
      ]

-- Behind the CSRF check stands the handler exactly for the requests that may pass: those whose method is
-- GET, HEAD, OPTIONS or TRACE, and those that name an origin with the scheme and host of the public URL
-- and repeat the token of their cookie in the header. Such a request is answered by the handler; any
-- other is answered 403 and changes nothing. Either way the cookie is set where the request has no token.
pub csrf-MayPass :
    {W : Type 0} (parse : String → Option Origin) (cfg : CsrfConfig) (token : String)
    (next : Handler W) (r : Request) (w : W)
    → (MayPass parse cfg r
        × (csrf parse cfg token next r w ≡ on_response (ensure_csrf_cookie cfg token r) (next r w)))
      ⊎ (¬ MayPass parse cfg r
          × (message : String) × (csrf parse cfg token next r w
              ≡ (ensure_csrf_cookie cfg token r (http_error 403 message), w)))
unfolding csrf
csrf-MayPass parse cfg token next r w = elim (Option-cases (refusal parse cfg r)) [
  | inl e ↦ inl (MayPass-of parse cfg r e, rw e refl)
  | inr (message, e) ↦ inr (λ h. cc (e, refusal-MayPass parse cfg r h), message, rw e refl)
]
