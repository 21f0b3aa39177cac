-- ===== src/Router/Layers.antt =====
-- router.go: what each layer of the middleware does with a request.
use gateway_runtime.Prelude.{
  ℕ, suc, ◌≤◌, ◌-◌, ◌||◌, String, true, false, ◌≡◌, refl, not, ◌&&◌, some, ◌⊎◌, inl, inr,
  Bool-cases, ltb, is_empty, if◌then◌else◌, arith,
}
use gateway_runtime.Duration.{ℤ, is_positive}
use gateway_runtime.Session.{Time}
use gateway_runtime.Session.Lifecycle.{magnitude}
use gateway_runtime.Middleware.{
  Request, Response, Handler, http_error, with_header, operational_path, max_request_body_bytes,
}
use gateway_runtime.Middleware.Csrf.{CsrfConfig, ensure_csrf_cookie}
use gateway_runtime.Middleware.RateLimit.{
  Floats, RateLimitConfig, Limiter, rate_limit, admit, matches_path_suffix,
}
use gateway_runtime.Middleware.Concurrency.{server_busy, arrive, leave}
use gateway_runtime.Router.{concurrency_limit}

-- the request with the bound on its body
abbrev pub bounded : ℤ → Request → Request
bounded limit r = if is_positive limit then record r { limit = some limit } else r

pub bounded_same :
    (limit : ℤ) (r : Request)
    → ((bounded limit r).method ≡ r.method)
      × ((bounded limit r).path ≡ r.path)
      × ((bounded limit r).header ≡ r.header)
      × ((bounded limit r).cookie ≡ r.cookie)
      × ((bounded limit r).context ≡ r.context)
bounded_same limit r = elim (Bool-cases (is_positive limit)) [
  | inl e ↦ rw e (refl, refl, refl, refl, refl)
  | inr e ↦ rw e (refl, refl, refl, refl, refl)
]

pub max_request_body_bytes_lem :
    {W : Type 0} (limit : ℤ) (next : Handler W) (r : Request) (w : W)
    → max_request_body_bytes limit next r w ≡ next (bounded limit r) w
unfolding max_request_body_bytes
max_request_body_bytes_lem limit next r w = elim (Bool-cases (is_positive limit)) [
  | inl e ↦ rw e refl
  | inr e ↦ rw e refl
]

pub concurrency_limit_lem :
    {W : Type 0} (next : Handler W) (limit : ℤ) (r : Request) (taken : ℕ) (w : W)
    → (concurrency_limit next limit r (taken, w) ≡ ((next r w).0, (taken, (next r w).1)))
      ⊎ ((resp : Response) × (resp.status ≡ 503)
          × (operational_path r.path ≡ false)
          × (is_positive limit ≡ true)
          × (magnitude limit ≤ taken)
          × (concurrency_limit next limit r (taken, w) ≡ (resp, (taken, w))))
unfolding concurrency_limit arrive leave
concurrency_limit_lem next limit r taken w = elim (Bool-cases (not (is_positive limit))) [
  | inl off ↦ inl (rw off refl)
  | inr on ↦ elim (Bool-cases (operational_path r.path)) [
    | inl probe ↦ inl (rw (on, probe) refl)
    | inr plain ↦ elim (Bool-cases (ltb taken (magnitude limit))) [
      | inl room ↦
          let back : suc taken - 1 ≡ taken = omega arith in inl (rw (on, plain, room, back) refl)
      | inr full ↦ inr (
        server_busy,
        refl,
        plain,
        ground (arith, on),
        ground (arith, full),
        rw (on, plain, full) refl,
      )
    ]
  ]
]

module _ {F : Type 0} (fl : Floats F) (cfg : RateLimitConfig F) {W : Type 0}
    (client : Request → String) (now : Time) (next : Handler W) (r : Request) (st : Limiter F)
    (w : W) where
  pub rate_limit_lem :
      ((st' : Limiter F) × (rate_limit fl cfg client now next r (st, w)
          ≡ ((next r w).0, (st', (next r w).1))))
      ⊎ ((st' : Limiter F) × (resp : Response) × (resp.status ≡ 429)
          × (operational_path r.path ≡ false)
          × ((not (is_empty cfg.path_suffixes)
                && not (matches_path_suffix r.path cfg.path_suffixes))
              ≡ false)
          × ((admit fl cfg now (client r) st).0 ≡ false)
          × (rate_limit fl cfg client now next r (st, w) ≡ (resp, (st', w))))
  unfolding rate_limit
  rate_limit_lem =
      elim (Bool-cases (not (fl.above_zero cfg.rate_per_second) || not (is_positive cfg.burst))) [
        | inl off ↦ inl (st, rw off refl)
        | inr on ↦ elim (Bool-cases (operational_path r.path)) [
          | inl probe ↦ inl (st, rw (on, probe) refl)
          | inr plain ↦
              elim (Bool-cases (
                not (is_empty cfg.path_suffixes)
                && not (matches_path_suffix r.path cfg.path_suffixes))) [
                  | inl other ↦ inl (st, rw (on, plain, other) refl)
                  | inr limited ↦ elim (Bool-cases (admit fl cfg now (client r) st).0) [
                    | inl good ↦
                        inl ((admit fl cfg now (client r) st).1, rw (on, plain, limited, good) refl)
                    | inr bad ↦ inr (
                      (admit fl cfg now (client r) st).1,
                      with_header "Retry-After" "1" (http_error 429 "rate limit exceeded"),
                      refl,
                      plain,
                      limited,
                      bad,
                      rw (on, plain, limited, bad) refl,
                    )
                  ]
                ]
        ]
      ]

pub ensure_csrf_cookie-status :
    (cfg : CsrfConfig) (token : String) (r : Request) (resp : Response)
    → (ensure_csrf_cookie cfg token r resp).status ≡ resp.status
unfolding ensure_csrf_cookie
ensure_csrf_cookie-status cfg token r resp = ground arith

pub ensure_csrf_cookie-body :
    (cfg : CsrfConfig) (token : String) (r : Request) (resp : Response)
    → (ensure_csrf_cookie cfg token r resp).body ≡ resp.body
unfolding ensure_csrf_cookie
ensure_csrf_cookie-body cfg token r resp = ground arith
