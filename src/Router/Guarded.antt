-- ===== src/Router/Guarded.antt =====
-- router.go: which requests come through the limits and the CSRF check, and what comes back.
use gateway_runtime.Prelude.{
  ℕ, ◌≤◌, String, true, false, ◌≡◌, refl, [], ◌∷◌, Option, ◌⊎◌, inl, inr, arith,
}
use gateway_runtime.Duration.{is_positive}
use gateway_runtime.Session.Lifecycle.{magnitude}
use gateway_runtime.Middleware.{
  Request, Response, Context, Handler, http_error, on_response, operational_path,
  max_request_body_bytes,
}
use gateway_runtime.Middleware.Csrf.{Origin, csrf, ensure_csrf_cookie}
use gateway_runtime.Middleware.CsrfLaws.{MayPass, csrf-MayPass}
use gateway_runtime.Middleware.Proxy.{Net, client_ip}
use gateway_runtime.Middleware.RateLimit.{Floats, Limiter, rate_limit, admit, matches_path_suffix}
use gateway_runtime.Router.Layers.{
  bounded, bounded_same, max_request_body_bytes_lem, concurrency_limit_lem, rate_limit_lem,
  ensure_csrf_cookie-status, ensure_csrf_cookie-body,
}
use gateway_runtime.Router.{
  RouterDeps, Draws, World, concurrency_limit, csrf_config, limits, auth_limits, guarded,
}

-- the application's part of the world, and the places in use
abbrev pub app_part : {F W : Type 0} → World F W → W
app_part v = v.1.1.1

abbrev pub places : {F W : Type 0} → World F W → ℕ
places v = v.1.1.0

module _ {F : Type 0} (net : Net) (fl : Floats F) (parse : String → Option Origin)
    (deps : RouterDeps F net.Network) (d : Draws) {W : Type 0} (app : Handler W) (r : Request)
    (v : World F W) where
  -- what `r` becomes on its way: the bound on its body and its context may differ
  pub record IsCarried (context : Context) (seen : Request) : Type 0 where
    pub same_method : seen.method ≡ r.method
    pub same_path : seen.path ≡ r.path
    pub same_headers : seen.header ≡ r.header
    pub same_cookies : seen.cookie ≡ r.cookie
    pub same_context : seen.context ≡ context

  -- The application was called once, for a request that the CSRF check lets pass.
  pub record HasPassed (context : Context) (p : Response × World F W) : Type 0 where
    pub seen : Request
    pub carried : IsCarried context seen
    pub allowed : MayPass parse (csrf_config net fl parse deps d app) seen
    pub effect : app_part p.1 ≡ (app seen (app_part v)).1
    pub status : p.0.status ≡ (app seen (app_part v)).0.status
    pub body : p.0.body ≡ (app seen (app_part v)).0.body

  -- no probe, and one of the two limiters has no token for the client
  abbrev pub IsThrottled : Type 0
  IsThrottled =
      (operational_path r.path ≡ false)
      × (((admit fl (limits net fl parse deps d app) d.now (client_ip net deps.trusted_proxy r)
              v.0).0
            ≡ false)
          ⊎ ((matches_path_suffix r.path ("/auth/login" ∷ []) ≡ true)
              × ((admit fl (auth_limits net fl parse deps d app) d.now
                    (client_ip net deps.trusted_proxy r) v.1.0).0
                  ≡ false)))

  -- no probe, and every place of the semaphore is taken
  abbrev pub IsFull : Type 0
  IsFull =
      (operational_path r.path ≡ false)
      × (is_positive deps.max_concurrency ≡ true)
      × (magnitude deps.max_concurrency ≤ places v)

  -- the CSRF check does not let it pass
  abbrev pub IsForged : Context → Type 0
  IsForged context =
      (seen : Request) × IsCarried context seen
      × ¬ MayPass parse (csrf_config net fl parse deps d app) seen

  -- The application was not called.
  pub record IsBlocked (context : Context) (p : Response × World F W) : Type 0 where
    pub untouched : app_part p.1 ≡ app_part v
    pub cause :
        ((p.0.status ≡ 429) × IsThrottled)
        ⊎ ((p.0.status ≡ 503) × IsFull)
        ⊎ ((p.0.status ≡ 403) × IsForged context)

  abbrev pub Outcome : Context → Response × World F W → Type 0
  Outcome context p = (places p.1 ≡ places v) × (HasPassed context p ⊎ IsBlocked context p)

  -- the request that the application sees
  abbrev bounded_request : Request
  bounded_request = bounded deps.max_request_body_bytes r

  bounded_request-IsCarried : IsCarried r.context bounded_request
  bounded_request-IsCarried =
      let (same_method, same_path, same_headers, same_cookies, same_context) =
        bounded_same deps.max_request_body_bytes r in
      record {
        same_method = same_method;
        same_path = same_path;
        same_headers = same_headers;
        same_cookies = same_cookies;
        same_context = same_context;
      }

  checked :
      (st st' : Limiter F) (q : Response × W)
      → (MayPass parse (csrf_config net fl parse deps d app) bounded_request
          × (q
              ≡ on_response
                  (ensure_csrf_cookie
                    (csrf_config net fl parse deps d app)
                    d.csrf_token
                    bounded_request)
                  (app bounded_request (app_part v))))
        ⊎ (¬ MayPass parse (csrf_config net fl parse deps d app) bounded_request
            × (message : String) × (q ≡ (
              ensure_csrf_cookie
                  (csrf_config net fl parse deps d app)
                  d.csrf_token
                  bounded_request
                  (http_error 403 message),
              app_part v,
            )))
      → Outcome r.context (q.0, (st, (st', (places v, q.1))))
  checked st st' q (inl (may, e)) = rw e (
    refl,
    inl (record {
      seen = bounded_request;
      carried = bounded_request-IsCarried;
      allowed = may;
      effect = refl;
      status =
          ensure_csrf_cookie-status (csrf_config net fl parse deps d app) d.csrf_token
            bounded_request _;
      body =
          ensure_csrf_cookie-body (csrf_config net fl parse deps d app) d.csrf_token bounded_request
            _;
    }),
  )
  checked st st' q (inr (may_not, message, e)) = rw e (
    refl,
    inr (record {
      untouched = refl;
      cause = inr (
          inr (
            ensure_csrf_cookie-status (csrf_config net fl parse deps d app) d.csrf_token
                bounded_request _,
            (bounded_request, bounded_request-IsCarried, may_not),
          ));
    }),
  )

  pub guarded-Outcome : Outcome r.context (guarded net fl parse deps d app r v)
  unfolding guarded
  guarded-Outcome =
      let client = client_ip net deps.trusted_proxy in
      let check = csrf parse (csrf_config net fl parse deps d app) d.csrf_token app in
      let bound = max_request_body_bytes deps.max_request_body_bytes check in
      let placed_ = concurrency_limit bound deps.max_concurrency in
      let auth = rate_limit fl (auth_limits net fl parse deps d app) client d.now placed_ in
      let seen = bounded_request in
      elim (rate_limit_lem fl (limits net fl parse deps d app) client d.now auth r v.0 v.1) [
        | inr (st, resp, status, plain, limited, bad, e) ↦
            rw e (refl, inr (record { untouched = refl; cause = inl (status, (plain, inl bad)) }))
        | inl (st, e) ↦
            elim (rate_limit_lem fl (auth_limits net fl parse deps d app) client d.now placed_ r
              v.1.0 v.1.1) [
                | inr (st', resp, status, plain, limited, bad, e') ↦
                    rw (e, e')
                      (
                        refl,
                        inr (record {
                          untouched = refl;
                          cause = inl (status, (plain, inr (ground (arith, limited), bad)));
                        }),
                      )
                | inl (st', e') ↦
                    elim (concurrency_limit_lem bound deps.max_concurrency r v.1.1.0 v.1.1.1) [
                      | inr (resp, status, plain, on, full, f) ↦
                          rw (e, e', f)
                            (
                              refl,
                              inr (record {
                                untouched = refl;
                                cause = inr (inl (status, (plain, on, full)));
                              }),
                            )
                      | inl f ↦
                          let g =
                            max_request_body_bytes_lem deps.max_request_body_bytes check r
                              v.1.1.1 in
                          rw (e, e', f, g)
                            (checked st st' (check seen v.1.1.1) (
                              csrf-MayPass parse (csrf_config net fl parse deps d app) d.csrf_token
                                app seen v.1.1.1))
                    ]
              ]
      ]
