-- ===== src/Auth/SignedOut.antt =====
-- http.go over stores that may fail: the answer to a logout, and what a browser finds after it.
use gateway_runtime.Prelude.{String, Bool, true, ◌≡◌, ◌⊎◌, [], ◌∷◌, Option, none, some}
use gateway_runtime.Prelude.Dict.{lookup}
use gateway_runtime.Prelude.Exec.{Exec}
use gateway_runtime.Text.{equal_fold}
use gateway_runtime.Duration.{negsuc}
use gateway_runtime.Session
use gateway_runtime.Session.{Session, Time}
use gateway_runtime.Auth.World.{World, Answers, Settings, Outages, unsteady}
use gateway_runtime.Auth.Unsteady.{StoresWork, StoresFail, ProviderFails}
use gateway_runtime.Auth.Handlers.{AuthHandler, Draws, name_of, session_cookie}
use gateway_runtime.UserContext.{Resolver}
use gateway_runtime.Middleware.{Request, Response, http_error}
use gateway_runtime.Middleware.Authorization.{Sink, Event}

-- The rest of the process: it leaves the sessions alone.
pub record Surroundings : Type 0 where
  pub user_context : Option (Resolver World)
  pub forget : String → Exec String World (Unit {0})
  pub audit : Sink World
  pub secure : Bool
  pub cookie_name : String
  pub forget_quiet : (key : String) (w : World) → (forget key w).1.sessions ≡ w.sessions
  pub audit_quiet : (e : Event) (w : World) → (audit e w).1.sessions ≡ w.sessions

-- the handlers of the process while its clock reads `now`
abbrev pub handler_at : Answers → Settings → Outages → Surroundings → Time → AuthHandler World
handler_at a c o s now = record {
  service = unsteady a c o now;
  user_context = s.user_context;
  delete = some s.forget;
  audit = some s.audit;
  secure = s.secure;
  cookie_name = s.cookie_name;
}

module _ (a : Answers) (c : Settings) (o : Outages) (s : Surroundings) (now : Time) (d : Draws)
    (r : Request) (id : String) (stored : Session) (w : World) where
  abbrev pub is_global : Bool
  is_global = equal_fold (r.query "global") "true"

  -- no session is stored any more, and `answer` says so
  abbrev pub IsSignedOut : World → Response → Type 0
  IsSignedOut v answer = (lookup id v.sessions ≡ none) × (answer ≡ http_error 401 "unauthorized")

  -- What a logout ends in; `answer` is the answer to the next request for the user's context.
  abbrev pub Outcome : Response × World → Response → Type 0
  Outcome p answer =
      (StoresWork o id
        × (p.0.status ≡ 303)
        × (p.0.cookies
            ≡ (
              name_of (handler_at a c o s now) d,
              session_cookie (handler_at a c o s now) d "" 0 (negsuc 0),
            )
              ∷ [])
        × IsSignedOut p.1 answer)
      ⊎ (StoresWork o id
          × (is_global ≡ true)
          × ProviderFails a c now id w
          × (p.0 ≡ http_error 503 "logout unavailable")
          × IsSignedOut p.1 answer)
      ⊎ (StoresFail o id
          × (p.0 ≡ http_error 503 "logout unavailable")
          × (lookup id p.1.sessions ≡ some stored))
