-- ===== src/Middleware/Permitted.antt =====
-- authorization.go over the sessions of lifecycle.go and memory.go and the static policy of static.go.
use gateway_runtime.Prelude.{ℕ, String, true, false, ◌≡◌, Option, some, str_eq, ◌⊎◌}
use gateway_runtime.Prelude.Dict.{Dict, lookup}
use gateway_runtime.Session.{Session, Time}
use gateway_runtime.Session.Lifecycle.{lifecycle_store}
use gateway_runtime.Session.Expiry.{Limits, over, IsLive, seen, recorded}
use gateway_runtime.Policy.{Static, static_evaluator}
use gateway_runtime.Policy.Laws.{grants}
use gateway_runtime.Middleware.{Request, Response, Handler, http_error}
use gateway_runtime.Middleware.Authorization.{
  Sink, Stamp, require_permission, emit_decision, actor_of, Actor,
}

-- The request's cookie names a live session, and one of its roles has the permission.
pub record IsPermitted (l : Limits) (now : Time) (p : Static) (permission cookie_name : String)
    (r : Request) (w : Dict Session) (s : Session) : Type 0 where
  pub id : String
  pub cookie : r.cookie cookie_name ≡ some id
  pub given : str_eq id "" ≡ false
  pub stored : lookup id w ≡ some s
  pub live : IsLive l now s
  pub granted : grants p.role_permissions s.roles permission ≡ true

module _ (l : Limits) (now : Time) (p : Static) (sink : Option (Sink (Dict Session)))
    (stamp : Stamp) (permission cookie_name : String) (next : Handler (Dict Session)) (r : Request)
    (w : Dict Session) where
  abbrev pub guarded : Response × Dict Session
  guarded =
      require_permission sink stamp permission cookie_name (lifecycle_store (over l now) now)
        (some (static_evaluator p)) next r w

  -- the handler, called with the session as the store returns it
  abbrev pub continued : Session → Response × Dict Session
  continued s =
      next (record r { context = record r.context { session = some (seen l now s) } })
        (emit_decision sink stamp permission r (actor_of (seen l now s)) "allow" "authorized" 0
          (recorded l now s w))

  -- what the store's reading of the request's session leaves
  abbrev pub IsRead : Dict Session → Type 0
  IsRead v =
      (v ≡ w)
      ⊎ ((id : String) × (r.cookie cookie_name ≡ some id)
          × (v ≡ ((lifecycle_store (over l now) now).get id w).1))

  -- Answered without the handler: an error and its audit event are all that is added to what the
  -- reading of the session leaves.
  pub record IsRefused (status : ℕ) : Type 0 where
    pub message : String
    pub outcome : String
    pub reason : String
    pub actor : Actor
    pub left : Dict Session
    pub read : IsRead left
    pub result : guarded ≡ (
      http_error status message,
      emit_decision sink stamp permission r actor outcome reason status left,
    )

  abbrev pub NotPermitted : Type 0
  NotPermitted = (s : Session) → ¬ IsPermitted l now p permission cookie_name r w s
