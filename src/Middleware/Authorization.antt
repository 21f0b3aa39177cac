-- ===== src/Middleware/Authorization.antt =====
-- authorization.go: the permission that a route asks for, and the audit events of audit.go. An event's
-- identifier and time are drawn outside (`Stamp`); metrics are left out.
use Prim.Native.String.{◌++◌}
use gateway_runtime.Prelude.{
  ℕ, String, Bool, true, false, [], ◌∷◌, Option, none, some, Result, ok, err, str_eq, if◌then◌else◌,
}
use gateway_runtime.Prelude.Dict.{Dict}
use gateway_runtime.Prelude.Exec.{Exec}
use gateway_runtime.Session
use gateway_runtime.Session.{Session, StoreError, not_found, Time}
use gateway_runtime.Policy
use gateway_runtime.Policy.{Subject}
use gateway_runtime.Middleware.{Request, Response, Handler, http_error}

pub record Event : Type 0 where
  pub id : String
  pub occurred_at : Time
  pub actor : String
  pub actor_username : String
  pub client_ip : String
  pub client_ip_source : String
  pub cf_ray : String
  pub action : String
  pub target : String
  pub resource_id : String
  pub outcome : String
  pub http_status : ℕ
  pub correlation_id : String
  pub trace_id : String
  pub attributes : Dict String

-- the interface `audit.Sink`; the code drops its error
abbrev pub Sink : Type 0 → Type 0
Sink W = Event → Exec String W (Unit {0})

pub record Stamp : Type 0 where
  pub id : String
  pub at : Time

-- `audit.NewEvent`
abbrev pub new_event : Stamp → String → String → String → Event
new_event stamp action target outcome = record {
  id = stamp.id;
  occurred_at = stamp.at;
  actor = "";
  actor_username = "";
  client_ip = "";
  client_ip_source = "";
  cf_ray = "";
  action = action;
  target = target;
  resource_id = "";
  outcome = outcome;
  http_status = 0;
  correlation_id = "";
  trace_id = "";
  attributes = [];
}

-- `EnrichAuditEvent`
abbrev pub enrich_audit_event : Request → Event → Event
enrich_audit_event r e = record e {
  client_ip = r.context.client_ip;
  client_ip_source = r.context.client_ip_source;
  cf_ray = r.context.cf_ray;
  correlation_id = r.context.request_id;
  trace_id = r.context.trace_id;
}

-- `_ = sink.Append(ctx, e)`, where there is a sink
abbrev pub append_event : {W : Type 0} → Option (Sink W) → Event → W → W
append_event none e w = w
append_event (some sink) e w = (sink e w).1

pub record Actor : Type 0 where
  pub subject : String
  pub username : String

abbrev pub nobody : Actor
nobody = record { subject = ""; username = "" }

abbrev pub actor_of : Session → Actor
actor_of s = record { subject = s.subject; username = s.username }

abbrev decision_event : Stamp → Request → Actor → String → String → String → ℕ → Event
decision_event stamp r actor permission outcome reason status =
    record (enrich_audit_event r
      (new_event stamp ("authorization." ++ outcome) permission outcome)) {
        actor = actor.subject;
        actor_username = actor.username;
        http_status = status;
        attributes =
            ("reason", reason) ∷ ("request_method", r.method) ∷ ("request_path", r.path) ∷ [];
      }

module _ {W : Type 0} (sink : Option (Sink W)) (stamp : Stamp) (permission : String) where
  -- `emitDecision`
  unfoldable pub emit_decision : Request → Actor → String → String → ℕ → W → W
  emit_decision r actor outcome reason status w =
      append_event sink (decision_event stamp r actor permission outcome reason status) w

  -- `emitDecision` and `http.Error`
  abbrev pub refuse : Request → Actor → String → String → ℕ → String → W → Response × W
  refuse r actor outcome reason status message w =
      (http_error status message, emit_decision r actor outcome reason status w)

  abbrev subject_of : Session → Subject
  subject_of s = record { id = s.subject; roles = s.roles }

  abbrev decided : Request → Session → Handler W → Result String Bool → W → Response × W
  decided r s next (err e) w =
      refuse r (actor_of s) "error" "policy_error" 503 "authorization unavailable" w
  decided r s next (ok false) w = refuse r (actor_of s) "deny" "permission_denied" 403 "forbidden" w
  decided r s next (ok true) w =
      next (record r { context = record r.context { session = some s } })
        (emit_decision r (actor_of s) "allow" "authorized" 0 w)

  abbrev judged : Option Policy.Evaluator → Request → Session → Handler W → W → Response × W
  judged none r s next w = refuse r (actor_of s) "deny" "policy_unconfigured" 403 "forbidden" w
  judged (some evaluator) r s next w =
      decided r s next (evaluator.allowed (subject_of s) permission) w

  abbrev found :
      Option Policy.Evaluator → Request → Handler W → Result StoreError Session → W → Response × W
  found evaluator r next (err not_found) w =
      refuse r nobody "deny" "invalid_session" 401 "unauthorized" w
  found evaluator r next (err (Session.failed e)) w =
      refuse r nobody "error" "session_store_error" 503 "session store unavailable" w
  found evaluator r next (ok s) w = judged evaluator r s next w

  abbrev with_cookie_value :
      Session.Store W
      → Option Policy.Evaluator
      → Request
      → Handler W
      → Option String
      → W
      → Response × W
  with_cookie_value sessions evaluator r next none w =
      refuse r nobody "deny" "unauthenticated" 401 "unauthorized" w
  with_cookie_value sessions evaluator r next (some id) w =
      if str_eq id ""
      then refuse r nobody "deny" "unauthenticated" 401 "unauthorized" w
      else found evaluator r next (sessions.get id w).0 (sessions.get id w).1

  -- `RequirePermissionWithAuditCookie`
  unfoldable pub require_permission :
      String → Session.Store W → Option Policy.Evaluator → Handler W → Handler W
  unfolding emit_decision
  require_permission cookie_name sessions evaluator next r w =
      with_cookie_value sessions evaluator r next (r.cookie cookie_name) w
