-- ===== src/AccessPolicy.antt =====
-- internal/accesspolicy/accesspolicy.go: the policy service's request and decision, and the checks of
-- the remote evaluator in front of its call.
use gateway_runtime.Prelude.{
  String, Bool, ◌||◌, Option, none, some, Result, err, ◌>>◌, require, not, str_eq,
}
use gateway_runtime.Prelude.Dict.{Dict}
use gateway_runtime.Text.{trim_space}

pub record Request : Type 0 where
  pub subject : String
  pub action : String
  pub target : String
  pub context : Dict String

pub record Decision : Type 0 where
  pub allow : Bool
  pub reason : String

pub record Evaluator : Type 0 where
  pub authorize : Request → Result String Decision

pub trimmed : Request → Request
trimmed req = record req {
  subject = trim_space req.subject;
  action = trim_space req.action;
  target = trim_space req.target;
}

-- `Remote.Authorize`; `client` is the call of the HTTP client, `none` where it is nil.
unfoldable pub remote_authorize :
    Option (Request → Result String Decision) → Request → Result String Decision
unfolding trimmed
remote_authorize none req = err "access policy client is not configured"
remote_authorize (some client) req =
    let r = trimmed req in
    require (not (str_eq r.subject "" || str_eq r.action "" || str_eq r.target ""))
      "subject, action and target are required"
    >> client r
