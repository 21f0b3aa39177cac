-- ===== src/RequestIdentity.antt =====
-- internal/requestidentity/context.go: who a request comes from, as its headers say.
use gateway_runtime.Prelude.{String, [], Result, require, not, str_eq, if◌then◌else◌}
use gateway_runtime.Prelude.Dict.{Dict, insert}
use gateway_runtime.Text.{trim_space}
use gateway_runtime.Http.{Request}

pub record Identity : Type 0 where
  pub actor : String
  pub service : String
  pub tenant_id : String
  pub project_id : String
  pub request_id : String
  pub trace_id : String

pub record Headers : Type 0 where
  pub actor : String
  pub service : String
  pub legacy : String

-- `s := TrimSpace(s); if s == "" { s = default }`
abbrev pub trimmed_or : String → String → String
trimmed_or s d = let t = trim_space s in if str_eq t "" then d else t

unfoldable pub extract : Request → Headers → Identity
extract r headers =
    let get = λ (name : String). trim_space (r.header name) in
    record {
      actor =
          trimmed_or (r.header (trimmed_or headers.actor "X-Actor-Subject"))
            (get (trimmed_or headers.legacy "X-Auth-Subject"));
      service = get (trimmed_or headers.service "X-Service-Identity");
      tenant_id = get "X-Tenant-ID";
      project_id = get "X-Project-ID";
      request_id = get "X-Request-ID";
      trace_id = trimmed_or (r.header "X-Trace-ID") (get "traceparent");
    }

unfoldable pub validate_actor : Identity → Result String (Unit {0})
validate_actor i = require (not (str_eq (trim_space i.actor) "")) "actor required"

-- `if v != "" { out[k] = v }`
abbrev put_some : String → String → Dict String → Dict String
put_some k v out = if str_eq v "" then out else insert k v out

unfoldable pub policy_context : Identity → Dict String
unfolding insert
policy_context i = put_some "trace_id" i.trace_id (
    put_some "request_id" i.request_id (
      put_some "project_id" i.project_id
        (put_some "tenant_id" i.tenant_id (put_some "service_id" i.service []))))
