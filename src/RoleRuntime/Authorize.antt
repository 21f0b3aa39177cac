-- ===== src/RoleRuntime/Authorize.antt =====
-- `authorizeStorage`: the target's write protection, the workload's token, the actor, and the access
-- policy's decision. It passes or refuses with the response that it writes.
use gateway_runtime.Prelude.{
  String, Bool, ◌&&◌, not, Option, none, some, Result, ok, ◌>>=◌, ◌>>◌, require, some_or, map_err,
  is_empty, if◌then◌else◌,
}
use gateway_runtime.Text.{trim_space}
use gateway_runtime.Http.{Request}
use gateway_runtime.StorageTarget
use gateway_runtime.AccessPolicy
use gateway_runtime.RequestIdentity.{Identity, extract, validate_actor, policy_context}
use gateway_runtime.WorkloadAuth.{Verifier, bearer_token}
use gateway_runtime.RoleRuntime.{Config, Response, write_json, write_error, denied}

-- `requestidentity.Extract(r, requestidentity.Headers{Legacy: cfg.StorageSubjectHeader})`
unfoldable pub claimed_identity : Config → Request → Identity
claimed_identity cfg r =
    extract r (record { actor = ""; service = ""; legacy = cfg.storage_subject_header })

-- The identity with the service that a verified token names.
unfoldable pub verify_workload :
    Option Verifier → Bool → Request → Identity → Result Response Identity
verify_workload (some v) required r identity = do
  raw ← map_err (λ _. write_error 401 "workload_token_required") (bearer_token r)
  principal ← map_err (λ _. write_error 401 "invalid_workload_token") (v.verify raw)
  ok (record identity { service = principal.service })
verify_workload none required r identity =
    require (not required) (write_error 503 "workload_auth_unavailable") >> ok identity

-- the question that the policy is asked
unfoldable pub policy_request : Identity → String → String → AccessPolicy.Request
policy_request identity action target = record {
  subject = identity.actor;
  action = action;
  target = target;
  context = policy_context identity;
}

unfoldable pub decide : AccessPolicy.Evaluator → AccessPolicy.Request → Result Response (Unit {0})
decide policy request = do
  decision ← map_err (λ _. write_error 503 "access_policy_unavailable") (policy.authorize request)
  require decision.allow (write_json 403 (denied decision.reason))

unfoldable pub authorize_target :
    Config → Request → String → String → Bool → Result Response (Unit {0})
unfolding claimed_identity verify_workload policy_request decide
authorize_target cfg r name action write = do
  target ←
      some_or (StorageTarget.resolve cfg.storage_targets name)
        (write_error 400 "unknown_storage_target")
  require (not (write && target.read_only)) (write_error 403 "storage_target_read_only")
  policy ← some_or cfg.storage_access_policy (write_error 503 "access_policy_unavailable")
  identity ←
      verify_workload cfg.workload_verifier cfg.workload_auth_required r (claimed_identity cfg r)
  map_err (λ _. write_error 401 "actor_required") (validate_actor identity)
  decide policy (policy_request identity action name)

-- Without a target registry nothing is checked.
unfoldable pub authorize_storage :
    Config → Request → String → String → Bool → Result Response (Unit {0})
unfolding authorize_target
authorize_storage cfg r target action write =
    if is_empty cfg.storage_targets
    then ok tt
    else authorize_target cfg r (trim_space target) action write
