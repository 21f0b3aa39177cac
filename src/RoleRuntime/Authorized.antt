-- ===== src/RoleRuntime/Authorized.antt =====
-- server.go: the conditions that `authorizeStorage` checks.
use gateway_runtime.Prelude.{
  String, Bool, true, false, ◌&&◌, not, ◌≡◌, refl, ◌↔◌, Option, none, some, ok, is_empty, str_eq,
  bind-eq-ok, on_ok, on_require, require-eq-ok, require-eq-ok_last, not-eq-true, some_or,
  some_or-eq-ok, map_err, map_err-eq-ok,
}
use gateway_runtime.Text.{trim_space}
use gateway_runtime.Http.{Request}
use gateway_runtime.StorageTarget
use gateway_runtime.StorageTarget.{Target}
use gateway_runtime.AccessPolicy
use gateway_runtime.AccessPolicy.{Evaluator, Decision}
use gateway_runtime.RequestIdentity.{Identity, validate_actor}
use gateway_runtime.WorkloadAuth.{Verifier, Principal, bearer_token}
use gateway_runtime.RoleRuntime.{Config, write_error}
use gateway_runtime.RoleRuntime.Authorize.{
  claimed_identity, verify_workload, policy_request, decide, authorize_target, authorize_storage,
}

-- The identity that a request acts under: its headers', with the service that the workload's token
-- proves where a verifier is configured. Without one, none may be required.
abbrev pub IsGenuine : Option Verifier → Bool → Request → Identity → Identity → Type 0
IsGenuine none required r claimed identity = (required ≡ false) × (identity ≡ claimed)
IsGenuine (some v) required r claimed identity =
    (raw : String) × (p : Principal) × (bearer_token r ≡ ok raw)
    × (v.verify raw ≡ ok p)
    × (identity ≡ record claimed { service = p.service })

pub record Authorized (cfg : Config) (r : Request) (name action : String) (write : Bool)
    : Type 0 where
  pub target : Target
  pub listed : StorageTarget.resolve cfg.storage_targets name ≡ some target
  pub writable : (write && target.read_only) ≡ false
  pub policy : Evaluator
  pub configured : cfg.storage_access_policy ≡ some policy
  pub identity : Identity
  pub genuine :
      IsGenuine cfg.workload_verifier cfg.workload_auth_required r (claimed_identity cfg r) identity
  pub actor : str_eq (trim_space identity.actor) "" ≡ false
  pub decision : Decision
  pub asked : policy.authorize (policy_request identity action name) ≡ ok decision
  pub allowed : decision.allow ≡ true

verify_workload-IsGenuine :
    (v : Option Verifier) (required : Bool) (r : Request) (claimed identity : Identity)
    → verify_workload v required r claimed ≡ ok identity
    → IsGenuine v required r claimed identity
unfolding verify_workload
verify_workload-IsGenuine none required r claimed identity e =
    let (free, e') = require-eq-ok (not required) _ (ok claimed) e in
    (not-eq-true required free, cc)
verify_workload-IsGenuine (some v) required r claimed identity e =
    let (raw, token, e₁) =
      bind-eq-ok (map_err (λ _. write_error 401 "workload_token_required") (bearer_token r)) _ e in
    let (p, verified, e₂) =
      bind-eq-ok (map_err (λ _. write_error 401 "invalid_workload_token") (v.verify raw)) _ e₁ in
    (raw, p, map_err-eq-ok _ (bearer_token r) token, map_err-eq-ok _ (v.verify raw) verified, cc)

IsGenuine-verify_workload :
    (v : Option Verifier) (required : Bool) (r : Request) (claimed identity : Identity)
    → IsGenuine v required r claimed identity
    → verify_workload v required r claimed ≡ ok identity
unfolding verify_workload
IsGenuine-verify_workload none required r claimed identity (free, same) = rw (free, same)
IsGenuine-verify_workload (some v) required r claimed identity (raw, p, token, verified, same) =
    rw (token, verified, same)

decide_sound :
    (policy : Evaluator) (q : AccessPolicy.Request)
    → decide policy q ≡ ok tt
    → (d : Decision) × (policy.authorize q ≡ ok d) × (d.allow ≡ true)
unfolding decide
decide_sound policy q e =
    on_ok (map_err _ (policy.authorize q)) _ e
      λ d asked e'. (d, map_err-eq-ok _ _ asked, require-eq-ok_last d.allow _ e')

validate_actor_sound :
    (identity : Identity) {u : Unit {0}}
    → validate_actor identity ≡ ok u
    → str_eq (trim_space identity.actor) "" ≡ false
unfolding validate_actor
validate_actor_sound identity e =
    not-eq-true (str_eq (trim_space identity.actor) "") (require-eq-ok_last _ _ e)

authorize_target-Authorized :
    (cfg : Config) (r : Request) (name action : String) (write : Bool)
    → authorize_target cfg r name action write ≡ ok tt
    → Authorized cfg r name action write
unfolding authorize_target
authorize_target-Authorized cfg r name action write e =
    on_ok (some_or (StorageTarget.resolve cfg.storage_targets name) _) _ e λ target listed e₁.
      on_require (not (write && target.read_only)) _ _ e₁ λ writable e₂.
        on_ok (some_or cfg.storage_access_policy _) _ e₂ λ policy configured e₃.
          on_ok
            (verify_workload cfg.workload_verifier cfg.workload_auth_required r
              (claimed_identity cfg r))
            _ e₃
            λ identity genuine e₄. on_ok (map_err _ (validate_actor identity)) _ e₄ λ u actor e₅.
              let (decision, asked, allowed) =
                decide_sound policy (policy_request identity action name) e₅ in
              record {
                target = target;
                listed = some_or-eq-ok _ _ listed;
                writable = not-eq-true (write && target.read_only) writable;
                policy = policy;
                configured = some_or-eq-ok _ _ configured;
                identity = identity;
                genuine = verify_workload-IsGenuine _ _ r _ identity genuine;
                actor = validate_actor_sound identity (map_err-eq-ok _ _ actor);
                decision = decision;
                asked = asked;
                allowed = allowed;
              }

-- Authorization passes exactly where all of this holds.
authorize_target_iff :
    (cfg : Config) (r : Request) (name action : String) (write : Bool)
    → (authorize_target cfg r name action write ≡ ok tt) ↔ Authorized cfg r name action write
unfolding authorize_target decide validate_actor
authorize_target_iff cfg r name action write = (
  authorize_target-Authorized cfg r name action write,
  λ a.
      rw
        (
          a.listed,
          a.writable,
          a.configured,
          IsGenuine-verify_workload _ _ _ _ a.identity a.genuine,
          a.actor,
          a.asked,
          a.allowed,
        )
        refl,
)

-- In target mode `authorizeStorage` passes exactly where the trimmed target is configured, the action
-- does not write to a read-only target, a policy is configured, the workload's token is verified where
-- a verifier is configured (and one is configured where it is required), the actor is not blank, and
-- the policy allows the action on the target for that actor and context.
pub authorize_storage_iff :
    (cfg : Config) (r : Request) (target action : String) (write : Bool)
    → is_empty cfg.storage_targets ≡ false
    → (authorize_storage cfg r target action write ≡ ok tt)
      ↔ Authorized cfg r (trim_space target) action write
unfolding authorize_storage
authorize_storage_iff cfg r target action write e =
    rw e (authorize_target_iff cfg r (trim_space target) action write)
