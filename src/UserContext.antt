-- ===== src/UserContext.antt =====
-- internal/usercontext: what the runtime knows of the user of a session (resolver.go), and the resolver
-- that caches it (user_context.go).
pub mod Cached
mod Tests
use Prim.Native.String.{◌++◌}
use gateway_runtime.Prelude.{
  ℕ, ◌*◌, String, Bool, List, [], Option, none, some, Result, ok, err, str_eq, if◌then◌else◌,
}
use gateway_runtime.Prelude.Exec.{Exec, pure, raise, ◌>>=◌, ignore, attempt, wrap, lift}
use gateway_runtime.Duration.{ℤ, pos, Duration, second, is_positive}
use gateway_runtime.Session
use gateway_runtime.Session.{Session, StoreError}
use gateway_runtime.Policy
use gateway_runtime.Policy.{Decision}
use gateway_runtime.Cache.{Cache}

pub record Context : Type 0 where
  pub subject : String
  pub username : String
  pub display_name : String
  pub email : String
  pub roles : List String
  pub permissions : List String
  pub tenant_id : String
  pub project_id : String
  pub auth_level : String
  pub capabilities : List String

-- the error of a store, or of the policy
pub data ResolveError : Type 0 where
  store_error : StoreError → ResolveError
  policy_error : String → ResolveError

-- the interface `Resolver`
abbrev pub Resolver : Type 0 → Type 0
Resolver W = String → Exec ResolveError W Context

-- without a policy there are no permissions
abbrev decision_for : Option Policy.Evaluator → Session → Result ResolveError Decision
decision_for none s = ok (record { permissions = []; capabilities = []; auth_level = "" })
decision_for (some policy) s = elim (policy.evaluate (record { id = s.subject; roles = s.roles })) [
  | ok decision ↦ ok decision
  | err e ↦ err (policy_error e)
]

abbrev context_of : Session → Decision → Context
context_of s decision = record {
  subject = s.subject;
  username = s.username;
  display_name = s.display_name;
  email = s.email;
  roles = s.roles;
  permissions = decision.permissions;
  tenant_id = "";
  project_id = "";
  auth_level = if str_eq decision.auth_level "" then "authenticated" else decision.auth_level;
  capabilities = decision.capabilities;
}

-- `SessionResolver.Resolve`
unfoldable pub session_resolve :
    {W : Type 0} → Session.Store W → Option Policy.Evaluator → Resolver W
session_resolve sessions policy id = wrap store_error (sessions.get id) >>= λ s.
    lift (decision_for policy s) >>= λ decision. pure (context_of s decision)

abbrev pub default_ttl : Duration
default_ttl = pos (60 * second)

abbrev pub cache_key : String → String
cache_key id = "userctx:" ++ id

abbrev ttl_of : Duration → Duration
ttl_of ttl = if is_positive ttl then ttl else default_ttl

module _ {W : Type 0} (next : Resolver W) (ttl : Duration) where
  abbrev pub remember : Cache W Context → String → Context → Exec ResolveError W Context
  remember cache id out = ignore (cache.set (cache_key id) out (ttl_of ttl)) >>= λ _. pure out

  -- by what the cache returns: its error counts as a miss
  abbrev pub after_lookup :
      Cache W Context → String → Result String (Option Context) → Exec ResolveError W Context
  after_lookup cache id (ok (some out)) = pure out
  after_lookup cache id (ok none) = next id >>= remember cache id
  after_lookup cache id (err e) = next id >>= remember cache id

  -- `CachedResolver.Resolve`
  unfoldable pub cached_resolve : Option (Cache W Context) → Resolver W
  cached_resolve none id = next id
  cached_resolve (some cache) id =
      attempt (cache.get (cache_key id)) >>= λ found. after_lookup cache id found
