-- ===== src/Policy.antt =====
-- internal/policy: the interface (policy.go) and the static policy (static.go).
pub mod Laws
mod Tests
use Prim.Native.Nat.{Ordering}
use Prim.Native.String.{compare}
use gateway_runtime.Prelude.{
  String, Bool, true, false, List, [], ◌∷◌, Option, none, some, Result, ok, err, contains_str,
  if◌then◌else◌,
}
use gateway_runtime.Prelude.Dict.{Dict, lookup}
use gateway_runtime.RuntimeCfg.{or_empty, add_new}

pub record Subject : Type 0 where
  pub id : String
  pub roles : List String

pub record Decision : Type 0 where
  pub permissions : List String
  pub capabilities : List String
  pub auth_level : String

-- the interface `Evaluator`
pub record Evaluator : Type 0 where
  pub evaluate : Subject → Result String Decision
  pub allowed : Subject → String → Result String Bool

pub record Static : Type 0 where
  pub role_permissions : Dict (List String)
  pub role_capabilities : Dict (List String)

-- `for _, value := range values { seen[value] = struct{}{} }`, the set as a list without repetition
unfoldable pub add_all : List String → List String → List String
add_all seen [] = seen
add_all seen (value ∷ values) = add_all (add_new seen value) values

-- the loop over the roles, for one of the two tables
unfoldable pub collect : Dict (List String) → List String → List String → List String
unfolding add_all lookup
collect table [] seen = seen
collect table (role ∷ roles) seen =
    collect table roles (add_all seen (or_empty (lookup role table)))

-- a ≤ b, in the order of the texts' bytes
abbrev pub before : String → String → Bool
before a b = elim (compare a b) [ Ordering.gt ↦ false | _ ↦ true ]

unfoldable pub place : String → List String → List String
place v [] = v ∷ []
place v (x ∷ xs) = if before v x then v ∷ x ∷ xs else x ∷ place v xs

-- `sort.Strings` as an insertion sort: equal texts cannot be told apart
unfoldable pub keys_sorted : List String → List String
unfolding place
keys_sorted [] = []
keys_sorted (x ∷ xs) = place x (keys_sorted xs)

unfoldable pub evaluate : Static → Subject → Decision
unfolding collect keys_sorted
evaluate p subject = record {
  permissions = keys_sorted (collect p.role_permissions subject.roles []);
  capabilities = keys_sorted (collect p.role_capabilities subject.roles []);
  auth_level = "authenticated";
}

unfoldable pub allowed : Static → Subject → String → Bool
unfolding evaluate
allowed p subject permission = contains_str (evaluate p subject).permissions permission

-- the interface that the static policy fills; it never fails
abbrev pub static_evaluator : Static → Evaluator
static_evaluator p = record {
  evaluate = λ subject. ok (evaluate p subject);
  allowed = λ subject permission. ok (allowed p subject permission);
}
