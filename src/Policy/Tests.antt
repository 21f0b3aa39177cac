-- ===== src/Policy/Tests.antt =====
-- The roles viewer and admin.
use gateway_runtime.Prelude.{◌≡◌, refl, [], ◌∷◌, contains_str}
use gateway_runtime.Policy.{Static, Subject, evaluate, allowed}
use gateway_runtime.Policy.Laws.{grants, allowed-grants}

abbrev static : Static
static = record {
  role_permissions =
      ("admin", "asset.write" ∷ "asset.read" ∷ []) ∷ ("viewer", "asset.read" ∷ []) ∷ [];
  role_capabilities = ("admin", "asset-admin" ∷ []) ∷ [];
}

abbrev subject : Subject
subject = record { id = "user-1"; roles = "viewer" ∷ "admin" ∷ [] }

evaluates : evaluate static subject ≡ record {
  permissions = "asset.read" ∷ "asset.write" ∷ [];
  capabilities = "asset-admin" ∷ [];
  auth_level = "authenticated";
}
unfolding evaluate
evaluates = refl

allowed-grants_example :
    (allowed static subject "asset.write"
      ≡ grants static.role_permissions subject.roles "asset.write")
    × (contains_str (evaluate static subject).capabilities "asset.write"
        ≡ grants static.role_capabilities subject.roles "asset.write")
allowed-grants_example = allowed-grants static subject "asset.write"
