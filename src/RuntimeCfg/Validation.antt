-- ===== src/RuntimeCfg/Validation.antt =====
-- runtime.go: `Validate` on parsed roles and capabilities.
use gateway_runtime.Prelude.{
  String, ◌≡◌, refl, true, false, ◌||◌, List, [], ◌∷◌, ok, contains_str, All, IsDistinct, eq_iff,
  arith, or-false, ◌∙◌,
}
use gateway_runtime.Prelude.Dict.{Dict}
use gateway_runtime.RuntimeCfg.{
  parse_roles, parse_capabilities, validate_roles, all_selected, validate,
}
use gateway_runtime.RuntimeCfg.Roles.{IsRole, ValidRoles, parse_roles-valid}
use gateway_runtime.RuntimeCfg.Capabilities.{AllowedAt, HasSome}
use gateway_runtime.RuntimeCfg.Defaults.{Complete, parse_capabilities-Complete}

-- the roles that `validate_roles` has seen at its end
push_all : List String → List String → List String
push_all [] seen = seen
push_all (role ∷ roles) seen = push_all roles (role ∷ seen)

contains_str-push_all :
    (roles seen : List String) (r : String)
    → contains_str (push_all roles seen) r ≡ (contains_str roles r || contains_str seen r)
unfolding push_all
contains_str-push_all [] seen r = refl
contains_str-push_all (role ∷ roles) seen r =
    ground (arith, contains_str-push_all roles (role ∷ seen) r)

-- no role of the first list is in the second
abbrev Unseen : List String → List String → Type 0
Unseen roles seen = All (λ r. contains_str seen r ≡ false) roles

Unseen-cons :
    (roles seen : List String) (role : String)
    → contains_str roles role ≡ false
    → Unseen roles seen
    → Unseen roles (role ∷ seen)
Unseen-cons [] seen role k h = tt
Unseen-cons (r ∷ roles) seen role k (u, h) =
    (ground (arith, eq_iff r role, eq_iff role r), Unseen-cons roles seen role (ground arith) h)

validate_roles-ok :
    (caps : Dict (List String)) (roles seen : List String)
    → All IsRole roles
    → IsDistinct roles
    → Unseen roles seen
    → AllowedAt caps
    → All (HasSome caps) roles
    → validate_roles caps roles seen ≡ ok (push_all roles seen)
unfolding validate_roles push_all
validate_roles-ok caps [] seen k d u a h = refl
validate_roles-ok caps (role ∷ roles) seen (k, ks) (n, d) (u, us) a (h, hs) =
    rw (k, u, h, a role)
      (validate_roles-ok caps roles (role ∷ seen) ks d (Unseen-cons roles seen role n us) a hs)

all_selected-agree :
    (xs ys : List String) (caps : Dict (List String))
    → ((r : String) → contains_str ys r ≡ contains_str xs r)
    → all_selected xs caps ≡ true
    → all_selected ys caps ≡ true
unfolding all_selected
all_selected-agree xs ys [] f h = refl
all_selected-agree xs ys ((role, c) ∷ caps) f h =
    ground (arith, f role, all_selected-agree xs ys caps f)

Unseen-nil : (roles : List String) → Unseen roles []
Unseen-nil [] = tt
Unseen-nil (r ∷ roles) = (refl, Unseen-nil roles)

validate-ok :
    (roles : List String) (caps : Dict (List String))
    → ValidRoles roles
    → Complete roles caps
    → validate (record { roles = roles; capabilities = caps }) ≡ ok tt
unfolding validate
validate-ok roles caps v ((allowed, selected), some_cap) =
    let agree =
      λ (r : String). contains_str-push_all roles [] r ∙ or-false (contains_str roles r) in
    rw (
      v.some_role,
      validate_roles-ok caps roles [] v.known v.distinct (Unseen-nil roles) allowed some_cap,
      all_selected-agree roles (push_all roles []) caps agree selected,
    )

-- Roles and capabilities that parse make a selection that passes `Validate`: every role is known and
-- stands once, every selected role has a capability, every capability is allowed for its role, and
-- none is configured for a role that is not selected.
pub parse-validate :
    (raw_roles raw_caps : String) (roles : List String) (caps : Dict (List String))
    → parse_roles raw_roles ≡ ok roles
    → parse_capabilities roles raw_caps ≡ ok caps
    → validate (record { roles = roles; capabilities = caps }) ≡ ok tt
parse-validate raw_roles raw_caps roles caps e f =
    let v = parse_roles-valid raw_roles roles e in
    validate-ok roles caps v (parse_capabilities-Complete roles raw_caps v.known f)
