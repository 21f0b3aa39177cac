-- ===== src/RuntimeCfg/Roles.antt =====
-- runtime.go: the roles that `ParseRoles` returns.
use gateway_runtime.Prelude.{
  String, ◌≡◌, refl, true, false, List, [], ◌∷◌, ◌++◌, ok, is_empty, contains_str,
  contains_str-append, All, All-append, IsDistinct, str_eq, eq_iff, arith, inl, inr, Bool-cases,
  bind-eq-ok, require-eq-ok, ok-injective, subst, not, not-eq-true,
}
use gateway_runtime.Text.{to_lower, trim_space, split}
use gateway_runtime.RuntimeCfg.{add_new, is_role, parse_roles_from, parse_roles}

abbrev pub IsRole : String → Type 0
IsRole role = is_role role ≡ true

pub record ValidRoles (roles : List String) : Type 0 where
  pub known : All IsRole roles
  pub distinct : IsDistinct roles
  pub some_role : is_empty roles ≡ false

pub IsDistinct-concat :
    (xs : List String) (a : String)
    → IsDistinct xs
    → contains_str xs a ≡ false
    → IsDistinct (xs ++ a ∷ [])
IsDistinct-concat [] a h e = (refl, tt)
IsDistinct-concat (x ∷ xs) a (n, h) e = (
  ground (arith, contains_str-append xs (a ∷ []) x, eq_iff a x, eq_iff x a),
  IsDistinct-concat xs a h (ground arith),
)

add_new-known :
    (out : List String) (role : String)
    → is_role role ≡ true
    → All IsRole out × IsDistinct out
    → All IsRole (add_new out role) × IsDistinct (add_new out role)
add_new-known out role k (h, d) = elim (Bool-cases (contains_str out role)) [
  | inl e ↦ rw e (h, d)
  | inr e ↦ rw e (All-append IsRole out (role ∷ []) h (k, tt), IsDistinct-concat out role d e)
]

parse_roles_from-valid :
    (parts out : List String) {roles : List String}
    → All IsRole out × IsDistinct out
    → parse_roles_from parts out ≡ ok roles
    → All IsRole roles × IsDistinct roles
unfolding parse_roles_from
parse_roles_from-valid [] out h e = subst (λ rs. All IsRole rs × IsDistinct rs) (ok-injective e) h
parse_roles_from-valid (part ∷ parts) out h e =
    let (k, e') = require-eq-ok _ _ _ e in
    parse_roles_from-valid parts (add_new out (to_lower (trim_space part)))
      (add_new-known out (to_lower (trim_space part)) k h) e'

-- Every list of roles that parses is not empty, holds known roles only, and holds none twice.
pub parse_roles-valid :
    (raw : String) (roles : List String) → parse_roles raw ≡ ok roles → ValidRoles roles
unfolding parse_roles is_role
parse_roles-valid raw roles e = elim (Bool-cases (str_eq (trim_space raw) "")) [
  | inl blank ↦
      subst ValidRoles (ok-injective (rw blank at e))
        (record { known = (refl, tt); distinct = (refl, tt); some_role = refl })
  | inr given ↦
      let (out, parsed, e₁) = bind-eq-ok (parse_roles_from (split raw ",") []) _ (rw given at e) in
      let (nonempty, e₂) = require-eq-ok (not (is_empty out)) _ (ok out) e₁ in
      let (known, distinct) = parse_roles_from-valid (split raw ",") [] (tt, tt) parsed in
      subst ValidRoles (ok-injective e₂) (record {
        known = known;
        distinct = distinct;
        some_role = not-eq-true (is_empty out) nonempty;
      })
]
