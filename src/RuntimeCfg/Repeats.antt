-- ===== src/RuntimeCfg/Repeats.antt =====
-- runtime.go: `ParseCapabilities` drops a capability that a role has already.
use gateway_runtime.Prelude.{
  String, ◌≡◌, refl, ◌||◌, List, [], ◌∷◌, ok, is_empty, contains_str, IsDistinct, str_eq, inl, inr,
  Bool-cases, Option-cases, bind-eq-ok, require-eq-ok, ok-injective, err-ne-ok, subst, sym, not,
}
use gateway_runtime.Prelude.Dict.{Dict, lookup, insert, lookup-insert}
use gateway_runtime.Text.{to_lower, trim_space, split, cut, replace_all, contains}
use gateway_runtime.RuntimeCfg.{
  add_given, or_empty, is_allowed, defaults, parse_cap_from, parse_cap_list, parse_group,
  parse_groups, fill_defaults, all_defaults, parse_single, parse_many, parse_named,
  parse_capabilities,
}
use gateway_runtime.RuntimeCfg.Roles.{IsDistinct-concat}
use gateway_runtime.RuntimeCfg.Capabilities.{role-cases}

-- no list of the map holds a capability twice
abbrev pub DistinctAt : Dict (List String) → Type 0
DistinctAt out = (role : String) → IsDistinct (or_empty (lookup role out))

insert-DistinctAt :
    (role : String) (v : List String) (out : Dict (List String))
    → IsDistinct v
    → DistinctAt out
    → DistinctAt (insert role v out)
insert-DistinctAt role v out d h j = elim (Bool-cases (str_eq role j)) [
  | inl e ↦ rw (lookup-insert, e) d
  | inr e ↦ rw (lookup-insert, e) (h j)
]

empty-DistinctAt : DistinctAt []
unfolding lookup
empty-DistinctAt role = tt

defaults-IsDistinct : (role : String) → IsDistinct (defaults role)
unfolding defaults lookup
defaults-IsDistinct role = elim (role-cases role) [
  | inl e ↦ rw e (refl, (refl, (refl, (refl, (refl, (refl, (refl, (refl, (refl, tt)))))))))
  | inr (inl e) ↦ rw e (refl, (refl, (refl, (refl, (refl, (refl, tt))))))
  | inr (inr (inl e)) ↦ rw e (refl, (refl, (refl, (refl, (refl, tt)))))
  | inr (inr (inr (inl e))) ↦ rw e (refl, (refl, (refl, (refl, (refl, (refl, tt))))))
  | inr (inr (inr (inr e))) ↦ subst IsDistinct (sym e) tt
]

add_given-IsDistinct :
    (out : List String) (cap : String) → IsDistinct out → IsDistinct (add_given out cap)
add_given-IsDistinct out cap d = elim (Bool-cases (str_eq cap "")) [
  | inl blank ↦ rw blank d
  | inr given ↦ elim (Bool-cases (contains_str out cap)) [
    | inl e ↦ rw (given, e) d
    | inr e ↦ rw (given, e) (IsDistinct-concat out cap d e)
  ]
]

parse_cap_from-IsDistinct :
    (role : String) (parts out : List String) {caps : List String}
    → IsDistinct out
    → parse_cap_from role parts out ≡ ok caps
    → IsDistinct caps
unfolding parse_cap_from
parse_cap_from-IsDistinct role [] out d e = subst IsDistinct (ok-injective e) d
parse_cap_from-IsDistinct role (part ∷ parts) out d e =
    let cap = to_lower (trim_space part) in
    let (k, e') = require-eq-ok (str_eq cap "" || is_allowed role cap) _ _ e in
    parse_cap_from-IsDistinct role parts (add_given out cap) (add_given-IsDistinct out cap d) e'

parse_cap_list-IsDistinct :
    (role raw : String) {caps : List String} → parse_cap_list role raw ≡ ok caps → IsDistinct caps
unfolding parse_cap_list
parse_cap_list-IsDistinct role raw e =
    let (out, parsed, e₁) = bind-eq-ok (parse_cap_from role (split raw ",") []) _ e in
    let (nonempty, e₂) = require-eq-ok (not (is_empty out)) _ (ok out) e₁ in
    subst IsDistinct (ok-injective e₂) (parse_cap_from-IsDistinct role (split raw ",") [] tt parsed)

parse_group-DistinctAt :
    (roles : List String) (group : String) (out : Dict (List String)) {out' : Dict (List String)}
    → DistinctAt out
    → parse_group roles group out ≡ ok out'
    → DistinctAt out'
unfolding parse_group
parse_group-DistinctAt roles group out h e = elim (Bool-cases (str_eq (trim_space group) "")) [
  | inl blank ↦ subst DistinctAt (ok-injective (rw blank at e)) h
  | inr given ↦ elim (Option-cases (cut (trim_space group) ":")) [
    | inl missing ↦ absurd (err-ne-ok (rw (given, missing) at e))
    | inr ((name, list), parts) ↦
        let role = to_lower (trim_space name) in
        let list' = replace_all list "|" "," in
        let (selected, e₁) = require-eq-ok (contains_str roles role) _ _ (rw (given, parts) at e) in
        let (caps, parsed, e₂) = bind-eq-ok (parse_cap_list role list') _ e₁ in
        subst DistinctAt (ok-injective e₂)
          (insert-DistinctAt role caps out (parse_cap_list-IsDistinct role list' parsed) h)
  ]
]

parse_groups-DistinctAt :
    (roles groups : List String) (out : Dict (List String)) {out' : Dict (List String)}
    → DistinctAt out
    → parse_groups roles groups out ≡ ok out'
    → DistinctAt out'
unfolding parse_groups
parse_groups-DistinctAt roles [] out h e = subst DistinctAt (ok-injective e) h
parse_groups-DistinctAt roles (group ∷ groups) out h e =
    let (next, one, e') = bind-eq-ok (parse_group roles group out) _ e in
    parse_groups-DistinctAt roles groups next (parse_group-DistinctAt roles group out h one) e'

fill_defaults-DistinctAt :
    (roles : List String) (out : Dict (List String))
    → DistinctAt out
    → DistinctAt (fill_defaults roles out)
unfolding fill_defaults
fill_defaults-DistinctAt [] out h = h
fill_defaults-DistinctAt (role ∷ roles) out h =
    elim (Bool-cases (is_empty (or_empty (lookup role out)))) [
      | inl e ↦ rw e (
          fill_defaults-DistinctAt roles (insert role (defaults role) out)
            (insert-DistinctAt role (defaults role) out (defaults-IsDistinct role) h))
      | inr e ↦ rw e (fill_defaults-DistinctAt roles out h)
    ]

all_defaults-DistinctAt :
    (roles : List String) (out : Dict (List String))
    → DistinctAt out
    → DistinctAt (all_defaults roles out)
unfolding all_defaults
all_defaults-DistinctAt [] out h = h
all_defaults-DistinctAt (role ∷ roles) out h =
    all_defaults-DistinctAt roles (insert role (defaults role) out)
      (insert-DistinctAt role (defaults role) out (defaults-IsDistinct role) h)

parse_many-DistinctAt :
    (roles : List String) (raw : String) {caps : Dict (List String)}
    → parse_many roles raw ≡ ok caps
    → DistinctAt caps
unfolding parse_many
parse_many-DistinctAt roles raw e =
    let (out, parsed, e') = bind-eq-ok (parse_groups roles (split raw ";") []) _ e in
    subst DistinctAt (ok-injective e') (
      fill_defaults-DistinctAt roles out
        (parse_groups-DistinctAt roles (split raw ";") [] empty-DistinctAt parsed))

parse_single-DistinctAt :
    (role raw : String) {caps : Dict (List String)}
    → parse_single role raw ≡ ok caps
    → DistinctAt caps
unfolding parse_single
parse_single-DistinctAt role raw e =
    let raw' = replace_all raw "|" "," in
    let (list, parsed, e') = bind-eq-ok (parse_cap_list role raw') _ e in
    subst DistinctAt (ok-injective e')
      (insert-DistinctAt role list [] (parse_cap_list-IsDistinct role raw' parsed) empty-DistinctAt)

parse_named-DistinctAt :
    (roles : List String) (raw : String) {caps : Dict (List String)}
    → parse_named roles raw ≡ ok caps
    → DistinctAt caps
parse_named-DistinctAt (role ∷ []) raw e = elim (Bool-cases (contains raw ":")) [
  | inl c ↦ parse_many-DistinctAt (role ∷ []) raw (rw c at e)
  | inr c ↦ parse_single-DistinctAt role raw (rw c at e)
]
parse_named-DistinctAt [] raw e = parse_many-DistinctAt [] raw e
parse_named-DistinctAt (role ∷ other ∷ roles) raw e =
    parse_many-DistinctAt (role ∷ other ∷ roles) raw e

pub parse_capabilities-DistinctAt :
    (roles : List String) (raw : String) {caps : Dict (List String)}
    → parse_capabilities roles raw ≡ ok caps
    → DistinctAt caps
unfolding parse_capabilities
parse_capabilities-DistinctAt roles raw e = elim (Bool-cases (str_eq (trim_space raw) "")) [
  | inl blank ↦
      subst DistinctAt (ok-injective (rw blank at e))
        (all_defaults-DistinctAt roles [] empty-DistinctAt)
  | inr given ↦ parse_named-DistinctAt roles raw (rw given at e)
]
