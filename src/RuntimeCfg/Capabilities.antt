-- ===== src/RuntimeCfg/Capabilities.antt =====
-- runtime.go: the results of `ParseCapabilities` and the checks of `Validate`.
use gateway_runtime.Prelude.{
  String, ◌≡◌, refl, true, false, ◌&&◌, ◌||◌, List, [], ◌∷◌, ◌++◌, ok, is_empty, contains_str,
  str_eq, eq_iff, arith, inl, inr, Bool-cases, bind-eq-ok, require-eq-ok, ok-injective, subst,
  Option-cases, not, not-eq-true, err-ne-ok, ◌⊎◌, ap,
}
use gateway_runtime.Prelude.Dict.{Dict, lookup, insert, lookup-insert}
use gateway_runtime.Text.{to_lower, trim_space, split, cut, replace_all}
use gateway_runtime.RuntimeCfg.{
  add_given, or_empty, is_role, is_allowed, defaults, parse_cap_from, parse_cap_list, parse_group,
  parse_groups, all_allowed, all_selected,
}

-- every list of the map holds capabilities that its role allows
abbrev pub AllowedAt : Dict (List String) → Type 0
AllowedAt out = (role : String) → all_allowed role (or_empty (lookup role out)) ≡ true

-- the map's keys are selected roles
abbrev pub Selected : List String → Dict (List String) → Type 0
Selected roles out = all_selected roles out ≡ true

abbrev pub HasSome : Dict (List String) → String → Type 0
HasSome out role = is_empty (or_empty (lookup role out)) ≡ false

all_allowed-append :
    (role : String) (xs ys : List String)
    → all_allowed role (xs ++ ys) ≡ (all_allowed role xs && all_allowed role ys)
unfolding all_allowed
all_allowed-append role [] ys = refl
all_allowed-append role (x ∷ xs) ys = ground (arith, all_allowed-append role xs ys)

all_selected-insert :
    (seen : List String) (role : String) (v : List String) (out : Dict (List String))
    → contains_str seen role ≡ true
    → all_selected seen out ≡ true
    → all_selected seen (insert role v out) ≡ true
unfolding all_selected insert
all_selected-insert seen role v [] k h = ground arith
all_selected-insert seen role v ((j, w) ∷ out) k h =
    ground (arith, eq_iff j role, all_selected-insert seen role v out k)

insert-AllowedAt :
    (role : String) (v : List String) (out : Dict (List String))
    → all_allowed role v ≡ true
    → AllowedAt out
    → AllowedAt (insert role v out)
insert-AllowedAt role v out k h j = rw lookup-insert (ground (arith, eq_iff role j, h j))

add_given-allowed :
    (role : String) (out : List String) (cap : String)
    → all_allowed role out ≡ true
    → (str_eq cap "" || is_allowed role cap) ≡ true
    → all_allowed role (add_given out cap) ≡ true
unfolding all_allowed
add_given-allowed role out cap h k = ground (arith, all_allowed-append role out (cap ∷ []))

-- A capability list that parses is not empty, and holds what the role allows.
parse_cap_from-allowed :
    (role : String) (parts out : List String) {caps : List String}
    → all_allowed role out ≡ true
    → parse_cap_from role parts out ≡ ok caps
    → all_allowed role caps ≡ true
unfolding parse_cap_from
parse_cap_from-allowed role [] out h e = subst (λ cs. all_allowed role cs ≡ true) (ok-injective e) h
parse_cap_from-allowed role (part ∷ parts) out h e =
    let cap = to_lower (trim_space part) in
    let (k, e') = require-eq-ok (str_eq cap "" || is_allowed role cap) _ _ e in
    parse_cap_from-allowed role parts (add_given out cap) (add_given-allowed role out cap h k) e'

pub parse_cap_list-allowed :
    (role raw : String) {caps : List String}
    → parse_cap_list role raw ≡ ok caps
    → (all_allowed role caps ≡ true) × (is_empty caps ≡ false)
unfolding parse_cap_list
parse_cap_list-allowed role raw e =
    let (out, parsed, e₁) = bind-eq-ok (parse_cap_from role (split raw ",") []) _ e in
    let (nonempty, e₂) = require-eq-ok (not (is_empty out)) _ (ok out) e₁ in
    subst (λ cs. (all_allowed role cs ≡ true) × (is_empty cs ≡ false)) (ok-injective e₂)
      (
        parse_cap_from-allowed role (split raw ",") [] (unfold all_allowed in refl) parsed,
        not-eq-true (is_empty out) nonempty,
      )

-- what the loops over groups keep
abbrev pub Sound : List String → Dict (List String) → Type 0
Sound roles out = AllowedAt out × Selected roles out

pub insert-Sound :
    (roles : List String) (role : String) (v : List String) (out : Dict (List String))
    → contains_str roles role ≡ true
    → all_allowed role v ≡ true
    → Sound roles out
    → Sound roles (insert role v out)
insert-Sound roles role v out k a (h, s) =
    (insert-AllowedAt role v out a h, all_selected-insert roles role v out k s)

parse_group-Sound :
    (roles : List String) (group : String) (out : Dict (List String)) {out' : Dict (List String)}
    → Sound roles out
    → parse_group roles group out ≡ ok out'
    → Sound roles out'
unfolding parse_group
parse_group-Sound roles group out h e = elim (Bool-cases (str_eq (trim_space group) "")) [
  | inl blank ↦ subst (Sound roles) (ok-injective (rw blank at e)) h
  | inr given ↦ elim (Option-cases (cut (trim_space group) ":")) [
    | inl missing ↦ absurd (err-ne-ok (rw (given, missing) at e))
    | inr ((name, list), parts) ↦
        let e' = rw (given, parts) at e in
        let role = to_lower (trim_space name) in
        let list' = replace_all list "|" "," in
        let (selected, e₁) = require-eq-ok (contains_str roles role) _ _ e' in
        let (caps, parsed, e₂) = bind-eq-ok (parse_cap_list role list') _ e₁ in
        subst (Sound roles) (ok-injective e₂)
          (insert-Sound roles role caps out selected (parse_cap_list-allowed role list' parsed).0 h)
  ]
]

pub parse_groups-Sound :
    (roles groups : List String) (out : Dict (List String)) {out' : Dict (List String)}
    → Sound roles out
    → parse_groups roles groups out ≡ ok out'
    → Sound roles out'
unfolding parse_groups
parse_groups-Sound roles [] out h e = subst (Sound roles) (ok-injective e) h
parse_groups-Sound roles (group ∷ groups) out h e =
    let (next, one, e') = bind-eq-ok (parse_group roles group out) _ e in
    parse_groups-Sound roles groups next (parse_group-Sound roles group out h one) e'

-- A text is one of the roles, or has no defaults.
pub role-cases :
    (role : String)
    → (role ≡ "rebff")
      ⊎ (role ≡ "storage")
      ⊎ (role ≡ "streaming")
      ⊎ (role ≡ "websocket")
      ⊎ (defaults role ≡ [])
unfolding defaults lookup
role-cases role = ground (
  arith,
  eq_iff "rebff" role,
  eq_iff "storage" role,
  eq_iff "streaming" role,
  eq_iff "websocket" role,
)

pub defaults-allowed : (role : String) → all_allowed role (defaults role) ≡ true
unfolding all_allowed defaults is_allowed lookup
defaults-allowed role = elim (role-cases role) [
  | inl e ↦ rw e refl
  | inr (inl e) ↦ rw e refl
  | inr (inr (inl e)) ↦ rw e refl
  | inr (inr (inr (inl e))) ↦ rw e refl
  | inr (inr (inr (inr e))) ↦ ap (all_allowed role) e
]

pub defaults-some : (role : String) → is_role role ≡ true → is_empty (defaults role) ≡ false
unfolding is_role defaults lookup
defaults-some role h = ground arith
