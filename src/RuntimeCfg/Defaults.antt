-- ===== src/RuntimeCfg/Defaults.antt =====
-- runtime.go: the capabilities that `ParseCapabilities` fills in, and those of its groups.
use gateway_runtime.Prelude.{
  String, ◌≡◌, refl, true, false, List, [], ◌∷◌, ok, is_empty, contains_str, All, str_eq, eq_iff,
  eq_refl, arith, if◌then◌else◌, inl, inr, Bool-cases, bind-eq-ok, ok-injective, subst,
}
use gateway_runtime.Prelude.Dict.{Dict, lookup, insert, lookup-insert}
use gateway_runtime.Text.{trim_space, split, replace_all, contains}
use gateway_runtime.RuntimeCfg.{
  or_empty, is_role, defaults, parse_cap_list, parse_groups, fill_defaults, all_defaults,
  parse_single, parse_many, parse_named, parse_capabilities, all_allowed, all_selected,
}
use gateway_runtime.RuntimeCfg.Roles.{IsRole}
use gateway_runtime.RuntimeCfg.Capabilities.{
  HasSome, Sound, parse_cap_list-allowed, parse_groups-Sound, insert-Sound, defaults-allowed,
  defaults-some,
}

empty-Sound : (roles : List String) → Sound roles []
unfolding all_allowed all_selected lookup
empty-Sound roles = (λ role. refl, refl)

insert-HasSome :
    (r role : String) (v : List String) (out : Dict (List String))
    → is_empty v ≡ false
    → HasSome out r
    → HasSome (insert role v out) r
insert-HasSome r role v out k h = rw lookup-insert (ground (arith, eq_iff role r))

insert-HasSome_self :
    (role : String) (v : List String) (out : Dict (List String))
    → is_empty v ≡ false
    → HasSome (insert role v out) role
insert-HasSome_self role v out k = rw (lookup-insert, eq_refl role) k

-- one round of `fill_defaults`
abbrev fill : String → Dict (List String) → Dict (List String)
fill role out =
    if is_empty (or_empty (lookup role out)) then insert role (defaults role) out else out

fill-Sound :
    (roles : List String) (role : String) (out : Dict (List String))
    → contains_str roles role ≡ true
    → Sound roles out
    → Sound roles (fill role out)
fill-Sound roles role out k h = elim (Bool-cases (is_empty (or_empty (lookup role out)))) [
  | inl e ↦ rw e (insert-Sound roles role (defaults role) out k (defaults-allowed role) h)
  | inr e ↦ rw e h
]

fill-HasSome :
    (r role : String) (out : Dict (List String))
    → is_role role ≡ true
    → HasSome out r
    → HasSome (fill role out) r
fill-HasSome r role out k h = elim (Bool-cases (is_empty (or_empty (lookup role out)))) [
  | inl e ↦ rw e (insert-HasSome r role (defaults role) out (defaults-some role k) h)
  | inr e ↦ rw e h
]

fill-HasSome_self :
    (role : String) (out : Dict (List String)) → is_role role ≡ true → HasSome (fill role out) role
fill-HasSome_self role out k = elim (Bool-cases (is_empty (or_empty (lookup role out)))) [
  | inl e ↦ rw e (insert-HasSome_self role (defaults role) out (defaults-some role k))
  | inr e ↦ rw e e
]

-- the roles of a tail stand in the whole list
abbrev pub Within : List String → List String → Type 0
Within all = All (λ role. contains_str all role ≡ true)

fill_defaults-Sound :
    (all roles : List String) (out : Dict (List String))
    → Within all roles
    → Sound all out
    → Sound all (fill_defaults roles out)
unfolding fill_defaults
fill_defaults-Sound all [] out w h = h
fill_defaults-Sound all (role ∷ roles) out (k, w) h =
    fill_defaults-Sound all roles (fill role out) w (fill-Sound all role out k h)

fill_defaults-HasSome_kept :
    (roles : List String) (r : String) (out : Dict (List String))
    → All IsRole roles
    → HasSome out r
    → HasSome (fill_defaults roles out) r
unfolding fill_defaults
fill_defaults-HasSome_kept [] r out w h = h
fill_defaults-HasSome_kept (role ∷ roles) r out (k, w) h =
    fill_defaults-HasSome_kept roles r (fill role out) w (fill-HasSome r role out k h)

fill_defaults-HasSome :
    (roles : List String) (out : Dict (List String))
    → All IsRole roles
    → All (HasSome (fill_defaults roles out)) roles
unfolding fill_defaults
fill_defaults-HasSome [] out w = tt
fill_defaults-HasSome (role ∷ roles) out (k, w) = (
  fill_defaults-HasSome_kept roles role (fill role out) w (fill-HasSome_self role out k),
  fill_defaults-HasSome roles (fill role out) w,
)

all_defaults-Sound :
    (all roles : List String) (out : Dict (List String))
    → Within all roles
    → Sound all out
    → Sound all (all_defaults roles out)
unfolding all_defaults
all_defaults-Sound all [] out w h = h
all_defaults-Sound all (role ∷ roles) out (k, w) h =
    all_defaults-Sound all roles (insert role (defaults role) out) w
      (insert-Sound all role (defaults role) out k (defaults-allowed role) h)

all_defaults-HasSome_kept :
    (roles : List String) (r : String) (out : Dict (List String))
    → All IsRole roles
    → HasSome out r
    → HasSome (all_defaults roles out) r
unfolding all_defaults
all_defaults-HasSome_kept [] r out w h = h
all_defaults-HasSome_kept (role ∷ roles) r out (k, w) h =
    all_defaults-HasSome_kept roles r (insert role (defaults role) out) w
      (insert-HasSome r role (defaults role) out (defaults-some role k) h)

all_defaults-HasSome :
    (roles : List String) (out : Dict (List String))
    → All IsRole roles
    → All (HasSome (all_defaults roles out)) roles
unfolding all_defaults
all_defaults-HasSome [] out w = tt
all_defaults-HasSome (role ∷ roles) out (k, w) =
    let out' = insert role (defaults role) out in
    (
      all_defaults-HasSome_kept roles role out' w
          (insert-HasSome_self role (defaults role) out (defaults-some role k)),
      all_defaults-HasSome roles out' w,
    )

All-weaken :
    (P Q : String → Type 0) (xs : List String) → ((x : String) → P x → Q x) → All P xs → All Q xs
All-weaken P Q [] f h = tt
All-weaken P Q (x ∷ xs) f (p, h) = (f x p, All-weaken P Q xs f h)

pub Within-refl : (roles : List String) → Within roles roles
Within-refl [] = tt
Within-refl (role ∷ roles) = (
  rw (eq_refl role) refl,
  All-weaken (λ r. contains_str roles r ≡ true) (λ r. contains_str (role ∷ roles) r ≡ true) roles
      (λ r h. ground arith) (Within-refl roles),
)

-- what `ParseCapabilities` promises for known roles
abbrev pub Complete : List String → Dict (List String) → Type 0
Complete roles caps = Sound roles caps × All (HasSome caps) roles

parse_many-Complete :
    (roles : List String) (raw : String) {caps : Dict (List String)}
    → All IsRole roles
    → parse_many roles raw ≡ ok caps
    → Complete roles caps
unfolding parse_many
parse_many-Complete roles raw k e =
    let (out, parsed, e') = bind-eq-ok (parse_groups roles (split raw ";") []) _ e in
    let sound = parse_groups-Sound roles (split raw ";") [] (empty-Sound roles) parsed in
    subst (Complete roles) (ok-injective e') (
      fill_defaults-Sound roles roles out (Within-refl roles) sound,
      fill_defaults-HasSome roles out k,
    )

parse_single-Complete :
    (role raw : String) {caps : Dict (List String)}
    → parse_single role raw ≡ ok caps
    → Complete (role ∷ []) caps
unfolding parse_single
parse_single-Complete role raw e =
    let raw' = replace_all raw "|" "," in
    let (list, parsed, e') = bind-eq-ok (parse_cap_list role raw') _ e in
    let (allowed, nonempty) = parse_cap_list-allowed role raw' parsed in
    subst (Complete (role ∷ [])) (ok-injective e') (
      insert-Sound (role ∷ []) role list [] (rw (eq_refl role) refl) allowed
          (empty-Sound (role ∷ [])),
      (insert-HasSome_self role list [] nonempty, tt),
    )

parse_named-Complete :
    (roles : List String) (raw : String) {caps : Dict (List String)}
    → All IsRole roles
    → parse_named roles raw ≡ ok caps
    → Complete roles caps
parse_named-Complete (role ∷ []) raw k e = elim (Bool-cases (contains raw ":")) [
  | inl c ↦ parse_many-Complete (role ∷ []) raw k (rw c at e)
  | inr c ↦ parse_single-Complete role raw (rw c at e)
]
parse_named-Complete [] raw k e = parse_many-Complete [] raw k e
parse_named-Complete (role ∷ other ∷ roles) raw k e =
    parse_many-Complete (role ∷ other ∷ roles) raw k e

pub parse_capabilities-Complete :
    (roles : List String) (raw : String) {caps : Dict (List String)}
    → All IsRole roles
    → parse_capabilities roles raw ≡ ok caps
    → Complete roles caps
unfolding parse_capabilities
parse_capabilities-Complete roles raw k e = elim (Bool-cases (str_eq (trim_space raw) "")) [
  | inl blank ↦ subst (Complete roles) (ok-injective (rw blank at e)) (
    all_defaults-Sound roles roles [] (Within-refl roles) (empty-Sound roles),
    all_defaults-HasSome roles [] k,
  )
  | inr given ↦ parse_named-Complete roles raw k (rw given at e)
]
