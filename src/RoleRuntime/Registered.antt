-- ===== src/RoleRuntime/Registered.antt =====
-- server.go: the registration of the routes of a selection.
use mathlib.Core.List.{append-nil, append_assoc}
use gateway_runtime.Prelude.{
  ok, String, true, false, ◌≡◌, ◌∙◌, refl, ap, sym, List, [], ◌∷◌, ◌++◌, some, contains_str,
  contains_str-append, str_eq, eq_iff, IsDistinct, All, All-append, arith,
}
use gateway_runtime.Prelude.Dict.{Dict, lookup}
use gateway_runtime.RuntimeCfg.Roles.{IsRole, ValidRoles, parse_roles-valid}
use gateway_runtime.RuntimeCfg.Repeats.{DistinctAt, parse_capabilities-DistinctAt}
use gateway_runtime.RuntimeCfg.{parse_roles, parse_capabilities, Selection, is_role, or_empty}
use gateway_runtime.RoleRuntime.Owned.{
  owner, table_of-IsOwned, lookup-IsOwned, true-not-false, contains_str-none, IsDistinct-append,
  All-map, system-IsOwned,
}
use gateway_runtime.RoleRuntime.Register.{
  handle_func, handle_all, system_patterns, table_of, patterns_of, role_patterns, selected_patterns,
  register,
}

-- a pattern of one of the capabilities of a role
abbrev InRole : String → List String → String → Type 0
InRole role caps p = ((owner p).0 ≡ role) × (contains_str caps ((owner p).1) ≡ true)

InRole-cons :
    (role cap : String) (caps : List String) (p : String)
    → InRole role caps p
    → InRole role (cap ∷ caps) p
InRole-cons role cap caps p (e, m) = (e, ground (arith, m))

role_patterns-IsDistinct :
    (role : String) (caps : List String)
    → IsDistinct caps
    → All (InRole role caps) (role_patterns role caps) × IsDistinct (role_patterns role caps)
unfolding role_patterns patterns_of
role_patterns-IsDistinct role [] _ = (tt, tt)
role_patterns-IsDistinct role (cap ∷ caps) (absent, d) =
    let own = lookup-IsOwned role cap (table_of role) (table_of-IsOwned role) in
    let rest = role_patterns-IsDistinct role caps d in
    let ps = patterns_of role cap in
    let qs = role_patterns role caps in
    (
      All-append (InRole role (cap ∷ caps)) ps qs
          (All-map ps
            (λ a e. (ap (λ o. o.0) e, ground (arith, ap (λ o. o.1) e, eq_iff cap (owner a).1)))
            own.0)
          (All-map qs (InRole-cons role cap caps) rest.0),
      IsDistinct-append ps qs own.1 rest.1 (
          All-map ps
            (λ a e.
              contains_str-none (InRole role caps) qs a rest.0
                (λ i. true-not-false (sym i.1 ∙ ap (λ o. contains_str caps o.1) e ∙ absent)))
            own.0),
    )

role_in-head :
    (role : String) (roles : List String) (p : String) (caps : List String)
    → InRole role caps p
    → contains_str (role ∷ roles) (owner p).0 ≡ true
role_in-head role roles p caps (e, m) = ground (arith, eq_iff role (owner p).0)

-- the patterns of a selection stand for selected roles, and none stands there twice
selected_patterns-IsDistinct :
    (roles : List String) (caps : Dict (List String))
    → IsDistinct roles
    → All (λ role. IsDistinct (or_empty (lookup role caps))) roles
    → All (λ p. contains_str roles (owner p).0 ≡ true) (selected_patterns roles caps)
      × IsDistinct (selected_patterns roles caps)
unfolding selected_patterns
selected_patterns-IsDistinct [] caps _ _ = (tt, tt)
selected_patterns-IsDistinct (role ∷ roles) caps (absent, d) (c, cs) =
    let (own, once) = role_patterns-IsDistinct role (or_empty (lookup role caps)) c in
    let (others, rest) = selected_patterns-IsDistinct roles caps d cs in
    let ps = role_patterns role (or_empty (lookup role caps)) in
    let qs = selected_patterns roles caps in
    (
      All-append (λ p. contains_str (role ∷ roles) (owner p).0 ≡ true) ps qs
          (All-map ps (λ a i. role_in-head role roles a (or_empty (lookup role caps)) i) own)
          (All-map qs (λ a m. ground (arith, m)) others),
      IsDistinct-append ps qs once rest (
          All-map ps
            (λ a i.
              contains_str-none (λ p. contains_str roles (owner p).0 ≡ true) qs a others
                (λ m. true-not-false (sym m ∙ ap (contains_str roles) i.0 ∙ absent)))
            own),
    )

contains_str-All :
    (xs : List String) (p : String) → contains_str xs p ≡ false → All (λ q. str_eq p q ≡ false) xs
contains_str-All [] p h = tt
contains_str-All (x ∷ xs) p h =
    (ground (arith, eq_iff x p, eq_iff p x), contains_str-All xs p (ground (arith, h)))

still_new :
    (mux ps : List String) (p : String)
    → All (λ q. str_eq p q ≡ false) ps
    → All (λ q. contains_str mux q ≡ false) ps
    → All (λ q. contains_str (mux ++ p ∷ []) q ≡ false) ps
still_new mux [] p _ _ = tt
still_new mux (q ∷ ps) p (e, es) (n, ns) =
    (ground (arith, contains_str-append mux (p ∷ []) q), still_new mux ps p es ns)

-- a mux takes the patterns of a list that are new to it and distinct
handle_all-new :
    (ps mux : List String)
    → IsDistinct ps
    → All (λ p. contains_str mux p ≡ false) ps
    → handle_all ps mux ≡ some (mux ++ ps)
unfolding handle_all handle_func
handle_all-new [] mux _ _ = ap some (sym (append-nil mux))
handle_all-new (p ∷ ps) mux (absent, d) (n, ns) = rw n (
    handle_all-new ps (mux ++ p ∷ []) d (still_new mux ps p (contains_str-All ps p absent) ns)
    ∙ ap some (append_assoc mux (p ∷ []) ps))

known-contains : (roles : List String) → All IsRole roles → contains_str roles "" ≡ false
unfolding is_role
known-contains roles h = contains_str-none IsRole roles "" h (λ e. true-not-false (sym e))

-- a pattern of the system is no pattern of a known role
system-apart :
    (roles ps : List String)
    → All IsRole roles
    → All (λ p. contains_str roles (owner p).0 ≡ true) ps
    → All (λ p. contains_str ps p ≡ false) system_patterns
system-apart roles ps known owned =
    All-map {P = λ p. owner p ≡ ("", "")} system_patterns
      (λ a e.
        contains_str-none (λ p. contains_str roles (owner p).0 ≡ true) ps a owned
          (λ m. true-not-false (
            sym m
            ∙ ap (λ (o : String × String). contains_str roles o.0) e
            ∙ known-contains roles known)))
      system-IsOwned

All-none : (xs : List String) → All (λ p. contains_str [] p ≡ false) xs
All-none [] = tt
All-none (x ∷ xs) = (refl, All-none xs)

register-selected_patterns :
    (sel : Selection)
    → ValidRoles sel.roles
    → All (λ role. IsDistinct (or_empty (lookup role sel.capabilities))) sel.roles
    → register sel ≡ some (system_patterns ++ selected_patterns sel.roles sel.capabilities)
unfolding register
register-selected_patterns sel valid caps =
    let (owned, d) = selected_patterns-IsDistinct sel.roles sel.capabilities valid.distinct caps in
    let ps = selected_patterns sel.roles sel.capabilities in
    handle_all-new (system_patterns ++ ps) []
      (IsDistinct-append system_patterns ps (refl, (refl, (refl, tt))) d
        (system-apart sel.roles ps valid.known owned))
      (All-none (system_patterns ++ ps))

All-DistinctAt :
    (caps : Dict (List String)) (roles : List String)
    → DistinctAt caps
    → All (λ role. IsDistinct (or_empty (lookup role caps))) roles
All-DistinctAt caps [] h = tt
All-DistinctAt caps (role ∷ roles) h = (h role, All-DistinctAt caps roles h)

-- The patterns of a selection that `ParseRoles` and `ParseCapabilities` return are registered without
-- a panic: the mux has those of the system, then those of each capability in the order of the
-- selection.
pub register-parse_capabilities :
    (raw_roles raw_caps : String) (roles : List String) (caps : Dict (List String))
    → parse_roles raw_roles ≡ ok roles
    → parse_capabilities roles raw_caps ≡ ok caps
    → register (record { roles = roles; capabilities = caps })
      ≡ some (system_patterns ++ selected_patterns roles caps)
register-parse_capabilities raw_roles raw_caps roles caps e₁ e₂ =
    register-selected_patterns (record { roles = roles; capabilities = caps })
      (parse_roles-valid raw_roles roles e₁)
      (All-DistinctAt caps roles (parse_capabilities-DistinctAt roles raw_caps e₂))
