-- ===== src/Policy/Laws.antt =====
-- static.go: decisions in terms of the roles' tables.
use gateway_runtime.Prelude.{
  String, Bool, false, ◌≡◌, ◌∙◌, refl, ◌||◌, List, [], ◌∷◌, contains_str, arith, eq_iff,
  contains_str-append, or-false, Bool-cases, inl, inr, str_eq,
}
use gateway_runtime.Prelude.Dict.{Dict, lookup}
use gateway_runtime.RuntimeCfg.{or_empty, add_new}
use gateway_runtime.Policy.{
  Static, Subject, add_all, collect, place, keys_sorted, evaluate, allowed,
}

-- some role of the list has the value in the table
abbrev pub grants : Dict (List String) → List String → String → Bool
grants table [] value = false
grants table (role ∷ roles) value =
    contains_str (or_empty (lookup role table)) value || grants table roles value

contains_str-add_new :
    (seen : List String) (v a : String)
    → contains_str (add_new seen v) a ≡ (contains_str seen a || str_eq v a)
contains_str-add_new seen v a = elim (Bool-cases (contains_str seen v)) [
  | inl old ↦ rw old (ground (arith, old, eq_iff v a))
  | inr new ↦ rw (new, contains_str-append seen (v ∷ []) a, or-false (str_eq v a)) refl
]

contains_str-add_all :
    (seen values : List String) (a : String)
    → contains_str (add_all seen values) a ≡ (contains_str seen a || contains_str values a)
unfolding add_all
contains_str-add_all seen [] a = ground arith
contains_str-add_all seen (v ∷ values) a =
    ground (arith, contains_str-add_all (add_new seen v) values a, contains_str-add_new seen v a)

contains_str-collect :
    (table : Dict (List String)) (roles seen : List String) (a : String)
    → contains_str (collect table roles seen) a ≡ (contains_str seen a || grants table roles a)
unfolding collect
contains_str-collect table [] seen a = ground arith
contains_str-collect table (role ∷ roles) seen a = ground (
  arith,
  contains_str-collect table roles (add_all seen (or_empty (lookup role table))) a,
  contains_str-add_all seen (or_empty (lookup role table)) a,
)

contains_str-place :
    (v : String) (xs : List String) (a : String)
    → contains_str (place v xs) a ≡ (str_eq v a || contains_str xs a)
unfolding place
contains_str-place v [] a = refl
contains_str-place v (x ∷ xs) a = ground (arith, contains_str-place v xs a)

contains_str-keys_sorted :
    (xs : List String) (a : String) → contains_str (keys_sorted xs) a ≡ contains_str xs a
unfolding keys_sorted
contains_str-keys_sorted [] a = refl
contains_str-keys_sorted (x ∷ xs) a =
    ground (arith, contains_str-keys_sorted xs a, contains_str-place x (keys_sorted xs) a)

-- The static policy allows a permission exactly when one of the subject's roles lists it, and the
-- capabilities of its decision are exactly those that one of the roles lists.
pub allowed-grants :
    (p : Static) (subject : Subject) (value : String)
    → (allowed p subject value ≡ grants p.role_permissions subject.roles value)
      × (contains_str (evaluate p subject).capabilities value
          ≡ grants p.role_capabilities subject.roles value)
unfolding allowed evaluate
allowed-grants p subject value = (
  contains_str-keys_sorted (collect p.role_permissions subject.roles []) value
      ∙ contains_str-collect p.role_permissions subject.roles [] value,
  contains_str-keys_sorted (collect p.role_capabilities subject.roles []) value
      ∙ contains_str-collect p.role_capabilities subject.roles [] value,
)
