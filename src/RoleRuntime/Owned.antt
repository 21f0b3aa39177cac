-- ===== src/RoleRuntime/Owned.antt =====
-- server.go: the role and the capability for which a pattern is registered.
use gateway_runtime.Prelude.{
  String, true, false, ◌≡◌, ◌∙◌, refl, ap, ◌||◌, List, [], ◌∷◌, ◌++◌, contains_str,
  contains_str-append, All-contains_str, str_eq, eq_iff, if◌then◌else◌, IsDistinct, All, Bool-cases,
  inl, inr, arith, subst,
}
use gateway_runtime.Prelude.Dict.{Dict, lookup}
use gateway_runtime.RuntimeCfg.{or_empty, role_storage, role_streaming, role_websocket}
use gateway_runtime.RoleRuntime.Register.{
  system_patterns, storage_patterns, streaming_patterns, websocket_patterns, table_of,
}

-- the capability of a table that has a pattern
cap_in : Dict (List String) → String → String
cap_in [] p = ""
cap_in ((cap, ps) ∷ rest) p = let later = cap_in rest p in if contains_str ps p then cap else later

-- the role and the capability of a pattern, none for one of the system's
owner_in : Dict (Dict (List String)) → String → String × String
unfolding cap_in
owner_in [] p = ("", "")
owner_in ((role, table) ∷ rest) p =
    let later = owner_in rest p in
    let cap = cap_in table p in if str_eq cap "" then later else (role, cap)

pub owner : String → String × String
unfolding owner_in
owner p =
    owner_in
      ((role_storage, storage_patterns)
        ∷ (role_streaming, streaming_patterns)
        ∷ (role_websocket, websocket_patterns)
        ∷ [])
      p

abbrev pub OwnedBy : String → String → List String → Type 0
OwnedBy role cap ps = All (λ p. owner p ≡ (role, cap)) ps × IsDistinct ps

abbrev pub IsOwned : String → Dict (List String) → Type 0
IsOwned role = All (λ e. OwnedBy role e.0 e.1)

storage-IsOwned : IsOwned role_storage storage_patterns
unfolding owner
storage-IsOwned = (
  ((refl, (refl, tt)), (refl, (refl, tt))),
  (
    ((refl, (refl, tt)), (refl, (refl, tt))),
    (
      ((refl, tt), (refl, tt)),
      (
        ((refl, (refl, (refl, (refl, tt)))), (refl, (refl, (refl, (refl, tt))))),
        (((refl, (refl, (refl, tt))), (refl, (refl, (refl, tt)))), tt),
      ),
    ),
  ),
)

streaming-IsOwned : IsOwned role_streaming streaming_patterns
unfolding owner
streaming-IsOwned = (
  ((refl, tt), (refl, tt)),
  (((refl, tt), (refl, tt)), (((refl, tt), (refl, tt)), (((refl, tt), (refl, tt)), tt))),
)

websocket-IsOwned : IsOwned role_websocket websocket_patterns
unfolding owner
websocket-IsOwned = (
  ((refl, tt), (refl, tt)),
  (
    ((refl, tt), (refl, tt)),
    (((refl, tt), (refl, tt)), (((refl, tt), (refl, tt)), (((refl, tt), (refl, tt)), tt))),
  ),
)

pub table_of-IsOwned : (role : String) → IsOwned role (table_of role)
table_of-IsOwned role = ground (
  arith,
  eq_iff role role_storage,
  eq_iff role role_streaming,
  eq_iff role role_websocket,
  storage-IsOwned,
  streaming-IsOwned,
  websocket-IsOwned,
)

pub lookup-IsOwned :
    (role cap : String) (d : Dict (List String))
    → IsOwned role d
    → OwnedBy role cap (or_empty (lookup cap d))
unfolding lookup
lookup-IsOwned role cap [] _ = (tt, tt)
lookup-IsOwned role cap ((name, ps) ∷ d) (h, rest) = elim (Bool-cases (str_eq name cap)) [
  | inl e ↦ rw e (subst (λ c. OwnedBy role c ps) ((eq_iff name cap).0 e) h)
  | inr e ↦ rw e (lookup-IsOwned role cap d rest)
]

pub true-not-false : true ≡ false → ⊥
true-not-false e = cc

-- lists of patterns that have no owner in common have no pattern in common
pub contains_str-none {κ} :
    (P : String → Type κ) (xs : List String) (a : String)
    → All P xs
    → ¬ P a
    → contains_str xs a ≡ false
contains_str-none P xs a h differs = elim (Bool-cases (contains_str xs a)) [
  | inl e ↦ absurd (differs (All-contains_str P xs a h e))
  | inr e ↦ e
]

pub IsDistinct-append :
    (xs ys : List String)
    → IsDistinct xs
    → IsDistinct ys
    → All (λ a. contains_str ys a ≡ false) xs
    → IsDistinct (xs ++ ys)
IsDistinct-append [] ys hx hy apart = hy
IsDistinct-append (x ∷ xs) ys (fresh, hx) hy (px, apart) = (
  contains_str-append xs ys x ∙ ap (λ b. b || contains_str ys x) fresh ∙ px,
  IsDistinct-append xs ys hx hy apart,
)

pub All-map {κ κ'} :
    {P : String → Type κ} {Q : String → Type κ'} (xs : List String)
    → ((a : String) → P a → Q a)
    → All P xs
    → All Q xs
All-map [] f h = tt
All-map (x ∷ xs) f (p, h) = (f x p, All-map xs f h)

pub system-IsOwned : All (λ p. owner p ≡ ("", "")) system_patterns
unfolding owner
system-IsOwned = (refl, (refl, (refl, tt)))
