-- ===== src/RuntimeCfg.antt =====
-- internal/runtimecfg/runtime.go: the roles and the capabilities that a process runs with, parsed from
-- GATEWAY_ROLE and GATEWAY_CAPABILITIES, and their validation. A role is a text, as in the source.
pub mod Roles
pub mod Capabilities
pub mod Repeats
pub mod Defaults
pub mod Validation
mod Tests
use gateway_runtime.Prelude.{
  String, Bool, true, false, ◌&&◌, ◌||◌, not, List, [], ◌∷◌, ◌++◌, Option, none, some, Result, ok,
  err, ◌>>=◌, ◌>>◌, require, is_empty, contains_str, str_eq, if◌then◌else◌,
}
use gateway_runtime.Prelude.Dict.{Dict, lookup, insert}
use gateway_runtime.Text.{trim_space, to_lower, split, cut, contains, replace_all}

pub record Selection : Type 0 where
  pub roles : List String
  pub capabilities : Dict (List String)

abbrev pub role_rebff : String
role_rebff = "rebff"

abbrev pub role_storage : String
role_storage = "storage"

abbrev pub role_streaming : String
role_streaming = "streaming"

abbrev pub role_websocket : String
role_websocket = "websocket"

-- `allowed`, the sets as lists without repetition
abbrev allowed_table : Dict (List String)
allowed_table =
    (
      role_rebff,
      "oidc" ∷ "session" ∷ "token-refresh" ∷ "csrf" ∷ "user-context" ∷ "api-proxy" ∷ "coarse-authz"
          ∷ "audit" ∷ "trace-propagation" ∷ [],
    )
    ∷ (role_storage, "upload" ∷ "download" ∷ "multipart" ∷ "presign" ∷ "metadata" ∷ "audit" ∷ [])
    ∷ (role_streaming, "playback" ∷ "manifest" ∷ "token" ∷ "origin-select" ∷ "audit" ∷ [])
    ∷ (
      role_websocket,
      "connect" ∷ "publish" ∷ "subscribe" ∷ "presence" ∷ "heartbeat" ∷ "audit" ∷ [],
    )
    ∷ []

abbrev defaults_table : Dict (List String)
defaults_table =
    (
      role_rebff,
      "oidc" ∷ "session" ∷ "token-refresh" ∷ "csrf" ∷ "user-context" ∷ "api-proxy" ∷ "coarse-authz"
          ∷ "audit" ∷ "trace-propagation" ∷ [],
    )
    ∷ (role_storage, "upload" ∷ "download" ∷ "multipart" ∷ "presign" ∷ "metadata" ∷ "audit" ∷ [])
    ∷ (role_streaming, "playback" ∷ "manifest" ∷ "token" ∷ "origin-select" ∷ "audit" ∷ [])
    ∷ (
      role_websocket,
      "connect" ∷ "publish" ∷ "subscribe" ∷ "presence" ∷ "heartbeat" ∷ "audit" ∷ [],
    )
    ∷ []

-- reading a key that is missing gives the empty slice
abbrev pub or_empty : Option (List String) → List String
or_empty none = []
or_empty (some xs) = xs

abbrev is_present : Option (List String) → Bool
is_present none = false
is_present (some xs) = true

unfoldable pub is_role : String → Bool
unfolding lookup
is_role role = is_present (lookup role allowed_table)

pub is_allowed : String → String → Bool
unfolding lookup
is_allowed role cap = contains_str (or_empty (lookup role allowed_table)) cap

unfoldable pub defaults : String → List String
unfolding lookup
defaults role = or_empty (lookup role defaults_table)

-- `if !seen[x] { seen[x] = true; out = append(out, x) }`
abbrev pub add_new : List String → String → List String
add_new out x = if contains_str out x then out else out ++ x ∷ []

abbrev pub add_given : List String → String → List String
add_given out x = if str_eq x "" then out else add_new out x

-- The loop of `ParseRoles`; `out` holds the roles seen so far.
pub parse_roles_from : List String → List String → Result String (List String)
parse_roles_from [] out = ok out
parse_roles_from (part ∷ parts) out =
    let role = to_lower (trim_space part) in
    require (is_role role) "unsupported runtime role" >> parse_roles_from parts (add_new out role)

unfoldable pub parse_roles : String → Result String (List String)
unfolding parse_roles_from is_role
parse_roles raw = if str_eq (trim_space raw) "" then ok (role_rebff ∷ []) else do
  out ← parse_roles_from (split raw ",") []
  require (not (is_empty out)) "at least one runtime role is required"
  ok out

-- The loop of `parseCapList`; `out` holds the capabilities seen so far.
pub parse_cap_from : String → List String → List String → Result String (List String)
parse_cap_from role [] out = ok out
parse_cap_from role (part ∷ parts) out =
    let cap = to_lower (trim_space part) in
    require (str_eq cap "" || is_allowed role cap) "unsupported capability"
    >> parse_cap_from role parts (add_given out cap)

pub parse_cap_list : String → String → Result String (List String)
unfolding parse_cap_from is_allowed
parse_cap_list role raw = do
  out ← parse_cap_from role (split raw ",") []
  require (not (is_empty out)) "role requires at least one capability"
  ok out

-- a group `role:capability|capability`, cut at its first colon
abbrev parse_group_parts :
    List String → Dict (List String) → Option (String × String) → Result String (Dict (List String))
parse_group_parts roles out none =
    err "multi-role capabilities must use role:capability|capability syntax"
parse_group_parts roles out (some (name, list)) =
    let role = to_lower (trim_space name) in
    require (contains_str roles role) "capabilities configured for unselected role"
    >> (parse_cap_list role (replace_all list "|" ",") >>= λ caps. ok (insert role caps out))

pub parse_group : List String → String → Dict (List String) → Result String (Dict (List String))
parse_group roles group out =
    if str_eq (trim_space group) ""
    then ok out
    else parse_group_parts roles out (cut (trim_space group) ":")

pub parse_groups :
    List String → List String → Dict (List String) → Result String (Dict (List String))
parse_groups roles [] out = ok out
parse_groups roles (group ∷ groups) out =
    parse_group roles group out >>= λ out'. parse_groups roles groups out'

-- `out[role] = defaults[role]` for the roles that have no capability yet
pub fill_defaults : List String → Dict (List String) → Dict (List String)
fill_defaults [] out = out
fill_defaults (role ∷ roles) out =
    fill_defaults roles
      (if is_empty (or_empty (lookup role out)) then insert role (defaults role) out else out)

pub all_defaults : List String → Dict (List String) → Dict (List String)
all_defaults [] out = out
all_defaults (role ∷ roles) out = all_defaults roles (insert role (defaults role) out)

pub parse_single : String → String → Result String (Dict (List String))
unfolding parse_cap_list insert
parse_single role raw = do
  caps ← parse_cap_list role (replace_all raw "|" ",")
  ok (insert role caps [])

pub parse_many : List String → String → Result String (Dict (List String))
unfolding parse_groups parse_group fill_defaults
parse_many roles raw = do out ← parse_groups roles (split raw ";") []; ok (fill_defaults roles out)

abbrev parse_named : List String → String → Result String (Dict (List String))
parse_named (role ∷ []) raw =
    if contains raw ":" then parse_many (role ∷ []) raw else parse_single role raw
parse_named roles raw = parse_many roles raw

unfoldable pub parse_capabilities : List String → String → Result String (Dict (List String))
unfolding parse_single parse_many all_defaults
parse_capabilities roles raw =
    if str_eq (trim_space raw) "" then ok (all_defaults roles []) else parse_named roles raw

-- the inner loop of `Validate`
pub all_allowed : String → List String → Bool
all_allowed role [] = true
all_allowed role (cap ∷ caps) = is_allowed role cap && all_allowed role caps

-- The loop of `Validate` over the roles; `seen` holds those that it has passed.
pub validate_roles : Dict (List String) → List String → List String → Result String (List String)
validate_roles caps [] seen = ok seen
validate_roles caps (role ∷ roles) seen =
    require (is_role role) "unsupported runtime role"
    >> (require (not (contains_str seen role)) "duplicate runtime role"
        >> (require (not (is_empty (or_empty (lookup role caps))))
              "role requires at least one capability"
            >> (require (all_allowed role (or_empty (lookup role caps))) "unsupported capability"
                >> validate_roles caps roles (role ∷ seen))))

pub all_selected : List String → Dict (List String) → Bool
all_selected seen [] = true
all_selected seen ((role, caps) ∷ rest) = contains_str seen role && all_selected seen rest

unfoldable pub validate : Selection → Result String (Unit {0})
unfolding validate_roles all_selected all_allowed is_role is_allowed
validate sel = do
  require (not (is_empty sel.roles)) "at least one runtime role is required"
  seen ← validate_roles sel.capabilities sel.roles []
  require (all_selected seen sel.capabilities) "capabilities configured for unselected role"

unfoldable pub has_role : Selection → String → Bool
has_role s role = contains_str s.roles role
