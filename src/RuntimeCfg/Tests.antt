-- ===== src/RuntimeCfg/Tests.antt =====
-- Texts of roles and capabilities.
use gateway_runtime.Prelude.{◌≡◌, refl, String, List, [], ◌∷◌, ok}
use gateway_runtime.Prelude.Dict.{Dict, lookup, insert}
use gateway_runtime.Text.{trim_space, to_lower, split, cut, contains, replace_all}
use gateway_runtime.RuntimeCfg.{defaults, parse_roles, parse_capabilities, validate}
use gateway_runtime.RuntimeCfg.Roles.{ValidRoles, parse_roles-valid}
use gateway_runtime.RuntimeCfg.Validation.{parse-validate}

abbrev roles : List String
roles = "storage" ∷ "rebff" ∷ []

roles_parse : parse_roles " Storage, rebff,storage" ≡ ok roles
unfolding parse_roles trim_space split to_lower
roles_parse = refl

parse_roles-valid_example : ValidRoles roles
parse_roles-valid_example = parse_roles-valid " Storage, rebff,storage" roles roles_parse

abbrev capabilities : Dict (List String)
capabilities =
    ("storage", "upload" ∷ "download" ∷ [])
    ∷ (
      "rebff",
      "oidc" ∷ "session" ∷ "token-refresh" ∷ "csrf" ∷ "user-context" ∷ "api-proxy" ∷ "coarse-authz"
          ∷ "audit" ∷ "trace-propagation" ∷ [],
    )
    ∷ []

capabilities_parse : parse_capabilities roles "storage:upload|download;" ≡ ok capabilities
unfolding parse_capabilities trim_space split to_lower cut contains replace_all lookup insert
    defaults
capabilities_parse = refl

parse-validate_example : validate (record { roles = roles; capabilities = capabilities }) ≡ ok tt
parse-validate_example =
    parse-validate " Storage, rebff,storage" "storage:upload|download;" roles capabilities
      roles_parse capabilities_parse
