-- ===== src/WorkloadAuth.antt =====
-- internal/workloadauth/verifier.go: the bearer token of a calling workload, and its principal.
use gateway_runtime.Prelude.{
  String, ◌&&◌, ◌||◌, Option, none, some, Result, ok, err, ◌>>=◌, ◌>>◌, require, not, str_eq,
  if◌then◌else◌,
}
use gateway_runtime.Text.{trim_space, equal_fold, cut}
use gateway_runtime.Text.Trim.{trim_right_of}
use gateway_runtime.Http.{Request}

pub record Principal : Type 0 where
  pub service : String
  pub subject : String
  pub issuer : String

pub record Verifier : Type 0 where
  pub verify : String → Result String Principal

pub record Claims : Type 0 where
  pub subject : String
  pub issuer : String
  pub client_id : String
  pub azp : String

abbrev blank_or : String → String → String
blank_or s d = if str_eq s "" then d else s

-- the first of the client, the authorised party and the subject that is not blank
service_of : Claims → String
service_of c =
    blank_or (trim_space c.client_id) (blank_or (trim_space c.azp) (trim_space c.subject))

-- `OIDCVerifier.Verify`; `check` is go-oidc's verification of the token with the decoding of its
-- claims.
unfoldable pub verify : (String → Result String Claims) → String → Result String Principal
unfolding service_of
verify check raw_token = do
  require (not (str_eq (trim_space raw_token) "")) "workload token is required"
  c ← check (trim_space raw_token)
  require (not (str_eq (service_of c) "")) "workload token missing service identity"
  ok (record {
    service = service_of c;
    subject = trim_space c.subject;
    issuer = trim_space c.issuer;
  })

-- `OIDCConfig`
pub record OidcConfig : Type 0 where
  pub issuer : String
  pub audience : String

-- `NewOIDC`; `discover` is go-oidc's discovery of the issuer's keys, with the check of a raw token and
-- the decoding of its claims.
unfoldable pub new_oidc :
    (String → String → Result String (String → Result String Claims))
    → OidcConfig
    → Result String Verifier
unfolding verify trim_right_of
new_oidc discover cfg = do
  require (not (str_eq (trim_space cfg.issuer) "" || str_eq (trim_space cfg.audience) ""))
      "workload oidc issuer and audience are required"
  check ← discover (trim_right_of "/" (trim_space cfg.issuer)) (trim_space cfg.audience)
  ok (record { verify = verify check })

abbrev bearer_parts : Option (String × String) → Result String String
bearer_parts none = err "bearer token required"
bearer_parts (some (scheme, token)) =
    if equal_fold (trim_space scheme) "Bearer" && not (str_eq (trim_space token) "")
    then ok (trim_space token)
    else err "bearer token required"

unfoldable pub bearer_token : Request → Result String String
bearer_token r =
    let value = trim_space (r.header "Authorization") in
    if str_eq value "" then err "authorization header required" else bearer_parts (cut value " ")
