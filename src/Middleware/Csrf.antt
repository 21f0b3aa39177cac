-- ===== src/Middleware/Csrf.antt =====
-- csrf.go: the double-submit token and the origin of requests that change something.
use gateway_runtime.Prelude.{
  String, Bool, false, ◌&&◌, not, [], ◌∷◌, Option, none, some, str_eq, contains_str, if◌then◌else◌,
}
use gateway_runtime.Text.{equal_fold}
use gateway_runtime.Duration.{pos}
use gateway_runtime.Middleware.{Request, Response, Handler, http_error, with_cookie, on_response}

-- what the code reads of a `url.URL`
pub record Origin : Type 0 where
  pub scheme : String
  pub host : String

pub record CsrfConfig : Type 0 where
  pub public_url : String
  pub secure : Bool
  pub cookie_name : String

abbrev csrf_cookie_name : String
csrf_cookie_name = "__Host-bff_csrf"

-- `CSRFCookieNameFor`
abbrev pub csrf_cookie_name_for : Bool → String
csrf_cookie_name_for secure = if secure then csrf_cookie_name else "bff_csrf"

unfoldable pub is_unsafe_method : String → Bool
is_unsafe_method method = not (contains_str ("GET" ∷ "HEAD" ∷ "OPTIONS" ∷ "TRACE" ∷ []) method)

-- The comparison of the bytes in constant time gives the equality of the texts.
unfoldable pub constant_time_equal : String → String → Bool
constant_time_equal a b = not (str_eq a "") && str_eq a b

abbrev pub value_of : Option String → String
value_of none = ""
value_of (some v) = v

abbrev same_origin : Origin → Option Origin → Bool
same_origin expected none = false
same_origin expected (some u) =
    equal_fold u.scheme expected.scheme && equal_fold u.host expected.host

-- the header Origin, or else Referer
abbrev pub origin_of : Request → String
origin_of r = if str_eq (r.header "Origin") "" then r.header "Referer" else r.header "Origin"

abbrev pub same_origin_with : (String → Option Origin) → Request → Option Origin → Bool
same_origin_with parse r none = false
same_origin_with parse r (some expected) =
    not (str_eq (origin_of r) "") && same_origin expected (parse (origin_of r))

unfoldable pub same_origin_request : (String → Option Origin) → Request → Option Origin → Bool
same_origin_request parse r expected = same_origin_with parse r expected

abbrev pub name_of : CsrfConfig → String
name_of cfg = if str_eq cfg.cookie_name "" then csrf_cookie_name else cfg.cookie_name

-- `ensureCSRFCookie`; `token` is what `randomToken` draws
unfoldable pub ensure_csrf_cookie : CsrfConfig → String → Request → Response → Response
ensure_csrf_cookie cfg token r resp =
    if str_eq (value_of (r.cookie (name_of cfg))) ""
    then with_cookie
        (record {
          name = name_of cfg;
          value = token;
          secure = cfg.secure;
          http_only = false;
          max_age = pos 0;
          expires = 0;
        })
        resp
    else resp

-- the message of the refusal, where the request is refused
unfoldable pub refusal : (String → Option Origin) → CsrfConfig → Request → Option String
unfolding is_unsafe_method same_origin_request
refusal parse cfg r =
    let token = value_of (r.cookie (name_of cfg)) in
    if not (is_unsafe_method r.method)
    then none
    else if not (same_origin_request parse r (parse cfg.public_url))
    then some "csrf origin rejected"
    else if str_eq token ""
    then some "csrf token missing"
    else if not (constant_time_equal token (r.header "X-CSRF-Token"))
    then some "csrf token invalid"
    else none

abbrev pub unless_refused : {W : Type 0} → Option String → Handler W → Handler W
unless_refused none next r w = next r w
unless_refused (some message) next r w = (http_error 403 message, w)

-- `CSRF`
unfoldable pub csrf :
    {W : Type 0} → (String → Option Origin) → CsrfConfig → String → Handler W → Handler W
unfolding ensure_csrf_cookie refusal
csrf parse cfg token next r w =
    on_response (ensure_csrf_cookie cfg token r) (unless_refused (refusal parse cfg r) next r w)
