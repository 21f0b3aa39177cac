-- ===== src/Middleware/RequestId.antt =====
-- request_id.go and trace.go: the identifiers that a request carries into logs, headers and other
-- services. A random identifier is an argument.
use Prim.Native.Char.{code}
use Prim.Native.String.{[], ◌∷◌}
use gateway_runtime.Prelude.{
  ℕ, suc, String, Bool, true, ◌&&◌, ◌||◌, not, leb, ◌==◌, str_eq, if◌then◌else◌,
}
use mathlib.Core.List.{List}
use gateway_runtime.Text.{trim_space, to_lower, split}
use gateway_runtime.Middleware.{Request, Handler, with_header, on_response}

-- `len(s)`, for a text of ASCII characters the number of its bytes
unfoldable pub text_length : String → ℕ
text_length [] = 0
text_length (c ∷ s) = suc (text_length s)

abbrev pub is_digit : ℕ → Bool
is_digit c = leb b'0' c && leb c b'9'

abbrev pub is_id_char : ℕ → Bool
is_id_char c =
    c == b'-'
    || c == b'_'
    || c == b'.'
    || is_digit c
    || (leb b'a' c && leb c b'z')
    || (leb b'A' c && leb c b'Z')

-- the loop over the characters
unfoldable pub all_chars : (ℕ → Bool) → String → Bool
all_chars p [] = true
all_chars p (c ∷ s) = p (code c) && all_chars p s

-- The length in bytes is tested before the characters; it is the number of characters where those pass.
unfoldable pub valid_request_id : String → Bool
unfolding text_length all_chars
valid_request_id v = not (str_eq v "") && leb (text_length v) 128 && all_chars is_id_char v

abbrev pub request_id_of : String → Request → String
request_id_of random r =
    if valid_request_id (trim_space (r.header "X-Request-ID"))
    then trim_space (r.header "X-Request-ID")
    else random

-- `RequestID`; `random` is what `randomRequestID` gives
unfoldable pub request_id : {W : Type 0} → String → Handler W → Handler W
unfolding valid_request_id trim_space
request_id random next r w =
    let id = request_id_of random r in
    on_response (with_header "X-Request-ID" id)
      (next (record r { context = record r.context { request_id = id } }) w)

abbrev is_hex : ℕ → Bool
is_hex c = is_digit c || (leb b'a' c && leb c b'f') || (leb b'A' c && leb c b'F')

abbrev zeros : String
zeros = "00000000000000000000000000000000"

-- The parts of a traceparent; hex.DecodeString accepts an even number of hexadecimal digits.
abbrev trace_id_of : List String → String
trace_id_of (List.◌∷◌ version (List.◌∷◌ id (List.◌∷◌ parent (List.◌∷◌ flags List.[])))) =
    if not (text_length id == 32)
    then ""
    else if not (all_chars is_hex id) || str_eq id zeros
    then ""
    else to_lower id
trace_id_of parts = ""

-- `traceIDFromTraceparent`
unfoldable pub trace_id_from_traceparent : String → String
unfolding text_length all_chars split to_lower
trace_id_from_traceparent v = trace_id_of (split v "-")

-- `TraceContext`; `random` is what `randomTraceID` gives
unfoldable pub trace_context : {W : Type 0} → String → Handler W → Handler W
unfolding trace_id_from_traceparent
trace_context random next r w =
    let given = trace_id_from_traceparent (r.header "traceparent") in
    let id = (if str_eq given "" then random else given) in
    on_response (with_header "X-Trace-ID" id)
      (next (record r { context = record r.context { trace_id = id } }) w)
