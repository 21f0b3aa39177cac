-- ===== src/Outbound/Client.antt =====
-- internal/outbound/client.go: `DoJSON` with its retries, and the metric's outcome of observed.go. The
-- HTTP transport, the context, the timer, encoding/json and the source of access tokens are parameters.
use Prim.Native.String.{◌++◌}
use gateway_runtime.Prelude.{
  ℕ, zero, suc, ◌-◌, ◌^◌, String, Bool, ◌||◌, List, [], ◌∷◌, Option, none, some, Result, ok, err,
  ltb, leb, ◌==◌, length, is_empty, contains_str, str_eq, if◌then◌else◌,
}
use gateway_runtime.Prelude.Dict.{Dict, insert}
use gateway_runtime.Prelude.Exec.{Exec, pure, raise, lift, ◌>>=◌, attempt, wrap}
use gateway_runtime.Duration.{ℤ, pos, negsuc, Duration, positive_or}
use gateway_runtime.Text.Trim.{trim_left_of, trim_right_of}
use gateway_runtime.Outbound.{
  ErrorKind, rate_limited, unavailable, unauthorized, forbidden, normalize_status,
}

-- an `*Error`, the error of a context, and any other error
pub data ClientError : Type 0 where
  coded : ErrorKind → ℕ → ClientError
  context_done plain : String → ClientError

pub record HttpRequest : Type 0 where
  pub method : String
  pub path : String
  pub headers : Dict String
  pub body : String

-- `read n` is what reading at most n bytes of the body gives.
pub record HttpResponse : Type 0 where
  pub status : ℕ
  pub read : ℕ → Result String (List ℕ)

-- What a call finds around it. `make` refuses what `http.NewRequestWithContext` refuses; `timer` waits
-- for a positive number of nanoseconds, or fails with the context's error.
pub record Environment (W : Type 0) : Type 0 where
  pub make : HttpRequest → Result String HttpRequest
  pub send : HttpRequest → Exec String W HttpResponse
  pub context_error : W → Option String
  pub timer : ℕ → Exec String W (Unit {0})
  pub request_id : String
  pub trace_id : String

pub record Client (W : Type 0) : Type 0 where
  pub base_path : String
  pub tokens : Option (String → Exec String W String)
  pub max_retries : ℤ
  pub retry_backoff : Duration
  pub max_body_bytes : ℤ

-- a call: the body is what encoding/json makes of the input, and `decode` reads the output, where there
-- are such
pub record CallSpec (A : Type 0) : Type 0 where
  pub session_id : String
  pub method : String
  pub route : String
  pub body : Option (Result String String)
  pub decode : Option (List ℕ → Result String A)

unfoldable pub is_idempotent : String → Bool
is_idempotent method = contains_str ("GET" ∷ "HEAD" ∷ "OPTIONS" ∷ []) method

unfoldable pub retryable_response : ℕ → Bool
retryable_response status = status == 502 || status == 503 || status == 504

abbrev put_given : String → String → Dict String → Dict String
put_given key value headers = if str_eq value "" then headers else insert key value headers

abbrev pub more : ℤ → ℕ
more (pos n) = n
more (negsuc n) = 0

-- The number of attempts, where `MaxRetries` is below the largest int.
unfoldable pub attempts_of : ℤ → String → ℕ
unfolding is_idempotent
attempts_of max_retries method = if is_idempotent method then suc (more max_retries) else 1

module _ {W A : Type 0} (c : Client W) (env : Environment W) (spec : CallSpec A) where
  unfoldable pub target_path : String
  unfolding trim_left_of trim_right_of
  target_path = trim_right_of "/" c.base_path ++ ("/" ++ trim_left_of "/" spec.route)

  -- the headers but for the access token
  unfoldable pub plain_headers : String → Dict String
  unfolding insert
  plain_headers body = put_given "X-Trace-ID" env.trace_id (
      put_given "X-Request-ID" env.request_id (
        if str_eq body ""
        then ("Accept", "application/json") ∷ []
        else insert "Content-Type" "application/json" (("Accept", "application/json") ∷ [])))

  abbrev pub authorize :
      Option (String → Exec String W String) → HttpRequest → Exec ClientError W HttpRequest
  authorize none req = pure req
  authorize (some tokens) req =
      if str_eq spec.session_id ""
      then pure req
      else (wrap plain (tokens spec.session_id) >>= λ token.
          pure (record req { headers = insert "Authorization" ("Bearer " ++ token) req.headers }))

  -- the request without its access token
  unfoldable pub made : String → Exec ClientError W HttpRequest
  unfolding target_path plain_headers
  made body = wrap plain (
      lift (
        env.make (record {
          method = spec.method;
          path = target_path;
          headers = plain_headers body;
          body = body;
        })))

  -- `newRequest`
  unfoldable pub new_request : String → Exec ClientError W HttpRequest
  unfolding made insert
  new_request body = made body >>= authorize c.tokens

  abbrev decoded : Option (List ℕ → Result String A) → List ℕ → Result ClientError (Option A)
  decoded none bytes = ok none
  decoded (some decode) bytes =
      if is_empty bytes
      then ok none
      else elim (decode bytes) [ ok a ↦ ok (some a) | err e ↦ err (plain e) ]

  abbrev received : ℕ → ℕ → Result String (List ℕ) → Result ClientError (Option A)
  received status limit (err e) = err (plain e)
  received status limit (ok bytes) =
      if ltb limit (length bytes)
      then err (plain "outbound response exceeds the limit")
      else if ltb status 200 || leb 300 status
      then err (coded (normalize_status status) status)
      else decoded spec.decode bytes

  -- `handleResponse`
  unfoldable pub handle_response : HttpResponse → Result ClientError (Option A)
  unfolding normalize_status
  handle_response resp =
      let limit = positive_or c.max_body_bytes (2 ^ 20) in
      received resp.status limit (resp.read (suc limit))

  abbrev context_or : Option String → Exec ClientError W (Unit {0})
  context_or none = pure tt
  context_or (some e) = raise (context_done e)

  abbrev check_context : Exec ClientError W (Unit {0})
  check_context w = context_or (env.context_error w) w

  -- `waitBackoff`
  abbrev pub backoff_for : Duration → Exec ClientError W (Unit {0})
  backoff_for (pos (suc n)) = wrap context_done (env.timer (suc n))
  backoff_for (pos zero) = check_context
  backoff_for (negsuc n) = check_context

  unfoldable pub wait_backoff : Exec ClientError W (Unit {0})
  wait_backoff = backoff_for c.retry_backoff

  -- the next round after a wait, where there is a next round
  abbrev pub next_or :
      Option (Exec ClientError W (Option A)) → ClientError → Exec ClientError W (Option A)
  next_or none e = raise e
  next_or (some next) e = wait_backoff >>= λ _. next

  -- after a transport error, by the error of the context
  abbrev pub after_failure :
      Option (Exec ClientError W (Option A))
      → String
      → Option String
      → Exec ClientError W (Option A)
  after_failure rest e (some done) = raise (context_done done)
  after_failure rest e none = next_or rest (plain e)

  -- after a response of a status, by what `handleResponse` makes of it
  abbrev pub after_response :
      Option (Exec ClientError W (Option A))
      → ℕ
      → Result ClientError (Option A)
      → Exec ClientError W (Option A)
  after_response rest status (ok a) = pure a
  after_response rest status (err e) = if retryable_response status then next_or rest e else raise e

  -- the rest of a round, from the transport's answer on
  abbrev pub after_send :
      Option (Exec ClientError W (Option A))
      → Result String HttpResponse
      → Exec ClientError W (Option A)
  after_send rest (err e) w = after_failure rest e (env.context_error w) w
  after_send rest (ok resp) w = after_response rest resp.status (handle_response resp) w

  abbrev pub one_round :
      String → Option (Exec ClientError W (Option A)) → Exec ClientError W (Option A)
  one_round body rest =
      new_request body >>= λ req. attempt (env.send req) >>= λ answer. after_send rest answer

  -- The loop, by the number of attempts that follow the present one.
  unfoldable pub rounds : ℕ → String → Exec ClientError W (Option A)
  unfolding new_request handle_response wait_backoff retryable_response
  rounds zero body = one_round body none
  rounds (suc left) body = one_round body (some (rounds left body))

  abbrev pub with_body : Option (Result String String) → Exec ClientError W (Option A)
  with_body none = rounds (attempts_of c.max_retries spec.method - 1) ""
  with_body (some (err e)) = raise (plain e)
  with_body (some (ok body)) = rounds (attempts_of c.max_retries spec.method - 1) body

  -- `DoJSON`
  unfoldable pub do_json : Exec ClientError W (Option A)
  unfolding rounds attempts_of
  do_json = with_body spec.body

-- `outboundMetricOutcome` (observed.go)
unfoldable pub outbound_metric_outcome : Option ClientError → String
outbound_metric_outcome none = "success"
outbound_metric_outcome (some (coded rate_limited s)) = "rate_limited"
outbound_metric_outcome (some (coded unavailable s)) = "unavailable"
outbound_metric_outcome (some (coded unauthorized s)) = "unauthorized"
outbound_metric_outcome (some (coded forbidden s)) = "forbidden"
outbound_metric_outcome (some _) = "error"
