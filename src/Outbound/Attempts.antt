-- ===== src/Outbound/Attempts.antt =====
-- client.go: how often a call sends its request.
use gateway_runtime.Prelude.{
  ℕ, zero, suc, ◌+◌, ◌-◌, ◌≤◌, String, Option, none, some, Result, ok, err, arith, inl, inr,
  Bool-cases, Option-cases, Result-cases, if◌then◌else◌, str_eq,
}
use gateway_runtime.Prelude.Exec.{Exec, ◌>>=◌, attempt}
use gateway_runtime.Duration.{ℤ, pos, negsuc}
use gateway_runtime.Outbound.Client.{
  more, ClientError, plain, HttpRequest, HttpResponse, Environment, Client, CallSpec, is_idempotent,
  retryable_response, attempts_of, authorize, new_request, backoff_for, one_round, with_body, made,
  next_or, after_failure, after_response, handle_response, wait_backoff, after_send, rounds,
  do_json,
}

-- a call that leaves a counter in front of the world alone, and one that adds to it
abbrev pub quiet : {E W A : Type 0} → Exec E W A → Exec E (ℕ × W) A
quiet m (n, w) = ((m w).0, (n, (m w).1))

abbrev pub counted : {E W A : Type 0} → Exec E W A → Exec E (ℕ × W) A
counted m (n, w) = ((m w).0, (suc n, (m w).1))

-- The same surroundings, with the requests that were sent counted.
abbrev pub counting : {W : Type 0} → Environment W → Environment (ℕ × W)
counting env = record {
  make = env.make;
  send = λ r. counted (env.send r);
  context_error = λ p. env.context_error p.1;
  timer = λ n. quiet (env.timer n);
  request_id = env.request_id;
  trace_id = env.trace_id;
}

abbrev quiet_tokens :
    {W : Type 0}
    → Option (String → Exec String W String)
    → Option (String → Exec String (ℕ × W) String)
quiet_tokens none = none
quiet_tokens (some tokens) = some (λ id. quiet (tokens id))

abbrev pub counting_client : {W : Type 0} → Client W → Client (ℕ × W)
counting_client c = record {
  base_path = c.base_path;
  tokens = quiet_tokens c.tokens;
  max_retries = c.max_retries;
  retry_backoff = c.retry_backoff;
  max_body_bytes = c.max_body_bytes;
}

-- at most `k` requests are sent
abbrev Sends : {E W A : Type 0} → ℕ → Exec E (ℕ × W) A → Type 0
Sends {E} {W} k m = (n : ℕ) (w : W) → (m (n, w)).1.0 ≤ n + k

Sends-bind :
    {E W A B : Type 0} (j k : ℕ) (m : Exec E (ℕ × W) A) (f : A → Exec E (ℕ × W) B)
    → Sends j m
    → ((a : A) → Sends k (f a))
    → Sends (j + k) (m >>= f)
Sends-bind j k m f h g n w = elim (Result-cases (m (n, w)).0) [
  | inl (a, e) ↦ rw e (omega (arith, h n w, g a (m (n, w)).1.0 (m (n, w)).1.1))
  | inr (x, e) ↦ rw e (omega (arith, h n w))
]

send_once :
    {W A : Type 0} (m : Exec String W A)
    → Sends 1 (attempt {E = ClientError} {W = ℕ × W} (counted m))
send_once m n w = omega arith

module _ {W A : Type 0} (c : Client W) (env : Environment W) (spec : CallSpec A) where
  authorize_quiet :
      (tokens : Option (String → Exec String W String)) (req : HttpRequest)
      → Sends 0 (authorize (counting_client c) (counting env) spec (quiet_tokens tokens) req)
  authorize_quiet none req n w = omega arith
  authorize_quiet (some tokens) req n w = elim (Bool-cases (str_eq spec.session_id "")) [
    | inl e ↦ rw e (omega arith)
    | inr e ↦ elim (Result-cases (tokens spec.session_id w).0) [
      | inl (t, p) ↦ rw (e, p) (omega arith)
      | inr (x, p) ↦ rw (e, p) (omega arith)
    ]
  ]

  made_quiet : (body : String) → Sends 0 (made (counting_client c) (counting env) spec body)
  unfolding made
  made_quiet body n w = omega arith

  new_request_quiet :
      (body : String) → Sends 0 (new_request (counting_client c) (counting env) spec body)
  unfolding new_request
  new_request_quiet body =
      Sends-bind 0 0 (made (counting_client c) (counting env) spec body)
        (authorize (counting_client c) (counting env) spec (quiet_tokens c.tokens))
        (made_quiet body) (authorize_quiet c.tokens)

  backoff_quiet : (d : ℤ) → Sends 0 (backoff_for (counting_client c) (counting env) spec d)
  backoff_quiet (pos (suc k)) n w = omega arith
  backoff_quiet (pos zero) n w = elim (Option-cases (env.context_error w)) [
    | inl e ↦ rw e (omega arith)
    | inr (x, e) ↦ rw e (omega arith)
  ]
  backoff_quiet (negsuc k) n w = elim (Option-cases (env.context_error w)) [
    | inl e ↦ rw e (omega arith)
    | inr (x, e) ↦ rw e (omega arith)
  ]

  wait_quiet : Sends 0 (wait_backoff (counting_client c) (counting env) spec)
  unfolding wait_backoff
  wait_quiet = backoff_quiet c.retry_backoff

  -- what the round that follows sends
  abbrev Follows : ℕ → Option (Exec ClientError (ℕ × W) (Option A)) → Type 0
  Follows k none = Unit
  Follows k (some next) = Sends k next

  next_or-Sends :
      (k : ℕ) (rest : Option (Exec ClientError (ℕ × W) (Option A))) (e : ClientError)
      → Follows k rest
      → Sends k (next_or (counting_client c) (counting env) spec rest e)
  next_or-Sends k none e h n w = omega arith
  next_or-Sends k (some next) e h n w = omega (
    arith,
    Sends-bind 0 k (wait_backoff (counting_client c) (counting env) spec) (λ _. next) wait_quiet
        (λ _. h) n w,
  )

  after_failure-Sends :
      (k : ℕ) (rest : Option (Exec ClientError (ℕ × W) (Option A))) (e : String)
      (done : Option String)
      → Follows k rest
      → Sends k (after_failure (counting_client c) (counting env) spec rest e done)
  after_failure-Sends k rest e none h n w = next_or-Sends k rest (plain e) h n w
  after_failure-Sends k rest e (some done) h n w = omega arith

  after_response-Sends :
      (k : ℕ) (rest : Option (Exec ClientError (ℕ × W) (Option A))) (status : ℕ)
      (r : Result ClientError (Option A))
      → Follows k rest
      → Sends k (after_response (counting_client c) (counting env) spec rest status r)
  after_response-Sends k rest status (ok a) h n w = omega arith
  after_response-Sends k rest status (err e) h n w = elim (Bool-cases (retryable_response status)) [
    | inl r ↦ rw r (next_or-Sends k rest e h n w)
    | inr r ↦ rw r (omega arith)
  ]

  after_send-Sends :
      (k : ℕ) (rest : Option (Exec ClientError (ℕ × W) (Option A)))
      (answer : Result String HttpResponse)
      → Follows k rest
      → Sends k (after_send (counting_client c) (counting env) spec rest answer)
  after_send-Sends k rest (err e) h n w = after_failure-Sends k rest e (env.context_error w) h n w
  after_send-Sends k rest (ok resp) h n w =
      after_response-Sends k rest resp.status
        (handle_response (counting_client c) (counting env) spec resp) h n w

  round-Sends :
      (k : ℕ) (body : String) (rest : Option (Exec ClientError (ℕ × W) (Option A)))
      → Follows k rest
      → Sends (0 + (1 + k)) (one_round (counting_client c) (counting env) spec body rest)
  round-Sends k body rest h =
      let send = λ (req : HttpRequest).
        Sends-bind 1 k (attempt {E = ClientError} (counted (env.send req)))
          (after_send (counting_client c) (counting env) spec rest) (send_once (env.send req))
          (λ answer. after_send-Sends k rest answer h) in
      Sends-bind 0 (1 + k) (new_request (counting_client c) (counting env) spec body) _
        (new_request_quiet body) send

  rounds-Sends :
      (left : ℕ) (body : String)
      → Sends (suc left) (rounds (counting_client c) (counting env) spec left body)
  unfolding rounds
  rounds-Sends zero body n w = omega (arith, round-Sends 0 body none tt n w)
  rounds-Sends (suc left) body n w = omega (
    arith,
    round-Sends (suc left) body (some (rounds (counting_client c) (counting env) spec left body))
        (rounds-Sends left body) n w,
  )

attempts_pos : (r : ℤ) (method : String) → 1 ≤ attempts_of r method
unfolding attempts_of
attempts_pos r method = ground arith

with_body-Sends :
    {W A : Type 0} (c : Client W) (env : Environment W) (spec : CallSpec A)
    (body : Option (Result String String))
    → Sends
        (attempts_of c.max_retries spec.method)
        (with_body (counting_client c) (counting env) spec body)
with_body-Sends c env spec none n w = omega (
  arith,
  rounds-Sends c env spec (attempts_of c.max_retries spec.method - 1) "" n w,
  attempts_pos c.max_retries spec.method,
)
with_body-Sends c env spec (some (err e)) n w = omega arith
with_body-Sends c env spec (some (ok body)) n w = omega (
  arith,
  rounds-Sends c env spec (attempts_of c.max_retries spec.method - 1) body n w,
  attempts_pos c.max_retries spec.method,
)

-- `DoJSON` sends its request at most once more than the configured number of retries, and at most once
-- where the method is not GET, HEAD or OPTIONS, whatever the transport, the context, the timer and the
-- source of tokens do.
pub do_json-Sends :
    {W A : Type 0} (c : Client W) (env : Environment W) (spec : CallSpec A) (w : W)
    → let sent = (do_json (counting_client c) (counting env) spec (0, w)).1.0 in
      sent ≤ (if is_idempotent spec.method then suc (more c.max_retries) else 1)
do_json-Sends c env spec w =
    let bound = with_body-Sends c env spec spec.body 0 w in
    unfold do_json attempts_of in omega (arith, bound)
