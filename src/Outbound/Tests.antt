-- ===== src/Outbound/Tests.antt =====
-- A breaker that opens at the second failure, with room for two calls.
use gateway_runtime.Prelude.{
  if◌then◌else◌, ℕ, ◌≡◌, refl, ◌↔◌, ◌≤◌, inr, some, none, false, ok, err, arith, some_inj, ◌<◌,
}
use gateway_runtime.Duration.{pos}
use gateway_runtime.Outbound.{
  Limits, capacity, Circuit, circuit_open, success, other, is_circuit_failure, before_request,
  after_result, enter, finish,
}
use gateway_runtime.Outbound.Client.{Client, Environment, CallSpec, do_json, is_idempotent}
use gateway_runtime.Outbound.Attempts.{counting, counting_client, do_json-Sends}
use gateway_runtime.Outbound.Breaker.{
  Reached, fresh, entered, finished, Sound, MayEnter, after_probe, Reached-Sound, enter_iff,
  finish-enter,
}

abbrev limits : Limits
limits = record { max_concurrent = pos 2; failure_threshold = pos 2; open_for = pos 100 }

abbrev start : Circuit
start = record { failures = 0; opened_at = 0; half_open = false; running = 0 }

abbrev one_failure : Circuit
one_failure = finish limits 11 other (enter limits 10 start).1

abbrev opened : Circuit
opened = record { failures = 2; opened_at = 13; half_open = false; running = 0 }

opens :
    (finish limits 13 other (enter limits 12 one_failure).1 ≡ opened)
    × ((enter limits 112 opened).0 ≡ err circuit_open)
    × ((enter limits 113 opened).0 ≡ ok tt)
unfolding enter before_request finish after_result is_circuit_failure
opens = (refl, refl, refl)

reached : Reached limits one_failure
reached = finished 11 other (omega arith) (entered 10 fresh)

Reached-Sound_example : Sound limits one_failure
Reached-Sound_example = Reached-Sound reached

enter_iff_example : ((enter limits 113 opened).0 ≡ ok tt) ↔ MayEnter limits 113 opened
enter_iff_example = enter_iff limits 113 opened

-- both places of the semaphore are free
room : (n : ℕ) → capacity limits ≡ some n → opened.running < n
room n e = let same = some_inj e in ground (arith, same)

abbrev may_probe : MayEnter limits 113 opened
may_probe = record { room = room; circuit = inr (omega arith, refl) }

finish-enter_example :
    finish limits 120 success (enter limits 113 opened).1 ≡ after_probe limits 120 success opened
finish-enter_example = finish-enter limits 113 120 success opened (omega arith) may_probe

-- surroundings in which no request is answered, and two retries
abbrev silent : Environment ℕ
silent = record {
  make = λ r. ok r;
  send = λ r w. (err "no route to host", w);
  context_error = λ w. none;
  timer = λ n w. (ok tt, w);
  request_id = "r-1";
  trace_id = "";
}

abbrev client : Client ℕ
client = record {
  base_path = "/api/";
  tokens = none;
  max_retries = pos 2;
  retry_backoff = pos 5;
  max_body_bytes = pos 100;
}

abbrev lookup_call : CallSpec ℕ
lookup_call = record {
  session_id = "";
  method = "GET";
  route = "/items";
  body = none;
  decode = none;
}

abbrev sent : ℕ
sent = (do_json (counting_client client) (counting silent) lookup_call (0, 0)).1.0

sent_thrice : sent ≡ 3
unfolding do_json
sent_thrice = refl

do_json-Sends_example : sent ≤ (if is_idempotent "GET" then 3 else 1)
do_json-Sends_example = do_json-Sends client silent lookup_call 0
