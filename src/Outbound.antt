-- ===== src/Outbound.antt =====
-- internal/outbound/protected.go: the circuit breaker and the bulkhead in front of the outbound client.
-- `errors.go` gives the kinds of errors. A call has two steps, entering and finishing, between which
-- other calls may run; the call of the next client lies between them and is not part of the state.
pub mod Breaker
pub mod Client
pub mod Attempts
mod Tests
use gateway_runtime.Prelude.{
  ℕ, suc, ◌+◌, ◌-◌, ◌*◌, Bool, true, false, ◌&&◌, ◌||◌, not, Option, none, some, Result, ok, err,
  ltb, leb, ◌==◌, if◌then◌else◌,
}
use gateway_runtime.Prelude.Exec.{Exec}
use gateway_runtime.Duration.{ℤ, pos, negsuc, Duration, second, positive_or}
use gateway_runtime.Session.{Time, is_zero}

-- the settings of `ProtectedClient` and, after `init`, what they fall back to
pub record Limits : Type 0 where
  pub max_concurrent : ℤ
  pub failure_threshold : ℤ
  pub open_for : Duration

-- the size of the semaphore, `none` where there is none
abbrev capacity_of : ℤ → Option ℕ
capacity_of (pos n) = if ltb 0 n then some n else none
capacity_of (negsuc n) = none

abbrev pub capacity : Limits → Option ℕ
capacity l = capacity_of l.max_concurrent

abbrev pub threshold : Limits → ℕ
threshold l = positive_or l.failure_threshold 5

abbrev pub open_for : Limits → ℕ
open_for l = positive_or l.open_for (15 * second)

-- `running` is the number of tokens in the semaphore.
pub record Circuit : Type 0 where
  pub failures : ℕ
  pub opened_at : Time
  pub half_open : Bool
  pub running : ℕ

pub data Refusal : Type 0 where
  bulkhead_full circuit_open circuit_half_open : Refusal

-- `ErrorKind` (errors.go)
pub data ErrorKind : Type 0 where
  bad_request unauthorized forbidden not_found conflict rate_limited unavailable upstream_error :
      ErrorKind

-- `normalizeStatus`
unfoldable pub normalize_status : ℕ → ErrorKind
normalize_status status =
    if status == 400
    then bad_request
    else if status == 401
    then unauthorized
    else if status == 403
    then forbidden
    else if status == 404
    then not_found
    else if status == 409
    then conflict
    else if status == 429
    then rate_limited
    else if status == 502 || status == 503 || status == 504
    then unavailable
    else upstream_error

-- What the next client returned: nil, an error that is `context.Canceled`, an `*Error` of a kind, or
-- any other error.
pub data Returned : Type 0 where
  success cancelled other : Returned
  failed : ErrorKind → Returned

abbrev is_unavailable : ErrorKind → Bool
is_unavailable unavailable = true
is_unavailable _ = false

unfoldable pub is_circuit_failure : Returned → Bool
is_circuit_failure success = false
is_circuit_failure cancelled = false
is_circuit_failure (failed kind) = is_unavailable kind
is_circuit_failure other = true

-- `beforeRequest`
unfoldable pub before_request : Limits → Time → Exec Refusal Circuit (Unit {0})
before_request l now c =
    if is_zero c.opened_at
    then (ok tt, c)
    else if ltb (now - c.opened_at) (open_for l)
    then (err circuit_open, c)
    else if c.half_open
    then (err circuit_half_open, c)
    else (ok tt, record c { half_open = true })

-- `afterResult`
unfoldable pub after_result : Limits → Time → Returned → Circuit → Circuit
after_result l now r c =
    if not (is_circuit_failure r)
    then record c { failures = 0; opened_at = 0; half_open = false }
    else if c.half_open
    then record c { failures = threshold l; opened_at = now; half_open = false }
    else record c {
      failures = suc c.failures;
      opened_at = if leb (threshold l) (suc c.failures) then now else c.opened_at;
    }

-- the `select` on the semaphore, and the release of its token
abbrev pub has_room : Option ℕ → ℕ → Bool
has_room none running = true
has_room (some n) running = ltb running n

abbrev pub taken : Option ℕ → ℕ → ℕ
taken none running = running
taken (some n) running = suc running

abbrev pub released : Option ℕ → ℕ → ℕ
released none running = running
released (some n) running = running - 1

-- `DoJSON` up to the call of the next client: a call that is refused gives its token back
abbrev pub or_release :
    Limits → Result Refusal (Unit {0}) × Circuit → Result Refusal (Unit {0}) × Circuit
or_release l (ok u, c') = (ok u, c')
or_release l (err e, c') = (err e, record c' { running = released (capacity l) c'.running })

unfoldable pub enter : Limits → Time → Exec Refusal Circuit (Unit {0})
unfolding before_request
enter l now c =
    if has_room (capacity l) c.running
    then or_release l (before_request l now (record c { running = taken (capacity l) c.running }))
    else (err bulkhead_full, c)

-- `DoJSON` from the result of the next client on
unfoldable pub finish : Limits → Time → Returned → Circuit → Circuit
unfolding after_result
finish l now r c =
    let done = after_result l now r c in
    record done { running = released (capacity l) done.running }
