-- ===== src/Outbound/Breaker.antt =====
-- protected.go: calls that enter and finish in any order, and the states that they reach.
use gateway_runtime.Prelude.{
  ℕ, ◌+◌, ◌≤◌, ◌<◌, ◌≡◌, refl, sym, ◌∙◌, ◌↔◌, ◌⊎◌, inl, inr, true, false, Option, none, some,
  Result, ok, err, lt→ltb, arith, Bool-cases, if◌then◌else◌,
}
use gateway_runtime.Duration.{positive_or-pos}
use gateway_runtime.Session.{Time}
use gateway_runtime.Outbound.{
  Limits, capacity, threshold, open_for, Circuit, Refusal, Returned, is_circuit_failure,
  before_request, after_result, enter, finish, has_room, taken, or_release,
}

-- The steps of calls, in any order: one enters (or is refused), one finishes with any result.
pub data Reached (l : Limits) : Circuit → Type 0 where
  fresh : Reached l (record { failures = 0; opened_at = 0; half_open = false; running = 0 })
  entered : {c : Circuit} (now : Time) → Reached l c → Reached l (enter l now c).1
  finished :
      {c : Circuit} (now : Time) (r : Returned)
      → 0 < now
      → Reached l c
      → Reached l (finish l now r c)

-- The semaphore holds no more tokens than its size; a closed circuit has seen fewer failures than the
-- threshold and has no probe; an open one has seen at least as many.
pub record Sound (l : Limits) (c : Circuit) : Type 0 where
  pub bounded : (n : ℕ) → capacity l ≡ some n → c.running ≤ n
  pub closed : c.opened_at ≡ 0 → (c.failures < threshold l) × (c.half_open ≡ false)
  pub opened : 0 < c.opened_at → threshold l ≤ c.failures

threshold_pos : (l : Limits) → 0 < threshold l
threshold_pos l = positive_or-pos l.failure_threshold 5 (omega arith)

-- what entering changes: one more token, and the mark of a probe
record IsEntry (l : Limits) (c d : Circuit) : Type 0 where
  same_failures : d.failures ≡ c.failures
  same_opening : d.opened_at ≡ c.opened_at
  room : (n : ℕ) → capacity l ≡ some n → c.running ≤ n → d.running ≤ n
  no_probe : c.opened_at ≡ 0 → d.half_open ≡ c.half_open

enter-IsEntry : (l : Limits) (now : Time) (c : Circuit) → IsEntry l c (enter l now c).1
unfolding enter before_request
enter-IsEntry l now c = record {
  same_failures = ground arith;
  same_opening = ground arith;
  room = λ n e b. ground (arith, e, b);
  no_probe = λ e. ground (arith, e);
}

Sound-enter : (l : Limits) (now : Time) (c : Circuit) → Sound l c → Sound l (enter l now c).1
Sound-enter l now c h =
    let e = enter-IsEntry l now c in
    record {
      bounded = λ n s. e.room n s (h.bounded n s);
      closed = λ z.
          let k = h.closed (sym e.same_opening ∙ z) in
          (rw e.same_failures k.0, e.no_probe (sym e.same_opening ∙ z) ∙ k.1);
      opened = λ z. rw e.same_failures (h.opened (rw e.same_opening at z));
    }

Sound-finish :
    (l : Limits) (now : Time) (r : Returned) (c : Circuit)
    → 0 < now
    → Sound l c
    → Sound l (finish l now r c)
unfolding finish after_result
Sound-finish l now r c late h = record {
  bounded = λ n s. ground (arith, s, h.bounded n s);
  closed = λ z. ground (arith, z, threshold_pos l, h.closed);
  opened = λ z. ground (arith, z, threshold_pos l, h.opened);
}

-- However calls enter and finish, the semaphore never holds more tokens than its size; while the
-- circuit is closed it has seen fewer failures than the threshold and no probe is under way; and while
-- it is open it has seen at least the threshold. The clock's readings are after the zero time.
pub Reached-Sound : {l : Limits} {c : Circuit} → Reached l c → Sound l c
Reached-Sound {l} fresh = record {
  bounded = λ n s. omega arith;
  closed = λ z. (threshold_pos l, refl);
  opened = λ z. absurd (omega arith);
}
Reached-Sound {l} (entered {c} now before) = Sound-enter l now c (Reached-Sound before)
Reached-Sound {l} (finished {c} now r late before) =
    Sound-finish l now r c late (Reached-Sound before)

-- The bulkhead has room, and the circuit is closed, or it has been open for long enough and no probe
-- is under way.
pub record MayEnter (l : Limits) (now : Time) (c : Circuit) : Type 0 where
  pub room : (n : ℕ) → capacity l ≡ some n → c.running < n
  pub circuit : (c.opened_at ≡ 0) ⊎ ((c.opened_at + open_for l ≤ now) × (c.half_open ≡ false))

open_for_pos : (l : Limits) → 0 < open_for l
open_for_pos l = positive_or-pos l.open_for _ (omega arith)

has_room_iff :
    (o : Option ℕ) (running : ℕ)
    → (has_room o running ≡ true) ↔ ((n : ℕ) → o ≡ some n → running < n)
has_room_iff none running = (λ h n e. absurd (cc (e)), λ h. refl)
has_room_iff (some m) running = (λ h n e. ground (arith, h, e), λ h. lt→ltb _ _ (h m refl))

circuit_iff :
    (l : Limits) (now : Time) (c : Circuit)
    → ((before_request l now c).0 ≡ ok tt)
      ↔ ((c.opened_at ≡ 0) ⊎ ((c.opened_at + open_for l ≤ now) × (c.half_open ≡ false)))
unfolding before_request
circuit_iff l now c = ground (arith, open_for_pos l)

or_release-same : (l : Limits) (p : Result Refusal (Unit {0}) × Circuit) → (or_release l p).0 ≡ p.0
or_release-same l (ok u, c) = refl
or_release-same l (err e, c) = refl

-- A call passes the bulkhead and the circuit breaker exactly where the semaphore has a free token (or
-- there is none), and the circuit is closed, or its opening lies `OpenFor` back and no probe is under
-- way.
pub enter_iff :
    (l : Limits) (now : Time) (c : Circuit) → ((enter l now c).0 ≡ ok tt) ↔ MayEnter l now c
unfolding enter
enter_iff l now c =
    let room = has_room_iff (capacity l) c.running in
    let d = record c { running = taken (capacity l) c.running } in
    let circuit = circuit_iff l now d in
    elim (Bool-cases (has_room (capacity l) c.running)) [
      | inr full ↦ (λ h. absurd (cc (rw full at h)), λ h. absurd (cc (full, room.1 h.room)))
      | inl free ↦ (
        λ h. record {
          room = room.0 free;
          circuit = circuit.0 (sym (or_release-same l (before_request l now d)) ∙ (rw free at h));
        },
        λ h. rw free (or_release-same l (before_request l now d) ∙ circuit.1 h.circuit),
      )
    ]

-- The circuit after a probe: closed, or open again from the time of the result.
abbrev pub after_probe : Limits → Time → Returned → Circuit → Circuit
after_probe l later r c =
    if is_circuit_failure r
    then record c { failures = threshold l; opened_at = later; half_open = false }
    else record c { failures = 0; opened_at = 0; half_open = false }

-- A call that may enter an open circuit is a probe. If its result comes before anything else happens,
-- a result that is no circuit failure closes the circuit and clears the count of failures, and a
-- failure opens it again from the time of the result; the semaphore has as many tokens as before.
pub finish-enter :
    (l : Limits) (now later : Time) (r : Returned) (c : Circuit)
    → 0 < c.opened_at
    → MayEnter l now c
    → finish l later r (enter l now c).1 ≡ after_probe l later r c
unfolding enter before_request finish after_result
finish-enter l now later r c opened may =
    ground
      (arith, opened, may.circuit, open_for_pos l, (has_room_iff (capacity l) c.running).1 may.room)
