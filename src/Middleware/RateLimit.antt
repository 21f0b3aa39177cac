-- ===== src/Middleware/RateLimit.antt =====
-- rate_limit.go: a bucket of tokens for each client. float64 is a parameter (`Floats`). A time is in
-- nanoseconds since the year 1, and the clock's reading is an argument.
use gateway_runtime.Prelude.{
  ℕ, ◌+◌, ◌*◌, String, Bool, true, false, ◌&&◌, ◌||◌, not, List, [], ◌∷◌, Option, none, some, leb,
  length, is_empty, is_some, str_eq, if◌then◌else◌,
}
use gateway_runtime.Prelude.Dict.{Dict, lookup, insert}
use gateway_runtime.Duration.{ℤ, Duration, is_positive, minute, positive_or}
use gateway_runtime.Text.Trim.{has_suffix}
use gateway_runtime.Session.{Time, is_zero}
use gateway_runtime.Middleware.{
  Request, Response, Handler, http_error, with_header, operational_path,
}

-- float64, with the operations that the limiter uses: `seconds now last` is `now.Sub(last).Seconds()`
pub record Floats (F : Type 0) : Type 0 where
  pub of_int : ℤ → F
  pub add : F → F → F
  pub mul : F → F → F
  pub less_one : F → F
  pub exceeds : F → F → Bool
  pub at_least_one : F → Bool
  pub seconds : Time → Time → F
  pub above_zero : F → Bool

pub record RateBucket (F : Type 0) : Type 0 where
  pub tokens : F
  pub last : Time

pub record RateLimitConfig (F : Type 0) : Type 0 where
  pub rate_per_second : F
  pub burst : ℤ
  pub idle_ttl : Duration
  pub max_entries : ℤ
  pub path_suffixes : List String

pub record Limiter (F : Type 0) : Type 0 where
  pub buckets : Dict (RateBucket F)
  pub last_sweep : Time

abbrev pub new_limiter : {F : Type 0} → Limiter F
new_limiter = record { buckets = []; last_sweep = 0 }

abbrev pub overflow : String
overflow = "__overflow__"

unfoldable pub matches_path_suffix : String → List String → Bool
matches_path_suffix path [] = false
matches_path_suffix path (suffix ∷ rest) =
    (not (str_eq suffix "") && has_suffix path suffix) || matches_path_suffix path rest

module _ {F : Type 0} (fl : Floats F) (cfg : RateLimitConfig F) where
  abbrev pub idle_ttl_of : ℕ
  idle_ttl_of = positive_or cfg.idle_ttl (10 * minute)

  abbrev pub max_entries_of : ℕ
  max_entries_of = positive_or cfg.max_entries 10000

  -- `now.Sub(t) >= cfg.IdleTTL`
  abbrev pub idle_since : Time → Time → Bool
  idle_since now t = leb (t + idle_ttl_of) now

  -- the loop that deletes the buckets that were idle
  unfoldable pub sweep : Time → Dict (RateBucket F) → Dict (RateBucket F)
  sweep now [] = []
  sweep now ((key, b) ∷ rest) =
      if idle_since now b.last then sweep now rest else (key, b) ∷ sweep now rest

  abbrev pub swept : Time → Limiter F → Dict (RateBucket F)
  swept now st =
      if is_zero st.last_sweep || idle_since now st.last_sweep
      then sweep now st.buckets
      else st.buckets

  abbrev sweep_time : Time → Limiter F → Time
  sweep_time now st =
      if is_zero st.last_sweep || idle_since now st.last_sweep then now else st.last_sweep

  abbrev at_most : F → F → F
  at_most bound x = if fl.exceeds x bound then bound else x

  abbrev full : Time → RateBucket F
  full now = record { tokens = fl.of_int cfg.burst; last = now }

  -- the bucket with the tokens that it has gained
  abbrev filled : Time → Option (RateBucket F) → RateBucket F
  filled now none = full now
  filled now (some b) = if is_zero b.last then full now else record {
    tokens =
        at_most (fl.of_int cfg.burst)
          (fl.add b.tokens (fl.mul (fl.seconds now b.last) cfg.rate_per_second));
    last = now;
  }

  abbrev taken : RateBucket F → RateBucket F
  taken b = if fl.at_least_one b.tokens then record b { tokens = fl.less_one b.tokens } else b

  -- the key of the bucket: the client's own, or the shared one where the table is full
  abbrev pub key_for : String → Limiter F → String
  key_for key st =
      if not (is_some (lookup key st.buckets)) && leb max_entries_of (length st.buckets)
      then overflow
      else key

  -- the region under the lock: whether the request may go on, and the state after it
  unfoldable pub admit : Time → String → Limiter F → Bool × Limiter F
  unfolding sweep lookup insert
  admit now key st =
      let buckets = swept now st in
      let chosen = key_for key st in
      let b = filled now (lookup chosen buckets) in
      (
        fl.at_least_one b.tokens,
        record { buckets = insert chosen (taken b) buckets; last_sweep = sweep_time now st },
      )

  abbrev limited :
      {W : Type 0} → Handler W → Request → W → Bool × Limiter F → Response × (Limiter F × W)
  limited next r w (true, st) = ((next r w).0, (st, (next r w).1))
  limited next r w (false, st) =
      (with_header "Retry-After" "1" (http_error 429 "rate limit exceeded"), (st, w))

  abbrev passed : {W : Type 0} → Handler W → Handler (Limiter F × W)
  passed next r (st, w) = ((next r w).0, (st, (next r w).1))

  -- `RateLimit`; `client` is `ClientIP`
  unfoldable pub rate_limit :
      {W : Type 0} → (Request → String) → Time → Handler W → Handler (Limiter F × W)
  unfolding operational_path matches_path_suffix
  rate_limit client now next r (st, w) =
      if not (fl.above_zero cfg.rate_per_second) || not (is_positive cfg.burst)
      then passed next r (st, w)
      else if operational_path r.path
      then passed next r (st, w)
      else if not (is_empty cfg.path_suffixes) && not (matches_path_suffix r.path cfg.path_suffixes)
      then passed next r (st, w)
      else limited next r w (admit now (client r) st)
