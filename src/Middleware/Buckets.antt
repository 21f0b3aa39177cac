-- ===== src/Middleware/Buckets.antt =====
-- rate_limit.go: the size of the table of buckets.
use gateway_runtime.Prelude.{
  ℕ, ◌+◌, ◌≤◌, String, true, false, ◌≡◌, refl, ap, ◌&&◌, ◌||◌, not, List, [], ◌∷◌, map, leb, length,
  is_empty, is_some, str_eq, if◌then◌else◌, contains_str, IsDistinct, arith, eq_iff, Bool-cases,
  inl, inr, leb-false→lt,
}
use gateway_runtime.Prelude.Dict.{Dict, lookup, insert}
use gateway_runtime.Duration.{is_positive}
use gateway_runtime.Session.{Time, is_zero}
use gateway_runtime.Middleware.{Request, Handler, operational_path}
use gateway_runtime.Middleware.RateLimit.{
  Floats, RateBucket, RateLimitConfig, Limiter, new_limiter, overflow, sweep, swept, admit,
  rate_limit, key_for, max_entries_of, idle_since, matches_path_suffix,
}

abbrev weight : String → ℕ
weight key = if str_eq key overflow then 0 else 1

-- the number of buckets but for the shared one
abbrev named : {A : Type 0} → Dict A → ℕ
named [] = 0
named (e ∷ rest) = weight e.0 + named rest

abbrev keys : {A : Type 0} → Dict A → List String
keys = map (λ e. e.0)

module _ {A : Type 0} where
  contains_str-insert :
      (key : String) (v : A) (m : Dict A) (x : String)
      → contains_str (keys (insert key v m)) x ≡ (contains_str (keys m) x || str_eq key x)
  unfolding insert
  contains_str-insert key v [] x = ground arith
  contains_str-insert key v (e ∷ m) x =
      ground (arith, contains_str-insert key v m x, eq_iff e.0 key, eq_iff e.0 x, eq_iff key x)

  insert-IsDistinct :
      (key : String) (v : A) (m : Dict A) → IsDistinct (keys m) → IsDistinct (keys (insert key v m))
  unfolding insert
  insert-IsDistinct key v [] h = (refl, tt)
  insert-IsDistinct key v (e ∷ m) (n, h) = elim (Bool-cases (str_eq e.0 key)) [
    | inl same ↦ rw same (ground (arith, eq_iff e.0 key), h)
    | inr other ↦ rw other (
      ground (arith, contains_str-insert key v m e.0, eq_iff e.0 key, eq_iff key e.0),
      insert-IsDistinct key v m h,
    )
  ]

  named-insert : (key : String) (v : A) (m : Dict A) → named (insert key v m) ≤ named m + weight key
  unfolding insert
  named-insert key v [] = omega arith
  named-insert key v (e ∷ m) = ground (arith, named-insert key v m, eq_iff e.0 key)

  named-le : (m : Dict A) → named m ≤ length m
  named-le [] = omega arith
  named-le (e ∷ m) = ground (arith, named-le m)

  length-named : (m : Dict A) → contains_str (keys m) overflow ≡ false → length m ≤ named m
  length-named [] h = omega arith
  length-named (e ∷ m) h = ground (arith, length-named m)

  length-le : (m : Dict A) → IsDistinct (keys m) → length m ≤ named m + 1
  length-le [] h = omega arith
  length-le (e ∷ m) (n, h) = ground (arith, length-le m, length-named m, eq_iff e.0 overflow)

module _ {F : Type 0} (fl : Floats F) (cfg : RateLimitConfig F) where
  contains_str-sweep :
      (now : Time) (m : Dict (RateBucket F)) (x : String)
      → contains_str (keys m) x ≡ false
      → contains_str (keys (sweep fl cfg now m)) x ≡ false
  unfolding sweep
  contains_str-sweep now [] x h = refl
  contains_str-sweep now ((key, b) ∷ m) x h = ground (arith, contains_str-sweep now m x)

  sweep-IsDistinct :
      (now : Time) (m : Dict (RateBucket F))
      → IsDistinct (keys m)
      → IsDistinct (keys (sweep fl cfg now m))
  unfolding sweep
  sweep-IsDistinct now [] h = tt
  sweep-IsDistinct now ((key, b) ∷ m) (n, h) = elim (Bool-cases (idle_since fl cfg now b.last)) [
    | inl idle ↦ rw idle (sweep-IsDistinct now m h)
    | inr kept ↦ rw kept (contains_str-sweep now m key n, sweep-IsDistinct now m h)
  ]

  named-sweep : (now : Time) (m : Dict (RateBucket F)) → named (sweep fl cfg now m) ≤ named m
  unfolding sweep
  named-sweep now [] = omega arith
  named-sweep now ((key, b) ∷ m) = ground (arith, named-sweep now m)

  -- a bucket that is written back after a sweep takes no new place
  named-insert-sweep :
      (now : Time) (key : String) (v : RateBucket F) (m : Dict (RateBucket F))
      → is_some (lookup key m) ≡ true
      → named (insert key v (sweep fl cfg now m)) ≤ named m
  unfolding sweep lookup insert
  named-insert-sweep now key v [] h = cc
  named-insert-sweep now key v ((j, b) ∷ m) h = elim (Bool-cases (str_eq j key)) [
    | inl same ↦ ground (
      arith,
      same,
      eq_iff j key,
      named-insert key v (sweep fl cfg now m),
      named-sweep now m,
      ap weight ((eq_iff j key).0 same),
    )
    | inr other ↦ ground (arith, other, named-insert-sweep now key v m (rw other at h))
  ]

  -- The table's entries have distinct keys, and no more of them than the limit are the clients' own.
  pub record IsBounded (st : Limiter F) : Type 0 where
    pub distinct : IsDistinct (keys st.buckets)
    pub within : named st.buckets ≤ max_entries_of fl cfg

  insert-swept-IsDistinct :
      (now : Time) (key : String) (v : RateBucket F) (st : Limiter F)
      → IsDistinct (keys st.buckets)
      → IsDistinct (keys (insert key v (swept fl cfg now st)))
  insert-swept-IsDistinct now key v st h =
      elim (Bool-cases (is_zero st.last_sweep || idle_since fl cfg now st.last_sweep)) [
        | inl e ↦ rw e (insert-IsDistinct key v _ (sweep-IsDistinct now st.buckets h))
        | inr e ↦ rw e (insert-IsDistinct key v _ h)
      ]

  named-insert_present :
      (key : String) (v : RateBucket F) (m : Dict (RateBucket F))
      → is_some (lookup key m) ≡ true
      → named (insert key v m) ≤ named m
  unfolding lookup insert
  named-insert_present key v [] h = cc
  named-insert_present key v ((j, b) ∷ m) h = elim (Bool-cases (str_eq j key)) [
    | inl same ↦ ground (arith, same, ap weight ((eq_iff j key).0 same))
    | inr other ↦ ground (arith, other, named-insert_present key v m (rw other at h))
  ]

  named-present :
      (now : Time) (key : String) (v : RateBucket F) (st : Limiter F)
      → is_some (lookup key st.buckets) ≡ true
      → named (insert key v (swept fl cfg now st)) ≤ named st.buckets
  named-present now key v st h =
      elim (Bool-cases (is_zero st.last_sweep || idle_since fl cfg now st.last_sweep)) [
        | inl e ↦ rw e (named-insert-sweep now key v st.buckets h)
        | inr e ↦ rw e (named-insert_present key v st.buckets h)
      ]

  named-any :
      (now : Time) (key : String) (v : RateBucket F) (st : Limiter F)
      → named (insert key v (swept fl cfg now st)) ≤ named st.buckets + weight key
  named-any now key v st =
      elim (Bool-cases (is_zero st.last_sweep || idle_since fl cfg now st.last_sweep)) [
        | inl e ↦ rw e (
            omega
              (arith, named-insert key v (sweep fl cfg now st.buckets), named-sweep now st.buckets))
        | inr e ↦ rw e (named-insert key v st.buckets)
      ]

  weight-le : (key : String) → weight key ≤ 1
  weight-le key = ground arith

  -- a place for the chosen key
  named-chosen :
      (now : Time) (key : String) (v : RateBucket F) (st : Limiter F)
      → named st.buckets ≤ max_entries_of fl cfg
      → named (insert (key_for fl cfg key st) v (swept fl cfg now st)) ≤ max_entries_of fl cfg
  named-chosen now key v st h = elim (Bool-cases (is_some (lookup key st.buckets))) [
    | inl present ↦ rw present (omega (arith, h, named-present now key v st present))
    | inr absent ↦ elim (Bool-cases (leb (max_entries_of fl cfg) (length st.buckets))) [
      | inl crowded ↦ rw (absent, crowded) (omega (arith, h, named-any now overflow v st))
      | inr room ↦
          rw (absent, room)
            (omega (
              arith,
              leb-false→lt _ _ room,
              named-le st.buckets,
              named-any now key v st,
              weight-le key,
            ))
    ]
  ]

  admit-IsBounded :
      (now : Time) (key : String) (st : Limiter F)
      → IsBounded st
      → IsBounded (admit fl cfg now key st).1
  unfolding admit
  admit-IsBounded now key st h = record {
    distinct = insert-swept-IsDistinct now (key_for fl cfg key st) _ st h.distinct;
    within = named-chosen now key _ st h.within;
  }

module _ {F W : Type 0} (fl : Floats F) (cfg : RateLimitConfig F) (client : Request → String)
    (next : Handler W) where
  rate_limit-IsBounded :
      (now : Time) (r : Request) (st : Limiter F) (w : W)
      → IsBounded fl cfg st
      → IsBounded fl cfg (rate_limit fl cfg client now next r (st, w)).1.0
  unfolding rate_limit
  rate_limit-IsBounded now r st w h =
      elim (Bool-cases (not (fl.above_zero cfg.rate_per_second) || not (is_positive cfg.burst))) [
        | inl off ↦ rw off h
        | inr on ↦ elim (Bool-cases (operational_path r.path)) [
          | inl probe ↦ rw (on, probe) h
          | inr plain ↦
              elim (Bool-cases (
                not (is_empty cfg.path_suffixes)
                && not (matches_path_suffix r.path cfg.path_suffixes))) [
                  | inl elsewhere ↦ rw (on, plain, elsewhere) h
                  | inr here ↦
                      let next_state = admit-IsBounded fl cfg now (client r) st h in
                      elim (Bool-cases (admit fl cfg now (client r) st).0) [
                        | inl allowed ↦ rw (on, plain, here, allowed) next_state
                        | inr refused ↦ rw (on, plain, here, refused) next_state
                      ]
                ]
        ]
      ]

  -- the state after requests, each with the clock's reading
  abbrev pub after : List (Time × Request) → Limiter F × W → Limiter F × W
  after [] st = st
  after ((now, r) ∷ rest) st = after rest (rate_limit fl cfg client now next r st).1

  after-IsBounded :
      (requests : List (Time × Request)) (st : Limiter F × W)
      → IsBounded fl cfg st.0
      → IsBounded fl cfg (after requests st).0
  after-IsBounded [] st h = h
  after-IsBounded ((now, r) ∷ rest) (st, w) h =
      after-IsBounded rest _ (rate_limit-IsBounded now r st w h)

  -- Whatever requests a rate limiter has served, its table has at most one entry more than the configured
  -- maximum (10000 where none is configured): the bucket that the clients beyond the maximum share.
  pub length-after :
      (requests : List (Time × Request)) (w : W)
      → length (after requests (new_limiter, w)).0.buckets ≤ max_entries_of fl cfg + 1
  length-after requests w =
      let bounded =
        after-IsBounded requests (new_limiter, w)
          (record { distinct = tt; within = omega arith }) in
      omega (
        arith,
        length-le (after requests (new_limiter, w)).0.buckets bounded.distinct,
        bounded.within,
      )
