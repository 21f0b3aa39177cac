-- ===== src/UserContext/Cached.antt =====
-- user_context.go over memory.go: how long an answer is served again.
use gateway_runtime.Prelude.{
  ℕ, ◌+◌, ◌<◌, ◌≤◌, ◌≡◌, refl, String, true, false, none, some, Result, ok, arith, eq_refl,
  Result-cases, inl, inr, ◌⊎◌, lt→ltb,
}
use native.Mathlib.Decide.{dec_lt}
use gateway_runtime.Prelude.Dict.{Dict, lookup, insert, lookup-insert}
use gateway_runtime.Duration.{pos}
use gateway_runtime.Session.{Time, has_expired}
use gateway_runtime.Cache.{Cache, Codec, MemoryEntry, memory_get, memory_set, memory_cache}
use gateway_runtime.UserContext.{Context, Resolver, ResolveError, cached_resolve, cache_key}

-- the memory cache beside the world of the resolver that it stands before
abbrev pub beside : {W : Type 0} → Codec Context → Time → Cache (Dict MemoryEntry × W) Context
beside codec now = record {
  get = λ key (c, w). ((memory_get codec now key c).0, ((memory_get codec now key c).1, w));
  set = λ key v ttl (c, w).
      ((memory_set codec now key v ttl c).0, ((memory_set codec now key v ttl c).1, w));
  delete = λ key (c, w).
      (((memory_cache codec now).delete key c).0, (((memory_cache codec now).delete key c).1, w));
}

abbrev pub behind : {W : Type 0} → Resolver W → Resolver (Dict MemoryEntry × W)
behind next id (c, w) = ((next id w).0, (c, (next id w).1))

module _ {W : Type 0} (next : Resolver W) (codec : Codec Context) (n : ℕ) where
  -- the cached resolver at a time, with a positive lifetime of its entries
  abbrev pub resolve_at :
      Time → String → Dict MemoryEntry × W → Result ResolveError Context × (Dict MemoryEntry × W)
  resolve_at now id = cached_resolve (behind next) (pos n) (some (beside codec now)) id

  stored : String → Time → String → Dict MemoryEntry → Dict MemoryEntry
  stored id now text c = insert (cache_key id) (record { content = text; expires_at = now + n }) c

  miss :
      (t : Time) (id : String) (c : Dict MemoryEntry) (w w' : W) (v : Context) (text : String)
      → 0 < n
      → lookup (cache_key id) c ≡ none
      → next id w ≡ (ok v, w')
      → codec.encode v ≡ ok text
      → resolve_at t id (c, w) ≡ (ok v, (stored id t text c, w'))
  unfolding cached_resolve memory_get memory_set stored
  miss t id c w w' v text p absent answered encoded =
      rw (absent, answered, encoded, lt→ltb 0 n p) refl

  lookup-stored :
      (t : Time) (id : String) (c : Dict MemoryEntry) (text : String)
      → lookup (cache_key id) (stored id t text c)
        ≡ some (record { content = text; expires_at = t + n })
  unfolding stored
  lookup-stored t id c text =
      rw
        (
          lookup-insert (cache_key id) (cache_key id)
              (record { content = text; expires_at = t + n }) c,
          eq_refl (cache_key id),
        )
        refl

  not_expired : (t₁ t₂ : Time) → t₂ < t₁ + n → has_expired (t₁ + n) t₂ ≡ false
  not_expired t₁ t₂ h = ground arith

  expired : (t₁ t₂ : Time) → 0 < n → t₁ + n ≤ t₂ → has_expired (t₁ + n) t₂ ≡ true
  expired t₁ t₂ p h = ground arith

  hit :
      (t₁ t₂ : Time) (id : String) (c : Dict MemoryEntry) (w : W) (v : Context) (text : String)
      → codec.decode text ≡ ok v
      → t₂ < t₁ + n
      → resolve_at t₂ id (stored id t₁ text c, w) ≡ (ok v, (stored id t₁ text c, w))
  unfolding cached_resolve memory_get
  hit t₁ t₂ id c w v text decoded early =
      rw (lookup-stored t₁ id c text, not_expired t₁ t₂ early, decoded) refl

  late :
      (t₁ t₂ : Time) (id : String) (c : Dict MemoryEntry) (w : W) (text : String)
      → 0 < n
      → t₁ + n ≤ t₂
      → (resolve_at t₂ id (stored id t₁ text c, w)).0 ≡ (next id w).0
  unfolding cached_resolve memory_get
  late t₁ t₂ id c w text p passed = elim (Result-cases (next id w).0) [
    | inl (v, e) ↦ rw (lookup-stored t₁ id c text, expired t₁ t₂ p passed, e) refl
    | inr (x, e) ↦ rw (lookup-stored t₁ id c text, expired t₁ t₂ p passed, e) refl
  ]

  -- Let a cached resolver, whose entries live for n nanoseconds, answer for a session that is not in its
  -- cache, and let the answer's encoding decode to the answer. For less than n nanoseconds it then gives
  -- the same answer, and neither asks the next resolver nor changes its cache; from then on it answers
  -- what the next resolver does.
  pub resolve-resolve :
      (t₁ t₂ : Time) (id : String) (c : Dict MemoryEntry) (w w' : W) (v : Context) (text : String)
      → 0 < n
      → lookup (cache_key id) c ≡ none
      → next id w ≡ (ok v, w')
      → codec.encode v ≡ ok text
      → codec.decode text ≡ ok v
      → let st = (resolve_at t₁ id (c, w)).1 in
        ((t₂ < t₁ + n) × (resolve_at t₂ id st ≡ (ok v, st)))
        ⊎ ((t₁ + n ≤ t₂) × ((resolve_at t₂ id st).0 ≡ (next id w').0))
  resolve-resolve t₁ t₂ id c w w' v text p absent answered encoded decoded =
      let first = miss t₁ id c w w' v text p absent answered encoded in
      rw first (elim (dec_lt t₂ (t₁ + n)) [
        | yes early ↦ inl (early, hit t₁ t₂ id c w' v text decoded early)
        | no passed ↦ inr (omega (arith, passed), late t₁ t₂ id c w' text p (omega (arith, passed)))
      ])
