-- ===== src/Session/Activity.antt =====
-- lifecycle.go and memory.go: traces of operations on the lifecycle store over the memory store.
use gateway_runtime.Prelude.{
  ◌+◌, ◌≤◌, ◌<◌, ◌≡◌, ◌≢◌, refl, ap, sym, ◌∙◌, inl, inr, String, Option, none, some, err,
  Option-cases, Bool-cases, str_eq, eq_iff, arith,
}
use gateway_runtime.Prelude.Dict.{Dict, lookup, insert, erase, lookup-insert, lookup-erase}
use gateway_runtime.Session.{Time, Session, not_found, memory_put, memory_delete}
use gateway_runtime.Session.Lifecycle.{magnitude, is_due, get, put, delete}
use gateway_runtime.Session.Expiry.{
  Limits, over, recorded, get_missing, get_live, get_ended, IsLive-dec,
}

-- The operations of the store, at the times at which they run. A write is one of a session under a
-- key that is not the watched one, as a login writes with a fresh random identifier.
pub data Step (l : Limits) (k : String) : Time → Dict Session → Dict Session → Type 0 where
  read :
      (now : Time) (id : String) (w : Dict Session) → Step l k now w (get (over l now) now id w).1
  write :
      (now : Time) (v : Session) (w : Dict Session)
      → v.id ≢ k
      → Step l k now w (put (over l now) now v w).1
  remove :
      (now : Time) (id : String) (w : Dict Session)
      → Step l k now w (delete (over l now) now id w).1

pub data Trace (l : Limits) (k : String) (w : Dict Session) : Dict Session → Type 0 where
  start : Trace l k w w
  step : {now : Time} {u v : Dict Session} → Trace l k w u → Step l k now u v → Trace l k w v

-- Every session is stored under its identifier, and the one under `k` was created at `c`.
abbrev IsKept : String → Time → String → Option Session → Type 0
IsKept k c j none = Unit
IsKept k c j (some s) = (s.id ≡ j) × (j ≡ k → s.created_at ≡ c)

abbrev pub Keeps : String → Time → Dict Session → Type 0
Keeps k c w = (j : String) → IsKept k c j (lookup j w)

Keeps-erase :
    (k : String) (c : Time) (id : String) (w : Dict Session) → Keeps k c w → Keeps k c (erase id w)
Keeps-erase k c id w h j = elim (Bool-cases (str_eq id j)) [
  | inl e ↦ rw (lookup-erase, e) tt
  | inr e ↦ rw (lookup-erase, e) (h j)
]

Keeps-insert :
    (k : String) (c : Time) (v : Session) (w : Dict Session)
    → (v.id ≡ k → v.created_at ≡ c)
    → Keeps k c w
    → Keeps k c (insert v.id v w)
Keeps-insert k c v w kept h j = elim (Bool-cases (str_eq v.id j)) [
  | inl e ↦ let same = (eq_iff v.id j).0 e in rw (lookup-insert, e) (same, λ p. kept (same ∙ p))
  | inr e ↦ rw (lookup-insert, e) (h j)
]

-- the stored session that a `Get` finds
kept_at :
    (k : String) (c : Time) (id : String) (w : Dict Session) (s : Session)
    → Keeps k c w
    → lookup id w ≡ some s
    → (s.id ≡ id) × (id ≡ k → s.created_at ≡ c)
kept_at k c id w s h e = rw e at (h id)

Keeps-recorded :
    (l : Limits) (k : String) (c now : Time) (id : String) (w : Dict Session) (s : Session)
    → Keeps k c w
    → lookup id w ≡ some s
    → Keeps k c (recorded l now s w)
Keeps-recorded l k c now id w s h e =
    elim (Bool-cases (is_due l.idle_timeout l.touch_interval s.last_seen now)) [
      | inl due ↦
          let (same, kept) = kept_at k c id w s h e in
          rw due (Keeps-insert k c (record s { last_seen = now }) w (λ p. kept (sym same ∙ p)) h)
      | inr fresh ↦ rw fresh h
    ]

Keeps-get :
    (l : Limits) (k : String) (c now : Time) (id : String) (w : Dict Session)
    → Keeps k c w
    → Keeps k c (get (over l now) now id w).1
Keeps-get l k c now id w h = elim (Option-cases (lookup id w)) [
  | inl e ↦ rw (get_missing l now id w e) h
  | inr (s, e) ↦ elim (IsLive-dec l now id w s) [
    | inl live ↦ rw (get_live l now id w s e live) (Keeps-recorded l k c now id w s h e)
    | inr dead ↦ rw (get_ended l now id w s e dead) (Keeps-erase k c id w h)
  ]
]

Keeps-Step :
    {l : Limits} {k : String} {now : Time} {u v : Dict Session} (c : Time)
    → Step l k now u v
    → Keeps k c u
    → Keeps k c v
unfolding put delete memory_put memory_delete
Keeps-Step {l} {k} c (read now id w) h = Keeps-get l k c now id w h
Keeps-Step {l} {k} c (write now v w other) h = Keeps-insert k c _ w (λ p. absurd (other p)) h
Keeps-Step {l} {k} c (remove now id w) h = Keeps-erase k c id w h

Keeps-Trace :
    {l : Limits} {k : String} {w v : Dict Session} (c : Time)
    → Trace l k w v
    → Keeps k c w
    → Keeps k c v
Keeps-Trace c start h = h
Keeps-Trace c (step t st) h = Keeps-Step c st (Keeps-Trace c t h)

-- A session that was created at `c` (not the zero time) is not found any more once its maximum
-- lifetime, where one is set, has passed, however often it and other sessions were read, removed or
-- added before. The store starts with every session under its own identifier, and no other session is
-- written under the watched one.
pub lifetime_is_absolute :
    {l : Limits} {k : String} {w v : Dict Session} (c now : Time)
    → Trace l k w v
    → Keeps k c w
    → 0 < magnitude l.max_lifetime
    → 0 < c
    → c + magnitude l.max_lifetime ≤ now
    → (get (over l now) now k v).0 ≡ err not_found
lifetime_is_absolute {l} {k} {v = v} c now t h limited created late =
    elim (Option-cases (lookup k v)) [
      | inl e ↦ ap (λ p. p.0) (get_missing l now k v e)
      | inr (s, e) ↦
          let made = (kept_at k c k v s (Keeps-Trace c t h) e).1 refl in
          ap (λ p. p.0) (get_ended l now k v s e (λ live. ground (arith, live.young, made)))
    ]
