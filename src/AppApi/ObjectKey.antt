-- ===== src/AppApi/ObjectKey.antt =====
-- handler.go: the keys that `validateObjectKey` lets through.
use Prim.Native.String.{◌++◌ as text_append}
use text.Mathlib.TextLemmas.{cons-append, append_assoc}
use mathlib.Core.List.{reverse, reverse-cons, reverse-append}
use gateway_runtime.Prelude.{
  String, Bool, true, false, ◌≡◌, ◌∙◌, refl, ap, sym, ◌||◌, not, List, [], ◌∷◌, ◌++◌, some,
  is_empty, str_eq, All, All-append, Bool-cases, inl, inr, ◌⊎◌, arith, eq_iff, some_inj,
  or-eq-false, subst,
}
use gateway_runtime.Text.{trim_space, has_prefix, contains, split}
use gateway_runtime.Text.Clean.{clean, walk, join, up}
use gateway_runtime.AppApi.{validate_object_key, has_allowed_prefix}

-- a segment that names something
pub record IsPlain (s : String) : Type 0 where
  pub non_empty : str_eq s "" ≡ false
  pub not_here : str_eq s "." ≡ false
  pub not_up : str_eq s ".." ≡ false

abbrev IsUp : String → Type 0
IsUp s = str_eq s ".." ≡ true

-- Plain segments, the last one first, above segments "..".
abbrev Layered : List String → Type 0
Layered [] = Unit
Layered (x ∷ out) = (IsPlain x × Layered out) ⊎ (IsUp x × All IsUp out)

Layered-IsUp : (xs : List String) → All IsUp xs → Layered xs
Layered-IsUp [] h = tt
Layered-IsUp (x ∷ xs) (u, h) = inr (u, h)

Layered-tail : (x : String) (out : List String) → Layered (x ∷ out) → Layered out
Layered-tail x out (inl (p, h)) = h
Layered-tail x out (inr (u, h)) = Layered-IsUp out h

Layered-IsUp_tail : (x : String) (out : List String) → Layered (x ∷ out) → IsUp x → All IsUp out
Layered-IsUp_tail x out (inl (p, h)) u = absurd (cc (p.not_up, u))
Layered-IsUp_tail x out (inr (_, h)) u = h

up-Layered : (out : List String) → Layered out → Layered (up false out)
up-Layered [] h = inr (refl, tt)
up-Layered (x ∷ out) h = elim (Bool-cases (str_eq x "..")) [
  | inl u ↦ rw u (inr (refl, (u, Layered-IsUp_tail x out h u)))
  | inr n ↦ rw n (Layered-tail x out h)
]

walk-Layered : (out rest : List String) → Layered out → Layered (walk false out rest)
unfolding walk
walk-Layered out [] h = h
walk-Layered out (x ∷ rest) h = elim (Bool-cases (str_eq x "" || str_eq x ".")) [
  | inl skipped ↦ rw skipped (walk-Layered out rest h)
  | inr kept ↦ elim (Bool-cases (str_eq x "..")) [
    | inl u ↦ rw (kept, u) (walk-Layered _ rest (up-Layered out h))
    | inr n ↦
        rw (kept, n)
          (walk-Layered (x ∷ out) rest (
            inl (
              record {
                non_empty = (or-eq-false _ _ kept).0;
                not_here = (or-eq-false _ _ kept).1;
                not_up = n;
              },
              h,
            )))
  ]
]

-- the first of the segments is ".."
abbrev EndsUp : List String → Type 0
EndsUp out = (init : List String) × (out ≡ init ++ ".." ∷ [])

IsUp-EndsUp : (x : String) (out : List String) → IsUp x → All IsUp out → EndsUp (x ∷ out)
IsUp-EndsUp x [] u h = ([], ap (λ (s : String). s ∷ []) ((eq_iff x "..").0 u))
IsUp-EndsUp x (y ∷ out) u (v, h) =
    let (init, e) = IsUp-EndsUp y out v h in (x ∷ init, ap (λ (l : List String). x ∷ l) e)

Layered-cases : (out : List String) → Layered out → All IsPlain out ⊎ EndsUp out
Layered-cases [] h = inl tt
Layered-cases (x ∷ out) (inr (u, h)) = inr (IsUp-EndsUp x out u h)
Layered-cases (x ∷ out) (inl (p, h)) = elim (Layered-cases out h) [
  | inl ps ↦ inl (p, ps)
  | inr (init, e) ↦ inr (x ∷ init, ap (λ (l : List String). x ∷ l) e)
]

All-reverse : (P : String → Type 0) (xs : List String) → All P xs → All P (reverse xs)
All-reverse P [] h = tt
All-reverse P (x ∷ xs) (p, h) =
    subst (All P) (sym (reverse-cons x xs))
      (All-append P (reverse xs) (x ∷ []) (All-reverse P xs h) (p, tt))

-- a path that begins with ".." is refused
abbrev climbs : String → Bool
climbs key = str_eq key ".." || has_prefix key "../"

has_prefix-append : (p s : String) → has_prefix (text_append p s) p ≡ true
unfolding has_prefix
has_prefix-append String.[] s = refl
has_prefix-append (String.◌∷◌ c p) s =
    rw (cons-append c p s) (ground (arith, has_prefix-append p s))

below_up : (s : String) → has_prefix (text_append ".." (text_append "/" s)) "../" ≡ true
below_up s = rw (← append_assoc ".." "/" s) (has_prefix-append "../" s)

or_true : (b : Bool) → (b || true) ≡ true
or_true b = ground arith

climbs-join : (rest : List String) → climbs (join (".." ∷ rest)) ≡ true
unfolding join has_prefix
climbs-join [] = refl
climbs-join (x ∷ rest) = rw (below_up (join (x ∷ rest))) (or_true _)

EndsUp-climbs : (out : List String) → EndsUp out → climbs (join (reverse out)) ≡ true
EndsUp-climbs out (init, e) = rw (e, reverse-append init (".." ∷ [])) (climbs-join (reverse init))

clean_relative :
    (k : String)
    → str_eq k "" ≡ false
    → has_prefix k "/" ≡ false
    → str_eq (clean k) "." ≡ false
    → clean k ≡ join (reverse (walk false [] (split k "/")))
unfolding clean
clean_relative k given relative named =
    elim (Bool-cases (str_eq (join (reverse (walk false [] (split k "/")))) "")) [
      | inl e ↦ absurd (cc (rw (given, relative, e) at named))
      | inr e ↦ rw (given, relative, e) refl
    ]

-- A key as the storage gets it: plain segments joined by single slashes, under an allowed prefix.
pub record IsSafeKey (prefixes : List String) (key : String) : Type 0 where
  pub segments : List String
  pub joined : key ≡ join segments
  pub plain : All IsPlain segments
  pub no_backslash : contains key "\\" ≡ false
  pub allowed : has_allowed_prefix key prefixes ≡ true

IsPlain-segments :
    (k : String)
    → str_eq k "" ≡ false
    → has_prefix k "/" ≡ false
    → str_eq (clean k) "." ≡ false
    → climbs (clean k) ≡ false
    → (segments : List String) × (clean k ≡ join segments) × All IsPlain segments
IsPlain-segments k given relative named low =
    let stack = walk false [] (split k "/") in
    let whole = clean_relative k given relative named in
    elim (Layered-cases stack (walk-Layered [] (split k "/") tt)) [
      | inl plain ↦ (reverse stack, whole, All-reverse IsPlain stack plain)
      | inr up ↦ absurd (cc (low, whole, EndsUp-climbs stack up))
    ]

module _ (raw : String) (prefixes : List String) (key : String) where
  -- What the early returns leave: the key is its own clean form.
  record IsAccepted (k : String) : Type 0 where
    given : str_eq k "" ≡ false
    relative : has_prefix k "/" ≡ false
    no_backslash : contains k "\\" ≡ false
    named : str_eq (clean k) "." ≡ false
    low : climbs (clean k) ≡ false
    same : clean k ≡ k
    allowed : has_allowed_prefix (clean k) prefixes ≡ true
    result : clean k ≡ key

  IsAccepted-of : validate_object_key raw prefixes ≡ some key → IsAccepted (trim_space raw)
  unfolding validate_object_key
  IsAccepted-of h =
      let k = trim_space raw in
      elim (Bool-cases (str_eq k "" || has_prefix k "/" || contains k "\\")) [
        | inl refused ↦ absurd (cc (rw refused at h))
        | inr shape ↦
            elim (Bool-cases (
              str_eq (clean k) "."
              || str_eq (clean k) ".."
              || has_prefix (clean k) "../"
              || not (str_eq (clean k) k))) [
                | inl refused ↦ absurd (cc (rw (shape, refused) at h))
                | inr path ↦ elim (Bool-cases (is_empty prefixes)) [
                  | inl none_given ↦ absurd (cc (rw (shape, path, none_given) at h))
                  | inr some_given ↦ elim (Bool-cases (has_allowed_prefix (clean k) prefixes)) [
                    | inr refused ↦ absurd (cc (rw (shape, path, some_given, refused) at h))
                    | inl allowed ↦ record {
                      given = ground (arith, shape);
                      relative = ground (arith, shape);
                      no_backslash = ground (arith, shape);
                      named = ground (arith, path);
                      low = ground (arith, path);
                      same = (eq_iff (clean k) k).0 (ground (arith, path));
                      allowed = allowed;
                      result = some_inj (rw (shape, path, some_given, allowed) at h);
                    }
                  ]
                ]
              ]
      ]

  -- A key that `validateObjectKey` returns is the trimmed text, made of plain segments (none empty, ".",
  -- or "..") joined by single slashes, without a backslash, and it is an allowed prefix or stands below
  -- one.
  pub validate_object_key-IsSafeKey :
      validate_object_key raw prefixes ≡ some key → (key ≡ trim_space raw) × IsSafeKey prefixes key
  validate_object_key-IsSafeKey h =
      let a = IsAccepted-of h in
      let (segments, whole, plain) =
        IsPlain-segments (trim_space raw) a.given a.relative a.named a.low in
      (
        sym a.result ∙ a.same,
        record {
          segments = segments;
          joined = sym a.result ∙ whole;
          plain = plain;
          no_backslash =
              subst (λ (t : String). contains t "\\" ≡ false) (sym a.same ∙ a.result)
                a.no_backslash;
          allowed = subst (λ (t : String). has_allowed_prefix t prefixes ≡ true) a.result a.allowed;
        },
      )
