-- ===== src/Prelude/Results.antt =====
-- A Go result pair `(value, error)`: a value, or the error in whose presence the value is unused.
use mathlib.Core.Path.{◌≡◌, refl}
use mathlib.Core.Bool.{Bool, true, false}
use mathlib.Core.Option.{Option, none, some}
use mathlib.Core.Logic.{◌⊎◌, inl, inr}

pub data Result {ℓ κ} (E : Type ℓ) (A : Type κ) : Type (ℓ ⊔ κ) where
  ok : A → Result E A
  err : E → Result E A

infixl 5 ◌>>=◌ ◌>>◌
abbrev pub ◌>>=◌ {ℓ κ} :
    {E : Type 0} {A : Type ℓ} {B : Type κ} → Result E A → (A → Result E B) → Result E B
ok a >>= f = f a
err e >>= f = err e

abbrev pub ◌>>◌ {κ} : {E : Type 0} {B : Type κ} → Result E (Unit {0}) → Result E B → Result E B
m >> k = m >>= λ _. k

-- `if !test { return err }`
abbrev pub require : {E : Type 0} → Bool → E → Result E (Unit {0})
require true e = ok tt
require false e = err e

-- `v, ok := …; if !ok { return err }`
abbrev pub some_or {ℓ} : {E : Type 0} {A : Type ℓ} → Option A → E → Result E A
some_or none e = err e
some_or (some a) e = ok a

-- the error wrapped on its way out
abbrev pub map_err {ℓ} : {E F : Type 0} {A : Type ℓ} → (E → F) → Result E A → Result F A
map_err f (ok a) = ok a
map_err f (err e) = err (f e)

pub bind-eq-ok {ℓ κ} :
    {E : Type 0} {A : Type ℓ} {B : Type κ} (call : Result E A) (next : A → Result E B) {out : B}
    → (call >>= next) ≡ ok out
    → (a : A) × (call ≡ ok a) × (next a ≡ ok out)
bind-eq-ok (err e) next done = cc
bind-eq-ok (ok a) next done = (a, refl, done)

pub Result-cases {ℓ} :
    {E : Type 0} {A : Type ℓ} (r : Result E A) → ((a : A) × (r ≡ ok a)) ⊎ ((e : E) × (r ≡ err e))
Result-cases (ok a) = inl (a, refl)
Result-cases (err e) = inr (e, refl)

pub require-eq-ok {κ} :
    {E : Type 0} {B : Type κ} (b : Bool) (e : E) (m : Result E B) {v : B}
    → (require b e >> m) ≡ ok v
    → (b ≡ true) × (m ≡ ok v)
require-eq-ok true e m h = (refl, h)
require-eq-ok false e m h = cc

pub ok-injective {ℓ} :
    {E : Type 0} {A : Type ℓ} {a b : A} → ◌≡◌ {A = Result E A} (ok a) (ok b) → a ≡ b
ok-injective h = cc

pub err-ne-ok {ℓ} :
    {E : Type 0} {A : Type ℓ} {e : E} {a : A} → ◌≡◌ {A = Result E A} (err e) (ok a) → ⊥
err-ne-ok h = cc

pub some_or-eq-ok {ℓ} :
    {E : Type 0} {A : Type ℓ} (o : Option A) (e : E) {a : A} → some_or o e ≡ ok a → o ≡ some a
some_or-eq-ok none e h = cc
some_or-eq-ok (some b) e h = cc

pub map_err-eq-ok {ℓ} :
    {E F : Type 0} {A : Type ℓ} (f : E → F) (r : Result E A) {a : A} → map_err f r ≡ ok a → r ≡ ok a
map_err-eq-ok f (ok b) h = cc
map_err-eq-ok f (err e) h = cc

pub require-eq-ok_last :
    {E : Type 0} (b : Bool) (e : E) {u : Unit {0}} → require b e ≡ ok u → b ≡ true
require-eq-ok_last true e h = refl
require-eq-ok_last false e h = cc

-- The inversions for long chains: what is known of each step is handed on, and names no later step.
pub on_ok {ℓ κ μ} :
    {E : Type 0} {A : Type ℓ} {B : Type κ} {C : Type μ} (m : Result E A) (f : A → Result E B)
    {b : B}
    → (m >>= f) ≡ ok b
    → ((a : A) → m ≡ ok a → f a ≡ ok b → C)
    → C
on_ok (ok a) f h k = k a refl h
on_ok (err e) f h k = absurd (err-ne-ok h)

pub on_require {κ μ} :
    {E : Type 0} {B : Type κ} {C : Type μ} (b : Bool) (e : E) (m : Result E B) {v : B}
    → (require b e >> m) ≡ ok v
    → (b ≡ true → m ≡ ok v → C)
    → C
on_require true e m h k = k refl h
on_require false e m h k = absurd (err-ne-ok h)
