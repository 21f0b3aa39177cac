-- ===== src/Prelude/Exec.antt =====
-- Calls that change a state and may fail: what was written before an error stays written.
use gateway_runtime.Prelude.Results.{Result, ok, err}

abbrev pub Exec : Type 0 → Type 0 → Type 0 → Type 0
Exec E W A = W → Result E A × W

module _ {E W : Type 0} where
  abbrev pub pure : {A : Type 0} → A → Exec E W A
  pure a w = (ok a, w)

  abbrev pub raise : {A : Type 0} → E → Exec E W A
  raise e w = (err e, w)

  abbrev pub lift : {A : Type 0} → Result E A → Exec E W A
  lift r w = (r, w)

  -- what follows a call, by its result
  abbrev pub continue : {A B : Type 0} → Result E A → (A → Exec E W B) → Exec E W B
  continue (ok a) f w = f a w
  continue (err e) f w = (err e, w)

  infixl 5 ◌>>=◌ ◌>>◌
  abbrev pub ◌>>=◌ : {A B : Type 0} → Exec E W A → (A → Exec E W B) → Exec E W B
  ◌>>=◌ m f w = continue (m w).0 f (m w).1

  abbrev pub ◌>>◌ : {A B : Type 0} → Exec E W A → Exec E W B → Exec E W B
  m >> k = m >>= λ _. k

  -- `_ = call()`: the result and the error are dropped
  abbrev pub ignore : {A : Type 0} {F : Type 0} → Exec F W A → Exec E W (Unit {0})
  ignore m w = (ok tt, (m w).1)

  -- the result as a value, for a caller that branches on the error
  abbrev pub attempt : {A : Type 0} {F : Type 0} → Exec F W A → Exec E W (Result F A)
  attempt m w = (ok (m w).0, (m w).1)

abbrev rename : {E F A : Type 0} → (E → F) → Result E A → Result F A
rename f (ok a) = ok a
rename f (err e) = err (f e)

-- an error wrapped on its way out
abbrev pub wrap : {E F W A : Type 0} → (E → F) → Exec E W A → Exec F W A
wrap f m w = (rename f (m w).0, (m w).1)
