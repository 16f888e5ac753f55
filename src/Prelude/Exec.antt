-- ===== src/Prelude/Exec.antt =====
-- Calls that read and write a state and may fail: what was written before an error stays written,
-- as in Go code that returns early.
pub mod Steps
pub mod Runs
use motivra.Prelude.Tests.{if◌then◌else◌}
use mathlib.Core.Bool.{Bool, true, false}
use mathlib.Core.Option.{Option, none, some}

pub data Result {ℓ} (E A : Type ℓ) : Type ℓ where
  ok : A → Result E A
  err : E → Result E A

abbrev pub Exec {ℓ} : Type ℓ → Type ℓ → Type ℓ → Type ℓ
Exec S E A = S → Result E A × S

module _ {ℓ} {E A : Type ℓ} where
  abbrev pub recode_result : (E → E) → Result E A → Result E A
  recode_result f (ok a) = ok a
  recode_result f (err e) = err (f e)

module _ {ℓ} {S E A : Type ℓ} where
  unfoldable pub pure : A → Exec S E A
  pure a s = (ok a, s)

  unfoldable pub raise : E → Exec S E A
  raise e s = (err e, s)

  unfoldable pub lift : Result E A → Exec S E A
  lift r s = (r, s)

  unfoldable pub gets : (S → A) → Exec S E A
  gets f s = (ok (f s), s)

  unfoldable pub or_raise : Option A → E → Exec S E A
  or_raise none e s = (err e, s)
  or_raise (some a) e s = (ok a, s)

  -- Reads a value that may be missing.
  unfoldable pub find_or_raise : (S → Option A) → E → Exec S E A
  unfolding or_raise
  find_or_raise f e s = or_raise (f s) e s

  -- Answers an error by another, as `if err != nil { return … }` does.
  unfoldable pub recode : (E → E) → Exec S E A → Exec S E A
  recode f m s = let (r, s') = m s in (recode_result f r, s')

  -- A read of the state that may fail.
  unfoldable pub attempt : (S → Result E A) → Exec S E A
  attempt f s = (f s, s)

module _ {S E : Type 0} where
  unfoldable pub modify : (S → S) → Exec S E (Unit {0})
  modify f s = (ok tt, f s)

  -- `if !c { return e }`
  unfoldable pub require : Bool → E → Exec S E (Unit {0})
  require true e s = (ok tt, s)
  require false e s = (err e, s)

  -- A test of the state.
  unfoldable pub check : (S → Bool) → E → Exec S E (Unit {0})
  unfolding require
  check c e s = require (c s) e s

module _ {ℓ} {S E A B : Type ℓ} where
  abbrev pub continue : Result E A → (A → Exec S E B) → Exec S E B
  continue (ok a) f s = f a s
  continue (err e) f s = (err e, s)

  infixl 5 ◌>>=◌ ◌>>◌
  unfoldable pub ◌>>=◌ : Exec S E A → (A → Exec S E B) → Exec S E B
  unfolding pure raise lift gets or_raise find_or_raise modify require check
  ◌>>=◌ m f s = let (r, s') = m s in continue r f s'

  abbrev pub ◌>>◌ : Exec S E A → Exec S E B → Exec S E B
  m >> n = m >>= λ _. n
