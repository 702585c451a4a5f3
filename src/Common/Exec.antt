-- ===== src/Common/Exec.antt =====
-- Code that changes a state and may fail: the state passes through, an error included.
pub mod Ensures
pub mod Keeps
pub mod Outcome
pub mod Steps
use mathlib.Core.Bool.{Bool, true, false}
use dav_deck.Common.Errors.{Result, ok, err, wrap}

abbrev pub Exec : Type 0 → Type 0 → Type 0 → Type 0
Exec S E A = S → Result E A × S

module _ {S E A : Type 0} where
  unfoldable pub pure : A → Exec S E A
  pure a s = (ok a, s)

  unfoldable pub raise : E → Exec S E A
  raise e s = (err e, s)

  -- A pure function that may fail.
  unfoldable pub lift : Result E A → Exec S E A
  lift r s = (r, s)

  unfoldable pub gets : (S → A) → Exec S E A
  gets f s = (ok (f s), s)

module _ {S E : Type 0} where
  unfoldable pub modify : (S → S) → Exec S E (Unit {0})
  modify f s = (ok tt, f s)

  -- `if test { return e }`
  unfoldable pub fail_if : Bool → E → Exec S E (Unit {0})
  fail_if true e s = (err e, s)
  fail_if false e s = (ok tt, s)

module _ {S E F A : Type 0} where
  -- `value, err := m`, for a caller that goes on in both cases.
  unfoldable pub attempt : Exec S E A → Exec S F (Result E A)
  attempt m s = let (r, s') = m s in (ok r, s')

  -- `if err != nil { return f(err) }`
  unfoldable pub map_error : (E → F) → Exec S E A → Exec S F A
  map_error f m s = let (r, s') = m s in (wrap f r, s')

module _ {S E A B : Type 0} where
  abbrev pub continue : Result E A → (A → Exec S E B) → Exec S E B
  continue (ok a) f s = f a s
  continue (err e) f s = (err e, s)

  infixl 5 ◌>>=◌ ◌>>◌
  unfoldable pub ◌>>=◌ : Exec S E A → (A → Exec S E B) → Exec S E B
  ◌>>=◌ m f s = let (r, s') = m s in continue r f s'

  abbrev pub ◌>>◌ : Exec S E A → Exec S E B → Exec S E B
  m >> n = m >>= λ _. n
