-- ===== src/Common/Exec/Outcome.antt =====
-- What holds of a chain, by what holds after its first action.
use mathlib.Core.Path.{◌≡◌, refl}
use dav_deck.Common.Errors.{Result, ok, err}
use dav_deck.Common.Exec.{Exec, continue, ◌>>=◌}

module _ {S E A C : Type 0} (P : Result E C × S → Type 0) where
  outcome :
      (m : Exec S E A) (g : A → Exec S E C) (s : S) (r : Result E A) (s' : S)
      → m s ≡ (r, s')
      → ((e : E) (s' : S) → m s ≡ (err e, s') → P (err e, s'))
      → ((a : A) (s' : S) → m s ≡ (ok a, s') → P (g a s'))
      → P (continue r g s')
  outcome m g s (ok a) s' same on_err on_ok = on_ok a s' same
  outcome m g s (err e) s' same on_err on_ok = on_err e s' same

  pub outcome-bind :
      (m : Exec S E A) (g : A → Exec S E C) (s : S)
      → ((e : E) (s' : S) → m s ≡ (err e, s') → P (err e, s'))
      → ((a : A) (s' : S) → m s ≡ (ok a, s') → P (g a s'))
      → P ((m >>= g) s)
  unfolding ◌>>=◌
  outcome-bind m g s on_err on_ok = outcome m g s (m s).0 (m s).1 refl on_err on_ok
