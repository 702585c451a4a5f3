-- ===== src/Common/Exec/Keeps.antt =====
-- Rules for what an action leaves unchanged: always (`Keeps`), or whenever it fails (`KeepsErr`).
use mathlib.Core.Path.{◌≡◌, refl, ◌∙◌, subst}
use mathlib.Core.Bool.{Bool, true, false}
use dav_deck.Common.Tests.{if◌then◌else◌}
use dav_deck.Common.Errors.{Result, ok, err, wrap}
use dav_deck.Common.Exec.{
  Exec, pure, raise, lift, gets, modify, fail_if, attempt, map_error, continue, ◌>>=◌,
}

-- The view `f` of the state is the same before and after `m`.
pub record Keeps {S E A B : Type 0} (f : S → B) (m : Exec S E A) : Type 0 where
  pub at : (s : S) → f (m s).1 ≡ f s

-- Where `m` fails, the view `f` of the state is the same before and after.
pub record KeepsErr {S E A B : Type 0} (f : S → B) (m : Exec S E A) : Type 0 where
  pub at_err : (s : S) (e : E) → (m s).0 ≡ err e → f (m s).1 ≡ f s

module _ {S E A B : Type 0} {f : S → B} where
  pub Keeps-pure : (a : A) → Keeps f (pure {E = E} a)
  unfolding pure
  Keeps-pure a = record { at = λ s. refl }

  pub Keeps-raise : (e : E) → Keeps f (raise {A = A} e)
  unfolding raise
  Keeps-raise e = record { at = λ s. refl }

  pub Keeps-lift : (r : Result E A) → Keeps f (lift r)
  unfolding lift
  Keeps-lift r = record { at = λ s. refl }

  pub Keeps-gets : (g : S → A) → Keeps f (gets {E = E} g)
  unfolding gets
  Keeps-gets g = record { at = λ s. refl }

  pub Keeps-if :
      (b : Bool) (m n : Exec S E A) → Keeps f m → Keeps f n → Keeps f (if b then m else n)
  Keeps-if true m n km kn = km
  Keeps-if false m n km kn = kn

  pub KeepsErr-of_Keeps : (m : Exec S E A) → Keeps f m → KeepsErr f m
  KeepsErr-of_Keeps m k = record { at_err = λ s e h. k.at s }

  pub KeepsErr-if :
      (b : Bool) (m n : Exec S E A) → KeepsErr f m → KeepsErr f n → KeepsErr f (if b then m else n)
  KeepsErr-if true m n km kn = km
  KeepsErr-if false m n km kn = kn

  pub KeepsErr-pure : (a : A) → KeepsErr f (pure {E = E} a)
  unfolding pure
  KeepsErr-pure a = record { at_err = λ s e h. refl }

module _ {S E B : Type 0} {f : S → B} where
  pub Keeps-fail_if : (b : Bool) (e : E) → Keeps f (fail_if b e)
  unfolding fail_if
  Keeps-fail_if true e = record { at = λ s. refl }
  Keeps-fail_if false e = record { at = λ s. refl }

  pub Keeps-modify : (g : S → S) → ((s : S) → f (g s) ≡ f s) → Keeps f (modify {E = E} g)
  unfolding modify
  Keeps-modify g h = record { at = h }

module _ {S E F A B : Type 0} {f : S → B} where
  pub Keeps-attempt : (m : Exec S E A) → Keeps f m → Keeps f (attempt {F = F} m)
  unfolding attempt
  Keeps-attempt m k = record { at = λ s. k.at s }

  pub Keeps-map_error : (g : E → F) (m : Exec S E A) → Keeps f m → Keeps f (map_error g m)
  unfolding map_error
  Keeps-map_error g m k = record { at = λ s. k.at s }

wrap-eq-err :
    {E F A : Type 0} (g : E → F) (r : Result E A) (e : F) → wrap g r ≡ err e → (d : E) × (r ≡ err d)
wrap-eq-err g (ok a) e h = cc
wrap-eq-err g (err d) e h = (d, refl)

module _ {S E F A B : Type 0} {f : S → B} where
  pub KeepsErr-map_error : (g : E → F) (m : Exec S E A) → KeepsErr f m → KeepsErr f (map_error g m)
  unfolding map_error
  KeepsErr-map_error g m k = record {
    at_err = λ s e h. let (d, same) = wrap-eq-err g (m s).0 e h in k.at_err s d same;
  }

-- The action always succeeds.
pub record Succeeds {S E A : Type 0} (m : Exec S E A) : Type 0 where
  pub at_ok : (s : S) (e : E) → (m s).0 ≡ err e → ⊥

pub Succeeds-pure : {S E A : Type 0} (a : A) → Succeeds (pure {S = S} {E = E} a)
unfolding pure
Succeeds-pure a = record { at_ok = λ s e h. cc }

module _ {S E F A C B : Type 0} {f : S → B} where
  recovered :
      (m : Exec S E A) (g : Result E A → Exec S F C)
      → KeepsErr f m
      → ((e : E) → KeepsErr f (g (err e)))
      → ((a : A) → Succeeds (g (ok a)))
      → (s : S) (r : Result E A) (s' : S) → m s ≡ (r, s')
      → (e : F) → (g r s').0 ≡ err e
      → f (g r s').1 ≡ f s
  recovered m g km kg sg s (ok a) s' same e h = absurd ((sg a).at_ok s' e h)
  recovered m g km kg sg s (err d) s' same e h =
      (kg d).at_err s' e h ∙ subst (λ p. f p.1 ≡ f s) same (km.at_err s d (rw same))

  -- After `attempt m`, an action that fails only where `m` has failed.
  pub KeepsErr-attempt :
      (m : Exec S E A) (g : Result E A → Exec S F C)
      → KeepsErr f m
      → ((e : E) → KeepsErr f (g (err e)))
      → ((a : A) → Succeeds (g (ok a)))
      → KeepsErr f (attempt m >>= g)
  unfolding attempt ◌>>=◌
  KeepsErr-attempt m g km kg sg = record {
    at_err = λ s e h. recovered m g km kg sg s (m s).0 (m s).1 refl e h;
  }

module _ {S E A C B : Type 0} {f : S → B} where
  Keeps-continue :
      (r : Result E A) (g : A → Exec S E C)
      → ((a : A) → Keeps f (g a))
      → (s : S) → f (continue r g s).1 ≡ f s
  Keeps-continue (ok a) g k s = (k a).at s
  Keeps-continue (err e) g k s = refl

  pub Keeps-bind :
      (m : Exec S E A) (g : A → Exec S E C)
      → Keeps f m
      → ((a : A) → Keeps f (g a))
      → Keeps f (m >>= g)
  unfolding ◌>>=◌
  Keeps-bind m g km kg = record { at = λ s. Keeps-continue (m s).0 g kg (m s).1 ∙ km.at s }

  KeepsErr-continue :
      (r : Result E A) (g : A → Exec S E C)
      → ((a : A) → KeepsErr f (g a))
      → (s : S) (e : E) → (continue r g s).0 ≡ err e
      → f (continue r g s).1 ≡ f s
  KeepsErr-continue (ok a) g k s e h = (k a).at_err s e h
  KeepsErr-continue (err d) g k s e h = refl

  pub KeepsErr-bind :
      (m : Exec S E A) (g : A → Exec S E C)
      → Keeps f m
      → ((a : A) → KeepsErr f (g a))
      → KeepsErr f (m >>= g)
  unfolding ◌>>=◌
  KeepsErr-bind m g km kg = record {
    at_err = λ s e h. KeepsErr-continue (m s).0 g kg (m s).1 e h ∙ km.at s;
  }

pub ruleset keeps_rules = (
  Keeps-pure, Keeps-raise, Keeps-lift, Keeps-gets, Keeps-if, Keeps-fail_if, Keeps-attempt,
  Keeps-map_error, Keeps-bind,
)

pub ruleset keeps_err_rules =
    (keeps_rules, KeepsErr-of_Keeps, KeepsErr-if, KeepsErr-pure, KeepsErr-map_error, KeepsErr-bind)
