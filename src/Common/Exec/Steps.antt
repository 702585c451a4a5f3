-- ===== src/Common/Exec/Steps.antt =====
-- Rules for how the states before and after an action are related, by a reflexive and transitive
-- relation on a view of the state.
use mathlib.Core.Path.{subst, sym}
use mathlib.Core.Bool.{Bool, true, false}
use dav_deck.Common.Tests.{if◌then◌else◌}
use dav_deck.Common.Errors.{Result, ok, err}
use dav_deck.Common.Exec.{Exec, attempt, map_error, modify, continue, ◌>>=◌}
use dav_deck.Common.Exec.Keeps.{Keeps}

pub record Steps {S E A V : Type 0} (Rel : V → V → Type 0) (view : S → V) (m : Exec S E A)
    : Type 0 where
  pub at : (s : S) → Rel (view s) (view (m s).1)

module _ {S V : Type 0} {Rel : V → V → Type 0} {view : S → V} where
  pub Steps-if :
      {E A : Type 0} (b : Bool) (m n : Exec S E A)
      → Steps Rel view m
      → Steps Rel view n
      → Steps Rel view (if b then m else n)
  Steps-if true m n h k = h
  Steps-if false m n h k = k

  pub Steps-map_error :
      {E F A : Type 0} (f : E → F) (m : Exec S E A)
      → Steps Rel view m
      → Steps Rel view (map_error f m)
  unfolding map_error
  Steps-map_error f m h = record { at = h.at }

  pub Steps-attempt :
      {E F A : Type 0} (m : Exec S E A) → Steps Rel view m → Steps Rel view (attempt {F = F} m)
  unfolding attempt
  Steps-attempt m h = record { at = h.at }

  pub Steps-modify :
      {E : Type 0} (f : S → S)
      → ((s : S) → Rel (view s) (view (f s)))
      → Steps Rel view (modify {E = E} f)
  unfolding modify
  Steps-modify f h = record { at = h }

module _ {S V : Type 0} (Rel : V → V → Type 0) (view : S → V) (rel_refl : (v : V) → Rel v v) where
  pub Steps-of_Keeps : {E A : Type 0} (m : Exec S E A) → Keeps view m → Steps Rel view m
  Steps-of_Keeps m k = record { at = λ s. subst (Rel (view s)) (sym (k.at s)) (rel_refl (view s)) }

  module _ (rel_trans : (a b c : V) → Rel a b → Rel b c → Rel a c) where
    continued :
        {E A B : Type 0} (r : Result E A) (g : A → Exec S E B) (s : S)
        → ((a : A) → Steps Rel view (g a))
        → Rel (view s) (view (continue r g s).1)
    continued (ok a) g s h = (h a).at s
    continued (err e) g s h = rel_refl (view s)

    pub Steps-bind :
        {E A B : Type 0} (m : Exec S E A) (g : A → Exec S E B)
        → Steps Rel view m
        → ((a : A) → Steps Rel view (g a))
        → Steps Rel view (m >>= g)
    unfolding ◌>>=◌
    Steps-bind m g h k = record {
      at = λ s. rel_trans _ _ _ (h.at s) (continued (m s).0 g (m s).1 k);
    }
