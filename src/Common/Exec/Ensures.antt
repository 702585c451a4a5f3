-- ===== src/Common/Exec/Ensures.antt =====
-- Rules for what holds after an action that succeeds.
use mathlib.Core.Path.{◌≡◌, refl, subst}
use mathlib.Core.Bool.{Bool, true, false}
use dav_deck.Common.Tests.{if◌then◌else◌}
use dav_deck.Common.Errors.{Result, ok, err, wrap}
use dav_deck.Common.Exec.{Exec, pure, raise, lift, attempt, map_error, continue, ◌>>=◌}

-- If `m` returns `a`, then `Q a` holds of the state after it.
pub record Ensures {S E A : Type 0} (Q : A → S → Type 0) (m : Exec S E A) : Type 0 where
  pub at_ok : (s : S) (a : A) → (m s).0 ≡ ok a → Q a (m s).1

wrap-eq-ok : {E F A : Type 0} (g : E → F) (r : Result E A) (a : A) → wrap g r ≡ ok a → r ≡ ok a
wrap-eq-ok g (ok b) a h = cc
wrap-eq-ok g (err d) a h = cc

module _ {S E A : Type 0} {Q : A → S → Type 0} where
  pub Ensures-raise : (e : E) → Ensures Q (raise {S = S} e)
  unfolding raise
  Ensures-raise e = record { at_ok = λ s a h. absurd (cc) }

  pub Ensures-if :
      (b : Bool) (m n : Exec S E A) → Ensures Q m → Ensures Q n → Ensures Q (if b then m else n)
  Ensures-if true m n em en = em
  Ensures-if false m n em en = en

  pub Ensures-map_error :
      {F : Type 0} (g : E → F) (m : Exec S E A) → Ensures Q m → Ensures Q (map_error g m)
  unfolding map_error
  Ensures-map_error g m k = record { at_ok = λ s a h. k.at_ok s a (wrap-eq-ok g (m s).0 a h) }

module _ {S E A C : Type 0} (Q : C → S → Type 0) where
  continued :
      (r : Result E A) (g : A → Exec S E C)
      → ((a : A) → Ensures Q (g a))
      → (s : S) (c : C) → (continue r g s).0 ≡ ok c
      → Q c (continue r g s).1
  continued (ok a) g k s c h = (k a).at_ok s c h
  continued (err e) g k s c h = absurd (cc)

  pub Ensures-bind :
      (m : Exec S E A) (g : A → Exec S E C) → ((a : A) → Ensures Q (g a)) → Ensures Q (m >>= g)
  unfolding ◌>>=◌
  Ensures-bind m g k = record { at_ok = λ s c h. continued (m s).0 g k (m s).1 c h }

  after :
      (m : Exec S E A) (g : A → Exec S E C) (P : A → S → Type 0)
      → Ensures P m
      → ((a : A) (s : S) → P a s → (c : C) → (g a s).0 ≡ ok c → Q c (g a s).1)
      → (s : S) (r : Result E A) (s' : S) → m s ≡ (r, s')
      → (c : C) → (continue r g s').0 ≡ ok c
      → Q c (continue r g s').1
  after m g P k next s (ok a) s' same c h =
      next a s' (subst (λ p. P a p.1) same (k.at_ok s a (rw same))) c h
  after m g P k next s (err e) s' same c h = absurd (cc)

  -- What the first action ensures is known to the rest.
  pub Ensures-then :
      (m : Exec S E A) (g : A → Exec S E C) (P : A → S → Type 0)
      → Ensures P m
      → ((a : A) (s : S) → P a s → (c : C) → (g a s).0 ≡ ok c → Q c (g a s).1)
      → Ensures Q (m >>= g)
  unfolding ◌>>=◌
  Ensures-then m g P k next = record {
    at_ok = λ s c h. after m g P k next s (m s).0 (m s).1 refl c h;
  }

module _ {S E F A C : Type 0} (Q : C → S → Type 0) where
  recovered :
      (m : Exec S E A) (g : Result E A → Exec S F C) (P : A → S → Type 0)
      → Ensures P m
      → ((e : E) → Ensures Q (g (err e)))
      → ((a : A) (s : S) → P a s → (c : C) → (g (ok a) s).0 ≡ ok c → Q c (g (ok a) s).1)
      → (s : S) (r : Result E A) (s' : S) → m s ≡ (r, s')
      → (c : C) → (g r s').0 ≡ ok c
      → Q c (g r s').1
  recovered m g P k ke ka s (ok a) s' same c h =
      ka a s' (subst (λ p. P a p.1) same (k.at_ok s a (rw same))) c h
  recovered m g P k ke ka s (err e) s' same c h = (ke e).at_ok s' c h

  pub Ensures-attempt :
      (m : Exec S E A) (g : Result E A → Exec S F C) (P : A → S → Type 0)
      → Ensures P m
      → ((e : E) → Ensures Q (g (err e)))
      → ((a : A) (s : S) → P a s → (c : C) → (g (ok a) s).0 ≡ ok c → Q c (g (ok a) s).1)
      → Ensures Q (attempt m >>= g)
  unfolding attempt ◌>>=◌
  Ensures-attempt m g P k ke ka = record {
    at_ok = λ s c h. recovered m g P k ke ka s (m s).0 (m s).1 refl c h;
  }

pub same_value : {E A : Type 0} (a b : A) (r : Result E A) → r ≡ ok a → r ≡ ok b → a ≡ b
same_value a b r h k = cc

-- A success of `pure` is its value.
pub Ensures-pure :
    {S E A : Type 0} (P : A → S → Type 0) (a : A) → ((s : S) → P a s) → Ensures P (pure {E = E} a)
unfolding pure
Ensures-pure P a h = record {
  at_ok = λ s b same. subst (λ x. P x s) (same_value a b _ refl same) (h s);
}

-- A success of a pure function is one of its values.
pub Ensures-lift : {S E A : Type 0} (r : Result E A) → Ensures {S = S} (λ a s. r ≡ ok a) (lift r)
unfolding lift
Ensures-lift r = record { at_ok = λ s a h. h }

-- A first action that ensures a fact about its value alone.
pub Ensures-value :
    {S E A C : Type 0} (Q : C → S → Type 0) (P : A → Type 0) (m : Exec S E A) (g : A → Exec S E C)
    → Ensures (λ a s. P a) m
    → ((a : A) → P a → Ensures Q (g a))
    → Ensures Q (m >>= g)
Ensures-value Q P m g h k =
    Ensures-then Q m g (λ a s. P a) h (λ a s p c same. (k a p).at_ok s c same)
