-- ===== src/Common/Errors.antt =====
-- A fallible function returns a `Result`: Go's `(value, error)` with exactly one of them present.
use mathlib.Core.Path.{◌≡◌, refl, subst, ap, ◌∙◌}
use mathlib.Core.Bool.{Bool, true, false, not, ◌&&◌}

pub data Result (E A : Type 0) : Type 0 where
  ok : A → Result E A
  err : E → Result E A

module _ {E A : Type 0} where
  infixl 5 ◌>>=◌ ◌>>◌
  -- `value, err := m; if err != nil { return err }`
  abbrev pub ◌>>=◌ : {B : Type 0} → Result E B → (B → Result E A) → Result E A
  err failure >>= next = err failure
  ok value >>= next = next value

  abbrev pub ◌>>◌ : Result E (Unit {0}) → Result E A → Result E A
  check >> next = check >>= λ done. next

-- `if test { return e }`
abbrev pub reject : {E : Type 0} → Bool → E → Result E (Unit {0})
reject true e = err e
reject false e = ok tt

-- `fmt.Errorf("…: %w", err)`
abbrev pub wrap : {E F A : Type 0} → (E → F) → Result E A → Result F A
wrap f (ok a) = ok a
wrap f (err e) = err (f e)

module _ {E A : Type 0} where
  -- What a chain that succeeds went through.
  pub then_ok :
      {B : Type 0} (m : Result E A) (f : A → Result E B) (b : B)
      → (m >>= f) ≡ ok b
      → (a : A) × (m ≡ ok a) × (f a ≡ ok b)
  then_ok (ok a) f b h = (a, refl, h)
  then_ok (err e) f b h = cc

  pub ok_injective : (a b : A) → ◌≡◌ {A = Result E A} (ok a) (ok b) → a ≡ b
  ok_injective a b h = cc

-- Where the result is a value, it has the property.
abbrev pub Gives : {E A : Type 0} → (A → Type 0) → Result E A → Type 0
Gives P (ok a) = P a
Gives P (err e) = Unit

module _ {E A : Type 0} where
  pub of_Gives : (P : A → Type 0) (r : Result E A) (a : A) → Gives P r → r ≡ ok a → P a
  of_Gives P (ok b) a g h = subst P (ok_injective b a h) g
  of_Gives P (err e) a g h = cc

  pub Gives-self : (r : Result E A) → Gives (λ a. r ≡ ok a) r
  Gives-self (ok a) = refl
  Gives-self (err e) = tt

  -- A call, and what follows.
  pub Gives-bind :
      {B : Type 0} (P : A → Type 0) (m : Result E B) (f : B → Result E A)
      → ((b : B) → m ≡ ok b → Gives P (f b))
      → Gives P (m >>= f)
  Gives-bind P (ok b) f g = g b refl
  Gives-bind P (err e) f g = tt

  -- A check, and what follows.
  pub Gives-check :
      (P : A → Type 0) (m : Result E (Unit {0})) (n : Result E A)
      → (m ≡ ok tt → Gives P n)
      → Gives P (m >> n)
  Gives-check P (ok _) n g = g refl
  Gives-check P (err e) n g = tt

abbrev pub is_ok : {E A : Type 0} → Result E A → Bool
is_ok (ok a) = true
is_ok (err e) = false

module _ {E A : Type 0} where
  pub value_of : (r : Result E A) → is_ok r ≡ true → (a : A) × (r ≡ ok a)
  value_of (ok a) h = (a, refl)
  value_of (err e) h = cc

  pub is_ok-wrap : {F : Type 0} (f : E → F) (r : Result E A) → is_ok (wrap f r) ≡ is_ok r
  is_ok-wrap f (ok a) = refl
  is_ok-wrap f (err e) = refl

  pub is_ok-check :
      (m : Result E (Unit {0})) (n : Result E A) → is_ok (m >> n) ≡ (is_ok m && is_ok n)
  is_ok-check (ok _) n = refl
  is_ok-check (err e) n = refl

  -- What follows succeeds or fails whatever the value is.
  pub is_ok-bind :
      {B : Type 0} (m : Result E B) (f : B → Result E A) (b : Bool)
      → ((x : B) → m ≡ ok x → is_ok (f x) ≡ b)
      → is_ok (m >>= f) ≡ (is_ok m && b)
  is_ok-bind (ok x) f b h = h x refl
  is_ok-bind (err e) f b h = refl

pub is_ok-reject : {E : Type 0} (b : Bool) (e : E) → is_ok (reject b e) ≡ not b
is_ok-reject true e = refl
is_ok-reject false e = refl

-- A check, a test of a key, and what follows.
pub is_ok-step :
    {E A : Type 0} (m : Result E (Unit {0})) (b : Bool) (e : E) (n : Result E A)
    → is_ok (m >> (reject b e >> n)) ≡ (is_ok m && (not b && is_ok n))
is_ok-step m b e n =
    is_ok-check m (reject b e >> n)
    ∙ ap (λ x. is_ok m && x)
        (is_ok-check (reject b e) n ∙ ap (λ x. x && is_ok n) (is_ok-reject b e))

pub is_ok-test :
    {E A : Type 0} (b : Bool) (e : E) (n : Result E A)
    → is_ok (reject b e >> n) ≡ (not b && is_ok n)
is_ok-test b e n = is_ok-check (reject b e) n ∙ ap (λ x. x && is_ok n) (is_ok-reject b e)
