-- ===== src/Common/Sorting.antt =====
-- `sort.Slice` as a stable insertion sort. The program sorts by keys that its validation keeps
-- distinct, so that the result does not depend on the algorithm.
use mathlib.Core.Path.{◌≡◌, refl, ap, ◌∙◌}
use mathlib.Core.Bool.{Bool, true, false, ◌&&◌, ◌||◌}
use mathlib.Core.List.{List, [], ◌∷◌}
use native.Mathlib.Omega.{arith}
use dav_deck.Common.Tests.{if◌then◌else◌}
use dav_deck.Common.Lists.{any, all}

unfoldable pub insert : {A : Type 0} → (A → A → Bool) → A → List A → List A
insert less x [] = x ∷ []
insert less x (y ∷ ys) = if less y x then y ∷ insert less x ys else x ∷ y ∷ ys

unfoldable pub sort_slice : {A : Type 0} → (A → A → Bool) → List A → List A
unfolding insert
sort_slice less [] = []
sort_slice less (x ∷ xs) = insert less x (sort_slice less xs)

module _ {A : Type 0} (less : A → A → Bool) where
  -- No element comes before the one to its left.
  abbrev pub IsSorted : List A → Type 0
  IsSorted [] = Unit
  IsSorted (x ∷ []) = Unit
  IsSorted (x ∷ y ∷ ys) = (less y x ≡ false) × IsSorted (y ∷ ys)

  pub sort_slice_of_IsSorted : (xs : List A) → IsSorted xs → sort_slice less xs ≡ xs
  unfolding sort_slice insert
  sort_slice_of_IsSorted [] h = refl
  sort_slice_of_IsSorted (x ∷ []) h = refl
  sort_slice_of_IsSorted (x ∷ y ∷ ys) h = rw (sort_slice_of_IsSorted (y ∷ ys) h.1) (ground arith)

  module _ (asymm : (x y : A) → less x y ≡ true → less y x ≡ false) where
    insert-IsSorted : (x : A) (ys : List A) → IsSorted ys → IsSorted (insert less x ys)
    unfolding insert
    insert-IsSorted x [] h = tt
    insert-IsSorted x (y ∷ []) h = ground (arith, asymm y x)
    insert-IsSorted x (y ∷ z ∷ ys) h = ground (arith, asymm y x, insert-IsSorted x (z ∷ ys) h.1)

    pub sort_slice-IsSorted : (xs : List A) → IsSorted (sort_slice less xs)
    unfolding sort_slice
    sort_slice-IsSorted [] = tt
    sort_slice-IsSorted (x ∷ xs) = insert-IsSorted x (sort_slice less xs) (sort_slice-IsSorted xs)

    -- Sorting what is sorted changes nothing.
    pub sort_slice_idempotent :
        (xs : List A) → sort_slice less (sort_slice less xs) ≡ sort_slice less xs
    sort_slice_idempotent xs = sort_slice_of_IsSorted (sort_slice less xs) (sort_slice-IsSorted xs)

  -- Sorting keeps the members.
  pub any-insert :
      (p : A → Bool) (x : A) (xs : List A) → any p (insert less x xs) ≡ (p x || any p xs)
  unfolding insert
  any-insert p x [] = refl
  any-insert p x (y ∷ ys) = ground (arith, any-insert p x ys)

  pub any-sort_slice : (p : A → Bool) (xs : List A) → any p (sort_slice less xs) ≡ any p xs
  unfolding sort_slice
  any-sort_slice p [] = refl
  any-sort_slice p (x ∷ xs) =
      any-insert p x (sort_slice less xs) ∙ ap (λ b. p x || b) (any-sort_slice p xs)

  all-insert : (p : A → Bool) (x : A) (xs : List A) → all p (insert less x xs) ≡ (p x && all p xs)
  unfolding insert
  all-insert p x [] = refl
  all-insert p x (y ∷ ys) = ground (arith, all-insert p x ys)

  pub all-sort_slice : (p : A → Bool) (xs : List A) → all p (sort_slice less xs) ≡ all p xs
  unfolding sort_slice
  all-sort_slice p [] = refl
  all-sort_slice p (x ∷ xs) =
      all-insert p x (sort_slice less xs) ∙ ap (λ b. p x && b) (all-sort_slice p xs)
