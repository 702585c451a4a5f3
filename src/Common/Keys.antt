-- ===== src/Common/Keys.antt =====
-- Loops that look a key up in a Go map of the keys before it.
use mathlib.Core.Path.{◌≡◌, refl, ◌∙◌}
use mathlib.Core.Bool.{Bool, true, not, ◌&&◌}
use mathlib.Core.List.{List, [], ◌∷◌, map}
use native.Mathlib.Omega.{arith}
use dav_deck.Common.Lists.{any, all}
use dav_deck.Common.Sorting.{insert, sort_slice, any-sort_slice, all-sort_slice, any-insert}
use dav_deck.Common.Text.{Text, text_eq}
use dav_deck.Common.Text.Laws.{text_eq_sym}

pub any-map :
    {A B : Type 0} (p : B → Bool) (f : A → B) (xs : List A)
    → any p (map f xs) ≡ any (λ x. p (f x)) xs
any-map p f [] = refl
any-map p f (x ∷ xs) = rw (any-map p f xs) refl

module _ {A : Type 0} (key : A → Text) where
  abbrev pub same_key : A → A → Bool
  same_key x y = text_eq (key x) (key y)

  -- No two elements have the same key.
  abbrev pub is_distinct : List A → Bool
  is_distinct [] = true
  is_distinct (x ∷ xs) = not (any (same_key x) xs) && is_distinct xs

  abbrev pub is_unseen : List Text → A → Bool
  is_unseen seen x = not (any (text_eq (key x)) seen)

  -- The loop over these elements meets no key twice.
  abbrev pub is_fresh : List Text → List A → Bool
  is_fresh seen xs = all (is_unseen seen) xs && is_distinct xs

  all_unseen-cons :
      (seen : List Text) (x : A) (xs : List A)
      → all (is_unseen (key x ∷ seen)) xs ≡ (not (any (same_key x) xs) && all (is_unseen seen) xs)
  all_unseen-cons seen x [] = refl
  all_unseen-cons seen x (y ∷ ys) =
      ground (arith, text_eq_sym (key x) (key y), all_unseen-cons seen x ys)

  pub is_fresh-cons :
      (seen : List Text) (x : A) (xs : List A)
      → is_fresh seen (x ∷ xs) ≡ (is_unseen seen x && is_fresh (key x ∷ seen) xs)
  is_fresh-cons seen x xs = ground (arith, all_unseen-cons seen x xs)

  module _ (less : A → A → Bool) where
    is_distinct-insert :
        (x : A) (xs : List A) → is_distinct (insert less x xs) ≡ is_distinct (x ∷ xs)
    unfolding insert
    is_distinct-insert x [] = refl
    is_distinct-insert x (y ∷ ys) = ground (
      arith,
      text_eq_sym (key x) (key y),
      any-insert less (same_key y) x ys,
      is_distinct-insert x ys,
    )

    is_distinct-sort_slice : (xs : List A) → is_distinct (sort_slice less xs) ≡ is_distinct xs
    unfolding sort_slice
    is_distinct-sort_slice [] = refl
    is_distinct-sort_slice (x ∷ xs) =
        is_distinct-insert x (sort_slice less xs)
        ∙ rw (any-sort_slice less (same_key x) xs, is_distinct-sort_slice xs) refl

    -- The order does not matter.
    pub is_fresh-sort_slice :
        (seen : List Text) (xs : List A) → is_fresh seen (sort_slice less xs) ≡ is_fresh seen xs
    is_fresh-sort_slice seen xs =
        rw (all-sort_slice less (is_unseen seen) xs, is_distinct-sort_slice xs) refl
