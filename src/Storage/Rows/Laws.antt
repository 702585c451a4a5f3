-- ===== src/Storage/Rows/Laws.antt =====
-- The rows that inserts, updates and deletions leave, with their keys.
use dav_deck.Common.{
  ◌≡◌, refl, ap, ◌∙◌, Bool, true, false, Bool-cases, inl, inr, not, ◌&&◌, ◌||◌, List, [], ◌∷◌, ◌++◌,
  any, all, if◌then◌else◌, arith,
}
use dav_deck.Common.Text.{Text, text_eq}
use dav_deck.Common.Text.Laws.{text_eq_iff}
use dav_deck.Common.Keys.{same_key, is_distinct}
use dav_deck.Storage.Rows.{update_where, delete_where}

module _ {A : Type 0} where
  pub any-append : (p : A → Bool) (xs : List A) (x : A) → any p (xs ++ x ∷ []) ≡ (any p xs || p x)
  any-append p [] x = ground arith
  any-append p (y ∷ ys) x = ground (arith, any-append p ys x)

  pub any-update_where :
      (p test : A → Bool) (change : A → A)
      → ((x : A) → p (if test x then change x else x) ≡ p x)
      → (xs : List A) → any p (update_where test change xs) ≡ any p xs
  unfolding update_where
  any-update_where p test change same [] = refl
  any-update_where p test change same (x ∷ xs) =
      rw (same x, any-update_where p test change same xs) refl

  -- What no deleted row has, the others still have.
  pub any-delete_where :
      (p test : A → Bool) (xs : List A) → any p xs ≡ false → any p (delete_where test xs) ≡ false
  unfolding delete_where
  any-delete_where p test [] h = refl
  any-delete_where p test (x ∷ xs) h = ground (arith, any-delete_where p test xs)

  pub all-delete_where :
      (p test : A → Bool) (xs : List A) → all p xs ≡ true → all p (delete_where test xs) ≡ true
  unfolding delete_where
  all-delete_where p test [] h = refl
  all-delete_where p test (x ∷ xs) h = ground (arith, all-delete_where p test xs)

  -- The rows that are left fail the test.
  pub all-left :
      (test : A → Bool) (xs : List A) → all (λ x. not (test x)) (delete_where test xs) ≡ true
  unfolding delete_where
  all-left test [] = refl
  all-left test (x ∷ xs) = ground (arith, all-left test xs)

module _ {A : Type 0} (key : A → Text) where
  pub is_distinct-append :
      (xs : List A) (x : A)
      → any (λ y. text_eq (key y) (key x)) xs ≡ false
      → is_distinct key xs ≡ true
      → is_distinct key (xs ++ x ∷ []) ≡ true
  is_distinct-append [] x h k = refl
  is_distinct-append (y ∷ ys) x h k =
      ground (arith, any-append (same_key key y) ys x, is_distinct-append ys x)

  pub is_distinct-delete_where :
      (test : A → Bool) (xs : List A)
      → is_distinct key xs ≡ true
      → is_distinct key (delete_where test xs) ≡ true
  unfolding delete_where
  is_distinct-delete_where test [] h = refl
  is_distinct-delete_where test (x ∷ xs) h =
      ground (arith, is_distinct-delete_where test xs, any-delete_where (same_key key x) test xs)

  -- The key of a row that is updated, where the update keeps it.
  key-updated :
      (test : A → Bool) (change : A → A) (same : (x : A) → key (change x) ≡ key x) (x : A)
      → key (if test x then change x else x) ≡ key x
  key-updated test change same x = elim (Bool-cases (test x)) [
    | inl h ↦ rw h (same x)
    | inr h ↦ rw h refl
  ]

  pub is_distinct-update_where :
      (test : A → Bool) (change : A → A) (same : (x : A) → key (change x) ≡ key x) (xs : List A)
      → is_distinct key (update_where test change xs) ≡ is_distinct key xs
  unfolding update_where
  is_distinct-update_where test change same [] = refl
  is_distinct-update_where test change same (x ∷ xs) =
      let rows = update_where test change xs in
      ap (λ k. not (any (λ y. text_eq k (key y)) rows) && is_distinct key rows)
        (key-updated test change same x)
      ∙ rw
          (
            any-update_where (same_key key x) test change
                (λ y. ap (text_eq (key x)) (key-updated test change same y)) xs,
            is_distinct-update_where test change same xs,
          )
          refl

  pub any_key-update_where :
      (k : Text) (test : A → Bool) (change : A → A) (same : (x : A) → key (change x) ≡ key x)
      (xs : List A)
      → any (λ x. text_eq (key x) k) (update_where test change xs) ≡ any (λ x. text_eq (key x) k) xs
  any_key-update_where k test change same xs =
      any-update_where (λ x. text_eq (key x) k) test change
        (λ x. ap (λ t. text_eq t k) (key-updated test change same x)) xs

  -- A key that is not the deleted one is still there.
  pub any_key-delete_where :
      (deleted k : Text) (xs : List A)
      → text_eq k deleted ≡ false
      → any (λ x. text_eq (key x) k) xs ≡ true
      → any (λ x. text_eq (key x) k) (delete_where (λ x. text_eq (key x) deleted) xs) ≡ true
  unfolding delete_where
  any_key-delete_where deleted k [] h j = cc
  any_key-delete_where deleted k (x ∷ xs) h j = ground (
    arith,
    any_key-delete_where deleted k xs,
    text_eq_iff (key x) k,
    text_eq_iff (key x) deleted,
    text_eq_iff k deleted,
  )
