-- ===== src/Storage/Revisions/Unique.antt =====
-- Rows with distinct ids and distinct numbers, all below the next number, as the schema of
-- core/migrations demands them, and what updates and deletions of rows leave of that.
use dav_deck.Common.{
  ◌≡◌, refl, ℕ, Bool, true, false, Bool-cases, inl, inr, not, ◌+◌, ◌&&◌, ◌||◌, ◌==◌, ltb, List, [],
  ◌∷◌, any, if◌then◌else◌, arith,
}
use dav_deck.Domain.Id.{EntityId}
use dav_deck.Domain.Revision.{ConfigRevision}
use dav_deck.Storage.Revisions.{select, update, has_id}

-- The row has the id or the number of the revision.
abbrev pub clashes : ConfigRevision → ConfigRevision → Bool
clashes r q = has_id r.id q || q.number == r.number

abbrev pub is_unique : List ConfigRevision → Bool
is_unique [] = true
is_unique (r ∷ rows) = not (any (clashes r) rows) && is_unique rows

abbrev pub is_below : ℕ → List ConfigRevision → Bool
is_below next [] = true
is_below next (r ∷ rows) = ltb r.number next && is_below next rows

module _ (test : ConfigRevision → Bool) (change : ConfigRevision → ConfigRevision)
    (same_id : (r : ConfigRevision) → (change r).id ≡ r.id)
    (same_number : (r : ConfigRevision) → (change r).number ≡ r.number) where
  changed : ConfigRevision → ConfigRevision
  changed r = if test r then change r else r

  id-changed : (r : ConfigRevision) → (if test r then change r else r).id ≡ r.id
  id-changed r = elim (Bool-cases (test r)) [ inl h ↦ rw h (same_id r) | inr h ↦ rw h refl ]

  number-changed : (r : ConfigRevision) → (if test r then change r else r).number ≡ r.number
  number-changed r = elim (Bool-cases (test r)) [ inl h ↦ rw h (same_number r) | inr h ↦ rw h refl ]

  pub any_id-update :
      (id : EntityId) (rows : List ConfigRevision)
      → any (has_id id) (update test change rows) ≡ any (has_id id) rows
  any_id-update id [] = refl
  any_id-update id (r ∷ rows) = rw (id-changed r, any_id-update id rows) refl

  any_clash-update :
      (q : ConfigRevision) (rows : List ConfigRevision)
      → any (clashes (if test q then change q else q)) (update test change rows)
        ≡ any (clashes q) rows
  any_clash-update q [] = refl
  any_clash-update q (r ∷ rows) =
      rw (id-changed r, number-changed r, id-changed q, number-changed q, any_clash-update q rows)
        refl

  pub is_unique-update :
      (rows : List ConfigRevision) → is_unique (update test change rows) ≡ is_unique rows
  is_unique-update [] = refl
  is_unique-update (r ∷ rows) = rw (any_clash-update r rows, is_unique-update rows) refl

  pub is_below-update :
      (next : ℕ) (rows : List ConfigRevision)
      → is_below next (update test change rows) ≡ is_below next rows
  is_below-update next [] = refl
  is_below-update next (r ∷ rows) = rw (number-changed r, is_below-update next rows) refl

module _ (test : ConfigRevision → Bool) where
  any-select :
      (p : ConfigRevision → Bool) (rows : List ConfigRevision)
      → any p rows ≡ false
      → any p (select test rows) ≡ false
  any-select p [] h = refl
  any-select p (r ∷ rows) h = ground (arith, any-select p rows)

  pub is_unique-select :
      (rows : List ConfigRevision) → is_unique rows ≡ true → is_unique (select test rows) ≡ true
  is_unique-select [] h = refl
  is_unique-select (r ∷ rows) h = ground (arith, is_unique-select rows, any-select (clashes r) rows)

  pub is_below-select :
      (next : ℕ) (rows : List ConfigRevision)
      → is_below next rows ≡ true
      → is_below next (select test rows) ≡ true
  is_below-select next [] h = refl
  is_below-select next (r ∷ rows) h = ground (arith, is_below-select next rows)

  -- A row that the test holds of stays.
  pub any_id-select :
      (id : EntityId) (rows : List ConfigRevision)
      → ((r : ConfigRevision) → has_id id r ≡ true → test r ≡ true)
      → any (has_id id) rows ≡ true
      → any (has_id id) (select test rows) ≡ true
  any_id-select id [] keep h = h
  any_id-select id (r ∷ rows) keep h = ground (arith, any_id-select id rows keep, keep r)

pub is_below-next :
    (next : ℕ) (rows : List ConfigRevision)
    → is_below next rows ≡ true
    → is_below (next + 1) rows ≡ true
is_below-next next [] h = refl
is_below-next next (r ∷ rows) h = ground (arith, is_below-next next rows)
