-- ===== src/Storage/Revisions/WellFormed.antt =====
-- The invariant of the revision tables of core/migrations, and what changes of rows do to it.
use dav_deck.Common.{
  ◌≡◌, refl, ◌∙◌, sym, subst, Bool, true, false, not, any, List, [], ◌∷◌, Option, some, none,
  Result, ok, err, arith,
}
use dav_deck.Common.Text.Laws.{text_eq_iff, text_eq_refl}
use dav_deck.Common.Exec.{Exec}
use dav_deck.Common.Exec.Keeps.{KeepsErr}
use dav_deck.Domain.Id.{EntityId}
use dav_deck.Domain.Timestamp.{Timestamp}
use dav_deck.Domain.Revision.{ConfigRevision}
use dav_deck.Storage.Database.{Database, Store, StoreError}
use dav_deck.Storage.Database.Atomic.{database}
use dav_deck.Storage.Database.Symbolic.{From}
use dav_deck.Storage.Revisions.{
  refers_to, has_id, has_valid_id, select, update, with_rows, with_state, set_desired_row,
  set_active_row,
}
use dav_deck.Storage.Revisions.Operations.{Deletes, Inserts}
use dav_deck.Storage.Revisions.Unique.{
  is_unique, is_below, any_id-update, is_unique-update, is_below-update, is_unique-select,
  is_below-select, any_id-select, is_below-next,
}

-- The column is null or holds the id of a row.
abbrev pub refers_into : Option EntityId → List ConfigRevision → Bool
refers_into none rows = true
refers_into (some id) rows = any (has_id id) rows

-- Ids and numbers are distinct, numbers are below the next number, and the active and the desired
-- revision exist.
pub record IsWellFormed (db : Database) : Type 0 where
  pub unique : is_unique db.config_revisions ≡ true
  pub below : is_below db.next_number db.config_revisions ≡ true
  pub desired : refers_into db.runtime_state.desired_revision_id db.config_revisions ≡ true
  pub active : refers_into db.runtime_state.active_revision_id db.config_revisions ≡ true

pub kept :
    {A : Type 0} (m : Exec Store StoreError A)
    → KeepsErr database m
    → ((d : Database) → IsWellFormed d → From d m (λ _. IsWellFormed))
    → (s : Store) (r : Result StoreError A) → (m s).0 ≡ r
    → IsWellFormed s.db
    → IsWellFormed (m s).1.db
kept m ke ka s (ok a) same wf = (ka s.db wf).at_ok s refl a same
kept m ke ka s (err e) same wf = subst IsWellFormed (sym (ke.at_err s e same)) wf

-- Deletion.
stays :
    (o : Option EntityId) (id : EntityId) (rows : List ConfigRevision)
    → refers_to o id ≡ false
    → refers_into o rows ≡ true
    → refers_into o (select (λ r. not (has_id id r)) rows) ≡ true
stays none id rows h k = refl
stays (some other) id rows h k = any_id-select _ other rows (λ r same. other_row r same) k
  where
    other_row : (r : ConfigRevision) → has_id other r ≡ true → not (has_id id r) ≡ true
    other_row r same = rw ((text_eq_iff r.id other).0 same, h) refl

pub IsWellFormed-deleted :
    (id : EntityId) (before after : Database)
    → Deletes id before after
    → IsWellFormed before
    → IsWellFormed after
IsWellFormed-deleted id before after step wf = subst IsWellFormed (sym step.rest) (record {
  unique = is_unique-select (λ r. not (has_id id r)) before.config_revisions wf.unique;
  below =
      is_below-select (λ r. not (has_id id r)) before.next_number before.config_revisions wf.below;
  desired = stays _ id before.config_revisions step.not_desired wf.desired;
  active = stays _ id before.config_revisions step.not_active wf.active;
})

-- Insertion.
refers_into-cons :
    (o : Option EntityId) (r : ConfigRevision) (rows : List ConfigRevision)
    → refers_into o rows ≡ true
    → refers_into o (r ∷ rows) ≡ true
refers_into-cons none r rows h = refl
refers_into-cons (some id) r rows h = ground arith

pub IsWellFormed-inserted :
    (r : ConfigRevision) (before after : Database)
    → Inserts r before after
    → IsWellFormed before
    → IsWellFormed after
IsWellFormed-inserted r before after step wf = subst IsWellFormed (sym step.rest) (record {
  unique = rw (step.fresh, wf.unique) refl;
  below = rw (step.number, is_below-next _ _ wf.below) (ground arith);
  desired = rw (text_eq_refl r.id) refl;
  active = refers_into-cons _ r _ wf.active;
})

-- Updates of rows that keep their keys.
module _ (test : ConfigRevision → Bool) (change : ConfigRevision → ConfigRevision)
    (same_id : (r : ConfigRevision) → (change r).id ≡ r.id)
    (same_number : (r : ConfigRevision) → (change r).number ≡ r.number) where
  refers_into-update :
      (o : Option EntityId) (rows : List ConfigRevision)
      → refers_into o (update test change rows) ≡ refers_into o rows
  refers_into-update none rows = refl
  refers_into-update (some id) rows = any_id-update test change same_id same_number id rows

  pub IsWellFormed-updated :
      (db : Database) → IsWellFormed db → IsWellFormed (with_rows (update test change) db)
  IsWellFormed-updated db wf = record {
    unique = is_unique-update test change same_id same_number db.config_revisions ∙ wf.unique;
    below =
        is_below-update test change same_id same_number db.next_number db.config_revisions
        ∙ wf.below;
    desired =
        refers_into-update db.runtime_state.desired_revision_id db.config_revisions ∙ wf.desired;
    active = refers_into-update db.runtime_state.active_revision_id db.config_revisions ∙ wf.active;
  }

  -- Where the test holds of no row, nothing is updated.
  pub update-none :
      (rows : List ConfigRevision) → any test rows ≡ false → update test change rows ≡ rows
  update-none [] h = refl
  update-none (r ∷ rows) h = ground (arith, update-none rows)

-- A row with this id that is valid is a row with this id.
pub any-has_valid_id :
    (id : EntityId) (rows : List ConfigRevision)
    → any (has_valid_id id) rows ≡ true
    → any (has_id id) rows ≡ true
any-has_valid_id id [] h = h
any-has_valid_id id (r ∷ rows) h = ground (arith, any-has_valid_id id rows)

pub IsWellFormed-desired :
    (id : EntityId) (stamp : Timestamp) (db : Database)
    → any (has_id id) db.config_revisions ≡ true
    → IsWellFormed db
    → IsWellFormed (with_state (set_desired_row id stamp) db)
IsWellFormed-desired id stamp db found wf = record {
  unique = wf.unique;
  below = wf.below;
  desired = found;
  active = wf.active;
}

pub IsWellFormed-active :
    (id : EntityId) (stamp : Timestamp) (db : Database)
    → any (has_id id) db.config_revisions ≡ true
    → IsWellFormed db
    → IsWellFormed (with_state (set_active_row id stamp) db)
IsWellFormed-active id stamp db found wf = record {
  unique = wf.unique;
  below = wf.below;
  desired = found;
  active = found;
}
