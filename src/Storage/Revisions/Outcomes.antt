-- ===== src/Storage/Revisions/Outcomes.antt =====
-- Which result `Delete` has where no statement fails, and what the state says of a current revision.
use dav_deck.Common.{
  ℕ, ◌≡◌, refl, ℕ, true, false, any, [], Option, some, none, ok, err, if◌then◌else◌, arith,
}
use dav_deck.Common.Exec.{pure, gets, modify, fail_if, ◌>>=◌}
use dav_deck.Domain.Id.{EntityId}
use dav_deck.Storage.Database.{
  Database, revision_active, revision_desired, revision_not_found, statement, write, transaction,
}
use dav_deck.Storage.Revisions.{
  refers_to, has_id, delete_row, delete, joined_number, same_revision, state_of,
}
use dav_deck.Storage.Revisions.Applied.{IsCurrent}

-- Where no statement fails, `Delete` refuses the active revision, then the desired one, then an id
-- without a row, and succeeds for every other revision.
pub delete_without_faults :
    (id : EntityId) (db : Database)
    → (delete id (record { db = db; faults = [] })).0 ≡ (
        if refers_to db.runtime_state.active_revision_id id
        then err revision_active
        else if refers_to db.runtime_state.desired_revision_id id
        then err revision_desired
        else if any (has_id id) db.config_revisions
        then ok tt
        else err revision_not_found)
unfolding delete delete_row transaction statement write modify gets fail_if pure ◌>>=◌
delete_without_faults id db = ground arith

same_number : (n : Option ℕ) → same_revision n n ≡ true
unfolding same_revision
same_number none = refl
same_number (some n) = ground arith

-- A current revision leaves nothing pending.
pub IsCurrent-pending :
    (id : EntityId) (db : Database) → IsCurrent id db → (state_of db).pending ≡ false
unfolding state_of
IsCurrent-pending id db current =
    rw
      (
        current.clean,
        current.desired,
        current.active,
        same_number (joined_number (some id) db.config_revisions),
      )
      refl
