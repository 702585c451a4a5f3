-- ===== src/Storage/Revisions/Preserved.antt =====
-- The writing operations of core/internal/storage/revision_repository.go and the invariant of the
-- revision tables.
use dav_deck.Common.{◌≡◌, refl, ◌∙◌, ap, true, false, not, any, ok, if◌then◌else◌}
use dav_deck.Common.Text.{Text, CaseTables}
use dav_deck.Common.Exec.Keeps.{KeepsErr, KeepsErr-bind}
use dav_deck.Domain.Id.{EntityId}
use dav_deck.Domain.Timestamp.{Timestamp}
use dav_deck.Domain.Revision.{ConfigRevision, Digest}
use dav_deck.Domain.State.{Codec}
use dav_deck.Storage.Database.{Database, Store}
use dav_deck.Storage.Database.After.{After-imp, After-transaction}
use dav_deck.Storage.Database.Atomic.{database, KeepsErr-transaction}
use dav_deck.Storage.Database.Guarded.{KeepsErr-checked}
use dav_deck.Storage.Database.Symbolic.{
  From, From-gets, From-write, From-end_fail_if, From-fail_if, From-end_write,
}
use dav_deck.Storage.Revisions.{
  has_id, has_valid_id, set_applied, set_failed, update, with_rows, with_state, set_desired_row,
  set_desired, activate_rows, mark_applied, mark_failed, delete, create,
}
use dav_deck.Storage.Revisions.Reads.{Keeps-stored_state_hash}
use dav_deck.Storage.Revisions.Operations.{Deletes, Inserts, From-delete, From-create, not-false}
use dav_deck.Storage.Revisions.Unique.{any_id-update}
use dav_deck.Storage.Revisions.Writes.{KeepsErr-mark_applied}
use dav_deck.Storage.Revisions.WellFormed.{
  IsWellFormed, kept, IsWellFormed-deleted, IsWellFormed-inserted, IsWellFormed-updated,
  update-none, any-has_valid_id, IsWellFormed-desired, IsWellFormed-active,
}

From-set_desired :
    (d : Database) (id : EntityId) (stamp : Timestamp)
    → IsWellFormed d
    → From d (set_desired id stamp) (λ _. IsWellFormed)
unfolding set_desired
From-set_desired d id stamp wf =
    From-gets _ _ _ _
      (From-write _ _ _ _ λ _. From-end_fail_if _ _ _ _ λ found _. chosen (not-false _ found))
  where
    chosen :
        any (has_id id) d.config_revisions ≡ true
        → IsWellFormed (
            if any (has_id id) d.config_revisions
            then with_state (set_desired_row id stamp) d
            else d)
    chosen found = rw found (IsWellFormed-desired id stamp d found wf)

KeepsErr-set_desired :
    (id : EntityId) (stamp : Timestamp) → KeepsErr database (set_desired id stamp)
unfolding set_desired
KeepsErr-set_desired id stamp =
    KeepsErr-checked (λ db. any (has_id id) db.config_revisions)
      (λ exists db. if exists then with_state (set_desired_row id stamp) db else db) _
      (λ db missing. rw missing refl)

From-mark_failed :
    (d : Database) (id : EntityId) (code summary : Text)
    → IsWellFormed d
    → From d (mark_failed id code summary) (λ _. IsWellFormed)
unfolding mark_failed
From-mark_failed d id code summary wf = From-gets _ _ _ _ (
    From-write _ _ _ _ λ _. From-end_fail_if _ _ _ _ λ found _.
      IsWellFormed-updated (has_valid_id id) (set_failed code summary) (λ r. refl) (λ r. refl) d wf)

KeepsErr-mark_failed :
    (id : EntityId) (code summary : Text) → KeepsErr database (mark_failed id code summary)
unfolding mark_failed
KeepsErr-mark_failed id code summary =
    KeepsErr-checked (λ db. any (has_valid_id id) db.config_revisions)
      (λ exists. with_rows (update (has_valid_id id) (set_failed code summary))) _
      (λ db missing.
        ap (λ rows. with_rows (λ _. rows) db)
          (update-none (has_valid_id id) (set_failed code summary) (λ r. refl) (λ r. refl)
            db.config_revisions missing))

From-activate_rows :
    (d : Database) (id : EntityId) (stamp : Timestamp)
    → IsWellFormed d
    → From d (activate_rows id stamp) (λ _. IsWellFormed)
unfolding activate_rows
From-activate_rows d id stamp wf = From-gets _ _ _ _ (
    From-write _ _ _ _ λ _. From-fail_if _ _ _ _ _ λ found _. From-end_write _ _ _ λ _.
      IsWellFormed-active id stamp _ (still found)
        (IsWellFormed-updated (has_valid_id id) set_applied (λ r. refl) (λ r. refl) d wf))
  where
    still :
        not (any (has_valid_id id) d.config_revisions) ≡ false
        → any (has_id id) (update (has_valid_id id) set_applied d.config_revisions) ≡ true
    still found =
        any_id-update (has_valid_id id) set_applied (λ r. refl) (λ r. refl) id d.config_revisions
        ∙ any-has_valid_id id d.config_revisions (not-false _ found)

From-mark_applied :
    (d : Database) (id : EntityId) (stamp : Timestamp)
    → IsWellFormed d
    → From d (mark_applied id stamp) (λ _. IsWellFormed)
unfolding mark_applied
From-mark_applied d id stamp wf = After-transaction _ _ _ (From-activate_rows d id stamp wf)

-- A `Delete` that fails changes nothing.
pub KeepsErr-delete : (id : EntityId) → KeepsErr database (delete id)
unfolding delete
KeepsErr-delete id = KeepsErr-transaction _

module _ ⦃tables : CaseTables⦄ ⦃digest : Digest⦄ ⦃codec : Codec⦄ where
  KeepsErr-create : (r : ConfigRevision) → KeepsErr database (create r)
  unfolding create
  KeepsErr-create r =
      KeepsErr-bind _ _ (Keeps-stored_state_hash r) λ state_hash. KeepsErr-transaction _

  -- `Create`, `SetDesired`, `MarkApplied`, `MarkFailed` and `Delete` each keep the invariant, whether
  -- they succeed or fail at any statement: ids and numbers of revisions are distinct, numbers are
  -- below the next number, and the desired and the active revision exist.
  pub operations_keep_invariant :
      (r : ConfigRevision) (id : EntityId) (stamp : Timestamp) (code summary : Text) (s : Store)
      → IsWellFormed s.db
      → IsWellFormed (create r s).1.db
        × IsWellFormed (set_desired id stamp s).1.db
        × IsWellFormed (mark_applied id stamp s).1.db
        × IsWellFormed (mark_failed id code summary s).1.db
        × IsWellFormed (delete id s).1.db
  operations_keep_invariant r id stamp code summary s wf = (
    kept _ (KeepsErr-create r)
        (λ d wf'.
          After-imp _ _ _ (From-create d r) λ q db step. IsWellFormed-inserted q d db step wf')
        s _ refl wf,
    kept _ (KeepsErr-set_desired id stamp) (λ d. From-set_desired d id stamp) s _ refl wf,
    kept _ (KeepsErr-mark_applied id stamp) (λ d. From-mark_applied d id stamp) s _ refl wf,
    kept _ (KeepsErr-mark_failed id code summary) (λ d. From-mark_failed d id code summary) s _ refl
        wf,
    kept _ (KeepsErr-delete id)
        (λ d wf'.
          After-imp _ _ _ (From-delete d id) λ _ db step. IsWellFormed-deleted id d db step wf')
        s _ refl wf,
  )

  -- Where `Create` succeeds, the revision it returns has the next number, clashes with no row in its
  -- id or number, and is the new first row and the desired revision; nothing else has changed but
  -- the next number, the dirty mark, which is cleared, and the time of the runtime state.
  pub create-Inserts :
      (r : ConfigRevision) (s : Store) (stored : ConfigRevision)
      → (create r s).0 ≡ ok stored
      → Inserts stored s.db (create r s).1.db
  create-Inserts r s stored h = (From-create s.db r).at_ok s refl stored h

-- Where `Delete` succeeds, the revision was neither the active nor the desired one, there was a row
-- of it, and the database has lost exactly the rows with that id.
pub delete_removes :
    (id : EntityId) (s : Store) → (delete id s).0 ≡ ok tt → Deletes id s.db (delete id s).1.db
delete_removes id s h = (From-delete s.db id).at_ok s refl tt h
