-- ===== src/App/Safety.antt =====
-- The operations of `ApplyService` in core/internal/app/apply_service.go and the database.
use dav_deck.Common.{◌≡◌, false, Option, ok, err}
use dav_deck.Common.Text.{Text, CaseTables}
use dav_deck.Domain.Id.{EntityId}
use dav_deck.Domain.Revision.{ConfigRevision, Digest}
use dav_deck.Domain.State.{Codec}
use dav_deck.Storage.Database.{Database, Tables}
use dav_deck.Storage.Database.Atomic.{KeepsErr-view}
use dav_deck.Storage.Revisions.{state_of}
use dav_deck.Storage.Revisions.Outcomes.{IsCurrent-pending}
use dav_deck.Storage.Revisions.Writes.{
  Keeps-set_desired_active, Keeps-set_desired_tables, Keeps-mark_failed_active,
  Keeps-mark_failed_tables, Keeps-mark_applied_tables, KeepsErr-mark_applied, Keeps-create_active,
  Keeps-create_tables,
}
use dav_deck.App.Errors.{Error}
use dav_deck.App.World.{World, Collaborators}
use dav_deck.App.Apply.{validate}
use dav_deck.App.Apply.Views.{Keeps-validate, KeepsErr-apply, Keeps-apply}
use dav_deck.App.Apply.Current.{Ensures-apply}
use dav_deck.App.Outcome.Current.{IsApplied}
use dav_deck.App.Restore.{restore}
use dav_deck.App.Restore.Views.{KeepsErr-restore_unlocked, whole}
use dav_deck.App.Restore.Current.{Ensures-restore_unlocked}
use dav_deck.App.Service.{apply_locked}
use dav_deck.App.Service.Lock.{Keeps-with_lock, KeepsErr-with_lock, Ensures-with_lock}

abbrev tables_of : Database → Tables
tables_of db = db.tables

abbrev active_of : Database → Option EntityId
active_of db = db.runtime_state.active_revision_id

unlock :
    {R : Type 0} (r : ConfigRevision) (w : World R)
    → IsApplied r w
    → IsApplied r (record w { locked = false })
unlock r w p = record { current = p.current; status = p.status }

module _ {R : Type 0} (c : Collaborators R) ⦃tables : CaseTables⦄ ⦃digest : Digest⦄
    ⦃codec : Codec⦄ where
  -- A `Restore` that fails, at whatever step, leaves every table of the database as it was.
  pub restore_atomic :
      (id : EntityId) (w : World R) (e : Error)
      → (restore c id w).0 ≡ err e
      → (restore c id w).1.store.db ≡ w.store.db
  unfolding restore
  restore_atomic id w e h = (KeepsErr-with_lock _ _ (KeepsErr-restore_unlocked c id)).at_err w e h

  -- Where `Restore` succeeds, the revision that it returns is stored in the database as a valid and
  -- applied one without an error, it is both the active and the desired revision, and the dirty mark
  -- is cleared; what is returned says that it is applied, and `State` that nothing is pending.
  pub restore_current :
      (id : EntityId) (w : World R) (r : ConfigRevision)
      → (restore c id w).0 ≡ ok r
      → IsApplied r (restore c id w).1 × ((state_of (restore c id w).1.store.db).pending ≡ false)
  unfolding restore
  restore_current id w r h =
      let done =
        (Ensures-with_lock IsApplied unlock _ (Ensures-restore_unlocked c id)).at_ok w r h in
      (done, IsCurrent-pending r.id _ done.current)

  -- `Validate` leaves the whole database as it is, whether it succeeds or fails.
  pub validate_keeps_database : (w : World R) → (validate c w).1.store.db ≡ w.store.db
  validate_keeps_database w = (Keeps-validate whole c).at w

  module _ (app_version : Text) where
    -- An `Apply` that fails, at whatever step, leaves the active revision of the database as it was.
    pub apply_keeps_active :
        (w : World R) (e : Error)
        → (apply_locked c app_version w).0 ≡ err e
        → (apply_locked c app_version w).1.store.db.runtime_state.active_revision_id
          ≡ w.store.db.runtime_state.active_revision_id
    unfolding apply_locked
    apply_keeps_active w e h =
        (KeepsErr-with_lock _ _ (
            KeepsErr-apply active_of c app_version Keeps-mark_failed_active Keeps-create_active
              Keeps-set_desired_active
              (λ id stamp. KeepsErr-view active_of (KeepsErr-mark_applied id stamp)))).at_err
          w e h

    -- Where `Apply` succeeds, the revision that it returns is stored in the database as a valid and
    -- applied one without an error, it is both the active and the desired revision, and the dirty mark
    -- is cleared; what is returned says that it is applied, and `State` that nothing is pending.
    pub apply_current :
        (w : World R) (r : ConfigRevision)
        → (apply_locked c app_version w).0 ≡ ok r
        → IsApplied r (apply_locked c app_version w).1
          × ((state_of (apply_locked c app_version w).1.store.db).pending ≡ false)
    unfolding apply_locked
    apply_current w r h =
        let done =
          (Ensures-with_lock IsApplied unlock _ (Ensures-apply c app_version)).at_ok w r h in
        (done, IsCurrent-pending r.id _ done.current)

    -- `Apply` never changes the tables of the desired state, whether it succeeds or fails.
    pub apply_keeps_tables :
        (w : World R) → (apply_locked c app_version w).1.store.db.tables ≡ w.store.db.tables
    unfolding apply_locked
    apply_keeps_tables w =
        (Keeps-with_lock _ _ (
            Keeps-apply tables_of c app_version Keeps-mark_failed_tables Keeps-create_tables
              Keeps-set_desired_tables Keeps-mark_applied_tables)).at
          w
