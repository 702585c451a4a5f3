-- ===== src/App/Service.antt =====
-- core/internal/app/apply_service.go: the operations that take the lock, but for `Restore`, and the
-- queries. The `select` on the channel of one place is a flag: a second caller is refused.
pub mod Lock
use dav_deck.Common.{
  ℕ, String, Bool, true, false, not, ◌&&◌, ◌||◌, List, [], ◌∷◌, Option, none, some, Result, ok, err,
  wrap, if◌then◌else◌,
}
use mathlib.Core.Option
use dav_deck.Common.Text.{Text, CaseTables, text_eq, is_empty}
use dav_deck.Common.Exec.{Exec, pure, raise, lift, gets, fail_if, attempt, map_error, ◌>>=◌, ◌>>◌}
use dav_deck.Domain.Id.{EntityId}
use dav_deck.Domain.Timestamp.{Timestamp, new_timestamp}
use dav_deck.Domain.Revision.{
  Bytes, ConfigRevision, Digest, valid, not_applied, applied, failed, is_valid,
}
use dav_deck.Domain.Input.{RuntimeConfigInput}
use dav_deck.Domain.State.{
  Codec, marshal_revision_snapshot, hash_revision_state, parse_revision_snapshot, SnapshotError,
}
use dav_deck.Storage.Database.{Store, StoreError}
use dav_deck.Storage.Database
use dav_deck.Storage.Revisions
use dav_deck.Storage.Revisions.{RevisionState}
use dav_deck.Storage.Restore
use dav_deck.Storage.Snapshots
use dav_deck.App.Errors.{
  Error, ErrorCode, RuntimeFailure, RuntimeErrorCode, runtime_error, database_error, failure,
  runtime_failure, error_code, code_text, literal, safe_runtime_failure,
}
use dav_deck.App.World.{
  World, Collaborators, CompiledConfig, Environment, RuntimeStatus, is_running, on_store,
  on_runtime, ask, database,
}
use dav_deck.App.Calls.{
  validate_with_environment, start_with_environment, runtime_environment, environment_changed,
  current_environment, status,
}
use dav_deck.App.Activation.{activate_healthy, activate_start}
use dav_deck.App.Apply.{stamp_now, apply}

abbrev get_error : StoreError → Error
get_error Database.revision_not_found =
    failure ErrorCode.revision_not_found "Revision was not found"
get_error _ = database_error

abbrev delete_error : StoreError → Error
delete_error Database.revision_not_found =
    failure ErrorCode.revision_not_found "Revision was not found"
delete_error Database.revision_active =
    failure ErrorCode.revision_active "The active configuration revision cannot be deleted"
delete_error Database.revision_desired =
    failure ErrorCode.revision_desired "The desired configuration revision cannot be deleted"
delete_error _ = database_error

module _ {R : Type 0} where
  unlocked : {A : Type 0} → Result Error A × World R → Result Error A × World R
  unlocked (r, w) = (r, record w { locked = false })

  -- `select { case s.lock <- …: defer …; default: return … }`
  unfoldable pub with_lock : {A : Type 0} → Exec (World R) Error A → Exec (World R) Error A
  unfolding unlocked
  with_lock m w =
      if w.locked
      then (
        err (failure ErrorCode.apply_in_progress "Another configuration apply is in progress"),
        w,
      )
      else unlocked (m (record w { locked = true }))

  -- `Delete`
  unfoldable pub delete_revision : EntityId → Exec (World R) Error (Unit {0})
  delete_revision id = with_lock (map_error delete_error (on_store (Revisions.delete id)))

  module _ ⦃tables : CaseTables⦄ ⦃digest : Digest⦄ where
    -- `Get`, `List`, `State`
    unfoldable pub get : EntityId → Exec (World R) Error ConfigRevision
    get id = map_error get_error (on_store (Revisions.get_revision id))

    unfoldable pub list : Exec (World R) Error (List ConfigRevision)
    list = database Revisions.list_revisions

  unfoldable pub revision_state : Exec (World R) Error RevisionState
  revision_state = database Revisions.state

module _ {R : Type 0} (c : Collaborators R) where
  stop_runtime : Exec (World R) Error (Unit {0})
  stop_runtime =
      map_error (runtime_failure RuntimeErrorCode.stop_failed "Caddy could not stop")
        (on_runtime c.stop)

  -- `Stop`
  unfoldable pub stop : Exec (World R) Error (Unit {0})
  unfolding stop_runtime
  stop = with_lock stop_runtime

  module _ ⦃tables : CaseTables⦄ ⦃digest : Digest⦄ ⦃codec : Codec⦄ (app_version : Text) where
    -- `Apply`
    unfoldable pub apply_locked : Exec (World R) Error ConfigRevision
    apply_locked = with_lock (apply c app_version)

    apply_first : Exec (World R) Error (Unit {0})
    apply_first = do apply c app_version; pure tt

    -- `Start` and `Restart` with a decoded snapshot; only `Restart` stops the runtime first.
    run_snapshot :
        Bool
        → ConfigRevision
        → Result SnapshotError RuntimeConfigInput
        → Exec (World R) Error (Unit {0})
    run_snapshot stop_first active (err e) = apply_first
    run_snapshot false active (ok input) = do
      env ← runtime_environment c input
      activate_start c active.config_json env
    run_snapshot true active (ok input) = do
      env ← runtime_environment c input
      stop_runtime
      activate_start c active.config_json env

    run_active : Bool → Option ConfigRevision → Exec (World R) Error (Unit {0})
    unfolding apply_first run_snapshot stop_runtime
    run_active stop_first none = apply_first
    run_active stop_first (some active) =
        if is_empty active.state_snapshot_json
        then apply_first
        else run_snapshot stop_first active (parse_revision_snapshot active.state_snapshot_json)

    -- `Start`
    unfoldable pub start : Exec (World R) Error (Unit {0})
    unfolding run_active
    start = with_lock (do active ← database Revisions.active_revision; run_active false active)

    -- `Restart`
    unfoldable pub restart : Exec (World R) Error (Unit {0})
    unfolding run_active
    restart = with_lock (do active ← database Revisions.active_revision; run_active true active)
