-- ===== src/App/Outcome.antt =====
-- How `apply` of core/internal/app/apply_service.go ends: the activation of the saved revision, what
-- is stored of it, and what is undone.
pub mod Current
pub mod Views
use dav_deck.Common.{
  ℕ, String, Bool, true, false, not, ◌&&◌, ◌||◌, List, [], ◌∷◌, Option, none, some, Result, ok, err,
  wrap, if◌then◌else◌,
}
use mathlib.Core.Option
use dav_deck.Common.Text.{Text, CaseTables, text_eq, is_empty}
use dav_deck.Common.Exec.{Exec, pure, raise, lift, gets, fail_if, attempt, map_error, ◌>>=◌, ◌>>◌}
use dav_deck.Domain.Id.{EntityId}
use dav_deck.Domain.Timestamp.{Timestamp, new_timestamp}
use dav_deck.Domain.Revision.{
  Bytes, ConfigRevision, Digest, valid, not_applied, applied, failed, is_valid,
}
use dav_deck.Domain.Input.{RuntimeConfigInput}
use dav_deck.Domain.State.{
  Codec, marshal_revision_snapshot, hash_revision_state, parse_revision_snapshot, SnapshotError,
}
use dav_deck.Storage.Database.{Store, StoreError}
use dav_deck.Storage.Database
use dav_deck.Storage.Revisions
use dav_deck.Storage.Restore
use dav_deck.Storage.Snapshots
use dav_deck.App.Errors.{
  Error, ErrorCode, RuntimeFailure, RuntimeErrorCode, runtime_error, database_error, failure,
  runtime_failure, error_code, code_text, literal, safe_runtime_failure,
}
use dav_deck.App.World.{
  World, Collaborators, CompiledConfig, Environment, RuntimeStatus, is_running, on_store,
  on_runtime, ask, database,
}
use dav_deck.App.Calls.{
  validate_with_environment, start_with_environment, runtime_environment, environment_changed,
  current_environment, status,
}
use dav_deck.App.Activation.{activate_healthy, activate_start}

abbrev pub config_of : Option ConfigRevision → Bytes
config_of none = []
config_of (some r) = r.config_json

module _ {R : Type 0} (c : Collaborators R) where
  -- `if created { _ = s.revisions.MarkFailed(…) }`, where saving the activation has failed.
  unfoldable pub note_unsaved : Bool → EntityId → Exec (World R) Error (Unit {0})
  note_unsaved false id = pure tt
  note_unsaved true id = do
    attempt (
        on_store {E = StoreError} (
          Revisions.mark_failed id (literal "DATABASE_ERROR")
            (literal "Runtime activation metadata could not be saved")))
    pure tt

  -- The end of `apply` where the runtime already runs the configuration.
  unfoldable pub finish_unchanged :
      Bool → ConfigRevision → Result StoreError (Unit {0}) → Exec (World R) Error ConfigRevision
  unfolding note_unsaved
  finish_unchanged created r (ok _) = pure (record r { apply_status = applied })
  finish_unchanged created r (err e) = do note_unsaved created r.id; raise database_error

  -- The runtime goes back to the configuration before, whatever comes of it.
  unfoldable pub reload_previous : Option ConfigRevision → Exec (World R) Error (Unit {0})
  reload_previous none = do attempt (on_runtime c.stop); pure tt
  reload_previous (some previous) = do attempt (on_runtime (c.reload previous.config_json)); pure tt

  -- The end of `apply` after an activation.
  unfoldable pub finish_activated :
      Bool
      → ConfigRevision
      → Option ConfigRevision
      → Result StoreError (Unit {0})
      → Exec (World R) Error ConfigRevision
  unfolding note_unsaved reload_previous
  finish_activated created r previous (ok _) = pure (record r { apply_status = applied })
  finish_activated created r previous (err e) = do
    reload_previous previous
    note_unsaved created r.id
    raise database_error

  -- A new revision that could not be activated is marked; if that fails, the database's error is
  -- returned in place of the runtime's.
  unfoldable pub activation_failed :
      Bool → ConfigRevision → RuntimeFailure → Exec (World R) Error ConfigRevision
  activation_failed created r e =
      let (code, summary) =
        safe_runtime_failure e RuntimeErrorCode.reload_failed
          (literal "Caddy could not apply the configuration") in
      if created
      then (do
        database (Revisions.mark_failed r.id (code_text code) summary)
        raise (record { code = error_code code; message = summary }))
      else raise (record { code = error_code code; message = summary })

  unfoldable pub finish_activation :
      Bool
      → ConfigRevision
      → Option ConfigRevision
      → Timestamp
      → Result RuntimeFailure (Unit {0})
      → Exec (World R) Error ConfigRevision
  unfolding activation_failed finish_activated
  finish_activation created r previous stamp (err e) = activation_failed created r e
  finish_activation created r previous stamp (ok _) = do
    marked ← attempt (on_store (Revisions.mark_applied r.id stamp))
    finish_activated created r previous marked

  unfoldable pub bring_up :
      Bool
      → ConfigRevision
      → Option ConfigRevision
      → Timestamp
      → CompiledConfig
      → Environment
      → Bool
      → Bool
      → Exec (World R) Error ConfigRevision
  unfolding finish_unchanged finish_activation
  bring_up created r previous stamp compiled env changed true = do
    marked ← attempt (on_store (Revisions.mark_applied r.id stamp))
    finish_unchanged created r marked
  bring_up created r previous stamp compiled env changed false = do
    previous_env ← current_environment c
    activated ←
        attempt (activate_healthy c compiled.json env changed (config_of previous) previous_env)
    finish_activation created r previous stamp activated
