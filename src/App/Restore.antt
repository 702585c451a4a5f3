-- ===== src/App/Restore.antt =====
-- `Restore` of core/internal/app/apply_service.go.
pub mod Current
pub mod Views
use dav_deck.Common.{
  ℕ, String, Bool, true, false, not, ◌&&◌, ◌||◌, List, [], ◌∷◌, Option, none, some, Result, ok, err,
  wrap, if◌then◌else◌,
}
use mathlib.Core.Option
use dav_deck.Common.Text.{Text, CaseTables, text_eq, is_empty}
use dav_deck.Common.Exec.{Exec, pure, raise, lift, gets, fail_if, attempt, map_error, ◌>>=◌, ◌>>◌}
use dav_deck.Domain.Id.{EntityId}
use dav_deck.Domain.Timestamp.{Timestamp, new_timestamp}
use dav_deck.Domain.Revision.{
  Bytes, ConfigRevision, Digest, valid, not_applied, applied, failed, is_valid,
}
use dav_deck.Domain.Input.{RuntimeConfigInput}
use dav_deck.Domain.State.{
  Codec, marshal_revision_snapshot, hash_revision_state, parse_revision_snapshot, SnapshotError,
}
use dav_deck.Storage.Database.{Store, StoreError}
use dav_deck.Storage.Database
use dav_deck.Storage.Revisions
use dav_deck.Storage.Restore
use dav_deck.Storage.Snapshots
use dav_deck.App.Errors.{
  Error, ErrorCode, RuntimeFailure, RuntimeErrorCode, runtime_error, database_error, failure,
  runtime_failure, error_code, code_text, literal, safe_runtime_failure,
}
use dav_deck.App.World.{
  World, Collaborators, CompiledConfig, Environment, RuntimeStatus, is_running, on_store,
  on_runtime, ask, database,
}
use dav_deck.App.Calls.{
  validate_with_environment, start_with_environment, runtime_environment, environment_changed,
  current_environment, status,
}
use dav_deck.App.Activation.{activate_healthy, activate_start}
use dav_deck.App.Apply.{stamp_now}
use dav_deck.App.Outcome.{reload_previous, config_of}
use dav_deck.App.Service.{with_lock, get}

module _ {R : Type 0} (c : Collaborators R) where
  unavailable : String → Error
  unavailable message = failure ErrorCode.revision_state_unavailable message

  -- The compiled form of the stored state must be the stored configuration.
  matching : ConfigRevision → Option CompiledConfig → Exec (World R) Error CompiledConfig
  unfolding unavailable
  matching r none = raise (
      unavailable
        "This revision cannot be safely restored because its application state and runtime configuration do not match")
  matching r (some compiled) =
      if not (text_eq compiled.sha256 r.config_hash) || not (text_eq compiled.json r.config_json)
      then raise (
          unavailable
            "This revision cannot be safely restored because its application state and runtime configuration do not match")
      else pure compiled

  -- `hadActive && Status == Running && runtimeEnvironmentChanged(previousEnvironment)`
  must_restart : Bool → Environment → Exec (World R) Error Bool
  must_restart false env = pure false
  must_restart true env = do
    state ← status c
    if is_running state then environment_changed c env else pure false

  restart_previous : Bytes → Environment → Exec (World R) Error (Unit {0})
  restart_previous configuration env = do
    attempt (on_runtime c.stop)
    attempt (start_with_environment c configuration env)
    pure tt

  -- The runtime goes back where the state could not be stored, whatever comes of it.
  undo_activation : Option ConfigRevision → Environment → Exec (World R) Error (Unit {0})
  unfolding must_restart restart_previous
  undo_activation none previous_env = reload_previous c none
  undo_activation (some previous) previous_env = do
    again ← must_restart true previous_env
    if again
        then restart_previous previous.config_json previous_env
        else reload_previous c (some previous)

  finish_restore :
      ConfigRevision
      → Option ConfigRevision
      → Environment
      → Result StoreError (Unit {0})
      → Exec (World R) Error ConfigRevision
  unfolding undo_activation
  finish_restore r previous previous_env (ok _) =
      pure (record r { apply_status = applied; error_code = []; error_summary = [] })
  finish_restore r previous previous_env (err e) = do
    undo_activation previous previous_env
    raise database_error

  module _ ⦃tables : CaseTables⦄ ⦃digest : Digest⦄ ⦃codec : Codec⦄ where
    -- The end of `Restore`: the stored state is replaced by the activated one.
    unfoldable pub store_restored :
        ConfigRevision
        → RuntimeConfigInput
        → Option ConfigRevision
        → Environment
        → Exec (World R) Error ConfigRevision
    unfolding finish_restore
    store_restored r input previous previous_env = do
      stamp ← stamp_now c
      restored ← attempt (on_store (Restore.restore_state input r.id stamp))
      finish_restore r previous previous_env restored

    -- From the environment of the stored state on.
    unfoldable pub restore_compiled :
        ConfigRevision → RuntimeConfigInput → CompiledConfig → Exec (World R) Error ConfigRevision
    unfolding store_restored
    restore_compiled r input compiled = do
      env ← runtime_environment c input
      map_error
          (runtime_failure RuntimeErrorCode.validate_failed
            "Caddy rejected the stored configuration revision")
          (validate_with_environment c compiled.json env)
      previous ← database Revisions.active_revision
      previous_env ← current_environment c
      changed ← environment_changed c env
      map_error
          (runtime_failure RuntimeErrorCode.reload_failed
            "Caddy could not restore the configuration")
          (activate_healthy c compiled.json env changed (config_of previous) previous_env)
      store_restored r input previous previous_env

    -- `Restore`, inside the lock.
    unfoldable pub restore_unlocked : EntityId → Exec (World R) Error ConfigRevision
    unfolding matching restore_compiled
    restore_unlocked id = do
      r ← get id
      fail_if (not (is_valid r.validation_status)) (
          failure ErrorCode.caddy_validate_failed
            "Only a valid configuration revision can be restored")
      fail_if (is_empty r.state_snapshot_json) (
          failure ErrorCode.revision_state_unavailable
            "This revision does not contain a complete application-state snapshot and cannot be safely restored")
      input ← lift (
          wrap
            (λ _.
              failure ErrorCode.revision_state_unavailable
                "This revision contains an invalid application-state snapshot")
            (parse_revision_snapshot r.state_snapshot_json))
      compiled ← matching r (c.compile input)
      restore_compiled r input compiled

    -- `Restore`
    unfoldable pub restore : EntityId → Exec (World R) Error ConfigRevision
    unfolding restore_unlocked
    restore id = with_lock (restore_unlocked id)
