-- ===== src/App/Apply.antt =====
-- core/internal/app/apply_service.go: `ApplyService`.
pub mod Current
pub mod Views
use dav_deck.Common.{
  ℕ, String, Bool, true, false, not, ◌&&◌, ◌||◌, List, [], ◌∷◌, Option, none, some, Result, ok, err,
  wrap, if◌then◌else◌,
}
use mathlib.Core.Option
use dav_deck.Common.Text.{Text, CaseTables, text_eq, is_empty}
use dav_deck.Common.Exec.{Exec, pure, raise, lift, gets, fail_if, attempt, map_error, ◌>>=◌, ◌>>◌}
use dav_deck.Domain.Id.{EntityId}
use dav_deck.Domain.Timestamp.{Timestamp, new_timestamp}
use dav_deck.Domain.Revision.{
  Bytes, ConfigRevision, Digest, valid, not_applied, applied, failed, is_valid,
}
use dav_deck.Domain.Input.{RuntimeConfigInput}
use dav_deck.Domain.State.{
  Codec, marshal_revision_snapshot, hash_revision_state, parse_revision_snapshot, SnapshotError,
}
use dav_deck.Storage.Database.{Store, StoreError}
use dav_deck.Storage.Database
use dav_deck.Storage.Revisions
use dav_deck.Storage.Restore
use dav_deck.Storage.Snapshots
use dav_deck.App.Errors.{
  Error, ErrorCode, RuntimeFailure, RuntimeErrorCode, runtime_error, database_error, failure,
  runtime_failure, error_code, code_text, literal, safe_runtime_failure,
}
use dav_deck.App.World.{
  World, Collaborators, CompiledConfig, Environment, RuntimeStatus, is_running, on_store,
  on_runtime, ask, database,
}
use dav_deck.App.Calls.{
  validate_with_environment, start_with_environment, runtime_environment, environment_changed,
  current_environment, status,
}
use dav_deck.App.Activation.{activate_healthy, activate_start}
use dav_deck.App.Outcome.{bring_up}

-- `ValidationResult`
pub record ValidationResult : Type 0 where
  pub is_valid : Bool
  pub config_hash : Text
  pub warnings : List Text

module _ {R : Type 0} (c : Collaborators R) where
  unfoldable pub compiled_or : Error → Option CompiledConfig → Exec (World R) Error CompiledConfig
  compiled_or e none = raise e
  compiled_or e (some compiled) = pure compiled

  -- The first steps of `Validate` and `apply`: snapshot, compile, environment, validation.
  unfoldable pub prepare :
      ⦃tables : CaseTables⦄
      → Exec (World R) Error (RuntimeConfigInput × CompiledConfig × Environment)
  unfolding compiled_or
  prepare = do
    input ← database Snapshots.snapshot
    compiled ←
        compiled_or (failure ErrorCode.caddy_validate_failed "Desired state could not be compiled")
          (c.compile input)
    env ← runtime_environment c input
    map_error
        (runtime_failure RuntimeErrorCode.validate_failed
          "Caddy rejected the generated configuration")
        (validate_with_environment c compiled.json env)
    pure (input, compiled, env)

  -- `Validate`
  unfoldable pub validate : ⦃tables : CaseTables⦄ → Exec (World R) Error ValidationResult
  unfolding prepare
  validate = do
    (input, compiled, env) ← prepare
    pure (record { is_valid = true; config_hash = compiled.sha256; warnings = compiled.warnings })

  -- `domain.NewTimestamp(s.clock.Now())`
  unfoldable pub stamp_now : Exec (World R) Error Timestamp
  stamp_now = do now ← ask c.now; lift (wrap (λ _. database_error) (new_timestamp now))

  -- The runtime is left alone where it already runs this configuration.
  unfoldable pub already_running : Option ConfigRevision → Text → Bool → Exec (World R) Error Bool
  already_running none hash changed = pure false
  already_running (some previous) hash changed =
      if text_eq previous.config_hash hash
      then (do state ← status c; pure (is_running state && not changed))
      else pure false

  module _ ⦃tables : CaseTables⦄ ⦃digest : Digest⦄ ⦃codec : Codec⦄ (app_version : Text) where
    -- `newRevision`, with the status that `apply` sets at once; the number is given by the store.
    unfoldable pub new_revision :
        CompiledConfig → Bytes → Text → Exec (World R) Error ConfigRevision
    new_revision compiled state_snapshot state_hash = do
      id ← map_error (λ _. database_error) (on_runtime c.new_id)
      stamp ← stamp_now
      pure (record {
        id = id;
        number = 0;
        created_at = stamp;
        config_json = compiled.json;
        state_snapshot_json = state_snapshot;
        config_hash = compiled.sha256;
        state_hash = state_hash;
        validation_status = valid;
        apply_status = not_applied;
        app_version = app_version;
        error_code = [];
        error_summary = [];
      })

    -- The revision to apply, and whether it is a new one (`created`).
    unfoldable pub found_or_new :
        CompiledConfig
        → Bytes
        → Text
        → Option ConfigRevision
        → Exec (World R) Error (Bool × ConfigRevision)
    unfolding new_revision
    found_or_new compiled state_snapshot state_hash (some r) = pure (false, r)
    found_or_new compiled state_snapshot state_hash none = do
      r ← new_revision compiled state_snapshot state_hash
      pure (true, r)

    -- `Create` for a new revision, `SetDesired` for an old one.
    unfoldable pub save_desired :
        Bool → ConfigRevision → Timestamp → Exec (World R) Error ConfigRevision
    save_desired true r stamp = database (Revisions.create r)
    save_desired false r stamp = do database (Revisions.set_desired r.id stamp); pure r

    -- The second half of `apply`, from the query for the active revision on.
    unfoldable pub apply_candidate :
        Bool → ConfigRevision → CompiledConfig → Environment → Exec (World R) Error ConfigRevision
    unfolding save_desired already_running bring_up
    apply_candidate created candidate compiled env = do
      previous ← database Revisions.active_revision
      stamp ← stamp_now
      r ← save_desired created candidate stamp
      changed ← environment_changed c env
      running ← already_running previous compiled.sha256 changed
      bring_up c created r previous stamp compiled env changed running

    -- `apply`
    unfoldable pub apply : Exec (World R) Error ConfigRevision
    unfolding prepare found_or_new apply_candidate
    apply = do
      (input, compiled, env) ← prepare
      state_snapshot ← lift (
          wrap (λ _. failure ErrorCode.database "Desired state could not be snapshotted")
            (marshal_revision_snapshot input))
      state_hash ← lift (
          wrap (λ _. failure ErrorCode.database "Desired state could not be fingerprinted")
            (hash_revision_state input))
      found ← database (Revisions.find_by_identity compiled.sha256 state_hash)
      (created, candidate) ← found_or_new compiled state_snapshot state_hash found
      apply_candidate created candidate compiled env
