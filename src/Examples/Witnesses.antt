-- ===== src/Examples/Witnesses.antt =====
-- The theorems at concrete inputs where their hypotheses hold.
use dav_deck.Common.{◌≡◌, refl, false, Option, none, all, Result, ok, err}
use dav_deck.Common.Exec.{pure, raise, lift, gets, modify, fail_if, attempt, map_error, ◌>>=◌}
use dav_deck.Common.Text.{text_eq, codes}
use dav_deck.Domain.Id.{validate_id}
use dav_deck.App.Apply.{apply}
use dav_deck.Domain.Revision.{applied}
use dav_deck.Storage.Database.{statement, write, transaction}
use dav_deck.Storage.Revisions.{
  get_revision, active_revision, find_by_identity, set_desired, mark_applied, query_row,
  scan_revision,
}
use dav_deck.Storage.Restore.{restore_state, restore_rows}
use dav_deck.App.World.{on_store, on_runtime, ask, database}
use dav_deck.App.Restore.{restore, restore_unlocked}
use dav_deck.App.Service.{with_lock, get, apply_locked, delete_revision, start, restart, stop}
use dav_deck.App.Apply.{validate}
use dav_deck.Storage.Revisions.{create, mark_failed, delete}
use dav_deck.Storage.Revisions.{state_of, refers_to, has_id}
use dav_deck.Storage.Revisions.Outcomes.{delete_without_faults}
use dav_deck.Storage.Database.{revision_active, revision_desired, revision_not_found}
use dav_deck.Common.{any, if◌then◌else◌}
use dav_deck.Storage.Restore.{restore_state}
use dav_deck.Storage.Restore.Contents.{Holds}
use dav_deck.Storage.Restore.Replaced.{restore_replaces_tables}
use dav_deck.Storage.Revisions.WellFormed.{IsWellFormed}
use dav_deck.Storage.Revisions.Operations.{Inserts, Deletes}
use dav_deck.Storage.Revisions.Preserved.{operations_keep_invariant, create-Inserts, delete_removes}
use dav_deck.Domain.Input.Consistent.{IsConsistent, validate_input-IsConsistent}
use dav_deck.Domain.Share.{matches_share_slug}
use dav_deck.Domain.Share.Slugs.{is_slug_part, matches_share_slug_parts}
use dav_deck.Common.Text.{split}
use dav_deck.Domain.State.{state_identity}
use dav_deck.Domain.State.Identity.{redated, identity_ignores_times}
use dav_deck.App.Errors.{failure, ErrorCode}
use dav_deck.App.Safety.{
  restore_atomic, restore_current, apply_current, apply_keeps_active, apply_keeps_tables,
  validate_keeps_database,
}
use dav_deck.App.Outcome.Current.{IsApplied}
use dav_deck.Examples.Setup.{
  ascii_tables, constant_digest, constant_codec, sample_world, sample_store, sample_database,
  two_revisions, second_revision, sample_input, snapshot_with_none, day, unwilling, sample_revision,
  willing, first_id, second_id,
}

restore_atomic_example :
    (restore willing ⦃tables = ascii_tables⦄ ⦃digest = constant_digest⦄ ⦃codec = constant_codec⦄
      second_id sample_world).1.store.db
    ≡ sample_world.store.db
unfolding restore restore_unlocked with_lock get get_revision query_row on_store map_error raise
    gets pure statement ◌>>=◌ text_eq
restore_atomic_example =
    restore_atomic willing ⦃tables = ascii_tables⦄ ⦃digest = constant_digest⦄
      ⦃codec = constant_codec⦄ second_id sample_world
      (failure ErrorCode.revision_not_found "Revision was not found") refl

restore_current_example :
    IsApplied
      (record sample_revision { apply_status = applied })
      (restore willing ⦃tables = ascii_tables⦄ ⦃digest = constant_digest⦄ ⦃codec = constant_codec⦄
        first_id sample_world).1
    × ((state_of
          (restore willing ⦃tables = ascii_tables⦄ ⦃digest = constant_digest⦄
            ⦃codec = constant_codec⦄ first_id sample_world).1.store.db).pending
        ≡ false)
unfolding dav_deck.App.Activation.activate_healthy dav_deck.App.Apply.stamp_now
    dav_deck.App.Calls.current_environment dav_deck.App.Calls.environment_changed
    dav_deck.App.Calls.runtime_environment dav_deck.App.Calls.status
    dav_deck.App.Calls.validate_with_environment dav_deck.App.Restore.restore
    dav_deck.App.Service.get dav_deck.App.Service.with_lock dav_deck.App.World.ask
    dav_deck.App.World.database dav_deck.App.World.on_runtime dav_deck.App.World.on_store
    dav_deck.Common.Exec.attempt dav_deck.Common.Exec.fail_if dav_deck.Common.Exec.gets
    dav_deck.Common.Exec.lift dav_deck.Common.Exec.map_error dav_deck.Common.Exec.pure
    dav_deck.Common.Text.contains_any dav_deck.Domain.Id.parse_id
    dav_deck.Domain.Input.validate_input dav_deck.Domain.Input.validate_profile
    dav_deck.Domain.Input.validate_providers dav_deck.Domain.Input.validate_reference
    dav_deck.Domain.Input.validate_shares dav_deck.Domain.Input.validate_users
    dav_deck.Domain.Path.is_drive_path dav_deck.Domain.Revision.valid_sha256
    dav_deck.Domain.Revision.validate_revision dav_deck.Domain.Settings.valid_public_base_path
    dav_deck.Domain.Settings.validate_server_settings dav_deck.Domain.Snapshot.new_snapshot
    dav_deck.Domain.Snapshot.snapshot_input dav_deck.Domain.Snapshot.validate_snapshot
    dav_deck.Domain.State.marshal_revision_snapshot dav_deck.Domain.State.parse_revision_snapshot
    dav_deck.Domain.Timestamp.new_timestamp dav_deck.Domain.Timestamp.validate_time_range
    dav_deck.Domain.User.normalize_username dav_deck.Domain.Validation.contains_control
    dav_deck.Storage.Database.transaction dav_deck.Storage.Database.write
    dav_deck.Storage.Restore.replace_tables dav_deck.Storage.Restore.restore_state
    dav_deck.Storage.Revisions.active_revision dav_deck.Storage.Revisions.get_revision
    dav_deck.Storage.Revisions.query_row dav_deck.Storage.Revisions.scan_revision
restore_current_example =
    restore_current willing ⦃tables = ascii_tables⦄ ⦃digest = constant_digest⦄
      ⦃codec = constant_codec⦄ first_id sample_world
      (record sample_revision { apply_status = applied }) refl

apply_current_example :
    IsApplied
      (record sample_revision { apply_status = applied })
      (apply_locked willing ⦃tables = ascii_tables⦄ ⦃digest = constant_digest⦄
        ⦃codec = constant_codec⦄
        (codes "1")
        sample_world).1
    × ((state_of
          (apply_locked willing ⦃tables = ascii_tables⦄ ⦃digest = constant_digest⦄
            ⦃codec = constant_codec⦄
            (codes "1")
            sample_world).1.store.db).pending
        ≡ false)
unfolding dav_deck.Common.Exec.pure dav_deck.Common.Exec.raise dav_deck.Common.Exec.lift
    dav_deck.Common.Exec.gets dav_deck.Common.Exec.modify dav_deck.Common.Exec.fail_if
    dav_deck.Common.Exec.attempt dav_deck.Common.Exec.map_error dav_deck.Common.Exec.◌>>=◌
    dav_deck.Common.Sorting.insert dav_deck.Common.Sorting.sort_slice dav_deck.Common.Text.text_eq
    dav_deck.Common.Text.text_lt dav_deck.Common.Text.utf8_rune dav_deck.Common.Text.utf8
    dav_deck.Common.Text.byte_length dav_deck.Common.Text.is_control dav_deck.Common.Text.is_space
    dav_deck.Common.Text.trim_left dav_deck.Common.Text.trim_space dav_deck.Common.Text.has_prefix
    dav_deck.Common.Text.has_suffix dav_deck.Common.Text.trim_suffix_slash
    dav_deck.Common.Text.contains_any dav_deck.Common.Text.split_from dav_deck.Common.Text.split
    dav_deck.Common.Text.join dav_deck.Common.Text.to_lower
    dav_deck.Domain.Dns.dns_provider_type_valid dav_deck.Domain.Dns.valid_dns_zone
    dav_deck.Domain.Dns.validate_zones dav_deck.Domain.Dns.validate_dns_provider_credential
    dav_deck.Domain.Id.validate_id dav_deck.Domain.Id.parse_id
    dav_deck.Domain.Input.validate_providers dav_deck.Domain.Input.validate_users
    dav_deck.Domain.Input.validate_permissions dav_deck.Domain.Input.validate_shares
    dav_deck.Domain.Input.validate_profile dav_deck.Domain.Input.validate_reference
    dav_deck.Domain.Input.validate_input dav_deck.Domain.Path.clean_up
    dav_deck.Domain.Path.clean_step dav_deck.Domain.Path.clean_from dav_deck.Domain.Path.clean
    dav_deck.Domain.Path.is_ascii_letter dav_deck.Domain.Path.replace_backslashes
    dav_deck.Domain.Path.is_drive_path dav_deck.Domain.Path.is_absolute_path
    dav_deck.Domain.Revision.validation_status_valid dav_deck.Domain.Revision.apply_status_valid
    dav_deck.Domain.Revision.valid_sha256 dav_deck.Domain.Revision.validate_revision
    dav_deck.Domain.Settings.runtime_mode_valid dav_deck.Domain.Settings.valid_public_base_path
    dav_deck.Domain.Settings.valid_port dav_deck.Domain.Settings.validate_server_settings
    dav_deck.Domain.Share.is_slug_char dav_deck.Domain.Share.slug_from
    dav_deck.Domain.Share.matches_share_slug dav_deck.Domain.Share.permission_valid
    dav_deck.Domain.Share.validate_share dav_deck.Domain.Share.validate_share_permission
    dav_deck.Domain.Snapshot.snapshot_user dav_deck.Domain.Snapshot.snapshot_share
    dav_deck.Domain.Snapshot.snapshot_provider dav_deck.Domain.Snapshot.new_snapshot
    dav_deck.Domain.Snapshot.input_user dav_deck.Domain.Snapshot.input_share
    dav_deck.Domain.Snapshot.snapshot_input dav_deck.Domain.Snapshot.validate_snapshot
    dav_deck.Domain.State.state_permissions dav_deck.Domain.State.state_share
    dav_deck.Domain.State.state_identity dav_deck.Domain.State.marshal_revision_snapshot
    dav_deck.Domain.State.hash_revision_state dav_deck.Domain.State.parse_revision_snapshot
    dav_deck.Domain.State.hash_revision_state_snapshot dav_deck.Domain.Timestamp.new_timestamp
    dav_deck.Domain.Timestamp.validate_timestamp dav_deck.Domain.Timestamp.validate_time_range
    dav_deck.Domain.Tls.tls_challenge_valid dav_deck.Domain.Tls.tls_mode_valid
    dav_deck.Domain.Tls.is_label_char dav_deck.Domain.Tls.valid_label
    dav_deck.Domain.Tls.strip_wildcard dav_deck.Domain.Tls.valid_hostname
    dav_deck.Domain.Tls.validate_dns_provider_id dav_deck.Domain.Tls.validate_certificate_paths
    dav_deck.Domain.Tls.validate_tls_profile dav_deck.Domain.User.normalize_username
    dav_deck.Domain.User.validate_user dav_deck.Domain.Validation.contains_control
    dav_deck.App.Activation.start_or_fall_back dav_deck.App.Activation.restart_runtime
    dav_deck.App.Activation.start_or_reload dav_deck.App.Activation.activate
    dav_deck.App.Activation.activate_healthy dav_deck.App.Activation.activate_start
    dav_deck.App.Apply.compiled_or dav_deck.App.Apply.prepare dav_deck.App.Apply.validate
    dav_deck.App.Apply.stamp_now dav_deck.App.Apply.already_running dav_deck.App.Apply.new_revision
    dav_deck.App.Apply.found_or_new dav_deck.App.Apply.save_desired
    dav_deck.App.Apply.apply_candidate dav_deck.App.Apply.apply
    dav_deck.App.Calls.validate_with_environment dav_deck.App.Calls.start_with_environment
    dav_deck.App.Calls.runtime_environment dav_deck.App.Calls.environment_changed
    dav_deck.App.Calls.current_environment dav_deck.App.Calls.status dav_deck.App.Errors.literal
    dav_deck.App.Errors.error_code dav_deck.App.Errors.code_text
    dav_deck.App.Errors.drop_line_controls dav_deck.App.Errors.safe_summary
    dav_deck.App.Errors.safe_runtime_failure dav_deck.App.Errors.runtime_failure
    dav_deck.App.Outcome.note_unsaved dav_deck.App.Outcome.finish_unchanged
    dav_deck.App.Outcome.reload_previous dav_deck.App.Outcome.finish_activated
    dav_deck.App.Outcome.activation_failed dav_deck.App.Outcome.finish_activation
    dav_deck.App.Outcome.bring_up dav_deck.App.Service.with_lock
    dav_deck.App.Service.delete_revision dav_deck.App.Service.get dav_deck.App.Service.list
    dav_deck.App.Service.revision_state dav_deck.App.Service.stop dav_deck.App.Service.apply_locked
    dav_deck.App.Service.start dav_deck.App.Service.restart dav_deck.App.World.on_store
    dav_deck.App.World.on_runtime dav_deck.App.World.ask dav_deck.App.World.database
    dav_deck.Storage.Database.statement dav_deck.Storage.Database.write
    dav_deck.Storage.Database.transaction dav_deck.Storage.Restore.upsert_provider
    dav_deck.Storage.Restore.replace_tables dav_deck.Storage.Restore.restore_rows
    dav_deck.Storage.Restore.restore_state dav_deck.Storage.Revisions.set_desired
    dav_deck.Storage.Revisions.activate_rows dav_deck.Storage.Revisions.mark_applied
    dav_deck.Storage.Revisions.mark_failed dav_deck.Storage.Revisions.delete_row
    dav_deck.Storage.Revisions.delete dav_deck.Storage.Revisions.scan_revision
    dav_deck.Storage.Revisions.scan_revisions dav_deck.Storage.Revisions.query_row
    dav_deck.Storage.Revisions.list_revisions dav_deck.Storage.Revisions.get_revision
    dav_deck.Storage.Revisions.active_revision dav_deck.Storage.Revisions.find_by_identity
    dav_deck.Storage.Revisions.stored_state_hash dav_deck.Storage.Revisions.insert_revision
    dav_deck.Storage.Revisions.create dav_deck.Storage.Revisions.same_revision
    dav_deck.Storage.Revisions.joined_number dav_deck.Storage.Revisions.state_of
    dav_deck.Storage.Revisions.state dav_deck.Storage.Rows.scan_all dav_deck.Storage.Rows.scanned
    dav_deck.Storage.Rows.rows_where dav_deck.Storage.Rows.update_where
    dav_deck.Storage.Rows.delete_where dav_deck.Storage.Rows.scan_user
    dav_deck.Storage.Rows.scan_share dav_deck.Storage.Rows.scan_permission
    dav_deck.Storage.Rows.scan_settings dav_deck.Storage.Rows.scan_tls_profile
    dav_deck.Storage.Rows.scan_dns_provider dav_deck.Storage.Snapshots.snapshot
apply_current_example =
    apply_current willing ⦃tables = ascii_tables⦄ ⦃digest = constant_digest⦄
      ⦃codec = constant_codec⦄ (codes "1") sample_world
      (record sample_revision { apply_status = applied }) refl

apply_keeps_active_example :
    (apply_locked unwilling ⦃tables = ascii_tables⦄ ⦃digest = constant_digest⦄
      ⦃codec = constant_codec⦄
      (codes "1")
      sample_world).1.store.db.runtime_state.active_revision_id
    ≡ none
unfolding dav_deck.Common.Exec.pure dav_deck.Common.Exec.raise dav_deck.Common.Exec.lift
    dav_deck.Common.Exec.gets dav_deck.Common.Exec.modify dav_deck.Common.Exec.fail_if
    dav_deck.Common.Exec.attempt dav_deck.Common.Exec.map_error dav_deck.Common.Exec.◌>>=◌
    dav_deck.Common.Sorting.insert dav_deck.Common.Sorting.sort_slice dav_deck.Common.Text.text_eq
    dav_deck.Common.Text.text_lt dav_deck.Common.Text.utf8_rune dav_deck.Common.Text.utf8
    dav_deck.Common.Text.byte_length dav_deck.Common.Text.is_control dav_deck.Common.Text.is_space
    dav_deck.Common.Text.trim_left dav_deck.Common.Text.trim_space dav_deck.Common.Text.has_prefix
    dav_deck.Common.Text.has_suffix dav_deck.Common.Text.trim_suffix_slash
    dav_deck.Common.Text.contains_any dav_deck.Common.Text.split_from dav_deck.Common.Text.split
    dav_deck.Common.Text.join dav_deck.Common.Text.to_lower
    dav_deck.Domain.Dns.dns_provider_type_valid dav_deck.Domain.Dns.valid_dns_zone
    dav_deck.Domain.Dns.validate_zones dav_deck.Domain.Dns.validate_dns_provider_credential
    dav_deck.Domain.Id.validate_id dav_deck.Domain.Id.parse_id
    dav_deck.Domain.Input.validate_providers dav_deck.Domain.Input.validate_users
    dav_deck.Domain.Input.validate_permissions dav_deck.Domain.Input.validate_shares
    dav_deck.Domain.Input.validate_profile dav_deck.Domain.Input.validate_reference
    dav_deck.Domain.Input.validate_input dav_deck.Domain.Path.clean_up
    dav_deck.Domain.Path.clean_step dav_deck.Domain.Path.clean_from dav_deck.Domain.Path.clean
    dav_deck.Domain.Path.is_ascii_letter dav_deck.Domain.Path.replace_backslashes
    dav_deck.Domain.Path.is_drive_path dav_deck.Domain.Path.is_absolute_path
    dav_deck.Domain.Revision.validation_status_valid dav_deck.Domain.Revision.apply_status_valid
    dav_deck.Domain.Revision.valid_sha256 dav_deck.Domain.Revision.validate_revision
    dav_deck.Domain.Settings.runtime_mode_valid dav_deck.Domain.Settings.valid_public_base_path
    dav_deck.Domain.Settings.valid_port dav_deck.Domain.Settings.validate_server_settings
    dav_deck.Domain.Share.is_slug_char dav_deck.Domain.Share.slug_from
    dav_deck.Domain.Share.matches_share_slug dav_deck.Domain.Share.permission_valid
    dav_deck.Domain.Share.validate_share dav_deck.Domain.Share.validate_share_permission
    dav_deck.Domain.Snapshot.snapshot_user dav_deck.Domain.Snapshot.snapshot_share
    dav_deck.Domain.Snapshot.snapshot_provider dav_deck.Domain.Snapshot.new_snapshot
    dav_deck.Domain.Snapshot.input_user dav_deck.Domain.Snapshot.input_share
    dav_deck.Domain.Snapshot.snapshot_input dav_deck.Domain.Snapshot.validate_snapshot
    dav_deck.Domain.State.state_permissions dav_deck.Domain.State.state_share
    dav_deck.Domain.State.state_identity dav_deck.Domain.State.marshal_revision_snapshot
    dav_deck.Domain.State.hash_revision_state dav_deck.Domain.State.parse_revision_snapshot
    dav_deck.Domain.State.hash_revision_state_snapshot dav_deck.Domain.Timestamp.new_timestamp
    dav_deck.Domain.Timestamp.validate_timestamp dav_deck.Domain.Timestamp.validate_time_range
    dav_deck.Domain.Tls.tls_challenge_valid dav_deck.Domain.Tls.tls_mode_valid
    dav_deck.Domain.Tls.is_label_char dav_deck.Domain.Tls.valid_label
    dav_deck.Domain.Tls.strip_wildcard dav_deck.Domain.Tls.valid_hostname
    dav_deck.Domain.Tls.validate_dns_provider_id dav_deck.Domain.Tls.validate_certificate_paths
    dav_deck.Domain.Tls.validate_tls_profile dav_deck.Domain.User.normalize_username
    dav_deck.Domain.User.validate_user dav_deck.Domain.Validation.contains_control
    dav_deck.App.Activation.start_or_fall_back dav_deck.App.Activation.restart_runtime
    dav_deck.App.Activation.start_or_reload dav_deck.App.Activation.activate
    dav_deck.App.Activation.activate_healthy dav_deck.App.Activation.activate_start
    dav_deck.App.Apply.compiled_or dav_deck.App.Apply.prepare dav_deck.App.Apply.validate
    dav_deck.App.Apply.stamp_now dav_deck.App.Apply.already_running dav_deck.App.Apply.new_revision
    dav_deck.App.Apply.found_or_new dav_deck.App.Apply.save_desired
    dav_deck.App.Apply.apply_candidate dav_deck.App.Apply.apply
    dav_deck.App.Calls.validate_with_environment dav_deck.App.Calls.start_with_environment
    dav_deck.App.Calls.runtime_environment dav_deck.App.Calls.environment_changed
    dav_deck.App.Calls.current_environment dav_deck.App.Calls.status dav_deck.App.Errors.literal
    dav_deck.App.Errors.error_code dav_deck.App.Errors.code_text
    dav_deck.App.Errors.drop_line_controls dav_deck.App.Errors.safe_summary
    dav_deck.App.Errors.safe_runtime_failure dav_deck.App.Errors.runtime_failure
    dav_deck.App.Outcome.note_unsaved dav_deck.App.Outcome.finish_unchanged
    dav_deck.App.Outcome.reload_previous dav_deck.App.Outcome.finish_activated
    dav_deck.App.Outcome.activation_failed dav_deck.App.Outcome.finish_activation
    dav_deck.App.Outcome.bring_up dav_deck.App.Service.with_lock
    dav_deck.App.Service.delete_revision dav_deck.App.Service.get dav_deck.App.Service.list
    dav_deck.App.Service.revision_state dav_deck.App.Service.stop dav_deck.App.Service.apply_locked
    dav_deck.App.Service.start dav_deck.App.Service.restart dav_deck.App.World.on_store
    dav_deck.App.World.on_runtime dav_deck.App.World.ask dav_deck.App.World.database
    dav_deck.Storage.Database.statement dav_deck.Storage.Database.write
    dav_deck.Storage.Database.transaction dav_deck.Storage.Restore.upsert_provider
    dav_deck.Storage.Restore.replace_tables dav_deck.Storage.Restore.restore_rows
    dav_deck.Storage.Restore.restore_state dav_deck.Storage.Revisions.set_desired
    dav_deck.Storage.Revisions.activate_rows dav_deck.Storage.Revisions.mark_applied
    dav_deck.Storage.Revisions.mark_failed dav_deck.Storage.Revisions.delete_row
    dav_deck.Storage.Revisions.delete dav_deck.Storage.Revisions.scan_revision
    dav_deck.Storage.Revisions.scan_revisions dav_deck.Storage.Revisions.query_row
    dav_deck.Storage.Revisions.list_revisions dav_deck.Storage.Revisions.get_revision
    dav_deck.Storage.Revisions.active_revision dav_deck.Storage.Revisions.find_by_identity
    dav_deck.Storage.Revisions.stored_state_hash dav_deck.Storage.Revisions.insert_revision
    dav_deck.Storage.Revisions.create dav_deck.Storage.Revisions.same_revision
    dav_deck.Storage.Revisions.joined_number dav_deck.Storage.Revisions.state_of
    dav_deck.Storage.Revisions.state dav_deck.Storage.Rows.scan_all dav_deck.Storage.Rows.scanned
    dav_deck.Storage.Rows.rows_where dav_deck.Storage.Rows.update_where
    dav_deck.Storage.Rows.delete_where dav_deck.Storage.Rows.scan_user
    dav_deck.Storage.Rows.scan_share dav_deck.Storage.Rows.scan_permission
    dav_deck.Storage.Rows.scan_settings dav_deck.Storage.Rows.scan_tls_profile
    dav_deck.Storage.Rows.scan_dns_provider dav_deck.Storage.Snapshots.snapshot
apply_keeps_active_example =
    apply_keeps_active unwilling ⦃tables = ascii_tables⦄ ⦃digest = constant_digest⦄
      ⦃codec = constant_codec⦄ (codes "1") sample_world
      (record { code = ErrorCode.caddy_apply_failed; message = codes "no" }) refl

apply_keeps_tables_example :
    (apply_locked willing ⦃tables = ascii_tables⦄ ⦃digest = constant_digest⦄
      ⦃codec = constant_codec⦄
      (codes "1")
      sample_world).1.store.db.tables
    ≡ sample_world.store.db.tables
apply_keeps_tables_example =
    apply_keeps_tables willing ⦃tables = ascii_tables⦄ ⦃digest = constant_digest⦄
      ⦃codec = constant_codec⦄ (codes "1") sample_world

validate_keeps_database_example :
    (validate willing ⦃tables = ascii_tables⦄ sample_world).1.store.db ≡ sample_world.store.db
validate_keeps_database_example =
    validate_keeps_database willing ⦃tables = ascii_tables⦄ ⦃digest = constant_digest⦄
      ⦃codec = constant_codec⦄ sample_world

operations_keep_invariant_example :
    IsWellFormed
      (create ⦃tables = ascii_tables⦄ ⦃digest = constant_digest⦄ ⦃codec = constant_codec⦄
        second_revision sample_store).1.db
    × IsWellFormed (set_desired first_id day sample_store).1.db
    × IsWellFormed (mark_applied first_id day sample_store).1.db
    × IsWellFormed (mark_failed first_id (codes "E") (codes "no") sample_store).1.db
    × IsWellFormed (delete first_id sample_store).1.db
unfolding text_eq
operations_keep_invariant_example =
    operations_keep_invariant ⦃tables = ascii_tables⦄ ⦃digest = constant_digest⦄
      ⦃codec = constant_codec⦄ second_revision first_id day (codes "E") (codes "no") sample_store
      (record { unique = refl; below = refl; desired = refl; active = refl })

create-Inserts_example :
    Inserts second_revision sample_store.db
      (create ⦃tables = ascii_tables⦄ ⦃digest = constant_digest⦄ ⦃codec = constant_codec⦄
        second_revision sample_store).1.db
unfolding dav_deck.App.Activation.activate dav_deck.App.Activation.activate_healthy
    dav_deck.App.Activation.activate_start dav_deck.App.Activation.restart_runtime
    dav_deck.App.Activation.start_or_fall_back dav_deck.App.Activation.start_or_reload
    dav_deck.App.Apply.already_running dav_deck.App.Apply.apply dav_deck.App.Apply.apply_candidate
    dav_deck.App.Apply.compiled_or dav_deck.App.Apply.found_or_new dav_deck.App.Apply.new_revision
    dav_deck.App.Apply.prepare dav_deck.App.Apply.save_desired dav_deck.App.Apply.stamp_now
    dav_deck.App.Apply.validate dav_deck.App.Calls.current_environment
    dav_deck.App.Calls.environment_changed dav_deck.App.Calls.runtime_environment
    dav_deck.App.Calls.start_with_environment dav_deck.App.Calls.status
    dav_deck.App.Calls.validate_with_environment dav_deck.App.Errors.code_text
    dav_deck.App.Errors.drop_line_controls dav_deck.App.Errors.error_code
    dav_deck.App.Errors.literal dav_deck.App.Errors.runtime_failure
    dav_deck.App.Errors.safe_runtime_failure dav_deck.App.Errors.safe_summary
    dav_deck.App.Outcome.activation_failed dav_deck.App.Outcome.bring_up
    dav_deck.App.Outcome.finish_activated dav_deck.App.Outcome.finish_activation
    dav_deck.App.Outcome.finish_unchanged dav_deck.App.Outcome.note_unsaved
    dav_deck.App.Outcome.reload_previous dav_deck.App.Restore.restore
    dav_deck.App.Restore.restore_compiled dav_deck.App.Restore.restore_unlocked
    dav_deck.App.Restore.store_restored dav_deck.App.Service.apply_locked
    dav_deck.App.Service.delete_revision dav_deck.App.Service.get dav_deck.App.Service.list
    dav_deck.App.Service.restart dav_deck.App.Service.revision_state dav_deck.App.Service.start
    dav_deck.App.Service.stop dav_deck.App.Service.with_lock dav_deck.App.World.ask
    dav_deck.App.World.database dav_deck.App.World.on_runtime dav_deck.App.World.on_store
    dav_deck.Common.Exec.attempt dav_deck.Common.Exec.fail_if dav_deck.Common.Exec.gets
    dav_deck.Common.Exec.lift dav_deck.Common.Exec.map_error dav_deck.Common.Exec.modify
    dav_deck.Common.Exec.pure dav_deck.Common.Exec.raise dav_deck.Common.Exec.◌>>=◌
    dav_deck.Common.Sorting.insert dav_deck.Common.Sorting.sort_slice
    dav_deck.Common.Text.byte_length dav_deck.Common.Text.contains_any
    dav_deck.Common.Text.has_prefix dav_deck.Common.Text.has_suffix dav_deck.Common.Text.is_control
    dav_deck.Common.Text.is_space dav_deck.Common.Text.join dav_deck.Common.Text.split
    dav_deck.Common.Text.split_from dav_deck.Common.Text.text_eq dav_deck.Common.Text.text_lt
    dav_deck.Common.Text.to_lower dav_deck.Common.Text.trim_left dav_deck.Common.Text.trim_space
    dav_deck.Common.Text.trim_suffix_slash dav_deck.Common.Text.utf8 dav_deck.Common.Text.utf8_rune
    dav_deck.Domain.Dns.dns_provider_type_valid dav_deck.Domain.Dns.valid_dns_zone
    dav_deck.Domain.Dns.validate_dns_provider_credential dav_deck.Domain.Dns.validate_zones
    dav_deck.Domain.Id.parse_id dav_deck.Domain.Id.validate_id dav_deck.Domain.Input.validate_input
    dav_deck.Domain.Input.validate_permissions dav_deck.Domain.Input.validate_profile
    dav_deck.Domain.Input.validate_providers dav_deck.Domain.Input.validate_reference
    dav_deck.Domain.Input.validate_shares dav_deck.Domain.Input.validate_users
    dav_deck.Domain.Path.clean dav_deck.Domain.Path.clean_from dav_deck.Domain.Path.clean_step
    dav_deck.Domain.Path.clean_up dav_deck.Domain.Path.is_absolute_path
    dav_deck.Domain.Path.is_ascii_letter dav_deck.Domain.Path.is_drive_path
    dav_deck.Domain.Path.replace_backslashes dav_deck.Domain.Revision.apply_status_valid
    dav_deck.Domain.Revision.valid_sha256 dav_deck.Domain.Revision.validate_revision
    dav_deck.Domain.Revision.validation_status_valid dav_deck.Domain.Settings.runtime_mode_valid
    dav_deck.Domain.Settings.valid_port dav_deck.Domain.Settings.valid_public_base_path
    dav_deck.Domain.Settings.validate_server_settings dav_deck.Domain.Share.is_slug_char
    dav_deck.Domain.Share.matches_share_slug dav_deck.Domain.Share.permission_valid
    dav_deck.Domain.Share.slug_from dav_deck.Domain.Share.validate_share
    dav_deck.Domain.Share.validate_share_permission dav_deck.Domain.Snapshot.input_share
    dav_deck.Domain.Snapshot.input_user dav_deck.Domain.Snapshot.new_snapshot
    dav_deck.Domain.Snapshot.snapshot_input dav_deck.Domain.Snapshot.snapshot_provider
    dav_deck.Domain.Snapshot.snapshot_share dav_deck.Domain.Snapshot.snapshot_user
    dav_deck.Domain.Snapshot.validate_snapshot dav_deck.Domain.State.hash_revision_state
    dav_deck.Domain.State.hash_revision_state_snapshot
    dav_deck.Domain.State.marshal_revision_snapshot dav_deck.Domain.State.parse_revision_snapshot
    dav_deck.Domain.State.state_identity dav_deck.Domain.State.state_permissions
    dav_deck.Domain.State.state_share dav_deck.Domain.Timestamp.new_timestamp
    dav_deck.Domain.Timestamp.validate_time_range dav_deck.Domain.Timestamp.validate_timestamp
    dav_deck.Domain.Tls.is_label_char dav_deck.Domain.Tls.strip_wildcard
    dav_deck.Domain.Tls.tls_challenge_valid dav_deck.Domain.Tls.tls_mode_valid
    dav_deck.Domain.Tls.valid_hostname dav_deck.Domain.Tls.valid_label
    dav_deck.Domain.Tls.validate_certificate_paths dav_deck.Domain.Tls.validate_dns_provider_id
    dav_deck.Domain.Tls.validate_tls_profile dav_deck.Domain.User.normalize_username
    dav_deck.Domain.User.validate_user dav_deck.Domain.Validation.contains_control
    dav_deck.Storage.Database.statement dav_deck.Storage.Database.transaction
    dav_deck.Storage.Database.write dav_deck.Storage.Restore.replace_tables
    dav_deck.Storage.Restore.restore_rows dav_deck.Storage.Restore.restore_state
    dav_deck.Storage.Restore.upsert_provider dav_deck.Storage.Revisions.activate_rows
    dav_deck.Storage.Revisions.active_revision dav_deck.Storage.Revisions.create
    dav_deck.Storage.Revisions.delete dav_deck.Storage.Revisions.delete_row
    dav_deck.Storage.Revisions.find_by_identity dav_deck.Storage.Revisions.get_revision
    dav_deck.Storage.Revisions.insert_revision dav_deck.Storage.Revisions.joined_number
    dav_deck.Storage.Revisions.list_revisions dav_deck.Storage.Revisions.mark_applied
    dav_deck.Storage.Revisions.mark_failed dav_deck.Storage.Revisions.query_row
    dav_deck.Storage.Revisions.same_revision dav_deck.Storage.Revisions.scan_revision
    dav_deck.Storage.Revisions.scan_revisions dav_deck.Storage.Revisions.set_desired
    dav_deck.Storage.Revisions.state dav_deck.Storage.Revisions.state_of
    dav_deck.Storage.Revisions.stored_state_hash dav_deck.Storage.Rows.scan_all
    dav_deck.Storage.Snapshots.snapshot
create-Inserts_example =
    create-Inserts ⦃tables = ascii_tables⦄ ⦃digest = constant_digest⦄ ⦃codec = constant_codec⦄
      second_revision sample_store second_revision refl

delete_removes_example : Deletes second_id two_revisions.db (delete second_id two_revisions).1.db
unfolding dav_deck.App.Activation.activate dav_deck.App.Activation.activate_healthy
    dav_deck.App.Activation.activate_start dav_deck.App.Activation.restart_runtime
    dav_deck.App.Activation.start_or_fall_back dav_deck.App.Activation.start_or_reload
    dav_deck.App.Apply.already_running dav_deck.App.Apply.apply dav_deck.App.Apply.apply_candidate
    dav_deck.App.Apply.compiled_or dav_deck.App.Apply.found_or_new dav_deck.App.Apply.new_revision
    dav_deck.App.Apply.prepare dav_deck.App.Apply.save_desired dav_deck.App.Apply.stamp_now
    dav_deck.App.Apply.validate dav_deck.App.Calls.current_environment
    dav_deck.App.Calls.environment_changed dav_deck.App.Calls.runtime_environment
    dav_deck.App.Calls.start_with_environment dav_deck.App.Calls.status
    dav_deck.App.Calls.validate_with_environment dav_deck.App.Errors.code_text
    dav_deck.App.Errors.drop_line_controls dav_deck.App.Errors.error_code
    dav_deck.App.Errors.literal dav_deck.App.Errors.runtime_failure
    dav_deck.App.Errors.safe_runtime_failure dav_deck.App.Errors.safe_summary
    dav_deck.App.Outcome.activation_failed dav_deck.App.Outcome.bring_up
    dav_deck.App.Outcome.finish_activated dav_deck.App.Outcome.finish_activation
    dav_deck.App.Outcome.finish_unchanged dav_deck.App.Outcome.note_unsaved
    dav_deck.App.Outcome.reload_previous dav_deck.App.Restore.restore
    dav_deck.App.Restore.restore_compiled dav_deck.App.Restore.restore_unlocked
    dav_deck.App.Restore.store_restored dav_deck.App.Service.apply_locked
    dav_deck.App.Service.delete_revision dav_deck.App.Service.get dav_deck.App.Service.list
    dav_deck.App.Service.restart dav_deck.App.Service.revision_state dav_deck.App.Service.start
    dav_deck.App.Service.stop dav_deck.App.Service.with_lock dav_deck.App.World.ask
    dav_deck.App.World.database dav_deck.App.World.on_runtime dav_deck.App.World.on_store
    dav_deck.Common.Exec.attempt dav_deck.Common.Exec.fail_if dav_deck.Common.Exec.gets
    dav_deck.Common.Exec.lift dav_deck.Common.Exec.map_error dav_deck.Common.Exec.modify
    dav_deck.Common.Exec.pure dav_deck.Common.Exec.raise dav_deck.Common.Exec.◌>>=◌
    dav_deck.Common.Sorting.insert dav_deck.Common.Sorting.sort_slice
    dav_deck.Common.Text.byte_length dav_deck.Common.Text.contains_any
    dav_deck.Common.Text.has_prefix dav_deck.Common.Text.has_suffix dav_deck.Common.Text.is_control
    dav_deck.Common.Text.is_space dav_deck.Common.Text.join dav_deck.Common.Text.split
    dav_deck.Common.Text.split_from dav_deck.Common.Text.text_eq dav_deck.Common.Text.text_lt
    dav_deck.Common.Text.to_lower dav_deck.Common.Text.trim_left dav_deck.Common.Text.trim_space
    dav_deck.Common.Text.trim_suffix_slash dav_deck.Common.Text.utf8 dav_deck.Common.Text.utf8_rune
    dav_deck.Domain.Dns.dns_provider_type_valid dav_deck.Domain.Dns.valid_dns_zone
    dav_deck.Domain.Dns.validate_dns_provider_credential dav_deck.Domain.Dns.validate_zones
    dav_deck.Domain.Id.parse_id dav_deck.Domain.Id.validate_id dav_deck.Domain.Input.validate_input
    dav_deck.Domain.Input.validate_permissions dav_deck.Domain.Input.validate_profile
    dav_deck.Domain.Input.validate_providers dav_deck.Domain.Input.validate_reference
    dav_deck.Domain.Input.validate_shares dav_deck.Domain.Input.validate_users
    dav_deck.Domain.Path.clean dav_deck.Domain.Path.clean_from dav_deck.Domain.Path.clean_step
    dav_deck.Domain.Path.clean_up dav_deck.Domain.Path.is_absolute_path
    dav_deck.Domain.Path.is_ascii_letter dav_deck.Domain.Path.is_drive_path
    dav_deck.Domain.Path.replace_backslashes dav_deck.Domain.Revision.apply_status_valid
    dav_deck.Domain.Revision.valid_sha256 dav_deck.Domain.Revision.validate_revision
    dav_deck.Domain.Revision.validation_status_valid dav_deck.Domain.Settings.runtime_mode_valid
    dav_deck.Domain.Settings.valid_port dav_deck.Domain.Settings.valid_public_base_path
    dav_deck.Domain.Settings.validate_server_settings dav_deck.Domain.Share.is_slug_char
    dav_deck.Domain.Share.matches_share_slug dav_deck.Domain.Share.permission_valid
    dav_deck.Domain.Share.slug_from dav_deck.Domain.Share.validate_share
    dav_deck.Domain.Share.validate_share_permission dav_deck.Domain.Snapshot.input_share
    dav_deck.Domain.Snapshot.input_user dav_deck.Domain.Snapshot.new_snapshot
    dav_deck.Domain.Snapshot.snapshot_input dav_deck.Domain.Snapshot.snapshot_provider
    dav_deck.Domain.Snapshot.snapshot_share dav_deck.Domain.Snapshot.snapshot_user
    dav_deck.Domain.Snapshot.validate_snapshot dav_deck.Domain.State.hash_revision_state
    dav_deck.Domain.State.hash_revision_state_snapshot
    dav_deck.Domain.State.marshal_revision_snapshot dav_deck.Domain.State.parse_revision_snapshot
    dav_deck.Domain.State.state_identity dav_deck.Domain.State.state_permissions
    dav_deck.Domain.State.state_share dav_deck.Domain.Timestamp.new_timestamp
    dav_deck.Domain.Timestamp.validate_time_range dav_deck.Domain.Timestamp.validate_timestamp
    dav_deck.Domain.Tls.is_label_char dav_deck.Domain.Tls.strip_wildcard
    dav_deck.Domain.Tls.tls_challenge_valid dav_deck.Domain.Tls.tls_mode_valid
    dav_deck.Domain.Tls.valid_hostname dav_deck.Domain.Tls.valid_label
    dav_deck.Domain.Tls.validate_certificate_paths dav_deck.Domain.Tls.validate_dns_provider_id
    dav_deck.Domain.Tls.validate_tls_profile dav_deck.Domain.User.normalize_username
    dav_deck.Domain.User.validate_user dav_deck.Domain.Validation.contains_control
    dav_deck.Storage.Database.statement dav_deck.Storage.Database.transaction
    dav_deck.Storage.Database.write dav_deck.Storage.Restore.replace_tables
    dav_deck.Storage.Restore.restore_rows dav_deck.Storage.Restore.restore_state
    dav_deck.Storage.Restore.upsert_provider dav_deck.Storage.Revisions.activate_rows
    dav_deck.Storage.Revisions.active_revision dav_deck.Storage.Revisions.create
    dav_deck.Storage.Revisions.delete dav_deck.Storage.Revisions.delete_row
    dav_deck.Storage.Revisions.find_by_identity dav_deck.Storage.Revisions.get_revision
    dav_deck.Storage.Revisions.insert_revision dav_deck.Storage.Revisions.joined_number
    dav_deck.Storage.Revisions.list_revisions dav_deck.Storage.Revisions.mark_applied
    dav_deck.Storage.Revisions.mark_failed dav_deck.Storage.Revisions.query_row
    dav_deck.Storage.Revisions.same_revision dav_deck.Storage.Revisions.scan_revision
    dav_deck.Storage.Revisions.scan_revisions dav_deck.Storage.Revisions.set_desired
    dav_deck.Storage.Revisions.state dav_deck.Storage.Revisions.state_of
    dav_deck.Storage.Revisions.stored_state_hash dav_deck.Storage.Rows.scan_all
    dav_deck.Storage.Snapshots.snapshot
delete_removes_example = delete_removes second_id two_revisions refl

validate_input-IsConsistent_example : IsConsistent sample_input
unfolding dav_deck.App.Activation.activate dav_deck.App.Activation.activate_healthy
    dav_deck.App.Activation.activate_start dav_deck.App.Activation.restart_runtime
    dav_deck.App.Activation.start_or_fall_back dav_deck.App.Activation.start_or_reload
    dav_deck.App.Apply.already_running dav_deck.App.Apply.apply dav_deck.App.Apply.apply_candidate
    dav_deck.App.Apply.compiled_or dav_deck.App.Apply.found_or_new dav_deck.App.Apply.new_revision
    dav_deck.App.Apply.prepare dav_deck.App.Apply.save_desired dav_deck.App.Apply.stamp_now
    dav_deck.App.Apply.validate dav_deck.App.Calls.current_environment
    dav_deck.App.Calls.environment_changed dav_deck.App.Calls.runtime_environment
    dav_deck.App.Calls.start_with_environment dav_deck.App.Calls.status
    dav_deck.App.Calls.validate_with_environment dav_deck.App.Errors.code_text
    dav_deck.App.Errors.drop_line_controls dav_deck.App.Errors.error_code
    dav_deck.App.Errors.literal dav_deck.App.Errors.runtime_failure
    dav_deck.App.Errors.safe_runtime_failure dav_deck.App.Errors.safe_summary
    dav_deck.App.Outcome.activation_failed dav_deck.App.Outcome.bring_up
    dav_deck.App.Outcome.finish_activated dav_deck.App.Outcome.finish_activation
    dav_deck.App.Outcome.finish_unchanged dav_deck.App.Outcome.note_unsaved
    dav_deck.App.Outcome.reload_previous dav_deck.App.Restore.restore
    dav_deck.App.Restore.restore_compiled dav_deck.App.Restore.restore_unlocked
    dav_deck.App.Restore.store_restored dav_deck.App.Service.apply_locked
    dav_deck.App.Service.delete_revision dav_deck.App.Service.get dav_deck.App.Service.list
    dav_deck.App.Service.restart dav_deck.App.Service.revision_state dav_deck.App.Service.start
    dav_deck.App.Service.stop dav_deck.App.Service.with_lock dav_deck.App.World.ask
    dav_deck.App.World.database dav_deck.App.World.on_runtime dav_deck.App.World.on_store
    dav_deck.Common.Exec.attempt dav_deck.Common.Exec.fail_if dav_deck.Common.Exec.gets
    dav_deck.Common.Exec.lift dav_deck.Common.Exec.map_error dav_deck.Common.Exec.modify
    dav_deck.Common.Exec.pure dav_deck.Common.Exec.raise dav_deck.Common.Exec.◌>>=◌
    dav_deck.Common.Sorting.insert dav_deck.Common.Sorting.sort_slice
    dav_deck.Common.Text.byte_length dav_deck.Common.Text.contains_any
    dav_deck.Common.Text.has_prefix dav_deck.Common.Text.has_suffix dav_deck.Common.Text.is_control
    dav_deck.Common.Text.is_space dav_deck.Common.Text.join dav_deck.Common.Text.split
    dav_deck.Common.Text.split_from dav_deck.Common.Text.text_eq dav_deck.Common.Text.text_lt
    dav_deck.Common.Text.to_lower dav_deck.Common.Text.trim_left dav_deck.Common.Text.trim_space
    dav_deck.Common.Text.trim_suffix_slash dav_deck.Common.Text.utf8 dav_deck.Common.Text.utf8_rune
    dav_deck.Domain.Dns.dns_provider_type_valid dav_deck.Domain.Dns.valid_dns_zone
    dav_deck.Domain.Dns.validate_dns_provider_credential dav_deck.Domain.Dns.validate_zones
    dav_deck.Domain.Id.parse_id dav_deck.Domain.Id.validate_id dav_deck.Domain.Input.validate_input
    dav_deck.Domain.Input.validate_permissions dav_deck.Domain.Input.validate_profile
    dav_deck.Domain.Input.validate_providers dav_deck.Domain.Input.validate_reference
    dav_deck.Domain.Input.validate_shares dav_deck.Domain.Input.validate_users
    dav_deck.Domain.Path.clean dav_deck.Domain.Path.clean_from dav_deck.Domain.Path.clean_step
    dav_deck.Domain.Path.clean_up dav_deck.Domain.Path.is_absolute_path
    dav_deck.Domain.Path.is_ascii_letter dav_deck.Domain.Path.is_drive_path
    dav_deck.Domain.Path.replace_backslashes dav_deck.Domain.Revision.apply_status_valid
    dav_deck.Domain.Revision.valid_sha256 dav_deck.Domain.Revision.validate_revision
    dav_deck.Domain.Revision.validation_status_valid dav_deck.Domain.Settings.runtime_mode_valid
    dav_deck.Domain.Settings.valid_port dav_deck.Domain.Settings.valid_public_base_path
    dav_deck.Domain.Settings.validate_server_settings dav_deck.Domain.Share.is_slug_char
    dav_deck.Domain.Share.matches_share_slug dav_deck.Domain.Share.permission_valid
    dav_deck.Domain.Share.slug_from dav_deck.Domain.Share.validate_share
    dav_deck.Domain.Share.validate_share_permission dav_deck.Domain.Snapshot.input_share
    dav_deck.Domain.Snapshot.input_user dav_deck.Domain.Snapshot.new_snapshot
    dav_deck.Domain.Snapshot.snapshot_input dav_deck.Domain.Snapshot.snapshot_provider
    dav_deck.Domain.Snapshot.snapshot_share dav_deck.Domain.Snapshot.snapshot_user
    dav_deck.Domain.Snapshot.validate_snapshot dav_deck.Domain.State.hash_revision_state
    dav_deck.Domain.State.hash_revision_state_snapshot
    dav_deck.Domain.State.marshal_revision_snapshot dav_deck.Domain.State.parse_revision_snapshot
    dav_deck.Domain.State.state_identity dav_deck.Domain.State.state_permissions
    dav_deck.Domain.State.state_share dav_deck.Domain.Timestamp.new_timestamp
    dav_deck.Domain.Timestamp.validate_time_range dav_deck.Domain.Timestamp.validate_timestamp
    dav_deck.Domain.Tls.is_label_char dav_deck.Domain.Tls.strip_wildcard
    dav_deck.Domain.Tls.tls_challenge_valid dav_deck.Domain.Tls.tls_mode_valid
    dav_deck.Domain.Tls.valid_hostname dav_deck.Domain.Tls.valid_label
    dav_deck.Domain.Tls.validate_certificate_paths dav_deck.Domain.Tls.validate_dns_provider_id
    dav_deck.Domain.Tls.validate_tls_profile dav_deck.Domain.User.normalize_username
    dav_deck.Domain.User.validate_user dav_deck.Domain.Validation.contains_control
    dav_deck.Storage.Database.statement dav_deck.Storage.Database.transaction
    dav_deck.Storage.Database.write dav_deck.Storage.Restore.replace_tables
    dav_deck.Storage.Restore.restore_rows dav_deck.Storage.Restore.restore_state
    dav_deck.Storage.Restore.upsert_provider dav_deck.Storage.Revisions.activate_rows
    dav_deck.Storage.Revisions.active_revision dav_deck.Storage.Revisions.create
    dav_deck.Storage.Revisions.delete dav_deck.Storage.Revisions.delete_row
    dav_deck.Storage.Revisions.find_by_identity dav_deck.Storage.Revisions.get_revision
    dav_deck.Storage.Revisions.insert_revision dav_deck.Storage.Revisions.joined_number
    dav_deck.Storage.Revisions.list_revisions dav_deck.Storage.Revisions.mark_applied
    dav_deck.Storage.Revisions.mark_failed dav_deck.Storage.Revisions.query_row
    dav_deck.Storage.Revisions.same_revision dav_deck.Storage.Revisions.scan_revision
    dav_deck.Storage.Revisions.scan_revisions dav_deck.Storage.Revisions.set_desired
    dav_deck.Storage.Revisions.state dav_deck.Storage.Revisions.state_of
    dav_deck.Storage.Revisions.stored_state_hash dav_deck.Storage.Rows.scan_all
    dav_deck.Storage.Snapshots.snapshot
validate_input-IsConsistent_example =
    validate_input-IsConsistent ⦃tables = ascii_tables⦄ sample_input refl

matches_share_slug_parts_example :
    matches_share_slug (codes "my-docs") ≡ all is_slug_part (split (codes "my-docs") b'-')
matches_share_slug_parts_example = matches_share_slug_parts (codes "my-docs")

identity_ignores_times_example :
    state_identity (redated day day snapshot_with_none) ≡ state_identity snapshot_with_none
identity_ignores_times_example = identity_ignores_times day day snapshot_with_none

delete_without_faults_example : (delete first_id sample_store).0 ≡ (
    if refers_to sample_database.runtime_state.active_revision_id first_id
    then err revision_active
    else if refers_to sample_database.runtime_state.desired_revision_id first_id
    then err revision_desired
    else if any (has_id first_id) sample_database.config_revisions
    then ok tt
    else err revision_not_found)
delete_without_faults_example = delete_without_faults first_id sample_database

restore_replaces_tables_example :
    Holds sample_input
      (restore_state ⦃tables = ascii_tables⦄ ⦃digest = constant_digest⦄ ⦃codec = constant_codec⦄
        sample_input first_id day sample_store).1.db
unfolding dav_deck.App.Activation.activate dav_deck.App.Activation.activate_healthy
    dav_deck.App.Activation.activate_start dav_deck.App.Activation.restart_runtime
    dav_deck.App.Activation.start_or_fall_back dav_deck.App.Activation.start_or_reload
    dav_deck.App.Apply.already_running dav_deck.App.Apply.apply dav_deck.App.Apply.apply_candidate
    dav_deck.App.Apply.compiled_or dav_deck.App.Apply.found_or_new dav_deck.App.Apply.new_revision
    dav_deck.App.Apply.prepare dav_deck.App.Apply.save_desired dav_deck.App.Apply.stamp_now
    dav_deck.App.Apply.validate dav_deck.App.Calls.current_environment
    dav_deck.App.Calls.environment_changed dav_deck.App.Calls.runtime_environment
    dav_deck.App.Calls.start_with_environment dav_deck.App.Calls.status
    dav_deck.App.Calls.validate_with_environment dav_deck.App.Errors.code_text
    dav_deck.App.Errors.drop_line_controls dav_deck.App.Errors.error_code
    dav_deck.App.Errors.literal dav_deck.App.Errors.runtime_failure
    dav_deck.App.Errors.safe_runtime_failure dav_deck.App.Errors.safe_summary
    dav_deck.App.Outcome.activation_failed dav_deck.App.Outcome.bring_up
    dav_deck.App.Outcome.finish_activated dav_deck.App.Outcome.finish_activation
    dav_deck.App.Outcome.finish_unchanged dav_deck.App.Outcome.note_unsaved
    dav_deck.App.Outcome.reload_previous dav_deck.App.Restore.restore
    dav_deck.App.Restore.restore_compiled dav_deck.App.Restore.restore_unlocked
    dav_deck.App.Restore.store_restored dav_deck.App.Service.apply_locked
    dav_deck.App.Service.delete_revision dav_deck.App.Service.get dav_deck.App.Service.list
    dav_deck.App.Service.restart dav_deck.App.Service.revision_state dav_deck.App.Service.start
    dav_deck.App.Service.stop dav_deck.App.Service.with_lock dav_deck.App.World.ask
    dav_deck.App.World.database dav_deck.App.World.on_runtime dav_deck.App.World.on_store
    dav_deck.Common.Exec.attempt dav_deck.Common.Exec.fail_if dav_deck.Common.Exec.gets
    dav_deck.Common.Exec.lift dav_deck.Common.Exec.map_error dav_deck.Common.Exec.modify
    dav_deck.Common.Exec.pure dav_deck.Common.Exec.raise dav_deck.Common.Exec.◌>>=◌
    dav_deck.Common.Sorting.insert dav_deck.Common.Sorting.sort_slice
    dav_deck.Common.Text.byte_length dav_deck.Common.Text.contains_any
    dav_deck.Common.Text.has_prefix dav_deck.Common.Text.has_suffix dav_deck.Common.Text.is_control
    dav_deck.Common.Text.is_space dav_deck.Common.Text.join dav_deck.Common.Text.split
    dav_deck.Common.Text.split_from dav_deck.Common.Text.text_eq dav_deck.Common.Text.text_lt
    dav_deck.Common.Text.to_lower dav_deck.Common.Text.trim_left dav_deck.Common.Text.trim_space
    dav_deck.Common.Text.trim_suffix_slash dav_deck.Common.Text.utf8 dav_deck.Common.Text.utf8_rune
    dav_deck.Domain.Dns.dns_provider_type_valid dav_deck.Domain.Dns.valid_dns_zone
    dav_deck.Domain.Dns.validate_dns_provider_credential dav_deck.Domain.Dns.validate_zones
    dav_deck.Domain.Id.parse_id dav_deck.Domain.Id.validate_id dav_deck.Domain.Input.validate_input
    dav_deck.Domain.Input.validate_permissions dav_deck.Domain.Input.validate_profile
    dav_deck.Domain.Input.validate_providers dav_deck.Domain.Input.validate_reference
    dav_deck.Domain.Input.validate_shares dav_deck.Domain.Input.validate_users
    dav_deck.Domain.Path.clean dav_deck.Domain.Path.clean_from dav_deck.Domain.Path.clean_step
    dav_deck.Domain.Path.clean_up dav_deck.Domain.Path.is_absolute_path
    dav_deck.Domain.Path.is_ascii_letter dav_deck.Domain.Path.is_drive_path
    dav_deck.Domain.Path.replace_backslashes dav_deck.Domain.Revision.apply_status_valid
    dav_deck.Domain.Revision.valid_sha256 dav_deck.Domain.Revision.validate_revision
    dav_deck.Domain.Revision.validation_status_valid dav_deck.Domain.Settings.runtime_mode_valid
    dav_deck.Domain.Settings.valid_port dav_deck.Domain.Settings.valid_public_base_path
    dav_deck.Domain.Settings.validate_server_settings dav_deck.Domain.Share.is_slug_char
    dav_deck.Domain.Share.matches_share_slug dav_deck.Domain.Share.permission_valid
    dav_deck.Domain.Share.slug_from dav_deck.Domain.Share.validate_share
    dav_deck.Domain.Share.validate_share_permission dav_deck.Domain.Snapshot.input_share
    dav_deck.Domain.Snapshot.input_user dav_deck.Domain.Snapshot.new_snapshot
    dav_deck.Domain.Snapshot.snapshot_input dav_deck.Domain.Snapshot.snapshot_provider
    dav_deck.Domain.Snapshot.snapshot_share dav_deck.Domain.Snapshot.snapshot_user
    dav_deck.Domain.Snapshot.validate_snapshot dav_deck.Domain.State.hash_revision_state
    dav_deck.Domain.State.hash_revision_state_snapshot
    dav_deck.Domain.State.marshal_revision_snapshot dav_deck.Domain.State.parse_revision_snapshot
    dav_deck.Domain.State.state_identity dav_deck.Domain.State.state_permissions
    dav_deck.Domain.State.state_share dav_deck.Domain.Timestamp.new_timestamp
    dav_deck.Domain.Timestamp.validate_time_range dav_deck.Domain.Timestamp.validate_timestamp
    dav_deck.Domain.Tls.is_label_char dav_deck.Domain.Tls.strip_wildcard
    dav_deck.Domain.Tls.tls_challenge_valid dav_deck.Domain.Tls.tls_mode_valid
    dav_deck.Domain.Tls.valid_hostname dav_deck.Domain.Tls.valid_label
    dav_deck.Domain.Tls.validate_certificate_paths dav_deck.Domain.Tls.validate_dns_provider_id
    dav_deck.Domain.Tls.validate_tls_profile dav_deck.Domain.User.normalize_username
    dav_deck.Domain.User.validate_user dav_deck.Domain.Validation.contains_control
    dav_deck.Storage.Database.statement dav_deck.Storage.Database.transaction
    dav_deck.Storage.Database.write dav_deck.Storage.Restore.replace_tables
    dav_deck.Storage.Restore.restore_rows dav_deck.Storage.Restore.restore_state
    dav_deck.Storage.Restore.upsert_provider dav_deck.Storage.Revisions.activate_rows
    dav_deck.Storage.Revisions.active_revision dav_deck.Storage.Revisions.create
    dav_deck.Storage.Revisions.delete dav_deck.Storage.Revisions.delete_row
    dav_deck.Storage.Revisions.find_by_identity dav_deck.Storage.Revisions.get_revision
    dav_deck.Storage.Revisions.insert_revision dav_deck.Storage.Revisions.joined_number
    dav_deck.Storage.Revisions.list_revisions dav_deck.Storage.Revisions.mark_applied
    dav_deck.Storage.Revisions.mark_failed dav_deck.Storage.Revisions.query_row
    dav_deck.Storage.Revisions.same_revision dav_deck.Storage.Revisions.scan_revision
    dav_deck.Storage.Revisions.scan_revisions dav_deck.Storage.Revisions.set_desired
    dav_deck.Storage.Revisions.state dav_deck.Storage.Revisions.state_of
    dav_deck.Storage.Revisions.stored_state_hash dav_deck.Storage.Rows.scan_all
    dav_deck.Storage.Snapshots.snapshot
restore_replaces_tables_example =
    restore_replaces_tables ⦃tables = ascii_tables⦄ ⦃digest = constant_digest⦄
      ⦃codec = constant_codec⦄ sample_input first_id day sample_store refl
