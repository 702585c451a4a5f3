-- ===== src/Examples/Services.antt =====
-- The theorems about the services and the repositories of users, shares and permissions at concrete inputs.
use dav_deck.Common.{◌≡◌, refl, [], ◌∷◌, some, none, ok, true, if◌then◌else◌}
use dav_deck.Common.Text.{codes}
use dav_deck.Domain.User.{User}
use dav_deck.App.World.{World}
use dav_deck.Domain.Share.{Permission}
use dav_deck.Storage.Database.{Store}
use dav_deck.Storage.Permissions
use dav_deck.Storage.Permissions.{has_key}
use dav_deck.Storage.Sound.{IsSound}
use dav_deck.Storage.Sound.Lookup.{stored_permission, set-stored_permission}
use dav_deck.Storage.Sound.Operations.{perform, delete_user, operations-IsSound}
use dav_deck.App.World.{World}
use dav_deck.App.Sources.{Sources}
use dav_deck.App.Marked.{MarksStored, changes_are_marked}
use dav_deck.App.Users
use dav_deck.App.Users.Fetched.{get-create}
use dav_deck.App.Users.Created.{IsCreated, create-IsCreated}
use dav_deck.App.Shares
use dav_deck.App.Shares.{ShareUpdate}
use dav_deck.App.Permissions as PermissionService
use dav_deck.App.Settings
use dav_deck.Examples.Setup.{
  ascii_tables, sample_world, sample_store, sample_database, sample_user, sample_share,
  sample_permission, day, first_id, second_id,
}

abbrev steady : Sources (Unit {0})
steady = record {
  now = λ r. (day, r);
  trigger_time = λ r. (day, r);
  new_id = λ r. (ok second_id, r);
  hash = λ password r. (ok (codes "$2a$10$abcdefghijklmnopqrstuv"), r);
  validate_share_path = λ path r. (ok tt, r);
  check_port = λ port r. (ok tt, r);
}

-- One user with a permission of one share.
abbrev shared_store : Store
shared_store = record sample_store {
  db = record sample_database {
    tables = record sample_database.tables {
      users = sample_user ∷ [];
      shares = sample_share ∷ [];
      share_permissions = sample_permission ∷ [];
    };
  };
}

operations-IsSound_example : IsSound (perform day (delete_user first_id) shared_store).1.db
unfolding dav_deck.Common.Exec.pure dav_deck.Common.Exec.raise dav_deck.Common.Exec.lift
    dav_deck.Common.Exec.gets dav_deck.Common.Exec.modify dav_deck.Common.Exec.fail_if
    dav_deck.Common.Exec.attempt dav_deck.Common.Exec.map_error dav_deck.Common.Exec.◌>>=◌
    dav_deck.Common.Text.text_eq dav_deck.Common.Text.text_lt dav_deck.Common.Text.utf8_rune
    dav_deck.Common.Text.utf8 dav_deck.Common.Text.byte_length dav_deck.Common.Text.is_control
    dav_deck.Common.Text.is_space dav_deck.Common.Text.trim_left dav_deck.Common.Text.trim_space
    dav_deck.Common.Text.has_prefix dav_deck.Common.Text.has_suffix
    dav_deck.Common.Text.trim_suffix_slash dav_deck.Common.Text.contains_any
    dav_deck.Common.Text.split_from dav_deck.Common.Text.split dav_deck.Common.Text.join
    dav_deck.Common.Text.to_lower dav_deck.Domain.Share.is_slug_char dav_deck.Domain.Share.slug_from
    dav_deck.Domain.Share.matches_share_slug dav_deck.Domain.Share.permission_valid
    dav_deck.Domain.Share.validate_share dav_deck.Domain.Share.validate_share_permission
    dav_deck.Storage.Database.statement dav_deck.Storage.Database.write
    dav_deck.Storage.Database.transaction dav_deck.Storage.Permissions.list_by_share
    dav_deck.Storage.Permissions.list_by_user dav_deck.Storage.Permissions.list_all
    dav_deck.Storage.Permissions.upsert dav_deck.Storage.Permissions.set
    dav_deck.Storage.Permissions.delete dav_deck.Storage.Rows.scan_all dav_deck.Storage.Rows.scanned
    dav_deck.Storage.Rows.rows_where dav_deck.Storage.Rows.update_where
    dav_deck.Storage.Rows.delete_where dav_deck.Storage.Rows.scan_user
    dav_deck.Storage.Rows.scan_share dav_deck.Storage.Rows.scan_permission
    dav_deck.Storage.Rows.scan_settings dav_deck.Storage.Rows.scan_tls_profile
    dav_deck.Storage.Rows.scan_dns_provider dav_deck.Storage.Shares.without_share
    dav_deck.Storage.Shares.found dav_deck.Storage.Shares.list dav_deck.Storage.Shares.get
    dav_deck.Storage.Shares.create dav_deck.Storage.Shares.update dav_deck.Storage.Shares.delete
    dav_deck.Storage.Users.without_user dav_deck.Storage.Users.found dav_deck.Storage.Users.list
    dav_deck.Storage.Users.get dav_deck.Storage.Users.create dav_deck.Storage.Users.delete
    dav_deck.Storage.Users.update_user dav_deck.Storage.Users.set_enabled
    dav_deck.Storage.Users.set_password_hash
operations-IsSound_example =
    operations-IsSound day (delete_user first_id) shared_store
      (record {
        user_ids = refl;
        usernames = refl;
        share_ids = refl;
        share_slugs = refl;
        references = refl;
        permission_keys = refl;
      })
      refl

set-stored_permission_example :
    stored_permission second_id first_id
      (Permissions.set day
        (record sample_permission { permission = Permission.read })
        shared_store).1.db.tables.share_permissions
    ≡ some Permission.read
unfolding dav_deck.Common.Exec.pure dav_deck.Common.Exec.raise dav_deck.Common.Exec.lift
    dav_deck.Common.Exec.gets dav_deck.Common.Exec.modify dav_deck.Common.Exec.fail_if
    dav_deck.Common.Exec.attempt dav_deck.Common.Exec.map_error dav_deck.Common.Exec.◌>>=◌
    dav_deck.Common.Text.text_eq dav_deck.Common.Text.text_lt dav_deck.Common.Text.utf8_rune
    dav_deck.Common.Text.utf8 dav_deck.Common.Text.byte_length dav_deck.Common.Text.is_control
    dav_deck.Common.Text.is_space dav_deck.Common.Text.trim_left dav_deck.Common.Text.trim_space
    dav_deck.Common.Text.has_prefix dav_deck.Common.Text.has_suffix
    dav_deck.Common.Text.trim_suffix_slash dav_deck.Common.Text.contains_any
    dav_deck.Common.Text.split_from dav_deck.Common.Text.split dav_deck.Common.Text.join
    dav_deck.Common.Text.to_lower dav_deck.Domain.Share.is_slug_char dav_deck.Domain.Share.slug_from
    dav_deck.Domain.Share.matches_share_slug dav_deck.Domain.Share.permission_valid
    dav_deck.Domain.Share.validate_share dav_deck.Domain.Share.validate_share_permission
    dav_deck.Storage.Database.statement dav_deck.Storage.Database.write
    dav_deck.Storage.Database.transaction dav_deck.Storage.Permissions.list_by_share
    dav_deck.Storage.Permissions.list_by_user dav_deck.Storage.Permissions.list_all
    dav_deck.Storage.Permissions.upsert dav_deck.Storage.Permissions.set
    dav_deck.Storage.Permissions.delete dav_deck.Storage.Rows.scan_all dav_deck.Storage.Rows.scanned
    dav_deck.Storage.Rows.rows_where dav_deck.Storage.Rows.update_where
    dav_deck.Storage.Rows.delete_where dav_deck.Storage.Rows.scan_user
    dav_deck.Storage.Rows.scan_share dav_deck.Storage.Rows.scan_permission
    dav_deck.Storage.Rows.scan_settings dav_deck.Storage.Rows.scan_tls_profile
    dav_deck.Storage.Rows.scan_dns_provider dav_deck.Storage.Shares.without_share
    dav_deck.Storage.Shares.found dav_deck.Storage.Shares.list dav_deck.Storage.Shares.get
    dav_deck.Storage.Shares.create dav_deck.Storage.Shares.update dav_deck.Storage.Shares.delete
    dav_deck.Storage.Users.without_user dav_deck.Storage.Users.found dav_deck.Storage.Users.list
    dav_deck.Storage.Users.get dav_deck.Storage.Users.create dav_deck.Storage.Users.delete
    dav_deck.Storage.Users.update_user dav_deck.Storage.Users.set_enabled
    dav_deck.Storage.Users.set_password_hash
set-stored_permission_example =
    set-stored_permission day (record sample_permission { permission = Permission.read }) second_id
      first_id shared_store refl

abbrev bob : User
bob =
    Users.new_user ⦃tables = ascii_tables⦄ second_id (codes "Bob")
      (codes "$2a$10$abcdefghijklmnopqrstuv") day

abbrev with_bob : World (Unit {0})
with_bob =
    (Users.create ⦃tables = ascii_tables⦄ steady (codes "Bob") (codes "correct horse")
      sample_world).1

create-IsCreated_example :
    IsCreated ⦃tables = ascii_tables⦄
      (codes "Bob")
      (codes "correct horse")
      sample_world.store.db
      bob
      with_bob.store.db
unfolding dav_deck.Common.Exec.pure dav_deck.Common.Exec.raise dav_deck.Common.Exec.lift
    dav_deck.Common.Exec.gets dav_deck.Common.Exec.modify dav_deck.Common.Exec.fail_if
    dav_deck.Common.Exec.attempt dav_deck.Common.Exec.map_error dav_deck.Common.Exec.◌>>=◌
    dav_deck.Common.Sorting.insert dav_deck.Common.Sorting.sort_slice dav_deck.Common.Text.text_eq
    dav_deck.Common.Text.text_lt dav_deck.Common.Text.utf8_rune dav_deck.Common.Text.utf8
    dav_deck.Common.Text.byte_length dav_deck.Common.Text.is_control dav_deck.Common.Text.is_space
    dav_deck.Common.Text.trim_left dav_deck.Common.Text.trim_space dav_deck.Common.Text.has_prefix
    dav_deck.Common.Text.has_suffix dav_deck.Common.Text.trim_suffix_slash
    dav_deck.Common.Text.contains_any dav_deck.Common.Text.split_from dav_deck.Common.Text.split
    dav_deck.Common.Text.join dav_deck.Common.Text.to_lower
    dav_deck.Domain.Dns.dns_provider_type_valid dav_deck.Domain.Dns.valid_dns_zone
    dav_deck.Domain.Dns.validate_zones dav_deck.Domain.Dns.validate_dns_provider_credential
    dav_deck.Domain.Id.validate_id dav_deck.Domain.Id.parse_id
    dav_deck.Domain.Input.validate_providers dav_deck.Domain.Input.validate_users
    dav_deck.Domain.Input.validate_permissions dav_deck.Domain.Input.validate_shares
    dav_deck.Domain.Input.validate_profile dav_deck.Domain.Input.validate_reference
    dav_deck.Domain.Input.validate_input dav_deck.Domain.Path.clean_up
    dav_deck.Domain.Path.clean_step dav_deck.Domain.Path.clean_from dav_deck.Domain.Path.clean
    dav_deck.Domain.Path.is_ascii_letter dav_deck.Domain.Path.replace_backslashes
    dav_deck.Domain.Path.is_drive_path dav_deck.Domain.Path.is_absolute_path
    dav_deck.Domain.Revision.validation_status_valid dav_deck.Domain.Revision.apply_status_valid
    dav_deck.Domain.Revision.valid_sha256 dav_deck.Domain.Revision.validate_revision
    dav_deck.Domain.Settings.runtime_mode_valid dav_deck.Domain.Settings.valid_public_base_path
    dav_deck.Domain.Settings.valid_port dav_deck.Domain.Settings.validate_server_settings
    dav_deck.Domain.Share.is_slug_char dav_deck.Domain.Share.slug_from
    dav_deck.Domain.Share.matches_share_slug dav_deck.Domain.Share.permission_valid
    dav_deck.Domain.Share.validate_share dav_deck.Domain.Share.validate_share_permission
    dav_deck.Domain.Snapshot.snapshot_user dav_deck.Domain.Snapshot.snapshot_share
    dav_deck.Domain.Snapshot.snapshot_provider dav_deck.Domain.Snapshot.new_snapshot
    dav_deck.Domain.Snapshot.input_user dav_deck.Domain.Snapshot.input_share
    dav_deck.Domain.Snapshot.snapshot_input dav_deck.Domain.Snapshot.validate_snapshot
    dav_deck.Domain.State.state_permissions dav_deck.Domain.State.state_share
    dav_deck.Domain.State.state_identity dav_deck.Domain.State.marshal_revision_snapshot
    dav_deck.Domain.State.hash_revision_state dav_deck.Domain.State.parse_revision_snapshot
    dav_deck.Domain.State.hash_revision_state_snapshot dav_deck.Domain.Timestamp.new_timestamp
    dav_deck.Domain.Timestamp.validate_timestamp dav_deck.Domain.Timestamp.validate_time_range
    dav_deck.Domain.Tls.tls_challenge_valid dav_deck.Domain.Tls.tls_mode_valid
    dav_deck.Domain.Tls.is_label_char dav_deck.Domain.Tls.valid_label
    dav_deck.Domain.Tls.strip_wildcard dav_deck.Domain.Tls.valid_hostname
    dav_deck.Domain.Tls.validate_dns_provider_id dav_deck.Domain.Tls.validate_certificate_paths
    dav_deck.Domain.Tls.validate_tls_profile dav_deck.Domain.User.normalize_username
    dav_deck.Domain.User.validate_user dav_deck.Domain.Validation.contains_control
    dav_deck.App.Errors.literal dav_deck.App.Errors.error_code dav_deck.App.Errors.code_text
    dav_deck.App.Errors.drop_line_controls dav_deck.App.Errors.safe_summary
    dav_deck.App.Errors.safe_runtime_failure dav_deck.App.Errors.runtime_failure
    dav_deck.App.Sources.map_user_error dav_deck.App.Sources.map_share_error
    dav_deck.App.Sources.map_path_error dav_deck.App.Sources.map_settings_error
    dav_deck.App.Sources.call dav_deck.App.Sources.outside dav_deck.App.Sources.call_at
    dav_deck.App.Sources.stamp dav_deck.App.Users.validate_password dav_deck.App.Users.list
    dav_deck.App.Users.get dav_deck.App.Users.create dav_deck.App.Users.delete
    dav_deck.App.Users.write_enabled dav_deck.App.Users.set_enabled
    dav_deck.App.Users.change_password dav_deck.App.World.on_store dav_deck.App.World.on_runtime
    dav_deck.App.World.ask dav_deck.App.World.database dav_deck.Storage.Database.statement
    dav_deck.Storage.Database.write dav_deck.Storage.Database.transaction
    dav_deck.Storage.Users.without_user dav_deck.Storage.Users.found dav_deck.Storage.Users.list
    dav_deck.Storage.Users.get dav_deck.Storage.Users.create dav_deck.Storage.Users.delete
    dav_deck.Storage.Users.update_user dav_deck.Storage.Users.set_enabled
    dav_deck.Storage.Users.set_password_hash
create-IsCreated_example =
    create-IsCreated ⦃tables = ascii_tables⦄ steady (codes "Bob") (codes "correct horse")
      sample_world bob refl

get-create_example : (Users.get ⦃tables = ascii_tables⦄ steady second_id with_bob).0 ≡ ok bob
unfolding dav_deck.Common.Exec.pure dav_deck.Common.Exec.raise dav_deck.Common.Exec.lift
    dav_deck.Common.Exec.gets dav_deck.Common.Exec.modify dav_deck.Common.Exec.fail_if
    dav_deck.Common.Exec.attempt dav_deck.Common.Exec.map_error dav_deck.Common.Exec.◌>>=◌
    dav_deck.Common.Sorting.insert dav_deck.Common.Sorting.sort_slice dav_deck.Common.Text.text_eq
    dav_deck.Common.Text.text_lt dav_deck.Common.Text.utf8_rune dav_deck.Common.Text.utf8
    dav_deck.Common.Text.byte_length dav_deck.Common.Text.is_control dav_deck.Common.Text.is_space
    dav_deck.Common.Text.trim_left dav_deck.Common.Text.trim_space dav_deck.Common.Text.has_prefix
    dav_deck.Common.Text.has_suffix dav_deck.Common.Text.trim_suffix_slash
    dav_deck.Common.Text.contains_any dav_deck.Common.Text.split_from dav_deck.Common.Text.split
    dav_deck.Common.Text.join dav_deck.Common.Text.to_lower
    dav_deck.Domain.Dns.dns_provider_type_valid dav_deck.Domain.Dns.valid_dns_zone
    dav_deck.Domain.Dns.validate_zones dav_deck.Domain.Dns.validate_dns_provider_credential
    dav_deck.Domain.Id.validate_id dav_deck.Domain.Id.parse_id
    dav_deck.Domain.Input.validate_providers dav_deck.Domain.Input.validate_users
    dav_deck.Domain.Input.validate_permissions dav_deck.Domain.Input.validate_shares
    dav_deck.Domain.Input.validate_profile dav_deck.Domain.Input.validate_reference
    dav_deck.Domain.Input.validate_input dav_deck.Domain.Path.clean_up
    dav_deck.Domain.Path.clean_step dav_deck.Domain.Path.clean_from dav_deck.Domain.Path.clean
    dav_deck.Domain.Path.is_ascii_letter dav_deck.Domain.Path.replace_backslashes
    dav_deck.Domain.Path.is_drive_path dav_deck.Domain.Path.is_absolute_path
    dav_deck.Domain.Revision.validation_status_valid dav_deck.Domain.Revision.apply_status_valid
    dav_deck.Domain.Revision.valid_sha256 dav_deck.Domain.Revision.validate_revision
    dav_deck.Domain.Settings.runtime_mode_valid dav_deck.Domain.Settings.valid_public_base_path
    dav_deck.Domain.Settings.valid_port dav_deck.Domain.Settings.validate_server_settings
    dav_deck.Domain.Share.is_slug_char dav_deck.Domain.Share.slug_from
    dav_deck.Domain.Share.matches_share_slug dav_deck.Domain.Share.permission_valid
    dav_deck.Domain.Share.validate_share dav_deck.Domain.Share.validate_share_permission
    dav_deck.Domain.Snapshot.snapshot_user dav_deck.Domain.Snapshot.snapshot_share
    dav_deck.Domain.Snapshot.snapshot_provider dav_deck.Domain.Snapshot.new_snapshot
    dav_deck.Domain.Snapshot.input_user dav_deck.Domain.Snapshot.input_share
    dav_deck.Domain.Snapshot.snapshot_input dav_deck.Domain.Snapshot.validate_snapshot
    dav_deck.Domain.State.state_permissions dav_deck.Domain.State.state_share
    dav_deck.Domain.State.state_identity dav_deck.Domain.State.marshal_revision_snapshot
    dav_deck.Domain.State.hash_revision_state dav_deck.Domain.State.parse_revision_snapshot
    dav_deck.Domain.State.hash_revision_state_snapshot dav_deck.Domain.Timestamp.new_timestamp
    dav_deck.Domain.Timestamp.validate_timestamp dav_deck.Domain.Timestamp.validate_time_range
    dav_deck.Domain.Tls.tls_challenge_valid dav_deck.Domain.Tls.tls_mode_valid
    dav_deck.Domain.Tls.is_label_char dav_deck.Domain.Tls.valid_label
    dav_deck.Domain.Tls.strip_wildcard dav_deck.Domain.Tls.valid_hostname
    dav_deck.Domain.Tls.validate_dns_provider_id dav_deck.Domain.Tls.validate_certificate_paths
    dav_deck.Domain.Tls.validate_tls_profile dav_deck.Domain.User.normalize_username
    dav_deck.Domain.User.validate_user dav_deck.Domain.Validation.contains_control
    dav_deck.App.Errors.literal dav_deck.App.Errors.error_code dav_deck.App.Errors.code_text
    dav_deck.App.Errors.drop_line_controls dav_deck.App.Errors.safe_summary
    dav_deck.App.Errors.safe_runtime_failure dav_deck.App.Errors.runtime_failure
    dav_deck.App.Sources.map_user_error dav_deck.App.Sources.map_share_error
    dav_deck.App.Sources.map_path_error dav_deck.App.Sources.map_settings_error
    dav_deck.App.Sources.call dav_deck.App.Sources.outside dav_deck.App.Sources.call_at
    dav_deck.App.Sources.stamp dav_deck.App.Users.validate_password dav_deck.App.Users.list
    dav_deck.App.Users.get dav_deck.App.Users.create dav_deck.App.Users.delete
    dav_deck.App.Users.write_enabled dav_deck.App.Users.set_enabled
    dav_deck.App.Users.change_password dav_deck.App.World.on_store dav_deck.App.World.on_runtime
    dav_deck.App.World.ask dav_deck.App.World.database dav_deck.Storage.Database.statement
    dav_deck.Storage.Database.write dav_deck.Storage.Database.transaction
    dav_deck.Storage.Users.without_user dav_deck.Storage.Users.found dav_deck.Storage.Users.list
    dav_deck.Storage.Users.get dav_deck.Storage.Users.create dav_deck.Storage.Users.delete
    dav_deck.Storage.Users.update_user dav_deck.Storage.Users.set_enabled
    dav_deck.Storage.Users.set_password_hash
get-create_example =
    get-create ⦃tables = ascii_tables⦄ steady (codes "Bob") (codes "correct horse") sample_world bob
      refl refl

abbrev renamed : ShareUpdate
renamed = record { name = some (codes "papers"); slug = none; path = none; enabled = none }

changes_are_marked_example :
    MarksStored (Users.create ⦃tables = ascii_tables⦄ steady (codes "Bob") (codes "correct horse"))
    × MarksStored (Users.delete ⦃tables = ascii_tables⦄ steady first_id)
    × MarksStored (Users.set_enabled ⦃tables = ascii_tables⦄ steady first_id true)
    × MarksStored
        (Users.change_password ⦃tables = ascii_tables⦄ steady first_id (codes "correct horse"))
    × MarksStored (
        Shares.create ⦃tables = ascii_tables⦄ steady
          (codes "docs")
          (codes "my-docs")
          (codes "/srv"))
    × MarksStored (Shares.update ⦃tables = ascii_tables⦄ steady first_id renamed)
    × MarksStored (Shares.delete ⦃tables = ascii_tables⦄ steady first_id)
    × MarksStored
        (PermissionService.set ⦃tables = ascii_tables⦄ steady first_id second_id Permission.read)
    × MarksStored (Settings.update_ports ⦃tables = ascii_tables⦄ steady 8080 8443)
changes_are_marked_example =
    changes_are_marked ⦃tables = ascii_tables⦄ steady (codes "Bob") (codes "correct horse")
      (codes "docs") (codes "my-docs") (codes "/srv") first_id second_id true renamed
      Permission.read 8080 8443
