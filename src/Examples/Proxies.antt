-- ===== src/Examples/Proxies.antt =====
-- The theorems about the generated configuration and the Caddy process at concrete inputs.
use dav_deck.Common.{false, true, ◌≡◌, refl, [], ◌∷◌, none, some, ok, err, all}
use dav_deck.Common.Text.{codes}
use dav_deck.Caddy.Config.{Encoder}
use dav_deck.Caddy.Compiler.{compile}
use dav_deck.Caddy.Compiler.Succeeds.{compile_succeeds}
use dav_deck.Caddy.Runtime.{
  Manager, Outside, watched, clean, deadline, canceled, reload, start_with_environment, stop,
}
use dav_deck.Caddy.Runtime.Crash.{reaped_manager, start_after_lost_exit}
use dav_deck.Caddy.Runtime.Stopped.{SaysStarted, SaysStopped, start-SaysStarted, stop-SaysStopped}
use dav_deck.App.Errors.{runtime_error, reload_failed}
use dav_deck.App.World.{CompiledConfig}
use dav_deck.Examples.Setup.{ascii_tables, constant_digest, sample_input}

abbrev sample_encoder : Encoder
sample_encoder = record {
  marshal_indent = λ c. codes "{}";
  itoa = λ n. codes "80";
  is_ip = λ host. false;
}

compile_succeeds_example :
    (compiled : CompiledConfig) × (compile ⦃tables = ascii_tables⦄ ⦃digest = constant_digest⦄
        sample_encoder sample_input
      ≡ ok compiled)
unfolding dav_deck.Common.Exec.pure dav_deck.Common.Exec.raise dav_deck.Common.Exec.lift
    dav_deck.Common.Exec.gets dav_deck.Common.Exec.modify dav_deck.Common.Exec.fail_if
    dav_deck.Common.Exec.attempt dav_deck.Common.Exec.map_error dav_deck.Common.Exec.◌>>=◌
    dav_deck.Common.Sorting.insert dav_deck.Common.Sorting.sort_slice dav_deck.Common.Text.text_eq
    dav_deck.Common.Text.text_lt dav_deck.Common.Text.utf8_rune dav_deck.Common.Text.utf8
    dav_deck.Common.Text.byte_length dav_deck.Common.Text.is_control dav_deck.Common.Text.is_space
    dav_deck.Common.Text.trim_left dav_deck.Common.Text.trim_space dav_deck.Common.Text.has_prefix
    dav_deck.Common.Text.has_suffix dav_deck.Common.Text.trim_suffix_slash
    dav_deck.Common.Text.contains_any dav_deck.Common.Text.split_from dav_deck.Common.Text.split
    dav_deck.Common.Text.join dav_deck.Common.Text.to_lower
    dav_deck.Domain.Dns.dns_provider_type_valid dav_deck.Domain.Dns.valid_dns_zone
    dav_deck.Domain.Dns.validate_zones dav_deck.Domain.Dns.validate_dns_provider_credential
    dav_deck.Domain.Id.validate_id dav_deck.Domain.Id.parse_id
    dav_deck.Domain.Input.validate_providers dav_deck.Domain.Input.validate_users
    dav_deck.Domain.Input.validate_permissions dav_deck.Domain.Input.validate_shares
    dav_deck.Domain.Input.validate_profile dav_deck.Domain.Input.validate_reference
    dav_deck.Domain.Input.validate_input dav_deck.Domain.Path.clean_up
    dav_deck.Domain.Path.clean_step dav_deck.Domain.Path.clean_from dav_deck.Domain.Path.clean
    dav_deck.Domain.Path.is_ascii_letter dav_deck.Domain.Path.replace_backslashes
    dav_deck.Domain.Path.is_drive_path dav_deck.Domain.Path.is_absolute_path
    dav_deck.Domain.Revision.validation_status_valid dav_deck.Domain.Revision.apply_status_valid
    dav_deck.Domain.Revision.valid_sha256 dav_deck.Domain.Revision.validate_revision
    dav_deck.Domain.Settings.runtime_mode_valid dav_deck.Domain.Settings.valid_public_base_path
    dav_deck.Domain.Settings.valid_port dav_deck.Domain.Settings.validate_server_settings
    dav_deck.Domain.Share.is_slug_char dav_deck.Domain.Share.slug_from
    dav_deck.Domain.Share.matches_share_slug dav_deck.Domain.Share.permission_valid
    dav_deck.Domain.Share.validate_share dav_deck.Domain.Share.validate_share_permission
    dav_deck.Domain.Snapshot.snapshot_user dav_deck.Domain.Snapshot.snapshot_share
    dav_deck.Domain.Snapshot.snapshot_provider dav_deck.Domain.Snapshot.new_snapshot
    dav_deck.Domain.Snapshot.input_user dav_deck.Domain.Snapshot.input_share
    dav_deck.Domain.Snapshot.snapshot_input dav_deck.Domain.Snapshot.validate_snapshot
    dav_deck.Domain.State.state_permissions dav_deck.Domain.State.state_share
    dav_deck.Domain.State.state_identity dav_deck.Domain.State.marshal_revision_snapshot
    dav_deck.Domain.State.hash_revision_state dav_deck.Domain.State.parse_revision_snapshot
    dav_deck.Domain.State.hash_revision_state_snapshot dav_deck.Domain.Timestamp.new_timestamp
    dav_deck.Domain.Timestamp.validate_timestamp dav_deck.Domain.Timestamp.validate_time_range
    dav_deck.Domain.Tls.tls_challenge_valid dav_deck.Domain.Tls.tls_mode_valid
    dav_deck.Domain.Tls.is_label_char dav_deck.Domain.Tls.valid_label
    dav_deck.Domain.Tls.strip_wildcard dav_deck.Domain.Tls.valid_hostname
    dav_deck.Domain.Tls.validate_dns_provider_id dav_deck.Domain.Tls.validate_certificate_paths
    dav_deck.Domain.Tls.validate_tls_profile dav_deck.Domain.User.normalize_username
    dav_deck.Domain.User.validate_user dav_deck.Domain.Validation.contains_control
compile_succeeds_example =
    compile_succeeds ⦃tables = ascii_tables⦄ ⦃digest = constant_digest⦄ sample_encoder sample_input
      refl

-- A Caddy that has exited, and whose admin endpoint answers nothing.
abbrev dead_caddy : Outside (Unit {0})
dead_caddy = record {
  validate = λ body r. (ok tt, r);
  validate_with_environment = none;
  write_config = λ body r. (ok tt, r);
  spawn = λ env r. (ok tt, r);
  kill = λ r. r;
  health = λ r. (err tt, r);
  admin_reload = λ body r. (err tt, r);
  admin_stop = λ r. (err tt, r);
  exit_value = λ r. (some clean, r);
  start_wake = λ r. (deadline, r);
  stop_wake = λ r. (canceled, r);
  is_canceled = λ r. (true, r);
  cancel_renewals = λ r. r;
}

abbrev idle_manager : Manager (Unit {0})
idle_manager = record { command = none; last_error_code = none; environment = []; outside = tt }

start-SaysStarted_example :
    SaysStarted dead_caddy [] (start_with_environment dead_caddy (codes "{}") [] idle_manager)
start-SaysStarted_example = start-SaysStarted dead_caddy [] (codes "{}") idle_manager refl

stop-SaysStopped_example : SaysStopped dead_caddy (stop dead_caddy idle_manager)
stop-SaysStopped_example = stop-SaysStopped dead_caddy idle_manager

start_after_lost_exit_example :
    (reload dead_caddy (codes "{}") (record idle_manager { command = some watched }) ≡ (
      err (runtime_error reload_failed (codes "Caddy is not running")),
      reaped_manager dead_caddy idle_manager tt,
    ))
    × (start_with_environment dead_caddy
          (codes "{}")
          []
          (reload dead_caddy (codes "{}") (record idle_manager { command = some watched })).1
        ≡ (
          ok tt,
          (reload dead_caddy (codes "{}") (record idle_manager { command = some watched })).1,
        ))
start_after_lost_exit_example =
    start_after_lost_exit dead_caddy idle_manager clean tt (codes "{}") (codes "{}") [] refl
