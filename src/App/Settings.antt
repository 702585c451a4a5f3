-- ===== src/App/Settings.antt =====
-- core/internal/app/settings_service.go, over the repository of core/internal/storage/settings_repository.go.
-- The text of the error of a port leaves out its number.
use dav_deck.Common.{ℕ, ◌||◌, ◌==◌, wrap, if◌then◌else◌}
use dav_deck.Common.Text.{CaseTables}
use dav_deck.Common.Exec.{Exec, pure, lift, ◌>>=◌, ◌>>◌}
use dav_deck.Domain.Settings.{ServerSettings, validate_server_settings}
use dav_deck.App.Errors.{ErrorCode, Error, failure, literal}
use dav_deck.App.World.{World}
use dav_deck.App.Sources.{Sources, map_settings_error, call, call_at, outside, stamp}
use dav_deck.Storage.Settings

module _ ⦃tables : CaseTables⦄ {R : Type 0} (sources : Sources R) where
  -- `Get`
  unfoldable pub get : Exec (World R) Error ServerSettings
  unfolding call map_settings_error
  get = call map_settings_error Settings.get

  -- The body of the loop over the two ports.
  unfoldable pub check_port : ServerSettings → ℕ → Exec (World R) Error (Unit {0})
  unfolding outside literal pure
  check_port current port =
      if port == current.http_port || port == current.https_port
      then pure tt
      else outside (failure ErrorCode.server_port_unavailable "Port is unavailable")
          (sources.check_port port)

  abbrev pub with_new_ports : ℕ → ℕ → ServerSettings → ServerSettings
  with_new_ports http_port https_port s = record s {
    http_port = http_port;
    https_port = https_port;
  }

  -- `UpdatePorts`
  unfoldable pub update_ports : ℕ → ℕ → Exec (World R) Error ServerSettings
  unfolding get check_port stamp call_at map_settings_error lift literal ◌>>=◌
  update_ports http_port https_port = do
    current ← get
    lift (
        wrap (λ _. failure ErrorCode.invalid_server_ports "Server ports are invalid")
          (validate_server_settings (with_new_ports http_port https_port current)))
    check_port current http_port
    check_port current https_port
    updated ← stamp sources
    call_at sources map_settings_error
        (λ now. Settings.update_ports now http_port https_port updated)
