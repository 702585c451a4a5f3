-- ===== src/Caddy/Runtime/Crash.antt =====
-- `runningLocked` of core/internal/caddy/runtime.go after Caddy has exited by itself.
use dav_deck.Common.{◌≡◌, refl, some, ok, err}
use dav_deck.Common.Exec.{◌>>=◌, modify, raise, pure}
use dav_deck.Common.Text.{codes}
use dav_deck.Domain.Revision.{Bytes}
use dav_deck.App.Errors.{runtime_error, reload_failed}
use dav_deck.App.World.{Environment}
use dav_deck.Caddy.Runtime.{
  Manager, Outside, ExitStatus, watched, reaped, reload, start_with_environment, running_locked,
  query, cancel_renewals, recorded,
}

module _ {R : Type 0} (o : Outside R) where
  -- The manager whose process has exited and whose channel has been read.
  abbrev pub reaped_manager : Manager R → R → Manager R
  reaped_manager m outside = record m {
    command = some reaped;
    last_error_code = some reload_failed;
    outside = outside;
  }

  reload_after_exit :
      (m : Manager R) (e : ExitStatus) (outside : R) (configuration : Bytes)
      → o.exit_value (o.cancel_renewals m.outside) ≡ (some e, outside)
      → reload o configuration (record m { command = some watched }) ≡ (
        err (runtime_error reload_failed (codes "Caddy is not running")),
        reaped_manager m outside,
      )
  unfolding reload cancel_renewals running_locked query recorded raise modify ◌>>=◌
  reload_after_exit m e outside configuration exited = rw exited refl

  start_when_reaped :
      (m : Manager R) (outside : R) (configuration : Bytes) (env : Environment)
      → start_with_environment o configuration env (reaped_manager m outside)
        ≡ (ok tt, reaped_manager m outside)
  unfolding start_with_environment running_locked query pure ◌>>=◌
  start_when_reaped m outside configuration env = refl

  -- Where Caddy has exited by itself and `Reload` is the first to notice, `Reload` fails, and every
  -- `Start` after it returns without an error, starts nothing and changes nothing.
  pub start_after_lost_exit :
      (m : Manager R) (e : ExitStatus) (outside : R) (reloaded started : Bytes) (env : Environment)
      → o.exit_value (o.cancel_renewals m.outside) ≡ (some e, outside)
      → (reload o reloaded (record m { command = some watched }) ≡ (
        err (runtime_error reload_failed (codes "Caddy is not running")),
        reaped_manager m outside,
      ))
        × (start_with_environment o started env
              (reload o reloaded (record m { command = some watched })).1
            ≡ (ok tt, (reload o reloaded (record m { command = some watched })).1))
  start_after_lost_exit m e outside reloaded started env exited =
      rw (reload_after_exit m e outside reloaded exited)
        (refl, start_when_reaped m outside started env)
