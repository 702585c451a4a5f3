-- ===== src/App/Activation.antt =====
-- `activate` and `activateStart` of core/internal/app/apply_service.go: how a configuration reaches
-- the runtime.
pub mod Views
use dav_deck.Common.{String, Bool, true, false, not, [], ◌∷◌, Result, ok, err, if◌then◌else◌}
use dav_deck.Common.Exec.{Exec, pure, raise, fail_if, attempt, map_error, ◌>>=◌, ◌>>◌}
use dav_deck.Domain.Revision.{Bytes}
use dav_deck.App.Errors.{
  runtime_failure, Error, ErrorCode, RuntimeFailure, RuntimeErrorCode, runtime_error, failure,
  error_code, literal, safe_runtime_failure,
}
use dav_deck.App.World.{World, Collaborators, Environment, RuntimeStatus, is_running, on_runtime}
use dav_deck.App.Calls.{start_with_environment, status}

-- The states in which `activate` starts the runtime; in the others it reloads.
abbrev pub needs_start : RuntimeStatus → Bool
needs_start RuntimeStatus.stopped = true
needs_start RuntimeStatus.failed = true
needs_start RuntimeStatus.unknown = true
needs_start RuntimeStatus.not_installed = true
needs_start _ = false

module _ {R : Type 0} (c : Collaborators R) where
  -- After a failed start with the new environment, the previous configuration is started again
  -- where there is one, whatever comes of it.
  unfoldable pub start_or_fall_back :
      Bytes
      → Environment
      → Result RuntimeFailure (Unit {0})
      → Exec (World R) RuntimeFailure (Unit {0})
  start_or_fall_back previous previous_env (ok _) = pure tt
  start_or_fall_back [] previous_env (err e) = raise e
  start_or_fall_back (b ∷ previous) previous_env (err e) = do
    attempt (start_with_environment c (b ∷ previous) previous_env)
    raise e

  unfoldable pub restart_runtime :
      Bytes → Environment → Bytes → Environment → Exec (World R) RuntimeFailure (Unit {0})
  unfolding start_or_fall_back
  restart_runtime configuration env previous previous_env = do
    on_runtime c.stop
    started ← attempt (start_with_environment c configuration env)
    start_or_fall_back previous previous_env started

  unfoldable pub start_or_reload : Bytes → Environment → Exec (World R) RuntimeFailure (Unit {0})
  start_or_reload configuration env = do
    state ← status c
    if needs_start state
        then start_with_environment c configuration env
        else on_runtime (c.reload configuration)

  running_if : Bool → Exec (World R) RuntimeFailure Bool
  running_if true = do state ← status c; pure (is_running state)
  running_if false = pure false

  -- `activate`
  unfoldable pub activate :
      Bytes → Environment → Bool → Bytes → Environment → Exec (World R) RuntimeFailure (Unit {0})
  unfolding restart_runtime start_or_reload running_if
  activate configuration env restart previous previous_env = do
    running ← running_if restart
    if running
        then restart_runtime configuration env previous previous_env
        else start_or_reload configuration env

  -- `activate`, and the health check that follows it in `apply` and `Restore`.
  unfoldable pub activate_healthy :
      Bytes → Environment → Bool → Bytes → Environment → Exec (World R) RuntimeFailure (Unit {0})
  unfolding activate
  activate_healthy configuration env restart previous previous_env = do
    activate configuration env restart previous previous_env
    state ← status c
    fail_if (not (is_running state))
        (runtime_error RuntimeErrorCode.unhealthy (literal "Caddy runtime health check failed"))

  -- `activateStart`
  unfoldable pub activate_start : Bytes → Environment → Exec (World R) Error (Unit {0})
  activate_start configuration env = do
    map_error (runtime_failure RuntimeErrorCode.start_failed "Caddy could not start")
        (start_with_environment c configuration env)
    state ← status c
    fail_if (not (is_running state))
        (failure ErrorCode.runtime_unhealthy "Caddy runtime health check failed")
