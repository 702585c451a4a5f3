-- ===== src/App/Activation/Views.antt =====
-- The activations of core/internal/app/apply_service.go and views of the database.
use dav_deck.Common.{[], ◌∷◌, Bool, true, false, Result, ok, err}
use dav_deck.Common.Exec.Keeps.{
  Keeps, Keeps-pure, Keeps-raise, Keeps-bind, Keeps-attempt, keeps_rules,
}
use dav_deck.Domain.Revision.{Bytes}
use dav_deck.Storage.Database.{Store}
use dav_deck.App.World.{Collaborators, Environment}
use dav_deck.App.World.Views.{of_world, Keeps-on_runtime}
use dav_deck.App.Errors.{RuntimeFailure}
use dav_deck.App.Calls.Views.{Keeps-start_with_environment, Keeps-status}
use dav_deck.App.Activation.{
  start_or_fall_back, restart_runtime, start_or_reload, running_if, activate, activate_healthy,
  activate_start,
}

module _ {R B : Type 0} (view : Store → B) (c : Collaborators R) where
  ruleset call_rules = (keeps_rules, Keeps-on_runtime, Keeps-start_with_environment, Keeps-status)

  Keeps-start_or_fall_back :
      (previous : Bytes) (previous_env : Environment) (started : Result RuntimeFailure (Unit {0}))
      → Keeps (of_world view) (start_or_fall_back c previous previous_env started)
  unfolding start_or_fall_back
  Keeps-start_or_fall_back previous previous_env (ok _) = Keeps-pure tt
  Keeps-start_or_fall_back [] previous_env (err e) = Keeps-raise e
  Keeps-start_or_fall_back (b ∷ previous) previous_env (err e) =
      Keeps-bind _ _
        (Keeps-attempt _ (Keeps-start_with_environment view c (b ∷ previous) previous_env))
        λ _. Keeps-raise e

  Keeps-restart_runtime :
      (configuration : Bytes) (env : Environment) (previous : Bytes) (previous_env : Environment)
      → Keeps (of_world view) (restart_runtime c configuration env previous previous_env)
  unfolding restart_runtime
  Keeps-restart_runtime configuration env previous previous_env =
      search (call_rules, Keeps-start_or_fall_back) depth 12

  Keeps-start_or_reload :
      (configuration : Bytes) (env : Environment)
      → Keeps (of_world view) (start_or_reload c configuration env)
  unfolding start_or_reload
  Keeps-start_or_reload configuration env = search call_rules depth 12

  Keeps-running_if : (restart : Bool) → Keeps (of_world view) (running_if c restart)
  unfolding running_if
  Keeps-running_if true = search call_rules depth 12
  Keeps-running_if false = Keeps-pure false

  pub Keeps-activate_healthy :
      (configuration : Bytes) (env : Environment) (restart : Bool) (previous : Bytes)
      (previous_env : Environment)
      → Keeps (of_world view) (activate_healthy c configuration env restart previous previous_env)
  unfolding activate_healthy activate
  Keeps-activate_healthy configuration env restart previous previous_env =
      search (call_rules, Keeps-running_if, Keeps-restart_runtime, Keeps-start_or_reload) depth 16

  pub Keeps-activate_start :
      (configuration : Bytes) (env : Environment)
      → Keeps (of_world view) (activate_start c configuration env)
  unfolding activate_start
  Keeps-activate_start configuration env = search call_rules depth 12
