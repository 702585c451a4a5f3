-- ===== src/App/Calls.antt =====
-- The calls that `ApplyService` of core/internal/app/apply_service.go makes through its interfaces,
-- with the methods that it looks for by type assertion.
pub mod Views
use dav_deck.Common.{Option, Bool, true, false, not, [], ◌∷◌, none, some}
use dav_deck.Common.Exec.{Exec, pure, gets, ◌>>=◌}
use dav_deck.Domain.Revision.{Bytes}
use dav_deck.Domain.Input.{RuntimeConfigInput}
use dav_deck.App.Errors.{Error, RuntimeFailure}
use dav_deck.App.World.{World, Collaborators, Environment, RuntimeStatus, on_runtime, ask}

module _ {R : Type 0} where
  -- The method that takes the environment, where the type assertion finds it.
  with_environment :
      (Bytes → Exec R RuntimeFailure (Unit {0}))
      → Option (Bytes → Environment → Exec R RuntimeFailure (Unit {0}))
      → Bytes
      → Environment
      → Exec (World R) RuntimeFailure (Unit {0})
  with_environment plain none configuration env = on_runtime (plain configuration)
  with_environment plain (some method) configuration env = on_runtime (method configuration env)

  environment_of :
      Option (RuntimeConfigInput → Exec R Error Environment)
      → RuntimeConfigInput
      → Exec (World R) Error Environment
  environment_of none input = pure []
  environment_of (some environment) input = on_runtime (environment input)

  matches : Option (Environment → R → Bool × R) → Environment → R → Bool × R
  matches none env r = (true, r)
  matches (some environment_matches) env r = environment_matches env r

  inherited : Option (R → Environment) → R → Environment
  inherited none r = []
  inherited (some current) r = current r

module _ {R : Type 0} (c : Collaborators R) where
  -- `validateWithEnvironment`
  unfoldable pub validate_with_environment :
      Bytes → Environment → Exec (World R) RuntimeFailure (Unit {0})
  unfolding with_environment
  validate_with_environment configuration env =
      with_environment c.validate c.validate_with_environment configuration env

  -- `startWithEnvironment`
  unfoldable pub start_with_environment :
      Bytes → Environment → Exec (World R) RuntimeFailure (Unit {0})
  unfolding with_environment
  start_with_environment configuration env =
      with_environment c.start c.start_with_environment configuration env

  -- `runtimeEnvironment`
  unfoldable pub runtime_environment : RuntimeConfigInput → Exec (World R) Error Environment
  unfolding environment_of
  runtime_environment input = environment_of c.environment input

  -- `runtimeEnvironmentChanged`: false for an empty environment, and where the runtime has no test.
  unfoldable pub environment_changed : {E : Type 0} → Environment → Exec (World R) E Bool
  unfolding matches
  environment_changed [] = pure false
  environment_changed (e ∷ env) = do
    same ← ask (matches c.environment_matches (e ∷ env))
    pure (not same)

  -- `currentRuntimeEnvironment`
  unfoldable pub current_environment : {E : Type 0} → Exec (World R) E Environment
  unfolding inherited
  current_environment = gets (λ w. inherited c.current_environment w.runtime)

  unfoldable pub status : {E : Type 0} → Exec (World R) E RuntimeStatus
  status = ask c.status
