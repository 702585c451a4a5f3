-- ===== src/App/Calls/Views.antt =====
-- The calls of the collaborators in core/internal/app/apply_service.go and views of the database.
use dav_deck.Common.{[], ◌∷◌, false, not, Option, none, some}
use dav_deck.Common.Exec.{Exec}
use dav_deck.Common.Exec.Keeps.{Keeps, Keeps-pure, Keeps-gets, Keeps-bind}
use dav_deck.Domain.Revision.{Bytes}
use dav_deck.Domain.Input.{RuntimeConfigInput}
use dav_deck.Storage.Database.{Store}
use dav_deck.App.World.{Collaborators, Environment}
use dav_deck.App.World.Views.{of_world, Keeps-on_runtime, Keeps-ask}
use dav_deck.App.Errors.{Error, RuntimeFailure}
use dav_deck.App.Calls.{
  with_environment, environment_of, validate_with_environment, start_with_environment,
  runtime_environment, environment_changed, current_environment, status,
}

module _ {R B : Type 0} (view : Store → B) where
  Keeps-with_environment :
      (plain : Bytes → Exec R RuntimeFailure (Unit {0}))
      (method : Option (Bytes → Environment → Exec R RuntimeFailure (Unit {0})))
      (configuration : Bytes) (env : Environment)
      → Keeps (of_world view) (with_environment plain method configuration env)
  unfolding with_environment
  Keeps-with_environment plain none configuration env = Keeps-on_runtime view _
  Keeps-with_environment plain (some method) configuration env = Keeps-on_runtime view _

  Keeps-environment_of :
      (provider : Option (RuntimeConfigInput → Exec R Error Environment))
      (input : RuntimeConfigInput)
      → Keeps (of_world view) (environment_of provider input)
  unfolding environment_of
  Keeps-environment_of none input = Keeps-pure []
  Keeps-environment_of (some provider) input = Keeps-on_runtime view _

  module _ (c : Collaborators R) where
    pub Keeps-validate_with_environment :
        (configuration : Bytes) (env : Environment)
        → Keeps (of_world view) (validate_with_environment c configuration env)
    unfolding validate_with_environment
    Keeps-validate_with_environment configuration env = Keeps-with_environment _ _ configuration env

    pub Keeps-start_with_environment :
        (configuration : Bytes) (env : Environment)
        → Keeps (of_world view) (start_with_environment c configuration env)
    unfolding start_with_environment
    Keeps-start_with_environment configuration env = Keeps-with_environment _ _ configuration env

    pub Keeps-runtime_environment :
        (input : RuntimeConfigInput) → Keeps (of_world view) (runtime_environment c input)
    unfolding runtime_environment
    Keeps-runtime_environment input = Keeps-environment_of _ input

    pub Keeps-environment_changed :
        {E : Type 0} (env : Environment) → Keeps (of_world view) (environment_changed c {E = E} env)
    unfolding environment_changed
    Keeps-environment_changed [] = Keeps-pure false
    Keeps-environment_changed (e ∷ env) =
        Keeps-bind _ _ (Keeps-ask view _) λ same. Keeps-pure (not same)

    pub Keeps-current_environment :
        {E : Type 0} → Keeps (of_world view) (current_environment c {E = E})
    unfolding current_environment
    Keeps-current_environment = Keeps-gets _

    pub Keeps-status : {E : Type 0} → Keeps (of_world view) (status c {E = E})
    unfolding status
    Keeps-status = Keeps-ask view _
