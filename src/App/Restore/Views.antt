-- ===== src/App/Restore/Views.antt =====
-- `Restore` of core/internal/app/apply_service.go and the database, where it fails.
use dav_deck.Common.{Bool, true, false, Option, none, some, err}
use dav_deck.Common.Text.{CaseTables}
use dav_deck.Common.Exec.Keeps.{
  Keeps, KeepsErr, KeepsErr-of_Keeps, KeepsErr-bind, KeepsErr-attempt, Succeeds-pure, Keeps-pure,
  Keeps-raise, Keeps-bind, Keeps-lift, Keeps-if, Keeps-fail_if, Keeps-map_error, keeps_rules,
}
use dav_deck.Domain.Id.{EntityId}
use dav_deck.Domain.Timestamp.{Timestamp}
use dav_deck.Domain.Revision.{Bytes, ConfigRevision, Digest}
use dav_deck.Domain.Input.{RuntimeConfigInput}
use dav_deck.Domain.State.{Codec}
use dav_deck.Storage.Database.{Database, StoreError}
use dav_deck.Storage.Database.Atomic.{database, KeepsErr-transaction}
use dav_deck.Storage.Restore.{restore_state}
use dav_deck.Storage.Revisions.Reads.{Keeps-get_revision, Keeps-active_revision}
use dav_deck.App.World.{Collaborators, CompiledConfig, Environment}
use dav_deck.App.World.Views.{
  of_world, Keeps-on_store, KeepsErr-on_store, Keeps-on_runtime, Keeps-database,
}
use dav_deck.App.Calls.Views.{
  Keeps-validate_with_environment, Keeps-start_with_environment, Keeps-runtime_environment,
  Keeps-environment_changed, Keeps-current_environment, Keeps-status,
}
use dav_deck.App.Activation.Views.{Keeps-activate_healthy}
use dav_deck.App.Outcome.Views.{Keeps-reload_previous}
use dav_deck.App.Apply.Views.{Keeps-stamp_now}
use dav_deck.App.Service.{get}
use dav_deck.App.Restore.{
  matching, must_restart, restart_previous, undo_activation, finish_restore, store_restored,
  restore_compiled, restore_unlocked,
}

abbrev pub whole : Database → Database
whole db = db

module _ {R : Type 0} (c : Collaborators R) where
  Keeps-matching :
      (r : ConfigRevision) (compiled : Option CompiledConfig)
      → Keeps (of_world database) (matching c r compiled)
  unfolding matching
  Keeps-matching r none = Keeps-raise _
  Keeps-matching r (some compiled) = Keeps-if _ _ _ (Keeps-raise _) (Keeps-pure compiled)

  Keeps-must_restart :
      (had_active : Bool) (env : Environment)
      → Keeps (of_world database) (must_restart c had_active env)
  unfolding must_restart
  Keeps-must_restart false env = Keeps-pure false
  Keeps-must_restart true env = search (keeps_rules, Keeps-status, Keeps-environment_changed)

  Keeps-restart_previous :
      (configuration : Bytes) (env : Environment)
      → Keeps (of_world database) (restart_previous c configuration env)
  unfolding restart_previous
  Keeps-restart_previous configuration env =
      search (keeps_rules, Keeps-on_runtime, Keeps-start_with_environment)

  Keeps-undo_activation :
      (previous : Option ConfigRevision) (env : Environment)
      → Keeps (of_world database) (undo_activation c previous env)
  unfolding undo_activation
  Keeps-undo_activation none env = Keeps-reload_previous database c none
  Keeps-undo_activation (some previous) env = Keeps-bind _ _ (Keeps-must_restart true env) λ again.
      Keeps-if again _ _ (Keeps-restart_previous previous.config_json env)
        (Keeps-reload_previous database c (some previous))

  Keeps-finish_restore :
      (r : ConfigRevision) (previous : Option ConfigRevision) (env : Environment) (e : StoreError)
      → Keeps (of_world database) (finish_restore c r previous env (err e))
  unfolding finish_restore
  Keeps-finish_restore r previous env e =
      Keeps-bind _ _ (Keeps-undo_activation previous env) λ _. Keeps-raise _

  module _ ⦃tables : CaseTables⦄ ⦃digest : Digest⦄ ⦃codec : Codec⦄ where
    KeepsErr-restore_state :
        (input : RuntimeConfigInput) (id : EntityId) (stamp : Timestamp)
        → KeepsErr database (restore_state input id stamp)
    unfolding restore_state
    KeepsErr-restore_state input id stamp =
        KeepsErr-bind _ _ (Keeps-lift _)
          λ _. KeepsErr-bind _ _ (Keeps-lift _) λ expected. KeepsErr-transaction _

    -- From the activation on.
    KeepsErr-store_restored :
        (r : ConfigRevision) (input : RuntimeConfigInput) (previous : Option ConfigRevision)
        (previous_env : Environment)
        → KeepsErr (of_world database) (store_restored c r input previous previous_env)
    unfolding store_restored finish_restore
    KeepsErr-store_restored r input previous previous_env =
        KeepsErr-bind _ _ (Keeps-stamp_now whole c) λ stamp.
          KeepsErr-attempt _ _
            (KeepsErr-on_store database _ (KeepsErr-restore_state input r.id stamp))
            (λ e. KeepsErr-of_Keeps _ (Keeps-finish_restore r previous previous_env e))
            (λ a. Succeeds-pure _)

    KeepsErr-restore_compiled :
        (r : ConfigRevision) (input : RuntimeConfigInput) (compiled : CompiledConfig)
        → KeepsErr (of_world database) (restore_compiled c r input compiled)
    unfolding restore_compiled
    KeepsErr-restore_compiled r input compiled =
        KeepsErr-bind _ _ (Keeps-runtime_environment database c input) λ env.
          KeepsErr-bind _ _
            (Keeps-map_error _ _ (Keeps-validate_with_environment database c compiled.json env))
            λ _. KeepsErr-bind _ _ (Keeps-database database _ Keeps-active_revision) λ previous.
              KeepsErr-bind _ _ (Keeps-current_environment database c) λ previous_env.
                KeepsErr-bind _ _ (Keeps-environment_changed database c env) λ changed.
                  KeepsErr-bind _ _
                    (Keeps-map_error _ _ (Keeps-activate_healthy database c _ _ _ _ _))
                    λ _. KeepsErr-store_restored r input previous previous_env

    pub KeepsErr-restore_unlocked :
        (id : EntityId) → KeepsErr (of_world database) (restore_unlocked c id)
    unfolding restore_unlocked get
    KeepsErr-restore_unlocked id =
        KeepsErr-bind _ _ (Keeps-map_error _ _ (Keeps-on_store database _ (Keeps-get_revision id)))
          λ r. KeepsErr-bind _ _ (Keeps-fail_if _ _) λ _. KeepsErr-bind _ _ (Keeps-fail_if _ _) λ _.
            KeepsErr-bind _ _ (Keeps-lift _) λ input.
              KeepsErr-bind _ _ (Keeps-matching r (c.compile input))
                λ compiled. KeepsErr-restore_compiled r input compiled
