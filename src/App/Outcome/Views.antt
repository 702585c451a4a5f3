-- ===== src/App/Outcome/Views.antt =====
-- The end of `apply` in core/internal/app/apply_service.go and a view of the database.
use dav_deck.Common.{Bool, true, false, Option, none, some, Result, ok, err}
use dav_deck.Common.Text.{Text}
use dav_deck.Common.Exec.Keeps.{
  Keeps, KeepsErr, KeepsErr-of_Keeps, KeepsErr-bind, KeepsErr-attempt, Succeeds-pure, Keeps-pure,
  Keeps-raise, Keeps-bind, Keeps-attempt, keeps_rules,
}
use dav_deck.Domain.Id.{EntityId}
use dav_deck.Domain.Timestamp.{Timestamp}
use dav_deck.Domain.Revision.{ConfigRevision}
use dav_deck.Storage.Database.{Store, StoreError}
use dav_deck.Storage.Revisions.{mark_failed, mark_applied}
use dav_deck.App.Errors.{RuntimeFailure}
use dav_deck.App.World.{Collaborators, CompiledConfig, Environment}
use dav_deck.App.World.Views.{
  of_world, Keeps-on_runtime, Keeps-on_store, KeepsErr-on_store, Keeps-database,
}
use dav_deck.App.Calls.Views.{Keeps-current_environment}
use dav_deck.App.Activation.Views.{Keeps-activate_healthy}
use dav_deck.App.Outcome.{
  note_unsaved, finish_unchanged, reload_previous, finish_activated, activation_failed,
  finish_activation, bring_up,
}

module _ {R B : Type 0} (view : Store → B) (c : Collaborators R) where
  pub Keeps-reload_previous :
      (previous : Option ConfigRevision) → Keeps (of_world view) (reload_previous c previous)
  unfolding reload_previous
  Keeps-reload_previous none =
      Keeps-bind _ _ (Keeps-attempt _ (Keeps-on_runtime view _)) λ _. Keeps-pure tt
  Keeps-reload_previous (some previous) =
      Keeps-bind _ _ (Keeps-attempt _ (Keeps-on_runtime view _)) λ _. Keeps-pure tt

module _ {R B : Type 0} (view : Store → B) (c : Collaborators R)
    (keeps_failed : (id : EntityId) (code summary : Text)
      → Keeps view (mark_failed id code summary)) where
  Keeps-note_unsaved :
      (created : Bool) (id : EntityId) → Keeps (of_world view) (note_unsaved c created id)
  unfolding note_unsaved
  Keeps-note_unsaved false id = Keeps-pure tt
  Keeps-note_unsaved true id =
      Keeps-bind _ _ (Keeps-attempt _ (Keeps-on_store view _ (keeps_failed id _ _)))
        λ _. Keeps-pure tt

  Keeps-finish_unchanged :
      (created : Bool) (r : ConfigRevision) (marked : Result StoreError (Unit {0}))
      → Keeps (of_world view) (finish_unchanged c created r marked)
  unfolding finish_unchanged
  Keeps-finish_unchanged created r (ok _) = Keeps-pure _
  Keeps-finish_unchanged created r (err e) =
      Keeps-bind _ _ (Keeps-note_unsaved created r.id) λ _. Keeps-raise _

  Keeps-finish_activated :
      (created : Bool) (r : ConfigRevision) (previous : Option ConfigRevision)
      (marked : Result StoreError (Unit {0}))
      → Keeps (of_world view) (finish_activated c created r previous marked)
  unfolding finish_activated
  Keeps-finish_activated created r previous (ok _) = Keeps-pure _
  Keeps-finish_activated created r previous (err e) =
      search (keeps_rules, Keeps-note_unsaved, Keeps-reload_previous view c)

  Keeps-activation_failed :
      (created : Bool) (r : ConfigRevision) (e : RuntimeFailure)
      → Keeps (of_world view) (activation_failed c created r e)
  unfolding activation_failed
  Keeps-activation_failed true r e =
      Keeps-bind _ _ (Keeps-database view _ (keeps_failed r.id _ _)) λ _. Keeps-raise _
  Keeps-activation_failed false r e = Keeps-raise _

  module _
      (keeps_err_applied : (id : EntityId) (stamp : Timestamp)
        → KeepsErr view (mark_applied id stamp)) where
    KeepsErr-finish_activation :
        (created : Bool) (r : ConfigRevision) (previous : Option ConfigRevision) (stamp : Timestamp)
        (activated : Result RuntimeFailure (Unit {0}))
        → KeepsErr (of_world view) (finish_activation c created r previous stamp activated)
    unfolding finish_activation finish_activated
    KeepsErr-finish_activation created r previous stamp (err e) =
        KeepsErr-of_Keeps _ (Keeps-activation_failed created r e)
    KeepsErr-finish_activation created r previous stamp (ok _) =
        KeepsErr-attempt _ _ (KeepsErr-on_store view _ (keeps_err_applied r.id stamp))
          (λ e. KeepsErr-of_Keeps _ (Keeps-finish_activated created r previous (err e)))
          (λ a. Succeeds-pure _)

    pub KeepsErr-bring_up :
        (created : Bool) (r : ConfigRevision) (previous : Option ConfigRevision) (stamp : Timestamp)
        (compiled : CompiledConfig) (env : Environment) (changed running : Bool)
        → KeepsErr
            (of_world view)
            (bring_up c created r previous stamp compiled env changed running)
    unfolding bring_up finish_unchanged
    KeepsErr-bring_up created r previous stamp compiled env changed true =
        KeepsErr-attempt _ _ (KeepsErr-on_store view _ (keeps_err_applied r.id stamp))
          (λ e. KeepsErr-of_Keeps _ (Keeps-finish_unchanged created r (err e)))
          (λ a. Succeeds-pure _)
    KeepsErr-bring_up created r previous stamp compiled env changed false =
        KeepsErr-bind _ _ (Keeps-current_environment view c) λ previous_env.
          KeepsErr-bind _ _ (Keeps-attempt _ (Keeps-activate_healthy view c _ _ _ _ _))
            (KeepsErr-finish_activation created r previous stamp)

  module _
      (keeps_applied : (id : EntityId) (stamp : Timestamp)
        → Keeps view (mark_applied id stamp)) where
    Keeps-finish_activation :
        (created : Bool) (r : ConfigRevision) (previous : Option ConfigRevision) (stamp : Timestamp)
        (activated : Result RuntimeFailure (Unit {0}))
        → Keeps (of_world view) (finish_activation c created r previous stamp activated)
    unfolding finish_activation
    Keeps-finish_activation created r previous stamp (err e) = Keeps-activation_failed created r e
    Keeps-finish_activation created r previous stamp (ok _) =
        Keeps-bind _ _ (Keeps-attempt _ (Keeps-on_store view _ (keeps_applied r.id stamp)))
          (Keeps-finish_activated created r previous)

    pub Keeps-bring_up :
        (created : Bool) (r : ConfigRevision) (previous : Option ConfigRevision) (stamp : Timestamp)
        (compiled : CompiledConfig) (env : Environment) (changed running : Bool)
        → Keeps (of_world view) (bring_up c created r previous stamp compiled env changed running)
    unfolding bring_up
    Keeps-bring_up created r previous stamp compiled env changed true =
        Keeps-bind _ _ (Keeps-attempt _ (Keeps-on_store view _ (keeps_applied r.id stamp)))
          (Keeps-finish_unchanged created r)
    Keeps-bring_up created r previous stamp compiled env changed false =
        Keeps-bind _ _ (Keeps-current_environment view c) λ previous_env.
          Keeps-bind _ _ (Keeps-attempt _ (Keeps-activate_healthy view c _ _ _ _ _))
            (Keeps-finish_activation created r previous stamp)
