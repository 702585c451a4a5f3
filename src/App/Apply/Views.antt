-- ===== src/App/Apply/Views.antt =====
-- `Validate` and `apply` of core/internal/app/apply_service.go and views of the database.
use dav_deck.Common.{Bool, true, false, Option, none, some}
use dav_deck.Common.Text.{Text, CaseTables}
use dav_deck.Common.Exec.Keeps.{
  Keeps, KeepsErr, KeepsErr-bind, Keeps-pure, Keeps-raise, Keeps-bind, Keeps-lift, Keeps-map_error,
  keeps_rules,
}
use dav_deck.Domain.Id.{EntityId}
use dav_deck.Domain.Timestamp.{Timestamp}
use dav_deck.Domain.Revision.{Bytes, ConfigRevision, Digest}
use dav_deck.Domain.State.{Codec}
use dav_deck.Storage.Database.{Database, Store}
use dav_deck.Storage.Database.Atomic.{Keeps-view}
use dav_deck.Storage.Revisions.{mark_failed, mark_applied, create, set_desired}
use dav_deck.Storage.Revisions.Reads.{Keeps-active_revision, Keeps-find_by_identity}
use dav_deck.Storage.Snapshots.Reads.{Keeps-snapshot}
use dav_deck.App.Errors.{Error}
use dav_deck.App.World.{Collaborators, CompiledConfig, Environment}
use dav_deck.App.World.Views.{of_world, Keeps-on_runtime, Keeps-ask, Keeps-database}
use dav_deck.App.Calls.Views.{
  Keeps-validate_with_environment, Keeps-runtime_environment, Keeps-environment_changed,
  Keeps-status,
}
use dav_deck.App.Outcome.Views.{Keeps-bring_up, KeepsErr-bring_up}
use dav_deck.App.Apply.{
  compiled_or, prepare, validate, stamp_now, already_running, new_revision, found_or_new,
  save_desired, apply_candidate, apply,
}

module _ {R B : Type 0} (view_db : Database → B) (c : Collaborators R) where
  -- The view, of a store.
  abbrev pub of_db : Store → B
  of_db s = view_db s.db

  Keeps-compiled_or :
      (e : Error) (compiled : Option CompiledConfig)
      → Keeps (of_world of_db) (compiled_or c e compiled)
  unfolding compiled_or
  Keeps-compiled_or e none = Keeps-raise e
  Keeps-compiled_or e (some compiled) = Keeps-pure compiled

  pub Keeps-stamp_now : Keeps (of_world of_db) (stamp_now c)
  unfolding stamp_now
  Keeps-stamp_now = Keeps-bind _ _ (Keeps-ask of_db _) λ now. Keeps-lift _

  Keeps-already_running :
      (previous : Option ConfigRevision) (hash : Text) (changed : Bool)
      → Keeps (of_world of_db) (already_running c previous hash changed)
  unfolding already_running
  Keeps-already_running none hash changed = Keeps-pure false
  Keeps-already_running (some previous) hash changed = search (keeps_rules, Keeps-status)

  module _ ⦃tables : CaseTables⦄ where
    pub Keeps-prepare : Keeps (of_world of_db) (prepare c)
    unfolding prepare
    Keeps-prepare =
        Keeps-bind _ _ (Keeps-database of_db _ (Keeps-view view_db Keeps-snapshot)) λ input.
          Keeps-bind _ _ (Keeps-compiled_or _ (c.compile input)) λ compiled.
            Keeps-bind _ _ (Keeps-runtime_environment of_db c input) λ env.
              Keeps-bind _ _
                (Keeps-map_error _ _ (Keeps-validate_with_environment of_db c compiled.json env))
                λ _. Keeps-pure _

    pub Keeps-validate : Keeps (of_world of_db) (validate c)
    unfolding validate
    Keeps-validate = Keeps-bind _ _ Keeps-prepare λ _. Keeps-pure _

    module _ ⦃digest : Digest⦄ ⦃codec : Codec⦄ (app_version : Text)
        (keeps_failed : (id : EntityId) (code summary : Text)
          → Keeps of_db (mark_failed id code summary))
        (keeps_create : (r : ConfigRevision) → Keeps of_db (create r))
        (keeps_desired : (id : EntityId) (stamp : Timestamp)
          → Keeps of_db (set_desired id stamp)) where
      Keeps-new_revision :
          (compiled : CompiledConfig) (state_snapshot : Bytes) (state_hash : Text)
          → Keeps (of_world of_db) (new_revision c app_version compiled state_snapshot state_hash)
      unfolding new_revision
      Keeps-new_revision compiled state_snapshot state_hash =
          Keeps-bind _ _ (Keeps-map_error _ _ (Keeps-on_runtime of_db _))
            λ id. Keeps-bind _ _ Keeps-stamp_now λ stamp. Keeps-pure _

      Keeps-found_or_new :
          (compiled : CompiledConfig) (state_snapshot : Bytes) (state_hash : Text)
          (found : Option ConfigRevision)
          → Keeps
              (of_world of_db)
              (found_or_new c app_version compiled state_snapshot state_hash found)
      unfolding found_or_new
      Keeps-found_or_new compiled state_snapshot state_hash none =
          Keeps-bind _ _ (Keeps-new_revision compiled state_snapshot state_hash) λ r. Keeps-pure _
      Keeps-found_or_new compiled state_snapshot state_hash (some r) = Keeps-pure _

      Keeps-save_desired :
          (created : Bool) (r : ConfigRevision) (stamp : Timestamp)
          → Keeps (of_world of_db) (save_desired c app_version created r stamp)
      unfolding save_desired
      Keeps-save_desired true r stamp = Keeps-database of_db _ (keeps_create r)
      Keeps-save_desired false r stamp =
          Keeps-bind _ _ (Keeps-database of_db _ (keeps_desired r.id stamp)) λ _. Keeps-pure r

      module _
          (keeps_err_applied : (id : EntityId) (stamp : Timestamp)
            → KeepsErr of_db (mark_applied id stamp)) where
        KeepsErr-apply_candidate :
            (created : Bool) (candidate : ConfigRevision) (compiled : CompiledConfig)
            (env : Environment)
            → KeepsErr
                (of_world of_db)
                (apply_candidate c app_version created candidate compiled env)
        unfolding apply_candidate
        KeepsErr-apply_candidate created candidate compiled env =
            KeepsErr-bind _ _ (Keeps-database of_db _ (Keeps-view view_db Keeps-active_revision))
              λ previous. KeepsErr-bind _ _ Keeps-stamp_now λ stamp.
                KeepsErr-bind _ _ (Keeps-save_desired created candidate stamp) λ r.
                  KeepsErr-bind _ _ (Keeps-environment_changed of_db c env) λ changed.
                    KeepsErr-bind _ _ (Keeps-already_running previous compiled.sha256 changed) (
                      KeepsErr-bring_up of_db c keeps_failed keeps_err_applied created r previous
                        stamp compiled env changed)

        pub KeepsErr-apply : KeepsErr (of_world of_db) (apply c app_version)
        unfolding apply
        KeepsErr-apply = KeepsErr-bind _ _ Keeps-prepare λ prepared.
            KeepsErr-bind _ _ (Keeps-lift _) λ state_snapshot.
              KeepsErr-bind _ _ (Keeps-lift _) λ state_hash.
                KeepsErr-bind _ _
                  (Keeps-database of_db _
                    (Keeps-view view_db (Keeps-find_by_identity prepared.1.sha256 state_hash)))
                  λ found.
                    KeepsErr-bind _ _
                      (Keeps-found_or_new prepared.1 state_snapshot state_hash found)
                      λ candidate.
                        KeepsErr-apply_candidate candidate.0 candidate.1 prepared.1 prepared.2

      module _
          (keeps_applied : (id : EntityId) (stamp : Timestamp)
            → Keeps of_db (mark_applied id stamp)) where
        Keeps-apply_candidate :
            (created : Bool) (candidate : ConfigRevision) (compiled : CompiledConfig)
            (env : Environment)
            → Keeps (of_world of_db) (apply_candidate c app_version created candidate compiled env)
        unfolding apply_candidate
        Keeps-apply_candidate created candidate compiled env =
            Keeps-bind _ _ (Keeps-database of_db _ (Keeps-view view_db Keeps-active_revision))
              λ previous. Keeps-bind _ _ Keeps-stamp_now λ stamp.
                Keeps-bind _ _ (Keeps-save_desired created candidate stamp) λ r.
                  Keeps-bind _ _ (Keeps-environment_changed of_db c env) λ changed.
                    Keeps-bind _ _ (Keeps-already_running previous compiled.sha256 changed) (
                      Keeps-bring_up of_db c keeps_failed keeps_applied created r previous stamp
                        compiled env changed)

        pub Keeps-apply : Keeps (of_world of_db) (apply c app_version)
        unfolding apply
        Keeps-apply = Keeps-bind _ _ Keeps-prepare λ prepared.
            Keeps-bind _ _ (Keeps-lift _) λ state_snapshot.
              Keeps-bind _ _ (Keeps-lift _) λ state_hash.
                Keeps-bind _ _
                  (Keeps-database of_db _
                    (Keeps-view view_db (Keeps-find_by_identity prepared.1.sha256 state_hash)))
                  λ found.
                    Keeps-bind _ _ (Keeps-found_or_new prepared.1 state_snapshot state_hash found)
                      λ candidate.
                        Keeps-apply_candidate candidate.0 candidate.1 prepared.1 prepared.2
