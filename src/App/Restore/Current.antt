-- ===== src/App/Restore/Current.antt =====
-- `Restore` as a whole, where it succeeds.
use dav_deck.Common.{◌≡◌, refl, subst, Option, ok}
use dav_deck.Common.Text.{Text, CaseTables}
use dav_deck.Common.Exec.{pure}
use dav_deck.Common.Exec.Ensures.{Ensures, Ensures-raise, Ensures-bind, Ensures-attempt, same_value}
use dav_deck.Domain.Id.{EntityId}
use dav_deck.Domain.Timestamp.{Timestamp}
use dav_deck.Domain.Revision.{ConfigRevision, Digest, applied}
use dav_deck.Domain.Input.{RuntimeConfigInput}
use dav_deck.Domain.State.{Codec}
use dav_deck.Storage.Database.Ensured.{InDb, Ensures-transaction}
use dav_deck.Storage.Revisions.Applied.{IsCurrent, Ensures-activate_rows}
use dav_deck.Storage.Revisions.{activate_rows}
use dav_deck.Storage.Restore.{restore_rows, restore_state}
use dav_deck.App.Errors.{Error}
use dav_deck.App.World.{World, Collaborators, CompiledConfig, Environment}
use dav_deck.App.Outcome.Current.{IsApplied, Ensures-on_store}
use dav_deck.App.Restore.{[], finish_restore, store_restored, restore_compiled, restore_unlocked}

Ensures-restore_rows :
    (input : RuntimeConfigInput) (expected : Text) (id : EntityId) (stamp : Timestamp)
    → Ensures (InDb (λ _. IsCurrent id)) (restore_rows input expected id stamp)
unfolding restore_rows activate_rows
Ensures-restore_rows input expected id stamp = Ensures-bind _ _ _ λ _. Ensures-bind _ _ _ λ row.
    Ensures-bind _ _ _ λ stored.
      Ensures-bind _ _ _
        λ _. Ensures-bind _ _ _ λ _. Ensures-bind _ _ _ λ _. Ensures-activate_rows id stamp

module _ ⦃tables : CaseTables⦄ ⦃digest : Digest⦄ ⦃codec : Codec⦄ where
  Ensures-restore_state :
      (input : RuntimeConfigInput) (id : EntityId) (stamp : Timestamp)
      → Ensures (InDb (λ _. IsCurrent id)) (restore_state input id stamp)
  unfolding restore_state
  Ensures-restore_state input id stamp = Ensures-bind _ _ _ λ _.
      Ensures-bind _ _ _
        λ expected. Ensures-transaction _ _ (Ensures-restore_rows input expected id stamp)

  module _ {R : Type 0} (c : Collaborators R) where
    restored_applied :
        (r : ConfigRevision) (w : World R) (s : ConfigRevision)
        → IsCurrent r.id w.store.db
        → (pure {E = Error}
            (record r { apply_status = applied; error_code = []; error_summary = [] })
            w).0
          ≡ ok s
        → IsApplied s w
    unfolding pure
    restored_applied r w s p h =
        subst (λ x. IsApplied x w)
          (same_value (record r { apply_status = applied; error_code = []; error_summary = [] }) s _
            refl h)
          (record { current = p; status = refl })

    Ensures-store_restored :
        (r : ConfigRevision) (input : RuntimeConfigInput) (previous : Option ConfigRevision)
        (previous_env : Environment)
        → Ensures IsApplied (store_restored c r input previous previous_env)
    unfolding store_restored finish_restore pure
    Ensures-store_restored r input previous previous_env = Ensures-bind _ _ _ λ stamp.
        Ensures-attempt _ _ _ (λ _ w. IsCurrent r.id w.store.db)
          (Ensures-on_store _ _ (Ensures-restore_state input r.id stamp))
          (λ e. Ensures-bind _ _ _ λ _. Ensures-raise _) λ _ w p s h. restored_applied r w s p h

    Ensures-restore_compiled :
        (r : ConfigRevision) (input : RuntimeConfigInput) (compiled : CompiledConfig)
        → Ensures IsApplied (restore_compiled c r input compiled)
    unfolding restore_compiled
    Ensures-restore_compiled r input compiled = Ensures-bind _ _ _ λ env. Ensures-bind _ _ _ λ _.
        Ensures-bind _ _ _ λ previous. Ensures-bind _ _ _ λ previous_env.
          Ensures-bind _ _ _
            λ changed. Ensures-bind _ _ _ λ _. Ensures-store_restored r input previous previous_env

    pub Ensures-restore_unlocked : (id : EntityId) → Ensures IsApplied (restore_unlocked c id)
    unfolding restore_unlocked
    Ensures-restore_unlocked id = Ensures-bind _ _ _ λ r. Ensures-bind _ _ _ λ _.
        Ensures-bind _ _ _ λ _.
          Ensures-bind _ _ _
            λ input. Ensures-bind _ _ _ λ compiled. Ensures-restore_compiled r input compiled
