-- ===== src/App/Outcome/Current.antt =====
-- The end of `apply` in core/internal/app/apply_service.go, where it succeeds.
use dav_deck.Common.{◌≡◌, refl, subst, Bool, true, false, Option, Result, ok, err}
use dav_deck.Common.Exec.{Exec, attempt, ◌>>=◌, pure}
use dav_deck.Common.Exec.Ensures.{
  Ensures, Ensures-raise, Ensures-bind, Ensures-attempt, Ensures-if, same_value,
}
use dav_deck.Domain.Timestamp.{Timestamp}
use dav_deck.Domain.Revision.{ConfigRevision, applied}
use dav_deck.Storage.Database.{Store, StoreError}
use dav_deck.Storage.Revisions.{mark_applied}
use dav_deck.Storage.Revisions.Applied.{IsCurrent, Ensures-mark_applied}
use dav_deck.App.Errors.{Error, RuntimeFailure}
use dav_deck.App.World.{World, Collaborators, CompiledConfig, Environment, on_store}
use dav_deck.App.Outcome.{
  finish_unchanged, finish_activated, activation_failed, finish_activation, bring_up,
}

-- The revision is the current one of the database, and says that it is applied.
pub record IsApplied {R : Type 0} (r : ConfigRevision) (w : World R) : Type 0 where
  pub current : IsCurrent r.id w.store.db
  pub status : r.apply_status ≡ applied

module _ {R : Type 0} where
  pub Ensures-on_store :
      {A : Type 0} (Q : A → Store → Type 0) (m : Exec Store StoreError A)
      → Ensures Q m
      → Ensures (λ a (w : World R). Q a w.store) (on_store m)
  unfolding on_store
  Ensures-on_store Q m k = record { at_ok = λ w a h. k.at_ok w.store a h }

  now_applied :
      (r : ConfigRevision) (w : World R) (s : ConfigRevision)
      → IsCurrent r.id w.store.db
      → (pure {E = Error} (record r { apply_status = applied }) w).0 ≡ ok s
      → IsApplied s w
  unfolding pure
  now_applied r w s p h =
      subst (λ x. IsApplied x w) (same_value (record r { apply_status = applied }) s _ refl h)
        (record { current = p; status = refl })

module _ {R : Type 0} (c : Collaborators R) (created : Bool) (r : ConfigRevision)
    (previous : Option ConfigRevision) (stamp : Timestamp) where
  marked :
      Ensures {E = StoreError}
        (λ _ (w : World R). IsCurrent r.id w.store.db)
        (on_store (mark_applied r.id stamp))
  marked = Ensures-on_store _ _ (Ensures-mark_applied r.id stamp)

  Ensures-unchanged :
      Ensures IsApplied
        (attempt (on_store (mark_applied r.id stamp)) >>= finish_unchanged c created r)
  unfolding finish_unchanged pure
  Ensures-unchanged =
      Ensures-attempt _ _ _ _ marked (λ e. Ensures-bind _ _ _ λ _. Ensures-raise _)
        λ _ w p s h. now_applied r w s p h

  Ensures-activated :
      Ensures IsApplied
        (attempt (on_store (mark_applied r.id stamp)) >>= finish_activated c created r previous)
  unfolding finish_activated pure
  Ensures-activated =
      Ensures-attempt _ _ _ _ marked
        (λ e. Ensures-bind _ _ _ λ _. Ensures-bind _ _ _ λ _. Ensures-raise _)
        λ _ w p s h. now_applied r w s p h

  Ensures-activation_failed :
      (e : RuntimeFailure) → Ensures IsApplied (activation_failed c created r e)
  unfolding activation_failed
  Ensures-activation_failed e =
      Ensures-if created _ _ (Ensures-bind _ _ _ λ _. Ensures-raise _) (Ensures-raise _)

  Ensures-activation :
      (activated : Result RuntimeFailure (Unit {0}))
      → Ensures IsApplied (finish_activation c created r previous stamp activated)
  unfolding finish_activation
  Ensures-activation (ok _) = Ensures-activated
  Ensures-activation (err e) = Ensures-activation_failed e

  pub Ensures-bring_up :
      (compiled : CompiledConfig) (env : Environment) (changed running : Bool)
      → Ensures IsApplied (bring_up c created r previous stamp compiled env changed running)
  unfolding bring_up
  Ensures-bring_up compiled env changed true = Ensures-unchanged
  Ensures-bring_up compiled env changed false =
      Ensures-bind _ _ _
        λ previous_env. Ensures-bind _ _ _ λ activated. Ensures-activation activated
