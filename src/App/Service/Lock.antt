-- ===== src/App/Service/Lock.antt =====
-- The lock of `ApplyService` in core/internal/app/apply_service.go.
use dav_deck.Common.{◌≡◌, true, false, Bool-cases, inl, inr, Result, ok, err, arith}
use dav_deck.Common.Exec.{Exec}
use dav_deck.Common.Exec.Keeps.{Keeps, KeepsErr}
use dav_deck.Common.Exec.Ensures.{Ensures}
use dav_deck.Storage.Database.{Store}
use dav_deck.App.Errors.{Error, ErrorCode, failure}
use dav_deck.App.World.{World}
use dav_deck.App.World.Views.{of_world}
use dav_deck.App.Service.{unlocked, with_lock}

abbrev in_progress : Error
in_progress = failure ErrorCode.apply_in_progress "Another configuration apply is in progress"

module _ {R A : Type 0} (m : Exec (World R) Error A) (w : World R) where
  -- While the lock is held the action is not run: nothing changes.
  with_lock_refused : w.locked ≡ true → with_lock m w ≡ (err in_progress, w)
  unfolding with_lock
  with_lock_refused held = ground arith

  with_lock_run : w.locked ≡ false → with_lock m w ≡ unlocked (m (record w { locked = true }))
  unfolding with_lock
  with_lock_run free = ground arith

module _ {R A B : Type 0} (view : Store → B) (m : Exec (World R) Error A) where
  pub Keeps-with_lock : Keeps (of_world view) m → Keeps (of_world view) (with_lock m)
  unfolding unlocked
  Keeps-with_lock k = record {
    at = λ w. elim (Bool-cases w.locked) [
      | inl held ↦ rw (with_lock_refused m w held)
      | inr free ↦ rw (with_lock_run m w free) (k.at (record w { locked = true }))
    ];
  }

  pub KeepsErr-with_lock : KeepsErr (of_world view) m → KeepsErr (of_world view) (with_lock m)
  unfolding unlocked
  KeepsErr-with_lock k = record {
    at_err = λ w e h. elim (Bool-cases w.locked) [
      | inl held ↦ rw (with_lock_refused m w held)
      | inr free ↦
          rw (with_lock_run m w free)
            (k.at_err (record w { locked = true }) e (rw (with_lock_run m w free) at h))
    ];
  }

refused :
    {E A W : Type 0} (p : Result E A × W) (e : E) (w : W) (a : A) → p ≡ (err e, w) → p.0 ≡ ok a → ⊥
refused p e w a h k = cc

module _ {R A : Type 0} (P : A → World R → Type 0)
    (unlock : (a : A) (w : World R) → P a w → P a (record w { locked = false })) where
  pub Ensures-with_lock : (m : Exec (World R) Error A) → Ensures P m → Ensures P (with_lock m)
  unfolding unlocked
  Ensures-with_lock m k = record {
    at_ok = λ w a h. elim (Bool-cases w.locked) [
      | inl held ↦ absurd (refused _ _ _ a (with_lock_refused m w held) h)
      | inr free ↦
          rw (with_lock_run m w free)
            (unlock a _ (k.at_ok (record w { locked = true }) a (rw (with_lock_run m w free) at h)))
    ];
  }
