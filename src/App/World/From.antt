-- ===== src/App/World/From.antt =====
-- Use cases from a known database: what holds of the database after one that succeeds.
use dav_deck.Common.{◌≡◌, refl, sym, subst, ap, ◌∙◌, Result, ok, err, wrap}
use dav_deck.Common.Exec.{Exec, pure, map_error, ◌>>=◌}
use dav_deck.Common.Exec.Ensures.{Ensures, same_value}
use dav_deck.Common.Exec.Keeps.{Keeps}
use dav_deck.Common.Exec.Outcome.{outcome-bind}
use dav_deck.Domain.Timestamp.{Timestamp}
use dav_deck.Storage.Database.{Database, Store, StoreError}
use dav_deck.Storage.Database.Symbolic.{From}
use dav_deck.App.Errors.{Error}
use dav_deck.App.World.{World, on_store, ask}
use dav_deck.App.World.Views.{Keeps-ask}
use dav_deck.App.Sources.{Sources, call, call_at}

-- Where the database is `before` and `m` returns `a`, then `Q a` holds of the database after it.
pub record FromDatabase {R E A : Type 0} (before : Database) (m : Exec (World R) E A)
    (Q : A → Database → Type 0) : Type 0 where
  pub at_ok : (w : World R) → w.store.db ≡ before → (a : A) → (m w).0 ≡ ok a → Q a (m w).1.store.db

module _ {R E A : Type 0} (before : Database) where
  pub FromDatabase-bind :
      {C : Type 0} (P : A → Database → Type 0) (Q : C → Database → Type 0) (m : Exec (World R) E A)
      (g : A → Exec (World R) E C)
      → FromDatabase before m P
      → ((a : A) (db : Database) → P a db → FromDatabase db (g a) Q)
      → FromDatabase before (m >>= g) Q
  FromDatabase-bind {C} P Q m g h k = record {
    at_ok = λ w same.
        outcome-bind Done m g w (λ e w' failed c done. absurd (cc))
          (λ a w' returned c done.
            (k a w'.store.db (value w same a w' returned)).at_ok w' refl c done);
  }
    where
      Done : Result E C × World R → Type 0
      Done p = (c : C) → p.0 ≡ ok c → Q c p.1.store.db

      value :
          (w : World R)
          → w.store.db ≡ before
          → (a : A) (w' : World R) → m w ≡ (ok a, w')
          → P a w'.store.db
      value w same a w' returned =
          subst (λ p. P a p.1.store.db) returned (h.at_ok w same a (ap (λ p. p.0) returned))

  -- An action that leaves the database alone, with what it ensures of its value.
  pub FromDatabase-keeps :
      {C : Type 0} (P : A → Type 0) (Q : C → Database → Type 0) (m : Exec (World R) E A)
      (g : A → Exec (World R) E C)
      → Keeps (λ w. w.store.db) m
      → Ensures (λ a w. P a) m
      → ((a : A) → P a → FromDatabase before (g a) Q)
      → FromDatabase before (m >>= g) Q
  FromDatabase-keeps P Q m g same h k =
      FromDatabase-bind (λ a db. P a × (db ≡ before)) Q m g
        (record { at_ok = λ w start a done. (h.at_ok w a done, same.at w ∙ start) })
        λ a db p. subst (λ d. FromDatabase d (g a) Q) (sym p.1) (k a p.0)

  pub FromDatabase-pure :
      (Q : A → Database → Type 0) (a : A)
      → Q a before
      → FromDatabase {R = R} before (pure {E = E} a) Q
  unfolding pure
  FromDatabase-pure Q a q = record {
    at_ok = λ w start b done.
        subst (λ x. Q x w.store.db) (same_value a b _ refl done) (subst (Q a) (sym start) q);
  }

module _ {R : Type 0} (sources : Sources R) {A : Type 0} (before : Database) where
  FromDatabase-call :
      (f : StoreError → Error) (m : Exec Store StoreError A) (Q : A → Database → Type 0)
      → From before m Q
      → FromDatabase {R = R} before (call f m) Q
  unfolding call on_store map_error
  FromDatabase-call f m Q h = record {
    at_ok = λ w start a done. h.at_ok w.store start a (unwrapped (m w.store).0 a done);
  }
    where
      unwrapped : (r : Result StoreError A) (a : A) → wrap f r ≡ ok a → r ≡ ok a
      unwrapped (ok b) a h = cc
      unwrapped (err e) a h = cc

  pub FromDatabase-call_at :
      (f : StoreError → Error) (m : Timestamp → Exec Store StoreError A) (Q : A → Database → Type 0)
      → ((now : Timestamp) → From before (m now) Q)
      → FromDatabase before (call_at sources f m) Q
  unfolding call_at
  FromDatabase-call_at f m Q h =
      FromDatabase-bind before (λ _ db. db ≡ before) Q (ask sources.trigger_time)
        (λ now. call f (m now))
        (record {
          at_ok = λ w start a done.
              (Keeps-ask (λ s. s.db) {E = Error} sources.trigger_time).at w ∙ start;
        })
        λ now db same.
          subst (λ d. FromDatabase {R = R} d (call f (m now)) Q) (sym same)
            (FromDatabase-call f (m now) Q (h now))
