-- ===== src/App/World/Views.antt =====
-- Calls of the repositories and of the collaborators, and the views of the database.
use dav_deck.Common.{refl}
use dav_deck.Common.Exec.{Exec}
use dav_deck.Common.Exec.Keeps.{Keeps, KeepsErr, Keeps-map_error}
use dav_deck.Storage.Database.{Store, StoreError}
use dav_deck.App.World.{World, on_store, on_runtime, ask, database}

module _ {R B : Type 0} (view : Store → B) where
  -- A view of the store, of the world.
  abbrev pub of_world : World R → B
  of_world w = view w.store

  pub Keeps-on_store :
      {E A : Type 0} (m : Exec Store E A) → Keeps view m → Keeps of_world (on_store m)
  unfolding on_store
  Keeps-on_store m k = record { at = λ w. k.at w.store }

  pub KeepsErr-on_store :
      {E A : Type 0} (m : Exec Store E A) → KeepsErr view m → KeepsErr of_world (on_store m)
  unfolding on_store
  KeepsErr-on_store m k = record { at_err = λ w e h. k.at_err w.store e h }

  pub Keeps-database :
      {A : Type 0} (m : Exec Store StoreError A) → Keeps view m → Keeps of_world (database m)
  unfolding database
  Keeps-database m k = Keeps-map_error _ _ (Keeps-on_store m k)

  pub Keeps-on_runtime : {E A : Type 0} (m : Exec R E A) → Keeps of_world (on_runtime m)
  unfolding on_runtime
  Keeps-on_runtime m = record { at = λ w. refl }

  pub Keeps-ask : {E A : Type 0} (f : R → A × R) → Keeps of_world (ask {E = E} f)
  unfolding ask
  Keeps-ask f = record { at = λ w. refl }
