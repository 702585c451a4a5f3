-- ===== src/Storage/Database/Ensured.antt =====
-- What holds of the database after a write, and after a transaction that has committed.
use dav_deck.Common.{◌≡◌, refl, subst, sym, Result, ok, err}
use dav_deck.Common.Exec.{Exec, pure, continue, modify, ◌>>=◌}
use dav_deck.Common.Exec.Ensures.{Ensures, Ensures-bind, Ensures-then, same_value}
use dav_deck.Storage.Database.{
  Database, Store, StoreError, statement, write, rolled_back, transaction,
}
use dav_deck.Storage.Database.Atomic.{Keeps-statement}

-- `P`, of the database of a store.
abbrev pub InDb : {A : Type 0} → (A → Database → Type 0) → A → Store → Type 0
InDb P a s = P a s.db

Ensures-modify :
    {E : Type 0} (P : Database → Type 0) (f : Database → Database)
    → ((db : Database) → P (f db))
    → Ensures (InDb (λ _. P)) (modify {E = E} (λ (s : Store). record s { db = f s.db }))
unfolding modify
Ensures-modify P f h = record { at_ok = λ s a same. h s.db }

pub Ensures-write :
    (P : Database → Type 0) (f : Database → Database)
    → ((db : Database) → P (f db))
    → Ensures (InDb (λ _. P)) (write f)
unfolding write
Ensures-write P f h = Ensures-bind _ _ _ λ _. Ensures-modify P f h

module _ {A : Type 0} (P : A → Database → Type 0) where
  settled :
      (a : A) (r : Result StoreError (Unit {0})) (s : Store)
      → P a s.db
      → (b : A) → (continue r (λ _. pure {E = StoreError} a) s).0 ≡ ok b
      → P b (continue r (λ _. pure {E = StoreError} a) s).1.db
  unfolding pure
  settled a (ok _) s p b h = subst (λ x. P x s.db) (same_value a b _ refl h) p
  settled a (err e) s p b h = absurd (cc)

  framed :
      (body : Exec Store StoreError A)
      → Ensures (InDb P) body
      → Ensures (InDb P) (statement >>= λ _. body >>= λ a. statement >>= λ _. pure a)
  unfolding ◌>>=◌
  framed body k = Ensures-bind _ _ _ λ _. Ensures-then _ _ _ (InDb P) k λ a s p b h.
      settled a (statement s).0 (statement s).1 (subst (P a) (sym (Keeps-statement.at s)) p) b h

  committed :
      (before : Database) (p : Result StoreError A × Store) (a : A)
      → ((b : A) → p.0 ≡ ok b → P b p.1.db)
      → (rolled_back before p).0 ≡ ok a
      → P a (rolled_back before p).1.db
  unfolding rolled_back
  committed before (ok b, s) a k h = k a h
  committed before (err e, s) a k h = absurd (cc)

  -- What the body ensures holds of the database after the commit.
  pub Ensures-transaction :
      (body : Exec Store StoreError A) → Ensures (InDb P) body → Ensures (InDb P) (transaction body)
  unfolding transaction
  Ensures-transaction body k = record {
    at_ok = λ s a h. committed s.db _ a ((framed body k).at_ok s) h;
  }
