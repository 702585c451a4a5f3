-- ===== src/Storage/Database/Atomic.antt =====
-- Transactions, and what the reads of the repositories leave unchanged.
use dav_deck.Common.{◌≡◌, refl, ap, Bool, true, false, List, [], ◌∷◌, Result, ok, err}
use dav_deck.Common.Exec.{Exec, pure, ◌>>=◌}
use dav_deck.Common.Exec.Keeps.{Keeps, KeepsErr, Keeps-bind, Keeps-pure, Keeps-modify}
use dav_deck.Storage.Database.{
  Database, Store, StoreError, answer, statement, write, rolled_back, transaction,
}

abbrev pub database : Store → Database
database s = s.db

db-answer : (faults : List Bool) (s : Store) → (answer faults s).1.db ≡ s.db
unfolding answer
db-answer [] s = refl
db-answer (true ∷ faults) s = refl
db-answer (false ∷ faults) s = refl

pub Keeps-statement : Keeps database statement
unfolding statement
Keeps-statement = record { at = λ s. db-answer s.faults s }

module _ {A : Type 0} where
  undone :
      (before : Database) (p : Result StoreError A × Store) (e : StoreError)
      → (rolled_back before p).0 ≡ err e
      → (rolled_back before p).1.db ≡ before
  unfolding rolled_back
  undone before (ok a, s) e h = cc
  undone before (err d, s) e h = refl

  -- A transaction that fails leaves the database as it was.
  pub KeepsErr-transaction : (body : Exec Store StoreError A) → KeepsErr database (transaction body)
  unfolding transaction
  KeepsErr-transaction body = record { at_err = λ s e h. undone s.db _ e h }

  kept :
      (before : Database) (p : Result StoreError A × Store)
      → p.1.db ≡ before
      → (rolled_back before p).1.db ≡ before
  unfolding rolled_back
  kept before (ok a, s) h = h
  kept before (err d, s) h = refl

  framed :
      (body : Exec Store StoreError A)
      → Keeps database body
      → Keeps database (statement >>= λ _. body >>= λ a. statement >>= λ _. pure a)
  framed body k =
      Keeps-bind _ _ Keeps-statement
        λ _. Keeps-bind _ _ k λ a. Keeps-bind _ _ Keeps-statement λ _. Keeps-pure a

  -- A transaction that only reads changes nothing.
  pub Keeps-transaction :
      (body : Exec Store StoreError A) → Keeps database body → Keeps database (transaction body)
  unfolding transaction
  Keeps-transaction body k = record { at = λ s. kept s.db _ ((framed body k).at s) }

-- A view of the database alone, with what a write does to it.
module _ {B : Type 0} (view : Database → B) where
  pub Keeps-view :
      {A : Type 0} {m : Exec Store StoreError A} → Keeps database m → Keeps (λ s. view s.db) m
  Keeps-view k = record { at = λ s. ap view (k.at s) }

  pub Keeps-write :
      (f : Database → Database)
      → ((db : Database) → view (f db) ≡ view db)
      → Keeps (λ s. view s.db) (write f)
  unfolding write
  Keeps-write f h = Keeps-bind _ _ (Keeps-view Keeps-statement) (λ _. Keeps-modify _ (λ s. h s.db))

  kept_view :
      {A : Type 0} (before : Database) (p : Result StoreError A × Store)
      → view p.1.db ≡ view before
      → view (rolled_back before p).1.db ≡ view before
  unfolding rolled_back
  kept_view before (ok a, s) h = h
  kept_view before (err d, s) h = refl

  framed_view :
      {A : Type 0} (body : Exec Store StoreError A)
      → Keeps (λ s. view s.db) body
      → Keeps (λ s. view s.db) (statement >>= λ _. body >>= λ a. statement >>= λ _. pure a)
  framed_view body k =
      Keeps-bind _ _ (Keeps-view Keeps-statement)
        λ _. Keeps-bind _ _ k λ a. Keeps-bind _ _ (Keeps-view Keeps-statement) λ _. Keeps-pure a

  pub Keeps-transaction_view :
      {A : Type 0} (body : Exec Store StoreError A)
      → Keeps (λ s. view s.db) body
      → Keeps (λ s. view s.db) (transaction body)
  unfolding transaction
  Keeps-transaction_view body k = record { at = λ s. kept_view s.db _ ((framed_view body k).at s) }

  pub KeepsErr-view :
      {A : Type 0} {m : Exec Store StoreError A} → KeepsErr database m → KeepsErr (λ s. view s.db) m
  KeepsErr-view k = record { at_err = λ s e h. ap view (k.at_err s e h) }
