-- ===== src/Storage/Database/Guarded.antt =====
-- A write outside a transaction, followed by the check that it has affected a row.
use dav_deck.Common.{◌≡◌, refl, Bool, true, false, not, List, [], ◌∷◌, err}
use dav_deck.Common.Exec.{gets, fail_if, modify, ◌>>=◌}
use dav_deck.Common.Exec.Keeps.{KeepsErr}
use dav_deck.Storage.Database.{Database, StoreError, statement, answer, write}
use dav_deck.Storage.Database.Atomic.{database}

checked :
    (f : Bool → Database → Database) (b : Bool) (missing : StoreError) (db : Database)
    (faults : List Bool)
    → (b ≡ false → f b db ≡ db)
    → (e : StoreError)
    → ((write (f b) >>= λ _. fail_if (not b) missing) (record { db = db; faults = faults })).0
      ≡ err e
    → ((write (f b) >>= λ _. fail_if (not b) missing) (record { db = db; faults = faults })).1.db
      ≡ db
unfolding write statement answer modify ◌>>=◌ fail_if
checked f true missing db [] h e same = absurd (cc)
checked f false missing db [] h e same = h refl
checked f b missing db (true ∷ faults) h e same = refl
checked f true missing db (false ∷ faults) h e same = absurd (cc)
checked f false missing db (false ∷ faults) h e same = h refl

-- Where no row is affected, the write has changed nothing.
pub KeepsErr-checked :
    (test : Database → Bool) (f : Bool → Database → Database) (missing : StoreError)
    → ((db : Database) → test db ≡ false → f (test db) db ≡ db)
    → KeepsErr database
        (gets (λ s. test s.db) >>= λ b. write (f b) >>= λ _. fail_if (not b) missing)
unfolding gets ◌>>=◌
KeepsErr-checked test f missing h = record {
  at_err = λ s e same. checked f (test s.db) missing s.db s.faults (h s.db) e same;
}
