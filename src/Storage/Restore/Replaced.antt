-- ===== src/Storage/Restore/Replaced.antt =====
-- `RestoreState` as a whole, where it succeeds.
use dav_deck.Common.{◌≡◌, refl, subst, sym, Bool, Option, none, some, Result, ok}
use dav_deck.Common.Text.{CaseTables}
use dav_deck.Common.Exec.{gets, fail_if, lift}
use dav_deck.Common.Exec.Keeps.{Keeps, Keeps-pure, Keeps-raise}
use dav_deck.Domain.Id.{EntityId}
use dav_deck.Domain.Timestamp.{Timestamp}
use dav_deck.Domain.Revision.{Bytes, ConfigRevision, Digest}
use dav_deck.Domain.Input.{RuntimeConfigInput}
use dav_deck.Domain.State.{Codec}
use dav_deck.Storage.Database.{Database, Store, StoreError, write}
use dav_deck.Storage.Database.Atomic.{database}
use dav_deck.Storage.Database.After.{
  After, After-bind, After-imp, After-keeps, After-gets, After-lift, After-fail_if, After-statement,
  After-write, After-transaction,
}
use dav_deck.Storage.Restore.{stored_snapshot, restore_rows, restore_state}
use dav_deck.Storage.Restore.Contents.{Holds, From-replace_tables}

Keeps-stored_snapshot : (row : Option ConfigRevision) → Keeps database (stored_snapshot row)
unfolding stored_snapshot
Keeps-stored_snapshot none = Keeps-raise _
Keeps-stored_snapshot (some r) = Keeps-pure _

module _ {P : Database → Type 0} where
  same-gets : {A : Type 0} (f : Database → A) → After P (gets (λ s. f s.db)) (λ _. P)
  same-gets f = After-imp _ _ _ (After-gets f) λ _ db h. h.0

  same-lift : {A : Type 0} (r : Result StoreError A) → After P (lift r) (λ _. P)
  same-lift r = After-imp _ _ _ (After-lift r) λ _ db h. h.0

  same-fail_if : (b : Bool) (e : StoreError) → After P (fail_if b e) (λ _. P)
  same-fail_if b e = After-imp _ _ _ (After-fail_if b e) λ _ db h. h.0

  same-write :
      (f : Database → Database) → ((db : Database) → P db → P (f db)) → After P (write f) (λ _. P)
  same-write f k = After-imp _ _ _ (After-write f) λ _ db h. subst P (sym h.2) (k h.0 h.1)

After-restore_rows :
    (input : RuntimeConfigInput) (expected : Bytes) (id : EntityId) (stamp : Timestamp)
    → (d : Database)
    → After (λ db. db ≡ d) (restore_rows input expected id stamp) (λ _. Holds input)
unfolding restore_rows
After-restore_rows input expected id stamp d = After-bind _ _ _ _ After-statement λ _.
    After-bind _ _ _ _ (same-gets _) λ row.
      After-bind _ _ _ _ (After-keeps _ (Keeps-stored_snapshot row)) λ stored.
        After-bind _ _ _ _ (same-fail_if _ _) λ _. After-bind _ _ _ _ (same-fail_if _ _) λ _.
          After-bind _ _ _ _ (From-replace_tables d input) λ _.
            After-bind _ _ _ _ (same-gets _) λ exists.
              After-bind _ _ _ _
                (same-write _ λ db h. record {
                  settings = h.settings;
                  users = h.users;
                  shares = h.shares;
                  permissions = h.permissions;
                })
                λ _. After-bind _ _ _ _ (same-fail_if _ _) λ _. same-write _ λ db h. record {
                  settings = h.settings;
                  users = h.users;
                  shares = h.shares;
                  permissions = h.permissions;
                }

module _ ⦃tables : CaseTables⦄ ⦃digest : Digest⦄ ⦃codec : Codec⦄ where
  After-restore_state :
      (input : RuntimeConfigInput) (id : EntityId) (stamp : Timestamp) (d : Database)
      → After (λ db. db ≡ d) (restore_state input id stamp) (λ _. Holds input)
  unfolding restore_state
  After-restore_state input id stamp d = After-bind _ _ _ _ (same-lift _) λ _.
      After-bind _ _ _ _ (same-lift _)
        λ expected. After-transaction _ _ _ (After-restore_rows input expected id stamp d)

  -- Where `RestoreState` succeeds, the settings, users, shares and permissions of the database are
  -- exactly those of the restored state, whatever the tables held before.
  pub restore_replaces_tables :
      (input : RuntimeConfigInput) (id : EntityId) (stamp : Timestamp) (s : Store)
      → (restore_state input id stamp s).0 ≡ ok tt
      → Holds input (restore_state input id stamp s).1.db
  restore_replaces_tables input id stamp s h =
      (After-restore_state input id stamp s.db).at_ok s refl tt h
