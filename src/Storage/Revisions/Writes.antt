-- ===== src/Storage/Revisions/Writes.antt =====
-- The writes of core/internal/storage/revision_repository.go and two views of the database: the tables
-- of the desired state and the active revision.
use dav_deck.Common.{◌≡◌, refl, if◌then◌else◌, Bool, true, false, Option}
use dav_deck.Common.Text.{Text, CaseTables}
use dav_deck.Common.Exec.Keeps.{Keeps, KeepsErr, Keeps-bind, keeps_rules}
use dav_deck.Domain.Id.{EntityId}
use dav_deck.Domain.Timestamp.{Timestamp}
use dav_deck.Domain.Revision.{ConfigRevision, Digest}
use dav_deck.Domain.State.{Codec}
use dav_deck.Storage.Database.{Database, Tables, Store, statement, write}
use dav_deck.Storage.Database.Atomic.{
  database, Keeps-view, Keeps-write, Keeps-statement, Keeps-transaction_view, KeepsErr-transaction,
}
use dav_deck.Storage.Revisions.{
  set_desired, activate_rows, mark_applied, mark_failed, insert_revision, create,
}
use dav_deck.Storage.Revisions.Reads.{Keeps-stored_state_hash}

-- The two views, of a store.
abbrev pub tables : Store → Tables
tables s = s.db.tables

abbrev pub active : Store → Option EntityId
active s = s.db.runtime_state.active_revision_id

abbrev tables_of : Database → Tables
tables_of db = db.tables

abbrev active_of : Database → Option EntityId
active_of db = db.runtime_state.active_revision_id

Keeps-statement_tables : Keeps tables statement
Keeps-statement_tables = Keeps-view tables_of Keeps-statement

Keeps-statement_active : Keeps active statement
Keeps-statement_active = Keeps-view active_of Keeps-statement

Keeps-write_tables :
    (f : Database → Database)
    → ((db : Database) → (f db).tables ≡ db.tables)
    → Keeps tables (write f)
Keeps-write_tables f h = Keeps-write tables_of f h

Keeps-write_active :
    (f : Database → Database)
    → ((db : Database)
        → (f db).runtime_state.active_revision_id ≡ db.runtime_state.active_revision_id)
    → Keeps active (write f)
Keeps-write_active f h = Keeps-write active_of f h

ruleset writes_rules = (
  keeps_rules, Keeps-statement_tables, Keeps-statement_active, Keeps-write_tables,
  Keeps-write_active,
)

guarded :
    {B : Type 0} (view : Database → B) (exists : Bool) (f : Database → Database)
    → ((db : Database) → view (f db) ≡ view db)
    → (db : Database) → view (if exists then f db else db) ≡ view db
guarded view true f h db = h db
guarded view false f h db = refl

pub Keeps-set_desired_active :
    (id : EntityId) (updated : Timestamp) → Keeps active (set_desired id updated)
unfolding set_desired
Keeps-set_desired_active id updated = search (writes_rules, guarded active_of)

pub Keeps-set_desired_tables :
    (id : EntityId) (updated : Timestamp) → Keeps tables (set_desired id updated)
unfolding set_desired
Keeps-set_desired_tables id updated = search (writes_rules, guarded tables_of)

pub Keeps-mark_failed_active :
    (id : EntityId) (code summary : Text) → Keeps active (mark_failed id code summary)
unfolding mark_failed
Keeps-mark_failed_active id code summary = search writes_rules

pub Keeps-mark_failed_tables :
    (id : EntityId) (code summary : Text) → Keeps tables (mark_failed id code summary)
unfolding mark_failed
Keeps-mark_failed_tables id code summary = search writes_rules

Keeps-activate_rows_tables :
    (id : EntityId) (updated : Timestamp) → Keeps tables (activate_rows id updated)
unfolding activate_rows
Keeps-activate_rows_tables id updated = search writes_rules

pub Keeps-mark_applied_tables :
    (id : EntityId) (updated : Timestamp) → Keeps tables (mark_applied id updated)
unfolding mark_applied
Keeps-mark_applied_tables id updated =
    Keeps-transaction_view tables_of _ (Keeps-activate_rows_tables id updated)

pub KeepsErr-mark_applied :
    (id : EntityId) (updated : Timestamp) → KeepsErr database (mark_applied id updated)
unfolding mark_applied
KeepsErr-mark_applied id updated = KeepsErr-transaction _

module _ ⦃case_tables : CaseTables⦄ ⦃digest : Digest⦄ ⦃codec : Codec⦄ where
  Keeps-insert_revision_active : (r : ConfigRevision) → Keeps active (insert_revision r)
  unfolding insert_revision
  Keeps-insert_revision_active r = search writes_rules depth 16

  Keeps-insert_revision_tables : (r : ConfigRevision) → Keeps tables (insert_revision r)
  unfolding insert_revision
  Keeps-insert_revision_tables r = search writes_rules depth 16

  pub Keeps-create_active : (r : ConfigRevision) → Keeps active (create r)
  unfolding create
  Keeps-create_active r =
      Keeps-bind _ _ (Keeps-view active_of (Keeps-stored_state_hash r)) λ state_hash.
        Keeps-transaction_view active_of _
          (Keeps-insert_revision_active (record r { state_hash = state_hash }))

  pub Keeps-create_tables : (r : ConfigRevision) → Keeps tables (create r)
  unfolding create
  Keeps-create_tables r =
      Keeps-bind _ _ (Keeps-view tables_of (Keeps-stored_state_hash r)) λ state_hash.
        Keeps-transaction_view tables_of _
          (Keeps-insert_revision_tables (record r { state_hash = state_hash }))
