-- ===== src/Storage/Revisions.antt =====
-- core/internal/storage/revision_repository.go, without `RestoreState`. A row that is read is
-- validated again, as `scanRevision` does; the text form of times is left out.
pub mod Applied
pub mod Operations
pub mod Outcomes
pub mod Preserved
pub mod Reads
pub mod Unique
pub mod WellFormed
pub mod Writes
use dav_deck.Common.{
  ℕ, ◌+◌, ◌-◌, Bool, true, false, not, ◌&&◌, ◌||◌, ◌==◌, ltb, List, [], ◌∷◌, Option, none, some,
  any, Result, ok, err, wrap, if◌then◌else◌,
}
use mathlib.Core.Option
use dav_deck.Common.Sorting.{sort_slice}
use dav_deck.Common.Text.{Text, CaseTables, text_eq, is_empty}
use dav_deck.Common.Exec.{Exec, pure, raise, lift, gets, fail_if, ◌>>=◌, ◌>>◌}
use dav_deck.Domain.Id.{EntityId, parse_id}
use dav_deck.Domain.Timestamp.{Timestamp}
use dav_deck.Domain.Revision.{ConfigRevision, Digest, is_valid, applied, failed, validate_revision}
use dav_deck.Domain.State.{Codec, SnapshotError, hash_revision_state_snapshot}
use dav_deck.Storage.Database.{
  Database, RuntimeState, Store, StoreError, revision_not_found, revision_active, revision_desired,
  invalid_row, invalid_snapshot, state_hash_differs, constraint_violated, statement, write,
  transaction,
}

abbrev pub select : (ConfigRevision → Bool) → List ConfigRevision → List ConfigRevision
select test [] = []
select test (r ∷ rows) = let rest = select test rows in if test r then r ∷ rest else rest

-- `UPDATE … SET … WHERE …`
abbrev pub update :
    (ConfigRevision → Bool)
    → (ConfigRevision → ConfigRevision)
    → List ConfigRevision
    → List ConfigRevision
update test change [] = []
update test change (r ∷ rows) = (if test r then change r else r) ∷ update test change rows

-- `WHERE id = ?`
abbrev pub has_id : EntityId → ConfigRevision → Bool
has_id id r = text_eq r.id id

-- `WHERE id = ? AND validation_status = 'VALID'`
abbrev pub has_valid_id : EntityId → ConfigRevision → Bool
has_valid_id id r = text_eq r.id id && is_valid r.validation_status

-- A nullable column against a value.
abbrev pub refers_to : Option EntityId → EntityId → Bool
refers_to none id = false
refers_to (some other) id = text_eq other id

abbrev pub set_applied : ConfigRevision → ConfigRevision
set_applied r = record r { apply_status = applied; error_code = []; error_summary = [] }

abbrev pub set_failed : Text → Text → ConfigRevision → ConfigRevision
set_failed code summary r = record r {
  apply_status = failed;
  error_code = code;
  error_summary = summary;
}

-- `ORDER BY revision_number DESC`
abbrev pub newest_first : List ConfigRevision → List ConfigRevision
newest_first rows = sort_slice (λ a b. ltb b.number a.number) rows

abbrev pub lookup_first : List ConfigRevision → Option ConfigRevision
lookup_first [] = none
lookup_first (r ∷ rows) = some r

-- `expectRevisionAffected`, over the rows that the condition of the update held of.
abbrev pub expect_affected : Bool → Exec Store StoreError (Unit {0})
expect_affected any_row = fail_if (not any_row) revision_not_found

abbrev pub with_rows : (List ConfigRevision → List ConfigRevision) → Database → Database
with_rows f db = record db { config_revisions = f db.config_revisions }

abbrev pub with_state : (RuntimeState → RuntimeState) → Database → Database
with_state f db = record db { runtime_state = f db.runtime_state }

-- The update of `runtime_state` that makes a revision the desired one, or also the active one.
abbrev pub set_desired_row : EntityId → Timestamp → RuntimeState → RuntimeState
set_desired_row id updated s = record s {
  desired_revision_id = some id;
  dirty = false;
  updated_at = updated;
}

abbrev pub set_active_row : EntityId → Timestamp → RuntimeState → RuntimeState
set_active_row id updated s = record {
  desired_revision_id = some id;
  active_revision_id = some id;
  dirty = false;
  updated_at = updated;
}

unfoldable pub set_desired : EntityId → Timestamp → Exec Store StoreError (Unit {0})
set_desired id updated = do
  exists ← gets (λ s. any (has_id id) s.db.config_revisions)
  write (λ db. if exists then with_state (set_desired_row id updated) db else db)
  expect_affected exists

-- The two statements of `MarkApplied`, with its check between them.
unfoldable pub activate_rows : EntityId → Timestamp → Exec Store StoreError (Unit {0})
activate_rows id updated = do
  exists ← gets (λ s. any (has_valid_id id) s.db.config_revisions)
  write (with_rows (update (has_valid_id id) set_applied))
  expect_affected exists
  write (with_state (set_active_row id updated))

unfoldable pub mark_applied : EntityId → Timestamp → Exec Store StoreError (Unit {0})
unfolding activate_rows
mark_applied id updated = transaction (activate_rows id updated)

unfoldable pub mark_failed : EntityId → Text → Text → Exec Store StoreError (Unit {0})
mark_failed id code summary = do
  exists ← gets (λ s. any (has_valid_id id) s.db.config_revisions)
  write (with_rows (update (has_valid_id id) (set_failed code summary)))
  expect_affected exists

unfoldable pub delete_row : EntityId → Exec Store StoreError (Unit {0})
delete_row id = do
  statement
  state ← gets (λ s. s.db.runtime_state)
  fail_if (refers_to state.active_revision_id id) revision_active
  fail_if (refers_to state.desired_revision_id id) revision_desired
  exists ← gets (λ s. any (has_id id) s.db.config_revisions)
  write (with_rows (select (λ r. not (has_id id r))))
  expect_affected exists

-- `Delete`
unfoldable pub delete : EntityId → Exec Store StoreError (Unit {0})
unfolding delete_row
delete id = transaction (delete_row id)

module _ ⦃tables : CaseTables⦄ ⦃digest : Digest⦄ where
  unfoldable pub scan_revision : ConfigRevision → Exec Store StoreError ConfigRevision
  scan_revision row = do
    lift (wrap invalid_row (parse_id row.id))
    lift (wrap invalid_row (validate_revision row))
    pure row

  unfoldable pub scan_revisions : List ConfigRevision → Exec Store StoreError (List ConfigRevision)
  scan_revisions [] = pure []
  scan_revisions (row ∷ rows) = do
    r ← scan_revision row
    rest ← scan_revisions rows
    pure (r ∷ rest)

  scan_first : Option ConfigRevision → Exec Store StoreError (Option ConfigRevision)
  scan_first none = pure none
  scan_first (some row) = do r ← scan_revision row; pure (some r)

  -- A query for one row: `none` where there is none (`sql.ErrNoRows`).
  unfoldable pub query_row :
      (Database → List ConfigRevision) → Exec Store StoreError (Option ConfigRevision)
  unfolding scan_first
  query_row rows = do statement; found ← gets (λ s. lookup_first (rows s.db)); scan_first found

  unfoldable pub list_revisions : Exec Store StoreError (List ConfigRevision)
  list_revisions = do
    statement
    rows ← gets (λ s. newest_first s.db.config_revisions)
    scan_revisions rows

  found_or : Option ConfigRevision → Exec Store StoreError ConfigRevision
  found_or none = raise revision_not_found
  found_or (some r) = pure r

  -- `Get`
  unfoldable pub get_revision : EntityId → Exec Store StoreError ConfigRevision
  unfolding found_or
  get_revision id = do
    found ← query_row (λ db. select (has_id id) db.config_revisions)
    found_or found

  -- `Active`
  unfoldable pub active_revision : Exec Store StoreError (Option ConfigRevision)
  active_revision =
      query_row
        (λ db. select (λ r. refers_to db.runtime_state.active_revision_id r.id) db.config_revisions)

  module _ ⦃codec : Codec⦄ where
    -- The condition of the identity query. An empty snapshot stands for the text '' that migration 0007
    -- gives to older rows; a zero-length BLOB, which SQLite tells from it, is left out.
    abbrev pub has_identity : Text → Text → ConfigRevision → Bool
    has_identity config_hash state_hash r =
        text_eq r.config_hash config_hash
        && text_eq r.state_hash state_hash
        && is_valid r.validation_status
        && not (is_empty r.state_snapshot_json)

    has_state_hash : Text → Result SnapshotError Text → Bool
    has_state_hash state_hash (ok computed) = text_eq computed state_hash
    has_state_hash state_hash (err e) = false

    -- The loop of `findLegacyByIdentity`: a snapshot that cannot be hashed is passed over.
    first_legacy : Text → List ConfigRevision → Exec Store StoreError (Option ConfigRevision)
    unfolding has_state_hash
    first_legacy state_hash [] = pure none
    first_legacy state_hash (row ∷ rows) = do
      r ← scan_revision row
      if has_state_hash state_hash (hash_revision_state_snapshot r.state_snapshot_json)
          then pure (some r)
          else first_legacy state_hash rows

    find_legacy_by_identity : Text → Text → Exec Store StoreError (Option ConfigRevision)
    unfolding first_legacy
    find_legacy_by_identity config_hash state_hash = do
      statement
      rows ← gets (λ s. newest_first (select (has_identity config_hash []) s.db.config_revisions))
      first_legacy state_hash rows

    or_legacy : Text → Text → Option ConfigRevision → Exec Store StoreError (Option ConfigRevision)
    or_legacy config_hash state_hash none = find_legacy_by_identity config_hash state_hash
    or_legacy config_hash state_hash (some r) = pure (some r)

    unfoldable pub find_by_identity : Text → Text → Exec Store StoreError (Option ConfigRevision)
    unfolding find_legacy_by_identity or_legacy
    find_by_identity config_hash state_hash = do
      found ←
          query_row
            (λ db. newest_first (select (has_identity config_hash state_hash) db.config_revisions))
      or_legacy config_hash state_hash found

    -- The state hash that is stored: the given one must be that of the snapshot.
    unfoldable pub stored_state_hash : ConfigRevision → Exec Store StoreError Text
    stored_state_hash r = if is_empty r.state_snapshot_json then pure r.state_hash else (do
      computed ← lift (wrap invalid_snapshot (hash_revision_state_snapshot r.state_snapshot_json))
      fail_if (not (is_empty r.state_hash) && not (text_eq r.state_hash computed))
          state_hash_differs
      pure computed)

    unfoldable pub insert_revision : ConfigRevision → Exec Store StoreError ConfigRevision
    insert_revision revision = do
      write (λ db. record db { next_number = db.next_number + 1 })
      statement
      next ← gets (λ s. s.db.next_number)
      let r = record revision { number = next - 1 }
      lift (wrap invalid_row (validate_revision r))
      taken ← gets (λ s. any (λ q. has_id r.id q || q.number == r.number) s.db.config_revisions)
      fail_if taken constraint_violated
      write (with_rows (λ rows. r ∷ rows))
      write (with_state (set_desired_row r.id r.created_at))
      pure r

    unfoldable pub create : ConfigRevision → Exec Store StoreError ConfigRevision
    unfolding stored_state_hash insert_revision
    create revision = do
      state_hash ← stored_state_hash revision
      transaction (insert_revision (record revision { state_hash = state_hash }))

-- `app.RevisionState`
pub record RevisionState : Type 0 where
  pub desired_revision : Option ℕ
  pub active_revision_number : Option ℕ
  pub dirty : Bool
  pub pending : Bool

unfoldable pub same_revision : Option ℕ → Option ℕ → Bool
same_revision none none = true
same_revision (some left) (some right) = left == right
same_revision _ _ = false

-- The number of the revision that a column refers to, by the `LEFT JOIN`.
unfoldable pub joined_number : Option EntityId → List ConfigRevision → Option ℕ
joined_number id rows =
    Option.map (λ r. r.number) (lookup_first (select (λ r. refers_to id r.id) rows))

unfoldable pub state_of : Database → RevisionState
unfolding joined_number same_revision
state_of db =
    let desired = joined_number db.runtime_state.desired_revision_id db.config_revisions in
    let active = joined_number db.runtime_state.active_revision_id db.config_revisions in
    record {
      desired_revision = desired;
      active_revision_number = active;
      dirty = db.runtime_state.dirty;
      pending = db.runtime_state.dirty || not (same_revision desired active);
    }

-- `State`
unfoldable pub state : Exec Store StoreError RevisionState
unfolding state_of
state = do statement; gets (λ s. state_of s.db)
