-- ===== src/Storage/Permissions.antt =====
-- core/internal/storage/permission_repository.go over the table `share_permissions` of core/migrations.
use dav_deck.Common.{Bool, not, ◌&&◌, List, [], ◌∷◌, any, if◌then◌else◌}
use dav_deck.Common.Text.{CaseTables, text_eq, text_lt}
use dav_deck.Common.Sorting.{sort_slice}
use dav_deck.Common.Exec.{Exec, gets, fail_if, modify, ◌>>=◌, ◌>>◌}
use dav_deck.Domain.Id.{EntityId}
use dav_deck.Domain.Timestamp.{Timestamp}
use dav_deck.Domain.Share.{SharePermission, permission_valid}
use dav_deck.Domain.Snapshot.{by_keys, permission_less}
use dav_deck.Storage.Database.{
  Database, Store, StoreError, permission_not_found, constraint_violated, statement, write,
}
use dav_deck.Storage.Rows.{
  scanned, scan_all, scan_permission, rows_where, delete_where, mark_dirty, expect_affected,
}
use dav_deck.Storage.Users
use dav_deck.Storage.Shares

-- The primary key.
abbrev pub has_key : EntityId → EntityId → SharePermission → Bool
has_key share_id user_id p = text_eq p.share_id share_id && text_eq p.user_id user_id

abbrev pub with_permissions :
    Timestamp → (List SharePermission → List SharePermission) → Database → Database
with_permissions now f db =
    mark_dirty now (record db {
      tables = record db.tables { share_permissions = f db.tables.share_permissions };
    })

module _ ⦃tables : CaseTables⦄ where
  -- `ListByShare`
  unfoldable pub list_by_share : EntityId → Exec Store StoreError (List SharePermission)
  unfolding scanned sort_slice rows_where text_eq text_lt
  list_by_share share_id = do
    statement
    rows ← gets (λ s.
        sort_slice permission_less
          (rows_where (λ p. text_eq p.share_id share_id) s.db.tables.share_permissions))
    scanned (scan_all scan_permission rows)

  -- `ListByUser`
  unfoldable pub list_by_user : EntityId → Exec Store StoreError (List SharePermission)
  unfolding scanned sort_slice rows_where text_eq text_lt
  list_by_user user_id = do
    statement
    rows ← gets (λ s.
        sort_slice (λ a b. text_lt a.share_id b.share_id)
          (rows_where (λ p. text_eq p.user_id user_id) s.db.tables.share_permissions))
    scanned (scan_all scan_permission rows)

  -- `ListAll`
  unfoldable pub list_all : Exec Store StoreError (List SharePermission)
  unfolding scanned sort_slice text_eq text_lt
  list_all = do
    statement
    rows ← gets (λ s.
        sort_slice (λ a b. by_keys a.share_id a.user_id b.share_id b.user_id)
          s.db.tables.share_permissions)
    scanned (scan_all scan_permission rows)

-- `INSERT … ON CONFLICT(share_id, user_id) DO UPDATE`: the time of creation of an old row stays.
unfoldable pub upsert : SharePermission → List SharePermission → List SharePermission
upsert p [] = p ∷ []
upsert p (q ∷ rows) =
    let rest = upsert p rows in
    if has_key p.share_id p.user_id q
    then record q { permission = p.permission; updated_at = p.updated_at } ∷ rows
    else q ∷ rest

-- The constraints of the schema: both references, and the values of `permission`.
abbrev pub is_allowed : SharePermission → Database → Bool
is_allowed p db =
    permission_valid p.permission
    && (any (Shares.has_id p.share_id) db.tables.shares
        && any (Users.has_id p.user_id) db.tables.users)

-- `Set`
unfoldable pub set : Timestamp → SharePermission → Exec Store StoreError (Unit {0})
unfolding upsert
set now p = do
  statement
  allowed ← gets (λ s. is_allowed p s.db)
  fail_if (not allowed) constraint_violated
  modify (λ s. record s { db = with_permissions now (upsert p) s.db })

-- `Delete`
unfoldable pub delete : Timestamp → EntityId → EntityId → Exec Store StoreError (Unit {0})
unfolding delete_where
delete now share_id user_id = do
  exists ← gets (λ s. any (has_key share_id user_id) s.db.tables.share_permissions)
  write (λ db.
      if any (has_key share_id user_id) db.tables.share_permissions
      then with_permissions now (delete_where (has_key share_id user_id)) db
      else db)
  expect_affected exists permission_not_found
