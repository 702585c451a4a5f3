-- ===== src/Storage/Users.antt =====
-- core/internal/storage/user_repository.go over the table `users` of core/migrations, whose deletions
-- cascade to the permissions. An insert that clashes in its id and in its name is reported as a clash
-- of the names; each statement gets the time at which its triggers run.
use dav_deck.Common.{Bool, List, [], ◌∷◌, ◌++◌, any, Option, none, some, if◌then◌else◌}
use dav_deck.Common.Text.{Text, CaseTables, text_eq, text_lt}
use dav_deck.Common.Sorting.{sort_slice}
use dav_deck.Common.Exec.{Exec, raise, gets, fail_if, modify, ◌>>=◌, ◌>>◌}
use dav_deck.Domain.Id.{EntityId}
use dav_deck.Domain.Timestamp.{Timestamp}
use dav_deck.Domain.User.{User}
use dav_deck.Domain.Snapshot.{by_keys}
use dav_deck.Storage.Database.{
  Database, Store, StoreError, user_not_found, user_already_exists, constraint_violated, statement,
  write,
}
use dav_deck.Storage.Rows.{
  scanned, scan_all, scan_user, first, rows_where, update_where, delete_where, mark_dirty,
  expect_affected,
}

abbrev pub has_id : EntityId → User → Bool
has_id id u = text_eq u.id id

-- `ORDER BY username_normalized, id`
abbrev pub by_name : User → User → Bool
by_name a b = by_keys a.username_normalized a.id b.username_normalized b.id

-- The change of the table `users`, with the trigger.
abbrev pub with_users : Timestamp → (List User → List User) → Database → Database
with_users now f db =
    mark_dirty now (record db { tables = record db.tables { users = f db.tables.users } })

-- `DELETE FROM users WHERE id = ?` with `ON DELETE CASCADE`, where there is such a row.
unfoldable pub without_user : Timestamp → EntityId → Database → Database
unfolding delete_where
without_user now id db = mark_dirty now (record db {
  tables = record db.tables {
    users = delete_where (has_id id) db.tables.users;
    share_permissions = delete_where (λ p. text_eq p.user_id id) db.tables.share_permissions;
  };
})

unfoldable pub found : ⦃tables : CaseTables⦄ → Option User → Exec Store StoreError User
found none = raise user_not_found
found (some row) = scanned (scan_user row)

module _ ⦃tables : CaseTables⦄ where
  -- `List`
  unfoldable pub list : Exec Store StoreError (List User)
  unfolding scanned sort_slice text_eq text_lt
  list = do
    statement
    rows ← gets (λ s. sort_slice by_name s.db.tables.users)
    scanned (scan_all scan_user rows)

  -- `Get`
  unfoldable pub get : EntityId → Exec Store StoreError User
  unfolding found
  get id = do
    statement
    row ← gets (λ s. first (rows_where (has_id id) s.db.tables.users))
    found row

-- `Create`
unfoldable pub create : Timestamp → User → Exec Store StoreError (Unit {0})
create now u = do
  statement
  same_name ←
      gets (λ s. any (λ v. text_eq v.username_normalized u.username_normalized) s.db.tables.users)
  fail_if same_name user_already_exists
  same_id ← gets (λ s. any (has_id u.id) s.db.tables.users)
  fail_if same_id constraint_violated
  modify (λ s. record s { db = with_users now (λ users. users ++ u ∷ []) s.db })

-- `Delete`
unfoldable pub delete : Timestamp → EntityId → Exec Store StoreError (Unit {0})
unfolding without_user
delete now id = do
  exists ← gets (λ s. any (has_id id) s.db.tables.users)
  write (λ db. if any (has_id id) db.tables.users then without_user now id db else db)
  expect_affected exists user_not_found

-- An `UPDATE … WHERE id = ?` of the table.
unfoldable pub update_user : Timestamp → EntityId → (User → User) → Exec Store StoreError (Unit {0})
update_user now id change = do
  exists ← gets (λ s. any (has_id id) s.db.tables.users)
  write (λ db.
      if any (has_id id) db.tables.users
      then with_users now (update_where (has_id id) change) db
      else db)
  expect_affected exists user_not_found

-- `SetEnabled`
unfoldable pub set_enabled :
    Timestamp → EntityId → Bool → Timestamp → Exec Store StoreError (Unit {0})
unfolding update_user
set_enabled now id enabled updated =
    update_user now id (λ u. record u { enabled = enabled; updated_at = updated })

-- `SetPasswordHash`
unfoldable pub set_password_hash :
    Timestamp → EntityId → Text → Timestamp → Exec Store StoreError (Unit {0})
unfolding update_user
set_password_hash now id hash updated =
    update_user now id (λ u. record u { password_hash = hash; updated_at = updated })
