-- ===== src/Storage/Shares.antt =====
-- core/internal/storage/share_repository.go over the table `shares` of core/migrations, whose deletions
-- cascade to the permissions. An insert that clashes in its id and in its slug is reported as a clash
-- of the slugs.
use dav_deck.Common.{Bool, not, ◌&&◌, List, [], ◌∷◌, ◌++◌, any, Option, none, some, if◌then◌else◌}
use dav_deck.Common.Text.{CaseTables, text_eq, text_lt}
use dav_deck.Common.Sorting.{sort_slice}
use dav_deck.Common.Exec.{Exec, raise, gets, fail_if, modify, ◌>>=◌, ◌>>◌}
use dav_deck.Domain.Id.{EntityId}
use dav_deck.Domain.Timestamp.{Timestamp}
use dav_deck.Domain.Share.{Share}
use dav_deck.Domain.Snapshot.{by_keys}
use dav_deck.Storage.Database.{
  Database, Store, StoreError, share_not_found, share_already_exists, constraint_violated,
  statement, write,
}
use dav_deck.Storage.Rows.{
  scanned, scan_all, scan_share, first, rows_where, update_where, delete_where, mark_dirty,
  expect_affected,
}

abbrev pub has_id : EntityId → Share → Bool
has_id id s = text_eq s.id id

-- `ORDER BY slug, id`
abbrev pub by_slug : Share → Share → Bool
by_slug a b = by_keys a.slug a.id b.slug b.id

abbrev pub with_shares : Timestamp → (List Share → List Share) → Database → Database
with_shares now f db =
    mark_dirty now (record db { tables = record db.tables { shares = f db.tables.shares } })

-- `DELETE FROM shares WHERE id = ?` with `ON DELETE CASCADE`, where there is such a row.
unfoldable pub without_share : Timestamp → EntityId → Database → Database
unfolding delete_where
without_share now id db = mark_dirty now (record db {
  tables = record db.tables {
    shares = delete_where (has_id id) db.tables.shares;
    share_permissions = delete_where (λ p. text_eq p.share_id id) db.tables.share_permissions;
  };
})

unfoldable pub found : ⦃tables : CaseTables⦄ → Option Share → Exec Store StoreError Share
found none = raise share_not_found
found (some row) = scanned (scan_share row)

module _ ⦃tables : CaseTables⦄ where
  -- `List`
  unfoldable pub list : Exec Store StoreError (List Share)
  unfolding scanned sort_slice text_eq text_lt
  list = do
    statement
    rows ← gets (λ s. sort_slice by_slug s.db.tables.shares)
    scanned (scan_all scan_share rows)

  -- `Get`
  unfoldable pub get : EntityId → Exec Store StoreError Share
  unfolding found
  get id = do
    statement
    row ← gets (λ s. first (rows_where (has_id id) s.db.tables.shares))
    found row

-- `Create`
unfoldable pub create : Timestamp → Share → Exec Store StoreError (Unit {0})
create now share = do
  statement
  same_slug ← gets (λ s. any (λ other. text_eq other.slug share.slug) s.db.tables.shares)
  fail_if same_slug share_already_exists
  same_id ← gets (λ s. any (has_id share.id) s.db.tables.shares)
  fail_if same_id constraint_violated
  modify (λ s. record s { db = with_shares now (λ shares. shares ++ share ∷ []) s.db })

-- The columns that `Update` sets.
abbrev pub set_columns : Share → Share → Share
set_columns new old = record old {
  name = new.name;
  slug = new.slug;
  path = new.path;
  enabled = new.enabled;
  updated_at = new.updated_at;
}

-- `Update`: the slug may not be that of another row.
unfoldable pub update : Timestamp → Share → Exec Store StoreError (Unit {0})
unfolding update_where
update now share = do
  statement
  exists ← gets (λ s. any (has_id share.id) s.db.tables.shares)
  same_slug ← gets (λ s.
      any (λ other. text_eq other.slug share.slug && not (has_id share.id other))
        s.db.tables.shares)
  fail_if (exists && same_slug) share_already_exists
  modify (λ s. record s {
    db =
        if exists
        then with_shares now (update_where (has_id share.id) (set_columns share)) s.db
        else s.db;
  })
  expect_affected exists share_not_found

-- `Delete`
unfoldable pub delete : Timestamp → EntityId → Exec Store StoreError (Unit {0})
unfolding without_share
delete now id = do
  exists ← gets (λ s. any (has_id id) s.db.tables.shares)
  write (λ db. if any (has_id id) db.tables.shares then without_share now id db else db)
  expect_affected exists share_not_found
