-- ===== src/Storage/Sound/PermissionRows.antt =====
-- The operations of core/internal/storage/permission_repository.go and the constraints of the schema.
use dav_deck.Common.{
  ◌≡◌, refl, Bool, true, false, not, List, [], ◌∷◌, any, all, if◌then◌else◌, arith,
}
use dav_deck.Common.Text.Laws.{text_eq_sym}
use dav_deck.Domain.Id.{EntityId}
use dav_deck.Domain.Timestamp.{Timestamp}
use dav_deck.Domain.User.{User}
use dav_deck.Domain.Share.{Share, SharePermission}
use dav_deck.Storage.Database.{Database}
use dav_deck.Storage.Database.Symbolic.{
  From, From-statement, From-gets, From-fail_if, From-end_modify, From-write, From-end_fail_if,
}
use dav_deck.Storage.Rows.{delete_where}
use dav_deck.Storage.Rows.Laws.{any-delete_where, all-delete_where}
use dav_deck.Storage.Permissions
use dav_deck.Storage.Permissions.{has_key, is_allowed, with_permissions, upsert}
use dav_deck.Storage.Sound.{IsSound, refers, has_distinct_keys}

pub keys-delete_where :
    (test : SharePermission → Bool) (rows : List SharePermission)
    → has_distinct_keys rows ≡ true
    → has_distinct_keys (delete_where test rows) ≡ true
unfolding delete_where
keys-delete_where test [] h = refl
keys-delete_where test (p ∷ rows) h =
    ground (
      arith,
      keys-delete_where test rows,
      any-delete_where (has_key p.share_id p.user_id) test rows,
    )

pub if-IsSound :
    (b : Bool) (changed db : Database)
    → IsSound changed
    → IsSound db
    → IsSound (if b then changed else db)
if-IsSound true changed db h k = h
if-IsSound false changed db h k = k

-- A key that no row has and that is not the one of the upserted row is still free.
free_key-upsert :
    (share_id user_id : EntityId) (p : SharePermission) (rows : List SharePermission)
    → any (has_key share_id user_id) rows ≡ false
    → has_key share_id user_id p ≡ false
    → any (has_key share_id user_id) (upsert p rows) ≡ false
unfolding upsert
free_key-upsert share_id user_id p [] h k = ground arith
free_key-upsert share_id user_id p (q ∷ rows) h k =
    ground (arith, free_key-upsert share_id user_id p rows)

keys-upsert :
    (p : SharePermission) (rows : List SharePermission)
    → has_distinct_keys rows ≡ true
    → has_distinct_keys (upsert p rows) ≡ true
unfolding upsert
keys-upsert p [] h = refl
keys-upsert p (q ∷ rows) h = ground (
  arith,
  keys-upsert p rows,
  free_key-upsert q.share_id q.user_id p rows,
  text_eq_sym q.share_id p.share_id,
  text_eq_sym q.user_id p.user_id,
)

-- An upserted permission: each row is one of before or has the key of the new one.
all-upsert :
    (users : List User) (shares : List Share) (p : SharePermission) (rows : List SharePermission)
    → refers shares users p ≡ true
    → all (refers shares users) rows ≡ true
    → all (refers shares users) (upsert p rows) ≡ true
unfolding upsert
all-upsert users shares p [] h k = ground arith
all-upsert users shares p (q ∷ rows) h k = ground (arith, all-upsert users shares p rows)

set_permission-IsSound :
    (now : Timestamp) (p : SharePermission) (db : Database)
    → is_allowed p db ≡ true
    → IsSound db
    → IsSound (with_permissions now (upsert p) db)
set_permission-IsSound now p db allowed sound = record {
  user_ids = sound.user_ids;
  usernames = sound.usernames;
  share_ids = sound.share_ids;
  share_slugs = sound.share_slugs;
  references =
      all-upsert db.tables.users db.tables.shares p db.tables.share_permissions (ground arith)
        sound.references;
  permission_keys = keys-upsert p db.tables.share_permissions sound.permission_keys;
}

without_permission-IsSound :
    (now : Timestamp) (share_id user_id : EntityId) (db : Database)
    → IsSound db
    → IsSound (with_permissions now (delete_where (has_key share_id user_id)) db)
without_permission-IsSound now share_id user_id db sound = record {
  user_ids = sound.user_ids;
  usernames = sound.usernames;
  share_ids = sound.share_ids;
  share_slugs = sound.share_slugs;
  references =
      all-delete_where (refers db.tables.shares db.tables.users) (has_key share_id user_id)
        db.tables.share_permissions sound.references;
  permission_keys =
      keys-delete_where (has_key share_id user_id) db.tables.share_permissions
        sound.permission_keys;
}

allowed_of : (b : Bool) → not b ≡ false → b ≡ true
allowed_of true h = refl
allowed_of false h = cc

pub set-IsSound :
    (now : Timestamp) (p : SharePermission) (db : Database)
    → IsSound db
    → From db (Permissions.set now p) (λ _ after. IsSound after)
unfolding Permissions.set
set-IsSound now p db sound = From-statement _ _ _ λ _. From-gets _ _ _ _ (
    From-fail_if _ _ _ _ _ λ allowed _.
      From-end_modify _ _ _
        λ _. set_permission-IsSound now p db (allowed_of (is_allowed p db) allowed) sound)

pub unset-IsSound :
    (now : Timestamp) (share_id user_id : EntityId) (db : Database)
    → IsSound db
    → From db (Permissions.delete now share_id user_id) (λ _ after. IsSound after)
unfolding Permissions.delete
unset-IsSound now share_id user_id db sound = From-gets _ _ _ _ (
    From-write _ _ _ _ λ _. From-end_fail_if _ _ _ _ λ _ _.
      if-IsSound (any (has_key share_id user_id) db.tables.share_permissions)
        (with_permissions now (delete_where (has_key share_id user_id)) db) db
        (without_permission-IsSound now share_id user_id db sound) sound)
