-- ===== src/Storage/Sound/UserRows.antt =====
-- The operations of core/internal/storage/user_repository.go and the constraints of the schema.
use dav_deck.Common.{
  ◌≡◌, refl, ap, ◌∙◌, Bool, true, false, not, ◌&&◌, List, [], ◌∷◌, ◌++◌, any, all, all_weaken,
  all_ext, arith,
}
use dav_deck.Common.Text.{Text, text_eq}
use dav_deck.Domain.Id.{EntityId}
use dav_deck.Domain.Timestamp.{Timestamp}
use dav_deck.Domain.User.{User}
use dav_deck.Domain.Share.{Share, SharePermission}
use dav_deck.Storage.Database.{Database}
use dav_deck.Storage.Database.Symbolic.{
  From, From-statement, From-gets, From-fail_if, From-end_modify, From-write, From-end_fail_if,
}
use dav_deck.Storage.Rows.{delete_where, update_where}
use dav_deck.Storage.Rows.Laws.{
  any-append, all-delete_where, all-left, is_distinct-append, is_distinct-delete_where,
  is_distinct-update_where, any_key-update_where, any_key-delete_where,
}
use dav_deck.Storage.Users.{
  has_id, with_users, without_user, create, delete, update_user, set_enabled, set_password_hash,
}
use dav_deck.Storage.Sound.{IsSound, refers}
use dav_deck.Storage.Sound.PermissionRows.{keys-delete_where, if-IsSound}

with_users-IsSound :
    (now : Timestamp) (u : User) (db : Database)
    → any (λ v. text_eq v.username_normalized u.username_normalized) db.tables.users ≡ false
    → any (has_id u.id) db.tables.users ≡ false
    → IsSound db
    → IsSound (with_users now (λ users. users ++ u ∷ []) db)
with_users-IsSound now u db new_name new_id sound = record {
  user_ids = is_distinct-append (λ u. u.id) db.tables.users u new_id sound.user_ids;
  usernames =
      is_distinct-append (λ u. u.username_normalized) db.tables.users u new_name sound.usernames;
  share_ids = sound.share_ids;
  share_slugs = sound.share_slugs;
  references =
      all_weaken (refers db.tables.shares db.tables.users)
        (refers db.tables.shares (db.tables.users ++ u ∷ []))
        (λ p h. ground (arith, any-append (has_id p.user_id) db.tables.users u))
        db.tables.share_permissions sound.references;
  permission_keys = sound.permission_keys;
}

pub create-IsSound :
    (now : Timestamp) (u : User) (db : Database)
    → IsSound db
    → From db (create now u) (λ _ after. IsSound after)
unfolding create
create-IsSound now u db sound = From-statement _ _ _ λ _. From-gets _ _ _ _ (
    From-fail_if _ _ _ _ _ λ new_name _. From-gets _ _ _ _ (
      From-fail_if _ _ _ _ _
        λ new_id _. From-end_modify _ _ _ λ _. with_users-IsSound now u db new_name new_id sound))

-- The references of the permissions that the cascade leaves.
still_refer :
    (id : EntityId) (shares : List Share) (users : List User) (rows : List SharePermission)
    → all (refers shares users) rows ≡ true
    → all (λ p. not (text_eq p.user_id id)) rows ≡ true
    → all (refers shares (delete_where (has_id id) users)) rows ≡ true
still_refer id shares users [] h k = refl
still_refer id shares users (p ∷ rows) h k = ground (
  arith,
  still_refer id shares users rows,
  any_key-delete_where (λ (u : User). u.id) id p.user_id users,
)

without_user-IsSound :
    (now : Timestamp) (id : EntityId) (db : Database)
    → IsSound db
    → IsSound (without_user now id db)
unfolding without_user
without_user-IsSound now id db sound = record {
  user_ids = is_distinct-delete_where (λ u. u.id) (has_id id) db.tables.users sound.user_ids;
  usernames =
      is_distinct-delete_where (λ u. u.username_normalized) (has_id id) db.tables.users
        sound.usernames;
  share_ids = sound.share_ids;
  share_slugs = sound.share_slugs;
  references =
      still_refer id db.tables.shares db.tables.users
        (delete_where (λ p. text_eq p.user_id id) db.tables.share_permissions)
        (all-delete_where (refers db.tables.shares db.tables.users) (λ p. text_eq p.user_id id)
          db.tables.share_permissions sound.references)
        (all-left (λ p. text_eq p.user_id id) db.tables.share_permissions);
  permission_keys =
      keys-delete_where (λ p. text_eq p.user_id id) db.tables.share_permissions
        sound.permission_keys;
}

pub delete-IsSound :
    (now : Timestamp) (id : EntityId) (db : Database)
    → IsSound db
    → From db (delete now id) (λ _ after. IsSound after)
unfolding delete
delete-IsSound now id db sound = From-gets _ _ _ _ (
    From-write _ _ _ _ λ _. From-end_fail_if _ _ _ _ λ _ _.
      if-IsSound (any (has_id id) db.tables.users) (without_user now id db) db
        (without_user-IsSound now id db sound) sound)

updated-IsSound :
    (now : Timestamp) (id : EntityId) (change : User → User) (db : Database)
    → ((u : User) → (change u).id ≡ u.id)
    → ((u : User) → (change u).username_normalized ≡ u.username_normalized)
    → IsSound db
    → IsSound (with_users now (update_where (has_id id) change) db)
updated-IsSound now id change db same_id same_name sound = record {
  user_ids =
      is_distinct-update_where (λ u. u.id) (has_id id) change same_id db.tables.users
      ∙ sound.user_ids;
  usernames =
      is_distinct-update_where (λ u. u.username_normalized) (has_id id) change same_name
        db.tables.users
      ∙ sound.usernames;
  share_ids = sound.share_ids;
  share_slugs = sound.share_slugs;
  references =
      all_ext _ (refers db.tables.shares db.tables.users)
        (λ p.
          ap (λ b. any (λ s. text_eq s.id p.share_id) db.tables.shares && b)
            (any_key-update_where (λ u. u.id) p.user_id (has_id id) change same_id db.tables.users))
        db.tables.share_permissions
      ∙ sound.references;
  permission_keys = sound.permission_keys;
}

update_user-IsSound :
    (now : Timestamp) (id : EntityId) (change : User → User) (db : Database)
    → ((u : User) → (change u).id ≡ u.id)
    → ((u : User) → (change u).username_normalized ≡ u.username_normalized)
    → IsSound db
    → From db (update_user now id change) (λ _ after. IsSound after)
unfolding update_user
update_user-IsSound now id change db same_id same_name sound = From-gets _ _ _ _ (
    From-write _ _ _ _ λ _. From-end_fail_if _ _ _ _ λ _ _.
      if-IsSound (any (has_id id) db.tables.users)
        (with_users now (update_where (has_id id) change) db) db
        (updated-IsSound now id change db same_id same_name sound) sound)

pub set_enabled-IsSound :
    (now : Timestamp) (id : EntityId) (enabled : Bool) (updated : Timestamp) (db : Database)
    → IsSound db
    → From db (set_enabled now id enabled updated) (λ _ after. IsSound after)
unfolding set_enabled
set_enabled-IsSound now id enabled updated db sound =
    update_user-IsSound now id (λ u. record u { enabled = enabled; updated_at = updated }) db
      (λ u. refl) (λ u. refl) sound

pub set_password_hash-IsSound :
    (now : Timestamp) (id : EntityId) (hash : Text) (updated : Timestamp) (db : Database)
    → IsSound db
    → From db (set_password_hash now id hash updated) (λ _ after. IsSound after)
unfolding set_password_hash
set_password_hash-IsSound now id hash updated db sound =
    update_user-IsSound now id (λ u. record u { password_hash = hash; updated_at = updated }) db
      (λ u. refl) (λ u. refl) sound
