-- ===== src/Storage/Sound/Lookup.antt =====
-- What `Set` of core/internal/storage/permission_repository.go stores, and what is read back.
use dav_deck.Common.{◌≡◌, refl, true, List, [], ◌∷◌, Option, none, some, ok, if◌then◌else◌, arith}
use dav_deck.Common.Text.{Text, text_eq}
use dav_deck.Common.Text.Laws.{text_eq_iff, text_eq_refl}
use dav_deck.Domain.Id.{EntityId}
use dav_deck.Domain.Timestamp.{Timestamp}
use dav_deck.Domain.Share.{SharePermission, Permission}
use dav_deck.Storage.Database.{Database, Store}
use dav_deck.Storage.Database.Symbolic.{
  From, From-statement, From-gets, From-fail_if, From-end_modify,
}
use dav_deck.Storage.Permissions
use dav_deck.Storage.Permissions.{has_key, upsert, with_permissions}

-- The permission that the first row with the key gives.
abbrev pub stored_permission : EntityId → EntityId → List SharePermission → Option Permission
stored_permission share_id user_id [] = none
stored_permission share_id user_id (p ∷ rows) =
    let rest = stored_permission share_id user_id rows in
    if has_key share_id user_id p then some p.permission else rest

key_eq : (k a b : Text) → text_eq a b ≡ true → text_eq b k ≡ text_eq a k
key_eq k a b h = ground (arith, text_eq_iff a b)

both_eq : (k a b : Text) → text_eq a k ≡ true → text_eq b k ≡ true → text_eq a b ≡ true
both_eq k a b h j = ground (arith, text_eq_iff a k, text_eq_iff b k, text_eq_refl k)

stored-upsert :
    (p : SharePermission) (share_id user_id : EntityId) (rows : List SharePermission)
    → stored_permission share_id user_id (upsert p rows) ≡ (
        if has_key share_id user_id p
        then some p.permission
        else stored_permission share_id user_id rows)
unfolding upsert
stored-upsert p share_id user_id [] = refl
stored-upsert p share_id user_id (q ∷ rows) = ground (
  arith,
  stored-upsert p share_id user_id rows,
  key_eq share_id q.share_id p.share_id,
  key_eq user_id q.user_id p.user_id,
  both_eq share_id q.share_id p.share_id,
  both_eq user_id q.user_id p.user_id,
)

module _ (now : Timestamp) (p : SharePermission) (share_id user_id : EntityId) where
  From-set :
      (db : Database)
      → From db (Permissions.set now p) (λ _ after.
        stored_permission share_id user_id after.tables.share_permissions ≡ (
          if has_key share_id user_id p
          then some p.permission
          else stored_permission share_id user_id db.tables.share_permissions))
  unfolding Permissions.set
  From-set db = From-statement _ _ _ λ _. From-gets _ _ _ _ (
      From-fail_if _ _ _ _ _ λ allowed _.
        From-end_modify _ _ (with_permissions now (upsert p))
          λ _. stored-upsert p share_id user_id db.tables.share_permissions)

  -- Where `Set` succeeds, the permission that is then stored for its share and user is the one that was
  -- set, and that of every other share and user is what it was before.
  pub set-stored_permission :
      (s : Store)
      → (Permissions.set now p s).0 ≡ ok tt
      → stored_permission share_id user_id (Permissions.set now p s).1.db.tables.share_permissions
        ≡ (if has_key share_id user_id p
            then some p.permission
            else stored_permission share_id user_id s.db.tables.share_permissions)
  set-stored_permission s h = (From-set s.db).at_ok s refl tt h
