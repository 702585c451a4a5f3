-- ===== src/Storage/Sound/Operations.antt =====
-- The operations of the repositories of users, shares and permissions of core/internal/storage together.
use dav_deck.Common.{◌≡◌, refl, Bool, ok}
use dav_deck.Common.Text.{Text}
use dav_deck.Common.Exec.{Exec}
use dav_deck.Domain.Id.{EntityId}
use dav_deck.Domain.Timestamp.{Timestamp}
use dav_deck.Domain.User.{User}
use dav_deck.Domain.Share.{Share, SharePermission}
use dav_deck.Storage.Database.{Store, StoreError}
use dav_deck.Storage.Database.Symbolic.{From}
use dav_deck.Storage.Users
use dav_deck.Storage.Shares
use dav_deck.Storage.Permissions
use dav_deck.Storage.Sound.{IsSound}
use dav_deck.Storage.Sound.UserRows
use dav_deck.Storage.Sound.ShareRows
use dav_deck.Storage.Sound.PermissionRows

-- A call that changes the tables.
pub data Operation : Type 0 where
  create_user : User → Operation
  delete_user : EntityId → Operation
  set_enabled : EntityId → Bool → Timestamp → Operation
  set_password_hash : EntityId → Text → Timestamp → Operation
  create_share update_share : Share → Operation
  delete_share : EntityId → Operation
  set_permission : SharePermission → Operation
  delete_permission : (share_id user_id : EntityId) → Operation

abbrev pub perform : Timestamp → Operation → Exec Store StoreError (Unit {0})
perform now (create_user u) = Users.create now u
perform now (delete_user id) = Users.delete now id
perform now (set_enabled id enabled updated) = Users.set_enabled now id enabled updated
perform now (set_password_hash id hash updated) = Users.set_password_hash now id hash updated
perform now (create_share s) = Shares.create now s
perform now (update_share s) = Shares.update now s
perform now (delete_share id) = Shares.delete now id
perform now (set_permission p) = Permissions.set now p
perform now (delete_permission share_id user_id) = Permissions.delete now share_id user_id

performed :
    (now : Timestamp) (operation : Operation) (s : Store)
    → IsSound s.db
    → From s.db (perform now operation) (λ _ after. IsSound after)
performed now (create_user u) s h = UserRows.create-IsSound now u s.db h
performed now (delete_user id) s h = UserRows.delete-IsSound now id s.db h
performed now (set_enabled id enabled updated) s h =
    UserRows.set_enabled-IsSound now id enabled updated s.db h
performed now (set_password_hash id hash updated) s h =
    UserRows.set_password_hash-IsSound now id hash updated s.db h
performed now (create_share share) s h = ShareRows.create-IsSound now share s.db h
performed now (update_share share) s h = ShareRows.update-IsSound now share s.db h
performed now (delete_share id) s h = ShareRows.delete-IsSound now id s.db h
performed now (set_permission p) s h = PermissionRows.set-IsSound now p s.db h
performed now (delete_permission share_id user_id) s h =
    PermissionRows.unset-IsSound now share_id user_id s.db h

-- On a database whose users, shares and permissions meet the constraints (ids, normalized names and
-- slugs are distinct, no two permissions are for the same share and the same user, and each is for a
-- share and a user that exist), every operation of
-- their repositories that succeeds leaves one that meets them: a name or slug that is taken is
-- refused, and a deletion takes the permissions of the user or the share with it.
pub operations-IsSound :
    (now : Timestamp) (operation : Operation) (s : Store)
    → IsSound s.db
    → (perform now operation s).0 ≡ ok tt
    → IsSound (perform now operation s).1.db
operations-IsSound now operation s sound h = (performed now operation s sound).at_ok s refl tt h
