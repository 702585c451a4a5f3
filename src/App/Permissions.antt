-- ===== src/App/Permissions.antt =====
-- core/internal/app/permission_service.go, over the repositories of core/internal/storage. A Go map is
-- the list of its entries in the order in which their keys were first assigned.
use dav_deck.Common.{
  ℕ, suc, Bool, true, false, not, List, [], ◌∷◌, ◌++◌, map, Option, none, some, Result, ok, err,
  wrap, if◌then◌else◌,
}
use dav_deck.Common.Text.{Text, CaseTables, text_eq}
use dav_deck.Common.Exec.{Exec, pure, raise, lift, fail_if, attempt, ◌>>=◌, ◌>>◌}
use dav_deck.Domain.Id.{EntityId}
use dav_deck.Domain.Timestamp.{Timestamp}
use dav_deck.Domain.User.{User}
use dav_deck.Domain.Share.{
  Share, SharePermission, Permission, permission_valid, validate_share_permission,
}
use dav_deck.Domain.State.{is_none}
use dav_deck.App.Errors.{ErrorCode, Error, failure, database_error, literal}
use dav_deck.App.World.{World, on_store, ask}
use dav_deck.App.Sources.{Sources, map_user_error, map_share_error, call, call_at, stamp}
use dav_deck.Storage.Database.{StoreError, permission_not_found}
use dav_deck.Storage.Users
use dav_deck.Storage.Shares
use dav_deck.Storage.Permissions

-- `PermissionEntry`
pub record PermissionEntry : Type 0 where
  pub share_id : EntityId
  pub user_id : EntityId
  pub username : Text
  pub user_enabled : Bool
  pub permission : Permission

-- `UserPermissionEntry` and `UserPermissionSummary`, which have the same fields.
pub record UserPermissionEntry : Type 0 where
  pub share_id : EntityId
  pub share_name : Text
  pub share_slug : Text
  pub share_enabled : Bool
  pub permission : Permission

-- An entry of a map whose last assignment counts.
unfoldable pub last_permission : (SharePermission → Bool) → List SharePermission → Option Permission
last_permission test [] = none
last_permission test (p ∷ rows) = elim (last_permission test rows) [
  | some later ↦ some later
  | none ↦ if test p then some p.permission else none
]

-- A missing entry is NONE.
abbrev or_none : Option Permission → Permission
or_none none = Permission.none
or_none (some permission) = permission

abbrev pub permission_by : (SharePermission → Bool) → List SharePermission → Permission
permission_by test rows = or_none (last_permission test rows)

-- The loop of `Set`: the first row of the user.
unfoldable pub current_of : EntityId → List SharePermission → Permission
unfolding text_eq
current_of user_id [] = Permission.none
current_of user_id (p ∷ rows) =
    let rest = current_of user_id rows in if text_eq p.user_id user_id then p.permission else rest

unfoldable pub same_permission : Permission → Permission → Bool
unfolding text_eq
same_permission Permission.none Permission.none = true
same_permission Permission.read Permission.read = true
same_permission Permission.read_write Permission.read_write = true
same_permission (Permission.other a) (Permission.other b) = text_eq a b
same_permission _ _ = false

abbrev pub entry_of : EntityId → User → Permission → PermissionEntry
entry_of share_id u permission = record {
  share_id = share_id;
  user_id = u.id;
  username = u.username;
  user_enabled = u.enabled;
  permission = permission;
}

abbrev pub share_entry : Share → Permission → UserPermissionEntry
share_entry s permission = record {
  share_id = s.id;
  share_name = s.name;
  share_slug = s.slug;
  share_enabled = s.enabled;
  permission = permission;
}

-- `counts[id]++`
unfoldable pub increment : EntityId → List (EntityId × ℕ) → List (EntityId × ℕ)
unfolding text_eq
increment id [] = (id, 1) ∷ []
increment id ((key, n) ∷ counts) =
    let rest = increment id counts in
    if text_eq key id then (key, suc n) ∷ counts else (key, n) ∷ rest

-- `result[id] = append(result[id], entry)`
unfoldable pub append_entry :
    EntityId
    → UserPermissionEntry
    → List (EntityId × List UserPermissionEntry)
    → List (EntityId × List UserPermissionEntry)
unfolding text_eq
append_entry id entry [] = (id, entry ∷ []) ∷ []
append_entry id entry ((key, entries) ∷ result) =
    let rest = append_entry id entry result in
    if text_eq key id then (key, entries ++ entry ∷ []) ∷ result else (key, entries) ∷ rest

-- The loop of `AuthorizedUserCounts`.
unfoldable pub counted : List SharePermission → List (EntityId × ℕ) → List (EntityId × ℕ)
unfolding increment
counted [] counts = counts
counted (p ∷ rows) counts =
    counted rows (if is_none p.permission then counts else increment p.share_id counts)

-- `shareByID[id]`: the last assignment counts.
unfoldable pub share_by_id : EntityId → List Share → Option Share
unfolding text_eq
share_by_id id [] = none
share_by_id id (s ∷ shares) = elim (share_by_id id shares) [
  | some later ↦ some later
  | none ↦ if text_eq s.id id then some s else none
]

abbrev summarized :
    SharePermission
    → Option Share
    → List (EntityId × List UserPermissionEntry)
    → List (EntityId × List UserPermissionEntry)
summarized p none result = result
summarized p (some s) result = append_entry p.user_id (share_entry s p.permission) result

-- The loop of `SummariesByUser`.
unfoldable pub summaries :
    List Share
    → List SharePermission
    → List (EntityId × List UserPermissionEntry)
    → List (EntityId × List UserPermissionEntry)
unfolding share_by_id append_entry
summaries shares [] result = result
summaries shares (p ∷ rows) result =
    summaries shares rows
      (if is_none p.permission then result else summarized p (share_by_id p.share_id shares) result)

abbrev pub new_permission : EntityId → EntityId → Permission → Timestamp → SharePermission
new_permission share_id user_id permission created = record {
  share_id = share_id;
  user_id = user_id;
  permission = permission;
  created_at = created;
  updated_at = created;
}

module _ ⦃tables : CaseTables⦄ {R : Type 0} (sources : Sources R) where
  -- `List`
  unfoldable pub list : EntityId → Exec (World R) Error (List PermissionEntry)
  unfolding call map_share_error last_permission text_eq pure ◌>>=◌
  list share_id = do
    call map_share_error (Shares.get share_id)
    users ← call (λ _. database_error) Users.list
    rows ← call (λ _. database_error) (Permissions.list_by_share share_id)
    pure (map (λ u. entry_of share_id u (permission_by (λ p. text_eq p.user_id u.id) rows)) users)

  -- The deletion of `Set`: that there was no row is no error.
  unfoldable pub removed : Result StoreError (Unit {0}) → Exec (World R) Error (Unit {0})
  unfolding pure raise
  removed (err permission_not_found) = pure tt
  removed (err _) = raise database_error
  removed (ok _) = pure tt

  unfoldable pub remove_permission : EntityId → EntityId → Exec (World R) Error (Unit {0})
  unfolding attempt on_store ask removed ◌>>=◌
  remove_permission share_id user_id = do
    now ← ask sources.trigger_time
    r ← attempt (on_store (Permissions.delete now share_id user_id))
    removed r

  unfoldable pub write_permission :
      EntityId → EntityId → Permission → Exec (World R) Error (Unit {0})
  unfolding stamp call_at lift literal ◌>>=◌
  write_permission share_id user_id permission = do
    created ← stamp sources
    lift (
        wrap (λ _. failure ErrorCode.invalid_permission "Permission is invalid")
          (validate_share_permission (new_permission share_id user_id permission created)))
    call_at sources (λ _. database_error)
        (λ now. Permissions.set now (new_permission share_id user_id permission created))

  -- `Set`, which says whether there was a change.
  unfoldable pub set :
      EntityId → EntityId → Permission → Exec (World R) Error (PermissionEntry × Bool)
  unfolding call map_share_error map_user_error remove_permission write_permission current_of
      same_permission permission_valid literal fail_if pure ◌>>=◌
  set share_id user_id permission = do
    fail_if (not (permission_valid permission))
        (failure ErrorCode.invalid_permission "Permission must be NONE, READ, or READ_WRITE")
    call map_share_error (Shares.get share_id)
    u ← call map_user_error (Users.get user_id)
    rows ← call (λ _. database_error) (Permissions.list_by_share share_id)
    if same_permission (current_of user_id rows) permission
        then pure (record (entry_of share_id u permission) { user_id = user_id }, false)
        else (do
          if is_none permission
              then remove_permission share_id user_id
              else write_permission share_id user_id permission
          pure (record (entry_of share_id u permission) { user_id = user_id }, true))

  -- `ListByUser`
  unfoldable pub list_by_user : EntityId → Exec (World R) Error (List UserPermissionEntry)
  unfolding call map_user_error last_permission text_eq pure ◌>>=◌
  list_by_user user_id = do
    call map_user_error (Users.get user_id)
    shares ← call (λ _. database_error) Shares.list
    rows ← call (λ _. database_error) (Permissions.list_by_user user_id)
    pure (map (λ s. share_entry s (permission_by (λ p. text_eq p.share_id s.id) rows)) shares)

  -- `AuthorizedUserCounts`
  unfoldable pub authorized_user_counts : Exec (World R) Error (List (EntityId × ℕ))
  unfolding call counted pure ◌>>=◌
  authorized_user_counts = do
    rows ← call (λ _. database_error) Permissions.list_all
    pure (counted rows [])

  -- `SummariesByUser`
  unfoldable pub summaries_by_user :
      Exec (World R) Error (List (EntityId × List UserPermissionEntry))
  unfolding call summaries pure ◌>>=◌
  summaries_by_user = do
    shares ← call (λ _. database_error) Shares.list
    rows ← call (λ _. database_error) Permissions.list_all
    pure (summaries shares rows [])
