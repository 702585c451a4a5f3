-- ===== src/Caddy/Accounts.antt =====
-- `compileAccounts` of core/internal/caddy/compiler.go: who may read and who may write a share.
pub mod Grants
use dav_deck.Common.{
  Bool, true, false, not, ◌&&◌, ◌||◌, List, [], ◌∷◌, map, Option, none, some, Result, ok, err, ◌>>◌,
  ◌>>=◌, reject, wrap, if◌then◌else◌,
}
use dav_deck.Common.Text.{Text, CaseTables, text_eq, text_lt}
use dav_deck.Common.Sorting.{sort_slice}
use dav_deck.Domain.Id.{EntityId}
use dav_deck.Domain.User.{User}
use dav_deck.Domain.Share.{SharePermission, Permission, validate_share_permission}
use dav_deck.Domain.Dns.{seen_in, DnsProviderType}
use dav_deck.Domain.Input.{
  ShareWithPermissions, InputError, permission, different_share, duplicate_permission, unknown_user,
}
use dav_deck.Domain.Snapshot.{permission_less}
use dav_deck.Domain.State.{is_none}
use dav_deck.Caddy.Config.{Account}

pub data CompileError : Type 0 where
  invalid_input : InputError → CompileError
  unsupported_provider : DnsProviderType → CompileError

abbrev pub is_read_write : Permission → Bool
is_read_write Permission.read_write = true
is_read_write _ = false

-- One entry of `read`, and whether it is one of `write` too.
pub record Access : Type 0 where
  pub account : Account
  pub may_write : Bool

abbrev pub account_of : User → Account
account_of u = record { username = u.username; password = u.password_hash }

-- `users[id]`
unfoldable pub user_by_id : EntityId → List User → Option User
unfolding text_eq
user_by_id id [] = none
user_by_id id (u ∷ users) = if text_eq u.id id then some u else user_by_id id users

-- What the body of the loop appends for a permission of a known user.
unfoldable pub access_of : User → SharePermission → List Access
access_of u p =
    if not u.enabled || is_none p.permission
    then []
    else record { account = account_of u; may_write = is_read_write p.permission } ∷ []

abbrev pub found_user : EntityId → Option User → Result CompileError User
found_user id none = err (invalid_input (unknown_user id))
found_user id (some u) = ok u

abbrev pub prepend : List Access → List Access → List Access
prepend [] rest = rest
prepend (a ∷ more) rest = a ∷ prepend more rest

abbrev pub account_less : Account → Account → Bool
account_less a b = text_lt a.username b.username

abbrev pub writers : List Access → List Account
writers [] = []
writers (a ∷ rest) = let others = writers rest in if a.may_write then a.account ∷ others else others

abbrev pub readers : List Access → List Account
readers accesses = map (λ a. a.account) accesses

module _ ⦃tables : CaseTables⦄ where
  -- The loop over the permissions; `seen` are the users before.
  unfoldable pub collect :
      EntityId
      → List User
      → List EntityId
      → List SharePermission
      → Result CompileError (List Access)
  unfolding user_by_id access_of
  collect share_id users seen [] = ok []
  collect share_id users seen (p ∷ rest) = do
    wrap (λ e. invalid_input (permission share_id e)) (validate_share_permission p)
    reject (not (text_eq p.share_id share_id)) (invalid_input different_share)
    reject (seen_in p.user_id seen) (invalid_input (duplicate_permission p.user_id))
    u ← found_user p.user_id (user_by_id p.user_id users)
    others ← collect share_id users (p.user_id ∷ seen) rest
    ok (prepend (access_of u p) others)

  -- `compileAccounts`: the accounts that may read, and those that may write.
  unfoldable pub compile_accounts :
      ShareWithPermissions → List User → Result CompileError (List Account × List Account)
  unfolding collect sort_slice
  compile_accounts item users = do
    accesses ← collect item.share.id users [] (sort_slice permission_less item.permissions)
    ok (sort_slice account_less (readers accesses), sort_slice account_less (writers accesses))
