-- ===== src/Caddy/Accounts/Grants.antt =====
-- `compileAccounts` of core/internal/caddy/compiler.go and the permissions of the share.
use dav_deck.Common.{
  ◌≡◌, refl, sym, ◌∙◌, Bool, true, Bool-cases, inl, inr, not, ◌&&◌, ◌||◌, List, [], ◌∷◌, all, any,
  all_ext, Option, some, none, ok, reject, wrap, Gives, of_Gives, Gives-bind, Gives-check, arith,
}
use dav_deck.Common.Text.{CaseTables, text_eq}
use dav_deck.Common.Text.Laws.{text_eq_refl}
use dav_deck.Common.Sorting.{sort_slice, any-sort_slice, all-sort_slice}
use dav_deck.Domain.Id.{EntityId}
use dav_deck.Domain.User.{User}
use dav_deck.Domain.Share.{SharePermission, validate_share_permission}
use dav_deck.Domain.Dns.{seen_in}
use dav_deck.Domain.Input.{ShareWithPermissions, permission, different_share, duplicate_permission}
use dav_deck.Domain.Snapshot.{permission_less}
use dav_deck.Domain.State.{is_none}
use dav_deck.Caddy.Config.{Account}
use dav_deck.Caddy.Accounts.{
  invalid_input, Access, account_of, access_of, user_by_id, found_user, prepend, writers, readers,
  account_less, is_read_write, collect, compile_accounts,
}

abbrev pub allows_read : SharePermission → Bool
allows_read p = not (is_none p.permission)

abbrev pub allows_write : SharePermission → Bool
allows_write p = is_read_write p.permission

abbrev pub same_account : Account → User → Bool
same_account a u = text_eq a.username u.username && text_eq a.password u.password_hash

-- The permission is for an enabled user with this account.
abbrev pub is_for : List User → Account → SharePermission → Bool
is_for users a p = any (λ u. text_eq u.id p.user_id && (u.enabled && same_account a u)) users

-- One of the permissions allows the access and is for the account.
abbrev pub is_granted : (SharePermission → Bool) → List User → List SharePermission → Account → Bool
is_granted level users rows a = any (λ p. level p && is_for users a p) rows

abbrev may_access : List User → List SharePermission → Access → Bool
may_access users rows a =
    is_granted allows_read users rows a.account
    && (not a.may_write || is_granted allows_write users rows a.account)

account_of-is_for :
    (users : List User) (p : SharePermission) (u : User)
    → user_by_id p.user_id users ≡ some u
    → u.enabled ≡ true
    → is_for users (account_of u) p ≡ true
unfolding user_by_id
account_of-is_for [] p u h k = cc
account_of-is_for (v ∷ users) p u h k =
    ground
      (arith, text_eq_refl u.username, text_eq_refl u.password_hash, account_of-is_for users p u)

grown :
    (users : List User) (p : SharePermission) (rows : List SharePermission) (accesses : List Access)
    → all (may_access users rows) accesses ≡ true
    → all (may_access users (p ∷ rows)) accesses ≡ true
grown users p rows [] h = refl
grown users p rows (a ∷ accesses) h = ground (arith, grown users p rows accesses)

-- The entries of a permission of a known user are granted by it.
access_of-granted :
    (users : List User) (p : SharePermission) (rows : List SharePermission) (u : User)
    → user_by_id p.user_id users ≡ some u
    → all (may_access users (p ∷ rows)) (access_of u p) ≡ true
unfolding access_of
access_of-granted users p rows u h = elim (Bool-cases u.enabled) [
  | inl on ↦ ground (arith, account_of-is_for users p u h on)
  | inr off ↦ ground arith
]

all-prepend :
    (p : Access → Bool) (first rest : List Access)
    → all p first ≡ true
    → all p rest ≡ true
    → all p (prepend first rest) ≡ true
all-prepend p [] rest h k = k
all-prepend p (a ∷ first) rest h k = ground (arith, all-prepend p first rest)

known_user :
    (id : EntityId) (found : Option User) (u : User) → found_user id found ≡ ok u → found ≡ some u
known_user id none u h = cc
known_user id (some v) u h = cc

module _ ⦃tables : CaseTables⦄ where
  collect-may_access :
      (share_id : EntityId) (users : List User) (seen : List EntityId) (rows : List SharePermission)
      → Gives
          (λ accesses. all (may_access users rows) accesses ≡ true)
          (collect share_id users seen rows)
  unfolding collect
  collect-may_access share_id users seen [] = refl
  collect-may_access share_id users seen (p ∷ rows) =
      Gives-check _
        (wrap (λ e. invalid_input (permission share_id e)) (validate_share_permission p)) _
        λ _.
          Gives-check _ (reject (not (text_eq p.share_id share_id)) (invalid_input different_share))
            _
            λ _.
              Gives-check _
                (reject (seen_in p.user_id seen) (invalid_input (duplicate_permission p.user_id))) _
                λ _. Gives-bind _ (found_user p.user_id (user_by_id p.user_id users)) _ λ u known.
                  Gives-bind _ (collect share_id users (p.user_id ∷ seen) rows) _ λ others rest.
                    all-prepend (may_access users (p ∷ rows)) (access_of u p) others
                      (access_of-granted users p rows u
                        (known_user p.user_id (user_by_id p.user_id users) u known))
                      (grown users p rows others (
                        of_Gives _ _ others
                          (collect-may_access share_id users (p.user_id ∷ seen) rows) rest))

readers-granted :
    (users : List User) (rows : List SharePermission) (accesses : List Access)
    → all (may_access users rows) accesses ≡ true
    → all (is_granted allows_read users rows) (readers accesses) ≡ true
readers-granted users rows [] h = refl
readers-granted users rows (a ∷ accesses) h = ground (arith, readers-granted users rows accesses)

writers-granted :
    (users : List User) (rows : List SharePermission) (accesses : List Access)
    → all (may_access users rows) accesses ≡ true
    → all (is_granted allows_write users rows) (writers accesses) ≡ true
writers-granted users rows [] h = refl
writers-granted users rows (a ∷ accesses) h = ground (arith, writers-granted users rows accesses)

sorted_granted :
    (level : SharePermission → Bool) (users : List User) (rows : List SharePermission)
    (accounts : List Account)
    → all (is_granted level users (sort_slice permission_less rows)) accounts ≡ true
    → all (is_granted level users rows) (sort_slice account_less accounts) ≡ true
sorted_granted level users rows accounts h =
    all-sort_slice account_less (is_granted level users rows) accounts
    ∙ all_ext (is_granted level users rows)
        (is_granted level users (sort_slice permission_less rows))
        (λ a. sym (any-sort_slice permission_less (λ p. level p && is_for users a p) rows)) accounts
    ∙ h

module _ ⦃tables : CaseTables⦄ where
  -- Where the accounts of a share are compiled, each account that may read is that of an enabled user
  -- who has a permission of the share that is not NONE, and each that may write is that of one whose
  -- permission is READ_WRITE.
  pub compile_accounts-granted :
      (item : ShareWithPermissions) (users : List User)
      → Gives
          (λ accounts.
            (all (is_granted allows_read users item.permissions) accounts.0 ≡ true)
            × (all (is_granted allows_write users item.permissions) accounts.1 ≡ true))
          (compile_accounts item users)
  unfolding compile_accounts
  compile_accounts-granted item users =
      let rows = sort_slice permission_less item.permissions in
      Gives-bind _ (collect item.share.id users [] rows) _ λ accesses collected.
        let granted =
          of_Gives _ _ accesses (collect-may_access item.share.id users [] rows) collected in
        (
          sorted_granted allows_read users item.permissions (readers accesses)
              (readers-granted users rows accesses granted),
          sorted_granted allows_write users item.permissions (writers accesses)
              (writers-granted users rows accesses granted),
        )
