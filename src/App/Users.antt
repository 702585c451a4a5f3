-- ===== src/App/Users.antt =====
-- core/internal/app/user_service.go, over the repository of core/internal/storage/user_repository.go.
pub mod Created
pub mod Fetched
use dav_deck.Common.{
  Bool, true, false, not, ◌&&◌, ◌||◌, ltb, List, Option, Result, ok, err, reject, wrap,
  if◌then◌else◌,
}
use dav_deck.Common.Text.{Text, CaseTables, byte_length}
use dav_deck.Common.Exec.{Exec, pure, raise, lift, ◌>>=◌, ◌>>◌}
use dav_deck.Domain.Id.{EntityId}
use dav_deck.Domain.Timestamp.{Timestamp}
use dav_deck.Domain.User.{User, normalize_username, validate_user}
use dav_deck.App.Errors.{ErrorCode, Error, failure, database_error, literal}
use dav_deck.App.World.{World}
use dav_deck.App.Sources.{Sources, map_user_error, call, call_at, outside, stamp}
use dav_deck.Storage.Users

abbrev pub equal : Bool → Bool → Bool
equal true b = b
equal false b = not b

-- `validatePassword`
unfoldable pub validate_password : Text → Result Error (Unit {0})
unfolding literal
validate_password password =
    reject (ltb (byte_length password) 8 || ltb 72 (byte_length password))
      (failure ErrorCode.invalid_password "Password must contain between 8 and 72 UTF-8 bytes")

abbrev pub hash_error : Error
hash_error = failure ErrorCode.invalid_password "Password could not be hashed"

abbrev pub new_user : ⦃tables : CaseTables⦄ → EntityId → Text → Text → Timestamp → User
new_user id username hash created = record {
  id = id;
  username = username;
  username_normalized = normalize_username username;
  password_hash = hash;
  enabled = true;
  created_at = created;
  updated_at = created;
}

module _ ⦃tables : CaseTables⦄ {R : Type 0} (sources : Sources R) where
  -- `List`
  unfoldable pub list : Exec (World R) Error (List User)
  unfolding call
  list = call (λ _. database_error) Users.list

  -- `Get`
  unfoldable pub get : EntityId → Exec (World R) Error User
  unfolding call map_user_error
  get id = call map_user_error (Users.get id)

  -- `Create`
  unfoldable pub create : Text → Text → Exec (World R) Error User
  unfolding validate_password outside stamp call_at lift pure map_user_error literal ◌>>=◌
  create username password = do
    lift (validate_password password)
    id ← outside database_error sources.new_id
    created ← stamp sources
    hash ← outside hash_error (sources.hash password)
    lift (
        wrap (λ _. failure ErrorCode.invalid_username "Username is invalid")
          (validate_user (new_user id username hash created)))
    call_at sources map_user_error (λ now. Users.create now (new_user id username hash created))
    pure (new_user id username hash created)

  -- `Delete`
  unfoldable pub delete : EntityId → Exec (World R) Error (Unit {0})
  unfolding call_at map_user_error
  delete id = call_at sources map_user_error (λ now. Users.delete now id)

  unfoldable pub write_enabled : EntityId → Bool → Exec (World R) Error Bool
  unfolding stamp call_at map_user_error pure ◌>>=◌
  write_enabled id enabled = do
    updated ← stamp sources
    call_at sources map_user_error (λ now. Users.set_enabled now id enabled updated)
    pure true

  -- `SetEnabled`, which says whether there was a change.
  unfoldable pub set_enabled : EntityId → Bool → Exec (World R) Error Bool
  unfolding get write_enabled pure ◌>>=◌
  set_enabled id enabled = do
    current ← get id
    if equal current.enabled enabled then pure false else write_enabled id enabled

  -- `ChangePassword`
  unfoldable pub change_password : EntityId → Text → Exec (World R) Error (Unit {0})
  unfolding validate_password outside stamp call_at lift map_user_error literal ◌>>=◌
  change_password id password = do
    lift (validate_password password)
    hash ← outside hash_error (sources.hash password)
    updated ← stamp sources
    call_at sources map_user_error (λ now. Users.set_password_hash now id hash updated)
