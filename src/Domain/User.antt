-- ===== src/Domain/User.antt =====
-- core/internal/domain/user.go
use dav_deck.Common.{Bool, not, ◌||◌, Result, ◌>>◌, reject}
use dav_deck.Common.Text.{Text, CaseTables, text_eq, is_empty, trim_space, to_lower}
use dav_deck.Domain.Validation.{
  ValidationError, invalid, invalid_username, invalid_password_hash, contains_control,
}
use dav_deck.Domain.Id.{EntityId, validate_id}
use dav_deck.Domain.Timestamp.{Timestamp, validate_time_range}

pub record User : Type 0 where
  pub id : EntityId
  pub username : Text
  pub username_normalized : Text
  pub password_hash : Text
  pub enabled : Bool
  pub created_at : Timestamp
  pub updated_at : Timestamp

module _ ⦃tables : CaseTables⦄ where
  unfoldable pub normalize_username : Text → Text
  unfolding to_lower trim_space
  normalize_username value = to_lower tables (trim_space value)

  unfoldable pub validate_user : User → Result ValidationError (Unit {0})
  unfolding text_eq
  validate_user u = do
    validate_id "id" u.id
    reject
        (is_empty u.username
          || not (text_eq u.username (trim_space u.username))
          || contains_control u.username)
        (invalid invalid_username "username"
          "must be non-empty, trimmed, and contain no control characters")
    reject (not (text_eq u.username_normalized (normalize_username u.username)))
        (invalid invalid_username "username_normalized" "must match the normalized username")
    reject (is_empty (trim_space u.password_hash) || contains_control u.password_hash)
        (invalid invalid_password_hash "password_hash" "must contain a password hash")
    validate_time_range "created_at" u.created_at "updated_at" u.updated_at
