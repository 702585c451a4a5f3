-- ===== src/Domain/Share.antt =====
-- core/internal/domain/share.go: shares and permissions.
pub mod Slugs
use dav_deck.Common.{
  ℕ, String, Bool, true, false, not, ◌&&◌, ◌||◌, [], ◌∷◌, ◌==◌, leb, Result, ◌>>◌, ◌>>=◌, reject,
  if◌then◌else◌,
}
use dav_deck.Common.Text.{Text, CaseTables, text_eq, is_empty, trim_space}
use dav_deck.Domain.Validation.{
  ValidationError, invalid, invalid_share_name, invalid_share_slug, invalid_share_path,
  invalid_permission, contains_control,
}
use dav_deck.Domain.Id.{EntityId, validate_id}
use dav_deck.Domain.Path.{dot, dot_dot, is_absolute_path}
use dav_deck.Domain.Timestamp.{Timestamp, validate_time_range}

unfoldable pub is_slug_char : ℕ → Bool
is_slug_char c = (leb b'a' c && leb c b'z') || (leb b'0' c && leb c b'9')

-- The regular expression `^[a-z0-9]+(?:-[a-z0-9]+)*$` as its automaton: `inside` says that the
-- last character was a letter or a digit, so that the text may end or go on with a hyphen.
unfoldable pub slug_from : Bool → Text → Bool
unfolding is_slug_char
slug_from inside [] = inside
slug_from inside (c ∷ slug) =
    if is_slug_char c then slug_from true slug else (inside && c == b'-' && slug_from false slug)

unfoldable pub matches_share_slug : Text → Bool
unfolding slug_from
matches_share_slug slug = slug_from false slug

pub record Share : Type 0 where
  pub id : EntityId
  pub name : Text
  pub slug : Text
  pub path : Text
  pub enabled : Bool
  pub created_at : Timestamp
  pub updated_at : Timestamp

-- Go's `Permission` is a string; `other` stands for one that is none of the three constants.
pub data Permission : Type 0 where
  none read read_write : Permission
  other : Text → Permission

unfoldable pub permission_valid : Permission → Bool
permission_valid (other _) = false
permission_valid _ = true

pub record SharePermission : Type 0 where
  pub share_id : EntityId
  pub user_id : EntityId
  pub permission : Permission
  pub created_at : Timestamp
  pub updated_at : Timestamp

module _ ⦃tables : CaseTables⦄ where
  unfoldable pub validate_share : Share → Result ValidationError (Unit {0})
  unfolding text_eq
  validate_share s = do
    validate_id "id" s.id
    reject (is_empty s.name || not (text_eq s.name (trim_space s.name)) || contains_control s.name)
        (invalid invalid_share_name "name"
          "must be non-empty, trimmed, and contain no control characters")
    reject (not (matches_share_slug s.slug) || text_eq s.slug dot || text_eq s.slug dot_dot) (
        invalid invalid_share_slug "slug"
          "must contain lowercase letters, digits, and single hyphens only")
    reject (not (is_absolute_path s.path))
        (invalid invalid_share_path "path" "must be an absolute POSIX or drive-letter path")
    validate_time_range "created_at" s.created_at "updated_at" s.updated_at

  unfoldable pub validate_share_permission : SharePermission → Result ValidationError (Unit {0})
  unfolding permission_valid
  validate_share_permission p = do
    validate_id "share_id" p.share_id
    validate_id "user_id" p.user_id
    reject (not (permission_valid p.permission))
        (invalid invalid_permission "permission" "must be NONE, READ, or READ_WRITE")
    validate_time_range "created_at" p.created_at "updated_at" p.updated_at
