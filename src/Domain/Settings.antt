-- ===== src/Domain/Settings.antt =====
-- core/internal/domain/settings.go. A port is a natural number: the negative values of Go's `int`,
-- which the range test refuses as it refuses 0, are left out.
use dav_deck.Common.{ℕ, Bool, true, false, not, ◌&&◌, ◌==◌, leb, [], ◌∷◌, Result, ◌>>◌, reject}
use dav_deck.Common.Text.{Text, CaseTables, text_eq, is_empty, has_prefix, contains_any, codes}
use dav_deck.Domain.Validation.{
  ValidationError, invalid, invalid_base_path, invalid_port, invalid_runtime_mode, contains_control,
}
use dav_deck.Domain.Id.{EntityId, validate_id}
use dav_deck.Domain.Path.{clean}
use dav_deck.Domain.Timestamp.{Timestamp, validate_time_range}

-- Go's `RuntimeMode` is a string; `other` stands for one that is neither constant.
pub data RuntimeMode : Type 0 where
  portable service : RuntimeMode
  other : Text → RuntimeMode

unfoldable pub runtime_mode_valid : RuntimeMode → Bool
runtime_mode_valid (other _) = false
runtime_mode_valid _ = true

pub record ServerSettings : Type 0 where
  pub id : EntityId
  pub public_base_path : Text
  pub http_port : ℕ
  pub https_port : ℕ
  pub runtime_mode : RuntimeMode
  pub created_at : Timestamp
  pub updated_at : Timestamp

unfoldable pub valid_public_base_path : Text → Bool
unfolding text_eq
valid_public_base_path value =
    not (is_empty value)
    && has_prefix value (b'/' ∷ [])
    && not (contains_any value (codes "?#\\"))
    && not (contains_control value)
    && text_eq (clean value) value

unfoldable pub valid_port : ℕ → Bool
valid_port value = leb 1 value && leb value 65535

module _ ⦃tables : CaseTables⦄ where
  unfoldable pub validate_server_settings : ServerSettings → Result ValidationError (Unit {0})
  unfolding valid_port runtime_mode_valid
  validate_server_settings s = do
    validate_id "id" s.id
    reject (not (valid_public_base_path s.public_base_path))
        (invalid invalid_base_path "public_base_path" "must be a canonical absolute URL path")
    reject (not (valid_port s.http_port))
        (invalid invalid_port "http_port" "must be between 1 and 65535")
    reject (not (valid_port s.https_port))
        (invalid invalid_port "https_port" "must be between 1 and 65535")
    reject (s.http_port == s.https_port)
        (invalid invalid_port "https_port" "must differ from the HTTP port")
    reject (not (runtime_mode_valid s.runtime_mode))
        (invalid invalid_runtime_mode "runtime_mode" "must be portable or service")
    validate_time_range "created_at" s.created_at "updated_at" s.updated_at
