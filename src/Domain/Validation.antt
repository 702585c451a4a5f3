-- ===== src/Domain/Validation.antt =====
-- core/internal/domain/validation.go: the error that every `Validate` returns.
use dav_deck.Common.{String, Bool, any}
use dav_deck.Common.Text.{Text, is_control}

pub data ErrorCode : Type 0 where
  invalid_id invalid_timestamp invalid_username invalid_password_hash : ErrorCode
  invalid_share_name invalid_share_slug invalid_share_path invalid_permission : ErrorCode
  invalid_tls_mode invalid_hostname invalid_certificate invalid_private_key : ErrorCode
  invalid_runtime_mode invalid_base_path invalid_port invalid_revision : ErrorCode
  invalid_config invalid_config_hash invalid_revision_status invalid_tls_challenge : ErrorCode
  invalid_dns_provider invalid_dns_zone invalid_dns_provider_credential : ErrorCode

pub record ValidationError : Type 0 where
  pub code : ErrorCode
  pub field : String
  pub message : String

abbrev pub invalid : ErrorCode → String → String → ValidationError
invalid code field message = record { code = code; field = field; message = message }

-- `containsControl` of user.go: `strings.IndexFunc(value, unicode.IsControl) >= 0`
unfoldable pub contains_control : Text → Bool
unfolding is_control
contains_control value = any is_control value
