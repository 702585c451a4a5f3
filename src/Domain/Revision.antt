-- ===== src/Domain/Revision.antt =====
-- core/internal/domain/revision.go. SHA-256 and the JSON syntax test are the standard library's;
-- they are the fields of `Digest`.
use dav_deck.Common.{
  ℕ, Bool, true, false, not, ◌&&◌, ◌||◌, ◌==◌, leb, List, all, Result, ◌>>◌, reject,
}
use dav_deck.Common.Text.{Text, CaseTables, text_eq, is_empty, trim_space, to_lower, byte_length}
use dav_deck.Domain.Validation.{
  ValidationError, invalid as invalid_error, invalid_revision, invalid_config, invalid_config_hash,
  invalid_revision_status, contains_control,
}
use dav_deck.Domain.Id.{EntityId, validate_id}
use dav_deck.Domain.Timestamp.{Timestamp, validate_timestamp}

abbrev pub Bytes : Type 0
Bytes = List ℕ

pub record Digest : Type 0 where
  pub json_valid : Bytes → Bool
  -- the lowercase hexadecimal digest
  pub sha256 : Bytes → Text

-- The Go types are strings; `other` stands for one that is none of the constants.
pub data ValidationStatus : Type 0 where
  pending valid invalid : ValidationStatus
  other : Text → ValidationStatus

pub data ApplyStatus : Type 0 where
  not_applied applied failed : ApplyStatus
  other : Text → ApplyStatus

unfoldable pub validation_status_valid : ValidationStatus → Bool
validation_status_valid (ValidationStatus.other _) = false
validation_status_valid _ = true

unfoldable pub apply_status_valid : ApplyStatus → Bool
apply_status_valid (ApplyStatus.other _) = false
apply_status_valid _ = true

abbrev pub is_valid : ValidationStatus → Bool
is_valid valid = true
is_valid _ = false

abbrev pub is_invalid : ValidationStatus → Bool
is_invalid ValidationStatus.invalid = true
is_invalid _ = false

abbrev pub is_applied : ApplyStatus → Bool
is_applied applied = true
is_applied _ = false

abbrev pub is_failed : ApplyStatus → Bool
is_failed failed = true
is_failed _ = false

pub record ConfigRevision : Type 0 where
  pub id : EntityId
  pub number : ℕ
  pub created_at : Timestamp
  pub config_json : Bytes
  pub state_snapshot_json : Bytes
  pub config_hash : Text
  pub state_hash : Text
  pub validation_status : ValidationStatus
  pub apply_status : ApplyStatus
  pub app_version : Text
  pub error_code : Text
  pub error_summary : Text

abbrev is_hex : ℕ → Bool
is_hex c = (leb b'0' c && leb c b'9') || (leb b'a' c && leb c b'f') || (leb b'A' c && leb c b'F')

module _ ⦃tables : CaseTables⦄ where
  unfoldable pub valid_sha256 : Text → Bool
  unfolding text_eq to_lower byte_length
  valid_sha256 value =
      byte_length value == 64 && text_eq value (to_lower tables value) && all is_hex value

  module _ ⦃digest : Digest⦄ where
    -- `HashConfigJSON`
    abbrev pub hash_config_json : Bytes → Text
    hash_config_json body = digest.sha256 body

    unfoldable pub validate_revision : ConfigRevision → Result ValidationError (Unit {0})
    unfolding validation_status_valid apply_status_valid
    validate_revision r = do
      let has_failed = is_invalid r.validation_status || is_failed r.apply_status
      validate_id "id" r.id
      reject (r.number == 0) (invalid_error invalid_revision "number" "must be greater than zero")
      validate_timestamp "created_at" r.created_at
      reject (not (digest.json_valid r.config_json))
          (invalid_error invalid_config "config_json" "must contain valid JSON")
      reject (not (is_empty r.state_snapshot_json) && not (digest.json_valid r.state_snapshot_json))
          (invalid_error invalid_config "state_snapshot_json" "must contain valid JSON")
      reject
          (not (valid_sha256 r.config_hash)
            || not (text_eq r.config_hash (hash_config_json r.config_json)))
          (invalid_error invalid_config_hash "config_hash"
            "must match the generated JSON SHA-256 digest")
      reject (not (is_empty r.state_hash) && not (valid_sha256 r.state_hash))
          (invalid_error invalid_config_hash "state_hash" "must contain a valid SHA-256 digest")
      reject (not (validation_status_valid r.validation_status)) (
          invalid_error invalid_revision_status "validation_status"
            "contains an unsupported status")
      reject (not (apply_status_valid r.apply_status))
          (invalid_error invalid_revision_status "apply_status" "contains an unsupported status")
      reject (not (is_valid r.validation_status) && is_applied r.apply_status) (
          invalid_error invalid_revision_status "apply_status"
            "only a valid revision can be applied")
      reject (is_empty (trim_space r.app_version) || contains_control r.app_version)
          (invalid_error invalid_revision "app_version" "must identify the DavDeck version")
      reject
          (has_failed
            && (is_empty (trim_space r.error_code) || is_empty (trim_space r.error_summary)))
          (invalid_error invalid_revision_status "error_code"
            "failed revisions require a safe error code and summary")
      reject (not has_failed && (not (is_empty r.error_code) || not (is_empty r.error_summary))) (
          invalid_error invalid_revision_status "error_code"
            "successful or pending revisions must not contain errors")
      reject (contains_control r.error_code || contains_control r.error_summary) (
          invalid_error invalid_revision_status "error_summary"
            "must not contain control characters")
