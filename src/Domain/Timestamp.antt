-- ===== src/Domain/Timestamp.antt =====
-- core/internal/domain/timestamp.go. A `time.Time` is its distance in nanoseconds from the zero
-- time, with whether its location is UTC; times before the year 1 are left out. The text forms
-- (`time.Parse`, `Format`) are the standard library's and are left out.
use dav_deck.Common.{ℕ, String, Bool, not, ◌||◌, true, ◌==◌, ltb, Result, ok, ◌>>◌, reject}
use dav_deck.Domain.Validation.{ValidationError, invalid, invalid_timestamp}

pub record Timestamp : Type 0 where
  pub instant : ℕ
  pub utc : Bool

abbrev pub is_zero : Timestamp → Bool
is_zero t = t.instant == 0

unfoldable pub new_timestamp : Timestamp → Result ValidationError Timestamp
new_timestamp value = do
  reject (is_zero value) (invalid invalid_timestamp "timestamp" "must not be zero")
  ok (record value { utc = true })

unfoldable pub validate_timestamp : String → Timestamp → Result ValidationError (Unit {0})
validate_timestamp field value =
    reject (is_zero value || not value.utc)
      (invalid invalid_timestamp field "must be a non-zero UTC timestamp")

unfoldable pub validate_time_range :
    String → Timestamp → String → Timestamp → Result ValidationError (Unit {0})
unfolding validate_timestamp
validate_time_range created_field created updated_field updated = do
  validate_timestamp created_field created
  validate_timestamp updated_field updated
  reject (ltb updated.instant created.instant)
      (invalid invalid_timestamp updated_field "must not be before creation time")
