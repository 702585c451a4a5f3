-- ===== src/Domain/Id.antt =====
-- core/internal/domain/id.go
use dav_deck.Common.{
  ℕ, ◌+◌, String, Option, none, some, Bool, true, false, not, ◌&&◌, ◌||◌, [], ◌∷◌, ◌==◌, leb,
  length, get_elem?, Result, ok, ◌>>◌, reject,
}
use dav_deck.Common.Text.{Text, CaseTables, text_eq, utf8, utf8_rune, byte_length, to_lower}
use dav_deck.Domain.Validation.{ValidationError, invalid, invalid_id}

-- A canonical lowercase UUID, once it has been validated.
abbrev pub EntityId : Type 0
EntityId = Text

abbrev is_byte : Option ℕ → ℕ → Bool
is_byte none c = false
is_byte (some b) c = b == c

-- `text[index] == c`; the caller has tested the length.
abbrev byte_is : Text → ℕ → ℕ → Bool
byte_is text index c = is_byte (get_elem? (utf8 text) index) c

abbrev pub is_separator : ℕ → Bool
is_separator index = index == 8 || index == 13 || index == 18 || index == 23

abbrev pub is_lower_hex : ℕ → Bool
is_lower_hex c = (leb b'0' c && leb c b'9') || (leb b'a' c && leb c b'f')

-- The loop of `validateID`: `index` is the byte offset of the code point.
pub all_hex_from : ℕ → Text → Bool
unfolding utf8_rune
all_hex_from index [] = true
all_hex_from index (c ∷ text) =
    (is_separator index || is_lower_hex c) && all_hex_from (index + length (utf8_rune c)) text

module _ ⦃tables : CaseTables⦄ where
  unfoldable pub validate_id : String → EntityId → Result ValidationError (Unit {0})
  unfolding text_eq utf8 utf8_rune byte_length to_lower all_hex_from
  validate_id field text = do
    reject
        (not (byte_length text == 36)
          || not (byte_is text 8 b'-')
          || not (byte_is text 13 b'-')
          || not (byte_is text 18 b'-')
          || not (byte_is text 23 b'-')
          || not (text_eq text (to_lower tables text)))
        (invalid invalid_id field "must be a canonical lowercase UUID")
    reject (not (all_hex_from 0 text))
        (invalid invalid_id field "must be a canonical lowercase UUID")

  unfoldable pub parse_id : Text → Result ValidationError EntityId
  unfolding validate_id
  parse_id value = do validate_id "id" value; ok value
