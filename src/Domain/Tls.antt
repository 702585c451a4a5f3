-- ===== src/Domain/Tls.antt =====
-- core/internal/domain/tls.go
use dav_deck.Common.{
  ℕ, Bool, true, false, not, ◌&&◌, ◌||◌, ◌==◌, leb, ltb, List, [], ◌∷◌, Option, none, some, all,
  Result, ok, err, ◌>>◌, reject, if◌then◌else◌,
}
use dav_deck.Common.Text.{
  Text, CaseTables, text_eq, is_empty, trim_space, has_prefix, has_suffix, contains_any, codes,
  byte_length, split,
}
use dav_deck.Domain.Validation.{
  ValidationError, invalid, invalid_tls_mode, invalid_hostname, invalid_tls_challenge,
  invalid_dns_provider, invalid_certificate, invalid_private_key, contains_control,
}
use dav_deck.Domain.Id.{EntityId, validate_id}
use dav_deck.Domain.Path.{is_absolute_path}
use dav_deck.Domain.Timestamp.{Timestamp, validate_time_range}

-- The Go types are strings; `other` stands for one that is none of the constants.
pub data TlsMode : Type 0 where
  automatic internal custom : TlsMode
  other : Text → TlsMode

-- `empty` is the empty string, which is read as `auto`.
pub data TlsChallenge : Type 0 where
  empty auto dns : TlsChallenge
  other : Text → TlsChallenge

unfoldable pub tls_challenge_valid : TlsChallenge → Bool
tls_challenge_valid auto = true
tls_challenge_valid dns = true
tls_challenge_valid _ = false

unfoldable pub tls_mode_valid : TlsMode → Bool
tls_mode_valid (TlsMode.other _) = false
tls_mode_valid _ = true

abbrev pub is_dns : TlsChallenge → Bool
is_dns dns = true
is_dns _ = false

abbrev pub is_automatic : TlsMode → Bool
is_automatic automatic = true
is_automatic _ = false

abbrev pub is_custom : TlsMode → Bool
is_custom custom = true
is_custom _ = false

-- `if challenge == "" { challenge = TLSChallengeAuto }`
abbrev pub default_challenge : TlsChallenge → TlsChallenge
default_challenge empty = auto
default_challenge c = c

pub record TlsProfile : Type 0 where
  pub id : EntityId
  pub mode : TlsMode
  pub hostname : Text
  pub challenge : TlsChallenge
  pub dns_provider_id : Option EntityId
  pub certificate_path : Text
  pub private_key_path : Text
  pub created_at : Timestamp
  pub updated_at : Timestamp

unfoldable pub is_label_char : ℕ → Bool
is_label_char c =
    (leb b'a' c && leb c b'z')
    || (leb b'A' c && leb c b'Z')
    || (leb b'0' c && leb c b'9')
    || c == b'-'

unfoldable pub valid_label : Text → Bool
unfolding is_label_char
valid_label label =
    not (
      is_empty label
      || ltb 63 (byte_length label)
      || has_prefix label (b'-' ∷ [])
      || has_suffix label (b'-' ∷ []))
    && all is_label_char label

-- `labels[1:]` behind a leading "*", if there are more labels; never empty then.
unfoldable pub strip_wildcard : List Text → List Text
unfolding text_eq
strip_wildcard (l ∷ m ∷ labels) = if text_eq l (b'*' ∷ []) then m ∷ labels else l ∷ m ∷ labels
strip_wildcard labels = labels

unfoldable pub valid_hostname : Text → Bool
unfolding valid_label strip_wildcard
valid_hostname value =
    not (
      is_empty value
      || not (text_eq value (trim_space value))
      || contains_control value
      || ltb 253 (byte_length value))
    && not (
        contains_any value (codes "/\\:@")
        || has_prefix value (b'.' ∷ [])
        || has_suffix value (b'.' ∷ []))
    && all valid_label (strip_wildcard (split value b'.'))

module _ ⦃tables : CaseTables⦄ where
  -- The provider of the DNS challenge, and its absence under the other challenge.
  unfoldable pub validate_dns_provider_id :
      TlsChallenge → Option EntityId → Result ValidationError (Unit {0})
  validate_dns_provider_id dns none =
      err (invalid invalid_dns_provider "dns_provider_id" "is required for DNS challenge")
  validate_dns_provider_id dns (some id) = validate_id "dns_provider_id" id
  validate_dns_provider_id challenge none = ok tt
  validate_dns_provider_id challenge (some id) = err (
      invalid invalid_tls_challenge "dns_provider_id"
        "must be omitted unless DNS challenge is selected")

  unfoldable pub validate_certificate_paths : TlsProfile → Result ValidationError (Unit {0})
  validate_certificate_paths p =
      if is_custom p.mode
      then (do
        reject (not (is_absolute_path p.certificate_path)) (
            invalid invalid_certificate "certificate_path"
              "must be an absolute path in custom mode")
        reject (not (is_absolute_path p.private_key_path)) (
            invalid invalid_private_key "private_key_path"
              "must be an absolute path in custom mode"))
      else reject (not (is_empty p.certificate_path) || not (is_empty p.private_key_path)) (
          invalid invalid_tls_mode "mode"
            "automatic and internal modes must not include custom certificate paths")

  unfoldable pub validate_tls_profile : TlsProfile → Result ValidationError (Unit {0})
  unfolding tls_challenge_valid tls_mode_valid validate_dns_provider_id validate_certificate_paths
  validate_tls_profile p = do
    let challenge = default_challenge p.challenge
    validate_id "id" p.id
    reject (not (tls_mode_valid p.mode))
        (invalid invalid_tls_mode "mode" "must be automatic, internal, or custom")
    reject (not (valid_hostname p.hostname))
        (invalid invalid_hostname "hostname" "must be a hostname without scheme, port, or path")
    reject (not (tls_challenge_valid challenge))
        (invalid invalid_tls_challenge "challenge" "must be auto or dns")
    reject (is_dns challenge && not (is_automatic p.mode)) (
        invalid invalid_tls_challenge "challenge"
          "DNS challenge is available only for automatic TLS")
    validate_dns_provider_id challenge p.dns_provider_id
    reject (has_prefix p.hostname (codes "*.") && not (is_dns challenge))
        (invalid invalid_tls_challenge "challenge" "wildcard hostnames require DNS challenge")
    validate_certificate_paths p
    validate_time_range "created_at" p.created_at "updated_at" p.updated_at
