-- ===== src/Domain/Dns.antt =====
-- core/internal/domain/dns_provider.go, without the secret values, which are never serialized.
use dav_deck.Common.{
  Bool, true, false, not, ◌&&◌, ◌||◌, ◌==◌, ltb, List, [], ◌∷◌, any, Result, ok, ◌>>◌, reject,
}
use dav_deck.Common.Text.{Text, CaseTables, text_eq, is_empty, trim_space, byte_length}
use dav_deck.Domain.Validation.{
  ValidationError, invalid, invalid_dns_provider_credential, invalid_dns_provider, invalid_dns_zone,
  contains_control,
}
use dav_deck.Domain.Id.{EntityId, validate_id}
use dav_deck.Domain.Timestamp.{Timestamp, validate_time_range}
use dav_deck.Domain.Tls.{valid_hostname}

-- Go's `DNSProviderType` is a string; `other` stands for one that is none of the constants.
pub data DnsProviderType : Type 0 where
  cloudflare tencent_cloud dnspod alidns : DnsProviderType
  other : Text → DnsProviderType

unfoldable pub dns_provider_type_valid : DnsProviderType → Bool
dns_provider_type_valid (other _) = false
dns_provider_type_valid _ = true

pub record DnsProviderCredential : Type 0 where
  pub id : EntityId
  pub name : Text
  pub provider : DnsProviderType
  pub allowed_zones : List Text
  pub created_at : Timestamp
  pub updated_at : Timestamp

unfoldable pub valid_dns_zone : Text → Bool
unfolding text_eq
valid_dns_zone value =
    not (is_empty value || not (text_eq value (trim_space value)) || any (λ c. c == b'*') value)
    && valid_hostname value

-- `_, exists := seen[key]`
abbrev pub seen_in : Text → List Text → Bool
seen_in key seen = any (text_eq key) seen

-- The loop over the zones; `seen` are those before.
unfoldable pub validate_zones : List Text → List Text → Result ValidationError (Unit {0})
validate_zones seen [] = ok tt
validate_zones seen (zone ∷ zones) = do
  reject (not (valid_dns_zone zone))
      (invalid invalid_dns_zone "allowed_zones" "must contain valid DNS zone names")
  reject (seen_in zone seen)
      (invalid invalid_dns_zone "allowed_zones" "must not contain duplicate zones")
  validate_zones (zone ∷ seen) zones

module _ ⦃tables : CaseTables⦄ where
  unfoldable pub validate_dns_provider_credential :
      DnsProviderCredential → Result ValidationError (Unit {0})
  unfolding dns_provider_type_valid
  validate_dns_provider_credential c = do
    validate_id "id" c.id
    reject
        (is_empty c.name
          || not (text_eq c.name (trim_space c.name))
          || contains_control c.name
          || ltb 128 (byte_length c.name))
        (invalid invalid_dns_provider_credential "name"
          "must be a non-empty name without control characters")
    reject (not (dns_provider_type_valid c.provider)) (
        invalid invalid_dns_provider "provider"
          "must be cloudflare, tencentcloud, dnspod, or alidns")
    validate_zones [] c.allowed_zones
    validate_time_range "created_at" c.created_at "updated_at" c.updated_at
