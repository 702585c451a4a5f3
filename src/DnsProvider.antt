-- ===== src/DnsProvider.antt =====
-- core/internal/dnsprovider/registry.go: the built-in adapters, how their secrets are checked, and the
-- names that stand for the secrets. A Go map is the list of its entries, in the order of a range loop.
use dav_deck.Common.{
  ℕ, Bool, not, ◌||◌, ◌==◌, ltb, List, [], ◌∷◌, ◌++◌, Option, none, some, any, map, Result, ok,
  ◌>>◌, reject, if◌then◌else◌,
}
use dav_deck.Common.Text.{Text, CaseTables, codes, text_eq, is_empty, trim_space, byte_length}
use dav_deck.Domain.Id.{EntityId}
use dav_deck.Domain.Dns.{DnsProviderType, cloudflare, tencent_cloud, dnspod, alidns, other, seen_in}

abbrev pub Secret : Type 0
Secret = List (Text × Text)

-- `adapter`
pub record Adapter : Type 0 where
  pub type_name : Text
  pub required : List Text
  pub optional : List Text
  pub caddy_fields : List (Text × Text)

pub data SecretError : Type 0 where
  unsupported_field empty_or_control too_long required_field : Text → SecretError

-- `secret[field]`, which is empty where the key is missing.
unfoldable pub secret_value : Text → Secret → Text
unfolding text_eq
secret_value field [] = []
secret_value field ((name, value) ∷ secret) =
    if text_eq name field then value else secret_value field secret

-- `r < 0x20 || r == 0x7f`
abbrev pub is_ascii_control : ℕ → Bool
is_ascii_control c = ltb c 0x20 || c == 0x7f

-- The two loops of `ValidateSecret`.
unfoldable pub check_fields : List Text → Secret → Result SecretError (Unit {0})
check_fields allowed [] = ok tt
check_fields allowed ((field, value) ∷ secret) = do
  reject (not (seen_in field allowed)) (unsupported_field field)
  reject (is_empty value || not (text_eq value (trim_space value)) || any is_ascii_control value)
      (empty_or_control field)
  reject (ltb 4096 (byte_length value)) (too_long field)
  check_fields allowed secret

unfoldable pub check_required : Secret → List Text → Result SecretError (Unit {0})
check_required secret [] = ok tt
check_required secret (field ∷ fields) = do
  reject (is_empty (secret_value field secret)) (required_field field)
  check_required secret fields

-- `ValidateSecret`
unfoldable pub validate_secret : Adapter → Secret → Result SecretError (Unit {0})
unfolding check_fields check_required
validate_secret a secret = do
  check_fields (a.required ++ a.optional) secret
  check_required secret a.required

-- `strings.ReplaceAll(id, "-", "")`
abbrev pub drop_hyphens : Text → Text
drop_hyphens [] = []
drop_hyphens (c ∷ s) = let rest = drop_hyphens s in if c == b'-' then rest else c ∷ rest

module _ ⦃tables : CaseTables⦄ where
  -- `strings.ToUpper`
  abbrev pub to_upper : Text → Text
  to_upper s = map tables.upper s

  -- `EnvironmentName`
  unfoldable pub environment_name : EntityId → Text → Text
  environment_name id field =
      codes "DAVDECK_DNS_"
      ++ (to_upper (drop_hyphens id)
          ++ (b'_' ∷ to_upper (map (λ c. if c == b'-' then b'_' else c) field)))

  placeholders : EntityId → List (Text × Text) → List (Text × Text)
  placeholders id [] = []
  placeholders id ((caddy_field, secret_field) ∷ fields) =
      (caddy_field, codes "{env." ++ (environment_name id secret_field ++ codes "}"))
      ∷ placeholders id fields

  -- `CaddyProvider`
  unfoldable pub caddy_provider : Adapter → EntityId → List (Text × Text)
  unfolding placeholders environment_name
  caddy_provider a id = (codes "name", a.type_name) ∷ placeholders id a.caddy_fields

  -- `Environment`
  unfoldable pub environment : EntityId → Secret → List (Text × Text)
  unfolding environment_name
  environment id [] = []
  environment id ((field, value) ∷ secret) =
      (environment_name id field, value) ∷ environment id secret

token_adapter : Text → Adapter
token_adapter name = record {
  type_name = name;
  required = codes "api_token" ∷ [];
  optional = [];
  caddy_fields = (codes "api_token", codes "api_token") ∷ [];
}

-- `For`, over the map `adapters`.
unfoldable pub for : DnsProviderType → Option Adapter
unfolding token_adapter
for cloudflare = some (token_adapter (codes "cloudflare"))
for tencent_cloud = some (record {
  type_name = codes "tencentcloud";
  required = codes "secret_id" ∷ codes "secret_key" ∷ [];
  optional = [];
  caddy_fields =
      (codes "secretid", codes "secret_id") ∷ (codes "secretkey", codes "secret_key") ∷ [];
})
for dnspod = some (token_adapter (codes "dnspod"))
for alidns = some (record {
  type_name = codes "alidns";
  required = codes "access_key_id" ∷ codes "access_key_secret" ∷ [];
  optional = codes "security_token" ∷ [];
  caddy_fields =
      (codes "access_key_id", codes "access_key_id")
      ∷ (codes "access_key_secret", codes "access_key_secret")
      ∷ (codes "security_token", codes "security_token")
      ∷ [];
})
for (other _) = none
