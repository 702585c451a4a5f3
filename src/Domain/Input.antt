-- ===== src/Domain/Input.antt =====
-- core/internal/domain/runtime_config.go, and `RuntimeConfigInput.Validate` of
-- core/internal/domain/revision_snapshot.go. A Go map that is only tested for its keys is the list
-- of the keys; `fmt.Errorf("…: %w", err)` is a constructor over the error.
pub mod Accepted
pub mod Consistent
use dav_deck.Common.{
  ℕ, Bool, not, List, [], ◌∷◌, Option, none, some, map, Result, ok, err, ◌>>◌, ◌>>=◌, reject, wrap,
}
use dav_deck.Common.Text.{Text, CaseTables, text_eq}
use dav_deck.Domain.Validation.{ValidationError}
use dav_deck.Domain.Id.{EntityId}
use dav_deck.Domain.User.{User, validate_user}
use dav_deck.Domain.Share.{Share, SharePermission, validate_share, validate_share_permission}
use dav_deck.Domain.Settings.{ServerSettings, validate_server_settings}
use dav_deck.Domain.Tls.{TlsProfile, TlsChallenge, dns, validate_tls_profile}
use dav_deck.Domain.Dns.{DnsProviderCredential, seen_in, validate_dns_provider_credential}

pub record ShareWithPermissions : Type 0 where
  pub share : Share
  pub permissions : List SharePermission

pub record RuntimeConfigInput : Type 0 where
  pub server_settings : ServerSettings
  pub tls_profile : Option TlsProfile
  pub dns_provider_credentials : List DnsProviderCredential
  pub users : List User
  pub shares : List ShareWithPermissions

pub data InputError : Type 0 where
  settings tls : ValidationError → InputError
  dns_provider user share permission : EntityId → ValidationError → InputError
  duplicate_provider_id duplicate_provider_name duplicate_user_id : Text → InputError
  duplicate_username duplicate_share_id duplicate_share_slug : Text → InputError
  duplicate_permission unknown_user unknown_provider : Text → InputError
  no_provider different_share : InputError
  unsupported_version : ℕ → InputError

module _ ⦃tables : CaseTables⦄ where
  -- The loops, each over what is left; the first arguments are the keys of the entities before.
  unfoldable pub validate_providers :
      List EntityId → List Text → List DnsProviderCredential → Result InputError (Unit {0})
  validate_providers ids names [] = ok tt
  validate_providers ids names (p ∷ rest) = do
    wrap (dns_provider p.id) (validate_dns_provider_credential p)
    reject (seen_in p.id ids) (duplicate_provider_id p.id)
    reject (seen_in p.name names) (duplicate_provider_name p.name)
    validate_providers (p.id ∷ ids) (p.name ∷ names) rest

  unfoldable pub validate_users :
      List EntityId → List Text → List User → Result InputError (Unit {0})
  validate_users ids names [] = ok tt
  validate_users ids names (u ∷ rest) = do
    wrap (user u.id) (validate_user u)
    reject (seen_in u.id ids) (duplicate_user_id u.id)
    reject (seen_in u.username_normalized names) (duplicate_username u.username_normalized)
    validate_users (u.id ∷ ids) (u.username_normalized ∷ names) rest

  unfoldable pub validate_permissions :
      List EntityId → EntityId → List EntityId → List SharePermission → Result InputError (Unit {0})
  validate_permissions users share_id seen [] = ok tt
  validate_permissions users share_id seen (p ∷ rest) = do
    wrap (permission share_id) (validate_share_permission p)
    reject (not (text_eq p.share_id share_id)) different_share
    reject (not (seen_in p.user_id users)) (unknown_user p.user_id)
    reject (seen_in p.user_id seen) (duplicate_permission p.user_id)
    validate_permissions users share_id (p.user_id ∷ seen) rest

  unfoldable pub validate_shares :
      List EntityId
      → List EntityId
      → List Text
      → List ShareWithPermissions
      → Result InputError (Unit {0})
  validate_shares users ids slugs [] = ok tt
  validate_shares users ids slugs (item ∷ rest) = do
    wrap (share item.share.id) (validate_share item.share)
    reject (seen_in item.share.id ids) (duplicate_share_id item.share.id)
    reject (seen_in item.share.slug slugs) (duplicate_share_slug item.share.slug)
    validate_permissions users item.share.id [] item.permissions
    validate_shares users (item.share.id ∷ ids) (item.share.slug ∷ slugs) rest

  unfoldable pub validate_profile : Option TlsProfile → Result InputError (Unit {0})
  validate_profile none = ok tt
  validate_profile (some profile) = wrap tls (validate_tls_profile profile)

  -- The reference from the profile to its provider; only the literal challenge "dns" is looked at.
  reference : TlsChallenge → Option EntityId → List EntityId → Result InputError (Unit {0})
  reference dns none ids = err no_provider
  reference dns (some id) ids = reject (not (seen_in id ids)) (unknown_provider id)
  reference _ provider ids = ok tt

  unfoldable pub validate_reference :
      Option TlsProfile → List DnsProviderCredential → Result InputError (Unit {0})
  unfolding reference
  validate_reference none providers = ok tt
  validate_reference (some profile) providers =
      reference profile.challenge profile.dns_provider_id (map (λ p. p.id) providers)

  -- `RuntimeConfigInput.Validate`. The map of users holds every user once the users' loop is done.
  unfoldable pub validate_input : RuntimeConfigInput → Result InputError (Unit {0})
  validate_input input = do
    wrap settings (validate_server_settings input.server_settings)
    validate_profile input.tls_profile
    validate_providers [] [] input.dns_provider_credentials
    validate_reference input.tls_profile input.dns_provider_credentials
    validate_users [] [] input.users
    validate_shares (map (λ u. u.id) input.users) [] [] input.shares
