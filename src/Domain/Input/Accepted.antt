-- ===== src/Domain/Input/Accepted.antt =====
-- When the loops of `RuntimeConfigInput.Validate` of core/internal/domain/revision_snapshot.go succeed.
use dav_deck.Common.{
  ◌≡◌, refl, Bool, not, ◌&&◌, List, [], ◌∷◌, map, all, any, ◌>>◌, reject, wrap, is_ok, is_ok-check,
  is_ok-wrap, is_ok-step, is_ok-test, arith,
}
use dav_deck.Common.Text.{Text, CaseTables, text_eq}
use dav_deck.Common.Keys.{is_fresh, is_fresh-cons}
use dav_deck.Domain.Id.{EntityId}
use dav_deck.Domain.User.{User, validate_user}
use dav_deck.Domain.Settings.{validate_server_settings}
use dav_deck.Domain.Share.{SharePermission, validate_share, validate_share_permission}
use dav_deck.Domain.Dns.{DnsProviderCredential, seen_in, validate_dns_provider_credential}
use dav_deck.Domain.Input.{
  validate_profile, validate_server_settings, validate_input, ShareWithPermissions,
  RuntimeConfigInput, validate_providers, validate_users, validate_permissions, validate_shares,
  validate_input, validate_profile, validate_reference, settings, user, dns_provider, permission,
  share, duplicate_user_id, duplicate_username, duplicate_provider_id, duplicate_provider_name,
  duplicate_share_id, duplicate_share_slug, different_share, unknown_user, duplicate_permission,
}

module _ ⦃tables : CaseTables⦄ where
  pub validate_users_iff :
      (ids names : List Text) (users : List User)
      → is_ok (validate_users ids names users) ≡ (
          all (λ u. is_ok (validate_user u)) users
          && (is_fresh (λ u. u.id) ids users && is_fresh (λ u. u.username_normalized) names users))
  unfolding validate_users
  validate_users_iff ids names [] = refl
  validate_users_iff ids names (u ∷ users) =
      rw
        (
          is_ok-step (wrap (user u.id) (validate_user u)) (seen_in u.id ids)
              (duplicate_user_id u.id)
              (reject (seen_in u.username_normalized names)
                  (duplicate_username u.username_normalized)
                >> validate_users (u.id ∷ ids) (u.username_normalized ∷ names) users),
          is_ok-test (seen_in u.username_normalized names)
              (duplicate_username u.username_normalized)
              (validate_users (u.id ∷ ids) (u.username_normalized ∷ names) users),
          is_ok-wrap (user u.id) (validate_user u),
        )
        (ground (
          arith,
          validate_users_iff (u.id ∷ ids) (u.username_normalized ∷ names) users,
          is_fresh-cons (λ u. u.id) ids u users,
          is_fresh-cons (λ u. u.username_normalized) names u users,
        ))

  pub validate_providers_iff :
      (ids names : List Text) (providers : List DnsProviderCredential)
      → is_ok (validate_providers ids names providers) ≡ (
          all (λ p. is_ok (validate_dns_provider_credential p)) providers
          && (is_fresh (λ p. p.id) ids providers && is_fresh (λ p. p.name) names providers))
  unfolding validate_providers
  validate_providers_iff ids names [] = refl
  validate_providers_iff ids names (p ∷ rest) =
      rw
        (
          is_ok-step (wrap (dns_provider p.id) (validate_dns_provider_credential p))
              (seen_in p.id ids) (duplicate_provider_id p.id)
              (reject (seen_in p.name names) (duplicate_provider_name p.name)
                >> validate_providers (p.id ∷ ids) (p.name ∷ names) rest),
          is_ok-test (seen_in p.name names) (duplicate_provider_name p.name)
              (validate_providers (p.id ∷ ids) (p.name ∷ names) rest),
          is_ok-wrap (dns_provider p.id) (validate_dns_provider_credential p),
        )
        (ground (
          arith,
          validate_providers_iff (p.id ∷ ids) (p.name ∷ names) rest,
          is_fresh-cons (λ p. p.id) ids p rest,
          is_fresh-cons (λ p. p.name) names p rest,
        ))

  -- The permission is valid, belongs to the share and is for one of the users.
  abbrev pub fits : List EntityId → EntityId → SharePermission → Bool
  fits users share_id p =
      is_ok (validate_share_permission p)
      && (text_eq p.share_id share_id && any (text_eq p.user_id) users)

  pub validate_permissions_iff :
      (users : List EntityId) (share_id : EntityId) (seen : List Text) (rows : List SharePermission)
      → is_ok (validate_permissions users share_id seen rows)
        ≡ (all (fits users share_id) rows && is_fresh (λ p. p.user_id) seen rows)
  unfolding validate_permissions
  validate_permissions_iff users share_id seen [] = refl
  validate_permissions_iff users share_id seen (p ∷ rows) =
      rw
        (
          is_ok-step (wrap (permission share_id) (validate_share_permission p))
              (not (text_eq p.share_id share_id)) different_share
              (reject (not (seen_in p.user_id users)) (unknown_user p.user_id)
                >> (reject (seen_in p.user_id seen) (duplicate_permission p.user_id)
                    >> validate_permissions users share_id (p.user_id ∷ seen) rows)),
          is_ok-test (not (seen_in p.user_id users)) (unknown_user p.user_id) (
              reject (seen_in p.user_id seen) (duplicate_permission p.user_id)
              >> validate_permissions users share_id (p.user_id ∷ seen) rows),
          is_ok-test (seen_in p.user_id seen) (duplicate_permission p.user_id)
              (validate_permissions users share_id (p.user_id ∷ seen) rows),
          is_ok-wrap (permission share_id) (validate_share_permission p),
        )
        (ground (
          arith,
          validate_permissions_iff users share_id (p.user_id ∷ seen) rows,
          is_fresh-cons (λ p. p.user_id) seen p rows,
        ))

  abbrev pub share_fits : List EntityId → ShareWithPermissions → Bool
  share_fits users item =
      is_ok (validate_share item.share)
      && is_ok (validate_permissions users item.share.id [] item.permissions)

  pub validate_shares_iff :
      (users : List EntityId) (ids slugs : List Text) (shares : List ShareWithPermissions)
      → is_ok (validate_shares users ids slugs shares) ≡ (
          all (share_fits users) shares
          && (is_fresh (λ s. s.share.id) ids shares && is_fresh (λ s. s.share.slug) slugs shares))
  unfolding validate_shares
  validate_shares_iff users ids slugs [] = refl
  validate_shares_iff users ids slugs (item ∷ rest) =
      rw
        (
          is_ok-step (wrap (share item.share.id) (validate_share item.share))
              (seen_in item.share.id ids) (duplicate_share_id item.share.id)
              (reject (seen_in item.share.slug slugs) (duplicate_share_slug item.share.slug)
                >> (validate_permissions users item.share.id [] item.permissions
                    >> validate_shares users (item.share.id ∷ ids) (item.share.slug ∷ slugs) rest)),
          is_ok-test (seen_in item.share.slug slugs) (duplicate_share_slug item.share.slug) (
              validate_permissions users item.share.id [] item.permissions
              >> validate_shares users (item.share.id ∷ ids) (item.share.slug ∷ slugs) rest),
          is_ok-check (validate_permissions users item.share.id [] item.permissions)
              (validate_shares users (item.share.id ∷ ids) (item.share.slug ∷ slugs) rest),
          is_ok-wrap (share item.share.id) (validate_share item.share),
        )
        (ground (
          arith,
          validate_shares_iff users (item.share.id ∷ ids) (item.share.slug ∷ slugs) rest,
          is_fresh-cons (λ s. s.share.id) ids item rest,
          is_fresh-cons (λ s. s.share.slug) slugs item rest,
        ))

  -- The parts of `Validate`.
  pub validate_input_iff :
      (input : RuntimeConfigInput)
      → is_ok (validate_input input) ≡ (
          is_ok (validate_server_settings input.server_settings)
          && (is_ok (validate_profile input.tls_profile)
              && (is_ok (validate_providers [] [] input.dns_provider_credentials)
                  && (is_ok (validate_reference input.tls_profile input.dns_provider_credentials)
                      && (is_ok (validate_users [] [] input.users)
                          && is_ok (
                              validate_shares (map (λ u. u.id) input.users) [] [] input.shares))))))
  unfolding validate_input
  validate_input_iff input =
      let shares = validate_shares (map (λ u. u.id) input.users) [] [] input.shares in
      let users = validate_users [] [] input.users >> shares in
      let refers = validate_reference input.tls_profile input.dns_provider_credentials >> users in
      let providers = validate_providers [] [] input.dns_provider_credentials >> refers in
      rw
        (
          is_ok-check (wrap settings (validate_server_settings input.server_settings))
              (validate_profile input.tls_profile >> providers),
          is_ok-check (validate_profile input.tls_profile) providers,
          is_ok-check (validate_providers [] [] input.dns_provider_credentials) refers,
          is_ok-check (validate_reference input.tls_profile input.dns_provider_credentials) users,
          is_ok-check (validate_users [] [] input.users) shares,
          is_ok-wrap settings (validate_server_settings input.server_settings),
        )
        refl
