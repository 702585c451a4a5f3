-- ===== src/Caddy/Compiler/Succeeds.antt =====
-- When `Compile` of core/internal/caddy/compiler.go succeeds.
use dav_deck.Common.{
  ◌≡◌, refl, sym, subst, ap, ◌∙◌, Bool, true, not, ◌&&◌, List, [], ◌∷◌, map, all, any, all_ext,
  Option, some, none, Result, ok, ◌>>◌, ◌>>=◌, reject, wrap, Bool-cases, inl, inr, is_ok,
  is_ok-check, is_ok-wrap, is_ok-bind, is_ok-step, is_ok-test, value_of, if◌then◌else◌, arith,
}
use dav_deck.Common.Text.{Text, CaseTables, text_eq}
use dav_deck.Common.Text.Laws.{text_eq_sym}
use dav_deck.Common.Sorting.{sort_slice, any-sort_slice, all-sort_slice}
use dav_deck.Common.Keys.{is_fresh, is_fresh-cons, is_fresh-sort_slice, any-map}
use dav_deck.Domain.Id.{EntityId}
use dav_deck.Domain.User.{User, validate_user}
use dav_deck.Domain.Share.{SharePermission, validate_share, validate_share_permission}
use dav_deck.Domain.Dns.{DnsProviderCredential, seen_in, validate_dns_provider_credential}
use dav_deck.Domain.Input.{
  ShareWithPermissions, RuntimeConfigInput, settings, validate_users, validate_shares,
  validate_profile, validate_reference, validate_providers, validate_input, validate_permissions,
  share, permission, duplicate_permission, duplicate_share_id, duplicate_share_slug,
  different_share, dns_provider, duplicate_provider_id,
}
use dav_deck.Domain.Input.Accepted.{
  fits, share_fits, validate_permissions_iff, validate_users_iff, validate_shares_iff,
  validate_providers_iff, validate_input_iff,
}
use dav_deck.Domain.Input.Consistent.{has_its_provider, validate_input-IsConsistent}
use dav_deck.Domain.Settings.{ServerSettings, validate_server_settings}
use dav_deck.Domain.Tls.{TlsProfile}
use dav_deck.Domain.Revision.{Digest}
use dav_deck.App.World.{CompiledConfig}
use dav_deck.Caddy.Config.{Encoder, Route, Config}
use dav_deck.Caddy.Tls.{compile_tls}
use dav_deck.Caddy.Tls.Succeeds.{compile_tls_ok}
use dav_deck.Domain.Snapshot.{permission_less}
use dav_deck.Caddy.Accounts.{
  CompileError, invalid_input, user_by_id, found_user, prepend, access_of, readers, writers,
  account_less, collect, compile_accounts,
}
use dav_deck.Caddy.Routes.{
  Output, share_output, and_then, nothing, compile_share, compile_shares, with_discovery,
}
use dav_deck.Caddy.Compiler.{
  user_less, share_less, check_providers, check_entities, configure, tls_config, compile_outputs,
  build, compile, hostname_of, encode,
}

found_user_iff :
    (id : EntityId) (users : List User)
    → is_ok (found_user id (user_by_id id users)) ≡ any (text_eq id) (map (λ u. u.id) users)
unfolding user_by_id
found_user_iff id [] = refl
found_user_iff id (u ∷ users) = ground (arith, text_eq_sym u.id id, found_user_iff id users)

module _ ⦃tables : CaseTables⦄ where
  collect_iff :
      (share_id : EntityId) (users : List User) (seen : List Text) (rows : List SharePermission)
      → is_ok (collect share_id users seen rows)
        ≡ (all (fits (map (λ u. u.id) users) share_id) rows && is_fresh (λ p. p.user_id) seen rows)
  unfolding collect
  collect_iff share_id users seen [] = refl
  collect_iff share_id users seen (p ∷ rows) =
      let rest = collect share_id users (p.user_id ∷ seen) rows in
      let next = λ (u : User). (rest >>= λ others. ok (prepend (access_of u p) others)) in
      rw
        (
          is_ok-step
              (wrap (λ e. invalid_input (permission share_id e)) (validate_share_permission p))
              (not (text_eq p.share_id share_id)) (invalid_input different_share)
              (reject (seen_in p.user_id seen) (invalid_input (duplicate_permission p.user_id))
                >> (found_user p.user_id (user_by_id p.user_id users) >>= next)),
          is_ok-test (seen_in p.user_id seen) (invalid_input (duplicate_permission p.user_id))
              (found_user p.user_id (user_by_id p.user_id users) >>= next),
          is_ok-bind (found_user p.user_id (user_by_id p.user_id users)) next (is_ok rest) (λ u _.
              is_ok-bind rest (λ others. ok (prepend (access_of u p) others)) true (λ _ _. refl)
              ∙ ground arith),
          found_user_iff p.user_id users,
          is_ok-wrap (λ e. invalid_input (permission share_id e)) (validate_share_permission p),
        )
        (ground (
          arith,
          collect_iff share_id users (p.user_id ∷ seen) rows,
          is_fresh-cons (λ p. p.user_id) seen p rows,
        ))

  users_sorted :
      (id : EntityId) (users : List User)
      → any (text_eq id) (map (λ u. u.id) (sort_slice user_less users))
        ≡ any (text_eq id) (map (λ u. u.id) users)
  users_sorted id users =
      any-map (text_eq id) (λ u. u.id) (sort_slice user_less users)
      ∙ any-sort_slice user_less (λ u. text_eq id u.id) users
      ∙ sym (any-map (text_eq id) (λ u. u.id) users)

  -- The accounts compile where the permissions are valid, whatever the order of either list.
  compile_accounts_iff :
      (item : ShareWithPermissions) (users : List User)
      → is_ok (compile_accounts item (sort_slice user_less users))
        ≡ is_ok (validate_permissions (map (λ u. u.id) users) item.share.id [] item.permissions)
  unfolding compile_accounts
  compile_accounts_iff item users =
      let sorted = sort_slice user_less users in
      let rows = sort_slice permission_less item.permissions in
      is_ok-bind (collect item.share.id sorted [] rows)
        (λ l. ok (sort_slice account_less (readers l), sort_slice account_less (writers l))) true
        (λ _ _. refl)
      ∙ rw
          (
            collect_iff item.share.id sorted [] rows,
            validate_permissions_iff (map (λ u. u.id) users) item.share.id [] item.permissions,
            all-sort_slice permission_less (fits (map (λ u. u.id) sorted) item.share.id)
                item.permissions,
            is_fresh-sort_slice (λ p. p.user_id) permission_less [] item.permissions,
            all_ext (fits (map (λ u. u.id) sorted) item.share.id)
                (fits (map (λ u. u.id) users) item.share.id)
                (λ p.
                  ap
                    (λ b.
                      is_ok (validate_share_permission p)
                      && (text_eq p.share_id item.share.id && b))
                    (users_sorted p.user_id users))
                item.permissions,
          )
          (ground arith)

  compile_share_ok :
      (base hostname : Text) (users : List User) (item : ShareWithPermissions)
      → is_ok (validate_permissions (map (λ u. u.id) users) item.share.id [] item.permissions)
        ≡ true
      → is_ok (compile_share base hostname (sort_slice user_less users) item) ≡ true
  unfolding compile_share
  compile_share_ok base hostname users item h =
      let sorted = sort_slice user_less users in
      let compiled =
        is_ok-bind (compile_accounts item sorted)
          (λ accounts. ok (share_output base hostname item.share accounts)) true (λ _ _. refl)
        ∙ rw (compile_accounts_iff item users, h) refl in
      let m = compile_accounts item sorted >>= λ accounts.
      ok (share_output base hostname item.share accounts) in
      elim (Bool-cases item.share.enabled) [
        | inl on ↦ subst (λ b. is_ok (if b then m else ok nothing) ≡ true) (sym on) compiled
        | inr off ↦ subst (λ b. is_ok (if b then m else ok nothing) ≡ true) (sym off) refl
      ]

  compile_shares_ok :
      (base hostname : Text) (users : List User) (ids slugs : List Text)
      (shares : List ShareWithPermissions)
      → (all (share_fits (map (λ u. u.id) users)) shares
          && (is_fresh (λ s. s.share.id) ids shares && is_fresh (λ s. s.share.slug) slugs shares))
        ≡ true
      → is_ok (compile_shares base hostname (sort_slice user_less users) ids slugs shares) ≡ true
  unfolding compile_shares
  compile_shares_ok base hostname users ids slugs [] h = refl
  compile_shares_ok base hostname users ids slugs (item ∷ shares) h =
      let sorted = sort_slice user_less users in
      let rest =
        compile_shares base hostname sorted (item.share.id ∷ ids) (item.share.slug ∷ slugs)
          shares in
      let next = λ (output : Output). (rest >>= λ others. ok (and_then output others)) in
      let tail = compile_share base hostname sorted item >>= next in
      rw
        (
          is_ok-step (wrap (λ e. invalid_input (share item.share.id e)) (validate_share item.share))
              (seen_in item.share.id ids) (invalid_input (duplicate_share_id item.share.id))
              (reject (seen_in item.share.slug slugs)
                  (invalid_input (duplicate_share_slug item.share.slug))
                >> tail),
          is_ok-test (seen_in item.share.slug slugs)
              (invalid_input (duplicate_share_slug item.share.slug)) tail,
          is_ok-bind (compile_share base hostname sorted item) next (is_ok rest) (λ output _.
              is_ok-bind rest (λ others. ok (and_then output others)) true (λ _ _. refl)
              ∙ ground arith),
          is_ok-wrap (λ e. invalid_input (share item.share.id e)) (validate_share item.share),
        )
        (ground (
          arith,
          compile_share_ok base hostname users item,
          compile_shares_ok base hostname users (item.share.id ∷ ids) (item.share.slug ∷ slugs)
              shares,
          is_fresh-cons (λ s. s.share.id) ids item shares,
          is_fresh-cons (λ s. s.share.slug) slugs item shares,
        ))

  check_providers_iff :
      (ids : List Text) (providers : List DnsProviderCredential)
      → is_ok (check_providers ids providers) ≡ (
          all (λ p. is_ok (validate_dns_provider_credential p)) providers
          && is_fresh (λ p. p.id) ids providers)
  unfolding check_providers
  check_providers_iff ids [] = refl
  check_providers_iff ids (p ∷ rest) =
      rw
        (
          is_ok-step (wrap (dns_provider p.id) (validate_dns_provider_credential p))
              (seen_in p.id ids) (duplicate_provider_id p.id) (check_providers (p.id ∷ ids) rest),
          is_ok-wrap (dns_provider p.id) (validate_dns_provider_credential p),
        )
        (ground
          (arith, check_providers_iff (p.id ∷ ids) rest, is_fresh-cons (λ p. p.id) ids p rest))

  check_entities_iff :
      (input : RuntimeConfigInput)
      → is_ok (check_entities input) ≡ (
          is_ok (validate_server_settings input.server_settings)
          && (is_ok (check_providers [] input.dns_provider_credentials)
              && (is_ok (validate_profile input.tls_profile)
                  && is_ok (validate_users [] [] input.users))))
  unfolding check_entities
  check_entities_iff input =
      let users = validate_users [] [] (sort_slice user_less input.users) in
      let profile = validate_profile input.tls_profile >> users in
      rw
        (
          is_ok-check (wrap settings (validate_server_settings input.server_settings))
              (check_providers [] input.dns_provider_credentials >> profile),
          is_ok-check (check_providers [] input.dns_provider_credentials) profile,
          is_ok-check (validate_profile input.tls_profile) users,
          is_ok-wrap settings (validate_server_settings input.server_settings),
          validate_users_iff [] [] (sort_slice user_less input.users),
          validate_users_iff [] [] input.users,
          all-sort_slice user_less (λ u. is_ok (validate_user u)) input.users,
          is_fresh-sort_slice (λ u. u.id) user_less [] input.users,
          is_fresh-sort_slice (λ u. u.username_normalized) user_less [] input.users,
        )
        refl

  sorted_shares_fit :
      (users : List EntityId) (shares : List ShareWithPermissions)
      → is_ok (validate_shares users [] [] shares) ≡ true
      → (all (share_fits users) (sort_slice share_less shares)
          && (is_fresh (λ s. s.share.id) [] (sort_slice share_less shares)
              && is_fresh (λ s. s.share.slug) [] (sort_slice share_less shares)))
        ≡ true
  sorted_shares_fit users shares h =
      rw
        (
          all-sort_slice share_less (share_fits users) shares,
          is_fresh-sort_slice (λ s. s.share.id) share_less [] shares,
          is_fresh-sort_slice (λ s. s.share.slug) share_less [] shares,
        )
        (sym (validate_shares_iff users [] [] shares) ∙ h)

  configure_ok :
      (encoder : Encoder) (s : ServerSettings) (profile : Option TlsProfile)
      (providers : List DnsProviderCredential) (routes : List Route)
      → has_its_provider (map (λ p. p.id) providers) profile ≡ true
      → all (λ p. is_ok (validate_dns_provider_credential p)) providers ≡ true
      → is_ok (configure encoder s profile providers routes) ≡ true
  unfolding configure
  configure_ok encoder s none providers routes h k = refl
  configure_ok encoder s (some profile) providers routes h k =
      is_ok-bind (compile_tls encoder profile providers)
        (λ output. ok (tls_config encoder s profile routes output)) true (λ _ _. refl)
      ∙ rw (compile_tls_ok encoder profile providers h k) refl

  abbrev parts_ok : RuntimeConfigInput → Bool
  parts_ok input =
      is_ok (validate_server_settings input.server_settings)
      && (is_ok (validate_profile input.tls_profile)
          && (is_ok (validate_providers [] [] input.dns_provider_credentials)
              && (is_ok (validate_reference input.tls_profile input.dns_provider_credentials)
                  && (is_ok (validate_users [] [] input.users)
                      && is_ok
                          (validate_shares (map (λ u. u.id) input.users) [] [] input.shares)))))

  providers_ok :
      (input : RuntimeConfigInput)
      → parts_ok input ≡ true
      → all (λ p. is_ok (validate_dns_provider_credential p)) input.dns_provider_credentials ≡ true
  providers_ok input h = ground (arith, validate_providers_iff [] [] input.dns_provider_credentials)

  shares_ok :
      (input : RuntimeConfigInput)
      → parts_ok input ≡ true
      → is_ok (validate_shares (map (λ u. u.id) input.users) [] [] input.shares) ≡ true
  shares_ok input h = ground arith

  entities_ok :
      (input : RuntimeConfigInput) → parts_ok input ≡ true → is_ok (check_entities input) ≡ true
  entities_ok input h = ground (
    arith,
    check_entities_iff input,
    check_providers_iff [] input.dns_provider_credentials,
    validate_providers_iff [] [] input.dns_provider_credentials,
  )

  -- `Compile` after the loop over the shares.
  abbrev finish : Encoder → RuntimeConfigInput → Output → Result CompileError (Config × List Text)
  finish encoder input output =
      configure encoder input.server_settings input.tls_profile input.dns_provider_credentials (
        with_discovery input.server_settings.public_base_path (hostname_of input.tls_profile)
          output.grants output.routes)
      >>= λ c. ok (c, output.warnings)

  finish_ok :
      (encoder : Encoder) (input : RuntimeConfigInput) (output : Output)
      → validate_input input ≡ ok tt
      → parts_ok input ≡ true
      → is_ok (finish encoder input output) ≡ true
  finish_ok encoder input output h parts =
      let routes =
        with_discovery input.server_settings.public_base_path (hostname_of input.tls_profile)
          output.grants output.routes in
      is_ok-bind
        (configure encoder input.server_settings input.tls_profile input.dns_provider_credentials
          routes)
        (λ c. ok (c, output.warnings)) true (λ _ _. refl)
      ∙ rw
          (configure_ok encoder input.server_settings input.tls_profile
            input.dns_provider_credentials routes (validate_input-IsConsistent input h).provider
            (providers_ok input parts))
          refl

  build_ok :
      (encoder : Encoder) (input : RuntimeConfigInput)
      → validate_input input ≡ ok tt
      → is_ok (build encoder input) ≡ true
  unfolding build compile_outputs
  build_ok encoder input h =
      let base = input.server_settings.public_base_path in
      let hostname = hostname_of input.tls_profile in
      let parts = sym (validate_input_iff input) ∙ ap is_ok h in
      let shares =
        compile_shares_ok base hostname input.users [] [] (sort_slice share_less input.shares)
          (sorted_shares_fit (map (λ u. u.id) input.users) input.shares (shares_ok input parts)) in
      is_ok-check (wrap invalid_input (check_entities input))
        (compile_outputs input >>= finish encoder input)
      ∙ rw
          (
            is_ok-wrap invalid_input (check_entities input),
            entities_ok input parts,
            is_ok-bind (compile_outputs input) (finish encoder input) true
                (λ output _. finish_ok encoder input output h parts),
            shares,
          )
          refl

module _ ⦃tables : CaseTables⦄ ⦃digest : Digest⦄ where
  -- `Compile` succeeds on every input that `RuntimeConfigInput.Validate` accepts, whatever the order of
  -- its users, shares and permissions is.
  pub compile_succeeds :
      (encoder : Encoder) (input : RuntimeConfigInput)
      → validate_input input ≡ ok tt
      → (compiled : CompiledConfig) × (compile encoder input ≡ ok compiled)
  unfolding compile
  compile_succeeds encoder input h = value_of (compile encoder input) (
      is_ok-bind (build encoder input) (λ built. ok (encode encoder built)) true (λ _ _. refl)
      ∙ rw (build_ok encoder input h) refl)
