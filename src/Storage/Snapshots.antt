-- ===== src/Storage/Snapshots.antt =====
-- `Snapshot` of core/internal/storage/runtime_repository.go: one read transaction over the tables
-- of the desired state. The row order of a query is written out as a sort.
pub mod Reads
use dav_deck.Common.{
  ◌&&◌, ◌||◌, ◌==◌, ltb, List, [], ◌∷◌, Option, none, some, Result, wrap, if◌then◌else◌,
}
use dav_deck.Common.Sorting.{sort_slice}
use dav_deck.Common.Text.{CaseTables, text_eq, text_lt}
use dav_deck.Common.Exec.{Exec, pure, raise, lift, gets, ◌>>=◌, ◌>>◌}
use dav_deck.Domain.Validation.{ValidationError}
use dav_deck.Domain.Id.{EntityId}
use dav_deck.Domain.User.{validate_user}
use dav_deck.Domain.Share.{Share, SharePermission, validate_share, validate_share_permission}
use dav_deck.Domain.Settings.{ServerSettings, validate_server_settings}
use dav_deck.Domain.Tls.{TlsProfile, validate_tls_profile}
use dav_deck.Domain.Dns.{validate_dns_provider_credential}
use dav_deck.Domain.Input.{RuntimeConfigInput, ShareWithPermissions}
use dav_deck.Domain.Snapshot.{by_keys, permission_less, provider_less}
use dav_deck.Storage.Rows.{
  scanned, scan_all, scan_user, scan_share, scan_permission, scan_settings, scan_tls_profile,
  scan_dns_provider,
}
use dav_deck.Storage.Database.{Store, StoreError, sql_failed, invalid_row, statement, transaction}

permissions_of : EntityId → List SharePermission → List SharePermission
permissions_of id [] = []
permissions_of id (p ∷ rows) =
    let rest = permissions_of id rows in if text_eq p.share_id id then p ∷ rest else rest

module _ ⦃tables : CaseTables⦄ where
  first_settings : List ServerSettings → Exec Store StoreError ServerSettings
  first_settings [] = raise sql_failed
  first_settings (row ∷ rows) = scanned (scan_settings row)

  first_profile : List TlsProfile → Exec Store StoreError (Option TlsProfile)
  first_profile [] = pure none
  first_profile (row ∷ rows) = do p ← scanned (scan_tls_profile row); pure (some p)

  -- The loop that adds the permissions of each share.
  with_permissions : List Share → Exec Store StoreError (List ShareWithPermissions)
  with_permissions [] = pure []
  with_permissions (share ∷ shares) = do
    statement
    rows ← gets (λ s. permissions_of share.id s.db.tables.share_permissions)
    permissions ← scanned (scan_all scan_permission (sort_slice permission_less rows))
    rest ← with_permissions shares
    pure (record { share = share; permissions = permissions } ∷ rest)

  read_tables : Exec Store StoreError RuntimeConfigInput
  unfolding first_settings first_profile with_permissions permissions_of
  read_tables = do
    statement
    t ← gets (λ s. s.db.tables)
    settings ← first_settings t.server_settings
    statement
    providers ←
        scanned (scan_all scan_dns_provider (sort_slice provider_less t.dns_provider_credentials))
    statement
    profile ← first_profile (
        sort_slice
          (λ a b.
            ltb a.created_at.instant b.created_at.instant
            || (a.created_at.instant == b.created_at.instant && text_lt a.id b.id))
          t.tls_profiles)
    statement
    users ← scanned (
        scan_all scan_user (
          sort_slice (λ a b. by_keys a.username_normalized a.id b.username_normalized b.id)
            t.users))
    statement
    rows ←
        scanned (scan_all scan_share (sort_slice (λ a b. by_keys a.slug a.id b.slug b.id) t.shares))
    shares ← with_permissions rows
    pure (record {
      server_settings = settings;
      tls_profile = profile;
      dns_provider_credentials = providers;
      users = users;
      shares = shares;
    })

  unfoldable pub snapshot : Exec Store StoreError RuntimeConfigInput
  unfolding read_tables
  snapshot = transaction read_tables
