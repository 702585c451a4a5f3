-- ===== src/Storage/Restore.antt =====
-- `RestoreState` of core/internal/storage/revision_repository.go. The rows that it inserts come
-- from a validated snapshot, whose keys are distinct, so that the constraints of the schema hold and
-- are left out; the dirty marks that the triggers set are overwritten by the last statement.
pub mod Contents
pub mod Replaced
use dav_deck.Common.{not, List, [], ◌∷◌, ◌++◌, Option, none, some, any, wrap, if◌then◌else◌}
use dav_deck.Common.Text.{CaseTables, text_eq, is_empty}
use dav_deck.Common.Exec.{Exec, pure, raise, lift, gets, fail_if, ◌>>=◌, ◌>>◌}
use dav_deck.Domain.Id.{EntityId}
use dav_deck.Domain.Timestamp.{Timestamp}
use dav_deck.Domain.User.{User}
use dav_deck.Domain.Share.{SharePermission}
use dav_deck.Domain.Tls.{TlsProfile, default_challenge}
use dav_deck.Domain.Dns.{DnsProviderCredential}
use dav_deck.Domain.Revision.{Bytes, ConfigRevision, Digest}
use dav_deck.Domain.Input.{RuntimeConfigInput, ShareWithPermissions, validate_input}
use dav_deck.Domain.State.{Codec, marshal_revision_snapshot}
use dav_deck.Storage.Database.{
  Tables, Database, Store, StoreError, revision_not_found, invalid_input, no_state_snapshot,
  snapshot_differs, statement, write, transaction,
}
use dav_deck.Storage.Revisions.{
  select, lookup_first, has_valid_id, update, set_applied, set_active_row, expect_affected,
  with_rows, with_state,
}

abbrev pub with_tables : (Tables → Tables) → Database → Database
with_tables f db = record db { tables = f db.tables }

insert_users : List User → Exec Store StoreError (Unit {0})
insert_users [] = pure tt
insert_users (u ∷ users) = do
  write (with_tables (λ t. record t { users = t.users ++ u ∷ [] }))
  insert_users users

insert_permissions : List SharePermission → Exec Store StoreError (Unit {0})
insert_permissions [] = pure tt
insert_permissions (p ∷ permissions) = do
  write (with_tables (λ t. record t { share_permissions = t.share_permissions ++ p ∷ [] }))
  insert_permissions permissions

insert_shares : List ShareWithPermissions → Exec Store StoreError (Unit {0})
insert_shares [] = pure tt
insert_shares (item ∷ shares) = do
  write (with_tables (λ t. record t { shares = t.shares ++ item.share ∷ [] }))
  insert_permissions item.permissions
  insert_shares shares

-- `INSERT … ON CONFLICT(id) DO UPDATE`: the time of creation of an old row stays.
unfoldable pub upsert_provider :
    DnsProviderCredential → List DnsProviderCredential → List DnsProviderCredential
upsert_provider p [] = p ∷ []
upsert_provider p (q ∷ rows) =
    if text_eq q.id p.id
    then record p { created_at = q.created_at } ∷ rows
    else q ∷ upsert_provider p rows

upsert_providers : List DnsProviderCredential → Exec Store StoreError (Unit {0})
upsert_providers [] = pure tt
upsert_providers (p ∷ providers) = do
  write (
      with_tables
        (λ t. record t { dns_provider_credentials = upsert_provider p t.dns_provider_credentials }))
  upsert_providers providers

insert_profile : Option TlsProfile → Exec Store StoreError (Unit {0})
insert_profile none = pure tt
insert_profile (some p) = write (
    with_tables (λ t. record t {
      tls_profiles = t.tls_profiles ++ record p { challenge = default_challenge p.challenge } ∷ [];
    }))

-- The five `DELETE` statements, and the inserts in the order of the code.
unfoldable pub replace_tables : RuntimeConfigInput → Exec Store StoreError (Unit {0})
unfolding insert_users insert_shares insert_permissions upsert_providers insert_profile
replace_tables input = do
  write (with_tables (λ t. record t { share_permissions = [] }))
  write (with_tables (λ t. record t { shares = [] }))
  write (with_tables (λ t. record t { users = [] }))
  write (with_tables (λ t. record t { tls_profiles = [] }))
  write (with_tables (λ t. record t { server_settings = [] }))
  write (with_tables (λ t. record t { server_settings = input.server_settings ∷ [] }))
  insert_users input.users
  insert_shares input.shares
  upsert_providers input.dns_provider_credentials
  insert_profile input.tls_profile

stored_snapshot : Option ConfigRevision → Exec Store StoreError Bytes
stored_snapshot none = raise revision_not_found
stored_snapshot (some r) = pure r.state_snapshot_json

unfoldable pub restore_rows :
    RuntimeConfigInput → Bytes → EntityId → Timestamp → Exec Store StoreError (Unit {0})
unfolding stored_snapshot
restore_rows input expected id updated = do
  statement
  row ← gets (λ s. lookup_first (select (has_valid_id id) s.db.config_revisions))
  stored ← stored_snapshot row
  fail_if (is_empty stored) no_state_snapshot
  fail_if (not (text_eq stored expected)) snapshot_differs
  replace_tables input
  exists ← gets (λ s. any (has_valid_id id) s.db.config_revisions)
  write (with_rows (update (has_valid_id id) set_applied))
  expect_affected exists
  write (with_state (set_active_row id updated))

module _ ⦃tables : CaseTables⦄ ⦃digest : Digest⦄ ⦃codec : Codec⦄ where
  unfoldable pub restore_state :
      RuntimeConfigInput → EntityId → Timestamp → Exec Store StoreError (Unit {0})
  unfolding restore_rows
  restore_state input id updated = do
    lift (wrap invalid_input (validate_input input))
    expected ← lift (wrap invalid_input (marshal_revision_snapshot input))
    transaction (restore_rows input expected id updated)
