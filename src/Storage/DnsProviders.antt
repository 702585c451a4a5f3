-- ===== src/Storage/DnsProviders.antt =====
-- core/internal/storage/dns_provider_repository.go over the table `dns_provider_credentials` of
-- core/migrations. The zones are kept as a list, whose JSON form is the standard library's.
use dav_deck.Common.{Bool, List, any, Option, none, some, wrap, if◌then◌else◌}
use dav_deck.Common.Text.{CaseTables, text_eq, text_lt}
use dav_deck.Common.Sorting.{sort_slice}
use dav_deck.Common.Exec.{Exec, raise, lift, gets, fail_if, ◌>>=◌, ◌>>◌}
use dav_deck.Domain.Id.{EntityId}
use dav_deck.Domain.Timestamp.{Timestamp}
use dav_deck.Domain.Dns.{DnsProviderCredential, validate_dns_provider_credential}
use dav_deck.Domain.Snapshot.{provider_less}
use dav_deck.Storage.Database.{
  Database, Store, StoreError, invalid_row, provider_not_found, provider_in_use, statement, write,
}
use dav_deck.Storage.Restore.{upsert_provider}
use dav_deck.Storage.Revisions.{refers_to}
use dav_deck.Storage.Rows.{
  scanned, scan_all, scan_dns_provider, first, rows_where, delete_where, mark_dirty,
  expect_affected,
}

abbrev pub has_id : EntityId → DnsProviderCredential → Bool
has_id id p = text_eq p.id id

abbrev pub with_providers :
    Timestamp → (List DnsProviderCredential → List DnsProviderCredential) → Database → Database
with_providers now f db = mark_dirty now (record db {
  tables = record db.tables { dns_provider_credentials = f db.tables.dns_provider_credentials };
})

found :
    ⦃tables : CaseTables⦄
    → Option DnsProviderCredential
    → Exec Store StoreError DnsProviderCredential
found none = raise provider_not_found
found (some row) = scanned (scan_dns_provider row)

module _ ⦃tables : CaseTables⦄ where
  -- `List`
  unfoldable pub list : Exec Store StoreError (List DnsProviderCredential)
  unfolding scanned sort_slice text_eq text_lt
  list = do
    statement
    rows ← gets (λ s. sort_slice provider_less s.db.tables.dns_provider_credentials)
    scanned (scan_all scan_dns_provider rows)

  -- `Get`
  unfoldable pub get : EntityId → Exec Store StoreError DnsProviderCredential
  unfolding found
  get id = do
    statement
    row ← gets (λ s. first (rows_where (has_id id) s.db.tables.dns_provider_credentials))
    found row

  -- `Save`
  unfoldable pub save : Timestamp → DnsProviderCredential → Exec Store StoreError (Unit {0})
  unfolding upsert_provider sort_slice text_lt
  save now p = do
    lift (wrap invalid_row (validate_dns_provider_credential p))
    write (
        with_providers now
          (upsert_provider (record p { allowed_zones = sort_slice text_lt p.allowed_zones })))

-- `Delete`
unfoldable pub delete : Timestamp → EntityId → Exec Store StoreError (Unit {0})
unfolding delete_where
delete now id = do
  statement
  in_use ← gets (λ s. any (λ p. refers_to p.dns_provider_id id) s.db.tables.tls_profiles)
  fail_if in_use provider_in_use
  exists ← gets (λ s. any (has_id id) s.db.tables.dns_provider_credentials)
  write (λ db.
      if any (has_id id) db.tables.dns_provider_credentials
      then with_providers now (delete_where (has_id id)) db
      else db)
  expect_affected exists provider_not_found
