-- ===== src/Storage/Rows.antt =====
-- The scans of rows in core/internal/storage, and the statements on one table that the repositories
-- share. Times and zones are kept in their parsed form, so that `ParseTimestamp` is its `NewTimestamp`.
pub mod Laws
use dav_deck.Common.{
  Bool, true, false, not, List, [], ◌∷◌, any, Option, none, some, Result, ok, ◌>>◌, ◌>>=◌, wrap,
  if◌then◌else◌,
}
use dav_deck.Common.Text.{CaseTables, text_lt}
use dav_deck.Common.Sorting.{sort_slice}
use dav_deck.Common.Exec.{Exec, lift, fail_if}
use dav_deck.Domain.Validation.{ValidationError}
use dav_deck.Domain.Id.{EntityId, parse_id}
use dav_deck.Domain.Timestamp.{Timestamp, new_timestamp}
use dav_deck.Domain.User.{User}
use dav_deck.Domain.Share.{Share, SharePermission, validate_share_permission}
use dav_deck.Domain.Settings.{ServerSettings, validate_server_settings}
use dav_deck.Domain.Tls.{TlsProfile, default_challenge, validate_tls_profile}
use dav_deck.Domain.Dns.{DnsProviderCredential, validate_dns_provider_credential}
use dav_deck.Storage.Database.{Database, Store, StoreError, invalid_row}

-- `rows.Next()` over the rows, each with its scan.
unfoldable pub scan_all :
    {A : Type 0} → (A → Result ValidationError A) → List A → Result ValidationError (List A)
scan_all scan [] = ok []
scan_all scan (row ∷ rows) = do r ← scan row; rest ← scan_all scan rows; ok (r ∷ rest)

-- A result of a scan as one of the database.
unfoldable pub scanned : {A : Type 0} → Result ValidationError A → Exec Store StoreError A
unfolding lift
scanned r = lift (wrap invalid_row r)

-- The first row, as `QueryRow` gives it.
abbrev pub first : {A : Type 0} → List A → Option A
first [] = none
first (row ∷ rows) = some row

-- `WHERE`
unfoldable pub rows_where : {A : Type 0} → (A → Bool) → List A → List A
rows_where test [] = []
rows_where test (row ∷ rows) =
    let rest = rows_where test rows in if test row then row ∷ rest else rest

-- `UPDATE … SET … WHERE …`
unfoldable pub update_where : {A : Type 0} → (A → Bool) → (A → A) → List A → List A
update_where test change [] = []
update_where test change (row ∷ rows) =
    (if test row then change row else row) ∷ update_where test change rows

-- `DELETE … WHERE …`
unfoldable pub delete_where : {A : Type 0} → (A → Bool) → List A → List A
delete_where test [] = []
delete_where test (row ∷ rows) =
    let rest = delete_where test rows in if test row then rest else row ∷ rest

-- The triggers `*_mark_runtime_dirty`, at the time at which they run.
abbrev pub mark_dirty : Timestamp → Database → Database
mark_dirty now db = record db {
  runtime_state = record db.runtime_state { dirty = true; updated_at = now };
}

-- `RowsAffected() == 0`
abbrev pub expect_affected : Bool → StoreError → Exec Store StoreError (Unit {0})
expect_affected any_row e = fail_if (not any_row) e

-- `scanUser`
unfoldable pub scan_user : ⦃tables : CaseTables⦄ → User → Result ValidationError User
unfolding new_timestamp
scan_user u = do
  id ← parse_id u.id
  created ← new_timestamp u.created_at
  updated ← new_timestamp u.updated_at
  ok (record u { id = id; created_at = created; updated_at = updated })

-- `scanShare`
unfoldable pub scan_share : ⦃tables : CaseTables⦄ → Share → Result ValidationError Share
unfolding new_timestamp
scan_share s = do
  id ← parse_id s.id
  created ← new_timestamp s.created_at
  updated ← new_timestamp s.updated_at
  ok (record s { id = id; created_at = created; updated_at = updated })

-- The value, where its `Validate` has no error.
abbrev pub checked :
    {A : Type 0} → (A → Result ValidationError (Unit {0})) → A → Result ValidationError A
checked validate value = validate value >> ok value

-- `scanPermission`
unfoldable pub scan_permission :
    ⦃tables : CaseTables⦄ → SharePermission → Result ValidationError SharePermission
unfolding new_timestamp
scan_permission p = do
  share_id ← parse_id p.share_id
  user_id ← parse_id p.user_id
  created ← new_timestamp p.created_at
  updated ← new_timestamp p.updated_at
  checked validate_share_permission (record p {
    share_id = share_id;
    user_id = user_id;
    created_at = created;
    updated_at = updated;
  })

-- `scanSettings`
unfoldable pub scan_settings :
    ⦃tables : CaseTables⦄ → ServerSettings → Result ValidationError ServerSettings
unfolding new_timestamp
scan_settings s = do
  id ← parse_id s.id
  created ← new_timestamp s.created_at
  updated ← new_timestamp s.updated_at
  checked validate_server_settings
      (record s { id = id; created_at = created; updated_at = updated })

parse_optional_id :
    ⦃tables : CaseTables⦄ → Option EntityId → Result ValidationError (Option EntityId)
parse_optional_id none = ok none
parse_optional_id (some id) = do parsed ← parse_id id; ok (some parsed)

-- `scanTLSProfile`
unfoldable pub scan_tls_profile :
    ⦃tables : CaseTables⦄ → TlsProfile → Result ValidationError TlsProfile
unfolding new_timestamp parse_optional_id
scan_tls_profile p = do
  id ← parse_id p.id
  created ← new_timestamp p.created_at
  updated ← new_timestamp p.updated_at
  provider ← parse_optional_id p.dns_provider_id
  checked validate_tls_profile (record p {
    id = id;
    created_at = created;
    updated_at = updated;
    challenge = default_challenge p.challenge;
    dns_provider_id = provider;
  })

-- `scanDNSProviderCredential`; the zones are kept as a list, not as its JSON.
unfoldable pub scan_dns_provider :
    ⦃tables : CaseTables⦄ → DnsProviderCredential → Result ValidationError DnsProviderCredential
unfolding new_timestamp sort_slice text_lt
scan_dns_provider p = do
  id ← parse_id p.id
  created ← new_timestamp p.created_at
  updated ← new_timestamp p.updated_at
  checked validate_dns_provider_credential (record p {
    id = id;
    allowed_zones = sort_slice text_lt p.allowed_zones;
    created_at = created;
    updated_at = updated;
  })
