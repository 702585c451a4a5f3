-- ===== src/Storage/TlsProfiles.antt =====
-- core/internal/storage/tls_repository.go over the table `tls_profiles` of core/migrations.
use dav_deck.Common.{
  Bool, true, not, ◌||◌, ◌&&◌, ◌==◌, ltb, List, [], ◌∷◌, any, Option, none, some, if◌then◌else◌,
}
use dav_deck.Common.Text.{CaseTables, text_eq, text_lt}
use dav_deck.Common.Sorting.{sort_slice}
use dav_deck.Common.Exec.{Exec, pure, gets, fail_if, modify, ◌>>=◌, ◌>>◌}
use dav_deck.Domain.Id.{EntityId}
use dav_deck.Domain.Timestamp.{Timestamp}
use dav_deck.Domain.Tls.{TlsProfile, default_challenge, tls_mode_valid, tls_challenge_valid}
use dav_deck.Domain.Dns.{DnsProviderCredential}
use dav_deck.Storage.Database.{
  Database, Store, StoreError, constraint_violated, statement, write, transaction,
}
use dav_deck.Storage.Rows.{scanned, scan_tls_profile, first, delete_where, mark_dirty}

abbrev pub has_id : EntityId → TlsProfile → Bool
has_id id p = text_eq p.id id

-- `ORDER BY created_at, id`
abbrev pub by_creation : TlsProfile → TlsProfile → Bool
by_creation a b =
    ltb a.created_at.instant b.created_at.instant
    || (a.created_at.instant == b.created_at.instant && text_lt a.id b.id)

found : ⦃tables : CaseTables⦄ → Option TlsProfile → Exec Store StoreError (Option TlsProfile)
found none = pure none
found (some row) = do p ← scanned (scan_tls_profile row); pure (some p)

abbrev pub with_profiles : (List TlsProfile → List TlsProfile) → Database → Database
with_profiles f db = record db {
  tables = record db.tables { tls_profiles = f db.tables.tls_profiles };
}

-- A `DELETE` of the rows of a condition; the trigger runs where there is one.
unfoldable pub delete_profiles : Timestamp → (TlsProfile → Bool) → Database → Database
unfolding delete_where
delete_profiles now test db =
    let deleted = with_profiles (delete_where test) db in
    if any test db.tables.tls_profiles then mark_dirty now deleted else deleted

-- `INSERT … ON CONFLICT(id) DO UPDATE`: the time of creation of an old row stays.
unfoldable pub upsert : TlsProfile → List TlsProfile → List TlsProfile
upsert p [] = p ∷ []
upsert p (q ∷ rows) =
    let rest = upsert p rows in
    if has_id p.id q then record p { created_at = q.created_at } ∷ rows else q ∷ rest

abbrev refers_to_one : Option EntityId → List DnsProviderCredential → Bool
refers_to_one none providers = true
refers_to_one (some id) providers = any (λ p. text_eq p.id id) providers

-- The constraints of the schema: the values of two columns, and the reference.
abbrev pub is_allowed : TlsProfile → Database → Bool
is_allowed p db =
    tls_mode_valid p.mode
    && (tls_challenge_valid p.challenge
        && refers_to_one p.dns_provider_id db.tables.dns_provider_credentials)

-- `Get`
unfoldable pub get : ⦃tables : CaseTables⦄ → Exec Store StoreError (Option TlsProfile)
unfolding found sort_slice text_lt
get = do
  statement
  row ← gets (λ s. first (sort_slice by_creation s.db.tables.tls_profiles))
  found row

save_rows : Timestamp → TlsProfile → Exec Store StoreError (Unit {0})
unfolding delete_profiles upsert
save_rows now profile = do
  write (delete_profiles now (λ p. not (has_id profile.id p)))
  statement
  allowed ← gets (λ s. is_allowed profile s.db)
  fail_if (not allowed) constraint_violated
  modify (λ s. record s { db = mark_dirty now (with_profiles (upsert profile) s.db) })

-- `Save`
unfoldable pub save : Timestamp → TlsProfile → Exec Store StoreError (Unit {0})
unfolding save_rows
save now profile =
    transaction (save_rows now (record profile { challenge = default_challenge profile.challenge }))

-- `Delete`
unfoldable pub delete : Timestamp → Exec Store StoreError (Unit {0})
unfolding delete_profiles
delete now = write (delete_profiles now (λ p. true))
