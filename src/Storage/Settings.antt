-- ===== src/Storage/Settings.antt =====
-- core/internal/storage/settings_repository.go over the table `server_settings` of core/migrations.
use dav_deck.Common.{
  ℕ, Bool, false, not, ◌&&◌, ◌==◌, List, [], ◌∷◌, length, map, Option, none, some,
}
use dav_deck.Common.Text.{CaseTables}
use dav_deck.Common.Exec.{Exec, raise, gets, fail_if, modify, ◌>>=◌, ◌>>◌}
use dav_deck.Domain.Timestamp.{Timestamp}
use dav_deck.Domain.Settings.{ServerSettings, valid_port}
use dav_deck.Storage.Database.{
  Database, Store, StoreError, sql_failed, settings_not_found, constraint_violated, statement,
}
use dav_deck.Storage.Rows.{scanned, scan_settings, first, mark_dirty}

unfoldable pub found :
    ⦃tables : CaseTables⦄ → Option ServerSettings → Exec Store StoreError ServerSettings
found none = raise sql_failed
found (some row) = scanned (scan_settings row)

-- `UPDATE server_settings SET …`; the trigger runs for each row.
unfoldable pub with_ports : Timestamp → ℕ → ℕ → Timestamp → Database → Database
with_ports now http_port https_port updated db =
    let changed = record db {
      tables = record db.tables {
        server_settings =
            map {A = ServerSettings} {B = ServerSettings}
              (λ s. record s {
                http_port = http_port;
                https_port = https_port;
                updated_at = updated;
              })
              db.tables.server_settings;
      };
    } in
    elim db.tables.server_settings [ [] ↦ changed | _ ∷ _ ↦ mark_dirty now changed ]

-- The checks of the schema, which only a row can violate.
abbrev pub violates : ℕ → ℕ → List ServerSettings → Bool
violates http_port https_port [] = false
violates http_port https_port (_ ∷ _) =
    not (valid_port http_port && valid_port https_port && not (http_port == https_port))

module _ ⦃tables : CaseTables⦄ where
  -- `Get`: without a row the error is that of the database.
  unfoldable pub get : Exec Store StoreError ServerSettings
  unfolding found
  get = do statement; row ← gets (λ s. first s.db.tables.server_settings); found row

  -- `UpdatePorts`
  unfoldable pub update_ports : Timestamp → ℕ → ℕ → Timestamp → Exec Store StoreError ServerSettings
  unfolding with_ports get
  update_ports now http_port https_port updated = do
    statement
    bad ← gets (λ s. violates http_port https_port s.db.tables.server_settings)
    fail_if bad constraint_violated
    count ← gets (λ s. length s.db.tables.server_settings)
    modify (λ s. record s { db = with_ports now http_port https_port updated s.db })
    fail_if (not (count == 1)) settings_not_found
    get
