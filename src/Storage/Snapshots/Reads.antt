-- ===== src/Storage/Snapshots/Reads.antt =====
-- The read transaction of core/internal/storage/runtime_repository.go and the database.
use dav_deck.Common.{List, [], ◌∷◌, none, Result, wrap}
use dav_deck.Common.Text.{CaseTables}
use dav_deck.Common.Exec.Keeps.{Keeps, Keeps-bind, Keeps-pure, Keeps-gets, Keeps-lift, keeps_rules}
use dav_deck.Domain.Validation.{ValidationError}
use dav_deck.Domain.Share.{Share}
use dav_deck.Domain.Settings.{ServerSettings}
use dav_deck.Domain.Tls.{TlsProfile}
use dav_deck.Storage.Database.Atomic.{database, Keeps-statement, Keeps-transaction}
use dav_deck.Storage.Rows.{scanned, scan_settings}
use dav_deck.Storage.Database.{invalid_row}
use dav_deck.Storage.Snapshots.{
  first_settings, first_profile, with_permissions, read_tables, snapshot,
}

pub Keeps-scanned : {A : Type 0} (r : Result ValidationError A) → Keeps database (scanned r)
unfolding scanned
Keeps-scanned r = Keeps-lift (wrap invalid_row r)

module _ ⦃tables : CaseTables⦄ where
  Keeps-first_settings : (rows : List ServerSettings) → Keeps database (first_settings rows)
  unfolding first_settings
  Keeps-first_settings [] = search keeps_rules
  Keeps-first_settings (row ∷ rows) = Keeps-scanned (scan_settings row)

  Keeps-first_profile : (rows : List TlsProfile) → Keeps database (first_profile rows)
  unfolding first_profile
  Keeps-first_profile [] = Keeps-pure none
  Keeps-first_profile (row ∷ rows) = search (keeps_rules, Keeps-scanned)

  Keeps-with_permissions : (shares : List Share) → Keeps database (with_permissions shares)
  unfolding with_permissions
  Keeps-with_permissions [] = Keeps-pure []
  Keeps-with_permissions (share ∷ shares) = Keeps-bind _ _ Keeps-statement λ _.
      Keeps-bind _ _ (Keeps-gets _) λ rows.
        Keeps-bind _ _ (Keeps-scanned _)
          λ permissions. Keeps-bind _ _ (Keeps-with_permissions shares) λ rest. Keeps-pure _

  ruleset row_rules = (
    keeps_rules, Keeps-statement, Keeps-scanned, Keeps-first_settings, Keeps-first_profile,
    Keeps-with_permissions,
  )

  Keeps-read_tables : Keeps database read_tables
  unfolding read_tables
  Keeps-read_tables = search row_rules depth 30

  pub Keeps-snapshot : Keeps database snapshot
  unfolding snapshot
  Keeps-snapshot = Keeps-transaction read_tables Keeps-read_tables
