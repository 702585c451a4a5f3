-- ===== src/Storage/Revisions/Reads.antt =====
-- The queries of core/internal/storage/revision_repository.go and the database.
use dav_deck.Common.{List, [], ◌∷◌, Option, none, some}
use dav_deck.Common.Text.{Text, CaseTables}
use dav_deck.Common.Exec.Keeps.{Keeps, Keeps-bind, Keeps-pure, Keeps-if, keeps_rules}
use dav_deck.Domain.Id.{EntityId}
use dav_deck.Domain.Revision.{ConfigRevision, Digest}
use dav_deck.Domain.State.{Codec}
use dav_deck.Storage.Database.{Database}
use dav_deck.Storage.Database.Atomic.{database, Keeps-statement}
use dav_deck.Storage.Revisions.{
  scan_revision, scan_revisions, scan_first, query_row, list_revisions, found_or, get_revision,
  active_revision, first_legacy, find_legacy_by_identity, or_legacy, find_by_identity,
  stored_state_hash,
}

module _ ⦃tables : CaseTables⦄ ⦃digest : Digest⦄ where
  pub Keeps-scan_revision : (row : ConfigRevision) → Keeps database (scan_revision row)
  unfolding scan_revision
  Keeps-scan_revision row = search keeps_rules

  Keeps-scan_revisions : (rows : List ConfigRevision) → Keeps database (scan_revisions rows)
  unfolding scan_revisions
  Keeps-scan_revisions [] = Keeps-pure []
  Keeps-scan_revisions (row ∷ rows) =
      Keeps-bind _ _ (Keeps-scan_revision row)
        (λ r. Keeps-bind _ _ (Keeps-scan_revisions rows) (λ rest. Keeps-pure (r ∷ rest)))

  Keeps-scan_first : (row : Option ConfigRevision) → Keeps database (scan_first row)
  unfolding scan_first
  Keeps-scan_first none = Keeps-pure none
  Keeps-scan_first (some row) = search (keeps_rules, Keeps-scan_revision)

  pub Keeps-query_row : (rows : Database → List ConfigRevision) → Keeps database (query_row rows)
  unfolding query_row
  Keeps-query_row rows = search (keeps_rules, Keeps-statement, Keeps-scan_first)

  pub Keeps-list_revisions : Keeps database list_revisions
  unfolding list_revisions
  Keeps-list_revisions = search (keeps_rules, Keeps-statement, Keeps-scan_revisions)

  Keeps-found_or : (row : Option ConfigRevision) → Keeps database (found_or row)
  unfolding found_or
  Keeps-found_or none = search keeps_rules
  Keeps-found_or (some r) = search keeps_rules

  pub Keeps-get_revision : (id : EntityId) → Keeps database (get_revision id)
  unfolding get_revision
  Keeps-get_revision id = search (keeps_rules, Keeps-query_row, Keeps-found_or)

  pub Keeps-active_revision : Keeps database active_revision
  unfolding active_revision
  Keeps-active_revision = Keeps-query_row _

  module _ ⦃codec : Codec⦄ where
    Keeps-first_legacy :
        (state_hash : Text) (rows : List ConfigRevision)
        → Keeps database (first_legacy state_hash rows)
    unfolding first_legacy
    Keeps-first_legacy state_hash [] = Keeps-pure none
    Keeps-first_legacy state_hash (row ∷ rows) =
        Keeps-bind _ _ (Keeps-scan_revision row)
          (λ r. Keeps-if _ _ _ (Keeps-pure (some r)) (Keeps-first_legacy state_hash rows))

    Keeps-find_legacy_by_identity :
        (config_hash state_hash : Text)
        → Keeps database (find_legacy_by_identity config_hash state_hash)
    unfolding find_legacy_by_identity
    Keeps-find_legacy_by_identity config_hash state_hash =
        search (keeps_rules, Keeps-statement, Keeps-first_legacy)

    Keeps-or_legacy :
        (config_hash state_hash : Text) (found : Option ConfigRevision)
        → Keeps database (or_legacy config_hash state_hash found)
    unfolding or_legacy
    Keeps-or_legacy config_hash state_hash none =
        Keeps-find_legacy_by_identity config_hash state_hash
    Keeps-or_legacy config_hash state_hash (some r) = Keeps-pure (some r)

    pub Keeps-find_by_identity :
        (config_hash state_hash : Text) → Keeps database (find_by_identity config_hash state_hash)
    unfolding find_by_identity
    Keeps-find_by_identity config_hash state_hash =
        search (keeps_rules, Keeps-query_row, Keeps-or_legacy)

    pub Keeps-stored_state_hash : (r : ConfigRevision) → Keeps database (stored_state_hash r)
    unfolding stored_state_hash
    Keeps-stored_state_hash r = search keeps_rules
