-- ===== src/Storage/Database.antt =====
-- The tables of core/migrations/*.sql that the repositories of core/internal/storage read and
-- write, and their access by statements and transactions. SQLite is not modelled: each statement
-- either fails, leaving the database as it is, or has its effect. Whether it fails is the next
-- entry of `faults`; where the list has ended it does not.
pub mod After
pub mod Atomic
pub mod Ensured
pub mod Guarded
pub mod Symbolic
use dav_deck.Common.{ℕ, Bool, true, false, List, [], ◌∷◌, Option, Result, ok, err}
use dav_deck.Common.Exec.{Exec, pure, modify, ◌>>=◌, ◌>>◌}
use dav_deck.Domain.Validation.{ValidationError}
use dav_deck.Domain.Id.{EntityId}
use dav_deck.Domain.Timestamp.{Timestamp}
use dav_deck.Domain.User.{User}
use dav_deck.Domain.Share.{Share, SharePermission}
use dav_deck.Domain.Settings.{ServerSettings}
use dav_deck.Domain.Tls.{TlsProfile}
use dav_deck.Domain.Dns.{DnsProviderCredential}
use dav_deck.Domain.Revision.{ConfigRevision}
use dav_deck.Domain.Input.{InputError}
use dav_deck.Domain.State.{SnapshotError}

-- The tables of the desired state.
pub record Tables : Type 0 where
  pub server_settings : List ServerSettings
  pub tls_profiles : List TlsProfile
  pub dns_provider_credentials : List DnsProviderCredential
  pub users : List User
  pub shares : List Share
  pub share_permissions : List SharePermission

-- The single row of `runtime_state`.
pub record RuntimeState : Type 0 where
  pub desired_revision_id : Option EntityId
  pub active_revision_id : Option EntityId
  pub dirty : Bool
  pub updated_at : Timestamp

-- `next_number` is the single row of `revision_sequence`.
pub record Database : Type 0 where
  pub tables : Tables
  pub config_revisions : List ConfigRevision
  pub next_number : ℕ
  pub runtime_state : RuntimeState

pub record Store : Type 0 where
  pub db : Database
  pub faults : List Bool

pub data StoreError : Type 0 where
  sql_failed revision_not_found revision_active revision_desired : StoreError
  invalid_row : ValidationError → StoreError
  invalid_snapshot : SnapshotError → StoreError
  invalid_input : InputError → StoreError
  state_hash_differs no_state_snapshot snapshot_differs constraint_violated : StoreError
  user_not_found user_already_exists share_not_found share_already_exists : StoreError
  permission_not_found settings_not_found provider_not_found provider_in_use : StoreError

answer : List Bool → Store → Result StoreError (Unit {0}) × Store
answer [] s = (ok tt, s)
answer (true ∷ faults) s = (err sql_failed, record s { faults = faults })
answer (false ∷ faults) s = (ok tt, record s { faults = faults })

-- One call that the database may fail.
unfoldable pub statement : Exec Store StoreError (Unit {0})
unfolding answer
statement s = answer s.faults s

unfoldable pub write : (Database → Database) → Exec Store StoreError (Unit {0})
unfolding statement modify ◌>>=◌
write f = do statement; modify (λ s. record s { db = f s.db })

rolled_back : {A : Type 0} → Database → Result StoreError A × Store → Result StoreError A × Store
rolled_back before (ok a, s) = (ok a, s)
rolled_back before (err e, s) = (err e, record s { db = before })

-- `BeginTx`, the body, `Commit`, and the deferred `Rollback` where the body fails. After a `COMMIT`
-- that fails `Rollback` does nothing: that SQLite then leaves the database as before is assumed.
unfoldable pub transaction : {A : Type 0} → Exec Store StoreError A → Exec Store StoreError A
unfolding statement ◌>>=◌ rolled_back
transaction body s = rolled_back s.db ((do statement; a ← body; statement; pure a) s)
