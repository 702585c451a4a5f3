-- ===== src/Lib.antt =====
-- DavDeck is a WebDAV server manager: a daemon keeps the desired state (users, shares, permissions,
-- settings, TLS and DNS providers) in SQLite, compiles it into a Caddy configuration, and brings that
-- configuration up as a numbered revision that can be restored later. This library models the domain
-- values, the repositories, the compiler of the configuration, the manager of the Caddy process, and
-- the services that change the desired state and apply it.
--
-- Common holds texts (lists of code points), results, the stable sort of `sort.Slice`, and `Exec`,
-- code that passes a state on and may fail; Common/Exec has the rules for what an action keeps
-- (Keeps), ensures (Ensures) and how it relates the states before and after (Steps, Outcome). Keys has
-- the loops that look a key up among those before it.
--
-- Domain models core/internal/domain: a module for each file, each `Validate` method as a function
-- `validate_…` that returns the first error. Input and State model runtime_config.go and
-- revision_snapshot.go: the check of the whole desired state, its canonical snapshot, and the identity
-- that is hashed. JSON encoding (`Codec`), SHA-256 and the JSON syntax test (`Digest`) and the Unicode
-- case tables (`CaseTables`) belong to Go's standard library and are parameters. Go's string enums have
-- a constructor `other` for a string that is none of the constants.
--
-- Storage models core/internal/storage/revision_repository.go (Revisions, Restore) and
-- runtime_repository.go (Snapshots) over a database of rows. SQLite is not modelled: every statement,
-- `BEGIN` and `COMMIT` may fail, as the list `faults` of the store says, and a failed transaction
-- gives the database back as it was, which is assumed of SQLite where `COMMIT` itself fails. The text form of times is left out; in RestoreState so are the
-- constraints, which its validated input meets, and the triggers, whose mark it overwrites at its end.
-- Users, Shares, Permissions, Settings, TlsProfiles and DnsProviders model the *_repository.go files of
-- the same names with unique columns, cascading deletions, references and the triggers of
-- core/migrations, which run at a time that each statement is given; Rows has the scans of rows.
--
-- Caddy models core/internal/caddy: Config holds the types that are encoded as JSON, Accounts, Routes,
-- Tls and Compiler are `Compile` of compiler.go with its helpers, and Runtime is `RuntimeManager` of
-- runtime.go. A Go map is the list of its entries in the order of its keys. `Encoder` holds
-- json.MarshalIndent, strconv.Itoa and net.ParseIP. The process, the admin endpoint and the timers are the
-- fields of `Outside`; the channel of the process is the `Child`: its one value is still to be received,
-- or has been. DnsProvider models core/internal/dnsprovider/registry.go.
--
-- App models core/internal/app/apply_service.go with the error codes of core/internal/app/errors.go and
-- core/internal/caddy/runtime_errors.go. `Collaborators` are the Go interfaces of the service (compiler,
-- validator, runtime, clock, id source) as functions over a state of their own, with no assumption on
-- what they do. Calls, Activation, Outcome, Apply, Service and Restore follow the methods of
-- `ApplyService` step by step; the lock is a flag of the world. A revision that Go returns beside an
-- error is left out, as are the causes of errors.
--
-- App/Users, Shares, Permissions and Settings model user_service.go, share_service.go,
-- permission_service.go and settings_service.go over the repositories; `Sources` holds their clock, ids,
-- hash function, and tests of paths and ports.
--
-- All functions are total by structural recursion. Only the wait for a healthy Caddy is on fuel: its 300
-- rounds are the ticks of 50 ms that fit before the deadline of 15 s, at which the code gives up. Numbers are natural numbers:
-- ports come in from a range test, and the revision number, a 64-bit counter in the code, is taken to
-- stay below its bound.
--
-- Not modelled: the services of TLS profiles, DNS providers and endpoints, certificate renewals, import
-- and export, the secret store, the HTTP API, the clients, the Caddy modules, logging and platform code.
pub mod App
pub mod Caddy
pub mod Common
pub mod DnsProvider
pub mod Domain
pub mod Examples
pub mod Storage
