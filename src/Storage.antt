-- ===== src/Storage.antt =====
-- core/internal/storage: the SQLite repositories.
pub mod Database
pub mod DnsProviders
pub mod Marked
pub mod Permissions
pub mod Restore
pub mod Revisions
pub mod Rows
pub mod Settings
pub mod Shares
pub mod Snapshots
pub mod Sound
pub mod TlsProfiles
pub mod Users
