-- ===== src/Domain.antt =====
-- core/internal/domain: the entities, their validation rules and the revision snapshot.
pub mod Validation
pub mod Id
pub mod Timestamp
pub mod Path
pub mod User
pub mod Share
pub mod Settings
pub mod Tls
pub mod Dns
pub mod Revision
pub mod Input
pub mod Snapshot
pub mod State
