-- ===== src/App.antt =====
-- core/internal/app: the use cases over the repositories and the managed runtime.
pub mod Errors
pub mod World
pub mod Calls
pub mod Activation
pub mod Outcome
pub mod Apply
pub mod Service
pub mod Restore
pub mod Safety
pub mod Marked
pub mod Permissions
pub mod Settings
pub mod Shares
pub mod Sources
pub mod Users
