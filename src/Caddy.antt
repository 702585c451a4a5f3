-- ===== src/Caddy.antt =====
-- core/internal/caddy: the generated configuration and the managed process.
pub mod Accounts
pub mod Compiler
pub mod Config
pub mod Routes
pub mod Runtime
pub mod Tls
