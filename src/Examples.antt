-- ===== src/Examples.antt =====
-- Tests on concrete data, and the theorems at concrete inputs.
pub mod Proxies
pub mod Services
pub mod Setup
pub mod Witnesses
