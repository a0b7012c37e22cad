-- ===== src/Tests.antt =====
-- Runs of the definitions on small inputs, and the theorems at concrete inputs.
pub mod Stores
pub mod Contents
pub mod Runtimes
pub mod Proxies
pub mod Configs
pub mod Protocols
pub mod Caches
