-- ===== src/Config.antt =====
-- The saved configuration of a runtime: shared/state_persistence.h and .cpp.
pub mod Json
pub mod Names
pub mod Escape
pub mod Fields
