-- ===== src/Runtime.antt =====
-- The runtimes of the daemon and their manager: shared/runtime_definitions.h,
-- shared/runtime_instance.h and .cpp, shared/runtime_manager.h and .cpp.
pub mod Instance
pub mod Manager
