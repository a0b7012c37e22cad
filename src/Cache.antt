-- ===== src/Cache.antt =====
-- The class `cache_store` of socketley/runtime/cache/cache_store.{h,cpp}: its state, and its
-- operations in the sections of the source.
pub mod State
pub mod Frames
pub mod Slots
pub mod Eviction
pub mod Consistent
pub mod General
pub mod Expiry
pub mod Strings
pub mod Lists
pub mod Sets
pub mod Hashes
pub mod Writes
pub mod Soundness
pub mod Commands
pub mod Persist
pub mod PubSub
pub mod Keys
pub mod Lru
