-- ===== src/CacheInstance.antt =====
-- `cache_instance`: the connections of a cache and their commands, in RESP and in the text protocol, over
-- the store. It is the build without Lua (`SOCKETLEY_NO_LUA`).
pub mod Connection
pub mod Session
pub mod Strings
pub mod Containers
pub mod Deadlines
pub mod Keys
pub mod Dispatch
pub mod Text
pub mod Input
pub mod Follower
pub mod Keeps
pub mod Pipeline
pub mod Refines
pub mod Invariant
pub mod ReadOnly
pub mod Refusals
