-- ===== src/CacheInstance/Text/Keeps.antt =====
-- What the lines of the text protocol keep of the store, outside the mode `admin`.
pub mod StringLines
pub mod ContainerLines
pub mod DeadlineLines
pub mod KeyLines
pub mod Perform
