-- ===== src/Storage.antt =====
-- The storage layer: src/storage and include/storage.
pub mod Segment
pub mod Log
pub mod Engine
pub mod Examples
