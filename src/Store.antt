-- ===== src/Store.antt =====
-- The node store: class OSMMMap of include/OSMMMap.h and src/OSMMMap.cpp.
pub mod Bitmap
pub mod Shard
pub mod Merge
pub mod NodeStore
