-- ===== src/Cache.antt =====
-- src/cache.cc, inc/cache.h: a cache over its queues: hits, misses, fills, and what the level below
-- returns.
pub mod State
pub mod Hit
pub mod Miss
pub mod Fill
pub mod Requests
pub mod Operate
pub mod Filled
pub mod Refetch
pub mod Sets
pub mod Outstanding
pub mod Entries
pub mod Returns
pub mod Addressed
pub mod Shape
pub mod Keeps
pub mod Total
