-- ===== src/CacheQueues.antt =====
-- src/cache_queues.cc: the queues of a cache, which hold the requests until the cache serves them.
pub mod Packet
pub mod Collision
pub mod Queues
pub mod Translating
mod Loops
pub mod Capacity
pub mod Adding
pub mod Waiting
pub mod Distinct
