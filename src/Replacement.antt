-- ===== src/Replacement.antt =====
-- The replacement policies of the simulated caches, replacement/*/*.cc. Each keeps one vector for a
-- cache, with `NUM_WAY` numbers for each set.
pub mod Vectors
pub mod Lru
pub mod Srrip
pub mod Drrip
pub mod Ship
