-- ===== src/Msl.antt =====
-- inc/msl: the bit helpers and the table with least-recently-used replacement.
pub mod Bits
pub mod LruTable
