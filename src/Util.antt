-- ===== src/Util.antt =====
-- The free functions and the counter of src/custom_util.cc and inc/custom_util.h.
pub mod Hash
pub mod Counter
