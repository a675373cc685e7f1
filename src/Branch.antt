-- ===== src/Branch.antt =====
-- The direction predictors branch/bimodal/bimodal.cc and branch/gshare/gshare.cc, over the counters
-- of inc/msl/fwcounter.h.
pub mod Counter
pub mod Bimodal
pub mod Gshare
