-- ===== src/Proba.antt =====
-- The Proba prefetcher: prefetcher/proba/proba.h and prefetcher/proba/proba.cc.
pub mod Pattern
pub mod Jail
pub mod Tables
pub mod Buffer
pub mod State
pub mod Train
pub mod Access
