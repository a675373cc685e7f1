-- ===== src/Cache/Keeps.antt =====
-- What holds of a cache between its cycles.
use proba_artifact.Prelude.{ℕ, ◌≡◌, ◌≢◌, true, Option, some, All}
use proba_artifact.Cache.State.{CacheBlock, CacheState}
use proba_artifact.Cache.Addressed.{HasAddress, QueuesAddressed}
use proba_artifact.Cache.Shape.{shape, IsShape}
pub mod Hit
pub mod Miss
pub mod Fill

abbrev pub BlockAddressed : CacheBlock → Type 0
BlockAddressed b = b.valid ≡ true → b.address ≢ 0

-- The vector of blocks has its shape; the requests, the misses, the writes in flight and the valid
-- blocks have an address.
pub record IsReady (ways : ℕ) {L M : Type 0} (c : CacheState L M) : Type 0 where
  pub shaped : IsShape ways (shape c)
  pub queues : QueuesAddressed c.queues
  pub mshr : All HasAddress c.mshr
  pub inflight_writes : All HasAddress c.inflight_writes
  pub block : All BlockAddressed c.block

-- A step of the cache returns, and the cache is ready after it.
abbrev pub Returns : (ways : ℕ) {L M A : Type 0} → Option (A × CacheState L M) → Type 0
Returns ways {L} {M} {A} o = (r : A × CacheState L M) × (o ≡ some r) × IsReady ways r.1
