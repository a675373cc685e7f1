-- ===== src/Tests.antt =====
-- Test data that the examples share, and the examples.
mod Tables
mod Prefetcher
mod Simulator
mod Memory
mod Queues
mod Targets
mod Caches
mod Cycles
use proba_artifact.Prelude.{ℕ, ◌≡◌, refl, List, [], ◌∷◌, Bool, true, false}
use proba_artifact.SetAssoc.Lru
use proba_artifact.SetAssoc.Lru.{LruSetAssociativeCache}
use proba_artifact.Proba.Buffer.{Cache}
use proba_artifact.Proba.State.{Draws, Stats}

abbrev pub draws : Draws
draws = record { rand = λ n. n; b_dist = λ n. true }

abbrev pub stats : Stats
stats = record {
  num_pht_updates = 0;
  num_end_of_generation_updates = 0;
  pf_useful = 0;
  pf_useless = 0;
}

-- A cache that takes every request; its state counts them.
abbrev pub sink : Cache
sink = record {
  State = ℕ;
  mshr_occupancy = λ s. 0;
  pq_occupancy = λ s. 0;
  mshr_size = 16;
  pq_size = 16;
  prefetch_line = λ s base pf. (s, true);
}

-- Two sets of two ways.
abbrev pub small : LruSetAssociativeCache ℕ
small = Lru.init 0 4 2
