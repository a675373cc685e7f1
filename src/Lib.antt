-- ===== src/Lib.antt =====
-- Proba is a spatial prefetcher for the second-level cache of the ChampSim simulator. This library
-- models the prefetcher, the tables below it, and the parts of the simulator around it: the caches
-- and their queues, the virtual memory, the branch predictors and the replacement policies.
--
-- The parts and how they interact:
--   * inc/custom_util.h, src/custom_util.cc: the set-associative table `SetAssociativeCache`, its
--     replacement policies, the hashes of keys and the saturating counter. SetAssoc models the table
--     (`entries` and `cams` are the two vectors), SetAssoc.Ranked what the policies share,
--     SetAssoc.Lru, SetAssoc.Lfu, SetAssoc.Rrip, SetAssoc.Bip and SetAssoc.Nmru the policies;
--     Util.Counter and Util.Hash the rest.
--   * prefetcher/proba: the prefetcher. Proba.Pattern models the pattern functions, Proba.Jail the
--     class JailTable, Proba.Tables the classes FilterTable, ActiveGenerationTable and
--     PatternHistoryTable, Proba.Buffer the class PrefetchBuffer, Proba.State the members of the
--     class Proba with `get_probs` and `ewma_update`, Proba.Train `update_in_pht`, and Proba.Access
--     `access`, `eviction`, `prefetch` and the hooks `prefetcher_cache_operate` and
--     `prefetcher_cache_fill`, through which the cache calls the prefetcher.
--   * `update_in_pht` is split into its phases: Proba.Train.View has its lambdas, Proba.Train.Survey
--     the first loop and the sort, Proba.Train.Average the window of averages, Proba.Train.Grade the
--     loop over the modes, and Proba.Train.Learn the loop over the stored patterns.
--   * replacement/lru, replacement/srrip, replacement/drrip, replacement/ship: the policies of the
--     simulated caches (Replacement.Lru, Replacement.Srrip, Replacement.Drrip, Replacement.Ship;
--     Replacement.Vectors has the part of a vector that belongs to a set).
--   * branch/bimodal, branch/gshare, inc/msl/fwcounter.h: Branch.Bimodal, Branch.Gshare and
--     Branch.Counter, the counters below them.
--   * btb/basic_btb, inc/msl/lru_table.h, inc/msl/bits.h: Btb, the branch target buffer with its
--     return stack, Msl.LruTable, the table below it, and Msl.Bits.
--   * src/vmem.cc, inc/vmem.h: Vmem, the translation of pages and the slots of the page tables.
--   * src/cache_queues.cc, inc/cache.h, inc/memory_class.h: CacheQueues.Packet is the class PACKET,
--     CacheQueues.Queues and CacheQueues.Translating are the two kinds of queues in front of a cache,
--     CacheQueues.Collision the merging of requests for one block.
--   * src/cache.cc: Cache.State is the state of the class CACHE with its searches, Cache.Hit has
--     `try_hit` and `prefetch_line`, Cache.Miss `handle_miss`, `handle_write` and `return_data`,
--     Cache.Fill `handle_fill`, Cache.Operate `operate`, which drains the queues, and
--     Cache.Requests the requests from above. The replacement policy and the prefetcher, which the
--     build chooses, are the interface `Modules`, and the level below is `MemoryBelow`; a hook of the
--     prefetcher and the level below may fail, as `none`.
--   * The prefetch buffer of Proba takes the cache as the interface `Cache`, with the occupancies it
--     reads and `prefetch_line`.
--
-- State is passed explicitly. An assertion that fails is `none`, so a theorem that an operation
-- returns is one that no assertion fails. `std::rand` and `b_dist` are streams that the state counts
-- its calls of. A write past the end of a vector, undefined in the source, changes nothing. A
-- `uint64_t` is a number, with `% 2 ^ 64` where the source can wrap; a mask of low bits is a remainder.
-- An instruction and a producer of requests are numbers, by which the source compares them; a call of
-- `return_data` of a producer is a packet in a list of answers. The page size of the virtual memory is
-- a parameter, since the build generates it.
--
-- Fuel: the hash loop has 64 rounds, the width of a key; the loop of `index_len` has as many rounds
-- as the largest index; the victim searches of the RRIP policies have `max_rrpv + 1` rounds; `lg2`
-- has as many rounds as its argument. The results below show that the first and the third are
-- enough; in the others each round halves the number.
--
-- Left out: the debug output, the table printers, and the members that are never read. The order that
-- `std::sort` gives to equal accuracies is open in the standard; the model keeps that of the tables.
-- The random choice of the sampler sets of DRRIP and SHiP is a field of their states. The core, the
-- DRAM controller, the page-table walker and the other prefetchers are not modelled here.
pub mod Prelude
pub mod SetAssoc
pub mod Util
pub mod Msl
pub mod Vmem
pub mod CacheQueues
pub mod Cache
pub mod Btb
pub mod Proba
pub mod Replacement
pub mod Branch
pub mod Tests
