-- ===== src/Proba/Buffer.antt =====
-- `PrefetchBuffer` of prefetcher/proba/proba.cc. The cache that it sends its requests to is an
-- interface: the occupancies that the buffer reads, and `prefetch_line`.
pub mod Issued
pub mod Requests
use proba_artifact.Prelude.{
  ℕ, zero, suc, ◌+◌, ◌-◌, ◌*◌, ◌/◌, ◌%◌, ◌^◌, Bool, true, false, ◌&&◌, ◌∷◌, get_or, set, none, some,
  if◌then◌else◌, ◌==◌, ltb, leb,
}
use proba_artifact.Util.Hash.{hash_index}
use proba_artifact.SetAssoc.Lru
use proba_artifact.SetAssoc.Lru.{LruSetAssociativeCache}
use proba_artifact.Proba.Pattern.{Pattern, pf_fill_l2}

-- `CACHE` of inc/cache.h and src/cache.cc as the buffer uses it: queue 0 is the MSHR, queue 3 the
-- prefetch queue. `prefetch_line` takes the base and the prefetch address.
pub record Cache : Type 1 where
  pub State : Type 0
  pub mshr_occupancy : State → ℕ
  pub pq_occupancy : State → ℕ
  pub mshr_size : ℕ
  pub pq_size : ℕ
  pub prefetch_line : State → ℕ → ℕ → State × Bool

pub record PrefetchBufferData : Type 0 where
  pub pattern : Pattern

pub record PrefetchBuffer : Type 0 where
  pub pattern_len : ℕ
  pub table : LruSetAssociativeCache PrefetchBufferData

unfoldable pub build_key : PrefetchBuffer → ℕ → ℕ
build_key pb region_num = hash_index region_num pb.table.table.base.index_len

-- The loop of `insert` on a hit: the blocks of the new pattern are added.
unfoldable pub add_blocks : Pattern → Pattern → Pattern
add_blocks (x ∷ pattern) (y ∷ held) =
    (if x == pf_fill_l2 then pf_fill_l2 else y) ∷ add_blocks pattern held
add_blocks _ held = held

unfoldable pub insert : PrefetchBuffer → ℕ → Pattern → PrefetchBuffer
insert pb region_num pattern =
    let key = build_key pb region_num in
    elim (Lru.find pb.table key) [
      | none ↦ record pb {
        table = Lru.rp_insert (Lru.insert pb.table key (record { pattern = pattern })).0 key;
      }
      | some e ↦ record pb {
        table =
            Lru.rp_promote
              (Lru.modify pb.table key (λ d. record d { pattern = add_blocks pattern d.pattern }))
              key;
      }
    ]

-- What the loop of `prefetch` changes.
pub record Issue (S : Type 0) : Type 0 where
  pub pattern : Pattern
  pub pf_issued : ℕ
  pub cache : S

module _ (c : Cache) where
  -- The test that the queues have room; the MSHR size is a `size_t`, so 0 - 1 wraps.
  unfoldable pub has_room : c.State → Bool
  has_room s =
      ltb (c.pq_occupancy s + c.mshr_occupancy s) ((c.mshr_size + 2 ^ 64 - 1) % 2 ^ 64)
      && ltb (c.pq_occupancy s) c.pq_size

  -- `(region_number * pattern_len + pf_offset) << LOG2_BLOCK_SIZE`, in 64 bits.
  abbrev pub address : ℕ → ℕ → ℕ → ℕ
  address region_number pattern_len pf_offset =
      (region_number * pattern_len + pf_offset) * 2 ^ 6 % 2 ^ 64

  -- One round of the inner loop, at a block of the region; `true` is the early return.
  unfoldable pub issue : ℕ → ℕ → ℕ → ℕ → Issue c.State → Issue c.State × Bool
  issue region_number pattern_len base_addr pf_offset s =
      if ltb 0 (get_or s.pattern pf_offset 0)
      then (if has_room s.cache
          then (let (cache', ok) =
                c.prefetch_line s.cache base_addr (address region_number pattern_len pf_offset) in
              if ok
              then (
                record {
                  pattern = set s.pattern pf_offset 0;
                  pf_issued = s.pf_issued + 1;
                  cache = cache';
                },
                false,
              )
              else (record s { cache = cache' }, false))
          else (s, true))
      else (s, false)

  -- The two signs at distance `d`: a block past the end of the region, or before its start, is
  -- skipped.
  unfoldable pub issue_pair : ℕ → ℕ → ℕ → ℕ → ℕ → Issue c.State → Issue c.State × Bool
  unfolding issue
  issue_pair region_number pattern_len base_addr region_offset d s =
      let (s', stop) =
        if ltb (region_offset + d) pattern_len
        then issue region_number pattern_len base_addr (region_offset + d) s
        else (s, false) in
      if stop
      then (s', true)
      else if leb d region_offset
      then issue region_number pattern_len base_addr (region_offset - d) s'
      else (s', false)

  -- The outer loop, from distance `d`, with the rounds left.
  unfoldable pub issue_from : ℕ → ℕ → ℕ → ℕ → ℕ → ℕ → Issue c.State → Issue c.State × Bool
  unfolding issue_pair
  issue_from zero region_number pattern_len base_addr region_offset d s = (s, false)
  issue_from (suc left) region_number pattern_len base_addr region_offset d s =
      let (s', stop) = issue_pair region_number pattern_len base_addr region_offset d s in
      let rest = issue_from left region_number pattern_len base_addr region_offset (suc d) s' in
      if stop then (s', true) else rest

  -- `prefetch`: the buffer, the cache, and the number of requests that were taken. An early return
  -- keeps the entry.
  unfoldable pub prefetch : PrefetchBuffer → c.State → ℕ → PrefetchBuffer × c.State × ℕ
  unfolding issue_from
  prefetch pb cache block_num =
      let base_addr = block_num * 2 ^ 6 % 2 ^ 64 in
      let region_offset = block_num % pb.pattern_len in
      let region_number = block_num / pb.pattern_len in
      let key = build_key pb region_number in
      elim (Lru.find pb.table key) [
        | none ↦ (pb, cache, 0)
        | some e ↦
            let start : Issue c.State = record {
              pattern = e.payload.pattern;
              pf_issued = 0;
              cache = cache;
            } in
            let (s, stop) =
              issue_from (pb.pattern_len - 1) region_number pb.pattern_len base_addr region_offset 1
                start in
            let held =
              Lru.modify (Lru.set_mru pb.table key) key (λ d. record d { pattern = s.pattern }) in
            (
              record pb { table = if stop then held else (Lru.erase held key).0 },
              s.cache,
              s.pf_issued,
            )
      ]
