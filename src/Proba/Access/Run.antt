-- ===== src/Proba/Access/Run.antt =====
-- Every state that the simulator's hooks reach is well formed, so no run trips an assertion.
use proba_artifact.Prelude.{
  ℕ, ◌-◌, ◌*◌, ◌/◌, ◌%◌, ◌^◌, ◌≡◌, refl, inl, inr, Bool, true, false, not, ◌&&◌, some, Option-cases,
  Bool-cases, if◌then◌else◌, arith,
}
use proba_artifact.SetAssoc.Holds.{
  Holds, find-Holds, modify-Holds, erase-Holds, init-Holds, with_rank-Holds,
}
use proba_artifact.SetAssoc.Lru
use proba_artifact.SetAssoc.Lru.{LruSetAssociativeCache}
use proba_artifact.SetAssoc.Ranked
use proba_artifact.SetAssoc.Rrip
use proba_artifact.Proba.Jail.Laws.{init-IsSized}
use proba_artifact.Proba.Pattern.{Pattern, IsPattern}
use proba_artifact.Proba.Buffer
use proba_artifact.Proba.Buffer.{Cache, PrefetchBuffer, PrefetchBufferData, Issue, issue_from}
use proba_artifact.Proba.Buffer.Issued.{issue_from-IsPattern}
use proba_artifact.Proba.Tables.Holds.{IsPrediction}
use proba_artifact.Proba.State.{Draws, Stats, Proba, prefetcher_initialize, init, init_pht}
use proba_artifact.Proba.Access.{prefetch, prefetcher_cache_operate, prefetcher_cache_fill}
use proba_artifact.Proba.Access.Total.{IsValid, IsHeld, BufferHolds, IsRegion, access-IsValid}

module _ (c : Cache) where
  -- The table after the loop: the requested blocks are cleared, and the entry goes when none is
  -- held back.
  kept-Holds :
      (t : LruSetAssociativeCache PrefetchBufferData) (key : ℕ) (pattern : Pattern) (stop : Bool)
      → Holds IsHeld t.table.base
      → IsPattern pattern
      → Holds IsHeld
          (if stop
            then Lru.modify (Lru.set_mru t key) key (λ d. record d { pattern = pattern })
            else (Lru.erase
                (Lru.modify (Lru.set_mru t key) key (λ d. record d { pattern = pattern }))
                key).0).table.base
  unfolding Lru.modify Lru.set_mru Lru.erase
  kept-Holds t key pattern true h hp =
      modify-Holds IsHeld _ key _ (with_rank-Holds IsHeld t.table key _ h) (λ d hd. hp)
  kept-Holds t key pattern false h hp =
      (erase-Holds IsHeld _ key
        (modify-Holds IsHeld _ key _ (with_rank-Holds IsHeld t.table key _ h) (λ d hd. hp))).0

  Buffer-prefetch :
      (pb : PrefetchBuffer) (s : c.State) (block_num : ℕ)
      → BufferHolds pb
      → BufferHolds (Buffer.prefetch c pb s block_num).0
  unfolding Buffer.prefetch
  Buffer-prefetch pb s block_num h =
      let region_number = block_num / pb.pattern_len in
      let key = Buffer.build_key pb region_number in
      elim (Option-cases (Lru.find pb.table key)) [
        | inl missing ↦ rw (missing, Buffer.prefetch) h
        | inr (e, found) ↦
            let base_addr = block_num * 2 ^ 6 % 2 ^ 64 in
            let start : Issue c.State = record {
              pattern = e.payload.pattern;
              pf_issued = 0;
              cache = s;
            } in
            let held = find-Holds IsHeld pb.table.table.base key e h found in
            let r =
              issue_from c (pb.pattern_len - 1) region_number pb.pattern_len base_addr
                (block_num % pb.pattern_len) 1 start in
            rw (found, Buffer.prefetch)
              (kept-Holds pb.table key r.0.pattern r.1 h (
                issue_from-IsPattern c region_number pb.pattern_len base_addr (pb.pattern_len - 1)
                  (block_num % pb.pattern_len) 1 start held))
      ]

  pub prefetch-IsValid :
      (p : Proba) (s : c.State) (block_num : ℕ) → IsValid p → IsValid (prefetch c p s block_num).0
  unfolding prefetch
  prefetch-IsValid p s block_num v = record {
    agt = v.agt;
    phts = v.phts;
    pb = Buffer-prefetch p.pb s block_num v.pb;
    jt = v.jt;
  }

  pub operate-IsValid :
      (draws : Draws) (addr ip : ℕ) (cache_hit useful_prefetch loads : Bool) (p : Proba)
      (s : c.State)
      → IsValid p
      → (p' : Proba) × (s' : c.State) × (prefetcher_cache_operate c draws addr ip cache_hit
            useful_prefetch loads p s
          ≡ some (p', s'))
        × IsValid p'
  unfolding prefetcher_cache_operate
  operate-IsValid draws addr ip cache_hit useful_prefetch loads p s v =
      let (q, at, good) = access-IsValid draws (addr / 2 ^ 6) ip p v in
      let r = prefetch c q s (addr / 2 ^ 6) in
      elim (Bool-cases loads) [
        | inr other ↦ (p, s, rw other refl, v)
        | inl load ↦ elim (Bool-cases (cache_hit && not useful_prefetch)) [
          | inl skip ↦ (p, s, rw (load, skip) refl, v)
          | inr miss ↦
              (r.0, r.1, rw (load, miss, at) refl, prefetch-IsValid q s (addr / 2 ^ 6) good)
        ]
      ]

  -- The states of a run: the prefetcher is initialised, and the cache calls its two hooks in any
  -- order, with any arguments and any draws; between the calls the cache itself may change, with the
  -- counters of its statistics, which the prefetcher reads.
  pub data Reached (stats : Stats) : Proba → c.State → Type 0 where
    initial : (s : c.State) → Reached stats (prefetcher_initialize stats) s
    operate :
        (draws : Draws) (addr ip : ℕ) (cache_hit useful_prefetch loads : Bool) (p p' : Proba)
        (s s' : c.State)
        → Reached stats p s
        → prefetcher_cache_operate c draws addr ip cache_hit useful_prefetch loads p s
          ≡ some (p', s')
        → Reached stats p' s'
    fill :
        (draws : Draws) (evicted_addr : ℕ) (p p' : Proba) (s : c.State)
        → Reached stats p s
        → prefetcher_cache_fill draws evicted_addr p ≡ some p'
        → Reached stats p' s
    cache_step :
        (p : Proba) (s s' : c.State) (counted : Stats)
        → Reached stats p s
        → Reached stats (record p { stats = counted }) s'

pub initialize-IsValid : (stats : Stats) → IsValid (prefetcher_initialize stats)
unfolding prefetcher_initialize init init_pht Rrip.init Ranked.init Lru.init
initialize-IsValid stats = record {
  agt = init-Holds IsRegion _ 64 8;
  phts = (
    init-Holds IsPrediction _ 256 16,
    (init-Holds IsPrediction _ 256 16, (init-Holds IsPrediction _ 256 16, tt)),
  );
  pb = init-Holds IsHeld _ 32 8;
  jt = init-IsSized 4096 (omega arith);
}
