-- ===== src/Proba/Access.antt =====
-- `Proba::access`, `Proba::eviction` and `Proba::prefetch` of prefetcher/proba/proba.cc, and the hooks
-- `prefetcher_cache_operate` and `prefetcher_cache_fill`. `none` is an assertion that fails.
pub mod Predict
pub mod Total
pub mod Run
pub mod Jailed
use proba_artifact.Prelude.{
  ℕ, ◌+◌, ◌/◌, ◌%◌, ◌^◌, Bool, true, false, not, ◌&&◌, ◌||◌, List, [], ◌∷◌, length, Option, none,
  some, ltb, leb, ◌==◌, if◌then◌else◌, ◌>>=◌,
}
use proba_artifact.SetAssoc.{Entry}
use proba_artifact.Proba.Jail
use proba_artifact.Proba.Jail.{JailTable}
use proba_artifact.Proba.Pattern.{Pattern, num_blocks, fwd, rotate}
use proba_artifact.Proba.Tables.{
  FilterTable, FilterTableData, PatternHistoryTable, is_pc, is_offset_offset, ft_find, ft_insert,
  ft_erase, agt_set_pattern, agt_insert, agt_num_valid, agt_erase, pht_find,
}
use proba_artifact.Proba.Buffer
use proba_artifact.Proba.Buffer.{Cache}
use proba_artifact.Proba.State.{Draws, Proba, Config, agt_way}
use proba_artifact.Proba.Train.{update_in_pht}
use proba_artifact.Proba.Train.View.{accumulate}

-- `block_num >> (LOG2_REGION_SIZE - LOG2_BLOCK_SIZE)` and `__region_offset(block_num)`
abbrev pub region_of : ℕ → ℕ
region_of block_num = block_num / 2 ^ 6

abbrev pub offset_of : ℕ → ℕ
offset_of block_num = block_num % 64

abbrev pub is_some {ℓ} : {A : Type ℓ} → Option A → Bool
is_some none = false
is_some (some _) = true

-- `!this->jt.in_jail(region_num) || !use_jail_table`
unfoldable pub is_free : Config → JailTable → ℕ → Bool
is_free config jt region_num = not (Jail.in_jail jt region_num) || not config.use_jail_table

-- What the filter table does with an access: the table, the trigger offset, and the second offset,
-- which is `NUM_BLOCKS` where there is none.
unfoldable pub filter_access :
    FilterTable → Option (Entry FilterTableData) → Bool → Bool → ℕ → ℕ → FilterTable × ℕ × ℕ
filter_access ft none in_agt free region_num region_offset =
    if not in_agt && free
    then (ft_insert ft region_num region_offset, region_offset, num_blocks)
    else (ft, region_offset, num_blocks)
filter_access ft (some e) in_agt free region_num region_offset =
    if e.payload.trigger_offset == region_offset
    then (ft, region_offset, num_blocks)
    else (ft_erase ft region_num, e.payload.trigger_offset, region_offset)

-- The body of the loop over the tables: the table after its look-up, and the union so far.
unfoldable pub predict_table :
    PatternHistoryTable → ℕ → ℕ → ℕ → ℕ → Pattern → Option (PatternHistoryTable × Pattern)
predict_table t pc region_offset offset2 block_num acc =
    let (t', entry) = pht_find t pc region_offset offset2 block_num in
    elim entry [
      | none ↦ some (t', acc)
      | some e ↦ do
        let held = e.payload.pattern
        acc' ← accumulate acc (if is_pc t.behavior then rotate held (fwd region_offset) else held)
        some (t', acc')
    ]

-- The loop. The table of two offsets is asked exactly on a second offset.
unfoldable pub predict :
    List PatternHistoryTable → ℕ → ℕ → ℕ → ℕ → Pattern → Option (List PatternHistoryTable × Pattern)
unfolding predict_table
predict [] pc region_offset offset2 block_num acc = some ([], acc)
predict (t ∷ phts) pc region_offset offset2 block_num acc = do
  (t', acc') ←
      (if (offset2 == num_blocks) && is_offset_offset t.behavior
        then some (t, acc)
        else if not (offset2 == num_blocks) && not (is_offset_offset t.behavior)
        then some (t, acc)
        else predict_table t pc region_offset offset2 block_num acc)
  (phts', acc'') ← predict phts pc region_offset offset2 block_num acc'
  some (t' ∷ phts', acc'')

-- The decision whether a new region is followed, and the calls of `std::rand` after it.
unfoldable pub sampled : Draws → Config → ℕ → ℕ → Bool × ℕ
sampled draws config calls num_valid_entries =
    if leb num_valid_entries (agt_way / 2)
    then (true, calls)
    else (ltb (draws.rand calls % 100) config.sample_rate, calls + 1)

-- A new region: it is followed in the active generation table, whose victim is learnt from, or jailed.
unfoldable pub follow : Draws → ℕ → ℕ → ℕ → ℕ → Proba → Option Proba
unfolding sampled
follow draws region_num region_offset pc block_num p =
    let (sample, calls) = sampled draws p.config p.calls (agt_num_valid p.agt region_num) in
    if not p.config.use_sampling || sample
    then (let (calls', agt', victim) =
          agt_insert draws.rand calls p.agt region_num region_offset pc block_num in
        let p' = record p { agt = agt'; calls = calls' } in
        if victim.valid then update_in_pht draws victim false p' else some p')
    else some (record p { jt = Jail.mark p.jt region_num; calls = calls })

-- A trigger access: predict, and follow the region on its first offset.
unfoldable pub trigger : Draws → ℕ → ℕ → ℕ → ℕ → ℕ → Proba → Option Proba
unfolding predict follow
trigger draws region_num region_offset offset2 pc block_num p = do
  (phts', acc) ← predict p.phts pc region_offset offset2 block_num []
  let pb' = if length acc == 0 then p.pb else Buffer.insert p.pb region_num acc
  let p' = record p { phts = phts'; pb = pb' }
  if offset2 == num_blocks then follow draws region_num region_offset pc block_num p' else some p'

-- `access`
unfoldable pub access : Draws → ℕ → ℕ → Proba → Option Proba
unfolding is_free filter_access trigger
access draws block_num pc p =
    let region_num = region_of block_num in
    let (agt', agt_entry) = agt_set_pattern p.agt region_num (offset_of block_num) in
    let (ft₁, ft_entry) = ft_find p.ft region_num in
    let free = is_free p.config p.jt region_num in
    let (ft₂, region_offset, offset2) =
      filter_access ft₁ ft_entry (is_some agt_entry) free region_num (offset_of block_num) in
    let p' = record p { agt = agt'; ft = ft₂ } in
    let second = not (offset2 == num_blocks) in
    if (not (is_some agt_entry) || second) && (second || free)
    then trigger draws region_num region_offset offset2 pc block_num p'
    else some p'

-- `eviction`
unfoldable pub eviction : Draws → ℕ → Proba → Option Proba
eviction draws block_num p =
    let region_num = region_of block_num in
    let (agt', entry) = agt_erase p.agt region_num in
    let p' = record p { ft = ft_erase p.ft region_num; agt = agt' } in
    elim entry [
      | none ↦ some (record p' { jt = Jail.unmark p.jt region_num })
      | some e ↦ update_in_pht draws e true p'
    ]

module _ (c : Cache) where
  -- `prefetch`: the number of requests is dropped by its caller.
  unfoldable pub prefetch : Proba → c.State → ℕ → Proba × c.State
  prefetch p cache block_num =
      let (pb', cache', issued) = Buffer.prefetch c p.pb cache block_num in
      (record p { pb = pb' }, cache')

  -- `prefetcher_cache_operate`: `loads` tells that the type is `LOAD` or `PREFETCH`.
  unfoldable pub prefetcher_cache_operate :
      Draws → ℕ → ℕ → Bool → Bool → Bool → Proba → c.State → Option (Proba × c.State)
  unfolding access prefetch
  prefetcher_cache_operate draws addr ip cache_hit useful_prefetch loads p cache =
      if not loads
      then some (p, cache)
      else if cache_hit && not useful_prefetch
      then some (p, cache)
      else do p' ← access draws (addr / 2 ^ 6) ip p; some (prefetch p' cache (addr / 2 ^ 6))

-- `prefetcher_cache_fill`
unfoldable pub prefetcher_cache_fill : Draws → ℕ → Proba → Option Proba
unfolding eviction
prefetcher_cache_fill draws evicted_addr p =
    let evicted_block_num = evicted_addr / 2 ^ 6 in
    if evicted_block_num == 0 then some p else eviction draws evicted_block_num p
