-- ===== src/Proba/Tables.antt =====
-- `FilterTable`, `ActiveGenerationTable` and `PatternHistoryTable` of prefetcher/proba/proba.cc, over
-- the tables of inc/custom_util.h.
pub mod Holds
use proba_artifact.Prelude.{
  ℕ, ◌+◌, ◌-◌, ◌*◌, ◌%◌, ◌^◌, bit_and, bit_or, bit_xor, Bool, true, false, not, ◌&&◌, List, length,
  set, replicate, Option, none, some, if◌then◌else◌, ◌==◌, leb, assert, ◌>>◌, ◌>>=◌,
}
use proba_artifact.Util.Counter.{SaturatingCounter, counter}
use proba_artifact.Util.Hash.{hash_index, folded_xor, jenkins}
use proba_artifact.SetAssoc
use proba_artifact.SetAssoc.{Entry, SetAssociativeCache}
use proba_artifact.SetAssoc.Lru
use proba_artifact.SetAssoc.Lru.{LruSetAssociativeCache}
use proba_artifact.SetAssoc.Rrip
use proba_artifact.SetAssoc.Rrip.{RripSetAssociativeCache}
use proba_artifact.Proba.Pattern.{Pattern, num_blocks}

-- `region_num & ((1ULL << 37) - 1)`
abbrev pub region_key : ℕ → ℕ
region_key region_num = region_num % 2 ^ 37

pub record FilterTableData : Type 0 where
  pub trigger_offset : ℕ

abbrev pub FilterTable : Type 0
FilterTable = LruSetAssociativeCache FilterTableData

unfoldable pub ft_build_key : FilterTable → ℕ → ℕ
ft_build_key ft region_num = hash_index (region_key region_num) ft.table.base.index_len

-- `FilterTable::find`: a hit is promoted.
unfoldable pub ft_find : FilterTable → ℕ → FilterTable × Option (Entry FilterTableData)
ft_find ft region_num =
    let key = ft_build_key ft region_num in
    elim (Lru.find ft key) [ none ↦ (ft, none) | some e ↦ (Lru.rp_promote ft key, some e) ]

unfoldable pub ft_insert : FilterTable → ℕ → ℕ → FilterTable
ft_insert ft region_num trigger_offset =
    let key = ft_build_key ft region_num in
    Lru.rp_insert (Lru.insert ft key (record { trigger_offset = trigger_offset })).0 key

unfoldable pub ft_erase : FilterTable → ℕ → FilterTable
ft_erase ft region_num = (Lru.erase ft (ft_build_key ft region_num)).0

pub record ActiveGenerationTableData : Type 0 where
  pub trigger_offset : ℕ
  pub second_offset : ℕ
  pub pc : ℕ
  pub addr : ℕ
  pub pattern : List Bool

-- A `RandomSetAssociativeCache`.
abbrev pub ActiveGenerationTable : Type 0
ActiveGenerationTable = SetAssociativeCache ActiveGenerationTableData

-- `RandomSetAssociativeCache::select_victim`; the state is the number of calls of `std::rand`.
abbrev pub random_victim : (ℕ → ℕ) → ℕ → ℕ → ℕ → ℕ × ℕ
random_victim rand num_ways calls index = (rand calls % num_ways, calls + 1)

-- The writes of `set_pattern` to the entry.
unfoldable pub see_offset : ℕ → ActiveGenerationTableData → ActiveGenerationTableData
see_offset offset d = record d {
  pattern = set d.pattern offset true;
  second_offset =
      if (d.second_offset == num_blocks) && not (offset == d.trigger_offset)
      then offset
      else d.second_offset;
}

unfoldable pub agt_set_pattern :
    ActiveGenerationTable → ℕ → ℕ → ActiveGenerationTable × Option (Entry ActiveGenerationTableData)
agt_set_pattern agt region_num offset =
    let key = region_key region_num in
    elim (SetAssoc.find agt key) [
      | none ↦ (agt, none)
      | some e ↦ (
        SetAssoc.modify agt key (see_offset offset),
        some (record e { payload = see_offset offset e.payload }),
      )
    ]

-- `insert`: the number of calls of `std::rand`, the table, and the old entry.
unfoldable pub agt_insert :
    (ℕ → ℕ)
    → ℕ
    → ActiveGenerationTable
    → ℕ
    → ℕ
    → ℕ
    → ℕ
    → ℕ × ActiveGenerationTable × Entry ActiveGenerationTableData
agt_insert rand calls agt region_num trigger_offset pc addr =
    SetAssoc.insert (random_victim rand agt.num_ways) calls agt (region_key region_num) (record {
      trigger_offset = trigger_offset;
      second_offset = num_blocks;
      pc = pc;
      addr = addr;
      pattern = set (replicate num_blocks false) trigger_offset true;
    })

unfoldable pub agt_num_valid : ActiveGenerationTable → ℕ → ℕ
agt_num_valid agt region_num = SetAssoc.get_num_valid_entries_per_set agt (region_key region_num)

unfoldable pub agt_erase :
    ActiveGenerationTable → ℕ → ActiveGenerationTable × Option (Entry ActiveGenerationTableData)
agt_erase agt region_num = SetAssoc.erase agt (region_key region_num)

pub data Behavior : Type 0 where
  pc pc_offset pc_addr offset offset_offset : Behavior

abbrev pub is_pc : Behavior → Bool
is_pc pc = true
is_pc _ = false

abbrev pub is_offset_offset : Behavior → Bool
is_offset_offset offset_offset = true
is_offset_offset _ = false

pub record PatternHistoryTableData : Type 0 where
  pub pattern : Pattern
  pub mode : SaturatingCounter

-- A `BRRIPSetAssociativeCache`; `drawn` counts the draws of its own `b_dist(engine)`.
pub record PatternHistoryTable : Type 0 where
  pub behavior : Behavior
  pub width : ℕ
  pub table : RripSetAssociativeCache PatternHistoryTableData
  pub drawn : ℕ

-- `get_hash` at `PROBA_HASH_TYPE = 2`.
abbrev pub get_hash : ℕ → ℕ
get_hash key = jenkins (key % 2 ^ 32)

-- `x << OFFSET_WIDTH` in 64 bits.
abbrev pub shift_offset : ℕ → ℕ
shift_offset x = x * 2 ^ 6 % 2 ^ 64

-- The switch of `build_key`.
unfoldable pub base_key : Behavior → ℕ → ℕ → ℕ → ℕ → ℕ
base_key Behavior.pc p offset1 offset2 addr = folded_xor p 4
base_key Behavior.pc_offset p offset1 offset2 addr = bit_or (shift_offset (folded_xor p 4)) offset1
base_key Behavior.pc_addr p offset1 offset2 addr =
    bit_xor (get_hash (folded_xor p 4)) (get_hash addr)
base_key Behavior.offset p offset1 offset2 addr = offset1
base_key Behavior.offset_offset p offset1 offset2 addr = bit_or (shift_offset offset2) offset1

unfoldable pub pht_build_key : PatternHistoryTable → ℕ → ℕ → ℕ → ℕ → ℕ
unfolding base_key
pht_build_key t p offset1 offset2 addr =
    bit_and (get_hash (base_key t.behavior p offset1 offset2 addr))
      (if leb 32 t.width then 0xffff_ffff else 2 ^ t.width - 1)

-- `insert` starts a new entry at mode 4; `b_dist n` is the `n`-th draw of the table's engine. The
-- assertion is on the length of the pattern.
unfoldable pub pht_insert :
    (ℕ → Bool) → PatternHistoryTable → ℕ → Pattern → Option PatternHistoryTable
pht_insert b_dist t key pattern = do
  assert (length pattern == num_blocks)
  let stored = (Rrip.insert t.table key (record { pattern = pattern; mode = counter 3 4 })).0
  some (record t { table = Rrip.rp_insert stored key (b_dist t.drawn); drawn = t.drawn + 1 })

-- `update_no_touch`, and `update`, which promotes.
unfoldable pub pht_update_no_touch :
    PatternHistoryTable → ℕ → Pattern → SaturatingCounter → Option PatternHistoryTable
pht_update_no_touch t key pattern mode = do
  assert (length pattern == num_blocks)
  stored ← Rrip.update t.table key (record { pattern = pattern; mode = mode })
  some (record t { table = stored })

unfoldable pub pht_update :
    PatternHistoryTable → ℕ → Pattern → SaturatingCounter → Option PatternHistoryTable
unfolding pht_update_no_touch
pht_update t key pattern mode = do
  t' ← pht_update_no_touch t key pattern mode
  some (record t' { table = Rrip.rp_promote t'.table key })

-- `find_no_touch`: a table of two offsets has no entry where the second is missing.
unfoldable pub pht_find_no_touch :
    PatternHistoryTable → ℕ → ℕ → ℕ → ℕ → Option (Entry PatternHistoryTableData)
pht_find_no_touch t p offset1 offset2 addr =
    if (offset2 == num_blocks) && is_offset_offset t.behavior
    then none
    else Rrip.find t.table (pht_build_key t p offset1 offset2 addr)

-- `find`: a hit is promoted.
unfoldable pub pht_find :
    PatternHistoryTable
    → ℕ
    → ℕ
    → ℕ
    → ℕ
    → PatternHistoryTable × Option (Entry PatternHistoryTableData)
unfolding pht_find_no_touch
pht_find t p offset1 offset2 addr = elim (pht_find_no_touch t p offset1 offset2 addr) [
  | none ↦ (t, none)
  | some e ↦ (
    record t { table = Rrip.rp_promote t.table (pht_build_key t p offset1 offset2 addr) },
    some e,
  )
]
