-- ===== src/Cache/State.antt =====
-- The state of the class CACHE, what it calls, and its searches.
use proba_artifact.Prelude.{
  ℕ, suc, ◌+◌, ◌-◌, ◌*◌, ◌/◌, ◌%◌, ◌^◌, Bool, false, not, ◌&&◌, Option, none, some, List, [], ◌∷◌,
  ◌++◌, ◌==◌, if◌then◌else◌, set, length,
}
use proba_artifact.Prelude.Rows.{row}
use proba_artifact.Msl.Bits.{lg2}
use proba_artifact.CacheQueues.Packet.{Packet}
use proba_artifact.CacheQueues.Queues.{Queues}

-- access_type
abbrev pub rfo : ℕ
rfo = 1

abbrev pub prefetch_type : ℕ
prefetch_type = 2

abbrev pub write_type : ℕ
write_type = 3

-- BLOCK; its field `data` is `content`.
pub record CacheBlock : Type 0 where
  pub valid : Bool
  pub prefetch : Bool
  pub dirty : Bool
  pub address : ℕ
  pub v_address : ℕ
  pub content : ℕ
  pub pf_metadata : ℕ
  pub from_prefetch : Bool
  pub sour_level : ℕ
  pub dest_level : ℕ

-- The counters of cache_stats and the `num_*_gaze` arrays that the handlers raise.
pub data Event : Type 0 where
  hit : ℕ → ℕ → Event
  miss : ℕ → ℕ → Event
  pf_requested : Event
  pf_issued : Event
  pf_useful : Event
  pf_useless : Event
  pf_late : Event
  pf_fill : Event
  pf_fill_this_level : Event
  pref_useful : ℕ → Event
  pref_useless : ℕ → Event
  pref_late : ℕ → Event
  pref_filled : ℕ → Event
  useful_gaze : ℕ → Event
  useless_gaze : ℕ → Event
  fill_gaze : ℕ → Event
  pf_useful_at_l2_from_l1 : Event
  pf_useless_at_l2_from_l1 : Event
  pf_late_at_l2_from_l1 : Event
  pf_useful_at_llc_from_l2 : Event
  pf_useless_at_llc_from_l2 : Event
  pf_late_at_llc_from_l2 : Event
  l2_pf_to_l1 : Event
  mshr_full : Event
  miss_latency : ℕ → Event

-- The level below; `none` is an assertion that fails there.
pub record MemoryBelow : Type 1 where
  pub State : Type 0
  pub add_rq : Packet → State → Option (Bool × State)
  pub add_wq : Packet → State → Option (Bool × State)
  pub add_pq : Packet → State → Option (Bool × State)

-- The replacement policy and the prefetcher that the build chooses. The hooks of the prefetcher may
-- call `prefetch_line`, whose assertion may fail, so they are given the queues and the counters, and
-- may fail.
pub record Modules : Type 1 where
  pub State : Type 0
  -- cpu, instr_id, set, the set's blocks, ip, address, type
  pub find_victim : ℕ → ℕ → ℕ → List CacheBlock → ℕ → ℕ → ℕ → State → ℕ × State
  -- cpu, set, way, address, ip, victim's address, type, hit
  pub update_replacement_state : ℕ → ℕ → ℕ → ℕ → ℕ → ℕ → ℕ → Bool → State → State
  -- address, ip, hit, useful prefetch, type, metadata
  pub cache_operate :
      ℕ
      → ℕ
      → Bool
      → Bool
      → ℕ
      → ℕ
      → State × Queues × List Event
      → Option (ℕ × State × Queues × List Event)
  -- address, set, way, prefetch, evicted address, metadata
  pub cache_fill :
      ℕ
      → ℕ
      → ℕ
      → Bool
      → ℕ
      → ℕ
      → State × Queues × List Event
      → Option (ℕ × State × Queues × List Event)
  pub cycle_operate : State × Queues × List Event → Option (State × Queues × List Event)

pub record CacheState (L M : Type 0) : Type 0 where
  pub cpu : ℕ
  pub num_set : ℕ
  pub num_way : ℕ
  pub mshr_size : ℕ
  pub fill_latency : ℕ
  pub offset_bits : ℕ
  pub block : List CacheBlock
  pub max_tag : ℕ
  pub max_fill : ℕ
  pub prefetch_as_load : Bool
  pub match_offset_bits : Bool
  pub virtual_prefetch : Bool
  pub ever_seen_data : Bool
  pub pref_activate_mask : ℕ
  -- Whether NAME contains L1D, L2C and LLC.
  pub is_l1d : Bool
  pub is_l2c : Bool
  pub is_llc : Bool
  -- The address of this cache, to which the level below returns.
  pub this : ℕ
  pub current_cycle : ℕ
  pub warmup : Bool
  pub queues : Queues
  -- Whether the queues are TranslatingQueues.
  pub translating : Bool
  pub mshr : List Packet
  pub inflight_writes : List Packet
  pub lower : L
  pub modules : M
  pub events : List Event
  -- The packets that `return_data` of each producer in their `to_return` was called with, in order.
  pub returned : List Packet

-- The macros of inc/cache.h.
abbrev pub pf_dest : ℕ → ℕ
pf_dest m = m / 2 ^ 30 % 4

abbrev pub pf_sour : ℕ → ℕ
pf_sour m = m / 2 ^ 28 % 4

abbrev pub ipcp_type : ℕ → ℕ
ipcp_type m = m / 2 ^ 9 % 16

abbrev pub gaze_type : ℕ → ℕ
gaze_type m = m % 4

-- m | (1 << n) and m & ~(1 << n)
unfoldable pub set_bit : ℕ → ℕ → ℕ
set_bit n m = if m / 2 ^ n % 2 == 0 then m + 2 ^ n else m

unfoldable pub clear_bit : ℕ → ℕ → ℕ
clear_bit n m = if m / 2 ^ n % 2 == 0 then m else m - 2 ^ n

-- eq_addr<BLOCK>
abbrev pub holds_block : ℕ → ℕ → CacheBlock → Bool
holds_block address offset_bits b =
    b.valid && b.address / 2 ^ offset_bits == address / 2 ^ offset_bits

-- The way of the first block of a set that passes a test, with the block.
unfoldable pub find_way : (CacheBlock → Bool) → List CacheBlock → Option (ℕ × CacheBlock)
find_way test [] = none
find_way test (b ∷ bs) =
    let later = elim (find_way test bs) as (λ o. Option (ℕ × CacheBlock)) [
      | none ↦ none
      | some found ↦ some (suc found.0, found.1)
    ] in
    if test b then some (0, b) else later

unfoldable pub noted : List (Bool × Event) → List Event
noted [] = []
noted (t ∷ ts) = let later = noted ts in if t.0 then t.1 ∷ later else later

module _ {L M : Type 0} where
  unfoldable pub get_set_index : CacheState L M → ℕ → ℕ
  get_set_index c address = address / 2 ^ c.offset_bits % 2 ^ lg2 c.num_set

  unfoldable pub get_set_span : CacheState L M → ℕ → List CacheBlock
  unfolding get_set_index
  get_set_span c address = row c.num_way (get_set_index c address) c.block

  -- A write through an iterator of the set.
  unfoldable pub write_way : ℕ → ℕ → CacheBlock → CacheState L M → CacheState L M
  unfolding get_set_index
  write_way address way b c = record c {
    block = set c.block (get_set_index c address * c.num_way + way) b;
  }

  -- An address without the bits that the queues do not match.
  unfoldable pub align : CacheState L M → ℕ → ℕ
  align c address =
      let bits = if c.match_offset_bits then 0 else c.offset_bits in address / 2 ^ bits * 2 ^ bits

  -- The counters that are raised, in order.
  abbrev pub note : List (Bool × Event) → CacheState L M → CacheState L M
  note tests c = record c { events = c.events ++ noted tests }

  unfoldable pub should_activate_prefetcher : CacheState L M → Packet → Bool
  should_activate_prefetcher c p =
      not (c.pref_activate_mask / 2 ^ p.type % 2 == 0) && not p.prefetch_from_this

  unfoldable pub get_way : CacheState L M → ℕ → ℕ
  unfolding get_set_span find_way
  get_way c address = elim (find_way (holds_block address c.offset_bits) (get_set_span c address)) [
    | none ↦ length (get_set_span c address)
    | some found ↦ found.0
  ]

  unfoldable pub invalidate_entry : ℕ → CacheState L M → ℕ × CacheState L M
  unfolding get_set_span find_way write_way
  invalidate_entry address c =
      elim (find_way (holds_block address c.offset_bits) (get_set_span c address)) [
        | none ↦ (length (get_set_span c address), c)
        | some found ↦ (found.0, write_way address found.0 (record found.1 { valid = false }) c)
      ]

  unfoldable pub get_occupancy : ℕ → CacheState L M → ℕ
  get_occupancy queue_type c =
      if queue_type == 0
      then length c.mshr
      else (if queue_type == 1
          then length c.queues.rq
          else (if queue_type == 2
              then length c.queues.wq
              else (if queue_type == 3 then length c.queues.pq else 0)))

  unfoldable pub get_size : ℕ → CacheState L M → ℕ
  get_size queue_type c =
      if queue_type == 0
      then c.mshr_size
      else (if queue_type == 1
          then c.queues.rq_size
          else (if queue_type == 2
              then c.queues.wq_size
              else (if queue_type == 3
                  then c.queues.pq_size
                  else (if queue_type == 4 then c.queues.ptwq_size else 0))))
