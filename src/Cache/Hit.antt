-- ===== src/Cache/Hit.antt =====
-- `try_hit` and `prefetch_line` of src/cache.cc.
use proba_artifact.Prelude.{
  ℕ, List, ◌-◌, ◌^◌, Bool, true, false, not, ◌&&◌, ◌||◌, Option, none, some, [], ◌∷◌, ◌++◌, ◌==◌,
  if◌then◌else◌, ◌>>=◌,
}
use proba_artifact.CacheQueues.Packet.{Packet}
use proba_artifact.CacheQueues.Queues.{Queues, add_pq}
use proba_artifact.Cache.State.{
  CacheBlock, CacheState, Modules, Event, prefetch_type, write_type, pf_dest, pf_sour, ipcp_type,
  gaze_type, note, holds_block, find_way, get_set_index, get_set_span, write_way, align,
  should_activate_prefetcher,
}

-- PACKET with the initializers of its members.
abbrev pub blank_packet : Packet
blank_packet = record {
  scheduled = false;
  forward_checked = false;
  translate_issued = false;
  prefetch_from_this = false;
  fill_this_level = false;
  is_translated = true;
  from_prefetching = false;
  late_prefetch = false;
  asid = 255;
  type = 0;
  pf_metadata = 0;
  cpu = 2 ^ 32 - 1;
  address = 0;
  v_address = 0;
  content = 0;
  instr_id = 0;
  ip = 0;
  event_cycle = 2 ^ 64 - 1;
  cycle_enqueued = 0;
  instr_depend_on_me = [];
  to_return = [];
  translation_level = 0;
  init_translation_level = 0;
}

abbrev pub is_some : Option (ℕ × CacheBlock) → Bool
is_some none = false
is_some (some _) = true

-- A demand request hits a block that a prefetcher above brought here.
abbrev pub useful_from : Packet → ℕ → ℕ → CacheBlock → Bool
useful_from pkt dest sour b =
    b.from_prefetch
    && not (pkt.type == prefetch_type)
    && b.dest_level == dest
    && b.sour_level == sour

-- A prefetch takes a block on to the first level.
abbrev pub passes_on : Packet → CacheBlock → Bool
passes_on pkt b =
    pkt.type == prefetch_type
    && b.from_prefetch
    && b.dest_level == 2
    && pf_dest pkt.pf_metadata == 1

abbrev pub useful_prefetch : Packet → CacheBlock → Bool
useful_prefetch pkt b = b.prefetch && not pkt.prefetch_from_this

abbrev pub hits_prefetch : Packet → Option (ℕ × CacheBlock) → Bool
hits_prefetch pkt none = false
hits_prefetch pkt (some w) = useful_prefetch pkt w.1

-- The packet that the producers are given.
abbrev pub hit_answer : Packet → ℕ → CacheBlock → Packet
hit_answer pkt metadata b = record pkt { content = b.content; pf_metadata = metadata }

module _ {L M : Type 0} where
  abbrev pub useful_here : CacheState L M → Packet → CacheBlock → Bool
  useful_here c pkt b = (useful_from pkt 2 1 b && c.is_l2c) || (useful_from pkt 3 2 b && c.is_llc)

  -- The block after the hit.
  unfoldable pub hit_block : CacheState L M → Packet → CacheBlock → CacheBlock
  hit_block c pkt b =
      let still = b.from_prefetch && not (useful_here c pkt b) in
      record b {
        from_prefetch = still;
        prefetch = b.prefetch && not (useful_prefetch pkt b);
        dest_level = if passes_on pkt b then pf_dest pkt.pf_metadata else b.dest_level;
        sour_level = if passes_on pkt b then pf_sour pkt.pf_metadata else b.sour_level;
        dirty = b.dirty || pkt.type == write_type;
      }

  unfoldable pub count_hit : Packet → CacheBlock → CacheState L M → CacheState L M
  count_hit pkt b c =
      let m = b.pf_metadata in
      let from_l1 = useful_from pkt 2 1 b && c.is_l2c in
      let from_l2 = useful_from pkt 3 2 b && c.is_llc in
      let own = useful_prefetch pkt b in
      note
        ((from_l1, Event.pf_useful_at_l2_from_l1)
          ∷ (from_l1 && not c.warmup, Event.useful_gaze (gaze_type m))
          ∷ (from_l2, Event.pf_useful_at_llc_from_l2)
          ∷ (own, Event.pf_useful)
          ∷ (own, Event.pref_useful (ipcp_type m))
          ∷ (own && not c.warmup, Event.useful_gaze (gaze_type m))
          ∷ (passes_on pkt b, Event.l2_pf_to_l1)
          ∷ [])
        c

  -- `prefetch_line`, whose request goes into the prefetch queue.
  unfoldable pub prefetch_line : ℕ → Bool → ℕ → CacheState L M → Option (Bool × CacheState L M)
  prefetch_line pf_addr fill_this_level prefetch_metadata c₀ = do
    let c = note ((true, Event.pf_requested) ∷ []) c₀
    let pf_packet = record blank_packet {
      type = prefetch_type;
      prefetch_from_this = true;
      fill_this_level = fill_this_level;
      pf_metadata = prefetch_metadata;
      cpu = c.cpu;
      address = pf_addr;
      v_address = if c.virtual_prefetch then pf_addr else 0;
      cycle_enqueued = c.current_cycle;
    }
    (success, queues) ← add_pq pf_packet c.queues
    some (success, note ((success, Event.pf_issued) ∷ []) (record c { queues = queues }))

module _ {L : Type 0} (modules : Modules) where
  -- The call of the prefetcher, where it looks at this type of request.
  abbrev pub call_prefetcher :
      Packet
      → Option (ℕ × CacheBlock)
      → CacheState L modules.State
      → Option (ℕ × modules.State × Queues × List Event)
  call_prefetcher pkt found c =
      let base = align c (if c.virtual_prefetch then pkt.v_address else pkt.address) in
      if should_activate_prefetcher c pkt
      then modules.cache_operate base pkt.ip (is_some found) (hits_prefetch pkt found) pkt.type
          pkt.pf_metadata (c.modules, c.queues, c.events)
      else some (pkt.pf_metadata, c.modules, c.queues, c.events)

  unfoldable pub operate_prefetcher :
      Packet
      → Option (ℕ × CacheBlock)
      → CacheState L modules.State
      → Option (ℕ × CacheState L modules.State)
  unfolding align should_activate_prefetcher
  operate_prefetcher pkt found c = do
    (metadata, state, queues, events) ← call_prefetcher pkt found c
    some (metadata, record c { modules = state; queues = queues; events = events })

  -- What a hit in a way changes.
  unfoldable pub hit_way :
      Packet → ℕ → ℕ → CacheBlock → CacheState L modules.State → CacheState L modules.State
  unfolding get_set_index write_way hit_block count_hit
  hit_way pkt metadata way b c =
      let counted = note ((true, Event.hit pkt.type pkt.cpu) ∷ []) c in
      let state =
        modules.update_replacement_state pkt.cpu (get_set_index c pkt.address) way b.address pkt.ip
          0 pkt.type true c.modules in
      let answered = record (count_hit pkt b (record counted { modules = state })) {
        returned = c.returned ++ hit_answer pkt metadata b ∷ [];
      } in
      write_way pkt.address way (hit_block c pkt b) answered

  unfoldable pub hit_found :
      Packet
      → ℕ
      → Option (ℕ × CacheBlock)
      → CacheState L modules.State
      → Bool × CacheState L modules.State
  unfolding hit_way
  hit_found pkt metadata none c = (false, c)
  hit_found pkt metadata (some w) c = (true, hit_way pkt metadata w.0 w.1 c)

  unfoldable pub try_hit :
      Packet → CacheState L modules.State → Option (Bool × CacheState L modules.State)
  unfolding get_set_span find_way operate_prefetcher hit_found
  try_hit pkt c₀ = do
    let c = record c₀ { cpu = pkt.cpu }
    let found = find_way (holds_block pkt.address c.offset_bits) (get_set_span c pkt.address)
    (metadata, operated) ← operate_prefetcher pkt found c
    some (hit_found pkt metadata found operated)
