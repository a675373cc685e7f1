-- ===== src/Cache/Fill.antt =====
-- `handle_fill` of src/cache.cc: a block comes in, and the one it takes the place of goes out.
use proba_artifact.Prelude.{
  ℕ, ◌+◌, ◌-◌, ◌^◌, ◌%◌, Bool, true, false, not, ◌&&◌, ◌||◌, Option, none, some, [], ◌∷◌, ◌++◌,
  ◌==◌, if◌then◌else◌, get_elem?, length, assert, ◌>>=◌, ◌>>◌,
}
use proba_artifact.CacheQueues.Packet.{Packet}
use proba_artifact.Cache.State.{
  CacheBlock, CacheState, MemoryBelow, Modules, Event, prefetch_type, write_type, pf_dest, pf_sour,
  ipcp_type, gaze_type, note, set_bit, clear_bit, find_way, get_set_index, get_set_span, write_way,
  align,
}
use proba_artifact.Cache.Hit.{blank_packet}

abbrev pub writeback : Packet → CacheBlock → Packet
writeback fill_mshr way = record blank_packet {
  cpu = fill_mshr.cpu;
  address = way.address;
  content = way.content;
  instr_id = fill_mshr.instr_id;
  ip = 0;
  type = write_type;
  pf_metadata = way.pf_metadata;
}

-- The metadata that the prefetcher is given: whether an unused prefetch is evicted, and whether this
-- one is late.
unfoldable pub fill_metadata : Packet → CacheBlock → ℕ
unfolding set_bit
fill_metadata fill_mshr way =
    let polluted =
      if way.prefetch then set_bit 23 fill_mshr.pf_metadata else fill_mshr.pf_metadata in
    if fill_mshr.late_prefetch then set_bit 22 polluted else polluted

abbrev pub useless_from : ℕ → ℕ → CacheBlock → Bool
useless_from dest sour way = way.from_prefetch && way.sour_level == sour && way.dest_level == dest

abbrev pub is_prefetch : Packet → Bool
is_prefetch p = p.type == prefetch_type

-- The block after a fill.
unfoldable pub fill_block : Packet → ℕ → CacheBlock
unfolding clear_bit
fill_block fill_mshr metadata = record {
  valid = true;
  prefetch = fill_mshr.prefetch_from_this;
  dirty = fill_mshr.type == write_type;
  address = fill_mshr.address;
  v_address = fill_mshr.v_address;
  content = fill_mshr.content;
  pf_metadata = clear_bit 22 (clear_bit 23 metadata);
  from_prefetch = is_prefetch fill_mshr;
  sour_level = pf_sour fill_mshr.pf_metadata;
  dest_level = pf_dest fill_mshr.pf_metadata;
}

module _ {L M : Type 0} where
  unfoldable pub count_fill : Packet → CacheBlock → CacheState L M → CacheState L M
  count_fill fill_mshr way c =
      let old = way.pf_metadata in
      let m = fill_mshr.pf_metadata in
      let from_l1 = useless_from 2 1 way && c.is_l2c in
      let from_l2 = useless_from 3 2 way && c.is_llc in
      let brought = is_prefetch fill_mshr in
      let here = brought && ((c.is_l2c && pf_dest m == 2) || (c.is_l1d && pf_dest m == 1)) in
      note
        ((from_l1, Event.pf_useless_at_l2_from_l1)
          ∷ (from_l1 && not c.warmup, Event.useless_gaze (gaze_type old))
          ∷ (from_l2, Event.pf_useless_at_llc_from_l2)
          ∷ (way.prefetch, Event.pf_useless)
          ∷ (way.prefetch, Event.pref_useless (ipcp_type old))
          ∷ (way.prefetch && not c.warmup, Event.useless_gaze (gaze_type old))
          ∷ (brought, Event.pf_fill)
          ∷ (brought, Event.pref_filled (ipcp_type m))
          ∷ (here, Event.pf_fill_this_level)
          ∷ (here && not c.warmup, Event.fill_gaze (gaze_type m))
          ∷ [])
        c

  -- The producers are answered.
  unfoldable pub finish_fill : Packet → ℕ → CacheState L M → CacheState L M
  finish_fill fill_mshr metadata c =
      let latency = (c.current_cycle + 2 ^ 64 - (fill_mshr.cycle_enqueued + 1)) % 2 ^ 64 in
      let counted = note ((not c.warmup, Event.miss_latency latency) ∷ []) c in
      record counted { returned = c.returned ++ record fill_mshr { pf_metadata = metadata } ∷ [] }

module _ {L : Type 0} (modules : Modules) where
  -- The way that is filled: one that holds no block, or the victim.
  unfoldable pub choose_way : Packet → CacheState L modules.State → ℕ × modules.State
  unfolding find_way get_set_span get_set_index
  choose_way fill_mshr c =
      let span = get_set_span c fill_mshr.address in
      elim (find_way (λ b. not b.valid) span) [
        | some found ↦ (found.0, c.modules)
        | none ↦
            modules.find_victim fill_mshr.cpu fill_mshr.instr_id (get_set_index c fill_mshr.address)
              span fill_mshr.ip fill_mshr.address fill_mshr.type c.modules
      ]

  -- The prefetcher and the replacement policy learn of the fill.
  unfoldable pub notify_fill :
      Packet → ℕ → ℕ → ℕ → ℕ → CacheState L modules.State → Option (ℕ × CacheState L modules.State)
  unfolding get_set_index align
  notify_fill fill_mshr way evicted_paddress evicted metadata c = do
    let index = get_set_index c fill_mshr.address
    let address = align c (if c.virtual_prefetch then fill_mshr.v_address else fill_mshr.address)
    (thru, state, queues, events) ←
        modules.cache_fill address index way (is_prefetch fill_mshr) evicted_paddress metadata
          (c.modules, c.queues, c.events)
    let updated =
        modules.update_replacement_state fill_mshr.cpu index way fill_mshr.address fill_mshr.ip
          evicted fill_mshr.type false state
    some (thru, record c { modules = updated; queues = queues; events = events })

  unfoldable pub replace_block :
      Packet → ℕ → CacheBlock → CacheState L modules.State → Option (CacheState L modules.State)
  unfolding count_fill fill_metadata notify_fill write_way fill_block finish_fill align
  replace_block fill_mshr way old c = do
    let evicted = align c (if c.ever_seen_data then old.address else old.v_address)
    (thru, notified) ←
        notify_fill fill_mshr way (align c old.address) evicted (fill_metadata fill_mshr old)
          (count_fill fill_mshr old c)
    let block = fill_block fill_mshr thru
    some (finish_fill fill_mshr block.pf_metadata (write_way fill_mshr.address way block notified))

  unfoldable pub bypass :
      Packet → ℕ → CacheState L modules.State → Option (CacheState L modules.State)
  unfolding notify_fill finish_fill
  bypass fill_mshr way c = do
    (thru, notified) ← notify_fill fill_mshr way 0 0 fill_mshr.pf_metadata c
    some (finish_fill fill_mshr thru notified)

module _ (below : MemoryBelow) where
  -- A dirty block is written to the level below before it is lost.
  abbrev pub ask_write_back : Packet → CacheBlock → below.State → Option (Bool × below.State)
  ask_write_back fill_mshr way lower =
      if way.valid && way.dirty
      then below.add_wq (writeback fill_mshr way) lower
      else some (true, lower)

  module _ (modules : Modules) where
    unfoldable pub fill_way :
        Packet
        → ℕ
        → CacheBlock
        → CacheState below.State modules.State
        → Option (Bool × CacheState below.State modules.State)
    unfolding replace_block
    fill_way fill_mshr way old c = do
      (success, lower) ← ask_write_back fill_mshr old c.lower
      let written = record c { lower = lower }
      let replaced =
          replace_block modules fill_mshr way old written >>= λ filled. some (true, filled)
      if success then replaced else some (false, written)

    -- The rest of a fill, by what stands in the way; an assertion that fails is `none`.
    unfoldable pub fill_at :
        Packet
        → ℕ
        → Option CacheBlock
        → CacheState below.State modules.State
        → Option (Bool × CacheState below.State modules.State)
    unfolding get_set_span fill_way bypass
    fill_at fill_mshr way (some old) c = fill_way fill_mshr way old c
    fill_at fill_mshr way none c = do
      assert (way == length (get_set_span c fill_mshr.address))
      assert (not (fill_mshr.type == write_type))
      filled ← bypass modules fill_mshr way c
      some (true, filled)

    unfoldable pub handle_fill :
        Packet
        → CacheState below.State modules.State
        → Option (Bool × CacheState below.State modules.State)
    unfolding choose_way get_set_span fill_at
    handle_fill fill_mshr c₀ =
        let c = record c₀ { cpu = fill_mshr.cpu } in
        let (way, state) = choose_way modules fill_mshr c in
        let span = get_set_span c fill_mshr.address in
        fill_at fill_mshr way (get_elem? span way) (record c { modules = state })
