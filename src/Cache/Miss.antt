-- ===== src/Cache/Miss.antt =====
-- `handle_miss`, `handle_write` and `return_data` of src/cache.cc: the misses that are outstanding.
use proba_artifact.Prelude.{
  ℕ, ◌%◌, ◌^◌, ◌>>=◌, suc, ◌+◌, Bool, true, false, not, ◌&&◌, ◌||◌, Option, none, some, List, [],
  ◌∷◌, ◌++◌, ◌==◌, if◌then◌else◌, set, get_elem?, length,
}
use proba_artifact.CacheQueues.Packet.{Packet, eq_addr, set_union, uint64_max}
use proba_artifact.Cache.State.{
  CacheState, MemoryBelow, Event, rfo, prefetch_type, write_type, pf_dest, pf_sour, ipcp_type,
  gaze_type, note,
}

-- The index of the first packet that passes a test, with the packet.
unfoldable pub find_packet : (Packet → Bool) → List Packet → Option (ℕ × Packet)
find_packet test [] = none
find_packet test (p ∷ ps) =
    let later = elim (find_packet test ps) as (λ o. Option (ℕ × Packet)) [
      | none ↦ none
      | some found ↦ some (suc found.0, found.1)
    ] in
    if test p then some (0, p) else later

-- Whether a demand request finds the prefetch of its block outstanding.
abbrev pub overtakes : Packet → Packet → Bool
overtakes pkt entry = entry.type == prefetch_type && not (pkt.type == prefetch_type)

-- The entry of a block that is already outstanding: whoever waited and whoever waits now.
unfoldable pub join_miss : ℕ → Packet → Packet → Packet
join_miss current_cycle pkt entry =
    let joined = record entry {
      instr_depend_on_me = set_union entry.instr_depend_on_me pkt.instr_depend_on_me;
      to_return = set_union entry.to_return pkt.to_return;
    } in
    if overtakes pkt entry
    then record pkt {
      event_cycle = entry.event_cycle;
      cycle_enqueued = current_cycle;
      to_return = joined.to_return;
      late_prefetch = true;
    }
    else joined

module _ {L M : Type 0} where
  -- The counters of a prefetch that is overtaken.
  unfoldable pub count_late : Packet → Packet → CacheState L M → CacheState L M
  count_late pkt entry c =
      let m = entry.pf_metadata in
      let own = overtakes pkt entry && entry.prefetch_from_this in
      let from_l1 = overtakes pkt entry && pf_dest m == 2 && pf_sour m == 1 && c.is_l2c in
      let from_l2 = overtakes pkt entry && pf_dest m == 3 && pf_sour m == 2 && c.is_llc in
      note
        ((own, Event.pf_useful)
          ∷ (own, Event.pf_late)
          ∷ (own, Event.pref_useful (ipcp_type m))
          ∷ (own, Event.pref_late (ipcp_type m))
          ∷ (own && not c.warmup, Event.useful_gaze (gaze_type m))
          ∷ (from_l1, Event.pf_useful_at_l2_from_l1)
          ∷ (from_l1, Event.pf_late_at_l2_from_l1)
          ∷ (from_l1 && not c.warmup, Event.useful_gaze (gaze_type m))
          ∷ (from_l2, Event.pf_useful_at_llc_from_l2)
          ∷ (from_l2, Event.pf_late_at_llc_from_l2)
          ∷ [])
        c

  -- What is asked of the level below.
  unfoldable pub forward_miss : CacheState L M → Packet → Packet
  forward_miss c pkt = record pkt {
    type = if pkt.type == write_type then rfo else pkt.type;
    to_return = if pkt.fill_this_level then c.this ∷ [] else [];
    fill_this_level = true;
    prefetch_from_this = false;
  }

  abbrev pub new_mshr : CacheState L M → Packet → Packet
  new_mshr c pkt = record pkt { cycle_enqueued = c.current_cycle; event_cycle = uint64_max }

  abbrev pub count_miss : Packet → CacheState L M → CacheState L M
  count_miss pkt c = note ((true, Event.miss pkt.type pkt.cpu) ∷ []) c

module _ (below : MemoryBelow) {M : Type 0} where
  -- No entry is outstanding: the level below is asked, and an entry is made if the block will be
  -- filled here.
  abbrev pub ask_below : CacheState below.State M → Packet → Option (Bool × below.State)
  ask_below c pkt =
      if c.prefetch_as_load || not (pkt.type == prefetch_type)
      then below.add_rq (forward_miss c pkt) c.lower
      else below.add_pq (forward_miss c pkt) c.lower

  -- The answer of the level below.
  unfoldable pub enter_miss :
      Packet → Bool × below.State → CacheState below.State M → Bool × CacheState below.State M
  enter_miss pkt (false, lower) c = (false, record c { lower = lower })
  enter_miss pkt (true, lower) c =
      let entries = if pkt.fill_this_level then c.mshr ++ new_mshr c pkt ∷ [] else c.mshr in
      (true, count_miss pkt (record c { lower = lower; mshr = entries }))

  unfoldable pub allocate_miss :
      Packet → CacheState below.State M → Option (Bool × CacheState below.State M)
  unfolding forward_miss enter_miss
  allocate_miss pkt c = do answer ← ask_below c pkt; some (enter_miss pkt answer c)

  unfoldable pub miss_at :
      Packet
      → Option (ℕ × Packet)
      → CacheState below.State M
      → Option (Bool × CacheState below.State M)
  unfolding count_late join_miss allocate_miss
  miss_at pkt (some found) c = some (
    true,
    count_miss pkt (
        count_late pkt found.1
          (record c { mshr = set c.mshr found.0 (join_miss c.current_cycle pkt found.1) })),
  )
  miss_at pkt none c =
      if length c.mshr == c.mshr_size
      then some (false, note ((true, Event.mshr_full) ∷ []) c)
      else allocate_miss pkt c

  unfoldable pub handle_miss :
      Packet → CacheState below.State M → Option (Bool × CacheState below.State M)
  unfolding find_packet miss_at
  handle_miss pkt c₀ =
      let c = record c₀ { cpu = pkt.cpu } in
      miss_at pkt (find_packet (eq_addr pkt.address c.offset_bits) c.mshr) c

-- `std::iter_swap`
unfoldable pub iter_swap : ℕ → ℕ → List Packet → List Packet
iter_swap i j ps = elim (get_elem? ps i) [
  | none ↦ ps
  | some a ↦ elim (get_elem? ps j) [ none ↦ ps | some b ↦ set (set ps i b) j a ]
]

module _ {L M : Type 0} where
  unfoldable pub handle_write : Packet → CacheState L M → Bool × CacheState L M
  handle_write pkt c = (
    true,
    record c {
      inflight_writes =
          c.inflight_writes
          ++ record pkt {
            event_cycle = (c.current_cycle + (if c.warmup then 0 else c.fill_latency)) % 2 ^ 64;
            cycle_enqueued = c.current_cycle;
          }
            ∷ [];
    },
  )

  abbrev pub mark_returned : CacheState L M → Packet → Packet → Packet
  mark_returned c packet entry = record entry {
    content = packet.content;
    pf_metadata = packet.pf_metadata;
    event_cycle = (c.current_cycle + (if c.warmup then 0 else c.fill_latency)) % 2 ^ 64;
  }

  -- The entry of the block is marked as returned, and takes the place of the first one that is not.
  -- The assertion fails where there is no entry; the swap is undefined where all have returned.
  unfoldable pub return_data : Packet → CacheState L M → Option (CacheState L M)
  unfolding find_packet iter_swap
  return_data packet c = elim (find_packet (eq_addr packet.address c.offset_bits) c.mshr) [
    | none ↦ none
    | some found ↦
        let entries = set c.mshr found.0 (mark_returned c packet found.1) in
        elim (find_packet (λ x. x.event_cycle == uint64_max) c.mshr) [
          | none ↦ none
          | some first ↦ some (record c { mshr = iter_swap found.0 first.0 entries })
        ]
  ]
