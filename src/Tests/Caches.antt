-- ===== src/Tests/Caches.antt =====
-- A cache of two sets of two ways, over a level that takes every request.
use proba_artifact.Prelude.{
  ℕ, zero, suc, ap, ◌*◌, sym, ◌∙◌, All-take, All-drop, All-get_elem?, drop, ◌<◌, ◌≡◌, ◌⊎◌, inl,
  refl, Bool, true, false, none, some, [], ◌∷◌, ◌++◌, length, get_elem?, arith, All,
}
use mathlib.Core.Option.{some_inj}
use proba_artifact.Prelude.Rows.{row}
use proba_artifact.Msl.Bits.{lg2}
use proba_artifact.CacheQueues.Packet.{Packet, uint64_max}
use proba_artifact.CacheQueues.Queues.{Queues, QueueStats}
use proba_artifact.Cache.State.{
  CacheBlock, CacheState, MemoryBelow, Modules, find_way, get_set_index, get_set_span,
}
use proba_artifact.Cache.Hit.{blank_packet, operate_prefetcher, try_hit}
use proba_artifact.Cache.Fill.{handle_fill, choose_way}
use proba_artifact.Cache.Miss.{handle_miss, mark_returned, return_data}
use proba_artifact.Cache.Filled.{Written, Unwritten, chosen}
use proba_artifact.Cache.Returns.{IsOrdered, return_data-IsOrdered}
use proba_artifact.Cache.Refetch.{Consulted, lookup_block, Answers, handle_fill-try_hit}
use proba_artifact.Cache.Sets.{IsUnique, handle_fill-result, handle_fill-IsUnique}
use proba_artifact.Cache.Entries.{
  Awaits, IsOutstanding, handle_miss-Awaits, handle_miss-IsOutstanding,
}

-- Counts the requests.
abbrev memory : MemoryBelow
memory = record {
  State = ℕ;
  add_rq = λ p n. some (true, suc n);
  add_wq = λ p n. some (true, suc n);
  add_pq = λ p n. some (true, suc n);
}

-- Always the first way, and no prefetches.
abbrev first_way : Modules
first_way = record {
  State = ℕ;
  find_victim = λ cpu instr_id index blocks ip address type n. (0, n);
  update_replacement_state = λ cpu index way address ip victim type hit n. suc n;
  cache_operate = λ address ip hit useful type metadata s. some (metadata, s.0, s.1, s.2);
  cache_fill = λ address index way prefetch evicted metadata s. some (metadata, s.0, s.1, s.2);
  cycle_operate = λ s. some s;
}

abbrev no_stats : QueueStats
no_stats = record { access = 0; merged = 0; full = 0; to_cache = 0 }

abbrev pub queues : Queues
queues = record {
  rq = [];
  pq = [];
  wq = [];
  ptwq = [];
  rq_size = 4;
  pq_size = 4;
  wq_size = 4;
  ptwq_size = 4;
  hit_latency = 4;
  offset_bits = 6;
  match_offset_bits = false;
  current_cycle = 100;
  warmup = false;
  rq_stats = no_stats;
  pq_stats = no_stats;
  wq_stats = no_stats;
  ptwq_stats = no_stats;
  wq_forward = 0;
  returned = [];
}

abbrev no_block : CacheBlock
no_block = record {
  valid = false;
  prefetch = false;
  dirty = false;
  address = 0;
  v_address = 0;
  content = 0;
  pf_metadata = 0;
  from_prefetch = false;
  sour_level = 0;
  dest_level = 0;
}

-- A request of the producer 9.
abbrev pub request : ℕ → Packet
request address = record blank_packet {
  address = address;
  content = 77;
  fill_this_level = true;
  to_return = 9 ∷ [];
}

abbrev pub cache_over : {L : Type 0} → L → CacheState L ℕ
cache_over lower = record {
  cpu = 0;
  num_set = 2;
  num_way = 2;
  mshr_size = 2;
  fill_latency = 1;
  offset_bits = 6;
  block = no_block ∷ no_block ∷ no_block ∷ no_block ∷ [];
  max_tag = 2;
  max_fill = 2;
  prefetch_as_load = false;
  match_offset_bits = false;
  virtual_prefetch = false;
  ever_seen_data = true;
  pref_activate_mask = 5;
  is_l1d = false;
  is_l2c = true;
  is_llc = false;
  this = 8;
  current_cycle = 100;
  warmup = false;
  queues = queues;
  translating = false;
  mshr = request 0x1000 ∷ [];
  inflight_writes = [];
  lower = lower;
  modules = 0;
  events = [];
  returned = [];
}

abbrev cache : CacheState ℕ ℕ
cache = cache_over 0

-- The cache after the block at 0x2040 came in.
abbrev filled : CacheState ℕ ℕ
filled = elim (handle_fill memory first_way (request 0x2040) cache) [ none ↦ cache | some r ↦ r.1 ]

handle_fill-runs : handle_fill memory first_way (request 0x2040) cache ≡ some (true, filled)
unfolding handle_fill lg2
handle_fill-runs = refl

abbrev missed : CacheState ℕ ℕ
missed = elim (handle_miss memory (request 0x3000) cache) [ none ↦ cache | some r ↦ r.1 ]

handle_miss-runs : handle_miss memory (request 0x3000) cache ≡ some (true, missed)
unfolding handle_miss
handle_miss-runs = refl

mshr-after_miss : length missed.mshr ≡ 2
unfolding handle_miss
mshr-after_miss = refl

return_data-order :
    elim (return_data (request 0x3000) missed) [
      | none ↦ []
      | some c ↦ elim (get_elem? c.mshr 0) [ none ↦ [] | some p ↦ p.event_cycle ∷ [] ]
    ]
    ≡ 101 ∷ []
unfolding handle_miss return_data
return_data-order = refl

nothing_missed : lookup_block cache (request 0x2040) ≡ none
unfolding get_set_span find_way lg2
nothing_missed = refl

way_in_set :
    (chosen memory first_way (request 0x2040) cache).0
    < length (get_set_span cache (request 0x2040).address)
unfolding get_set_span choose_way lg2
way_in_set = omega arith

-- What the prefetcher answers when the block is asked for.
abbrev asked : ℕ × CacheState ℕ ℕ
asked = (0, record filled { cpu = (request 0x2048).cpu })

asked-Consulted : Consulted first_way (request 0x2048) filled asked
unfolding operate_prefetcher handle_fill lg2
asked-Consulted = refl

handle_fill-try_hit_example :
    (r : Bool × CacheState ℕ ℕ) × (try_hit first_way (request 0x2048) filled ≡ some r)
    × Answers first_way (request 0x2048) 77 filled.returned r
handle_fill-try_hit_example =
    handle_fill-try_hit memory first_way (request 0x2040) (request 0x2048) cache filled
      nothing_missed way_in_set handle_fill-runs refl asked asked-Consulted

-- The sets of the cache hold no blocks yet.
no_repeats : (r : ℕ) → IsUnique 6 (row 2 r cache.block)
no_repeats r = record { same_way = λ i j a b hi hj va vb. absurd (cc (sym va ∙ invalid i hi)) }
  where
    Invalid : CacheBlock → Type 0
    Invalid x = x.valid ≡ false

    all_invalid : All Invalid (row 2 r cache.block)
    all_invalid =
        All-take Invalid 2 (drop (r * 2) cache.block)
          (All-drop Invalid (r * 2) cache.block (refl, (refl, (refl, (refl, tt)))))

    invalid :
        (i : ℕ) {x : CacheBlock} → get_elem? (row 2 r cache.block) i ≡ some x → x.valid ≡ false
    invalid i h = All-get_elem? Invalid (row 2 r cache.block) i all_invalid h

handle_fill-IsUnique_example : IsUnique 6 (row 2 1 filled.block)
unfolding handle_fill lg2
handle_fill-IsUnique_example =
    handle_fill-IsUnique memory first_way (request 0x2040) cache filled true handle_fill-runs
      nothing_missed no_repeats 1

handle_fill-result_example :
    (((true ≡ false)
        × Written memory
            (request 0x2040)
            (chosen memory first_way (request 0x2040) cache).0
            cache
            filled
            false
        × (filled.block ≡ cache.block)
        × (filled.returned ≡ cache.returned))
      ⊎ ((true ≡ true)
          × (Written memory
                (request 0x2040)
                (chosen memory first_way (request 0x2040) cache).0
                cache
                filled
                true
              ⊎ Unwritten memory
                  (request 0x2040)
                  (chosen memory first_way (request 0x2040) cache).0
                  cache
                  filled)
          × ((metadata : ℕ) × (filled.returned
                ≡ cache.returned ++ record (request 0x2040) { pf_metadata = metadata } ∷ []))))
    × (row 2 0 filled.block ≡ row 2 0 cache.block)
unfolding handle_fill get_set_index lg2
handle_fill-result_example =
    handle_fill-result memory first_way (request 0x2040) cache filled true handle_fill-runs 0
      (omega arith)

handle_miss-Awaits_example : Awaits 6 64 9 missed.mshr
handle_miss-Awaits_example =
    handle_miss-Awaits memory (request 0x3000) cache missed true handle_miss-runs 9 64
      (inl (inl (refl, inl refl)))

cache-IsOutstanding : IsOutstanding 2 6 cache.mshr
cache-IsOutstanding = record { fits = omega arith; all_valid = (omega arith, tt); apart = (tt, tt) }

handle_miss-IsOutstanding_example : IsOutstanding 2 6 missed.mshr
handle_miss-IsOutstanding_example =
    handle_miss-IsOutstanding memory (request 0x3000) cache missed true handle_miss-runs
      (omega arith) cache-IsOutstanding

missed-IsOrdered : IsOrdered 0 missed.mshr
unfolding handle_miss
missed-IsOrdered = record {
  before = λ k p h lt. absurd (omega (arith, lt));
  after = λ k p h le. waiting k p h;
}
  where
    waiting : (k : ℕ) (p : Packet) → get_elem? missed.mshr k ≡ some p → p.event_cycle ≡ uint64_max
    waiting zero p h = ap (λ (x : Packet). x.event_cycle) (sym (some_inj.0 h))
    waiting (suc zero) p h = ap (λ (x : Packet). x.event_cycle) (sym (some_inj.0 h))
    waiting (suc (suc k)) p h = cc

return_data-IsOrdered_example :
    (c' : CacheState ℕ ℕ) × (return_data (request 0x3000) missed ≡ some c')
    × IsOrdered 1 c'.mshr
    × (get_elem? c'.mshr 0
        ≡ some (
            mark_returned missed
              (request 0x3000)
              (record (request 0x3000) { cycle_enqueued = 100; event_cycle = uint64_max })))
unfolding handle_miss
return_data-IsOrdered_example =
    return_data-IsOrdered (request 0x3000) missed 0 1
      (record (request 0x3000) { cycle_enqueued = 100; event_cycle = uint64_max }) missed-IsOrdered
      refl refl (omega arith)
