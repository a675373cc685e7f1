-- ===== src/Cache/Keeps/Miss.antt =====
-- `handle_miss` and `handle_write` return, and keep what holds of a cache.
use proba_artifact.Prelude.{
  ℕ, ◌≡◌, inl, inr, refl, Bool, true, false, Option, none, some, [], ◌∷◌, ◌==◌, ◌||◌, not, length,
  All-set, All-append, All-get_elem?, Bool-cases,
}
use proba_artifact.CacheQueues.Packet.{Packet, eq_addr}
use proba_artifact.Cache.State.{CacheState, MemoryBelow, Event, prefetch_type, note}
use proba_artifact.Cache.Miss.{
  handle_miss, handle_write, miss_at, allocate_miss, enter_miss, ask_below, count_late, find_packet,
  join_miss, overtakes, forward_miss,
}
use proba_artifact.Cache.Entries.{find_packet-some}
use proba_artifact.Cache.Addressed.{HasAddress, AnswersAddressed}
use proba_artifact.Cache.Keeps.{IsReady, Returns}

join_miss-HasAddress :
    (pkt entry : Packet) (current_cycle : ℕ)
    → HasAddress pkt
    → HasAddress entry
    → HasAddress (join_miss current_cycle pkt entry)
unfolding join_miss
join_miss-HasAddress pkt entry current_cycle v h = elim (Bool-cases (overtakes pkt entry)) [
  | inl e ↦ rw e v
  | inr e ↦ rw e h
]

module _ (ways : ℕ) (below : MemoryBelow) (answers : AnswersAddressed below) {M : Type 0}
    (pkt : Packet) (v : HasAddress pkt) where
  ask_below-answers :
      (c : CacheState below.State M) → (r : Bool × below.State) × (ask_below below c pkt ≡ some r)
  unfolding forward_miss
  ask_below-answers c = elim (Bool-cases (c.prefetch_as_load || not (pkt.type == prefetch_type))) [
    | inl e ↦ rw e (answers.add_rq (forward_miss c pkt) c.lower v)
    | inr e ↦ rw e (answers.add_pq (forward_miss c pkt) c.lower v)
  ]

  enter_miss-IsReady :
      (answer : Bool × below.State) (c : CacheState below.State M)
      → IsReady ways c
      → IsReady ways (enter_miss below pkt answer c).1
  unfolding enter_miss
  enter_miss-IsReady (false, lower) c g = record {
    shaped = g.shaped;
    queues = g.queues;
    mshr = g.mshr;
    inflight_writes = g.inflight_writes;
    block = g.block;
  }
  enter_miss-IsReady (true, lower) c g = record {
    shaped = g.shaped;
    queues = g.queues;
    mshr = elim (Bool-cases pkt.fill_this_level) [
      | inl e ↦ rw e (All-append HasAddress c.mshr _ g.mshr (v, tt))
      | inr e ↦ rw e g.mshr
    ];
    inflight_writes = g.inflight_writes;
    block = g.block;
  }

  miss_at-Returns :
      (o : Option (ℕ × Packet)) (c : CacheState below.State M)
      → ((found : ℕ × Packet) → o ≡ some found → HasAddress found.1)
      → IsReady ways c
      → Returns ways (miss_at below pkt o c)
  unfolding miss_at allocate_miss count_late
  miss_at-Returns (some found) c h g = (
    _,
    refl,
    record {
      shaped = g.shaped;
      queues = g.queues;
      mshr =
          All-set HasAddress c.mshr found.0 _ g.mshr
            (join_miss-HasAddress pkt found.1 c.current_cycle v (h found refl));
      inflight_writes = g.inflight_writes;
      block = g.block;
    },
  )
  miss_at-Returns none c h g = elim (Bool-cases (length c.mshr == c.mshr_size)) [
    | inl e ↦ (
      (false, note ((true, Event.mshr_full) ∷ []) c),
      rw e refl,
      record {
        shaped = g.shaped;
        queues = g.queues;
        mshr = g.mshr;
        inflight_writes = g.inflight_writes;
        block = g.block;
      },
    )
    | inr e ↦
        let (answer, runs) = ask_below-answers c in
        (enter_miss below pkt answer c, rw (e, runs) refl, enter_miss-IsReady answer c g)
  ]

  pub handle_miss-Returns :
      (c : CacheState below.State M) → IsReady ways c → Returns ways (handle_miss below pkt c)
  unfolding handle_miss
  handle_miss-Returns c g =
      miss_at-Returns (find_packet (eq_addr pkt.address c.offset_bits) c.mshr)
        (record c { cpu = pkt.cpu })
        (λ found h. All-get_elem? HasAddress c.mshr found.0 g.mshr (find_packet-some _ c.mshr h).0)
        (record {
          shaped = g.shaped;
          queues = g.queues;
          mshr = g.mshr;
          inflight_writes = g.inflight_writes;
          block = g.block;
        })

  pub handle_write-IsReady :
      (c : CacheState below.State M) → IsReady ways c → IsReady ways (handle_write pkt c).1
  unfolding handle_write
  handle_write-IsReady c g = record {
    shaped = g.shaped;
    queues = g.queues;
    mshr = g.mshr;
    inflight_writes = All-append HasAddress c.inflight_writes _ g.inflight_writes (v, tt);
    block = g.block;
  }
