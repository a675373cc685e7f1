-- ===== src/Tests/Cycles.antt =====
-- A cycle of a cache whose prefetcher asks for the next block, over the queues of another cache.
use proba_artifact.Prelude.{
  ℕ, ◌+◌, ◌≡◌, ◌≢◌, inl, inr, refl, Bool, true, false, Option, none, some, List, [], ◌∷◌, length,
  arith, ◌>>=◌,
}
use proba_artifact.Msl.Bits.{lg2}
use proba_artifact.CacheQueues.Packet.{Packet}
use proba_artifact.CacheQueues.Queues.{
  Queues, do_add_queue, is_physical, is_ready, insert_packet, count,
}
use proba_artifact.CacheQueues.Queues
use proba_artifact.CacheQueues.Adding.{do_add_queue-result}
use proba_artifact.Cache.State.{CacheState, Event, MemoryBelow, Modules}
use proba_artifact.Cache.Hit.{try_hit}
use proba_artifact.Cache.Fill.{handle_fill}
use proba_artifact.Cache.Miss.{handle_miss}
use proba_artifact.Cache.Operate.{operate, do_fill, operate_readlike}
use proba_artifact.Cache.Addressed.{Prefetched, Prefetches, AnswersAddressed}
use proba_artifact.Cache.Shape.{FindsVictim}
use proba_artifact.Cache.Keeps.{IsReady}
use proba_artifact.Cache.Total.{operate-total}
use proba_artifact.Tests.Caches.{queues, request, cache_over}

abbrev next_cache : MemoryBelow
next_cache = record {
  State = Queues;
  add_rq = Queues.add_rq;
  add_wq = Queues.add_wq;
  add_pq = Queues.add_pq;
}

abbrev prefetch_next : ℕ → ℕ → ℕ × Queues × List Event → Option (ℕ × ℕ × Queues × List Event)
prefetch_next address metadata (state, q, events) = do
  (success, after) ← Queues.add_pq (request (address + 64)) q
  some (metadata, state, after, events)

-- Fills the first way, and asks for the block after the one that is looked up.
abbrev next_line : Modules
next_line = record {
  State = ℕ;
  find_victim = λ cpu instr_id index blocks ip address type n. (0, n);
  update_replacement_state = λ cpu index way address ip victim type hit n. n;
  cache_operate = λ address ip hit useful type metadata s. prefetch_next address metadata s;
  cache_fill = λ address index way prefetch evicted metadata s. some (metadata, s.0, s.1, s.2);
  cycle_operate = λ s. some s;
}

next_line-FindsVictim : FindsVictim 2 next_line
next_line-FindsVictim = record {
  victim_lt = λ cpu instr_id index blocks ip address type s. omega arith;
}

do_add_queue-answers :
    (q : Queues) (queue : List Packet) (size : ℕ) (p : Packet)
    → p.address ≢ 0
    → (r : Bool × List Packet) × (do_add_queue q queue size p ≡ some r)
do_add_queue-answers q queue size p v = elim (do_add_queue-result q queue size p v) [
  | inl (room, (queue', runs, stands)) ↦ ((true, queue'), runs)
  | inr (full, runs) ↦ ((false, queue), runs)
]

add_pq-answers :
    (p : Packet) (q : Queues) → p.address ≢ 0 → (r : Bool × Queues) × (Queues.add_pq p q ≡ some r)
unfolding Queues.add_pq
add_pq-answers p q v =
    let fwd_pkt = record p { is_translated = is_physical p } in
    let (r, runs) = do_add_queue-answers q q.pq q.pq_size fwd_pkt v in
    ((r.0, record q { pq = r.1; pq_stats = count r.0 q.pq_stats }), rw runs refl)

next_cache-AnswersAddressed : AnswersAddressed next_cache
unfolding Queues.add_rq Queues.add_wq
next_cache-AnswersAddressed = record {
  add_rq = λ p q v.
      let fwd_pkt = record p { fill_this_level = true; is_translated = is_physical p } in
      let (r, runs) = do_add_queue-answers q q.rq q.rq_size fwd_pkt v in
      ((r.0, record q { rq = r.1; rq_stats = count r.0 q.rq_stats }), rw runs refl);
  add_wq = λ p q v.
      let fwd_pkt = record p { fill_this_level = true; is_translated = is_physical p } in
      let (r, runs) = do_add_queue-answers q q.wq q.wq_size fwd_pkt v in
      ((r.0, record q { wq = r.1; wq_stats = count r.0 q.wq_stats }), rw runs refl);
  add_pq = add_pq-answers;
}

next_line-Prefetches : Prefetches next_line
next_line-Prefetches = record {
  cache_operate = λ address ip hit useful type metadata s.
      let (r, runs) = add_pq-answers (request (address + 64)) s.1 (omega arith) in
      (
        (metadata, s.0, r.1, s.2),
        rw runs refl,
        Prefetched.next (request (address + 64)) (omega arith) runs (Prefetched.done r.1),
      );
  cache_fill = λ address index way prefetch evicted metadata s.
      ((metadata, s.0, s.1, s.2), refl, Prefetched.done s.1);
  cycle_operate = λ s. (s, refl, Prefetched.done s.1);
}

-- An entry that has been returned, and a read of another block.
abbrev busy : CacheState Queues ℕ
busy = record (cache_over queues) {
  mshr = record (request 0x1000) { event_cycle = 100 } ∷ [];
  queues = record queues { rq = record (request 0x3000) { event_cycle = 99 } ∷ [] };
}

busy-IsReady : IsReady 2 busy
unfolding lg2
busy-IsReady = record {
  shaped = (refl, refl, refl);
  queues = record { wq = tt; ptwq = tt; rq = (omega arith, tt); pq = tt };
  mshr = (omega arith, tt);
  inflight_writes = tt;
  block = (λ h. cc, (λ h. cc, (λ h. cc, (λ h. cc, tt))));
}

-- The block is filled, the read misses, and the next block waits in the prefetch queue.
operate-moves :
    elim (operate next_cache next_line busy) [
      | none ↦ []
      | some c ↦
          length c.mshr
          ∷ length c.queues.rq
          ∷ length c.queues.pq
          ∷ length c.returned
          ∷ length c.lower.rq
          ∷ []
    ]
    ≡ 1 ∷ 0 ∷ 1 ∷ 1 ∷ 1 ∷ []
unfolding operate lg2 do_fill handle_fill operate_readlike is_ready try_hit handle_miss
    Queues.add_pq Queues.add_rq do_add_queue insert_packet
operate-moves = refl

operate-total_example :
    (after : CacheState Queues ℕ) × (operate next_cache next_line busy ≡ some after)
    × IsReady 2 after
operate-total_example =
    operate-total next_cache next_line 2 next_line-FindsVictim next_line-Prefetches
      next_cache-AnswersAddressed busy busy-IsReady
