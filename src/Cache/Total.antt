-- ===== src/Cache/Total.antt =====
-- A cycle of the cache runs to its end.
use proba_artifact.Prelude.{
  ℕ, zero, suc, ◌-◌, ◌≡◌, inl, inr, refl, Bool, true, false, some, List, [], ◌∷◌, leb, get_elem?,
  length, drop, All, All-drop, All-get_elem?, Bool-cases, Option-cases, if◌then◌else◌,
}
use proba_artifact.CacheQueues.Packet.{Packet}
use proba_artifact.Cache.State.{CacheState, MemoryBelow, Modules}
use proba_artifact.Cache.Miss.{handle_write}
use proba_artifact.Cache.Addressed.{
  HasAddress, Prefetched-QueuesAddressed, Prefetches, AnswersAddressed,
}
use proba_artifact.Cache.Shape.{FindsVictim}
use proba_artifact.Cache.Keeps.{IsReady, Returns}
use proba_artifact.Cache.Keeps.Hit.{try_hit-Returns}
use proba_artifact.Cache.Keeps.Miss.{handle_miss-Returns, handle_write-IsReady}
use proba_artifact.Cache.Keeps.Fill.{handle_fill-Returns}
use proba_artifact.Cache.Operate.{
  QueueName, Func, queue_of, with_queue, span_size, find_if_not, operate_queue, do_fill, ready,
  operate_readlike, operate_writelike, operate_queues, fill_queues, tag_queues, operate,
}

module _ {L M : Type 0} (ways : ℕ) where
  -- What is done with a packet that has an address.
  Ends : Func L M → Type 0
  Ends func =
      (pkt : Packet) (c : CacheState L M)
      → HasAddress pkt
      → IsReady ways c
      → Returns ways (func pkt c)

  queue_of-HasAddress :
      (q : QueueName) (c : CacheState L M) → IsReady ways c → All HasAddress (queue_of q c)
  unfolding queue_of
  queue_of-HasAddress QueueName.mshr c g = g.mshr
  queue_of-HasAddress QueueName.inflight_writes c g = g.inflight_writes
  queue_of-HasAddress QueueName.wq c g = g.queues.wq
  queue_of-HasAddress QueueName.ptwq c g = g.queues.ptwq
  queue_of-HasAddress QueueName.rq c g = g.queues.rq
  queue_of-HasAddress QueueName.pq c g = g.queues.pq

  with_queue-IsReady :
      (q : QueueName) (ps : List Packet) (c : CacheState L M)
      → All HasAddress ps
      → IsReady ways c
      → IsReady ways (with_queue q ps c)
  unfolding with_queue
  with_queue-IsReady QueueName.mshr ps c a g = record {
    shaped = g.shaped;
    queues = g.queues;
    mshr = a;
    inflight_writes = g.inflight_writes;
    block = g.block;
  }
  with_queue-IsReady QueueName.inflight_writes ps c a g = record {
    shaped = g.shaped;
    queues = g.queues;
    mshr = g.mshr;
    inflight_writes = a;
    block = g.block;
  }
  with_queue-IsReady QueueName.wq ps c a g = record {
    shaped = g.shaped;
    queues = record { wq = a; ptwq = g.queues.ptwq; rq = g.queues.rq; pq = g.queues.pq };
    mshr = g.mshr;
    inflight_writes = g.inflight_writes;
    block = g.block;
  }
  with_queue-IsReady QueueName.ptwq ps c a g = record {
    shaped = g.shaped;
    queues = record { wq = g.queues.wq; ptwq = a; rq = g.queues.rq; pq = g.queues.pq };
    mshr = g.mshr;
    inflight_writes = g.inflight_writes;
    block = g.block;
  }
  with_queue-IsReady QueueName.rq ps c a g = record {
    shaped = g.shaped;
    queues = record { wq = g.queues.wq; ptwq = g.queues.ptwq; rq = a; pq = g.queues.pq };
    mshr = g.mshr;
    inflight_writes = g.inflight_writes;
    block = g.block;
  }
  with_queue-IsReady QueueName.pq ps c a g = record {
    shaped = g.shaped;
    queues = record { wq = g.queues.wq; ptwq = g.queues.ptwq; rq = g.queues.rq; pq = a };
    mshr = g.mshr;
    inflight_writes = g.inflight_writes;
    block = g.block;
  }

  module _ (func : Func L M) (ends : Ends func) where
    find_if_not-Returns :
        (q : QueueName) (left i : ℕ) (c : CacheState L M)
        → IsReady ways c
        → Returns ways (find_if_not q func left i c)
    unfolding find_if_not Ends
    find_if_not-Returns q zero i c g = ((i, c), refl, g)
    find_if_not-Returns q (suc left) i c g = elim (Option-cases (get_elem? (queue_of q c) i)) [
      | inl e ↦ ((i, c), rw (e, find_if_not) refl, g)
      | inr (pkt, e) ↦
          let v = All-get_elem? HasAddress (queue_of q c) i (queue_of-HasAddress q c g) e in
          let (r, runs, kept) = ends pkt c v g in
          let (next, rest, after) = find_if_not-Returns q left (suc i) r.1 kept in
          elim (Bool-cases r.0) [
            | inl yes_ ↦ (next, rw (e, find_if_not, runs, yes_) rest, after)
            | inr no_ ↦ ((i, r.1), rw (e, find_if_not, runs, no_) refl, kept)
          ]
    ]

    operate_queue-Returns :
        (q : QueueName) (sz : ℕ) (c : CacheState L M)
        → IsReady ways c
        → Returns ways (operate_queue q sz func c)
    unfolding operate_queue
    operate_queue-Returns q sz c g =
        let (r, runs, kept) = find_if_not-Returns q (span_size (length (queue_of q c)) sz) 0 c g in
        let left = drop r.0 (queue_of q r.1) in
        (
          (r.0, with_queue q left r.1),
          rw runs refl,
          with_queue-IsReady q left r.1
              (All-drop HasAddress r.0 (queue_of q r.1) (queue_of-HasAddress q r.1 kept)) kept,
        )

module _ (below : MemoryBelow) (modules : Modules) (ways : ℕ) where
  AllEnd : List (QueueName × Func below.State modules.State) → Type 0
  AllEnd [] = Unit
  AllEnd (q ∷ qs) = Ends ways q.1 × AllEnd qs

  operate_queues-returns :
      (qs : List (QueueName × Func below.State modules.State))
      → AllEnd qs
      → (bw : ℕ) (c : CacheState below.State modules.State) → IsReady ways c
      → (after : CacheState below.State modules.State) × (operate_queues below modules qs bw c
          ≡ some after)
        × IsReady ways after
  unfolding operate_queues AllEnd
  operate_queues-returns [] ends bw c g = (c, refl, g)
  operate_queues-returns (q ∷ qs) ends bw c g =
      let (r, runs, kept) = operate_queue-Returns ways q.1 ends.0 q.0 bw c g in
      let (after, rest, ready) = operate_queues-returns qs ends.1 (bw - r.0) r.1 kept in
      (after, rw runs rest, ready)

  module _ (policy : FindsVictim ways modules) (prefetcher : Prefetches modules)
      (answers : AnswersAddressed below) where
    operate_readlike-Ends : Ends ways (operate_readlike below modules)
    unfolding Ends operate_readlike
    operate_readlike-Ends pkt c v g = elim (Bool-cases (ready below modules c pkt)) [
      | inl e ↦
          let (r, runs, kept) = try_hit-Returns ways modules prefetcher pkt c g in
          elim (Bool-cases r.0) [
            | inl hit ↦ ((true, r.1), rw (e, runs, hit) refl, kept)
            | inr miss ↦
                let (after, missed, ready) =
                  handle_miss-Returns ways below answers pkt v r.1 kept in
                (after, rw (e, runs, miss) missed, ready)
          ]
      | inr e ↦ ((false, c), rw e refl, g)
    ]

    operate_writelike-Ends : Ends ways (operate_writelike below modules)
    unfolding Ends operate_writelike
    operate_writelike-Ends pkt c v g = elim (Bool-cases (ready below modules c pkt)) [
      | inl e ↦
          let (r, runs, kept) = try_hit-Returns ways modules prefetcher pkt c g in
          elim (Bool-cases r.0) [
            | inl hit ↦ ((true, r.1), rw (e, runs, hit) refl, kept)
            | inr miss ↦ (
              handle_write pkt r.1,
              rw (e, runs, miss) refl,
              handle_write-IsReady ways below answers pkt v r.1 kept,
            )
          ]
      | inr e ↦ ((false, c), rw e refl, g)
    ]

    wq_func-Ends :
        (b : Bool)
        → Ends ways (if b then operate_readlike below modules else operate_writelike below modules)
    wq_func-Ends true = operate_readlike-Ends
    wq_func-Ends false = operate_writelike-Ends

    do_fill-Ends : Ends ways (do_fill below modules)
    unfolding Ends do_fill
    do_fill-Ends pkt c v g = elim (Bool-cases (leb pkt.event_cycle c.current_cycle)) [
      | inl e ↦
          let (r, runs, kept) =
            handle_fill-Returns ways below modules policy prefetcher answers pkt v c g in
          (r, rw e runs, kept)
      | inr e ↦ ((false, c), rw e refl, g)
    ]

    -- In a cache with a power of two of sets that have all their ways, in which every queued
    -- request, miss, write in flight and valid block has an address; whose policy chooses a way
    -- of the set; whose prefetcher's hooks return and change the queues only by prefetch
    -- requests for addresses other than 0; and over a level below that answers every request
    -- that has an address: operate runs to its end, no assertion failing in its fills, its own
    -- prefetch queue or the level below, and the cache is such a cache after it.
    pub operate-total :
        (c : CacheState below.State modules.State)
        → IsReady ways c
        → (after : CacheState below.State modules.State) × (operate below modules c ≡ some after)
          × IsReady ways after
    unfolding operate AllEnd
    operate-total c g =
        let (filled, fill_runs, kept) =
          operate_queues-returns (fill_queues below modules) (do_fill-Ends, (do_fill-Ends, tt))
            c.max_fill c g in
        let (looked, runs, ready) =
          operate_queues-returns (tag_queues below modules filled.match_offset_bits)
            (
              wq_func-Ends filled.match_offset_bits,
              (operate_readlike-Ends, (operate_readlike-Ends, (operate_readlike-Ends, tt))),
            )
            filled.max_tag filled kept in
        let (hook, called, asked) =
          prefetcher.cycle_operate (looked.modules, looked.queues, looked.events) in
        (
          record looked { modules = hook.0; queues = hook.1; events = hook.2 },
          rw (fill_runs, runs, called) refl,
          record {
            shaped = ready.shaped;
            queues = Prefetched-QueuesAddressed asked ready.queues;
            mshr = ready.mshr;
            inflight_writes = ready.inflight_writes;
            block = ready.block;
          },
        )
