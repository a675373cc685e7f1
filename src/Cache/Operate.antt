-- ===== src/Cache/Operate.antt =====
-- `operate` of src/cache.cc: a cycle of the cache.
use proba_artifact.Prelude.{
  ℕ, zero, suc, ◌-◌, Bool, true, false, Option, none, some, List, [], ◌∷◌, leb, if◌then◌else◌,
  length, get_elem?, drop, ◌>>=◌,
}
use proba_artifact.CacheQueues.Packet.{Packet}
use proba_artifact.CacheQueues.Queues.{is_ready}
use proba_artifact.CacheQueues.Translating.{is_ready_translated}
use proba_artifact.Cache.State.{CacheState, MemoryBelow, Modules}
use proba_artifact.Cache.Hit.{try_hit}
use proba_artifact.Cache.Fill.{handle_fill}
use proba_artifact.Cache.Miss.{handle_miss, handle_write}

-- The queues that are drained.
pub data QueueName : Type 0 where
  mshr : QueueName
  inflight_writes : QueueName
  wq : QueueName
  ptwq : QueueName
  rq : QueueName
  pq : QueueName

-- What is done with a packet of a queue.
abbrev pub Func : Type 0 → Type 0 → Type 0
Func L M = Packet → CacheState L M → Option (Bool × CacheState L M)

-- `get_span` takes `sz` packets at most.
abbrev pub span_size : ℕ → ℕ → ℕ
span_size queue_size sz = if leb queue_size sz then queue_size else sz

module _ {L M : Type 0} where
  unfoldable pub queue_of : QueueName → CacheState L M → List Packet
  queue_of QueueName.mshr c = c.mshr
  queue_of QueueName.inflight_writes c = c.inflight_writes
  queue_of QueueName.wq c = c.queues.wq
  queue_of QueueName.ptwq c = c.queues.ptwq
  queue_of QueueName.rq c = c.queues.rq
  queue_of QueueName.pq c = c.queues.pq

  unfoldable pub with_queue : QueueName → List Packet → CacheState L M → CacheState L M
  with_queue QueueName.mshr ps c = record c { mshr = ps }
  with_queue QueueName.inflight_writes ps c = record c { inflight_writes = ps }
  with_queue QueueName.wq ps c = record c { queues = record c.queues { wq = ps } }
  with_queue QueueName.ptwq ps c = record c { queues = record c.queues { ptwq = ps } }
  with_queue QueueName.rq ps c = record c { queues = record c.queues { rq = ps } }
  with_queue QueueName.pq ps c = record c { queues = record c.queues { pq = ps } }

  -- The number of packets from index `i` on that `func` takes, of `left` at most. The queue is read
  -- again at each index, since the prefetcher may add to it.
  unfoldable pub find_if_not :
      QueueName → Func L M → ℕ → ℕ → CacheState L M → Option (ℕ × CacheState L M)
  unfolding queue_of
  find_if_not q func zero i c = some (i, c)
  find_if_not q func (suc left) i c = elim (get_elem? (queue_of q c) i) [
    | none ↦ some (i, c)
    | some pkt ↦ do
      (success, after) ← func pkt c
      let rest = find_if_not q func left (suc i) after
      if success then rest else some (i, after)
  ]

  unfoldable pub operate_queue :
      QueueName → ℕ → Func L M → CacheState L M → Option (ℕ × CacheState L M)
  unfolding find_if_not queue_of with_queue
  operate_queue q sz func c = do
    (retval, after) ← find_if_not q func (span_size (length (queue_of q c)) sz) 0 c
    some (retval, with_queue q (drop retval (queue_of q after)) after)

module _ (below : MemoryBelow) (modules : Modules) where
  abbrev pub State : Type 0
  State = CacheState below.State modules.State

  unfoldable pub do_fill : Packet → State → Option (Bool × State)
  do_fill x c =
      if leb x.event_cycle c.current_cycle then handle_fill below modules x c else some (false, c)

  abbrev pub ready : State → Packet → Bool
  ready c pkt = if c.translating then is_ready_translated c.queues pkt else is_ready c.queues pkt

  unfoldable pub operate_readlike : Packet → State → Option (Bool × State)
  operate_readlike pkt c =
      let looked = try_hit modules pkt c >>= λ (hit, tried).
      if hit then some (true, tried) else handle_miss below pkt tried in
      if ready c pkt then looked else some (false, c)

  unfoldable pub operate_writelike : Packet → State → Option (Bool × State)
  operate_writelike pkt c =
      let looked = try_hit modules pkt c >>= λ (hit, tried).
      some (if hit then (true, tried) else handle_write pkt tried) in
      if ready c pkt then looked else some (false, c)

  -- The loops over queues, each with the bandwidth that is left.
  unfoldable pub operate_queues :
      List (QueueName × Func below.State modules.State) → ℕ → State → Option State
  unfolding operate_queue
  operate_queues [] bw c = some c
  operate_queues (q ∷ qs) bw c = do
    (taken, after) ← operate_queue q.0 bw q.1 c
    operate_queues qs (bw - taken) after

  abbrev pub fill_queues : List (QueueName × Func below.State modules.State)
  fill_queues = (QueueName.mshr, do_fill) ∷ (QueueName.inflight_writes, do_fill) ∷ []

  abbrev pub tag_queues : Bool → List (QueueName × Func below.State modules.State)
  tag_queues match_offset_bits =
      (QueueName.wq, if match_offset_bits then operate_readlike else operate_writelike)
      ∷ (QueueName.ptwq, operate_readlike)
      ∷ (QueueName.rq, operate_readlike)
      ∷ (QueueName.pq, operate_readlike)
      ∷ []

  unfoldable pub operate : State → Option State
  unfolding operate_queues
  operate c = do
    filled ← operate_queues fill_queues c.max_fill c
    looked ← operate_queues (tag_queues filled.match_offset_bits) filled.max_tag filled
    (state, queues, events) ← modules.cycle_operate (looked.modules, looked.queues, looked.events)
    some (record looked { modules = state; queues = queues; events = events })
