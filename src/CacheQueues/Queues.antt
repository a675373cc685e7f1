-- ===== src/CacheQueues/Queues.antt =====
-- The struct NonTranslatingQueues of inc/cache.h: requests are added, and checked for collisions in
-- each cycle. `none` is an assertion that fails.
use proba_artifact.Prelude.{
  ℕ, ◌+◌, ◌%◌, ◌^◌, Bool, true, false, not, ◌&&◌, Option, some, List, [], ◌∷◌, ◌++◌, ◌==◌, leb,
  if◌then◌else◌, length, assert, ◌>>=◌, ◌>>◌,
}
use proba_artifact.CacheQueues.Packet.{Packet, is_valid, uint64_max}
use proba_artifact.CacheQueues.Collision.{check_writes, check_reads}

-- cache_queue_stats, one for each queue.
pub record QueueStats : Type 0 where
  pub access : ℕ
  pub merged : ℕ
  pub full : ℕ
  pub to_cache : ℕ

pub record Queues : Type 0 where
  pub rq : List Packet
  pub pq : List Packet
  pub wq : List Packet
  pub ptwq : List Packet
  pub rq_size : ℕ
  pub pq_size : ℕ
  pub wq_size : ℕ
  pub ptwq_size : ℕ
  pub hit_latency : ℕ
  pub offset_bits : ℕ
  pub match_offset_bits : Bool
  pub current_cycle : ℕ
  pub warmup : Bool
  pub rq_stats : QueueStats
  pub pq_stats : QueueStats
  pub wq_stats : QueueStats
  pub ptwq_stats : QueueStats
  pub wq_forward : ℕ
  -- The packets that writes answered, in order: `return_data` of each producer in `to_return` is
  -- called with it.
  pub returned : List Packet

-- `packet` stands ahead of the translation misses.
unfoldable pub insert_packet : Packet → List Packet → List Packet
insert_packet packet [] = packet ∷ []
insert_packet packet (p ∷ ps) =
    if p.event_cycle == uint64_max then packet ∷ p ∷ ps else p ∷ insert_packet packet ps

unfoldable pub ready_cycle : Queues → ℕ
ready_cycle q = (q.current_cycle + (if q.warmup then 0 else q.hit_latency)) % 2 ^ 64

unfoldable pub do_add_queue : Queues → List Packet → ℕ → Packet → Option (Bool × List Packet)
unfolding ready_cycle insert_packet
do_add_queue q queue queue_size packet = do
  assert (is_valid packet)
  let fwd_pkt = record packet {
    forward_checked = false;
    translate_issued = false;
    event_cycle = ready_cycle q;
  }
  some (
      if leb queue_size (length queue) then (false, queue) else (true, insert_packet fwd_pkt queue))

abbrev pub is_physical : Packet → Bool
is_physical p = not (p.v_address == p.address) && is_valid p

unfoldable pub count : Bool → QueueStats → QueueStats
count result stats =
    if result
    then record stats { access = stats.access + 1; to_cache = stats.to_cache + 1 }
    else record stats { access = stats.access + 1; full = stats.full + 1 }

unfoldable pub add_rq : Packet → Queues → Option (Bool × Queues)
add_rq packet q = do
  let fwd_pkt = record packet { fill_this_level = true; is_translated = is_physical packet }
  (result, queue) ← do_add_queue q q.rq q.rq_size fwd_pkt
  some (result, record q { rq = queue; rq_stats = count result q.rq_stats })

unfoldable pub add_wq : Packet → Queues → Option (Bool × Queues)
add_wq packet q = do
  let fwd_pkt = record packet { fill_this_level = true; is_translated = is_physical packet }
  (result, queue) ← do_add_queue q q.wq q.wq_size fwd_pkt
  some (result, record q { wq = queue; wq_stats = count result q.wq_stats })

unfoldable pub add_pq : Packet → Queues → Option (Bool × Queues)
add_pq packet q = do
  let fwd_pkt = record packet { is_translated = is_physical packet }
  (result, queue) ← do_add_queue q q.pq q.pq_size fwd_pkt
  some (result, record q { pq = queue; pq_stats = count result q.pq_stats })

unfoldable pub add_ptwq : Packet → Queues → Option (Bool × Queues)
add_ptwq packet q = do
  let fwd_pkt = record packet { fill_this_level = true; is_translated = true }
  (result, queue) ← do_add_queue q q.ptwq q.ptwq_size fwd_pkt
  some (result, record q { ptwq = queue; ptwq_stats = count result q.ptwq_stats })

unfoldable pub write_shamt : Queues → ℕ
write_shamt q = if q.match_offset_bits then 0 else q.offset_bits

-- The three loops of `check_collision`; each sees the write queue as the first left it.
unfoldable pub collide_wq : Queues → Queues
unfolding write_shamt
collide_wq q =
    let w = check_writes (write_shamt q) q.wq in
    record q {
      wq = w.queue;
      wq_stats = record q.wq_stats { merged = q.wq_stats.merged + w.merged };
    }

unfoldable pub collide_rq : Queues → Queues
unfolding write_shamt
collide_rq q =
    let r = check_reads (write_shamt q) q.offset_bits q.wq q.rq in
    record q {
      rq = r.queue;
      rq_stats = record q.rq_stats { merged = q.rq_stats.merged + r.merged };
      wq_forward = q.wq_forward + length r.returned;
      returned = q.returned ++ r.returned;
    }

unfoldable pub collide_pq : Queues → Queues
unfolding write_shamt
collide_pq q =
    let p = check_reads (write_shamt q) q.offset_bits q.wq q.pq in
    record q {
      pq = p.queue;
      pq_stats = record q.pq_stats { merged = q.pq_stats.merged + p.merged };
      wq_forward = q.wq_forward + length p.returned;
      returned = q.returned ++ p.returned;
    }

-- Also `operate` of the queues that do not translate.
unfoldable pub check_collision : Queues → Queues
unfolding collide_wq collide_rq collide_pq
check_collision q = collide_pq (collide_rq (collide_wq q))

unfoldable pub is_ready : Queues → Packet → Bool
is_ready q p = leb p.event_cycle q.current_cycle
