-- ===== src/Tests/Queues.antt =====
-- The queues of a cache with a block of 64 bytes.
use proba_artifact.Prelude.{
  ℕ, ◌<◌, ◌≤◌, ◌≡◌, ◌⊎◌, inl, inr, refl, true, false, some, List, [], ◌∷◌, length, arith,
}
use proba_artifact.CacheQueues.Packet.{Packet, set_union}
use proba_artifact.CacheQueues.Collision.{
  merge_packet, do_collision_for_merge, do_collision_for_return, forward_packet, checked_part,
  merge_loop, forward_loop, check_writes, check_reads,
}
use proba_artifact.CacheQueues.Queues.{
  Queues, QueueStats, add_rq, do_add_queue, count, ready_cycle, check_collision, write_shamt,
}
use proba_artifact.CacheQueues.Translating.{Lower}
use proba_artifact.CacheQueues.Adding.{StandsIn, do_add_queue-result}
use proba_artifact.CacheQueues.Capacity.{Fits, Run, run-Fits}
use proba_artifact.CacheQueues.Waiting.{Which, Waits, check_collision-Waits}
use proba_artifact.CacheQueues.Distinct.{IsSettled, check_collision-IsSettled}

-- A read of the block at 0x1000.
abbrev request : Packet
request = record {
  scheduled = false;
  forward_checked = false;
  translate_issued = false;
  prefetch_from_this = false;
  fill_this_level = false;
  is_translated = true;
  from_prefetching = false;
  late_prefetch = false;
  asid = 0;
  type = 0;
  pf_metadata = 0;
  cpu = 0;
  address = 0x1000;
  v_address = 0x5000;
  content = 0;
  instr_id = 1;
  ip = 0x40_0000;
  event_cycle = 10;
  cycle_enqueued = 0;
  instr_depend_on_me = 1 ∷ [];
  to_return = 0x100 ∷ [];
  translation_level = 0;
  init_translation_level = 0;
}

abbrev other_request : Packet
other_request = record request {
  address = 0x1008;
  instr_depend_on_me = 2 ∷ [];
  to_return = 0x200 ∷ [];
}

abbrev no_stats : QueueStats
no_stats = record { access = 0; merged = 0; full = 0; to_cache = 0 }

abbrev empty : Queues
empty = record {
  rq = [];
  pq = [];
  wq = [];
  ptwq = [];
  rq_size = 1;
  pq_size = 1;
  wq_size = 1;
  ptwq_size = 1;
  hit_latency = 4;
  offset_bits = 6;
  match_offset_bits = false;
  current_cycle = 7;
  warmup = false;
  rq_stats = no_stats;
  pq_stats = no_stats;
  wq_stats = no_stats;
  ptwq_stats = no_stats;
  wq_forward = 0;
  returned = [];
}

abbrev one_read : Queues
one_read = record empty {
  rq = record request { fill_this_level = true; event_cycle = 11 } ∷ [];
  rq_stats = record no_stats { access = 1; to_cache = 1 };
}

first_read : add_rq request empty ≡ some (true, one_read)
unfolding add_rq do_add_queue count
first_read = refl

-- The queue holds one packet, and turns the second down.
second_read :
    add_rq other_request one_read
    ≡ some (
      false,
      record one_read { rq_stats = record { access = 2; merged = 0; full = 1; to_cache = 1 } },
    )
unfolding add_rq do_add_queue count
second_read = refl

abbrev accepting : Lower
accepting = record { State = ℕ; add_rq = λ p s. (true, s) }

run-Fits_example : Fits one_read
run-Fits_example =
    run-Fits accepting 0x300 12 {q = empty} (omega arith)
      (Run.adds_rq Run.start request true first_read)

do_add_queue-result_example :
    ((length one_read.rq < 1)
      × ((queue' : List Packet) × (do_add_queue one_read one_read.rq 1 request
            ≡ some (true, queue'))
          × StandsIn
              (record request {
                forward_checked = false;
                translate_issued = false;
                event_cycle = ready_cycle one_read;
              })
              one_read.rq
              queue'))
    ⊎ ((1 ≤ length one_read.rq)
        × (do_add_queue one_read one_read.rq 1 request ≡ some (false, one_read.rq)))
do_add_queue-result_example = do_add_queue-result one_read one_read.rq 1 request (omega arith)

-- Two reads of one block become one, which both producers wait for.
abbrev two_reads : Queues
two_reads = record empty { rq = request ∷ other_request ∷ []; rq_size = 2 }

reads_merge :
    (check_collision two_reads).rq
    ≡ record request {
      forward_checked = true;
      instr_depend_on_me = 1 ∷ 2 ∷ [];
      to_return = 0x100 ∷ 0x200 ∷ [];
    }
      ∷ []
unfolding check_collision check_writes check_reads merge_loop forward_loop do_collision_for_merge
    do_collision_for_return merge_packet set_union
reads_merge = refl

-- A read of a block that is to be written is answered with what the write holds.
read_answered :
    (check_collision (record two_reads { wq = record request { content = 42 } ∷ [] })).returned
    ≡ record request { content = 42 } ∷ record other_request { content = 42 } ∷ []
unfolding check_collision check_writes check_reads merge_loop forward_loop do_collision_for_merge
    do_collision_for_return merge_packet forward_packet set_union
read_answered = refl

check_collision-Waits_example :
    Waits 0x200 (check_collision two_reads).rq ⊎ Waits 0x200 (check_collision two_reads).returned
check_collision-Waits_example =
    check_collision-Waits 0x200 Which.reads two_reads (inr (inl (inl refl)))

check_collision-IsSettled_example :
    IsSettled (write_shamt two_reads) (check_collision two_reads).wq
    × IsSettled 6 (check_collision two_reads).rq
    × IsSettled 6 (check_collision two_reads).pq
unfolding checked_part
check_collision-IsSettled_example =
    check_collision-IsSettled two_reads tt ((refl, omega arith), ((refl, omega arith), tt)) tt tt tt
      tt
