-- ===== src/CacheQueues/Adding.antt =====
-- Where a request is queued, and when it is turned down.
use proba_artifact.Prelude.{
  ℕ, ◌<◌, ◌≡◌, ◌≢◌, ◌≤◌, ◌⊎◌, inl, inr, refl, ap, true, false, some, List, [], ◌∷◌, ◌++◌, length,
  leb, arith, All, Bool-cases, ◌==◌, ==→eq, ==-false→ne, ne→==-false,
}
use proba_artifact.CacheQueues.Packet.{Packet, uint64_max}
use proba_artifact.CacheQueues.Queues.{Queues, insert_packet, ready_cycle, do_add_queue}

-- The part from the first translation miss on.
abbrev pub StartsStalled : List Packet → Type 0
StartsStalled [] = Unit
StartsStalled (p ∷ ps) = p.event_cycle ≡ uint64_max

-- `new` stands in `queue'` ahead of the first translation miss of `queue`.
abbrev pub StandsIn : Packet → List Packet → List Packet → Type 0
StandsIn new queue queue' =
    (left : List Packet) × (right : List Packet) × (queue ≡ left ++ right)
    × (queue' ≡ left ++ new ∷ right)
    × All (λ (p : Packet). p.event_cycle ≢ uint64_max) left
    × StartsStalled right

insert_packet-StandsIn : (new : Packet) (ps : List Packet) → StandsIn new ps (insert_packet new ps)
unfolding insert_packet
insert_packet-StandsIn new [] = ([], [], refl, refl, tt, tt)
insert_packet-StandsIn new (p ∷ ps) = elim (Bool-cases (p.event_cycle == uint64_max)) [
  | inl e ↦ ([], p ∷ ps, refl, rw e refl, tt, ==→eq _ _ e)
  | inr e ↦
      let (left, right, was, is_now, before, after) = insert_packet-StandsIn new ps in
      (
        p ∷ left,
        right,
        ap (◌∷◌ p) was,
        rw e (ap (◌∷◌ p) is_now),
        (==-false→ne _ _ e, before),
        after,
      )
]

-- A packet with an address is taken exactly when its queue has room; then it stands, unchecked,
-- with no translation issued and ready after the latency, ahead of the first translation miss,
-- and the other packets stay in order; otherwise it is turned down and the queue stays.
pub do_add_queue-result :
    (q : Queues) (queue : List Packet) (size : ℕ) (packet : Packet)
    → packet.address ≢ 0
    → ((length queue < size)
        × ((queue' : List Packet) × (do_add_queue q queue size packet ≡ some (true, queue'))
            × StandsIn
                (record packet {
                  forward_checked = false;
                  translate_issued = false;
                  event_cycle = ready_cycle q;
                })
                queue
                queue'))
      ⊎ ((size ≤ length queue) × (do_add_queue q queue size packet ≡ some (false, queue)))
unfolding do_add_queue
do_add_queue-result q queue size packet valid =
    let nonzero = ne→==-false packet.address 0 valid in
    elim (Bool-cases (leb size (length queue))) [
      | inl full ↦ inr (ground (arith, full), rw (nonzero, full) refl)
      | inr room ↦ inl (
        ground (arith, room),
        (
          insert_packet
              (record packet {
                forward_checked = false;
                translate_issued = false;
                event_cycle = ready_cycle q;
              })
              queue,
          rw (nonzero, room) refl,
          insert_packet-StandsIn _ queue,
        ),
      )
    ]
