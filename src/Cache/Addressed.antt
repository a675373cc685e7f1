-- ===== src/Cache/Addressed.antt =====
-- The assertion of `do_add_queue`, that a packet has an address, in the calls that a cache makes: of
-- its own prefetch queue, through the prefetcher, and of the level below.
use proba_artifact.Prelude.{
  ℕ, ◌≡◌, ◌≢◌, inl, inr, refl, sym, subst, ◌∙◌, Bool, true, false, some, List, [], ◌∷◌, leb, ◌==◌,
  length, All, Bool-cases, >>=-some, ne→==-false,
}
use mathlib.Core.Option.{some_inj}
use proba_artifact.CacheQueues.Packet.{Packet, uint64_max}
use proba_artifact.CacheQueues.Queues.{
  Queues, insert_packet, ready_cycle, do_add_queue, is_physical,
}
use proba_artifact.CacheQueues.Queues
use proba_artifact.Cache.State.{Event, MemoryBelow, Modules}

abbrev pub HasAddress : Packet → Type 0
HasAddress p = p.address ≢ 0

-- All requests of the queues have an address.
pub record QueuesAddressed (q : Queues) : Type 0 where
  pub wq : All HasAddress q.wq
  pub ptwq : All HasAddress q.ptwq
  pub rq : All HasAddress q.rq
  pub pq : All HasAddress q.pq

-- What calls of `prefetch_line` for addresses other than 0 make of the queues.
pub data Prefetched : Queues → Queues → Type 0 where
  done : (q : Queues) → Prefetched q q
  next :
      {q q' q'' : Queues} {success : Bool} (p : Packet)
      → HasAddress p
      → Queues.add_pq p q ≡ some (success, q')
      → Prefetched q' q''
      → Prefetched q q''

insert_packet-HasAddress :
    (p : Packet) (ps : List Packet)
    → HasAddress p
    → All HasAddress ps
    → All HasAddress (insert_packet p ps)
unfolding insert_packet
insert_packet-HasAddress p [] v h = (v, tt)
insert_packet-HasAddress p (x ∷ xs) v h = elim (Bool-cases (x.event_cycle == uint64_max)) [
  | inl e ↦ rw e (v, h)
  | inr e ↦ rw e (h.0, insert_packet-HasAddress p xs v h.1)
]

do_add_queue-HasAddress :
    (q : Queues) (queue : List Packet) (size : ℕ) (p : Packet)
    → HasAddress p
    → All HasAddress queue
    → (r : Bool × List Packet) × (do_add_queue q queue size p ≡ some r) × All HasAddress r.1
unfolding do_add_queue
do_add_queue-HasAddress q queue size p v h =
    let nonzero = ne→==-false p.address 0 v in
    elim (Bool-cases (leb size (length queue))) [
      | inl full ↦ ((false, queue), rw (nonzero, full) refl, h)
      | inr room ↦
          let queued = record p {
            forward_checked = false;
            translate_issued = false;
            event_cycle = ready_cycle q;
          } in
          (
            (true, insert_packet queued queue),
            rw (nonzero, room) refl,
            insert_packet-HasAddress queued queue v h,
          )
    ]

add_pq-QueuesAddressed :
    {q q' : Queues} {success : Bool} (p : Packet)
    → HasAddress p
    → Queues.add_pq p q ≡ some (success, q')
    → QueuesAddressed q
    → QueuesAddressed q'
unfolding Queues.add_pq
add_pq-QueuesAddressed {q} p v runs a =
    let (r, ran, addressed) =
      do_add_queue-HasAddress q q.pq q.pq_size (record p { is_translated = is_physical p }) v
        a.pq in
    let (k, taken, ends) = >>=-some (do_add_queue q q.pq q.pq_size _) _ runs in
    let same : r ≡ k = some_inj.0 (sym ran ∙ taken) in
    subst (λ (o : Bool × Queues). QueuesAddressed o.1) (some_inj.0 ends)
      (record {
        wq = a.wq;
        ptwq = a.ptwq;
        rq = a.rq;
        pq = subst (λ (o : Bool × List Packet). All HasAddress o.1) same addressed;
      })

pub Prefetched-QueuesAddressed :
    {q q' : Queues} → Prefetched q q' → QueuesAddressed q → QueuesAddressed q'
Prefetched-QueuesAddressed (Prefetched.done q) a = a
Prefetched-QueuesAddressed (Prefetched.next p v runs rest) a =
    Prefetched-QueuesAddressed rest (add_pq-QueuesAddressed p v runs a)

-- The prefetcher calls `prefetch_line` for no address 0.
pub record Prefetches (modules : Modules) : Type 0 where
  pub cache_operate :
      (address ip : ℕ) (hit useful : Bool) (type metadata : ℕ)
      (s : modules.State × Queues × List Event)
      → (r : ℕ × modules.State × Queues × List Event) × (modules.cache_operate address ip hit useful
            type metadata s
          ≡ some r)
        × Prefetched s.1 r.2
  pub cache_fill :
      (address index way : ℕ) (prefetch : Bool) (evicted metadata : ℕ)
      (s : modules.State × Queues × List Event)
      → (r : ℕ × modules.State × Queues × List Event) × (modules.cache_fill address index way
            prefetch evicted metadata s
          ≡ some r)
        × Prefetched s.1 r.2
  pub cycle_operate :
      (s : modules.State × Queues × List Event)
      → (r : modules.State × Queues × List Event) × (modules.cycle_operate s ≡ some r)
        × Prefetched s.1 r.1

-- The level below answers a request that has an address.
pub record AnswersAddressed (below : MemoryBelow) : Type 0 where
  pub add_rq :
      (p : Packet) (s : below.State)
      → HasAddress p
      → (r : Bool × below.State) × (below.add_rq p s ≡ some r)
  pub add_wq :
      (p : Packet) (s : below.State)
      → HasAddress p
      → (r : Bool × below.State) × (below.add_wq p s ≡ some r)
  pub add_pq :
      (p : Packet) (s : below.State)
      → HasAddress p
      → (r : Bool × below.State) × (below.add_pq p s ≡ some r)
