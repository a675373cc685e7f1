-- ===== src/CacheQueues/Waiting.antt =====
-- No requester is lost: who waits for a queued packet still does, or was answered.
use proba_artifact.Prelude.{
  ℕ, ◌≡◌, ◌⊎◌, inl, inr, sym, subst, List, [], ◌∷◌, ◌++◌, ltb, Bool-cases, arith, ltb-false→le,
  some,
}
use proba_artifact.CacheQueues.Packet.{Packet, set_union}
use proba_artifact.CacheQueues.Collision.{
  merge_packet, forward_packet, do_collision_for_return, checked_part, unchecked_part, checked,
  check_writes, check_reads,
}
use proba_artifact.CacheQueues.Loops.{
  Merges, merge-Merges, parts-append, merge_loop_inv, forward_loop_inv,
}
use proba_artifact.CacheQueues.Queues.{Queues, collide_wq, collide_rq, write_shamt, check_collision}

abbrev pub In : ℕ → List ℕ → Type 0
In a [] = ⊥
In a (x ∷ xs) = (a ≡ x) ⊎ In a xs

-- A packet of the list has the producer `r` to return to.
abbrev pub Waits : ℕ → List Packet → Type 0
Waits r [] = ⊥
Waits r (p ∷ ps) = In r p.to_return ⊎ Waits r ps

pub In-union : (a : ℕ) (xs ys : List ℕ) → In a xs ⊎ In a ys → In a (set_union xs ys)
unfolding set_union
In-union a [] ys (inl h) = elim h [ ]
In-union a [] ys (inr h) = h
In-union a (x ∷ xs) [] (inl h) = h
In-union a (x ∷ xs) [] (inr h) = elim h [ ]
In-union a (x ∷ xs) (y ∷ ys) h = elim (Bool-cases (ltb x y)) [
  | inl lt ↦ rw lt (elim h [
    | inl (inl e) ↦ inl e
    | inl (inr i) ↦ inr (In-union a xs (y ∷ ys) (inl i))
    | inr i ↦ inr (In-union a xs (y ∷ ys) (inr i))
  ])
  | inr ge ↦ elim (Bool-cases (ltb y x)) [
    | inl gt ↦
        rw (ge, gt)
          (elim h [
            | inl i ↦ inr (In-union a (x ∷ xs) ys (inl i))
            | inr (inl e) ↦ inl e
            | inr (inr i) ↦ inr (In-union a (x ∷ xs) ys (inr i))
          ])
    | inr le ↦
        rw (ge, le)
          (elim h [
            | inl (inl e) ↦ inl e
            | inl (inr i) ↦ inr (In-union a xs ys (inl i))
            | inr (inl e) ↦ inl (omega (arith, ltb-false→le x y ge, ltb-false→le y x le))
            | inr (inr i) ↦ inr (In-union a xs ys (inr i))
          ])
  ]
]

module _ (r : ℕ) where
  Waits-append : (ps qs : List Packet) → Waits r ps ⊎ Waits r qs → Waits r (ps ++ qs)
  Waits-append [] qs (inl h) = elim h [ ]
  Waits-append [] qs (inr h) = h
  Waits-append (p ∷ ps) qs (inl (inl h)) = inl h
  Waits-append (p ∷ ps) qs (inl (inr h)) = inr (Waits-append ps qs (inl h))
  Waits-append (p ∷ ps) qs (inr h) = inr (Waits-append ps qs (inr h))

  append-Waits : (ps qs : List Packet) → Waits r (ps ++ qs) → Waits r ps ⊎ Waits r qs
  append-Waits [] qs h = inr h
  append-Waits (p ∷ ps) qs (inl h) = inl (inl h)
  append-Waits (p ∷ ps) qs (inr h) = elim (append-Waits ps qs h) [
    | inl i ↦ inl (inr i)
    | inr i ↦ inr i
  ]

  -- Who waited in the range, or for the packet that went into it, waits in the new range.
  Merges-Waits :
      {shamt : ℕ} {p : Packet} {ps qs : List Packet}
      → Merges shamt p ps qs
      → Waits r ps ⊎ In r p.to_return
      → Waits r qs
  unfolding merge_packet
  Merges-Waits {p = p} m h = subst (Waits r) (sym m.is_now) (elim h [
    | inl w ↦ elim (append-Waits m.left (m.found ∷ m.right) (subst (Waits r) m.was w)) [
      | inl before ↦ Waits-append m.left _ (inl before)
      | inr (inl here) ↦
          Waits-append m.left (merge_packet p m.found ∷ m.right)
            (inr (inl (In-union r m.found.to_return p.to_return (inl here))))
      | inr (inr after) ↦ Waits-append m.left (merge_packet p m.found ∷ m.right) (inr (inr after))
    ]
    | inr i ↦
        Waits-append m.left (merge_packet p m.found ∷ m.right)
          (inr (inl (In-union r m.found.to_return p.to_return (inr i))))
  ])

  -- The answer goes to those who waited for the packet.
  answer-Waits :
      (shamt : ℕ) (p : Packet) (writes : List Packet) {answer : Packet}
      → do_collision_for_return shamt p writes ≡ some answer
      → answer.to_return ≡ p.to_return
  unfolding do_collision_for_return forward_packet
  answer-Waits shamt p [] h = absurd (cc)
  answer-Waits shamt p (w ∷ writes) {answer} h =
      ground (arith, answer-Waits shamt p writes {answer = answer})

  -- Before the iterator, from it on, or among the answers.
  abbrev Pending : List Packet → List Packet → List Packet → Type 0
  Pending before ps returned = (Waits r before ⊎ Waits r ps) ⊎ Waits r returned

  parts-Waits :
      (queue : List Packet)
      → Waits r queue
      → Waits r (checked_part queue) ⊎ Waits r (unchecked_part queue)
  parts-Waits queue h =
      append-Waits (checked_part queue) (unchecked_part queue)
        (subst (Waits r) (sym (parts-append queue)) h)

  checked-Waits :
      (before : List Packet) (p : Packet) → In r p.to_return → Waits r (before ++ checked p ∷ [])
  checked-Waits before p i = Waits-append before (checked p ∷ []) (inr (inl i))

  check_writes-Waits :
      (shamt : ℕ) (queue : List Packet) → Waits r queue → Waits r (check_writes shamt queue).queue
  unfolding check_writes
  check_writes-Waits shamt queue h =
      elim (merge_loop_inv shamt (λ before ps. Waits r before ⊎ Waits r ps)
        (λ before p ps qs e w. merged before p ps qs (merge-Merges shamt p before e) w)
        (λ before p ps e w. kept before p ps w) 0 (checked_part queue) (unchecked_part queue)
        (parts-Waits queue h)) [ inl w ↦ w | inr w ↦ elim w [ ] ]
    where
      merged :
          (before : List Packet) (p : Packet) (ps qs : List Packet)
          → Merges shamt p before qs
          → Waits r before ⊎ Waits r (p ∷ ps)
          → Waits r qs ⊎ Waits r ps
      merged before p ps qs m (inl w) = inl (Merges-Waits m (inl w))
      merged before p ps qs m (inr (inl i)) = inl (Merges-Waits m (inr i))
      merged before p ps qs m (inr (inr w)) = inr w

      kept :
          (before : List Packet) (p : Packet) (ps : List Packet)
          → Waits r before ⊎ Waits r (p ∷ ps)
          → Waits r (before ++ checked p ∷ []) ⊎ Waits r ps
      kept before p ps (inl w) = inl (Waits-append before (checked p ∷ []) (inl w))
      kept before p ps (inr (inl i)) = inl (checked-Waits before p i)
      kept before p ps (inr (inr w)) = inr w

  check_reads-Waits :
      (wshamt shamt : ℕ) (writes queue : List Packet)
      → Waits r queue
      → let c = check_reads wshamt shamt writes queue in Waits r c.queue ⊎ Waits r c.returned
  unfolding check_reads
  check_reads-Waits wshamt shamt writes queue h =
      elim (forward_loop_inv wshamt shamt writes Pending
        (λ before p ps returned answer e w.
          answered before p ps returned answer (answer-Waits wshamt p writes e) w)
        (λ before p ps returned qs e w.
          merged before p ps returned qs (merge-Merges shamt p before e) w)
        (λ before p ps returned e w. kept before p ps returned w) 0 [] (checked_part queue)
        (unchecked_part queue) (inl (parts-Waits queue h))) [
          | inl (inl w) ↦ inl w
          | inl (inr w) ↦ elim w [ ]
          | inr w ↦ inr w
        ]
    where
      answered :
          (before : List Packet) (p : Packet) (ps returned : List Packet) (answer : Packet)
          → answer.to_return ≡ p.to_return
          → Pending before (p ∷ ps) returned
          → Pending before ps (returned ++ answer ∷ [])
      answered before p ps returned answer e (inl (inl w)) = inl (inl w)
      answered before p ps returned answer e (inl (inr (inl i))) =
          inr (Waits-append returned (answer ∷ []) (inr (inl (subst (In r) (sym e) i))))
      answered before p ps returned answer e (inl (inr (inr w))) = inl (inr w)
      answered before p ps returned answer e (inr w) =
          inr (Waits-append returned (answer ∷ []) (inl w))

      merged :
          (before : List Packet) (p : Packet) (ps returned qs : List Packet)
          → Merges shamt p before qs
          → Pending before (p ∷ ps) returned
          → Pending qs ps returned
      merged before p ps returned qs m (inl (inl w)) = inl (inl (Merges-Waits m (inl w)))
      merged before p ps returned qs m (inl (inr (inl i))) = inl (inl (Merges-Waits m (inr i)))
      merged before p ps returned qs m (inl (inr (inr w))) = inl (inr w)
      merged before p ps returned qs m (inr w) = inr w

      kept :
          (before : List Packet) (p : Packet) (ps returned : List Packet)
          → Pending before (p ∷ ps) returned
          → Pending (before ++ checked p ∷ []) ps returned
      kept before p ps returned (inl (inl w)) =
          inl (inl (Waits-append before (checked p ∷ []) (inl w)))
      kept before p ps returned (inl (inr (inl i))) = inl (inl (checked-Waits before p i))
      kept before p ps returned (inl (inr (inr w))) = inl (inr w)
      kept before p ps returned (inr w) = inr w

-- The lists of packets that check_collision works on.
pub data Which : Type 0 where
  writes : Which
  reads : Which
  prefetches : Which
  answered : Which

abbrev pub packets : Which → Queues → List Packet
packets writes q = q.wq
packets reads q = q.rq
packets prefetches q = q.pq
packets answered q = q.returned

module _ (r : ℕ) (q : Queues) where
  -- The answers of the read queue's loop stay answers after the last loop.
  answers_stay : Waits r (collide_rq (collide_wq q)).returned → Waits r (check_collision q).returned
  unfolding check_collision
  answers_stay = λ w. Waits-append r _ _ (inl w)

  reads_wait : Waits r q.rq → Waits r (check_collision q).rq ⊎ Waits r (check_collision q).returned
  unfolding check_collision
  reads_wait w = elim (check_reads-Waits r (write_shamt q) q.offset_bits (collide_wq q).wq q.rq w) [
    | inl i ↦ inl i
    | inr i ↦ inr (Waits-append r _ _ (inl (Waits-append r q.returned _ (inr i))))
  ]

  prefetches_wait :
      Waits r q.pq → Waits r (check_collision q).pq ⊎ Waits r (check_collision q).returned
  unfolding check_collision
  prefetches_wait w =
      elim (check_reads-Waits r (write_shamt q) q.offset_bits (collide_wq q).wq q.pq w) [
        | inl i ↦ inl i
        | inr i ↦ inr (Waits-append r _ _ (inr i))
      ]

-- A producer that waits for a packet of a queue still waits for one of the same queue after
-- check_collision, or was answered; who was answered before it counts as answered after it.
pub check_collision-Waits :
    (r : ℕ) (queue : Which) (q : Queues)
    → Waits r (packets queue q)
    → Waits r (packets queue (check_collision q)) ⊎ Waits r (check_collision q).returned
unfolding check_collision
check_collision-Waits r writes q w = inl (check_writes-Waits r (write_shamt q) q.wq w)
check_collision-Waits r reads q w = reads_wait r q w
check_collision-Waits r prefetches q w = prefetches_wait r q w
check_collision-Waits r answered q w = inr (answers_stay r q (Waits-append r q.returned _ (inl w)))
