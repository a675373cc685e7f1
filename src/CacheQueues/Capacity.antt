-- ===== src/CacheQueues/Capacity.antt =====
-- No queue grows past its size, and a request is turned down exactly when its queue is full.
use proba_artifact.Prelude.{
  ℕ, suc, ◌+◌, ◌≤◌, ◌≡◌, inl, inr, refl, ◌∙◌, ap, subst, Bool, false, some, List, [], ◌∷◌, length,
  length-append, Option-cases, arith, ◌>>=◌,
}
use mathlib.Core.List.{map}
use mathlib.Core.Option.{some_inj}
use proba_artifact.CacheQueues.Packet.{Packet}
use proba_artifact.CacheQueues.Collision.{
  merge_packet, checked_part, unchecked_part, checked, check_writes, check_reads,
}
use proba_artifact.CacheQueues.Loops.{Merges, merge-Merges, merge_loop_inv, forward_loop_inv}
use proba_artifact.CacheQueues.Queues.{
  Queues, insert_packet, ready_cycle, do_add_queue, add_rq, add_wq, add_pq, add_ptwq,
  check_collision,
}
use proba_artifact.CacheQueues.Translating.{
  Lower, issue_entry, do_issue_translation, issue_translation, stalled_part, moving_part,
  do_detect_misses, detect_misses, operate, return_data,
}

length-insert_packet :
    (p : Packet) (ps : List Packet) → length (insert_packet p ps) ≡ suc (length ps)
unfolding insert_packet
length-insert_packet p [] = refl
length-insert_packet p (x ∷ ps) = ground (arith, length-insert_packet p ps)

length-parts :
    (ps : List Packet) → length (checked_part ps) + length (unchecked_part ps) ≡ length ps
unfolding checked_part unchecked_part
length-parts [] = omega arith
length-parts (p ∷ ps) = ground (arith, length-parts ps)

length-Merges :
    {shamt : ℕ} {p : Packet} {ps qs : List Packet} → Merges shamt p ps qs → length qs ≡ length ps
length-Merges {p = p} {ps = ps} {qs = qs} m = omega (
  arith,
  ap (length {A = Packet}) m.was,
  ap (length {A = Packet}) m.is_now,
  length-append m.left (m.found ∷ m.right),
  length-append m.left (merge_packet p m.found ∷ m.right),
)

-- The packets before the iterator and from it on are no more than the queue had.
abbrev AtMost : ℕ → List Packet → List Packet → Type 0
AtMost n before ps = length before + length ps ≤ n

length-check_writes :
    (shamt : ℕ) (queue : List Packet) → length (check_writes shamt queue).queue ≤ length queue
unfolding check_writes
length-check_writes shamt queue = omega (
  arith,
  merge_loop_inv shamt (AtMost (length queue))
      (λ b p ps qs e h. omega (arith, length-Merges (merge-Merges shamt p b e)))
      (λ b p ps e h. omega (arith, length-append b (checked p ∷ []))) 0 (checked_part queue)
      (unchecked_part queue) (omega (arith, length-parts queue)),
)

length-check_reads :
    (write_shamt shamt : ℕ) (writes queue : List Packet)
    → length (check_reads write_shamt shamt writes queue).queue ≤ length queue
unfolding check_reads
length-check_reads write_shamt shamt writes queue = omega (
  arith,
  forward_loop_inv write_shamt shamt writes (λ b ps r. AtMost (length queue) b ps)
      (λ b p ps r a e h. omega arith)
      (λ b p ps r qs e h. omega (arith, length-Merges (merge-Merges shamt p b e)))
      (λ b p ps r e h. omega (arith, length-append b (checked p ∷ []))) 0 [] (checked_part queue)
      (unchecked_part queue) (omega (arith, length-parts queue)),
)

length-do_issue_translation :
    (lower : Lower) (this : ℕ) (ps : List Packet) (s : lower.State)
    → length (do_issue_translation lower this ps s).0 ≡ length ps
unfolding do_issue_translation
length-do_issue_translation lower this [] s = refl
length-do_issue_translation lower this (p ∷ ps) s =
    ap suc (length-do_issue_translation lower this ps (issue_entry lower this p s).1)

length-do_detect_misses :
    (cycle : ℕ) (ps : List Packet) → length (do_detect_misses cycle ps) ≡ length ps
unfolding do_detect_misses
length-do_detect_misses cycle ps =
    length-append (moving_part cycle ps) (stalled_part cycle ps) ∙ parts ps
  where
    parts :
        (ps : List Packet)
        → length (moving_part cycle ps) + length (stalled_part cycle ps) ≡ length ps
    parts [] = omega arith
    parts (p ∷ ps) = ground (arith, parts ps)

length-map : (f : Packet → Packet) (ps : List Packet) → length (map f ps) ≡ length ps
length-map f [] = refl
length-map f (p ∷ ps) = ap suc (length-map f ps)

-- No queue holds more than its size.
pub record Fits (q : Queues) : Type 0 where
  pub rq : length q.rq ≤ q.rq_size
  pub wq : length q.wq ≤ q.wq_size
  pub pq : length q.pq ≤ q.pq_size
  pub ptwq : length q.ptwq ≤ q.ptwq_size

-- Any calls of the queues' operations, in any order, over any level below.
pub data Run (lower : Lower) (this log2_page_size : ℕ) (q₀ : Queues) : Queues → Type 1 where
  start : Run lower this log2_page_size q₀ q₀
  adds_rq :
      {q q' : Queues}
      → Run lower this log2_page_size q₀ q
      → (p : Packet) (result : Bool) → add_rq p q ≡ some (result, q')
      → Run lower this log2_page_size q₀ q'
  adds_wq :
      {q q' : Queues}
      → Run lower this log2_page_size q₀ q
      → (p : Packet) (result : Bool) → add_wq p q ≡ some (result, q')
      → Run lower this log2_page_size q₀ q'
  adds_pq :
      {q q' : Queues}
      → Run lower this log2_page_size q₀ q
      → (p : Packet) (result : Bool) → add_pq p q ≡ some (result, q')
      → Run lower this log2_page_size q₀ q'
  adds_ptwq :
      {q q' : Queues}
      → Run lower this log2_page_size q₀ q
      → (p : Packet) (result : Bool) → add_ptwq p q ≡ some (result, q')
      → Run lower this log2_page_size q₀ q'
  checks :
      {q : Queues}
      → Run lower this log2_page_size q₀ q
      → Run lower this log2_page_size q₀ (check_collision q)
  operates :
      {q : Queues}
      → Run lower this log2_page_size q₀ q
      → (s : lower.State) → Run lower this log2_page_size q₀ (operate lower this q s).0
  returns :
      {q : Queues}
      → Run lower this log2_page_size q₀ q
      → (p : Packet) → Run lower this log2_page_size q₀ (return_data log2_page_size p q)

-- One queue after an addition.
length-do_add_queue :
    (q : Queues) (queue : List Packet) (size : ℕ) (p : Packet) {result : Bool}
    {queue' : List Packet}
    → do_add_queue q queue size p ≡ some (result, queue')
    → length queue ≤ size
    → length queue' ≤ size
unfolding do_add_queue
length-do_add_queue q queue size p {queue' = queue'} h fits = ground (
  arith,
  length-insert_packet
      (record p { forward_checked = false; translate_issued = false; event_cycle = ready_cycle q })
      queue,
)

check_collision-Fits : {q : Queues} → Fits q → Fits (check_collision q)
unfolding check_collision
check_collision-Fits {q} f = record {
  rq = omega (arith, f.rq, length-check_reads);
  wq = omega (arith, f.wq, length-check_writes);
  pq = omega (arith, f.pq, length-check_reads);
  ptwq = f.ptwq;
}

detect_misses-Fits : {q : Queues} → Fits q → Fits (detect_misses q)
unfolding detect_misses
detect_misses-Fits f = record {
  rq = omega (arith, f.rq, length-do_detect_misses);
  wq = omega (arith, f.wq, length-do_detect_misses);
  pq = omega (arith, f.pq, length-do_detect_misses);
  ptwq = f.ptwq;
}

issue_translation-Fits :
    (lower : Lower) (this : ℕ) {q : Queues} (s : lower.State)
    → Fits q
    → Fits (issue_translation lower this q s).0
unfolding issue_translation
issue_translation-Fits lower this s f = record {
  rq = omega (arith, f.rq, length-do_issue_translation lower this);
  wq = omega (arith, f.wq, length-do_issue_translation lower this);
  pq = omega (arith, f.pq, length-do_issue_translation lower this);
  ptwq = f.ptwq;
}

return_data-Fits :
    (log2_page_size : ℕ) (p : Packet) {q : Queues} → Fits q → Fits (return_data log2_page_size p q)
unfolding return_data
return_data-Fits log2_page_size p f = record {
  rq = omega (arith, f.rq, length-map);
  wq = omega (arith, f.wq, length-map);
  pq = omega (arith, f.pq, length-map);
  ptwq = f.ptwq;
}

-- An addition that puts one queue back keeps all within their sizes, if it does so for any queue that
-- fits.
added-Fits :
    (q : Queues) (queue : List Packet) (size : ℕ) (p : Packet) (put : Bool → List Packet → Queues)
    {result : Bool} {q' : Queues}
    → ((r : Bool) (queue' : List Packet) → length queue' ≤ size → Fits (put r queue'))
    → length queue ≤ size
    → ◌>>=◌ {B = Bool × Queues} (do_add_queue q queue size p) (λ x. some (x.0, put x.0 x.1))
      ≡ some (result, q')
    → Fits q'
added-Fits q queue size p put fits small h = elim (Option-cases (do_add_queue q queue size p)) [
  | inl e ↦ absurd (cc (rw e at h))
  | inr ((r, queue'), e) ↦
      subst (λ (x : Bool × Queues). Fits x.1) (some_inj.0 (rw e at h))
        (fits r queue' (length-do_add_queue q queue size p e small))
]

module _ {q q' : Queues} (p : Packet) {result : Bool} (f : Fits q) where
  add_rq-Fits : add_rq p q ≡ some (result, q') → Fits q'
  unfolding add_rq
  add_rq-Fits =
      added-Fits q q.rq q.rq_size _ _
        (λ r queue h. record { rq = h; wq = f.wq; pq = f.pq; ptwq = f.ptwq }) f.rq

  add_wq-Fits : add_wq p q ≡ some (result, q') → Fits q'
  unfolding add_wq
  add_wq-Fits =
      added-Fits q q.wq q.wq_size _ _
        (λ r queue h. record { rq = f.rq; wq = h; pq = f.pq; ptwq = f.ptwq }) f.wq

  add_pq-Fits : add_pq p q ≡ some (result, q') → Fits q'
  unfolding add_pq
  add_pq-Fits =
      added-Fits q q.pq q.pq_size _ _
        (λ r queue h. record { rq = f.rq; wq = f.wq; pq = h; ptwq = f.ptwq }) f.pq

  add_ptwq-Fits : add_ptwq p q ≡ some (result, q') → Fits q'
  unfolding add_ptwq
  add_ptwq-Fits =
      added-Fits q q.ptwq q.ptwq_size _ _
        (λ r queue h. record { rq = f.rq; wq = f.wq; pq = f.pq; ptwq = h }) f.ptwq

operate-Fits :
    (lower : Lower) (this : ℕ) {q : Queues} (s : lower.State)
    → Fits q
    → Fits (operate lower this q s).0
unfolding operate
operate-Fits lower this s f =
    detect_misses-Fits (issue_translation-Fits lower this s (check_collision-Fits f))

-- In every run of the queues' operations that starts within the sizes, in any order, with any
-- packets, and over any level below, no queue holds more than its size.
pub run-Fits :
    (lower : Lower) (this log2_page_size : ℕ) {q q' : Queues}
    → Fits q
    → Run lower this log2_page_size q q'
    → Fits q'
run-Fits lower this log2_page_size f start = f
run-Fits lower this log2_page_size f (adds_rq r p result h) =
    add_rq-Fits p (run-Fits lower this log2_page_size f r) h
run-Fits lower this log2_page_size f (adds_wq r p result h) =
    add_wq-Fits p (run-Fits lower this log2_page_size f r) h
run-Fits lower this log2_page_size f (adds_pq r p result h) =
    add_pq-Fits p (run-Fits lower this log2_page_size f r) h
run-Fits lower this log2_page_size f (adds_ptwq r p result h) =
    add_ptwq-Fits p (run-Fits lower this log2_page_size f r) h
run-Fits lower this log2_page_size f (checks r) =
    check_collision-Fits (run-Fits lower this log2_page_size f r)
run-Fits lower this log2_page_size f (operates r s) =
    operate-Fits lower this s (run-Fits lower this log2_page_size f r)
run-Fits lower this log2_page_size f (returns r p) =
    return_data-Fits log2_page_size p (run-Fits lower this log2_page_size f r)
