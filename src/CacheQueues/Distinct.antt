-- ===== src/CacheQueues/Distinct.antt =====
-- After the loops of `check_collision`, translated requests are for different blocks.
use mathlib.Core.List.{map}
use proba_artifact.Prelude.{
  ℕ, ◌/◌, ◌^◌, ◌≡◌, ◌≢◌, inl, inr, refl, sym, ◌∙◌, ap, subst, true, false, none, some, List, [],
  ◌∷◌, ◌++◌, All, All-append, Bool-cases, Option-cases, arith,
}
use proba_artifact.CacheQueues.Packet.{Packet, eq_addr}
use proba_artifact.CacheQueues.Collision.{
  merge_packet, do_collision_for_merge, checked_part, unchecked_part, checked, check_writes,
  check_reads,
}
use proba_artifact.CacheQueues.Loops.{
  Merges, merge-Merges, parts-append, merge_loop_inv, forward_loop_inv,
}
use proba_artifact.CacheQueues.Queues.{Queues, collide_wq, check_collision, write_shamt}

abbrev pub NoRepeat : List ℕ → Type 0
NoRepeat [] = Unit
NoRepeat (x ∷ xs) = All (λ (y : ℕ). x ≢ y) xs × NoRepeat xs

abbrev pub block : ℕ → Packet → ℕ
block shamt p = p.address / 2 ^ shamt

abbrev pub blocks : ℕ → List Packet → List ℕ
blocks shamt ps = map (block shamt) ps

-- A packet with an address that has been translated.
abbrev pub IsTranslated : Packet → Type 0
IsTranslated p = (p.is_translated ≡ true) × (p.address ≢ 0)

pub map-append : (f : Packet → ℕ) (ps qs : List Packet) → map f (ps ++ qs) ≡ map f ps ++ map f qs
map-append f [] qs = refl
map-append f (p ∷ ps) qs = ap (◌∷◌ (f p)) (map-append f ps qs)

pub NoRepeat-snoc :
    (xs : List ℕ) (x : ℕ) → NoRepeat xs → All (λ (y : ℕ). x ≢ y) xs → NoRepeat (xs ++ x ∷ [])
NoRepeat-snoc [] x h a = (tt, tt)
NoRepeat-snoc (y ∷ ys) x h a =
    (All-append (λ z. y ≢ z) ys (x ∷ []) h.0 (λ e. a.0 (sym e), tt), NoRepeat-snoc ys x h.1 a.1)

after_other :
    (shamt : ℕ) (p x : Packet) (ps : List Packet)
    → eq_addr p.address shamt x ≡ false
    → do_collision_for_merge shamt p (x ∷ ps) ≡ none
    → do_collision_for_merge shamt p ps ≡ none
unfolding do_collision_for_merge
after_other shamt p x ps e h = elim (Option-cases (do_collision_for_merge shamt p ps)) [
  | inl none_later ↦ none_later
  | inr (qs, later) ↦ absurd (cc (rw (e, later) at h))
]

-- A translated packet that met no other is for a block of its own.
met_none :
    (shamt : ℕ) (p : Packet) (ps : List Packet)
    → do_collision_for_merge shamt p ps ≡ none
    → IsTranslated p
    → All IsTranslated ps
    → All (λ (y : ℕ). block shamt p ≢ y) (blocks shamt ps)
unfolding do_collision_for_merge
met_none shamt p [] h t ts = tt
met_none shamt p (x ∷ ps) h t ts = elim (Bool-cases (eq_addr p.address shamt x)) [
  | inl e ↦ absurd (ground (arith, t.0, ts.0.0, e))
  | inr e ↦ (
    λ same. ground (arith, ts.0.1, e, same),
    met_none shamt p ps (after_other shamt p x ps e h) t ts.1,
  )
]

append-All : (P : Packet → Type 0) (ps qs : List Packet) → All P (ps ++ qs) → All P ps × All P qs
append-All P [] qs h = (tt, h)
append-All P (p ∷ ps) qs h = let (left, right) = append-All P ps qs h.1 in ((h.0, left), right)

checked_part-All :
    (queue : List Packet) → All (λ (p : Packet). p.forward_checked ≡ true) (checked_part queue)
unfolding checked_part
checked_part-All [] = tt
checked_part-All (p ∷ ps) = elim (Bool-cases p.forward_checked) [
  | inl e ↦ simp e (refl, checked_part-All ps)
  | inr e ↦ simp e tt
]

module _ (shamt : ℕ) where
  -- What the loops keep.
  record Apart (before ps : List Packet) : Type 0 where
    before_translated : All IsTranslated before
    rest_translated : All IsTranslated ps
    before_checked : All (λ p. p.forward_checked ≡ true) before
    no_repeat : NoRepeat (blocks shamt before)

  module _ {p : Packet} {ps qs : List Packet} (m : Merges shamt p ps qs) where
    Merges-blocks : blocks shamt qs ≡ blocks shamt ps
    unfolding merge_packet
    Merges-blocks =
        ap (blocks shamt) m.is_now
        ∙ map-append (block shamt) m.left (merge_packet p m.found ∷ m.right)
        ∙ sym (map-append (block shamt) m.left (m.found ∷ m.right))
        ∙ sym (ap (blocks shamt) m.was)

    Merges-All :
        (P : Packet → Type 0) → ((f : Packet) → P f → P (merge_packet p f)) → All P ps → All P qs
    Merges-All P keep h =
        let (left, rest) = append-All P m.left (m.found ∷ m.right) (subst (All P) m.was h) in
        subst (All P) (sym m.is_now) (
          All-append P m.left (merge_packet p m.found ∷ m.right) left (keep m.found rest.0, rest.1))

  merge-IsTranslated : (p f : Packet) → IsTranslated f → IsTranslated (merge_packet p f)
  unfolding merge_packet
  merge-IsTranslated p f h = h

  merge-checked :
      (p f : Packet) → f.forward_checked ≡ true → (merge_packet p f).forward_checked ≡ true
  unfolding merge_packet
  merge-checked p f h = h

  merges :
      (before : List Packet) (p : Packet) (ps qs : List Packet)
      → do_collision_for_merge shamt p before ≡ some qs
      → Apart before (p ∷ ps)
      → Apart qs ps
  merges before p ps qs e a =
      let m = merge-Merges shamt p before e in
      record {
        before_translated = Merges-All m IsTranslated (merge-IsTranslated p) a.before_translated;
        rest_translated = a.rest_translated.1;
        before_checked =
            Merges-All m (λ f. f.forward_checked ≡ true) (merge-checked p) a.before_checked;
        no_repeat = subst NoRepeat (sym (Merges-blocks m)) a.no_repeat;
      }

  keeps :
      (before : List Packet) (p : Packet) (ps : List Packet)
      → do_collision_for_merge shamt p before ≡ none
      → Apart before (p ∷ ps)
      → Apart (before ++ checked p ∷ []) ps
  keeps before p ps e a =
      let t = a.rest_translated.0 in
      record {
        before_translated =
            All-append IsTranslated before (checked p ∷ []) a.before_translated (t, tt);
        rest_translated = a.rest_translated.1;
        before_checked =
            All-append (λ f. f.forward_checked ≡ true) before (checked p ∷ []) a.before_checked
              (refl, tt);
        no_repeat = subst NoRepeat (sym (map-append (block shamt) before (checked p ∷ []))) (
            NoRepeat-snoc (blocks shamt before) (block shamt p) a.no_repeat
              (met_none shamt p before e t a.before_translated));
      }

  -- The part that is passed over at first is checked.
  start :
      (queue : List Packet)
      → All IsTranslated queue
      → NoRepeat (blocks shamt (checked_part queue))
      → Apart (checked_part queue) (unchecked_part queue)
  start queue translated apart =
      let (before, rest) =
        append-All IsTranslated (checked_part queue) (unchecked_part queue)
          (subst (All IsTranslated) (sym (parts-append queue)) translated) in
      record {
        before_translated = before;
        rest_translated = rest;
        before_checked = checked_part-All queue;
        no_repeat = apart;
      }

-- All requests checked, and no two for one block.
pub record IsSettled (shamt : ℕ) (queue : List Packet) : Type 0 where
  pub all_checked : All (λ (p : Packet). p.forward_checked ≡ true) queue
  pub no_repeat : NoRepeat (blocks shamt queue)

module _ (shamt : ℕ) (queue : List Packet) (translated : All IsTranslated queue)
    (apart : NoRepeat (blocks shamt (checked_part queue))) where
  check_writes-IsSettled : IsSettled shamt (check_writes shamt queue).queue
  unfolding check_writes
  check_writes-IsSettled =
      let a =
        merge_loop_inv shamt (Apart shamt) (merges shamt) (keeps shamt) 0 (checked_part queue)
          (unchecked_part queue) (start shamt queue translated apart) in
      record { all_checked = a.before_checked; no_repeat = a.no_repeat }

  check_reads-IsSettled :
      (wshamt : ℕ) (writes : List Packet)
      → IsSettled shamt (check_reads wshamt shamt writes queue).queue
  unfolding check_reads
  check_reads-IsSettled wshamt writes =
      let a =
        forward_loop_inv wshamt shamt writes (λ before ps returned. Apart shamt before ps)
          (λ before p ps returned answer e h. drop_first h)
          (λ before p ps returned qs e h. merges shamt before p ps qs e h)
          (λ before p ps returned e h. keeps shamt before p ps e h) 0 [] (checked_part queue)
          (unchecked_part queue) (start shamt queue translated apart) in
      record { all_checked = a.before_checked; no_repeat = a.no_repeat }
    where
      drop_first :
          {before ps : List Packet} {p : Packet}
          → Apart shamt before (p ∷ ps)
          → Apart shamt before ps
      drop_first h = record {
        before_translated = h.before_translated;
        rest_translated = h.rest_translated.1;
        before_checked = h.before_checked;
        no_repeat = h.no_repeat;
      }

-- Where all queued requests have an address and are translated, and in no queue two of the
-- requests before the first unchecked one are for one block: after check_collision all requests
-- are checked, and no two writes, no two reads and no two prefetches are for one block.
pub check_collision-IsSettled :
    (q : Queues)
    → All IsTranslated q.wq
    → All IsTranslated q.rq
    → All IsTranslated q.pq
    → NoRepeat (blocks (write_shamt q) (checked_part q.wq))
    → NoRepeat (blocks q.offset_bits (checked_part q.rq))
    → NoRepeat (blocks q.offset_bits (checked_part q.pq))
    → IsSettled (write_shamt q) (check_collision q).wq
      × IsSettled q.offset_bits (check_collision q).rq
      × IsSettled q.offset_bits (check_collision q).pq
unfolding check_collision
check_collision-IsSettled q w r p aw ar ap = (
  check_writes-IsSettled (write_shamt q) q.wq w aw,
  check_reads-IsSettled q.offset_bits q.rq r ar (write_shamt q) (collide_wq q).wq,
  check_reads-IsSettled q.offset_bits q.pq p ap (write_shamt q) (collide_wq q).wq,
)
