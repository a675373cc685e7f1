-- ===== src/CacheQueues/Loops.antt =====
-- What a collision does to a range, and a rule for the loops of `check_collision`.
use proba_artifact.Prelude.{
  ℕ, ◌+◌, ◌≡◌, refl, sym, ◌∙◌, ap, true, ◌&&◌, none, some, List, [], ◌∷◌, ◌++◌, inl, inr,
  Option-cases, Bool-cases, arith,
}
use mathlib.Core.Option.{some_inj}
use proba_artifact.CacheQueues.Packet.{Packet, eq_addr}
use proba_artifact.CacheQueues.Collision.{
  merge_packet, do_collision_for_merge, do_collision_for_return, checked_part, unchecked_part,
  checked, merge_loop, forward_loop,
}

-- `packet` was merged into a packet of its block, both translated.
pub record Merges (shamt : ℕ) (packet : Packet) (ps qs : List Packet) : Type 0 where
  pub left : List Packet
  pub found : Packet
  pub right : List Packet
  pub was : ps ≡ left ++ found ∷ right
  pub is_now : qs ≡ left ++ merge_packet packet found ∷ right
  pub same_block : eq_addr packet.address shamt found ≡ true
  pub source_translated : packet.is_translated ≡ true
  pub found_translated : found.is_translated ≡ true

pub merge-Merges :
    (shamt : ℕ) (p : Packet) (ps : List Packet) {qs : List Packet}
    → do_collision_for_merge shamt p ps ≡ some qs
    → Merges shamt p ps qs
unfolding do_collision_for_merge
merge-Merges shamt p [] h = absurd (cc)
merge-Merges shamt p (x ∷ ps) {qs} h = elim (Bool-cases (eq_addr p.address shamt x)) [
  | inl block ↦ elim (Bool-cases (p.is_translated && x.is_translated)) [
    | inl both ↦ record {
      left = [];
      found = x;
      right = ps;
      was = refl;
      is_now = sym (some_inj.0 (rw (block, both) at h));
      same_block = block;
      source_translated = ground (arith, both);
      found_translated = ground (arith, both);
    }
    | inr untranslated ↦ absurd (cc (rw (block, untranslated) at h))
  ]
  | inr other ↦ elim (Option-cases (do_collision_for_merge shamt p ps)) [
    | inl e ↦ absurd (cc (rw (other, e) at h))
    | inr (rest, e) ↦
        let m = merge-Merges shamt p ps e in
        record {
          left = x ∷ m.left;
          found = m.found;
          right = m.right;
          was = ap (◌∷◌ x) m.was;
          is_now = sym (some_inj.0 (rw (other, e) at h)) ∙ ap (◌∷◌ x) m.is_now;
          same_block = m.same_block;
          source_translated = m.source_translated;
          found_translated = m.found_translated;
        }
  ]
]

pub parts-append : (queue : List Packet) → checked_part queue ++ unchecked_part queue ≡ queue
unfolding checked_part unchecked_part
parts-append [] = refl
parts-append (p ∷ ps) = elim (Bool-cases p.forward_checked) [
  | inl e ↦ simp e (ap (◌∷◌ p) (parts-append ps))
  | inr e ↦ simp e refl
]

module _ (shamt : ℕ) (P : List Packet → List Packet → Type 0)
    (merges : (before : List Packet) (p : Packet) (ps before' : List Packet)
      → do_collision_for_merge shamt p before ≡ some before'
      → P before (p ∷ ps)
      → P before' ps)
    (keeps : (before : List Packet) (p : Packet) (ps : List Packet)
      → do_collision_for_merge shamt p before ≡ none
      → P before (p ∷ ps)
      → P (before ++ checked p ∷ []) ps) where
  pub merge_loop_inv :
      (merged : ℕ) (before ps : List Packet)
      → P before ps
      → P (merge_loop shamt merged before ps).queue []
  unfolding merge_loop
  merge_loop_inv merged before [] h = h
  merge_loop_inv merged before (p ∷ ps) h =
      elim (Option-cases (do_collision_for_merge shamt p before)) [
        | inl e ↦
            rw (e, merge_loop)
              (merge_loop_inv merged (before ++ checked p ∷ []) ps (keeps before p ps e h))
        | inr (qs, e) ↦
            rw (e, merge_loop) (merge_loop_inv (merged + 1) qs ps (merges before p ps qs e h))
      ]

module _ (write_shamt shamt : ℕ) (writes : List Packet)
    (P : List Packet → List Packet → List Packet → Type 0)
    (answers : (before : List Packet) (p : Packet) (ps returned : List Packet) (answer : Packet)
      → do_collision_for_return write_shamt p writes ≡ some answer
      → P before (p ∷ ps) returned
      → P before ps (returned ++ answer ∷ []))
    (merges : (before : List Packet) (p : Packet) (ps returned before' : List Packet)
      → do_collision_for_merge shamt p before ≡ some before'
      → P before (p ∷ ps) returned
      → P before' ps returned)
    (keeps : (before : List Packet) (p : Packet) (ps returned : List Packet)
      → do_collision_for_merge shamt p before ≡ none
      → P before (p ∷ ps) returned
      → P (before ++ checked p ∷ []) ps returned) where
  pub forward_loop_inv :
      (merged : ℕ) (returned before ps : List Packet)
      → P before ps returned
      → let r = forward_loop write_shamt shamt writes merged returned before ps in
        P r.queue [] r.returned
  unfolding forward_loop
  forward_loop_inv merged returned before [] h = h
  forward_loop_inv merged returned before (p ∷ ps) h =
      elim (Option-cases (do_collision_for_return write_shamt p writes)) [
        | inr (answer, e) ↦
            rw (e, forward_loop)
              (forward_loop_inv merged (returned ++ answer ∷ []) before ps
                (answers before p ps returned answer e h))
        | inl none_found ↦ elim (Option-cases (do_collision_for_merge shamt p before)) [
          | inl e ↦
              rw (none_found, e, forward_loop)
                (forward_loop_inv merged returned (before ++ checked p ∷ []) ps
                  (keeps before p ps returned e h))
          | inr (qs, e) ↦
              rw (none_found, e, forward_loop)
                (forward_loop_inv (merged + 1) returned qs ps (merges before p ps returned qs e h))
        ]
      ]
