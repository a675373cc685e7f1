-- ===== src/Cache/Returns.antt =====
-- The order of the MSHR: the misses that have been returned stand before the others.
use mathlib.Core.Option.{some_inj}
use proba_artifact.Prelude.{
  ℕ, zero, suc, ◌+◌, ◌%◌, ◌^◌, ◌<◌, ◌≤◌, ◌≡◌, ◌≢◌, inl, inr, refl, sym, subst, ◌∙◌, ap, Bool, true,
  some, List, [], ◌∷◌, ◌==◌, set, get_elem?, get_elem?-set_self, get_elem?-set_ne, lt-of-get_elem?,
  get_elem?_of_lt, length-set, arith, Bool-cases, ℕ-cases, ==→eq, eq→==,
}
use native.Mathlib.Decide.{dec_lt}
use native.Mathlib.Nat.{mod-eq_of_lt}
use proba_artifact.CacheQueues.Packet.{Packet, eq_addr, uint64_max}
use proba_artifact.Cache.State.{CacheState}
use proba_artifact.Cache.Miss.{find_packet, iter_swap, mark_returned, return_data}
use proba_artifact.Cache.Entries.{find_packet-some}

abbrev pub is_waiting : Packet → Bool
is_waiting p = p.event_cycle == uint64_max

-- The first `n` have been returned, and no other.
pub record IsOrdered (n : ℕ) (ps : List Packet) : Type 0 where
  pub before : (k : ℕ) (p : Packet) → get_elem? ps k ≡ some p → k < n → p.event_cycle ≢ uint64_max
  pub after : (k : ℕ) (p : Packet) → get_elem? ps k ≡ some p → n ≤ k → p.event_cycle ≡ uint64_max

find_packet_of :
    (test : Packet → Bool) (ps : List Packet) (k : ℕ) {q : Packet}
    → get_elem? ps k ≡ some q
    → test q ≡ true
    → (r : ℕ × Packet) × (find_packet test ps ≡ some r) × (r.0 ≤ k)
unfolding find_packet
find_packet_of test [] k g t = absurd (cc g)
find_packet_of test (p ∷ ps) zero g t = ((0, p), rw (ap test (some_inj.0 g) ∙ t) refl, omega arith)
find_packet_of test (p ∷ ps) (suc k) g t = elim (Bool-cases (test p)) [
  | inl e ↦ ((0, p), rw e refl, omega arith)
  | inr e ↦
      let (r, later, le) = find_packet_of test ps k g t in
      ((suc r.0, r.1), rw (e, later) refl, omega (arith, le))
]

iter_swap-eq :
    (ps : List Packet) (i j : ℕ) (a b : Packet)
    → get_elem? ps i ≡ some a
    → get_elem? ps j ≡ some b
    → iter_swap i j ps ≡ set (set ps i b) j a
unfolding iter_swap
iter_swap-eq ps i j a b hi hj = rw (hi, hj, iter_swap) refl

-- Two entries that change places, and the others.
module _ (ps : List Packet) (i j : ℕ) (a b : Packet) (hi : get_elem? ps i ≡ some a)
    (hj : get_elem? ps j ≡ some b) where
  iter_swap-second : get_elem? (iter_swap i j ps) j ≡ some a
  iter_swap-second =
      ap (λ (qs : List Packet). get_elem? qs j) (iter_swap-eq ps i j a b hi hj)
      ∙ get_elem?-set_self (set ps i b) j a
          (omega (arith, length-set ps i b, lt-of-get_elem? ps j hj))

  iter_swap-first : i ≢ j → get_elem? (iter_swap i j ps) i ≡ some b
  iter_swap-first other =
      ap (λ (qs : List Packet). get_elem? qs i) (iter_swap-eq ps i j a b hi hj)
      ∙ get_elem?-set_ne (set ps i b) j i a (λ e. other (sym e))
      ∙ get_elem?-set_self ps i b (lt-of-get_elem? ps i hi)

  iter_swap-other : (k : ℕ) → i ≢ k → j ≢ k → get_elem? (iter_swap i j ps) k ≡ get_elem? ps k
  iter_swap-other k ik jk =
      ap (λ (qs : List Packet). get_elem? qs k) (iter_swap-eq ps i j a b hi hj)
      ∙ get_elem?-set_ne (set ps i b) j k a jk
      ∙ get_elem?-set_ne ps i k b ik

-- An entry that waited is written as returned, and changes places with the first that waits.
swap-IsOrdered :
    (n i : ℕ) (ps : List Packet) (new entry first : Packet)
    → IsOrdered n ps
    → n ≤ i
    → get_elem? ps i ≡ some entry
    → get_elem? ps n ≡ some first
    → new.event_cycle ≢ uint64_max
    → IsOrdered (suc n) (iter_swap i n (set ps i new))
      × (get_elem? (iter_swap i n (set ps i new)) n ≡ some new)
swap-IsOrdered n i ps new entry first o le hi hn returned = elim (ℕ-cases i n) [
  | inl e ↦ built new (ap (get_elem? (set ps i new)) (sym e) ∙ at_i) (λ other. absurd (other e))
  | inr other ↦
      built first (get_elem?-set_ne ps i n new other ∙ hn) (λ _. o.after n first hn (omega arith))
]
  where
    at_i : get_elem? (set ps i new) i ≡ some new
    at_i = get_elem?-set_self ps i new (lt-of-get_elem? ps i hi)

    built :
        (b : Packet)
        → get_elem? (set ps i new) n ≡ some b
        → (i ≢ n → b.event_cycle ≡ uint64_max)
        → IsOrdered (suc n) (iter_swap i n (set ps i new))
          × (get_elem? (iter_swap i n (set ps i new)) n ≡ some new)
    built b hb waits =
        let qs = set ps i new in
        let unchanged : (k : ℕ) → i ≢ k → n ≢ k → get_elem? (iter_swap i n qs) k ≡ get_elem? ps k =
          λ k ik nk.
            iter_swap-other qs i n new b at_i hb k ik nk ∙ get_elem?-set_ne ps i k new ik in
        (
          record {
            before = λ k p h lt. elim (ℕ-cases n k) [
              | inl e ↦
                  let here : get_elem? (iter_swap i n qs) k ≡ some new =
                    ap (get_elem? (iter_swap i n qs)) (sym e)
                    ∙ iter_swap-second qs i n new b at_i hb in
                  subst (λ (x : Packet). x.event_cycle ≢ uint64_max) (some_inj.0 (sym here ∙ h))
                    returned
              | inr nk ↦
                  o.before k p
                    (sym (unchanged k (λ e. absurd (omega (arith, e, le, lt, nk))) nk) ∙ h)
                    (omega (arith, lt, nk))
            ];
            after = λ k p h ge. elim (ℕ-cases i k) [
              | inl e ↦
                  let apart : i ≢ n = λ same. absurd (omega (arith, same, e, ge)) in
                  let here : get_elem? (iter_swap i n qs) k ≡ some b =
                    ap (get_elem? (iter_swap i n qs)) (sym e)
                    ∙ iter_swap-first qs i n new b at_i hb apart in
                  subst (λ (x : Packet). x.event_cycle ≡ uint64_max) (some_inj.0 (sym here ∙ h))
                    (waits apart)
              | inr ik ↦
                  o.after k p (sym (unchanged k ik (λ e. absurd (omega (arith, e, ge)))) ∙ h)
                    (omega (arith, ge))
            ];
          },
          iter_swap-second qs i n new b at_i hb,
        )

marked-early :
    {L M : Type 0} (c : CacheState L M) (packet entry : Packet)
    → c.current_cycle + c.fill_latency < uint64_max
    → (mark_returned c packet entry).event_cycle ≢ uint64_max
marked-early c packet entry early = elim (Bool-cases c.warmup) [
  | inl e ↦ rw e (unwrapped (c.current_cycle + 0) (omega (arith, early)))
  | inr e ↦ rw e (unwrapped (c.current_cycle + c.fill_latency) early)
]
  where
    unwrapped : (n : ℕ) → n < uint64_max → n % 2 ^ 64 ≢ uint64_max
    unwrapped n lt h =
        let same = mod-eq_of_lt {n = n} {m = 2 ^ 64} (omega (arith, lt)) in
        absurd (omega (arith, lt, same, h))

-- Where the misses that have been returned stand first in the MSHR, n of them, and the entry for
-- the packet's block waits, before the clock's last cycles: return_data finds it; then the first
-- n and one more have been returned, and no other, and the new one, marked with the data and the
-- cycle, stands behind those n.
pub return_data-IsOrdered :
    {L M : Type 0} (packet : Packet) (c : CacheState L M) (n i : ℕ) (entry : Packet)
    → IsOrdered n c.mshr
    → find_packet (eq_addr packet.address c.offset_bits) c.mshr ≡ some (i, entry)
    → entry.event_cycle ≡ uint64_max
    → c.current_cycle + c.fill_latency < uint64_max
    → (c' : CacheState L M) × (return_data packet c ≡ some c')
      × IsOrdered (suc n) c'.mshr
      × (get_elem? c'.mshr n ≡ some (mark_returned c packet entry))
unfolding return_data
return_data-IsOrdered packet c n i entry o found waits early =
    let at_i = (find_packet-some _ c.mshr found).0 in
    let le : n ≤ i = elim (dec_lt i n) [
      | yes lt ↦ absurd (o.before i entry at_i lt waits)
      | no ge ↦ omega (arith, ge)
    ] in
    let (at_n, hn) = get_elem?_of_lt c.mshr n (omega (arith, le, lt-of-get_elem? c.mshr i at_i)) in
    let (r, first, few) =
      find_packet_of is_waiting c.mshr n hn (eq→== _ _ (o.after n at_n hn (omega arith))) in
    let (at_r, t) = find_packet-some is_waiting c.mshr first in
    let same : r.0 ≡ n = elim (dec_lt r.0 n) [
      | yes lt ↦ absurd (o.before r.0 r.1 at_r lt (==→eq _ _ t))
      | no ge ↦ omega (arith, ge, few)
    ] in
    let new = mark_returned c packet entry in
    let ordered =
      swap-IsOrdered n i c.mshr new entry at_n o le at_i hn (marked-early c packet entry early) in
    let c' = record c { mshr = iter_swap i n (set c.mshr i new) } in
    let runs : return_data packet c
        ≡ some (record c { mshr = iter_swap i r.0 (set c.mshr i new) }) =
      rw (found, first, return_data) refl in
    (
      c',
      runs ∙ ap (λ (k : ℕ). some (record c { mshr = iter_swap i k (set c.mshr i new) })) same,
      ordered.0,
      ordered.1,
    )
