-- ===== src/Cache/Entries.antt =====
-- The entries of the MSHR: who waits for a block, and that each block has one entry.
use mathlib.Core.Option.{some_inj}
use proba_artifact.Prelude.{
  ℕ, zero, suc, ◌≤◌, ◌≡◌, ◌≢◌, ◌⊎◌, inl, inr, refl, sym, subst, ◌∙◌, ap, Bool, true, none, some,
  List, [], ◌∷◌, ◌++◌, set, get_elem?, length, length-set, length-append, arith, Bool-cases,
  Option-cases, All, All-append, All-set, All-get_elem?,
}
use proba_artifact.CacheQueues.Packet.{Packet, eq_addr, set_union}
use proba_artifact.CacheQueues.Distinct.{NoRepeat, NoRepeat-snoc, map-append, blocks, block}
use proba_artifact.CacheQueues.Waiting.{In, In-union}
use proba_artifact.Cache.State.{CacheState, MemoryBelow}
use proba_artifact.Cache.Miss.{find_packet, join_miss, new_mshr, handle_miss, overtakes}
use proba_artifact.Cache.Outstanding.{Missed, handle_miss-Missed}

pub find_packet-some :
    (test : Packet → Bool) (ps : List Packet) {i : ℕ} {e : Packet}
    → find_packet test ps ≡ some (i, e)
    → (get_elem? ps i ≡ some e) × (test e ≡ true)
unfolding find_packet
find_packet-some test [] h = absurd (cc h)
find_packet-some test (p ∷ ps) {i} {e} h = elim (Bool-cases (test p)) [
  | inl t ↦
      let same : (0, p) ≡ (i, e) = some_inj.0 (rw t at h) in
      subst (λ (k : ℕ × Packet). (get_elem? (p ∷ ps) k.0 ≡ some k.1) × (test k.1 ≡ true)) same
        (refl, t)
  | inr t ↦ elim (Option-cases (find_packet test ps)) [
    | inl later ↦ absurd (cc (rw (t, later) at h))
    | inr (w, later) ↦
        let same : (suc w.0, w.1) ≡ (i, e) = some_inj.0 (rw (t, later) at h) in
        subst (λ (k : ℕ × Packet). (get_elem? (p ∷ ps) k.0 ≡ some k.1) × (test k.1 ≡ true)) same
          (find_packet-some test ps later)
  ]
]

-- The producer `r` waits for the block with this number.
abbrev pub Awaits : ℕ → ℕ → ℕ → List Packet → Type 0
Awaits bits number r [] = ⊥
Awaits bits number r (p ∷ ps) =
    ((block bits p ≡ number) × In r p.to_return) ⊎ Awaits bits number r ps

module _ (bits number r : ℕ) where
  Awaits-append_left :
      (ps qs : List Packet) → Awaits bits number r ps → Awaits bits number r (ps ++ qs)
  Awaits-append_left [] qs h = elim h [ ]
  Awaits-append_left (p ∷ ps) qs (inl h) = inl h
  Awaits-append_left (p ∷ ps) qs (inr h) = inr (Awaits-append_left ps qs h)

  Awaits-snoc :
      (ps : List Packet) (p : Packet)
      → block bits p ≡ number
      → In r p.to_return
      → Awaits bits number r (ps ++ p ∷ [])
  Awaits-snoc [] p b h = inl (b, h)
  Awaits-snoc (q ∷ ps) p b h = inr (Awaits-snoc ps p b h)

  module _ (e new : Packet) (same : block bits new ≡ block bits e) where
    -- A write of an entry for the same block.
    Awaits-set :
        (ps : List Packet) (i : ℕ)
        → get_elem? ps i ≡ some e
        → (In r e.to_return → In r new.to_return)
        → Awaits bits number r ps
        → Awaits bits number r (set ps i new)
    Awaits-set [] i found keep h = elim h [ ]
    Awaits-set (p ∷ ps) zero found keep (inl h) =
        let at_e : p ≡ e = some_inj.0 found in
        inl (
          same ∙ ap (block bits) (sym at_e) ∙ h.0,
          keep (subst (λ (x : Packet). In r x.to_return) at_e h.1),
        )
    Awaits-set (p ∷ ps) zero found keep (inr h) = inr h
    Awaits-set (p ∷ ps) (suc i) found keep (inl h) = inl h
    Awaits-set (p ∷ ps) (suc i) found keep (inr h) = inr (Awaits-set ps i found keep h)

    Awaits-here :
        (ps : List Packet) (i : ℕ)
        → get_elem? ps i ≡ some e
        → block bits e ≡ number
        → In r new.to_return
        → Awaits bits number r (set ps i new)
    Awaits-here [] i found b h = absurd (cc found)
    Awaits-here (p ∷ ps) zero found b h = inl (same ∙ b, h)
    Awaits-here (p ∷ ps) (suc i) found b h = inr (Awaits-here ps i found b h)

join_miss-to_return :
    (cycle : ℕ) (pkt entry : Packet)
    → (join_miss cycle pkt entry).to_return ≡ set_union entry.to_return pkt.to_return
unfolding join_miss
join_miss-to_return cycle pkt entry = elim (Bool-cases (overtakes pkt entry)) [
  | inl e ↦ rw e refl
  | inr e ↦ rw e refl
]

join_miss-block :
    (bits cycle : ℕ) (pkt entry : Packet)
    → eq_addr pkt.address bits entry ≡ true
    → (block bits (join_miss cycle pkt entry) ≡ block bits entry)
      × (block bits entry ≡ block bits pkt)
unfolding join_miss
join_miss-block bits cycle pkt entry h =
    let same : block bits entry ≡ block bits pkt = ground (arith, h) in
    elim (Bool-cases (overtakes pkt entry)) [
      | inl e ↦ rw e (sym same, same)
      | inr e ↦ rw e (refl, same)
    ]

-- The outstanding misses fit, have addresses, and are for different blocks.
pub record IsOutstanding (mshr_size bits : ℕ) (ps : List Packet) : Type 0 where
  pub fits : length ps ≤ mshr_size
  pub all_valid : All (λ (p : Packet). p.address ≢ 0) ps
  pub apart : NoRepeat (blocks bits ps)

find_packet-none :
    (bits : ℕ) (pkt : Packet) (ps : List Packet)
    → find_packet (eq_addr pkt.address bits) ps ≡ none
    → All (λ (p : Packet). p.address ≢ 0) ps
    → All (λ (n : ℕ). block bits pkt ≢ n) (blocks bits ps)
unfolding find_packet
find_packet-none bits pkt [] h valid = tt
find_packet-none bits pkt (p ∷ ps) h valid = elim (Bool-cases (eq_addr pkt.address bits p)) [
  | inl t ↦ absurd (cc (rw t at h))
  | inr t ↦ elim (Option-cases (find_packet (eq_addr pkt.address bits) ps)) [
    | inl later ↦
        (λ same. ground (arith, valid.0, t, same), find_packet-none bits pkt ps later valid.1)
    | inr (w, later) ↦ absurd (cc (rw (t, later) at h))
  ]
]

blocks-set :
    (bits : ℕ) (ps : List Packet) (i : ℕ) (e new : Packet)
    → get_elem? ps i ≡ some e
    → block bits new ≡ block bits e
    → blocks bits (set ps i new) ≡ blocks bits ps
blocks-set bits [] i e new h same = refl
blocks-set bits (p ∷ ps) zero e new h same =
    ap (λ (n : ℕ). n ∷ blocks bits ps) (same ∙ ap (block bits) (sym (some_inj.0 h)))
blocks-set bits (p ∷ ps) (suc i) e new h same =
    ap (◌∷◌ (block bits p)) (blocks-set bits ps i e new h same)

join_miss-valid :
    (cycle : ℕ) (pkt entry : Packet)
    → pkt.address ≢ 0
    → entry.address ≢ 0
    → (join_miss cycle pkt entry).address ≢ 0
unfolding join_miss
join_miss-valid cycle pkt entry p e = elim (Bool-cases (overtakes pkt entry)) [
  | inl o ↦ rw o p
  | inr o ↦ rw o e
]

module _ {L M : Type 0} (pkt : Packet) (c c' : CacheState L M) where
  Missed-Awaits :
      (r number : ℕ) {success : Bool}
      → Missed pkt c c' success
      → Awaits c.offset_bits number r c.mshr
      → Awaits c.offset_bits number r c'.mshr
  Missed-Awaits r number (Missed.joined i entry found now) h =
      let (at_i, t) = find_packet-some _ c.mshr found in
      let new = join_miss c.current_cycle pkt entry in
      let same = join_miss-block c.offset_bits c.current_cycle pkt entry t in
      subst (Awaits c.offset_bits number r) (sym now) (
        Awaits-set c.offset_bits number r entry new same.0 c.mshr i at_i
          (λ k.
            subst (In r) (sym (join_miss-to_return c.current_cycle pkt entry))
              (In-union r entry.to_return pkt.to_return (inl k)))
          h)
  Missed-Awaits r number (Missed.opened missing room f now) h =
      subst (Awaits c.offset_bits number r) (sym now)
        (Awaits-append_left c.offset_bits number r c.mshr (new_mshr c pkt ∷ []) h)
  Missed-Awaits r number (Missed.passed f now) h = subst (Awaits c.offset_bits number r) (sym now) h
  Missed-Awaits r number (Missed.refused now) h = subst (Awaits c.offset_bits number r) (sym now) h

  Missed-here :
      (r : ℕ)
      → Missed pkt c c' true
      → pkt.fill_this_level ≡ true
      → In r pkt.to_return
      → Awaits c.offset_bits (block c.offset_bits pkt) r c'.mshr
  Missed-here r (Missed.joined i entry found now) f h =
      let (at_i, t) = find_packet-some _ c.mshr found in
      let new = join_miss c.current_cycle pkt entry in
      let same = join_miss-block c.offset_bits c.current_cycle pkt entry t in
      subst (Awaits c.offset_bits (block c.offset_bits pkt) r) (sym now) (
        Awaits-here c.offset_bits (block c.offset_bits pkt) r entry new same.0 c.mshr i at_i same.1
          (subst (In r) (sym (join_miss-to_return c.current_cycle pkt entry))
            (In-union r entry.to_return pkt.to_return (inr h))))
  Missed-here r (Missed.opened missing room g now) f h =
      subst (Awaits c.offset_bits (block c.offset_bits pkt) r) (sym now)
        (Awaits-snoc c.offset_bits (block c.offset_bits pkt) r c.mshr (new_mshr c pkt) refl h)
  Missed-here r (Missed.passed g now) f h = absurd (cc (sym f ∙ g))

  Missed-IsOutstanding :
      {success : Bool}
      → Missed pkt c c' success
      → pkt.address ≢ 0
      → IsOutstanding c.mshr_size c.offset_bits c.mshr
      → IsOutstanding c.mshr_size c.offset_bits c'.mshr
  Missed-IsOutstanding (Missed.joined i entry found now) v o =
      let (at_i, t) = find_packet-some _ c.mshr found in
      let new = join_miss c.current_cycle pkt entry in
      let same = join_miss-block c.offset_bits c.current_cycle pkt entry t in
      let entry_valid = All-get_elem? _ c.mshr i o.all_valid at_i in
      subst (IsOutstanding c.mshr_size c.offset_bits) (sym now) (record {
        fits = omega (arith, o.fits, length-set c.mshr i new);
        all_valid =
            All-set _ c.mshr i new o.all_valid
              (join_miss-valid c.current_cycle pkt entry v entry_valid);
        apart =
            subst NoRepeat (sym (blocks-set c.offset_bits c.mshr i entry new at_i same.0)) o.apart;
      })
  Missed-IsOutstanding (Missed.opened missing room g now) v o =
      let new = new_mshr c pkt in
      subst (IsOutstanding c.mshr_size c.offset_bits) (sym now) (record {
        fits = omega (arith, o.fits, room, length-append c.mshr (new ∷ []));
        all_valid = All-append _ c.mshr (new ∷ []) o.all_valid (v, tt);
        apart = subst NoRepeat (sym (map-append (block c.offset_bits) c.mshr (new ∷ []))) (
            NoRepeat-snoc (blocks c.offset_bits c.mshr) (block c.offset_bits pkt) o.apart
              (find_packet-none c.offset_bits pkt c.mshr missing o.all_valid));
      })
  Missed-IsOutstanding (Missed.passed f now) v o =
      subst (IsOutstanding c.mshr_size c.offset_bits) (sym now) o
  Missed-IsOutstanding (Missed.refused now) v o =
      subst (IsOutstanding c.mshr_size c.offset_bits) (sym now) o

module _ (below : MemoryBelow) {M : Type 0} (pkt : Packet) (c c' : CacheState below.State M)
    (success : Bool) (runs : handle_miss below pkt c ≡ some (success, c')) where
  -- Where handle_miss returns: a producer that waits for a block in the MSHR still waits for it,
  -- whatever the level below does; when handle_miss takes a request that will be filled at this
  -- level, its producers wait for its block.
  pub handle_miss-Awaits :
      (r number : ℕ)
      → Awaits c.offset_bits number r c.mshr
        ⊎ ((success ≡ true)
            × (pkt.fill_this_level ≡ true)
            × (block c.offset_bits pkt ≡ number)
            × In r pkt.to_return)
      → Awaits c.offset_bits number r c'.mshr
  handle_miss-Awaits r number (inl h) =
      Missed-Awaits pkt c c' r number (handle_miss-Missed below pkt c runs) h
  handle_miss-Awaits r number (inr (done, fills, same, h)) =
      subst (λ (n : ℕ). Awaits c.offset_bits n r c'.mshr) same
        (Missed-here pkt c c' r (subst (Missed pkt c c') done (handle_miss-Missed below pkt c runs))
          fills h)

  -- Where handle_miss returns for a request with an address, it keeps the MSHR within its size,
  -- with an address in each entry, and with no two entries for one block.
  pub handle_miss-IsOutstanding :
      pkt.address ≢ 0
      → IsOutstanding c.mshr_size c.offset_bits c.mshr
      → IsOutstanding c.mshr_size c.offset_bits c'.mshr
  handle_miss-IsOutstanding v o =
      Missed-IsOutstanding pkt c c' (handle_miss-Missed below pkt c runs) v o
