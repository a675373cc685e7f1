-- ===== src/Cache/Outstanding.antt =====
-- What `handle_miss` leaves in the MSHR.
use proba_artifact.Prelude.{
  ℕ, >>=-some, subst, ◌≡◌, ◌≢◌, inl, inr, refl, ◌∙◌, ap, Bool, true, false, Option, none, some,
  List, [], ◌∷◌, ◌++◌, ◌==◌, set, length, Bool-cases, if◌then◌else◌, ==-false→ne,
}
use mathlib.Core.Option.{some_inj}
use proba_artifact.CacheQueues.Packet.{Packet, eq_addr}
use proba_artifact.Cache.State.{CacheState, MemoryBelow}
use proba_artifact.Cache.Miss.{
  find_packet, join_miss, count_late, new_mshr, ask_below, enter_miss, allocate_miss, miss_at,
  handle_miss,
}

-- The outcomes of a miss, as to the outstanding ones.
pub data Missed {L M : Type 0} (pkt : Packet) (c c' : CacheState L M) : Bool → Type 0 where
  joined :
      (i : ℕ) (entry : Packet)
      → find_packet (eq_addr pkt.address c.offset_bits) c.mshr ≡ some (i, entry)
      → c'.mshr ≡ set c.mshr i (join_miss c.current_cycle pkt entry)
      → Missed pkt c c' true
  opened :
      find_packet (eq_addr pkt.address c.offset_bits) c.mshr ≡ none
      → length c.mshr ≢ c.mshr_size
      → pkt.fill_this_level ≡ true
      → c'.mshr ≡ c.mshr ++ new_mshr c pkt ∷ []
      → Missed pkt c c' true
  passed : pkt.fill_this_level ≡ false → c'.mshr ≡ c.mshr → Missed pkt c c' true
  refused : c'.mshr ≡ c.mshr → Missed pkt c c' false

module _ (below : MemoryBelow) {M : Type 0} (pkt : Packet) (c : CacheState below.State M) where
  with_entry : Bool → List Packet
  with_entry fills = if fills then c.mshr ++ new_mshr c pkt ∷ [] else c.mshr

  module _ (missing : find_packet (eq_addr pkt.address c.offset_bits) c.mshr ≡ none)
      (room : length c.mshr ≢ c.mshr_size) where
    entry-Missed :
        (c' : CacheState below.State M)
        → c'.mshr ≡ with_entry pkt.fill_this_level
        → Missed pkt c c' true
    unfolding with_entry
    entry-Missed c' h = elim (Bool-cases pkt.fill_this_level) [
      | inl f ↦ Missed.opened missing room f (h ∙ ap with_entry f)
      | inr f ↦ Missed.passed f (h ∙ ap with_entry f)
    ]

    enter_miss-Missed :
        (answer : Bool × below.State)
        → let r = enter_miss below pkt answer (record c { cpu = pkt.cpu }) in Missed pkt c r.1 r.0
    unfolding enter_miss with_entry
    enter_miss-Missed (true, lower) =
        entry-Missed (enter_miss below pkt (true, lower) (record c { cpu = pkt.cpu })).1 refl
    enter_miss-Missed (false, lower) = Missed.refused refl

    allocate_miss-Missed :
        {r : Bool × CacheState below.State M}
        → allocate_miss below pkt (record c { cpu = pkt.cpu }) ≡ some r
        → Missed pkt c r.1 r.0
    unfolding allocate_miss
    allocate_miss-Missed runs =
        let (answer, asked, ends) =
          >>=-some (ask_below below (record c { cpu = pkt.cpu }) pkt) _ runs in
        subst (λ (k : Bool × CacheState below.State M). Missed pkt c k.1 k.0) (some_inj.0 ends)
          (enter_miss-Missed answer)

  miss_at-Missed :
      (o : Option (ℕ × Packet)) {r : Bool × CacheState below.State M}
      → find_packet (eq_addr pkt.address c.offset_bits) c.mshr ≡ o
      → miss_at below pkt o (record c { cpu = pkt.cpu }) ≡ some r
      → Missed pkt c r.1 r.0
  unfolding miss_at count_late
  miss_at-Missed (some found) e runs =
      subst (λ (k : Bool × CacheState below.State M). Missed pkt c k.1 k.0) (some_inj.0 runs)
        (Missed.joined found.0 found.1 e refl)
  miss_at-Missed none e runs = elim (Bool-cases (length c.mshr == c.mshr_size)) [
    | inl full ↦
        subst (λ (k : Bool × CacheState below.State M). Missed pkt c k.1 k.0)
          (some_inj.0 (rw full at runs)) (Missed.refused refl)
    | inr room ↦ allocate_miss-Missed e (==-false→ne _ _ room) (rw room at runs)
  ]

  pub handle_miss-Missed :
      {success : Bool} {c' : CacheState below.State M}
      → handle_miss below pkt c ≡ some (success, c')
      → Missed pkt c c' success
  unfolding handle_miss
  handle_miss-Missed runs =
      miss_at-Missed (find_packet (eq_addr pkt.address c.offset_bits) c.mshr) refl runs
