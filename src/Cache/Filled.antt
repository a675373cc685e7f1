-- ===== src/Cache/Filled.antt =====
-- What `handle_fill` and then `try_hit` do.
use proba_artifact.Prelude.{
  ℕ, zero, suc, ◌+◌, ◌*◌, ◌^◌, ◌<◌, ◌≡◌, ◌≢◌, inl, inr, refl, subst, ==→eq, ==-false→ne, Bool, true,
  false, Option, none, some, if◌then◌else◌, List, [], ◌∷◌, ◌++◌, ◌==◌, set, get_elem?, length, ap,
  sym, ◌>>=◌, >>=-some, ◌⊎◌, ◌&&◌, Bool-cases, Option-cases, arith,
}
use mathlib.Core.Option.{some_inj}
use proba_artifact.Msl.Bits.{lg2}
use proba_artifact.CacheQueues.Packet.{Packet}
use proba_artifact.Cache.State.{
  CacheBlock, CacheState, MemoryBelow, Modules, write_type, find_way, get_set_index, get_set_span,
  write_way,
}
use proba_artifact.Cache.Fill.{
  ask_write_back, writeback, fill_block, finish_fill, notify_fill, count_fill, fill_way, fill_at,
  replace_block, bypass, choose_way, handle_fill,
}

-- The first block of a set that passes a test, after a write where none did.
pub find_way-set :
    (test : CacheBlock → Bool) (bs : List CacheBlock) (i : ℕ) (b : CacheBlock)
    → find_way test bs ≡ none
    → i < length bs
    → test b ≡ true
    → find_way test (set bs i b) ≡ some (i, b)
unfolding find_way
find_way-set test [] i b none_before h t = elim h [ ]
find_way-set test (x ∷ xs) zero b none_before h t = rw t refl
find_way-set test (x ∷ xs) (suc i) b none_before h t = elim (Bool-cases (test x)) [
  | inl e ↦ absurd (cc (rw e at none_before))
  | inr e ↦ elim (Option-cases (find_way test xs)) [
    | inl later ↦ rw (e, find_way-set test xs i b later (omega (arith, h)) t) refl
    | inr (w, later) ↦ absurd (cc (rw (e, later) at none_before))
  ]
]

abbrev pub geometry : {L M : Type 0} → CacheState L M → ℕ × ℕ × ℕ
geometry c = (c.num_set, c.num_way, c.offset_bits)

-- The number of sets is a power of two, and each has all its ways.
pub record IsShaped {L M : Type 0} (c : CacheState L M) : Type 0 where
  pub is_power : c.num_set ≡ 2 ^ lg2 c.num_set
  pub all_ways : length c.block ≡ c.num_set * c.num_way

abbrev pub is_dirty : CacheBlock → Bool
is_dirty b = b.valid && b.dirty

module _ (below : MemoryBelow) {M : Type 0} (fill : Packet) (way : ℕ) where
  -- What the way holds where the level below takes a write, where it takes none, and where no write
  -- is asked for.
  abbrev pub Written : CacheState below.State M → CacheState below.State M → Bool → Type 0
  Written c c' success =
      (old : CacheBlock) × (get_elem? (get_set_span c fill.address) way ≡ some old)
      × (is_dirty old ≡ true)
      × (below.add_wq (writeback fill old) c.lower ≡ some (success, c'.lower))

  abbrev pub Unwritten : CacheState below.State M → CacheState below.State M → Type 0
  Unwritten c c' =
      ((get_elem? (get_set_span c fill.address) way ≡ none)
        ⊎ ((old : CacheBlock) × (get_elem? (get_set_span c fill.address) way ≡ some old)
            × (is_dirty old ≡ false)))
      × (c'.lower ≡ c.lower)

-- The outcomes of a fill, as to the blocks and the answers.
pub data Filled (below : MemoryBelow) {M : Type 0} (fill : Packet) (way : ℕ)
    (c c' : CacheState below.State M) : Bool → Type 0 where
  refused :
      geometry c' ≡ geometry c
      → Written below fill way c c' false
      → c'.block ≡ c.block
      → c'.returned ≡ c.returned
      → Filled below fill way c c' false
  replaced :
      (old : CacheBlock) (metadata : ℕ)
      → geometry c' ≡ geometry c
      → get_elem? (get_set_span c fill.address) way ≡ some old
      → Written below fill way c c' true ⊎ Unwritten below fill way c c'
      → c'.block
        ≡ set c.block (get_set_index c fill.address * c.num_way + way) (fill_block fill metadata)
      → c'.returned
        ≡ c.returned ++ record fill { pf_metadata = (fill_block fill metadata).pf_metadata } ∷ []
      → Filled below fill way c c' true
  bypassed :
      (metadata : ℕ)
      → geometry c' ≡ geometry c
      → way ≡ length (get_set_span c fill.address)
      → fill.type ≢ write_type
      → Unwritten below fill way c c'
      → c'.block ≡ c.block
      → c'.returned ≡ c.returned ++ record fill { pf_metadata = metadata } ∷ []
      → Filled below fill way c c' true

module _ (below : MemoryBelow) (modules : Modules) (fill : Packet) (way : ℕ)
    (c : CacheState below.State modules.State) (state : modules.State) (lower : below.State) where
  abbrev pub reached : CacheState below.State modules.State
  reached = record c { cpu = fill.cpu; modules = state; lower = lower }

  replace_block-Filled :
      (old : CacheBlock) {c' : CacheState below.State modules.State}
      → get_elem? (get_set_span c fill.address) way ≡ some old
      → Written below fill way c reached true ⊎ Unwritten below fill way c reached
      → replace_block modules fill way old reached ≡ some c'
      → Filled below fill way c c' true
  unfolding replace_block write_way finish_fill notify_fill get_set_index count_fill
  replace_block-Filled old {c'} h w runs =
      let (n, notified, ends) = >>=-some (notify_fill modules fill way _ _ _ _) _ runs in
      let (t, hook, made) = >>=-some (modules.cache_fill _ _ _ _ _ _ _) _ notified in
      let write = λ (k : ℕ × CacheState below.State modules.State).
        finish_fill fill (fill_block fill k.0).pf_metadata
          (write_way fill.address way (fill_block fill k.0) k.1) in
      subst (λ (d : CacheState below.State modules.State). Filled below fill way c d true)
        (some_inj.0 ends)
        (subst
          (λ (k : ℕ × CacheState below.State modules.State). Filled below fill way c (write k) true)
          (some_inj.0 made) (Filled.replaced old t.0 refl h w refl refl))

  bypass-Filled :
      {c' : CacheState below.State modules.State}
      → way ≡ length (get_set_span c fill.address)
      → fill.type ≢ write_type
      → Unwritten below fill way c reached
      → bypass modules fill way reached ≡ some c'
      → Filled below fill way c c' true
  unfolding bypass finish_fill notify_fill
  bypass-Filled h t w runs =
      let (n, notified, ends) = >>=-some (notify_fill modules fill way _ _ _ _) _ runs in
      let (s, hook, made) = >>=-some (modules.cache_fill _ _ _ _ _ _ _) _ notified in
      subst (λ (d : CacheState below.State modules.State). Filled below fill way c d true)
        (some_inj.0 ends)
        (subst
          (λ (k : ℕ × CacheState below.State modules.State).
            Filled below fill way c (finish_fill fill k.0 k.1) true)
          (some_inj.0 made) (Filled.bypassed s.0 refl h t w refl refl))

module _ (below : MemoryBelow) (modules : Modules) (fill : Packet)
    (c : CacheState below.State modules.State) where
  abbrev pub chosen : ℕ × modules.State
  chosen = choose_way modules fill (record c { cpu = fill.cpu })

  ask_write_back-cases :
      (old : CacheBlock) {asked : Bool × below.State}
      → ask_write_back below fill old c.lower ≡ some asked
      → ((is_dirty old ≡ true) × (below.add_wq (writeback fill old) c.lower ≡ some asked))
        ⊎ ((is_dirty old ≡ false) × ((true, c.lower) ≡ asked))
  ask_write_back-cases old h = elim (Bool-cases (is_dirty old)) [
    | inl dirty ↦ inl (dirty, rw dirty at h)
    | inr clean ↦ inr (clean, some_inj.0 (rw clean at h))
  ]

  fill_way-Filled :
      (way : ℕ) (state : modules.State) (old : CacheBlock)
      {r : Bool × CacheState below.State modules.State}
      → get_elem? (get_set_span c fill.address) way ≡ some old
      → fill_way below modules fill way old (record c { cpu = fill.cpu; modules = state }) ≡ some r
      → Filled below fill way c r.1 r.0
  unfolding fill_way
  fill_way-Filled way state old {r} h runs =
      let (asked, wrote, rest) = >>=-some (ask_write_back below fill old c.lower) _ runs in
      answered asked (ask_write_back-cases old wrote) rest
    where
      answered :
          (asked : Bool × below.State)
          → ((is_dirty old ≡ true) × (below.add_wq (writeback fill old) c.lower ≡ some asked))
            ⊎ ((is_dirty old ≡ false) × ((true, c.lower) ≡ asked))
          → (if asked.0
              then (replace_block modules fill way old
                    (record c { cpu = fill.cpu; modules = state; lower = asked.1 })
                  >>= (λ filled. some (true, filled)))
              else some (false, record c { cpu = fill.cpu; modules = state; lower = asked.1 }))
            ≡ some r
          → Filled below fill way c r.1 r.0
      answered (true, lower) wrote rest =
          let (filled, ran, ends) =
            >>=-some
              (replace_block modules fill way old
                (record c { cpu = fill.cpu; modules = state; lower = lower }))
              _ rest in
          subst
            (λ (k : Bool × CacheState below.State modules.State). Filled below fill way c k.1 k.0)
            (some_inj.0 ends)
            (replace_block-Filled below modules fill way c state lower old h
              (elim wrote [
                | inl (dirty, took) ↦ inl (old, h, dirty, took)
                | inr (clean, same) ↦
                    inr (inr (old, h, clean), ap (λ (k : Bool × below.State). k.1) (sym same))
              ])
              ran)
      answered (false, lower) (inl (dirty, turned_down)) rest =
          subst
            (λ (k : Bool × CacheState below.State modules.State). Filled below fill way c k.1 k.0)
            (some_inj.0 rest) (Filled.refused refl (old, h, dirty, turned_down) refl refl)
      answered (false, lower) (inr (clean, same)) rest =
          absurd (cc (ap (λ (k : Bool × below.State). k.0) same))

  fill_at-Filled :
      (way : ℕ) (state : modules.State) (o : Option CacheBlock)
      → get_elem? (get_set_span c fill.address) way ≡ o
      → {r : Bool × CacheState below.State modules.State}
      → fill_at below modules fill way o (record c { cpu = fill.cpu; modules = state }) ≡ some r
      → Filled below fill way c r.1 r.0
  unfolding fill_at get_set_span get_set_index
  fill_at-Filled way state (some old) e h = fill_way-Filled way state old e h
  fill_at-Filled way state none e h =
      elim (Bool-cases (way == length (get_set_span c fill.address))) [
        | inl last ↦ elim (Bool-cases (fill.type == write_type)) [
          | inl writes ↦ absurd (cc (rw (last, writes) at h))
          | inr reads ↦
              let bypassed : (bypass modules fill way (record c { cpu = fill.cpu; modules = state })
                    >>= λ filled. some (true, filled))
                  ≡ some _ =
                rw (last, reads) at h in
              let (filled, runs, ends) =
                >>=-some (bypass modules fill way (record c { cpu = fill.cpu; modules = state })) _
                  bypassed in
              subst
                (λ (k : Bool × CacheState below.State modules.State).
                  Filled below fill way c k.1 k.0)
                (some_inj.0 ends)
                (bypass-Filled below modules fill way c state c.lower (==→eq _ _ last)
                  (==-false→ne _ _ reads) (inl e, refl) runs)
        ]
        | inr past ↦ absurd (cc (rw past at h))
      ]

  pub handle_fill-Filled :
      {success : Bool} {c' : CacheState below.State modules.State}
      → handle_fill below modules fill c ≡ some (success, c')
      → Filled below fill chosen.0 c c' success
  unfolding handle_fill get_set_span get_set_index
  handle_fill-Filled h =
      fill_at-Filled chosen.0 chosen.1 (get_elem? (get_set_span c fill.address) chosen.0) refl h
