-- ===== src/Cache/Refetch.antt =====
-- A fill, and the hits after it.
use proba_artifact.Prelude.{
  ℕ, sym, subst, ◌>>=◌, >>=-some, ◌/◌, ◌^◌, ◌%◌, ◌<◌, ◌≡◌, refl, ◌∙◌, ap, Bool, true, Option, none,
  some, List, [], ◌∷◌, ◌++◌, ◌==◌, ◌&&◌, length, arith, eq→==,
}
use mathlib.Core.Option.{some_inj}
use proba_artifact.Prelude.Rows.{row, row-set_self}
use proba_artifact.Msl.Bits.{lg2}
use proba_artifact.CacheQueues.Packet.{Packet}
use proba_artifact.Cache.State.{
  CacheBlock, CacheState, MemoryBelow, Modules, find_way, holds_block, get_set_index, get_set_span,
  write_way,
}
use proba_artifact.Cache.Hit.{
  try_hit, hit_found, hit_way, count_hit, call_prefetcher, operate_prefetcher,
}
use proba_artifact.Cache.Fill.{fill_block, handle_fill}
use proba_artifact.Cache.Filled.{Filled, geometry, chosen, find_way-set, handle_fill-Filled}

-- The search of a block by its number, in the sets of a vector.
abbrev search : ℕ × ℕ × ℕ → List CacheBlock → ℕ → Option (ℕ × CacheBlock)
search (sets, ways, bits) blocks number =
    find_way (λ b. b.valid && b.address / 2 ^ bits == number)
      (row ways (number % 2 ^ lg2 sets) blocks)

abbrev number : {L M : Type 0} → CacheState L M → Packet → ℕ
number c p = p.address / 2 ^ c.offset_bits

abbrev pub lookup_block : {L M : Type 0} → CacheState L M → Packet → Option (ℕ × CacheBlock)
lookup_block c p = find_way (holds_block p.address c.offset_bits) (get_set_span c p.address)

module _ {L : Type 0} (modules : Modules) (pkt : Packet) where
  -- A hit answers with the block that was found.
  abbrev pub Answers : ℕ → List Packet → Bool × CacheState L modules.State → Type 0
  Answers content returned r =
      (r.0 ≡ true)
      × ((metadata : ℕ) × (r.1.returned
            ≡ returned ++ record pkt { content = content; pf_metadata = metadata } ∷ []))

  hit_found-Answers :
      (metadata way : ℕ) (b : CacheBlock) (o : Option (ℕ × CacheBlock))
      (c : CacheState L modules.State)
      → o ≡ some (way, b)
      → Answers b.content c.returned (hit_found modules pkt metadata o c)
  unfolding hit_found hit_way write_way count_hit
  hit_found-Answers metadata way b o c h = rw h (refl, (metadata, refl))

  -- What the prefetcher answers when the request is looked up.
  abbrev pub Consulted : CacheState L modules.State → ℕ × CacheState L modules.State → Type 0
  Consulted c asked =
      operate_prefetcher modules pkt (lookup_block c pkt) (record c { cpu = pkt.cpu }) ≡ some asked

  operate_prefetcher-returned :
      (found : Option (ℕ × CacheBlock)) (c : CacheState L modules.State)
      {asked : ℕ × CacheState L modules.State}
      → operate_prefetcher modules pkt found c ≡ some asked
      → asked.1.returned ≡ c.returned
  unfolding operate_prefetcher
  operate_prefetcher-returned found c h =
      let (t, hook, made) = >>=-some (call_prefetcher modules pkt found c) _ h in
      ap (λ (k : ℕ × CacheState L modules.State). k.1.returned) (sym (some_inj.0 made))

  try_hit-Answers :
      (c : CacheState L modules.State) (asked : ℕ × CacheState L modules.State) (way : ℕ)
      (b : CacheBlock)
      → lookup_block c pkt ≡ some (way, b)
      → Consulted c asked
      → (r : Bool × CacheState L modules.State) × (try_hit modules pkt c ≡ some r)
        × Answers b.content c.returned r
  unfolding try_hit get_set_span get_set_index
  try_hit-Answers c asked way b h consulted = (
    hit_found modules pkt asked.0 (lookup_block c pkt) asked.1,
    ap
        (λ (o : Option (ℕ × CacheState L modules.State)).
          o >>= (λ k. some (hit_found modules pkt k.0 (lookup_block c pkt) k.1)))
        consulted,
    subst
        (λ (ps : List Packet).
          Answers b.content ps (hit_found modules pkt asked.0 (lookup_block c pkt) asked.1))
        (operate_prefetcher-returned (lookup_block c pkt) (record c { cpu = pkt.cpu }) consulted)
        (hit_found-Answers asked.0 way b (lookup_block c pkt) asked.1 h),
  )

holds_block-itself :
    (fill : Packet) (metadata bits : ℕ)
    → holds_block fill.address bits (fill_block fill metadata) ≡ true
unfolding fill_block
holds_block-itself fill metadata bits =
    eq→== (fill.address / 2 ^ bits) (fill.address / 2 ^ bits) refl

module _ (below : MemoryBelow) {M : Type 0} (fill : Packet) (way : ℕ)
    (c c' : CacheState below.State M) where
  -- A fill that is not bypassed puts its block where a search finds it.
  Filled-found :
      Filled below fill way c c' true
      → way < length (get_set_span c fill.address)
      → lookup_block c fill ≡ none
      → (metadata : ℕ) × (search (geometry c) c'.block (number c fill)
          ≡ some (way, fill_block fill metadata))
        × (geometry c' ≡ geometry c)
  unfolding get_set_span get_set_index
  Filled-found (Filled.replaced old metadata g h w b r) room missed =
      let test : CacheBlock → Bool =
        λ x. x.valid && x.address / 2 ^ c.offset_bits == number c fill in
      let set_row : List CacheBlock = row c.num_way (number c fill % 2 ^ lg2 c.num_set) c.block in
      (
        metadata,
        ap (λ (blocks : List CacheBlock). search (geometry c) blocks (number c fill)) b
            ∙ ap (find_way test) (
                row-set_self c.num_way (number c fill % 2 ^ lg2 c.num_set) way c.block
                  (fill_block fill metadata))
            ∙ find_way-set test set_row way (fill_block fill metadata) missed room
                (holds_block-itself fill metadata c.offset_bits),
        g,
      )
  Filled-found (Filled.bypassed metadata g last t w b r) room missed =
      absurd (omega (arith, last, room))

-- After a fill that succeeds and is not bypassed, of a block that was not in the cache, a
-- request for that block hits if the prefetcher, where it is consulted, returns; and its
-- producers are answered once, with the content that the fill brought.
pub handle_fill-try_hit :
    (below : MemoryBelow) (modules : Modules) (fill pkt : Packet)
    (c c' : CacheState below.State modules.State)
    → lookup_block c fill ≡ none
    → (chosen below modules fill c).0 < length (get_set_span c fill.address)
    → handle_fill below modules fill c ≡ some (true, c')
    → pkt.address / 2 ^ c.offset_bits ≡ fill.address / 2 ^ c.offset_bits
    → (asked : ℕ × CacheState below.State modules.State) → Consulted modules pkt c' asked
    → (r : Bool × CacheState below.State modules.State) × (try_hit modules pkt c' ≡ some r)
      × Answers modules pkt fill.content c'.returned r
unfolding get_set_span get_set_index fill_block
handle_fill-try_hit below modules fill pkt c c' missed room filled same asked consulted =
    let way = (chosen below modules fill c).0 in
    let (metadata, found, g) =
      Filled-found below fill way c c' (handle_fill-Filled below modules fill c filled) room
        missed in
    let moved : lookup_block c' pkt ≡ search (geometry c) c'.block (number c fill) =
      ap (λ (k : ℕ × ℕ × ℕ). search k c'.block (pkt.address / 2 ^ k.2)) g
      ∙ ap (search (geometry c) c'.block) same in
    try_hit-Answers modules pkt c' asked way (fill_block fill metadata) (moved ∙ found) consulted
