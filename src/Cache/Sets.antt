-- ===== src/Cache/Sets.antt =====
-- The sets of a cache after a fill.
use proba_artifact.Prelude.{
  ℕ, zero, suc, ◌+◌, ◌*◌, ◌<◌, ◌≡◌, ◌≢◌, ◌⊎◌, inl, inr, refl, sym, subst, ◌∙◌, ap, Bool, true,
  false, none, some, List, [], ◌∷◌, ◌++◌, set, get_elem?, length, length-take, drop,
  get_elem?-set_self, get_elem?-set_ne, lt-of-get_elem?, arith, ℕ-cases, Bool-cases, Option-cases,
}
use mathlib.Core.Option.{some_inj}
use proba_artifact.Prelude.Rows.{row, row-set_self, row-set_ne}
use proba_artifact.CacheQueues.Packet.{Packet}
use proba_artifact.Cache.State.{
  CacheBlock, CacheState, MemoryBelow, Modules, find_way, holds_block, get_set_index, get_set_span,
}
use proba_artifact.Cache.Fill.{fill_block, handle_fill}
use proba_artifact.Cache.Filled.{Filled, Written, Unwritten, chosen, handle_fill-Filled}
use proba_artifact.Cache.Refetch.{lookup_block}

find_way-miss :
    (test : CacheBlock → Bool) (x : CacheBlock) (xs : List CacheBlock)
    → find_way test (x ∷ xs) ≡ none
    → (test x ≡ false) × (find_way test xs ≡ none)
unfolding find_way
find_way-miss test x xs missed = elim (Bool-cases (test x)) [
  | inl e ↦ absurd (cc (rw e at missed))
  | inr e ↦ elim (Option-cases (find_way test xs)) [
    | inr (w, later) ↦ absurd (cc (rw (e, later) at missed))
    | inl later ↦ (e, later)
  ]
]

find_way-none :
    (test : CacheBlock → Bool) (bs : List CacheBlock) (i : ℕ) {b : CacheBlock}
    → find_way test bs ≡ none
    → get_elem? bs i ≡ some b
    → test b ≡ false
find_way-none test [] i missed h = absurd (cc h)
find_way-none test (x ∷ xs) zero missed h =
    ap test (sym (some_inj.0 h)) ∙ (find_way-miss test x xs missed).0
find_way-none test (x ∷ xs) (suc i) missed h =
    find_way-none test xs i (find_way-miss test x xs missed).1 h

-- No two ways hold one block.
pub record IsUnique (bits : ℕ) (bs : List CacheBlock) : Type 0 where
  pub same_way :
      (i j : ℕ) (a b : CacheBlock)
      → get_elem? bs i ≡ some a
      → get_elem? bs j ≡ some b
      → a.valid ≡ true
      → holds_block a.address bits b ≡ true
      → i ≡ j

holds_block-sym :
    (bits : ℕ) (a b : CacheBlock)
    → a.valid ≡ true
    → holds_block a.address bits b ≡ true
    → holds_block b.address bits a ≡ true
holds_block-sym bits a b va vb = ground (arith, va, vb)

IsUnique-set :
    (bits : ℕ) (bs : List CacheBlock) (way : ℕ) (new : CacheBlock)
    → IsUnique bits bs
    → find_way (holds_block new.address bits) bs ≡ none
    → way < length bs
    → IsUnique bits (set bs way new)
IsUnique-set bits bs way new unique missed room = record {
  same_way = λ i j a b hi hj va vb. elim (ℕ-cases way i) [
    | inl p ↦ elim (ℕ-cases way j) [
      | inl q ↦ sym p ∙ q
      | inr q ↦
          let is_new : new ≡ a = written p hi in
          absurd (
            clash j (other q hj)
              (ap (λ (x : CacheBlock). holds_block x.address bits b) is_new ∙ vb))
    ]
    | inr p ↦ elim (ℕ-cases way j) [
      | inl q ↦
          let is_new : new ≡ b = written q hj in
          absurd (
            clash i (other p hi) (
              ap (λ (x : CacheBlock). holds_block x.address bits a) is_new
              ∙ holds_block-sym bits a b va vb))
      | inr q ↦ unique.same_way i j a b (other p hi) (other q hj) va vb
    ]
  ];
}
  where
    written : {k : ℕ} {x : CacheBlock} → way ≡ k → get_elem? (set bs way new) k ≡ some x → new ≡ x
    written p h =
        some_inj.0
          (sym (get_elem?-set_self bs way new room) ∙ ap (get_elem? (set bs way new)) p ∙ h)

    other :
        {k : ℕ} {x : CacheBlock}
        → way ≢ k
        → get_elem? (set bs way new) k ≡ some x
        → get_elem? bs k ≡ some x
    other {k} p h = sym (get_elem?-set_ne bs way k new p) ∙ h

    clash :
        (k : ℕ) {x : CacheBlock}
        → get_elem? bs k ≡ some x
        → holds_block new.address bits x ≡ true
        → ⊥
    clash k {x} h t = cc (sym t ∙ find_way-none (holds_block new.address bits) bs k missed h)

module _ (below : MemoryBelow) {M : Type 0} (fill : Packet) (way : ℕ)
    (c c' : CacheState below.State M) where
  -- The answers of a fill.
  Filled-answer :
      {success : Bool}
      → Filled below fill way c c' success
      → ((success ≡ false)
          × Written below fill way c c' false
          × (c'.block ≡ c.block)
          × (c'.returned ≡ c.returned))
        ⊎ ((success ≡ true)
            × (Written below fill way c c' true ⊎ Unwritten below fill way c c')
            × ((metadata : ℕ) × (c'.returned
                  ≡ c.returned ++ record fill { pf_metadata = metadata } ∷ [])))
  Filled-answer (Filled.refused g w b a) = inl (refl, w, b, a)
  Filled-answer (Filled.bypassed metadata g last t w b a) = inr (refl, inr w, (metadata, a))
  Filled-answer (Filled.replaced old metadata g h w b a) =
      inr (refl, w, ((fill_block fill metadata).pf_metadata, a))

  -- The rows after a fill.
  Filled-row :
      {success : Bool}
      → Filled below fill way c c' success
      → (r : ℕ)
      → (row c'.num_way r c'.block ≡ row c.num_way r c.block)
        ⊎ ((r ≡ get_set_index c fill.address)
            × ((metadata : ℕ) × (way < length (get_set_span c fill.address))
                × (row c'.num_way r c'.block
                    ≡ set (row c.num_way r c.block) way (fill_block fill metadata))))
  unfolding get_set_span
  Filled-row (Filled.refused g w b a) r =
      inl (ap (λ (k : ℕ × ℕ × ℕ). row k.1 r c'.block) g ∙ ap (row c.num_way r) b)
  Filled-row (Filled.bypassed metadata g last t w b a) r =
      inl (ap (λ (k : ℕ × ℕ × ℕ). row k.1 r c'.block) g ∙ ap (row c.num_way r) b)
  Filled-row (Filled.replaced old metadata g h w b a) r =
      let index = get_set_index c fill.address in
      let room = lt-of-get_elem? (get_set_span c fill.address) way h in
      let new = fill_block fill metadata in
      let now : row c'.num_way r c'.block
          ≡ row c.num_way r (set c.block (index * c.num_way + way) new) =
        ap (λ (k : ℕ × ℕ × ℕ). row k.1 r c'.block) g ∙ ap (row c.num_way r) b in
      elim (ℕ-cases index r) [
        | inl e ↦ inr (
          sym e,
          (
            metadata,
            room,
            now
                ∙ ap (λ (i : ℕ). row c.num_way r (set c.block (i * c.num_way + way) new)) e
                ∙ row-set_self c.num_way r way c.block new,
          ),
        )
        | inr e ↦ inl (
            now
            ∙ row-set_ne c.num_way index r way c.block new e
                (omega (arith, room, length-take c.num_way (drop (index * c.num_way) c.block))))
      ]

module _ (below : MemoryBelow) (modules : Modules) (fill : Packet)
    (c c' : CacheState below.State modules.State) (success : Bool)
    (h : handle_fill below modules fill c ≡ some (success, c')) where
  -- A fill that returns is turned down only where the chosen way holds a dirty block and the
  -- level below turns down its write-back; then it changes no block and answers nobody. One that
  -- succeeds found the write-back of a dirty block taken, or asked for none, the way holding no
  -- dirty block, and left the level below as it was; it answers with one packet, the fill's with
  -- new metadata. In either case the sets of other blocks stay.
  pub handle_fill-result :
      (r : ℕ)
      → r ≢ get_set_index c fill.address
      → (((success ≡ false)
            × Written below fill (chosen below modules fill c).0 c c' false
            × (c'.block ≡ c.block)
            × (c'.returned ≡ c.returned))
          ⊎ ((success ≡ true)
              × (Written below fill (chosen below modules fill c).0 c c' true
                  ⊎ Unwritten below fill (chosen below modules fill c).0 c c')
              × ((metadata : ℕ) × (c'.returned
                    ≡ c.returned ++ record fill { pf_metadata = metadata } ∷ []))))
        × (row c'.num_way r c'.block ≡ row c.num_way r c.block)
  handle_fill-result r other =
      let filled = handle_fill-Filled below modules fill c h in
      (
        Filled-answer below fill (chosen below modules fill c).0 c c' filled,
        elim (Filled-row below fill (chosen below modules fill c).0 c c' filled r) [
          | inl same ↦ same
          | inr (e, rest) ↦ absurd (other e)
        ],
      )

  -- Where no set holds a block in two ways and the block of the fill is not in the cache, no set
  -- holds a block in two ways after handle_fill, on any of its branches.
  pub handle_fill-IsUnique :
      lookup_block c fill ≡ none
      → ((r : ℕ) → IsUnique c.offset_bits (row c.num_way r c.block))
      → (r : ℕ) → IsUnique c.offset_bits (row c'.num_way r c'.block)
  unfolding get_set_span fill_block
  handle_fill-IsUnique missed unique r =
      elim (Filled-row below fill (chosen below modules fill c).0 c c'
        (handle_fill-Filled below modules fill c h) r) [
          | inl same ↦ subst (IsUnique c.offset_bits) (sym same) (unique r)
          | inr (e, (metadata, room, now)) ↦
              let way = (chosen below modules fill c).0 in
              let at_row : find_way (holds_block fill.address c.offset_bits)
                    (row c.num_way r c.block)
                  ≡ none =
                ap
                  (λ (k : ℕ).
                    find_way (holds_block fill.address c.offset_bits) (row c.num_way k c.block))
                  e
                ∙ missed in
              subst (IsUnique c.offset_bits) (sym now) (
                IsUnique-set c.offset_bits (row c.num_way r c.block) way (fill_block fill metadata)
                  (unique r) at_row
                  (subst (λ (k : ℕ). way < length (row c.num_way k c.block)) (sym e) room))
        ]
