-- ===== src/Cache/Shape.antt =====
-- The shape of the vector of blocks, which no operation changes, and the way that a fill chooses.
use proba_artifact.Prelude.{
  ℕ, suc, ◌*◌, ◌/◌, ◌%◌, ◌^◌, ◌<◌, ◌≡◌, inl, inr, subst, Bool, not, Option, none, some, List, [],
  ◌∷◌, length, length-take, length-drop, drop, arith, All, Bool-cases, Option-cases,
}
use native.Mathlib.Nat.{mul-le-mul, mod-lt, one-le-pow}
use proba_artifact.Msl.Bits.{lg2}
use proba_artifact.CacheQueues.Packet.{Packet}
use proba_artifact.Cache.State.{
  CacheBlock, CacheState, MemoryBelow, Modules, find_way, get_set_index, get_set_span,
}
use proba_artifact.Cache.Fill.{choose_way}
use proba_artifact.Cache.Filled.{chosen}

abbrev pub shape : {L M : Type 0} → CacheState L M → ℕ × ℕ × ℕ
shape c = (c.num_set, c.num_way, length c.block)

-- A power of two of sets, each with all its ways.
abbrev pub IsShape : ℕ → ℕ × ℕ × ℕ → Type 0
IsShape ways s = (s.0 ≡ 2 ^ lg2 s.0) × (s.1 ≡ ways) × (s.2 ≡ s.0 * s.1)

-- The policy chooses a way of the set.
pub record FindsVictim (ways : ℕ) (modules : Modules) : Type 0 where
  pub victim_lt :
      (cpu instr_id index : ℕ) (blocks : List CacheBlock) (ip address type : ℕ) (s : modules.State)
      → (modules.find_victim cpu instr_id index blocks ip address type s).0 < ways

find_way-lt :
    (test : CacheBlock → Bool) (bs : List CacheBlock) {w : ℕ × CacheBlock}
    → find_way test bs ≡ some w
    → w.0 < length bs
unfolding find_way
find_way-lt test [] h = absurd (cc h)
find_way-lt test (x ∷ xs) h = elim (Bool-cases (test x)) [
  | inl e ↦
      subst
        (λ (o : Option (ℕ × CacheBlock)). elim o [ none ↦ Unit | some k ↦ k.0 < suc (length xs) ])
        (rw (e, find_way) at h) (omega arith)
  | inr e ↦ elim (Option-cases (find_way test xs)) [
    | inl later ↦ absurd (cc (rw (e, later) at h))
    | inr (k, later) ↦
        subst
          (λ (o : Option (ℕ × CacheBlock)). elim o [ none ↦ Unit | some k ↦ k.0 < suc (length xs) ])
          (rw (e, later) at h) (omega (arith, find_way-lt test xs later))
  ]
]

-- What holds of all blocks holds of the one that is found.
pub find_way-All :
    (P : CacheBlock → Type 0) (test : CacheBlock → Bool) (bs : List CacheBlock) {w : ℕ × CacheBlock}
    → All P bs
    → find_way test bs ≡ some w
    → P w.1
unfolding find_way
find_way-All P test [] a h = absurd (cc h)
find_way-All P test (x ∷ xs) a h = elim (Bool-cases (test x)) [
  | inl e ↦
      subst (λ (o : Option (ℕ × CacheBlock)). elim o [ none ↦ Unit | some k ↦ P k.1 ]) (rw e at h)
        a.0
  | inr e ↦ elim (Option-cases (find_way test xs)) [
    | inl later ↦ absurd (cc (rw (e, later) at h))
    | inr (k, later) ↦
        subst (λ (o : Option (ℕ × CacheBlock)). elim o [ none ↦ Unit | some k ↦ P k.1 ])
          (rw (e, later) at h) (find_way-All P test xs a.1 later)
  ]
]

module _ {L M : Type 0} (ways : ℕ) where
  length-span :
      (c : CacheState L M) (address : ℕ)
      → IsShape ways (shape c)
      → length (get_set_span c address) ≡ ways
  unfolding get_set_span get_set_index
  length-span c address s =
      let index = address / 2 ^ c.offset_bits % 2 ^ lg2 c.num_set in
      let lt = mod-lt (address / 2 ^ c.offset_bits) (one-le-pow (lg2 c.num_set) 2 (omega arith)) in
      let fits =
        mul-le-mul {n₁ = suc index} {m₁ = c.num_way} {n₂ = c.num_set} {m₂ = c.num_way}
          (omega (arith, lt, s.0)) (omega arith) in
      let rest = drop (index * c.num_way) c.block in
      grind
        (arith, length-take c.num_way rest, length-drop (index * c.num_way) c.block, fits, s.1, s.2)

pub chosen-lt :
    (below : MemoryBelow) (modules : Modules) (ways : ℕ)
    → FindsVictim ways modules
    → (pkt : Packet) (c : CacheState below.State modules.State) → IsShape ways (shape c)
    → (chosen below modules pkt c).0 < length (get_set_span c pkt.address)
unfolding choose_way get_set_span get_set_index
chosen-lt below modules ways policy pkt c s =
    let span = get_set_span c pkt.address in
    elim (Option-cases (find_way (λ b. not b.valid) span)) [
      | inl e ↦
          rw (e, choose_way)
            (omega (arith, length-span ways c pkt.address s, policy.victim_lt _ _ _ _ _ _ _ _))
      | inr (w, e) ↦ rw (e, choose_way) (find_way-lt (λ b. not b.valid) span e)
    ]
