-- ===== src/Proba/Access/Total.antt =====
-- The state of `Proba` stays well formed, and none of its assertions ever fails.
use proba_artifact.Prelude.{
  ℕ, suc, ne→==-false, ◌/◌, ◌%◌, ◌^◌, ◌≡◌, refl, ◌∙◌, inl, inr, Bool, true, false, not, ◌&&◌, ◌||◌,
  [], ◌∷◌, replicate, length, length-set, length-replicate, All, Option, some, Option-cases,
  Bool-cases, ◌==◌, if◌then◌else◌, arith,
}
use proba_artifact.SetAssoc
use proba_artifact.SetAssoc.{Entry}
use proba_artifact.SetAssoc.Holds.{Holds, insert-Holds, modify-Holds, erase-Holds, with_rank-Holds}
use proba_artifact.SetAssoc.Lru
use proba_artifact.Proba.Jail
use proba_artifact.Proba.Jail.Laws.{IsSized, write-IsSized}
use proba_artifact.Proba.Pattern.{Pattern, IsPattern, num_blocks}
use proba_artifact.Proba.Tables.{
  ActiveGenerationTableData, see_offset, agt_set_pattern, agt_insert, agt_num_valid, agt_erase,
  random_victim, ft_find, ft_erase,
}
use proba_artifact.Proba.Tables.Holds.{PhtHolds}
use proba_artifact.Proba.Buffer
use proba_artifact.Proba.Buffer.{Cache, PrefetchBuffer, PrefetchBufferData}
use proba_artifact.Proba.Buffer.Issued.{add_blocks-IsPattern}
use proba_artifact.Proba.State.{Draws, Proba}
use proba_artifact.Proba.Train.{update_in_pht}
use proba_artifact.Proba.Train.Total.{update_in_pht-total, if-some}
use proba_artifact.Proba.Train.View.Laws.{IsUnion}
use proba_artifact.Proba.Access.{
  filter_access, sampled, follow, trigger, access, eviction, prefetcher_cache_fill, is_some,
  is_free, region_of, offset_of,
}
use proba_artifact.Proba.Access.Predict.{predict-total}

-- A region that is followed has a bit for each block.
abbrev pub IsRegion : ActiveGenerationTableData → Type 0
IsRegion d = length d.pattern ≡ 64

abbrev pub IsHeld : PrefetchBufferData → Type 0
IsHeld d = IsPattern d.pattern

abbrev pub BufferHolds : PrefetchBuffer → Type 0
BufferHolds pb = Holds IsHeld pb.table.table.base

-- The active generation table holds regions, the history tables hold region patterns and modes of at
-- most 7, the prefetch buffer holds region patterns, and the jail has an entry for each hash.
pub record IsValid (p : Proba) : Type 0 where
  pub agt : Holds IsRegion p.agt
  pub phts : All PhtHolds p.phts
  pub pb : BufferHolds p.pb
  pub jt : IsSized p.jt

-- A state is reached, and it is well formed.
abbrev pub Succeeds : Option Proba → Type 0
Succeeds o = (p : Proba) × (o ≡ some p) × IsValid p

update_in_pht-IsValid :
    (draws : Draws) (e : Entry ActiveGenerationTableData) (eog : Bool) (p : Proba)
    → IsRegion e.payload
    → IsValid p
    → Succeeds (update_in_pht draws e eog p)
unfolding Jail.mark
update_in_pht-IsValid draws e eog p len v =
    let (p', at, ((holds, same, agt, pb, ft, config), jt)) =
      update_in_pht-total draws e eog p len v.phts in
    (p', at, record { agt = rw agt v.agt; phts = holds; pb = rw pb v.pb; jt = rw jt (jailed eog) })
  where
    jailed : (b : Bool) → IsSized (if b then p.jt else Jail.mark p.jt e.key)
    jailed true = v.jt
    jailed false = write-IsSized p.jt e.key true v.jt

Buffer-insert :
    (pb : PrefetchBuffer) (region_num : ℕ) (pattern : Pattern)
    → BufferHolds pb
    → IsPattern pattern
    → BufferHolds (Buffer.insert pb region_num pattern)
unfolding Buffer.insert Lru.insert Lru.modify Lru.set_mru
Buffer-insert pb region_num pattern h hp =
    let key = Buffer.build_key pb region_num in
    elim (Option-cases (Lru.find pb.table key)) [
      | inl missing ↦
          rw (missing, Buffer.insert)
            (with_rank-Holds IsHeld _ key (λ _. pb.table.t)
              (insert-Holds IsHeld Lru.select_victim pb.table.table.ranks pb.table.table.base key
                (record { pattern = pattern }) h hp).0)
      | inr (e, found) ↦
          rw (found, Buffer.insert)
            (with_rank-Holds IsHeld _ key (λ _. pb.table.t)
              (modify-Holds IsHeld pb.table.table.base key _ h
                (λ d hd. add_blocks-IsPattern pattern d.pattern hd)))
    ]

agt_set_pattern-Holds :
    (agt : SetAssoc.SetAssociativeCache ActiveGenerationTableData) (region_num offset : ℕ)
    → Holds IsRegion agt
    → Holds IsRegion (agt_set_pattern agt region_num offset).0
unfolding agt_set_pattern see_offset
agt_set_pattern-Holds agt region_num offset h =
    elim (Option-cases (SetAssoc.find agt (region_num % 2 ^ 37))) [
      | inl missing ↦ rw (missing, agt_set_pattern) h
      | inr (e, found) ↦
          rw (found, agt_set_pattern)
            (modify-Holds IsRegion agt _ (see_offset offset) h
              (λ d len. length-set d.pattern offset true ∙ len))
    ]

agt_insert-Holds :
    (rand : ℕ → ℕ) (calls : ℕ) (agt : SetAssoc.SetAssociativeCache ActiveGenerationTableData)
    (region_num offset pc addr : ℕ)
    → Holds IsRegion agt
    → Holds IsRegion (agt_insert rand calls agt region_num offset pc addr).1
      × ((agt_insert rand calls agt region_num offset pc addr).2.valid ≡ true
          → IsRegion (agt_insert rand calls agt region_num offset pc addr).2.payload)
unfolding agt_insert
agt_insert-Holds rand calls agt region_num offset pc addr h =
    insert-Holds IsRegion (random_victim rand agt.num_ways) calls agt _ _ h
      (length-set (replicate num_blocks false) offset true ∙ length-replicate num_blocks false)

-- An access's union goes to the prefetch buffer, unless it is empty.
union-BufferHolds :
    (pb : PrefetchBuffer) (region_num : ℕ) (acc : Pattern)
    → BufferHolds pb
    → IsUnion acc
    → BufferHolds (if length acc == 0 then pb else Buffer.insert pb region_num acc)
union-BufferHolds pb region_num [] h ok = h
union-BufferHolds pb region_num (x ∷ acc) h ok = elim ok [
  | inl e ↦ absurd (nonempty e)
  | inr hp ↦
      rw (ne→==-false (suc (length acc)) 0 (omega arith))
        (Buffer-insert pb region_num (x ∷ acc) h hp)
]
  where
    nonempty : ¬ (x ∷ acc ≡ [])
    nonempty e = cc

if-Succeeds :
    (b : Bool) (x y : Option Proba) → Succeeds x → Succeeds y → Succeeds (if b then x else y)
if-Succeeds b x y hx hy = if-some IsValid b x y hx hy

-- The victim of a followed region is learnt from.
tracked-IsValid :
    (draws : Draws) (region_num region_offset pc block_num calls : ℕ) (p : Proba)
    → IsValid p
    → (let (calls', agt', victim) =
          agt_insert draws.rand calls p.agt region_num region_offset pc block_num in
        let p' = record p { agt = agt'; calls = calls' } in
        Succeeds (if victim.valid then update_in_pht draws victim false p' else some p'))
tracked-IsValid draws region_num region_offset pc block_num calls p v =
    let r = agt_insert draws.rand calls p.agt region_num region_offset pc block_num in
    let (holds, old) =
      agt_insert-Holds draws.rand calls p.agt region_num region_offset pc block_num v.agt in
    let p' = record p { agt = r.1; calls = r.0 } in
    let v' : IsValid p' = record { agt = holds; phts = v.phts; pb = v.pb; jt = v.jt } in
    elim (Bool-cases r.2.valid) [
      | inl val ↦
          let (q, at, good) = update_in_pht-IsValid draws r.2 false p' (old val) v' in
          (q, branch r.2.valid _ _ val ∙ at, good)
      | inr free ↦ (p', other r.2.valid _ _ free, v')
    ]
  where
    branch : (b : Bool) (x y : Option Proba) → b ≡ true → (if b then x else y) ≡ x
    branch b x y h = rw h refl

    other : (b : Bool) (x y : Option Proba) → b ≡ false → (if b then x else y) ≡ y
    other b x y h = rw h refl

follow-IsValid :
    (draws : Draws) (region_num region_offset pc block_num : ℕ) (p : Proba)
    → IsValid p
    → Succeeds (follow draws region_num region_offset pc block_num p)
unfolding follow Jail.mark
follow-IsValid draws region_num region_offset pc block_num p v =
    let (sample, calls) = sampled draws p.config p.calls (agt_num_valid p.agt region_num) in
    if-Succeeds (not p.config.use_sampling || sample) _ _
      (tracked-IsValid draws region_num region_offset pc block_num calls p v)
      (
        record p { jt = Jail.mark p.jt region_num; calls = calls },
        refl,
        record {
          agt = v.agt;
          phts = v.phts;
          pb = v.pb;
          jt = write-IsSized p.jt region_num true v.jt;
        },
      )

trigger-IsValid :
    (draws : Draws) (region_num region_offset offset2 pc block_num : ℕ) (p : Proba)
    → IsValid p
    → Succeeds (trigger draws region_num region_offset offset2 pc block_num p)
unfolding trigger
trigger-IsValid draws region_num region_offset offset2 pc block_num p v =
    let (phts', acc, at, same, holds, union) =
      predict-total pc region_offset offset2 block_num p.phts [] v.phts (inl refl) in
    let pb' = if length acc == 0 then p.pb else Buffer.insert p.pb region_num acc in
    let p' = record p { phts = phts'; pb = pb' } in
    let v' : IsValid p' = record {
      agt = v.agt;
      phts = holds;
      pb = union-BufferHolds p.pb region_num acc v.pb union;
      jt = v.jt;
    } in
    rw at (
      if-Succeeds (offset2 == num_blocks) _ _
        (follow-IsValid draws region_num region_offset pc block_num p' v') (p', refl, v'))

-- Whatever is accessed and whatever the draws are, `access` succeeds on a well-formed state and
-- leaves one.
pub access-IsValid :
    (draws : Draws) (block_num pc : ℕ) (p : Proba)
    → IsValid p
    → Succeeds (access draws block_num pc p)
unfolding access
access-IsValid draws block_num pc p v =
    let region_num = region_of block_num in
    let a = agt_set_pattern p.agt region_num (offset_of block_num) in
    let f = ft_find p.ft region_num in
    let free = is_free p.config p.jt region_num in
    let g = filter_access f.0 f.1 (is_some a.1) free region_num (offset_of block_num) in
    let p' = record p { agt = a.0; ft = g.0 } in
    let v' : IsValid p' = record {
      agt = agt_set_pattern-Holds p.agt region_num (offset_of block_num) v.agt;
      phts = v.phts;
      pb = v.pb;
      jt = v.jt;
    } in
    let second = not (g.2 == num_blocks) in
    if-Succeeds ((not (is_some a.1) || second) && (second || free)) _ _
      (trigger-IsValid draws region_num g.1 g.2 pc block_num p' v') (p', refl, v')

-- So does `eviction`, which ends the region's generation.
pub eviction-IsValid :
    (draws : Draws) (block_num : ℕ) (p : Proba) → IsValid p → Succeeds (eviction draws block_num p)
unfolding eviction agt_erase Jail.unmark
eviction-IsValid draws block_num p v =
    let region_num = region_of block_num in
    let (holds, gone) = erase-Holds IsRegion p.agt (region_num % 2 ^ 37) v.agt in
    let p' = record p {
      ft = ft_erase p.ft region_num;
      agt = (SetAssoc.erase p.agt (region_num % 2 ^ 37)).0;
    } in
    elim (Option-cases (SetAssoc.erase p.agt (region_num % 2 ^ 37)).1) [
      | inl unknown ↦ (
        record p' { jt = Jail.unmark p.jt region_num },
        rw (unknown, eviction) refl,
        record {
          agt = holds;
          phts = v.phts;
          pb = v.pb;
          jt = write-IsSized p.jt region_num false v.jt;
        },
      )
      | inr (e, known) ↦
          let (q, at, good) =
            update_in_pht-IsValid draws e true p' (gone e known)
              (record { agt = holds; phts = v.phts; pb = v.pb; jt = v.jt }) in
          (q, rw (known, eviction) at, good)
    ]

-- `prefetcher_cache_fill` learns from the evicted block's region.
pub prefetcher_cache_fill-IsValid :
    (draws : Draws) (evicted_addr : ℕ) (p : Proba)
    → IsValid p
    → Succeeds (prefetcher_cache_fill draws evicted_addr p)
unfolding prefetcher_cache_fill
prefetcher_cache_fill-IsValid draws evicted_addr p v =
    if-Succeeds (evicted_addr / 2 ^ 6 == 0) _ _ (p, refl, v)
      (eviction-IsValid draws (evicted_addr / 2 ^ 6) p v)
