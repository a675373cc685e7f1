-- ===== src/Proba/Tables/Holds.antt =====
-- What a pattern history table holds: region patterns and modes of at most 7. Its operations keep
-- that, and trip no assertion.
use proba_artifact.Prelude.{
  ℕ, ◌+◌, ◌≤◌, ◌≡◌, refl, ◌∙◌, inl, inr, Bool, ◌&&◌, length, none, some, Option-cases, Bool-cases,
  ◌==◌, eq→==, arith,
}
use proba_artifact.Util.Counter.{counter, IsInRange}
use proba_artifact.SetAssoc
use proba_artifact.SetAssoc.{Entry}
use proba_artifact.SetAssoc.Holds.{Holds, find-Holds, update-Holds, insert-Holds, with_rank-Holds}
use proba_artifact.SetAssoc.Rrip
use proba_artifact.SetAssoc.Rrip.{RripSetAssociativeCache}
use proba_artifact.Proba.Pattern.{Pattern, IsPattern, num_blocks}
use proba_artifact.Proba.Tables.{
  PatternHistoryTableData, PatternHistoryTable, is_offset_offset, pht_build_key, pht_insert,
  pht_update, pht_update_no_touch, pht_find, pht_find_no_touch,
}

abbrev pub IsPrediction : PatternHistoryTableData → Type 0
IsPrediction d = IsPattern d.pattern × IsInRange d.mode × (d.mode.max ≤ 7)

abbrev pub PhtHolds : PatternHistoryTable → Type 0
PhtHolds t = Holds IsPrediction t.table.table.base

nothing : {A : Type 0} {a : A} → ¬ (none ≡ some a)
nothing q = cc

-- A look-up that succeeds is one at the built key.
find-at_key :
    (t : PatternHistoryTable) (p offset1 offset2 addr : ℕ) (e : Entry PatternHistoryTableData)
    → pht_find_no_touch t p offset1 offset2 addr ≡ some e
    → SetAssoc.find t.table.table.base (pht_build_key t p offset1 offset2 addr) ≡ some e
unfolding pht_find_no_touch
find-at_key t p offset1 offset2 addr e h =
    elim (Bool-cases ((offset2 == num_blocks) && is_offset_offset t.behavior)) [
      | inl skip ↦ absurd (nothing (rw skip at h))
      | inr ask ↦ rw ask at h
    ]

pub find_no_touch-IsPrediction :
    (t : PatternHistoryTable) (p offset1 offset2 addr : ℕ) (e : Entry PatternHistoryTableData)
    → PhtHolds t
    → pht_find_no_touch t p offset1 offset2 addr ≡ some e
    → IsPrediction e.payload
find_no_touch-IsPrediction t p offset1 offset2 addr e h found =
    find-Holds IsPrediction t.table.table.base (pht_build_key t p offset1 offset2 addr) e h
      (find-at_key t p offset1 offset2 addr e found)

pub pht_find-PhtHolds :
    (t : PatternHistoryTable) (p offset1 offset2 addr : ℕ)
    → PhtHolds t
    → PhtHolds (pht_find t p offset1 offset2 addr).0
      × ((e : Entry PatternHistoryTableData)
          → (pht_find t p offset1 offset2 addr).1 ≡ some e
          → IsPrediction e.payload)
unfolding pht_find Rrip.rp_promote
pht_find-PhtHolds t p offset1 offset2 addr h =
    elim (Option-cases (pht_find_no_touch t p offset1 offset2 addr)) [
      | inl missing ↦ rw (missing, pht_find) (h, λ e q. absurd (nothing q))
      | inr (e, at) ↦
          rw (at, pht_find)
            (
              with_rank-Holds IsPrediction t.table.table _ _ h,
              λ x q. find_no_touch-IsPrediction t p offset1 offset2 addr x h (at ∙ q),
            )
    ]

-- A region pattern can be inserted under any key.
pub pht_insert-PhtHolds :
    (b_dist : ℕ → Bool) (t : PatternHistoryTable) (key : ℕ) (pattern : Pattern)
    → PhtHolds t
    → IsPattern pattern
    → (t' : PatternHistoryTable) × (pht_insert b_dist t key pattern ≡ some t') × PhtHolds t'
unfolding pht_insert Rrip.insert Rrip.rp_insert
pht_insert-PhtHolds b_dist t key pattern h hp =
    let stored = (Rrip.insert t.table key (record { pattern = pattern; mode = counter 3 4 })).0 in
    let holds : Holds IsPrediction stored.table.base =
      (insert-Holds IsPrediction (Rrip.select_victim t.table.max_rrpv) t.table.table.ranks
        t.table.table.base key (record { pattern = pattern; mode = counter 3 4 }) h
        (hp, omega arith, omega arith)).0 in
    (
      record t { table = Rrip.rp_insert stored key (b_dist t.drawn); drawn = t.drawn + 1 },
      rw (eq→== (length pattern) num_blocks hp.0) refl,
      with_rank-Holds IsPrediction stored.table key _ holds,
    )

-- What was found can be overwritten by a region pattern, with and without a promotion.
pub pht_update_no_touch-PhtHolds :
    (t : PatternHistoryTable) (p offset1 offset2 addr : ℕ) (e : Entry PatternHistoryTableData)
    (pattern : Pattern)
    → PhtHolds t
    → pht_find_no_touch t p offset1 offset2 addr ≡ some e
    → IsPattern pattern
    → (t' : PatternHistoryTable) × (pht_update_no_touch t
          (pht_build_key t p offset1 offset2 addr)
          pattern
          e.payload.mode
        ≡ some t')
      × PhtHolds t'
unfolding pht_update_no_touch Rrip.update
pht_update_no_touch-PhtHolds t p offset1 offset2 addr e pattern h found hp =
    let (_, in_range, small) = find_no_touch-IsPrediction t p offset1 offset2 addr e h found in
    let (base', at, holds) =
      update-Holds IsPrediction t.table.table.base (pht_build_key t p offset1 offset2 addr) e
        (record { pattern = pattern; mode = e.payload.mode }) h
        (find-at_key t p offset1 offset2 addr e found) (hp, in_range, small) in
    (
      record t {
        table = record t.table { table = record { base = base'; ranks = t.table.table.ranks } };
      },
      rw (eq→== (length pattern) num_blocks hp.0, Rrip.update, at) refl,
      holds,
    )

pub pht_update-PhtHolds :
    (t : PatternHistoryTable) (p offset1 offset2 addr : ℕ) (e : Entry PatternHistoryTableData)
    (pattern : Pattern)
    → PhtHolds t
    → pht_find_no_touch t p offset1 offset2 addr ≡ some e
    → IsPattern pattern
    → (t' : PatternHistoryTable) × (pht_update t
          (pht_build_key t p offset1 offset2 addr)
          pattern
          e.payload.mode
        ≡ some t')
      × PhtHolds t'
unfolding pht_update Rrip.rp_promote
pht_update-PhtHolds t p offset1 offset2 addr e pattern h found hp =
    let (t', at, holds) =
      pht_update_no_touch-PhtHolds t p offset1 offset2 addr e pattern h found hp in
    (
      record t' { table = Rrip.rp_promote t'.table (pht_build_key t p offset1 offset2 addr) },
      rw at refl,
      with_rank-Holds IsPrediction t'.table.table _ _ holds,
    )
