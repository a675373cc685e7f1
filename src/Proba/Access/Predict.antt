-- ===== src/Proba/Access/Predict.antt =====
-- The loop over the tables of `Proba::access` trips no assertion, and what it hands to the prefetch
-- buffer.
use proba_artifact.Prelude.{
  ℕ, ◌≡◌, refl, inl, inr, not, ◌&&◌, List, [], ◌∷◌, length, All, some, if◌then◌else◌, ◌==◌,
  Bool-cases, Option-cases, arith,
}
use proba_artifact.Proba.Pattern.{Pattern, fwd, num_blocks}
use proba_artifact.Proba.Pattern.Rotate.{rotate-IsPattern}
use proba_artifact.Proba.Tables.{PatternHistoryTable, is_pc, is_offset_offset, pht_find}
use proba_artifact.Proba.Tables.Holds.{PhtHolds, pht_find-PhtHolds}
use proba_artifact.Proba.Train.View.Laws.{IsUnion, accumulate-IsPattern, if-IsPattern}
use proba_artifact.Proba.Access.{predict_table, predict}

module _ (pc offset1 offset2 block_num : ℕ) where
  predict_table-total :
      (t : PatternHistoryTable) (acc : Pattern)
      → PhtHolds t
      → IsUnion acc
      → (t' : PatternHistoryTable) × (acc' : Pattern) × (predict_table t pc offset1 offset2
            block_num acc
          ≡ some (t', acc'))
        × PhtHolds t'
        × IsUnion acc'
  unfolding predict_table
  predict_table-total t acc holds ok =
      let found = pht_find t pc offset1 offset2 block_num in
      let (kept, what) = pht_find-PhtHolds t pc offset1 offset2 block_num holds in
      elim (Option-cases found.1) [
        | inl missing ↦ (found.0, acc, rw (missing, predict_table) refl, kept, ok)
        | inr (e, at) ↦
            let (held, _, _) = what e at in
            let turned =
              if-IsPattern (is_pc t.behavior) _ _
                (rotate-IsPattern e.payload.pattern (fwd offset1) held) held in
            let (r, took, union) = accumulate-IsPattern acc _ ok turned in
            (found.0, r, rw (at, predict_table, took) refl, kept, inr union)
      ]

  -- On tables that hold region patterns no assertion fails, no table is lost, the tables still hold
  -- region patterns, and the union of the predictions is empty or a region pattern.
  pub predict-total :
      (phts : List PatternHistoryTable) (acc : Pattern)
      → All PhtHolds phts
      → IsUnion acc
      → (phts' : List PatternHistoryTable) × (acc' : Pattern) × (predict phts pc offset1 offset2
            block_num acc
          ≡ some (phts', acc'))
        × (length phts' ≡ length phts)
        × All PhtHolds phts'
        × IsUnion acc'
  unfolding predict
  predict-total [] acc holds ok = ([], acc, refl, refl, tt, ok)
  predict-total (t ∷ phts) acc holds ok =
      let (t', acc', at, kept, ok') = step t acc holds.0 ok in
      let (phts', acc'', at', len, all, good) = predict-total phts acc' holds.1 ok' in
      (t' ∷ phts', acc'', rw (at, at') refl, omega (arith, len), (kept, all), good)
    where
      step :
          (t : PatternHistoryTable) (acc : Pattern)
          → PhtHolds t
          → IsUnion acc
          → (t' : PatternHistoryTable) × (acc' : Pattern) × ((if (offset2 == num_blocks)
                  && is_offset_offset t.behavior
                then some (t, acc)
                else if not (offset2 == num_blocks) && not (is_offset_offset t.behavior)
                then some (t, acc)
                else predict_table t pc offset1 offset2 block_num acc)
              ≡ some (t', acc'))
            × PhtHolds t'
            × IsUnion acc'
      step t acc holds ok =
          elim (Bool-cases ((offset2 == num_blocks) && is_offset_offset t.behavior)) [
            | inl skip ↦ (t, acc, rw skip refl, holds, ok)
            | inr a ↦
                elim (Bool-cases
                  (not (offset2 == num_blocks) && not (is_offset_offset t.behavior))) [
                    | inl skip ↦ (t, acc, rw (a, skip) refl, holds, ok)
                    | inr b ↦
                        let (t', acc', at, kept, good) = predict_table-total t acc holds ok in
                        (t', acc', rw (a, b) at, kept, good)
                  ]
          ]
