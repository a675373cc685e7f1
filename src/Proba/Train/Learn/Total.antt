-- ===== src/Proba/Train/Learn/Total.antt =====
-- The third loop of `update_in_pht` trips no assertion, and leaves tables of region patterns.
use proba_artifact.Prelude.{
  ℕ, ◌+◌, ◌<◌, ◌≡◌, refl, ◌∙◌, inl, inr, Bool, true, false, List, [], ◌∷◌, get_elem?_of_lt, get_or,
  set, length, length-set, All, All-set, All-get_elem?, some, Option-cases, Bool-cases, ltb, leb,
  arith,
}
use proba_artifact.SetAssoc.{Entry}
use proba_artifact.Util.Counter.{get_cnt}
use proba_artifact.Proba.Pattern.{IsPattern, count_bits_set, sample, num_blocks}
use proba_artifact.Proba.Pattern.Sample.{sample-IsPattern}
use proba_artifact.Proba.Tables.{
  ActiveGenerationTableData, PatternHistoryTableData, PatternHistoryTable,
}
use proba_artifact.Proba.Tables.Holds.{
  PhtHolds, find_no_touch-IsPrediction, pht_update-PhtHolds, pht_update_no_touch-PhtHolds,
  pht_insert-PhtHolds,
}
use proba_artifact.Proba.State.{Draws, get_probs}
use proba_artifact.Proba.Train.View.{
  observation_for, prediction_for, stored_pattern_for, look_up, key_in,
}
use proba_artifact.Proba.Train.View.Laws.{views-IsPattern, stored_pattern-IsPattern}
use proba_artifact.Proba.Train.Learn.{learn_known, learn_new, learn_table, learn}

module _ (draws : Draws) (d : ActiveGenerationTableData) (len : length d.pattern ≡ 64) where
  learn_known-total :
      (touch : Bool) (calls : ℕ) (t : PatternHistoryTable) (e : Entry PatternHistoryTableData)
      → PhtHolds t
      → look_up d t ≡ some e
      → (t' : PatternHistoryTable) × (calls' : ℕ) × (learn_known draws d touch calls t e
          ≡ some (t', calls'))
        × PhtHolds t'
  unfolding learn_known look_up
  learn_known-total touch calls t e h found =
      let (held, in_range, small) =
        find_no_touch-IsPrediction t d.pc d.trigger_offset d.second_offset d.addr e h found in
      let (obs, pred, _, _) = views-IsPattern d t.behavior e.payload.pattern len held in
      let stored =
        sample draws.rand calls (get_probs e.payload.mode).0 (get_probs e.payload.mode).1
          (prediction_for d t.behavior e.payload.pattern) (observation_for d t.behavior) in
      let ok : IsPattern stored = sample-IsPattern draws.rand calls _ _ _ _ pred obs in
      let fits : leb (get_cnt e.payload.mode) 7 ≡ true = ground arith in
      elim (Bool-cases touch) [
        | inl touched ↦
            let (t', at, good) =
              pht_update-PhtHolds t d.pc d.trigger_offset d.second_offset d.addr e stored h found
                ok in
            (t', calls + num_blocks, rw (fits, touched, at) refl, good)
        | inr spared ↦
            let (t', at, good) =
              pht_update_no_touch-PhtHolds t d.pc d.trigger_offset d.second_offset d.addr e stored h
                found ok in
            (t', calls + num_blocks, rw (fits, spared, at) refl, good)
      ]

  learn_new-total :
      (calls : ℕ) (t : PatternHistoryTable)
      → PhtHolds t
      → (t' : PatternHistoryTable) × (calls' : ℕ) × (learn_new draws d calls t ≡ some (t', calls'))
        × PhtHolds t'
  unfolding learn_new
  learn_new-total calls t h =
      elim (Bool-cases (ltb 0 (count_bits_set (stored_pattern_for d t.behavior)))) [
        | inl blocks ↦
            let ok = stored_pattern-IsPattern d t.behavior len in
            let (t', at, good) =
              pht_insert-PhtHolds draws.b_dist t (key_in d t) (stored_pattern_for d t.behavior) h
                ok in
            (t', calls, rw (blocks, at) refl, good)
        | inr empty ↦ (t, calls, rw empty refl, h)
      ]

  learn_table-total :
      (touch : Bool) (calls : ℕ) (t : PatternHistoryTable)
      → PhtHolds t
      → (t' : PatternHistoryTable) × (calls' : ℕ) × (learn_table draws d touch calls t
          ≡ some (t', calls'))
        × PhtHolds t'
  unfolding learn_table
  learn_table-total touch calls t h = elim (Option-cases (look_up d t)) [
    | inl missing ↦
        let (t', calls', at, good) = learn_new-total calls t h in
        (t', calls', rw (missing, learn_table) at, good)
    | inr (e, found) ↦
        let (t', calls', at, good) = learn_known-total touch calls t e h found in
        (t', calls', rw (found, learn_table) at, good)
  ]

  -- On a region of 64 blocks, with indices of tables that hold region patterns and modes of at most
  -- 7, the loop trips no assertion, loses no table, and keeps what they hold so.
  pub learn-total :
      (touches : List Bool) (is : List ℕ) (calls : ℕ) (phts : List PatternHistoryTable)
      → All (λ i. i < length phts) is
      → All PhtHolds phts
      → (phts' : List PatternHistoryTable) × (calls' : ℕ) × (learn draws d touches is calls phts
          ≡ some (phts', calls'))
        × (length phts' ≡ length phts)
        × All PhtHolds phts'
  unfolding learn
  learn-total touches [] calls phts hi hp = (phts, calls, refl, refl, hp)
  learn-total touches (i ∷ is) calls phts hi hp =
      let (t, at) = get_elem?_of_lt phts i hi.0 in
      let (t', calls', step, good) =
        learn_table-total (get_or touches i false) calls t (All-get_elem? PhtHolds phts i hp at) in
      let same = length-set phts i t' in
      let (phts', calls'', rest, len, all) =
        learn-total touches is calls' (set phts i t') (rw same hi.1)
          (All-set PhtHolds phts i t' hp good) in
      (phts', calls'', rw (at, learn, step) rest, len ∙ same, all)
