-- ===== src/Proba/Train/Grade/Total.antt =====
-- The second loop of `update_in_pht` trips no assertion, and leaves tables of region patterns.
use proba_artifact.Prelude.{
  ℕ, ◌<◌, ◌≡◌, refl, ap, ◌∙◌, ◌⊎◌, inl, inr, Bool, true, false, List, [], ◌∷◌, get_elem?_of_lt,
  get_or, set, suc, length, length-set, All, All-set, All-get_elem?, some, Option-cases, Bool-cases,
  ltb, if◌then◌else◌, arith,
}
use proba_artifact.SetAssoc.{Entry}
use proba_artifact.SetAssoc.Holds.{modify-Holds}
use proba_artifact.SetAssoc.Rrip
use proba_artifact.Util.Counter.{inc-IsInRange, dec-IsInRange}
use proba_artifact.Proba.Pattern.{Pattern, IsPattern, back, rotate, count_bits_set, accuracy_of}
use proba_artifact.Proba.Pattern.Union.{union_patterns-Covers}
use proba_artifact.Proba.Pattern.Count.{count_bits_same-le}
use proba_artifact.Proba.Tables.{
  ActiveGenerationTableData, PatternHistoryTableData, PatternHistoryTable, is_pc,
}
use proba_artifact.Proba.Tables.Holds.{PhtHolds, IsPrediction, find_no_touch-IsPrediction}
use proba_artifact.Proba.State.{Config, Window}
use proba_artifact.Proba.Train.View.{observation_for, prediction_for, aligned, look_up, key_in}
use proba_artifact.Proba.Train.View.Laws.{views-IsPattern}
use proba_artifact.Proba.Train.Grade.{
  threshold, corrected, step_mode, adjust, unmasked, grade_entry, grade,
}

length-unmasked : (mask p : Pattern) → length (unmasked mask p) ≡ length p
unfolding unmasked
length-unmasked [] p = refl
length-unmasked (m ∷ mask) [] = refl
length-unmasked (m ∷ mask) (x ∷ p) = ap suc (length-unmasked mask p)

step_mode-IsPrediction :
    (better : Bool) (e : PatternHistoryTableData)
    → IsPrediction e
    → IsPrediction (step_mode better e)
unfolding step_mode
step_mode-IsPrediction true e (p, r, small) =
    let (r', same) = inc-IsInRange e.mode r in (p, r', omega arith)
step_mode-IsPrediction false e (p, r, small) =
    let (r', same) = dec-IsInRange e.mode r in (p, r', omega arith)

module _ (config : Config) (w : Window) (d : ActiveGenerationTableData)
    (len : length d.pattern ≡ 64) where
  adjust-PhtHolds :
      (t : PatternHistoryTable) (pop : ℕ) (better : Bool)
      → PhtHolds t
      → PhtHolds (adjust d t pop better)
  unfolding adjust Rrip.modify
  adjust-PhtHolds t pop better h = elim (Bool-cases (ltb 0 pop)) [
    | inl blocks ↦ rw blocks (
        modify-Holds IsPrediction t.table.table.base (key_in d t) (step_mode better) h
          (step_mode-IsPrediction better))
    | inr empty ↦ rw empty h
  ]

  seen_views :
      (t : PatternHistoryTable) (e : Entry PatternHistoryTableData)
      → PhtHolds t
      → look_up d t ≡ some e
      → IsPattern (observation_for d t.behavior)
        × IsPattern (prediction_for d t.behavior e.payload.pattern)
        × IsPattern (aligned d t.behavior (prediction_for d t.behavior e.payload.pattern))
  unfolding look_up
  seen_views t e h found =
      let (held, _, _) =
        find_no_touch-IsPrediction t d.pc d.trigger_offset d.second_offset d.addr e h found in
      let (obs, pred, _, _) = views-IsPattern d t.behavior e.payload.pattern len held in
      let (_, _, _, turned) =
        views-IsPattern d t.behavior (prediction_for d t.behavior e.payload.pattern) len pred in
      (obs, pred, turned)

  -- The first table, and the others: `seen` is a region pattern from then on.
  grade_entry-total :
      (first : Bool) (seen : Pattern) (local : ℕ) (t : PatternHistoryTable)
      (e : Entry PatternHistoryTableData)
      → PhtHolds t
      → look_up d t ≡ some e
      → (first ≡ true) ⊎ IsPattern seen
      → (t' : PatternHistoryTable) × (seen' : Pattern) × (grade_entry config w d first seen local t
            e
          ≡ some (t', seen'))
        × PhtHolds t'
        × IsPattern seen'
  unfolding grade_entry
  grade_entry-total true seen local t e h found ok =
      let (obs, pred, turned) = seen_views t e h found in
      let prediction = prediction_for d t.behavior e.payload.pattern in
      (
        adjust d t (count_bits_set prediction)
            (ltb (threshold config w config.proba_acc_thr1) (corrected config w local)),
        aligned d t.behavior prediction,
        refl,
        adjust-PhtHolds t _ _ h,
        turned,
      )
  grade_entry-total false seen local t e h found ok =
      let (obs, pred, turned) = seen_views t e h found in
      let prediction = prediction_for d t.behavior e.payload.pattern in
      let observation = observation_for d t.behavior in
      let mask = if is_pc t.behavior then rotate seen (back d.trigger_offset) else seen in
      let same_length : length (unmasked mask prediction) ≡ length (unmasked mask observation) =
        omega (arith, length-unmasked mask prediction, length-unmasked mask observation) in
      let (same, counted, _, _) =
        count_bits_same-le (unmasked mask prediction) (unmasked mask observation) same_length in
      let (seen', joined, union, _) =
        union_patterns-Covers seen (aligned d t.behavior prediction) (later ok) turned in
      (
        adjust d t (count_bits_set (unmasked mask prediction)) (
            ltb (threshold config w config.proba_acc_thr2)
              (corrected config w (accuracy_of same (count_bits_set (unmasked mask prediction))))),
        seen',
        rw (counted, joined) refl,
        adjust-PhtHolds t _ _ h,
        union,
      )
    where
      later : (false ≡ true) ⊎ IsPattern seen → IsPattern seen
      later (inl q) = absurd (off q)
        where
          off : ¬ (false ≡ true)
          off r = cc
      later (inr h) = h

  -- On a region of 64 blocks, with indices of tables that hold region patterns and modes of at most
  -- 7, the loop trips no assertion, loses no table, and keeps what they hold so.
  pub grade-total :
      (accuracy is : List ℕ) (first : Bool) (seen : Pattern) (phts : List PatternHistoryTable)
      → (first ≡ true) ⊎ IsPattern seen
      → All (λ i. i < length phts) is
      → All PhtHolds phts
      → (phts' : List PatternHistoryTable) × (grade config w d accuracy is first seen phts
          ≡ some phts')
        × (length phts' ≡ length phts)
        × All PhtHolds phts'
  unfolding grade
  grade-total accuracy [] first seen phts ok hi hp = (phts, refl, refl, hp)
  grade-total accuracy (i ∷ is) first seen phts ok hi hp =
      let (t, at) = get_elem?_of_lt phts i hi.0 in
      let h = All-get_elem? PhtHolds phts i hp at in
      elim (Option-cases (look_up d t)) [
        | inl missing ↦
            let (phts', rest, same, all) = grade-total accuracy is first seen phts ok hi.1 hp in
            (phts', rw (at, grade, missing) rest, same, all)
        | inr (e, found) ↦
            let (t', seen', step, good, union) =
              grade_entry-total first seen (get_or accuracy i 0) t e h found ok in
            let same = length-set phts i t' in
            let (phts', rest, len, all) =
              grade-total accuracy is false seen' (set phts i t') (inr union) (rw same hi.1)
                (All-set PhtHolds phts i t' hp good) in
            (phts', rw (at, grade, found, step) rest, len ∙ same, all)
      ]
