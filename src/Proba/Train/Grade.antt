-- ===== src/Proba/Train/Grade.antt =====
-- The second loop of `Proba::update_in_pht`: the modes of the entries are stepped by their marginal
-- accuracies. `none` is an assertion that fails.
pub mod Total
use proba_artifact.Prelude.{
  ℕ, ◌-◌, ◌*◌, ◌/◌, min, Bool, false, ◌&&◌, List, [], ◌∷◌, get_elem?, get_or, set, Option, none,
  some, ltb, if◌then◌else◌, ◌>>=◌,
}
use proba_artifact.Util.Counter.{inc, dec}
use proba_artifact.SetAssoc.{Entry}
use proba_artifact.SetAssoc.Rrip
use proba_artifact.Proba.Pattern.{
  Pattern, back, rotate, union_patterns, count_bits_set, count_bits_same, accuracy_of,
}
use proba_artifact.Proba.Tables.{
  ActiveGenerationTableData, PatternHistoryTableData, PatternHistoryTable, is_pc,
}
use proba_artifact.Proba.State.{Window, Config}
use proba_artifact.Proba.Train.View.{observation_for, prediction_for, aligned, look_up, key_in}

-- The threshold and the accuracy that are compared; both are clamped to 0 … 100.
unfoldable pub threshold : Config → Window → ℕ → ℕ
threshold config w thr =
    min
      (if config.is_accuracy_targeter && ltb 0 w.ewma_global_accuracy
        then 2 * thr - w.ewma_global_accuracy
        else thr)
      100

unfoldable pub corrected : Config → Window → ℕ → ℕ
corrected config w local =
    min
      (if config.is_accuracy_correction && ltb 0 w.ewma_accuracy_estimate
        then local * w.ewma_global_accuracy / w.ewma_accuracy_estimate
        else local)
      100

-- The step of the mode of an entry, through the pointer that `find_no_touch` returned.
unfoldable pub step_mode : Bool → PatternHistoryTableData → PatternHistoryTableData
step_mode better e = record e { mode = if better then inc e.mode else dec e.mode }

unfoldable pub adjust :
    ActiveGenerationTableData → PatternHistoryTable → ℕ → Bool → PatternHistoryTable
adjust d t pop better =
    if ltb 0 pop
    then record t { table = Rrip.modify t.table (key_in d t) (step_mode better) }
    else t

-- The blocks that earlier tables predicted are no longer counted.
unfoldable pub unmasked : Pattern → Pattern → Pattern
unmasked (m ∷ mask) (x ∷ p) = (if ltb 0 m then 0 else x) ∷ unmasked mask p
unmasked _ p = p

-- The second loop's body for a table that has an entry: the tables' modes are stepped by the
-- accuracy of the first table, and by the marginal accuracies of the others. `seen` is
-- `accumulated_marginal_prediction`, and `first` is `first_iteration`.
unfoldable pub grade_entry :
    Config
    → Window
    → ActiveGenerationTableData
    → Bool
    → Pattern
    → ℕ
    → PatternHistoryTable
    → Entry PatternHistoryTableData
    → Option (PatternHistoryTable × Pattern)
grade_entry config w d first seen local_accuracy t e = do
  let observation = observation_for d t.behavior
  let prediction = prediction_for d t.behavior e.payload.pattern
  let mask = if is_pc t.behavior then rotate seen (back d.trigger_offset) else seen
  let marginal_prediction = unmasked mask prediction
  let pop = count_bits_set (if first then prediction else marginal_prediction)
  same ← (if first then some 0 else count_bits_same marginal_prediction (unmasked mask observation))
  let local = if first then local_accuracy else accuracy_of same pop
  let thr = if first then config.proba_acc_thr1 else config.proba_acc_thr2
  let better = ltb (threshold config w thr) (corrected config w local)
  seen' ←
      (if first
        then some (aligned d t.behavior prediction)
        else union_patterns seen (aligned d t.behavior prediction))
  some (adjust d t pop better, seen')

-- The second loop.
unfoldable pub grade :
    Config
    → Window
    → ActiveGenerationTableData
    → List ℕ
    → List ℕ
    → Bool
    → Pattern
    → List PatternHistoryTable
    → Option (List PatternHistoryTable)
unfolding grade_entry
grade config w d accuracy [] first seen phts = some phts
grade config w d accuracy (idx ∷ is) first seen phts = elim (get_elem? phts idx) [
  | none ↦ none
  | some t ↦ elim (look_up d t) [
    | none ↦ grade config w d accuracy is first seen phts
    | some e ↦ do
      (t', seen') ← grade_entry config w d first seen (get_or accuracy idx 0) t e
      grade config w d accuracy is false seen' (set phts idx t')
  ]
]
