-- ===== src/Proba/Train/Survey.antt =====
-- The first loop of `Proba::update_in_pht`: each table's accuracy on the region, and the sort of the
-- tables by it. `none` is an assertion that fails.
pub mod Total
use proba_artifact.Prelude.{
  ℕ, suc, Bool, ◌&&◌, List, [], ◌∷◌, ◌++◌, get_or, set, Option, none, some, ltb, ◌==◌,
  if◌then◌else◌, ◌>>=◌,
}
use proba_artifact.SetAssoc.{Entry}
use proba_artifact.Proba.Pattern.{Pattern, num_blocks, count_bits_set, count_bits_same, accuracy_of}
use proba_artifact.Proba.Tables.{
  ActiveGenerationTableData, PatternHistoryTableData, PatternHistoryTable, is_offset_offset,
}
use proba_artifact.Proba.Train.View.{observation_for, prediction_for, aligned, accumulate, look_up}

-- The locals of the first loop.
pub record Survey : Type 0 where
  pub accuracy : List ℕ
  pub accumulated_prediction : Pattern
  pub active_indices : List ℕ
  pub touches : List Bool

-- The body of the first loop, for a table that has an entry.
unfoldable pub survey_entry :
    ActiveGenerationTableData
    → ℕ
    → PatternHistoryTable
    → Pattern
    → Survey
    → Entry PatternHistoryTableData
    → Option Survey
survey_entry d tidx t observation s e = do
  let prediction = prediction_for d t.behavior e.payload.pattern
  acc ← accumulate s.accumulated_prediction (aligned d t.behavior prediction)
  same ← count_bits_same prediction observation
  some (record s {
    accumulated_prediction = acc;
    accuracy = set s.accuracy tidx (accuracy_of same (count_bits_set prediction));
  })

unfoldable pub survey_table :
    ActiveGenerationTableData → ℕ → PatternHistoryTable → Survey → Option Survey
unfolding survey_entry
survey_table d tidx t s =
    let observation = observation_for d t.behavior in
    let s' = record s {
      active_indices = s.active_indices ++ tidx ∷ [];
      touches = set s.touches tidx (ltb 0 (count_bits_set observation));
    } in
    elim (look_up d t) [ none ↦ some s' | some e ↦ survey_entry d tidx t observation s' e ]

-- The first loop, over the tables from index `tidx`.
unfoldable pub survey :
    ActiveGenerationTableData → ℕ → List PatternHistoryTable → Survey → Option Survey
unfolding survey_table
survey d tidx [] s = some s
survey d tidx (t ∷ phts) s = do
  s' ←
      (if (d.second_offset == num_blocks) && is_offset_offset t.behavior
        then some s
        else survey_table d tidx t s)
  survey d (suc tidx) phts s'

-- `std::sort` of the indices by falling accuracy. The order of equal accuracies, which the standard
-- leaves open, is that of the indices, as an insertion sort gives for so few.
unfoldable pub insert_sorted : List ℕ → ℕ → List ℕ → List ℕ
insert_sorted accuracy i [] = i ∷ []
insert_sorted accuracy i (j ∷ js) =
    if ltb (get_or accuracy j 0) (get_or accuracy i 0)
    then i ∷ j ∷ js
    else j ∷ insert_sorted accuracy i js

unfoldable pub sort_indices : List ℕ → List ℕ → List ℕ → List ℕ
unfolding insert_sorted
sort_indices accuracy sorted [] = sorted
sort_indices accuracy sorted (i ∷ is) = sort_indices accuracy (insert_sorted accuracy i sorted) is
