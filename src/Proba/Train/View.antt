-- ===== src/Proba/Train/View.antt =====
-- How `Proba::update_in_pht` of prefetcher/proba/proba.cc sees a region: the lambdas `get_observation_for_table`,
-- `get_prediction_for_table` and `get_stored_pattern_for_table`, and the look-up of a table.
pub mod Laws
use proba_artifact.Prelude.{ℕ, [], ◌∷◌, set, Option, some, if◌then◌else◌}
use proba_artifact.SetAssoc.{Entry}
use proba_artifact.Proba.Pattern.{Pattern, pattern_bool2int, fwd, back, rotate, union_patterns}
use proba_artifact.Proba.Tables.{
  ActiveGenerationTableData, PatternHistoryTableData, PatternHistoryTable, Behavior, is_pc,
  is_offset_offset, pht_build_key, pht_find_no_touch,
}

abbrev pub AgtEntry : Type 0
AgtEntry = Entry ActiveGenerationTableData

-- `get_observation_for_table`
unfoldable pub observation_for : ActiveGenerationTableData → Behavior → Pattern
observation_for d behavior =
    let obs = set (pattern_bool2int d.pattern) d.trigger_offset 0 in
    let obs' = if is_offset_offset behavior then set obs d.second_offset 0 else obs in
    if is_pc behavior then rotate obs' (back d.trigger_offset) else obs'

-- `get_prediction_for_table`
unfoldable pub prediction_for : ActiveGenerationTableData → Behavior → Pattern → Pattern
prediction_for d behavior stored_pattern =
    let pred =
      if is_pc behavior then set stored_pattern 0 0 else set stored_pattern d.trigger_offset 0 in
    if is_offset_offset behavior then set pred d.second_offset 0 else pred

-- `get_stored_pattern_for_table`
unfoldable pub stored_pattern_for : ActiveGenerationTableData → Behavior → Pattern
stored_pattern_for d behavior =
    let pat = set (pattern_bool2int d.pattern) d.trigger_offset 0 in
    let pat' = if is_pc behavior then rotate pat (back d.trigger_offset) else pat in
    if is_offset_offset behavior then set pat' d.second_offset 0 else pat'

-- A prediction of the table of program counters is relative to the trigger.
unfoldable pub aligned : ActiveGenerationTableData → Behavior → Pattern → Pattern
aligned d behavior prediction =
    if is_pc behavior then rotate prediction (fwd d.trigger_offset) else prediction

-- `acc.empty() ? p : union_patterns(acc, p)`
unfoldable pub accumulate : Pattern → Pattern → Option Pattern
accumulate [] p = some p
accumulate (x ∷ acc) p = union_patterns (x ∷ acc) p

unfoldable pub look_up :
    ActiveGenerationTableData → PatternHistoryTable → Option (Entry PatternHistoryTableData)
look_up d t = pht_find_no_touch t d.pc d.trigger_offset d.second_offset d.addr

abbrev pub key_in : ActiveGenerationTableData → PatternHistoryTable → ℕ
key_in d t = pht_build_key t d.pc d.trigger_offset d.second_offset d.addr
