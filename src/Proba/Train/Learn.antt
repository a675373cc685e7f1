-- ===== src/Proba/Train/Learn.antt =====
-- The third loop of `Proba::update_in_pht`: the stored patterns move towards the observation. `none`
-- is an assertion that fails.
pub mod Total
use proba_artifact.Prelude.{
  ℕ, ◌+◌, Bool, false, List, [], ◌∷◌, get_elem?, get_or, set, Option, none, some, ltb, leb,
  if◌then◌else◌, assert, ◌>>=◌, ◌>>◌,
}
use proba_artifact.Util.Counter.{get_cnt}
use proba_artifact.SetAssoc.{Entry}
use proba_artifact.Proba.Pattern.{num_blocks, count_bits_set, sample}
use proba_artifact.Proba.Tables.{
  ActiveGenerationTableData, PatternHistoryTableData, PatternHistoryTable, pht_insert, pht_update,
  pht_update_no_touch,
}
use proba_artifact.Proba.State.{Draws, get_probs}
use proba_artifact.Proba.Train.View.{
  observation_for, prediction_for, stored_pattern_for, look_up, key_in,
}

-- The third loop's body: a known pattern moves towards the observation at random, block by block,
-- and an unknown one is stored if it has a block. `calls` counts the calls of `std::rand`.
unfoldable pub learn_known :
    Draws
    → ActiveGenerationTableData
    → Bool
    → ℕ
    → PatternHistoryTable
    → Entry PatternHistoryTableData
    → Option (PatternHistoryTable × ℕ)
learn_known draws d touch calls t e = do
  let mode = e.payload.mode
  assert (leb (get_cnt mode) 7)
  let prediction = prediction_for d t.behavior e.payload.pattern
  let stored =
      sample draws.rand calls (get_probs mode).0 (get_probs mode).1 prediction
        (observation_for d t.behavior)
  t' ←
      (if touch
        then pht_update t (key_in d t) stored mode
        else pht_update_no_touch t (key_in d t) stored mode)
  some (t', calls + num_blocks)

unfoldable pub learn_new :
    Draws → ActiveGenerationTableData → ℕ → PatternHistoryTable → Option (PatternHistoryTable × ℕ)
learn_new draws d calls t =
    let initial_pattern = stored_pattern_for d t.behavior in
    if ltb 0 (count_bits_set initial_pattern)
    then (do t' ← pht_insert draws.b_dist t (key_in d t) initial_pattern; some (t', calls))
    else some (t, calls)

unfoldable pub learn_table :
    Draws
    → ActiveGenerationTableData
    → Bool
    → ℕ
    → PatternHistoryTable
    → Option (PatternHistoryTable × ℕ)
unfolding learn_known learn_new
learn_table draws d touch calls t = elim (look_up d t) [
  | some e ↦ learn_known draws d touch calls t e
  | none ↦ learn_new draws d calls t
]

-- The third loop.
unfoldable pub learn :
    Draws
    → ActiveGenerationTableData
    → List Bool
    → List ℕ
    → ℕ
    → List PatternHistoryTable
    → Option (List PatternHistoryTable × ℕ)
unfolding learn_table
learn draws d touches [] calls phts = some (phts, calls)
learn draws d touches (idx ∷ is) calls phts = elim (get_elem? phts idx) [
  | none ↦ none
  | some t ↦ do
    (t', calls') ← learn_table draws d (get_or touches idx false) calls t
    learn draws d touches is calls' (set phts idx t')
]
