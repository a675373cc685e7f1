-- ===== src/Proba/Train.antt =====
-- `Proba::update_in_pht` of prefetcher/proba/proba.cc: what a region's accesses teach the pattern
-- history tables. `none` is an assertion that fails.
pub mod View
pub mod Survey
pub mod Average
pub mod Grade
pub mod Learn
pub mod Total
use proba_artifact.Prelude.{
  ℕ, zero, suc, ◌+◌, ◌-◌, ◌*◌, ◌/◌, ◌%◌, ◌^◌, min, Bool, true, false, not, ◌&&◌, ◌||◌, List, [],
  ◌∷◌, ◌++◌, length, get_elem?, get_or, set, replicate, Option, none, some, ltb, leb, ◌==◌,
  if◌then◌else◌, assert, ◌>>=◌, ◌>>◌,
}
use proba_artifact.Util.Counter.{SaturatingCounter, inc, dec, get_cnt}
use proba_artifact.SetAssoc.{Entry}
use proba_artifact.SetAssoc.Rrip
use proba_artifact.Proba.Jail
use proba_artifact.Proba.Pattern.{
  Pattern, num_blocks, pattern_bool2int, Offset, fwd, back, rotate, union_patterns, count_bits_set,
  count_bits_same, accuracy_of, sample,
}
use proba_artifact.Proba.Tables.{
  ActiveGenerationTableData, PatternHistoryTableData, PatternHistoryTable, Behavior, is_pc,
  is_offset_offset, pht_build_key, pht_find_no_touch, pht_insert, pht_update, pht_update_no_touch,
}
use proba_artifact.Proba.State.{Draws, Stats, Window, Config, Proba, ewma_update, get_probs}
use View.{AgtEntry}
use Survey.{survey, sort_indices}
use Average.{calibrate}
use Grade.{grade}
use Learn.{learn}

-- From the first loop to the last.
unfoldable pub train : Draws → ActiveGenerationTableData → Proba → Option Proba
unfolding survey calibrate sort_indices grade learn
train draws d p = do
  s ← survey d 0 p.phts (record {
    accuracy = replicate (length p.phts) 0;
    accumulated_prediction = [];
    active_indices = [];
    touches = replicate (length p.phts) false;
  })
  let seen = set (pattern_bool2int d.pattern) d.trigger_offset 0
  same ←
      (if length s.accumulated_prediction == 0
        then some 0
        else count_bits_same s.accumulated_prediction seen)
  let w = calibrate p.config p.stats same (count_bits_set s.accumulated_prediction) p.window
  let sorted = sort_indices s.accuracy [] s.active_indices
  graded ← grade p.config w d s.accuracy sorted true [] p.phts
  (learned, calls') ← learn draws d s.touches sorted p.calls graded
  some (record p { phts = learned; window = w; calls = calls' })

-- `update_in_pht`
unfoldable pub update_in_pht : Draws → AgtEntry → Bool → Proba → Option Proba
unfolding train
update_in_pht draws agt_entry is_end_of_generation p =
    let stats = record p.stats { num_pht_updates = p.stats.num_pht_updates + 1 } in
    let p' =
      if is_end_of_generation
      then record p {
        stats = record stats {
          num_end_of_generation_updates = stats.num_end_of_generation_updates + 1;
        };
      }
      else record p { stats = stats; jt = Jail.mark p.jt agt_entry.key } in
    if p.config.use_only_training_on_eog && not is_end_of_generation
    then some p'
    else train draws agt_entry.payload p'
