-- ===== src/Proba/Train/Average.antt =====
-- The averages over a window of updates in `Proba::update_in_pht`.
pub mod Laws
use proba_artifact.Prelude.{ℕ, ◌+◌, ◌-◌, ◌&&◌, leb, ◌==◌, if◌then◌else◌}
use proba_artifact.Proba.Pattern.{accuracy_of}
use proba_artifact.Proba.State.{Stats, Window, Config, ewma_update}

-- The average over a window of updates: the part of `update_in_pht` under "calibration". `same` and
-- `pop` are the two counts of the accumulated prediction.
unfoldable pub close_window : Config → Stats → Window → Window
close_window config stats w =
    let window_accuracy_estimate = accuracy_of w.global_accurate_pf_sum w.global_pf_sum in
    let monotone = leb w.prev_pf_useful stats.pf_useful && leb w.prev_pf_unused stats.pf_useless in
    let window_pf_useful = if monotone then stats.pf_useful - w.prev_pf_useful else 0 in
    let window_pf_unused = if monotone then stats.pf_useless - w.prev_pf_unused else 0 in
    let window_global_accuracy =
      accuracy_of window_pf_useful (window_pf_useful + window_pf_unused) in
    let first_window = w.total_num_valid_update == w.num_valid_update in
    let average = λ (old : ℕ) (new : ℕ).
      if first_window
      then new
      else if monotone
      then ewma_update old new config.ewma_alpha_num config.ewma_alpha_den
      else old in
    record {
      num_valid_update = 0;
      total_num_valid_update = w.total_num_valid_update;
      global_accurate_pf_sum = 0;
      global_pf_sum = 0;
      ewma_accuracy_estimate = average w.ewma_accuracy_estimate window_accuracy_estimate;
      ewma_global_accuracy = average w.ewma_global_accuracy window_global_accuracy;
      prev_pf_useful = stats.pf_useful;
      prev_pf_unused = stats.pf_useless;
    }

unfoldable pub calibrate : Config → Stats → ℕ → ℕ → Window → Window
unfolding close_window
calibrate config stats same pop w =
    let w' = record w {
      global_accurate_pf_sum = w.global_accurate_pf_sum + same;
      global_pf_sum = w.global_pf_sum + pop;
      num_valid_update = w.num_valid_update + 1;
      total_num_valid_update = w.total_num_valid_update + 1;
    } in
    if leb config.ewma_window_size w'.num_valid_update then close_window config stats w' else w'
