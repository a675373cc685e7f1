-- ===== src/Proba/Train/Average/Laws.antt =====
-- The averages of `update_in_pht` are percentages, and a window's counts start again when it closes.
use native.Mathlib.Nat.{div-le_of_le-mul, mul-le-mul_left}
use proba_artifact.Prelude.{
  ℕ, ◌+◌, ◌-◌, ◌*◌, ◌%◌, ◌^◌, ◌<◌, ◌≤◌, ◌≡◌, refl, inl, inr, Bool, true, false, leb, if◌then◌else◌,
  Bool-cases, arith,
}
use proba_artifact.Proba.Pattern.Count.{accuracy-le-100}
use proba_artifact.Proba.State.{Stats, Window, Config, ewma_update}
use proba_artifact.Proba.Train.Average.{close_window, calibrate}

-- The weighted mean of two percentages is one.
pub ewma_update-le-100 :
    (ewma sample num den : ℕ)
    → ewma ≤ 100
    → sample ≤ 100
    → num ≤ den
    → ewma_update ewma sample num den ≤ 100
unfolding ewma_update
ewma_update-le-100 ewma sample num den he hs hn =
    div-le_of_le-mul den {m = ((den - num) * ewma + num * sample) % 2 ^ 64} {n = 100}
      (omega (arith, mul-le-mul_left (den - num) he, mul-le-mul_left num hs))

-- What is correct is at most what is predicted, and the averages are percentages.
pub record IsWindow (w : Window) : Type 0 where
  pub accurate : w.global_accurate_pf_sum ≤ w.global_pf_sum
  pub estimate : w.ewma_accuracy_estimate ≤ 100
  pub global : w.ewma_global_accuracy ≤ 100
  pub counted : w.num_valid_update ≤ w.total_num_valid_update

average-le-100 :
    (config : Config) (first monotone : Bool) (old new : ℕ)
    → config.ewma_alpha_num ≤ config.ewma_alpha_den
    → old ≤ 100
    → new ≤ 100
    → (if first
        then new
        else if monotone
        then ewma_update old new config.ewma_alpha_num config.ewma_alpha_den
        else old)
      ≤ 100
average-le-100 config true monotone old new h ho hn = hn
average-le-100 config false true old new h ho hn = ewma_update-le-100 old new _ _ ho hn h
average-le-100 config false false old new h ho hn = ho

close_window-IsWindow :
    (config : Config) (stats : Stats) (w : Window)
    → config.ewma_alpha_num ≤ config.ewma_alpha_den
    → IsWindow w
    → IsWindow (close_window config stats w) × ((close_window config stats w).num_valid_update ≡ 0)
unfolding close_window
close_window-IsWindow config stats w h v = (
  record {
    accurate = omega arith;
    estimate =
        average-le-100 config _ _ w.ewma_accuracy_estimate _ h v.estimate
          (accuracy-le-100 w.global_accurate_pf_sum w.global_pf_sum v.accurate);
    global =
        average-le-100 config _ _ w.ewma_global_accuracy _ h v.global
          (accuracy-le-100 _ _ (omega arith));
    counted = omega arith;
  },
  refl,
)

-- For weights with alpha_num at most alpha_den, a positive window size and at most pop correct
-- blocks of pop: calibration of a window whose averages are percentages, with as many correct
-- blocks as predicted ones at most, keeps it so, keeps the open window's updates fewer than its
-- size, and counts one update more in total.
pub calibrate-IsWindow :
    (config : Config) (stats : Stats) (same pop : ℕ) (w : Window)
    → config.ewma_alpha_num ≤ config.ewma_alpha_den
    → 0 < config.ewma_window_size
    → same ≤ pop
    → IsWindow w
    → IsWindow (calibrate config stats same pop w)
      × ((calibrate config stats same pop w).num_valid_update < config.ewma_window_size)
      × ((calibrate config stats same pop w).total_num_valid_update ≡ w.total_num_valid_update + 1)
unfolding calibrate
calibrate-IsWindow config stats same pop w h pos le v =
    let w' : Window = record w {
      global_accurate_pf_sum = w.global_accurate_pf_sum + same;
      global_pf_sum = w.global_pf_sum + pop;
      num_valid_update = w.num_valid_update + 1;
      total_num_valid_update = w.total_num_valid_update + 1;
    } in
    let v' : IsWindow w' = record {
      accurate = omega (arith, v.accurate);
      estimate = v.estimate;
      global = v.global;
      counted = omega (arith, v.counted);
    } in
    let (closed, restarted) = close_window-IsWindow config stats w' h v' in
    elim (Bool-cases (leb config.ewma_window_size w'.num_valid_update)) [
      | inl full ↦ rw full (closed, pos, refl)
      | inr open_yet ↦ rw open_yet (v', ground arith, refl)
    ]
