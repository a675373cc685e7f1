-- ===== src/Proba/State/Probs.antt =====
-- The two probabilities that `get_probs` of prefetcher/proba/proba.cc reads from an entry's mode,
-- and the moving average of `ewma_update`.
use proba_artifact.Prelude.{◌≤◌, arith}
use proba_artifact.Util.Counter.{SaturatingCounter, inc, dec, IsInRange}
use proba_artifact.Proba.State.{insert_probability, delete_probability, get_probs}

-- For a mode in its range, raising it never lowers the insertion probability nor raises the
-- deletion probability, lowering it does the reverse, and both are between 1 and 100.
pub get_probs-inc :
    (mode : SaturatingCounter)
    → IsInRange mode
    → ((get_probs mode).0 ≤ (get_probs (inc mode)).0)
      × ((get_probs (inc mode)).1 ≤ (get_probs mode).1)
      × ((get_probs (dec mode)).0 ≤ (get_probs mode).0)
      × ((get_probs mode).1 ≤ (get_probs (dec mode)).1)
      × (1 ≤ (get_probs mode).0)
      × ((get_probs mode).0 ≤ 100)
      × (1 ≤ (get_probs mode).1)
      × ((get_probs mode).1 ≤ 100)
unfolding get_probs insert_probability delete_probability inc dec
get_probs-inc mode h = (
  ground arith,
  ground arith,
  ground arith,
  ground arith,
  ground arith,
  ground arith,
  ground arith,
  ground arith,
)
