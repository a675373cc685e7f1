-- ===== src/Branch/Counter.antt =====
-- `champsim::msl::fwcounter<WIDTH>` of inc/msl/fwcounter.h, at the operations that the predictors
-- call: a number that is clamped to 0 … 2 ^ WIDTH - 1.
use proba_artifact.Prelude.{ℕ, ◌+◌, ◌-◌, ◌/◌, ◌^◌, min, Bool, leb, if◌then◌else◌}

abbrev pub maximum : ℕ → ℕ
maximum width = 2 ^ width - 1

-- `counter += taken ? 1 : -1`
unfoldable pub add_outcome : ℕ → ℕ → Bool → ℕ
add_outcome width value taken = if taken then min (value + 1) (maximum width) else value - 1

-- `value() >= maximum / 2`
unfoldable pub is_taken : ℕ → ℕ → Bool
is_taken width value = leb (maximum width / 2) value
