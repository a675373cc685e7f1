-- ===== src/Util/Counter.antt =====
-- `custom_util::SaturatingCounter` of inc/custom_util.h and src/custom_util.cc. The counter is an
-- `int` that never falls below 0.
use proba_artifact.Prelude.{ℕ, ◌+◌, ◌-◌, ◌^◌, ◌≤◌, ◌≡◌, if◌then◌else◌, ltb, ◌==◌, arith}

pub record SaturatingCounter : Type 0 where
  pub max : ℕ
  pub cnt : ℕ

-- The constructor; it does not clamp the value.
abbrev pub counter : ℕ → ℕ → SaturatingCounter
counter size value = record { max = 2 ^ size - 1; cnt = value }

unfoldable pub inc : SaturatingCounter → SaturatingCounter
inc c = if ltb c.max (c.cnt + 1) then record c { cnt = c.max } else record c { cnt = c.cnt + 1 }

unfoldable pub dec : SaturatingCounter → SaturatingCounter
dec c = if c.cnt == 0 then record c { cnt = 0 } else record c { cnt = c.cnt - 1 }

abbrev pub get_cnt : SaturatingCounter → ℕ
get_cnt c = c.cnt

abbrev pub IsInRange : SaturatingCounter → Type 0
IsInRange c = c.cnt ≤ c.max

-- Both directions keep a counter between 0 and its maximum, and keep the maximum.
pub inc-IsInRange :
    (c : SaturatingCounter) → IsInRange c → IsInRange (inc c) × ((inc c).max ≡ c.max)
unfolding inc
inc-IsInRange c h = ground arith

pub dec-IsInRange :
    (c : SaturatingCounter) → IsInRange c → IsInRange (dec c) × ((dec c).max ≡ c.max)
unfolding dec
dec-IsInRange c h = ground arith
