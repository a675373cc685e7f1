-- ===== src/Tests/Simulator.antt =====
-- The theorems on the replacement policies and the branch predictor, at small sets.
use proba_artifact.Prelude.{
  ℕ, ◌++◌, true, zero, suc, ◌+◌, ◌-◌, ◌%◌, ◌≤◌, ◌≡◌, refl, false, some, List, [], ◌∷◌, length,
  get_elem?, get_or, replicate, length-replicate, get_or-replicate, leb, if◌then◌else◌, arith,
}
use proba_artifact.Replacement.Ship.{Policy, empty_sampler, update_replacement_state}
use proba_artifact.Replacement.Ship.Bounds.{IsBounded, update-IsBounded}
use proba_artifact.SetAssoc.Rrip.Victim.{IsFirstMax, Bounded}
use proba_artifact.Replacement.Vectors.{max_element}
use proba_artifact.Replacement.Srrip.{victim_loop}
use proba_artifact.Replacement.Srrip.Victim.{victim_loop-ends}
use proba_artifact.Replacement.Drrip.{age}
use proba_artifact.Replacement.Drrip.Victim.{age-AgedAt}
use proba_artifact.Branch.Bimodal.{predict_branch, seen, predicted_after, predict-result}

-- A set of three ways.
abbrev row : List ℕ
row = 0 ∷ 2 ∷ 1 ∷ []

row-Bounded : Bounded 3 row
row-Bounded zero u g = ground arith
row-Bounded (suc zero) u g = ground arith
row-Bounded (suc (suc zero)) u g = ground arith
row-Bounded (suc (suc (suc j))) u g = cc

-- The second way is the victim; the third is not aged.
aged_once : age row ≡ 1 ∷ 3 ∷ 1 ∷ []
unfolding age proba_artifact.Replacement.Drrip.age_from max_element
    proba_artifact.Replacement.Vectors.max_from
aged_once = refl

age-AgedAt_example :
    (most : ℕ) × (get_elem? row (max_element row) ≡ some most)
    × IsFirstMax row (max_element row)
    × ((j u : ℕ)
        → get_elem? row j ≡ some u
        → get_elem? (age row) j ≡ some (if leb j (max_element row) then u + (3 - most) else u))
age-AgedAt_example = age-AgedAt 0 (2 ∷ 1 ∷ []) row-Bounded

victim_loop-ends_example :
    (way : ℕ) × (aged : List ℕ) × (victim_loop 4 row ≡ some (way, aged))
    × (get_elem? aged way ≡ some 3)
    × (length aged ≡ length row)
    × Bounded 3 aged
victim_loop-ends_example = victim_loop-ends 4 0 (2 ∷ 1 ∷ []) row-Bounded (omega arith)

counters : List ℕ
counters = replicate 16384 1

counters-length : 16381 ≤ length counters
unfolding counters
counters-length = omega (arith, length-replicate {A = ℕ} 16384 1)

counter_small : get_or counters (0x40_0000 % 16381) 0 ≤ 3
unfolding counters
counter_small = omega (arith, get_or-replicate {A = ℕ} 16384 (0x40_0000 % 16381) 1 0 (omega arith))

predict-result_example :
    (predicted_after counters 0x40_0000 (replicate 5 true ++ false ∷ false ∷ []) ≡ true)
    × (predicted_after counters 0x40_0000 (replicate 5 true ++ false ∷ false ∷ false ∷ []) ≡ false)
    × (predicted_after counters 0x40_0000 (replicate 5 false ++ true ∷ []) ≡ true)
    × (predicted_after counters 0x40_0000 (replicate 5 false ++ true ∷ false ∷ []) ≡ false)
    × (predict_branch (seen counters 0x40_0000 (false ∷ [])) 7 ≡ predict_branch counters 7)
predict-result_example =
    predict-result counters 0x40_0000 5 counters-length counter_small (omega arith) 7 (false ∷ [])
      (omega arith)

-- Set 0 is a sampler set; the access misses in the sampler and in the cache.
abbrev ship : Policy
ship = record {
  rand_sets = 0 ∷ [];
  sampler = replicate 2 empty_sampler;
  rrpv_values = 3 ∷ 3 ∷ [];
  shct = 7 ∷ 0 ∷ [];
}

ship-IsBounded : IsBounded ship
ship-IsBounded = ((omega arith, (omega arith, tt)), (omega arith, (omega arith, tt)))

update-IsBounded_example :
    IsBounded (update_replacement_state 2 9 50 0 1 0x1234 16381 false false ship)
update-IsBounded_example = update-IsBounded 2 9 50 0 1 0x1234 16381 false false ship ship-IsBounded
