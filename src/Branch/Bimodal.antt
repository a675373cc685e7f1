-- ===== src/Branch/Bimodal.antt =====
-- branch/bimodal/bimodal.cc; the counters are in a table of 16384.
use proba_artifact.Prelude.{
  ℕ, zero, suc, ◌+◌, ◌-◌, refl, min, [], ◌∷◌, ◌++◌, replicate, ◌%◌, ◌≤◌, ◌≡◌, ap, sym, ◌∙◌, ◌≢◌,
  Bool, true, false, List, get_or, set, length, get_or-set_self, get_or-set_ne, length-set, arith,
}
use proba_artifact.Branch.Counter.{add_outcome, is_taken}

abbrev pub bimodal_prime : ℕ
bimodal_prime = 16381

unfoldable pub predict_branch : List ℕ → ℕ → Bool
predict_branch table ip = is_taken 2 (get_or table (ip % bimodal_prime) 0)

unfoldable pub last_branch_result : List ℕ → ℕ → Bool → List ℕ
last_branch_result table ip taken =
    let hash = ip % bimodal_prime in set table hash (add_outcome 2 (get_or table hash 0) taken)

length-result :
    (table : List ℕ) (ip : ℕ) (taken : Bool)
    → length (last_branch_result table ip taken) ≡ length table
unfolding last_branch_result
length-result table ip taken = length-set table (ip % bimodal_prime) _

-- The counter of the branch is stepped.
get_or-result :
    (table : List ℕ) (ip : ℕ) (taken : Bool)
    → bimodal_prime ≤ length table
    → get_or (last_branch_result table ip taken) (ip % bimodal_prime) 0
      ≡ add_outcome 2 (get_or table (ip % bimodal_prime) 0) taken
unfolding last_branch_result
get_or-result table ip taken sized = get_or-set_self table (ip % bimodal_prime) _ 0 (omega arith)

-- A sequence of outcomes at one branch.
unfoldable pub seen : List ℕ → ℕ → List Bool → List ℕ
unfolding last_branch_result
seen table ip [] = table
seen table ip (taken ∷ outcomes) = seen (last_branch_result table ip taken) ip outcomes

-- What the counter goes through.
counted : ℕ → List Bool → ℕ
counted value [] = value
counted value (taken ∷ outcomes) = counted (add_outcome 2 value taken) outcomes

get_or-seen :
    (table : List ℕ) (ip : ℕ) (outcomes : List Bool)
    → bimodal_prime ≤ length table
    → get_or (seen table ip outcomes) (ip % bimodal_prime) 0
      ≡ counted (get_or table (ip % bimodal_prime) 0) outcomes
unfolding seen counted
get_or-seen table ip [] sized = refl
get_or-seen table ip (taken ∷ outcomes) sized =
    get_or-seen (last_branch_result table ip taken) ip outcomes
      (omega (arith, sized, length-result table ip taken))
    ∙ ap (λ (v : ℕ). counted v outcomes) (get_or-result table ip taken sized)

get_or-seen_other :
    (table : List ℕ) (ip other : ℕ) (outcomes : List Bool)
    → other % bimodal_prime ≢ ip % bimodal_prime
    → get_or (seen table ip outcomes) (other % bimodal_prime) 0
      ≡ get_or table (other % bimodal_prime) 0
unfolding seen last_branch_result
get_or-seen_other table ip other [] apart = refl
get_or-seen_other table ip other (taken ∷ outcomes) apart =
    get_or-seen_other (last_branch_result table ip taken) ip other outcomes apart
    ∙ get_or-set_ne table (ip % bimodal_prime) (other % bimodal_prime) _ 0 (λ e. apart (sym e))

-- A run of equal outcomes, and what follows it.
counted-taken :
    (n value : ℕ) (rest : List Bool)
    → value ≤ 3
    → counted value (replicate n true ++ rest) ≡ counted (min (value + n) 3) rest
unfolding counted add_outcome
counted-taken zero value rest small =
    ap (λ (v : ℕ). counted v rest) {x = value} {y = min (value + 0) 3} (omega arith)
counted-taken (suc n) value rest small =
    counted-taken n (min (value + 1) 3) rest (omega arith)
    ∙ ap (λ (v : ℕ). counted v rest) {x = min (min (value + 1) 3 + n) 3} {y = min (value + suc n) 3}
        (omega arith)

counted-untaken :
    (n value : ℕ) (rest : List Bool)
    → counted value (replicate n false ++ rest) ≡ counted (value - n) rest
unfolding counted add_outcome
counted-untaken zero value rest =
    ap (λ (v : ℕ). counted v rest) {x = value} {y = value - 0} (omega arith)
counted-untaken (suc n) value rest =
    counted-untaken n (value - 1) rest
    ∙ ap (λ (v : ℕ). counted v rest) {x = value - 1 - n} {y = value - suc n} (omega arith)

-- The prediction at a branch after some outcomes there.
abbrev pub predicted_after : List ℕ → ℕ → List Bool → Bool
predicted_after table ip outcomes = predict_branch (seen table ip outcomes) ip

predicted-counted :
    (table : List ℕ) (ip : ℕ) (outcomes : List Bool)
    → bimodal_prime ≤ length table
    → predicted_after table ip outcomes
      ≡ is_taken 2 (counted (get_or table (ip % bimodal_prime) 0) outcomes)
unfolding predict_branch
predicted-counted table ip outcomes sized = ap (is_taken 2) (get_or-seen table ip outcomes sized)

module _ (table : List ℕ) (ip n : ℕ) (sized : bimodal_prime ≤ length table)
    (small : get_or table (ip % bimodal_prime) 0 ≤ 3) (long : 3 ≤ n) where
  after_taken :
      (rest : List Bool)
      → predicted_after table ip (replicate n true ++ rest) ≡ is_taken 2 (counted 3 rest)
  after_taken rest =
      predicted-counted table ip (replicate n true ++ rest) sized
      ∙ ap (is_taken 2) (
          counted-taken n (get_or table (ip % bimodal_prime) 0) rest small
          ∙ ap (λ (v : ℕ). counted v rest) {x = min (get_or table (ip % bimodal_prime) 0 + n) 3}
              {y = 3} (omega (arith, long)))

  after_untaken :
      (rest : List Bool)
      → predicted_after table ip (replicate n false ++ rest) ≡ is_taken 2 (counted 0 rest)
  after_untaken rest =
      predicted-counted table ip (replicate n false ++ rest) sized
      ∙ ap (is_taken 2) (
          counted-untaken n (get_or table (ip % bimodal_prime) 0) rest
          ∙ ap (λ (v : ℕ). counted v rest) {x = get_or table (ip % bimodal_prime) 0 - n} {y = 0}
              (omega (arith, small, long)))

  -- In a table with a counter for each hash, and one of at most 3 for the branch: after three or
  -- more taken outcomes in a row, however many, it is still predicted taken after two more that
  -- are not taken, and no longer after three; after three or more that are not taken, one that
  -- is taken makes it predicted taken, and one more that is not taken undoes that; and the
  -- outcomes leave the predictions of branches with another hash as they are.
  pub predict-result :
      (other : ℕ) (outcomes : List Bool)
      → other % bimodal_prime ≢ ip % bimodal_prime
      → (predicted_after table ip (replicate n true ++ false ∷ false ∷ []) ≡ true)
        × (predicted_after table ip (replicate n true ++ false ∷ false ∷ false ∷ []) ≡ false)
        × (predicted_after table ip (replicate n false ++ true ∷ []) ≡ true)
        × (predicted_after table ip (replicate n false ++ true ∷ false ∷ []) ≡ false)
        × (predict_branch (seen table ip outcomes) other ≡ predict_branch table other)
  unfolding predict_branch counted add_outcome is_taken
  predict-result other outcomes apart = (
    after_taken (false ∷ false ∷ []),
    after_taken (false ∷ false ∷ false ∷ []),
    after_untaken (true ∷ []),
    after_untaken (true ∷ false ∷ []),
    ap (is_taken 2) (get_or-seen_other table ip other outcomes apart),
  )
