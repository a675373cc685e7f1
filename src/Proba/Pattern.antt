-- ===== src/Proba/Pattern.antt =====
-- The patterns of prefetcher/proba/proba.cc: one number for each block of a region, 0 or
-- `PF_FILL_L2`. An assertion that fails is `none`.
pub mod Union
pub mod Rotate
pub mod Count
pub mod Sample
use proba_artifact.Prelude.{
  ℕ, zero, suc, ◌+◌, ◌-◌, ◌*◌, ◌/◌, ◌%◌, ◌<◌, ◌≡◌, ◌⊎◌, List, [], ◌∷◌, ◌++◌, map, Option, none,
  some, Bool, true, false, ◌&&◌, if◌then◌else◌, ltb, ◌==◌, length, take, drop, All,
}

abbrev pub num_blocks : ℕ
num_blocks = 64

abbrev pub pf_fill_l2 : ℕ
pf_fill_l2 = 2

abbrev pub Pattern : Type 0
Pattern = List ℕ

-- A pattern of a whole region.
abbrev pub IsBlock : ℕ → Type 0
IsBlock x = (x ≡ 0) ⊎ (x ≡ pf_fill_l2)

abbrev pub IsPattern : Pattern → Type 0
IsPattern p = (length p ≡ num_blocks) × All IsBlock p

unfoldable pub bool2int : Bool → ℕ
bool2int b = if b then pf_fill_l2 else 0

-- `pattern_bool2int`
unfoldable pub pattern_bool2int : List Bool → Pattern
pattern_bool2int = map bool2int

-- An `int` offset: `fwd n` is n, and `back n` is -n.
pub data Offset : Type 0 where
  fwd back : ℕ → Offset

-- `offset % n`, and `off += n` where that is negative.
unfoldable pub normalize : Offset → ℕ → ℕ
normalize (fwd k) n = k % n
normalize (back k) n = if k % n == 0 then 0 else n - k % n

-- `rotate`; `std::rotate(begin, end - off, end)` brings the last `off` elements to the front.
unfoldable pub rotate : Pattern → Offset → Pattern
rotate pattern offset =
    let n = length pattern in
    let off = normalize offset n in
    if n == 0
    then pattern
    else if off == 0
    then pattern
    else drop (n - off) pattern ++ take (n - off) pattern

unfoldable pub union_pattern_value : ℕ → ℕ → Option ℕ
union_pattern_value a b =
    if a == 0 then some b else if b == 0 then some a else if a == b then some a else none

abbrev cons? : Option ℕ → Option Pattern → Option Pattern
cons? (some x) (some p) = some (x ∷ p)
cons? _ _ = none

unfoldable pub union_patterns : Pattern → Pattern → Option Pattern
union_patterns [] [] = some []
union_patterns (a ∷ p) (b ∷ q) = cons? (union_pattern_value a b) (union_patterns p q)
union_patterns _ _ = none

-- `std::count(…, PF_FILL_L2)`
unfoldable pub count_bits_set : Pattern → ℕ
count_bits_set [] = 0
count_bits_set (x ∷ p) = if x == pf_fill_l2 then suc (count_bits_set p) else count_bits_set p

unfoldable pub count_bits_same : Pattern → Pattern → Option ℕ
count_bits_same [] [] = some 0
count_bits_same (a ∷ p) (b ∷ q) = elim (count_bits_same p q) [
  | none ↦ none
  | some n ↦ if (a == pf_fill_l2) && (b == pf_fill_l2) then some (suc n) else some n
]
count_bits_same _ _ = none

-- `(100ULL * same) / pop`, guarded by `pop > 0`.
unfoldable pub accuracy_of : ℕ → ℕ → ℕ
accuracy_of same pop = if ltb 0 pop then 100 * same / pop else 0

-- `random_gen`; `rand n` is what the `n`-th call of `std::rand` returns.
abbrev pub random_gen : (ℕ → ℕ) → ℕ → ℕ
random_gen rand n = rand n % 100

-- One round of the loop that moves a prediction towards an observation.
unfoldable pub sample_bit : ℕ → ℕ → ℕ → ℕ → ℕ → ℕ
sample_bit draw insert_probability delete_probability p o =
    if (ltb 0 p) && (o == 0)
    then (if ltb draw delete_probability then 0 else p)
    else if (p == 0) && (ltb 0 o)
    then (if ltb draw insert_probability then pf_fill_l2 else p)
    else p

-- The loop over the blocks; `n` counts the calls of `std::rand`, one for each block.
unfoldable pub sample : (ℕ → ℕ) → ℕ → ℕ → ℕ → Pattern → Pattern → Pattern
unfolding sample_bit
sample rand n insert_probability delete_probability (p ∷ prediction) (o ∷ observation) =
    sample_bit (random_gen rand n) insert_probability delete_probability p o
    ∷ sample rand (suc n) insert_probability delete_probability prediction observation
sample rand n insert_probability delete_probability prediction _ = prediction
