-- ===== src/Replacement/Srrip.antt =====
-- replacement/srrip/srrip.cc
pub mod Victim
use proba_artifact.Prelude.{
  ℕ, zero, suc, ◌+◌, ◌*◌, ◌≡◌, Bool, List, [], ◌∷◌, map, set, replicate, Option, none, some,
  if◌then◌else◌, ◌==◌,
}
use proba_artifact.Replacement.Vectors.{segment, with_segment}

abbrev pub max_rrpv : ℕ
max_rrpv = 3

abbrev pub initialize_replacement : ℕ → ℕ → List ℕ
initialize_replacement num_set num_way = replicate (num_set * num_way) max_rrpv

-- `std::find(begin, end, maxRRPV)`; `i` is the position of the next number.
unfoldable pub position : ℕ → List ℕ → Option ℕ
position i [] = none
position i (x ∷ xs) = if x == max_rrpv then some i else position (suc i) xs

-- The loop of `find_victim`, with the rounds left: the way, and the aged set.
unfoldable pub victim_loop : ℕ → List ℕ → Option (ℕ × List ℕ)
unfolding position
victim_loop zero row = none
victim_loop (suc left) row =
    let rest = victim_loop left (map suc row) in
    elim (position 0 row) [ some i ↦ some (i, row) | none ↦ rest ]

-- `none` means that the loop did not end within `maxRRPV + 1` rounds.
unfoldable pub find_victim : ℕ → List ℕ → ℕ → Option (ℕ × List ℕ)
unfolding victim_loop
find_victim num_way rrpv_values index =
    elim (victim_loop (suc max_rrpv) (segment num_way index rrpv_values)) [
      | none ↦ none
      | some (way, row) ↦ some (way, with_segment num_way index row rrpv_values)
    ]

unfoldable pub update_replacement_state : ℕ → List ℕ → ℕ → ℕ → Bool → List ℕ
update_replacement_state num_way rrpv_values index way hit =
    set rrpv_values (index * num_way + way) (if hit then 0 else 2)
