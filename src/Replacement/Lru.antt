-- ===== src/Replacement/Lru.antt =====
-- replacement/lru/lru.cc
use proba_artifact.Prelude.{ℕ, ◌+◌, ◌*◌, Bool, not, ◌||◌, List, set, replicate, if◌then◌else◌}
use proba_artifact.SetAssoc.Lru.{min_element}
use proba_artifact.Replacement.Vectors.{segment}

abbrev pub initialize_replacement : ℕ → ℕ → List ℕ
initialize_replacement num_set num_way = replicate (num_set * num_way) 0

unfoldable pub find_victim : ℕ → List ℕ → ℕ → ℕ
find_victim num_way last_used_cycles index = min_element (segment num_way index last_used_cycles)

-- A write that hits is skipped.
unfoldable pub update_replacement_state : ℕ → ℕ → List ℕ → ℕ → ℕ → Bool → Bool → List ℕ
update_replacement_state num_way current_cycle last_used_cycles index way is_write hit =
    if not hit || not is_write
    then set last_used_cycles (index * num_way + way) current_cycle
    else last_used_cycles
