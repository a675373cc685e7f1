-- ===== src/Replacement/Drrip.antt =====
-- replacement/drrip/drrip.cc
pub mod Victim
use proba_artifact.Prelude.{
  ℕ, zero, suc, ◌+◌, ◌-◌, ◌*◌, ◌/◌, ◌%◌, ◌^◌, Bool, List, [], ◌∷◌, set, get_elem?, get_or,
  replicate, min, Option, none, some, take, drop, if◌then◌else◌, ltb, leb, ◌==◌,
}
use proba_artifact.Replacement.Vectors.{segment, with_segment, max_element}

abbrev pub max_rrpv : ℕ
max_rrpv = 3

-- The loop of `find_victim`, `*it += maxRRPV - *victim`, in 32 bits, at way `i`; `most` is what
-- `*victim` shows at that moment, which the loop itself changes at the victim's way.
unfoldable pub age_from : ℕ → ℕ → ℕ → List ℕ → List ℕ
age_from i victim most [] = []
age_from i victim most (x ∷ row) =
    let raised = (x + (max_rrpv + 2 ^ 32 - most)) % 2 ^ 32 in
    raised ∷ age_from (suc i) victim (if i == victim then raised else most) row

unfoldable pub age : List ℕ → List ℕ
unfolding age_from
age row = age_from 0 (max_element row) (get_or row (max_element row) 0) row

-- `find_victim`: the way, and the vector.
unfoldable pub find_victim : ℕ → List ℕ → ℕ → ℕ × List ℕ
unfolding age
find_victim num_way rrpv index =
    let row = segment num_way index rrpv in
    (max_element row, with_segment num_way index (age row) rrpv)

-- What `update_replacement_state` changes; `psel` is the selector of the triggering core, of
-- 10 bits, and `leaders` are the sampler sets of that core.
pub record Policy : Type 0 where
  pub rrpv : List ℕ
  pub bip_counter : ℕ
  pub psel : ℕ
  pub leaders : List ℕ

abbrev pub psel_max : ℕ
psel_max = 2 ^ 10 - 1

abbrev pub store : ℕ → Policy → ℕ → Policy
store at p value = record p { rrpv = set p.rrpv at value }

-- A distant insertion, and every 32nd time a nearer one.
unfoldable pub bip_insert : ℕ → Policy → Policy
bip_insert at p =
    let count = (p.bip_counter + 1) % 2 ^ 32 in
    if count == 32
    then record (store at p (max_rrpv - 1)) { bip_counter = 0 }
    else record (store at p max_rrpv) { bip_counter = count }

-- `std::find(begin, end, set)` among the sampler sets.
unfoldable pub leader_of : ℕ → ℕ → List ℕ → Option ℕ
leader_of i index [] = none
leader_of i index (x ∷ leaders) = if x == index then some i else leader_of (suc i) index leaders

-- A miss. The decrement of the first sampler set is `operator--` of the counter, which adds one. A
-- sampler set other than the first two is left as it is.
unfoldable pub miss : ℕ → ℕ → Policy → Policy
unfolding bip_insert leader_of
miss at index p = elim (leader_of 0 index p.leaders) [
  | none ↦ if ltb (psel_max / 2) p.psel then bip_insert at p else store at p (max_rrpv - 1)
  | some i ↦
      if i == 0
      then bip_insert at (record p { psel = min (p.psel + 1) psel_max })
      else if i == 1
      then store at (record p { psel = min (p.psel + 1) psel_max }) (max_rrpv - 1)
      else p
]

-- `update_replacement_state`
unfoldable pub update_replacement_state : ℕ → ℕ → ℕ → Bool → Bool → Policy → Policy
unfolding miss
update_replacement_state num_way index way is_write hit p =
    let at = index * num_way + way in
    if is_write then store at p (max_rrpv - 1) else if hit then store at p 0 else miss at index p
