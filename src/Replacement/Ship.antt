-- ===== src/Replacement/Ship.antt =====
-- replacement/ship/ship.cc, for the core that triggers the access.
pub mod Bounds
use proba_artifact.Prelude.{
  ℕ, suc, ◌+◌, ◌-◌, ◌*◌, ◌/◌, ◌%◌, ◌^◌, Bool, true, false, not, ◌&&◌, List, [], ◌∷◌, map, set,
  get_or, get_elem?, take, drop, replicate, Option, none, some, if◌then◌else◌, ltb, ◌==◌,
}
use proba_artifact.SetAssoc.Lru.{min_element}
use proba_artifact.Replacement.Srrip
use proba_artifact.Replacement.Drrip.{leader_of}

abbrev pub shct_prime : ℕ
shct_prime = 16381

abbrev pub shct_max : ℕ
shct_max = 7

abbrev pub max_rrpv : ℕ
max_rrpv = 3

-- `SAMPLER_class`; its member `cl_addr` is never used.
pub record Sampler : Type 0 where
  pub valid : Bool
  pub used : Bool
  pub address : ℕ
  pub ip : ℕ
  pub last_used : ℕ

-- `shct` is the triggering core's table.
pub record Policy : Type 0 where
  pub rand_sets : List ℕ
  pub sampler : List Sampler
  pub rrpv_values : List ℕ
  pub shct : List ℕ

-- `find_victim` is that of SRRIP.
abbrev pub find_victim : ℕ → Policy → ℕ → Option (ℕ × List ℕ)
find_victim num_way p index = Srrip.find_victim num_way p.rrpv_values index

-- `std::find_if` over the sampler's ways; `i` is the position of the next.
unfoldable pub find_match : ℕ → ℕ → ℕ → List Sampler → Option ℕ
find_match shamt full_addr i [] = none
find_match shamt full_addr i (x ∷ ways) =
    if x.valid && (x.address / 2 ^ shamt == full_addr / 2 ^ shamt)
    then some i
    else find_match shamt full_addr (suc i) ways

abbrev pub empty_sampler : Sampler
empty_sampler = record { valid = false; used = false; address = 0; ip = 0; last_used = 0 }

-- The counters go down on a hit in the sampler, and up when a used entry is replaced.
unfoldable pub shct_down : ℕ → List ℕ → List ℕ
shct_down ip shct =
    let idx = ip % shct_prime in
    if ltb 0 (get_or shct idx 0) then set shct idx (get_or shct idx 0 - 1) else shct

unfoldable pub shct_up : ℕ → List ℕ → List ℕ
shct_up ip shct =
    let idx = ip % shct_prime in
    if ltb (get_or shct idx 0) shct_max then set shct idx (get_or shct idx 0 + 1) else shct

-- The update of the sampler; `start` is the place of the set among the sampler sets, from which the
-- source takes `NUM_WAY` entries.
unfoldable pub sample : ℕ → ℕ → ℕ → ℕ → ℕ → ℕ → Policy → Policy
unfolding find_match shct_down shct_up
sample num_way shamt current_cycle full_addr ip start p =
    let ways = take num_way (drop start p.sampler) in
    elim (find_match shamt full_addr 0 ways) [
      | some i ↦
          let x = get_or p.sampler (start + i) empty_sampler in
          record p {
            shct = shct_down x.ip p.shct;
            sampler =
                set p.sampler (start + i) (record x { used = true; last_used = current_cycle });
          }
      | none ↦
          let i = min_element (map (λ (x : Sampler). x.last_used) ways) in
          let x = get_or p.sampler (start + i) empty_sampler in
          record p {
            shct = if x.used then shct_up x.ip p.shct else p.shct;
            sampler = set p.sampler (start + i) (record {
              valid = true;
              used = false;
              address = full_addr;
              ip = ip;
              last_used = current_cycle;
            });
          }
    ]

unfoldable pub store : ℕ → ℕ → Policy → Policy
store at value p = record p { rrpv_values = set p.rrpv_values at value }

-- The prediction for a line that comes in.
unfoldable pub predict_insert : ℕ → ℕ → Policy → Policy
unfolding store
predict_insert at ip p =
    if get_or p.shct (ip % shct_prime) 0 == shct_max
    then store at max_rrpv p
    else store at (max_rrpv - 1) p

-- The sampler is updated for a sampler set only.
unfoldable pub sample_set : ℕ → ℕ → ℕ → ℕ → ℕ → ℕ → Policy → Policy
unfolding sample
sample_set num_way shamt current_cycle full_addr ip index p = elim (leader_of 0 index p.rand_sets) [
  | none ↦ p
  | some start ↦ sample num_way shamt current_cycle full_addr ip start p
]

-- `update_replacement_state`; `shamt` is `8 + lg2(NUM_WAY)`.
unfoldable pub update_replacement_state : ℕ → ℕ → ℕ → ℕ → ℕ → ℕ → ℕ → Bool → Bool → Policy → Policy
unfolding sample_set store predict_insert
update_replacement_state num_way shamt current_cycle index way full_addr ip is_write hit p =
    let at = index * num_way + way in
    if is_write
    then (if hit then p else store at (max_rrpv - 1) p)
    else (let p' = sample_set num_way shamt current_cycle full_addr ip index p in
        if hit then store at 0 p' else predict_insert at ip p')
