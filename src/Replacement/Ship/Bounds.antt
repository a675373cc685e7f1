-- ===== src/Replacement/Ship/Bounds.antt =====
-- The counters and the numbers of replacement/ship/ship.cc stay in their ranges.
use proba_artifact.Prelude.{
  ℕ, ◌+◌, ◌*◌, ◌%◌, ◌≤◌, inl, inr, Bool, true, false, List, get_or, All, All-set, All-get_or,
  Option-cases, Bool-cases, ltb, if◌then◌else◌, take, drop, arith,
}
use proba_artifact.Replacement.Drrip.{leader_of}
use proba_artifact.Replacement.Ship.{
  Policy, shct_prime, shct_max, max_rrpv, find_match, shct_down, shct_up, sample, sample_set, store,
  predict_insert, update_replacement_state,
}

abbrev pub AllAtMost : ℕ → List ℕ → Type 0
AllAtMost n = All (λ (x : ℕ). x ≤ n)

-- The prediction counters are at most 7, the numbers of the lines at most 3.
abbrev pub IsBounded : Policy → Type 0
IsBounded p = AllAtMost shct_max p.shct × AllAtMost max_rrpv p.rrpv_values

shct_down-AllAtMost :
    (ip : ℕ) (shct : List ℕ) → AllAtMost shct_max shct → AllAtMost shct_max (shct_down ip shct)
unfolding shct_down
shct_down-AllAtMost ip shct h =
    let small = All-get_or (λ (x : ℕ). x ≤ shct_max) shct (ip % shct_prime) 0 h (omega arith) in
    elim (Bool-cases (ltb 0 (get_or shct (ip % shct_prime) 0))) [
      | inl some_left ↦ rw some_left (All-set (λ (x : ℕ). x ≤ shct_max) shct _ _ h (omega arith))
      | inr bottom ↦ rw bottom h
    ]

shct_up-AllAtMost :
    (ip : ℕ) (shct : List ℕ) → AllAtMost shct_max shct → AllAtMost shct_max (shct_up ip shct)
unfolding shct_up
shct_up-AllAtMost ip shct h = elim (Bool-cases (ltb (get_or shct (ip % shct_prime) 0) shct_max)) [
  | inl below ↦ rw below (All-set (λ (x : ℕ). x ≤ shct_max) shct _ _ h (ground arith))
  | inr top ↦ rw top h
]

if-AllAtMost :
    (b : Bool) (n : ℕ) (xs ys : List ℕ)
    → AllAtMost n xs
    → AllAtMost n ys
    → AllAtMost n (if b then xs else ys)
if-AllAtMost true n xs ys hx hy = hx
if-AllAtMost false n xs ys hx hy = hy

sample-IsBounded :
    (num_way shamt current_cycle full_addr ip start : ℕ) (p : Policy)
    → IsBounded p
    → IsBounded (sample num_way shamt current_cycle full_addr ip start p)
unfolding sample
sample-IsBounded num_way shamt current_cycle full_addr ip start p (counters, numbers) =
    elim (Option-cases (find_match shamt full_addr 0 (take num_way (drop start p.sampler)))) [
      | inr (i, hit) ↦ rw (hit, sample) (shct_down-AllAtMost _ p.shct counters, numbers)
      | inl miss ↦
          rw (miss, sample)
            (
              if-AllAtMost _ shct_max _ p.shct (shct_up-AllAtMost _ p.shct counters) counters,
              numbers,
            )
    ]

store-IsBounded :
    (at value : ℕ) (p : Policy) → value ≤ max_rrpv → IsBounded p → IsBounded (store at value p)
unfolding store
store-IsBounded at value p le (counters, numbers) =
    (counters, All-set (λ (x : ℕ). x ≤ max_rrpv) p.rrpv_values at value numbers le)

if-IsBounded :
    (b : Bool) (p q : Policy) → IsBounded p → IsBounded q → IsBounded (if b then p else q)
if-IsBounded true p q hp hq = hp
if-IsBounded false p q hp hq = hq

sample_set-IsBounded :
    (num_way shamt current_cycle full_addr ip index : ℕ) (p : Policy)
    → IsBounded p
    → IsBounded (sample_set num_way shamt current_cycle full_addr ip index p)
unfolding sample_set
sample_set-IsBounded num_way shamt current_cycle full_addr ip index p h =
    elim (Option-cases (leader_of 0 index p.rand_sets)) [
      | inl other ↦ rw (other, sample_set) h
      | inr (start, found) ↦
          rw (found, sample_set)
            (sample-IsBounded num_way shamt current_cycle full_addr ip start p h)
    ]

-- With prediction counters of at most 7 and numbers of the lines of at most 3, every update of
-- the SHiP policy keeps them so.
pub update-IsBounded :
    (num_way shamt current_cycle index way full_addr ip : ℕ) (is_write hit : Bool) (p : Policy)
    → IsBounded p
    → IsBounded
        (update_replacement_state num_way shamt current_cycle index way full_addr ip is_write hit p)
unfolding update_replacement_state predict_insert
update-IsBounded num_way shamt current_cycle index way full_addr ip is_write hit p h =
    let at = index * num_way + way in
    let q = sample_set num_way shamt current_cycle full_addr ip index p in
    let hq = sample_set-IsBounded num_way shamt current_cycle full_addr ip index p h in
    if-IsBounded is_write _ _ (if-IsBounded hit p _ h (store-IsBounded at 2 p (omega arith) h)) (
      if-IsBounded hit _ _ (store-IsBounded at 0 q (omega arith) hq) (
        if-IsBounded _ _ _ (store-IsBounded at 3 q (omega arith) hq)
          (store-IsBounded at 2 q (omega arith) hq)))
