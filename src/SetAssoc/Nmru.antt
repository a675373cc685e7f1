-- ===== src/SetAssoc/Nmru.antt =====
-- `custom_util::NMRUSetAssociativeCache<T>` of inc/custom_util.h.
use native.Mathlib.Nat.{mod-lt}
use proba_artifact.Prelude.{
  ℕ, ◌+◌, ◌-◌, ◌/◌, ◌%◌, ◌≤◌, ◌<◌, ◌≢◌, List, set, get_or, replicate, leb, if◌then◌else◌, arith,
}
use proba_artifact.SetAssoc
use proba_artifact.SetAssoc.{SetAssociativeCache}

-- `mru` has the way that was used last, for each set.
pub record NmruSetAssociativeCache {ℓ} (T : Type ℓ) : Type ℓ where
  pub base : SetAssociativeCache T
  pub mru : List ℕ

-- `select_victim`; the state is the number of calls of `rand`.
unfoldable pub select_victim : (ℕ → ℕ) → ℕ → List ℕ → ℕ → ℕ → ℕ × ℕ
select_victim rand num_ways mru calls index =
    let way = rand calls % (num_ways - 1) in
    ((if leb (get_or mru index 0) way then way + 1 else way), calls + 1)

module _ {ℓ} {T : Type ℓ} where
  unfoldable pub init : T → ℕ → ℕ → NmruSetAssociativeCache T
  init d size num_ways = record {
    base = SetAssoc.init d size num_ways;
    mru = replicate (size / num_ways) 0;
  }

  unfoldable pub set_mru : NmruSetAssociativeCache T → ℕ → NmruSetAssociativeCache T
  set_mru c key =
      let index = key % c.base.num_sets in
      let (way, base') = SetAssoc.way_of c.base index (key / c.base.num_sets) in
      record { base = base'; mru = set c.mru index way }

-- With at least two ways, the victim of the NMRU table is a way of the set and never the one
-- that was used last, whatever the draw is.
pub select_victim_not_mru :
    (rand : ℕ → ℕ) (num_ways : ℕ) (mru : List ℕ) (calls index : ℕ)
    → 2 ≤ num_ways
    → ((select_victim rand num_ways mru calls index).0 < num_ways)
      × ((select_victim rand num_ways mru calls index).0 ≢ get_or mru index 0)
unfolding select_victim
select_victim_not_mru rand num_ways mru calls index two =
    let lt : rand calls % (num_ways - 1) < num_ways - 1 = mod-lt (rand calls) (omega arith) in
    (ground arith, ground arith)
