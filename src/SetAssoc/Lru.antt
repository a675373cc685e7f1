-- ===== src/SetAssoc/Lru.antt =====
-- `custom_util::LRUSetAssociativeCache<T>` of inc/custom_util.h.
pub mod Laws
pub mod Mru
use proba_artifact.Prelude.{
  ℕ, zero, suc, ◌+◌, ◌%◌, ◌^◌, get_or, List, [], ◌∷◌, Option, if◌then◌else◌, ltb,
}
use proba_artifact.SetAssoc
use proba_artifact.SetAssoc.{Entry}
use proba_artifact.SetAssoc.Ranked
use proba_artifact.SetAssoc.Ranked.{Ranked, with_rank}

-- `lru` is `table.ranks`.
pub record LruSetAssociativeCache {ℓ} (T : Type ℓ) : Type ℓ where
  pub table : Ranked T
  pub t : ℕ

-- `std::min_element`: the position of the first least number. `best` and `least` are what the
-- iterator to the smallest shows so far, and `i` is the position of the next number.
unfoldable pub min_from : ℕ → ℕ → ℕ → List ℕ → ℕ
min_from best least i [] = best
min_from best least i (x ∷ xs) =
    min_from (if ltb x least then i else best) (if ltb x least then x else least) (suc i) xs

unfoldable pub min_element : List ℕ → ℕ
min_element [] = 0
min_element (x ∷ xs) = min_from 0 x 1 xs

-- `select_victim`: it changes no state.
unfoldable pub select_victim : List (List ℕ) → ℕ → ℕ × List (List ℕ)
select_victim lru index = (min_element (get_or lru index []), lru)

module _ {ℓ} {T : Type ℓ} where
  unfoldable pub init : T → ℕ → ℕ → LruSetAssociativeCache T
  init d size num_ways = record { table = Ranked.init d size num_ways; t = 1 }

  -- `*get_lru(key) = t++`, in 64 bits.
  unfoldable pub set_mru : LruSetAssociativeCache T → ℕ → LruSetAssociativeCache T
  set_mru c key = record { table = with_rank c.table key (λ _. c.t); t = (c.t + 1) % 2 ^ 64 }

  unfoldable pub set_lru : LruSetAssociativeCache T → ℕ → LruSetAssociativeCache T
  set_lru c key = record c { table = with_rank c.table key (λ _. 0) }

  abbrev pub rp_promote : LruSetAssociativeCache T → ℕ → LruSetAssociativeCache T
  rp_promote c key = set_mru c key

  abbrev pub rp_insert : LruSetAssociativeCache T → ℕ → LruSetAssociativeCache T
  rp_insert c key = set_mru c key

  abbrev pub find : LruSetAssociativeCache T → ℕ → Option (Entry T)
  find c key = SetAssoc.find c.table.base key

  -- The inherited `insert`, with this class's `select_victim`.
  unfoldable pub insert : LruSetAssociativeCache T → ℕ → T → LruSetAssociativeCache T × Entry T
  insert c key d =
      let (lru, base', old) = SetAssoc.insert select_victim c.table.ranks c.table.base key d in
      (record c { table = record { base = base'; ranks = lru } }, old)

  unfoldable pub erase : LruSetAssociativeCache T → ℕ → LruSetAssociativeCache T × Option (Entry T)
  erase c key =
      let (base', gone) = SetAssoc.erase c.table.base key in
      (record c { table = record { base = base'; ranks = c.table.ranks } }, gone)

  -- A write through a pointer that `find` returned.
  unfoldable pub modify : LruSetAssociativeCache T → ℕ → (T → T) → LruSetAssociativeCache T
  modify c key f = record c {
    table = record { base = SetAssoc.modify c.table.base key f; ranks = c.table.ranks };
  }
