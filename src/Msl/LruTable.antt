-- ===== src/Msl/LruTable.antt =====
-- inc/msl/lru_table.h: a table of sets whose victim is the block that was used longest ago. The
-- comparison of `fill` is no strict order on unused blocks, for which the standard leaves
-- `minmax_element` open; the model takes the first of the least and the last of the greatest.
mod Row
mod Laws
pub mod Held
pub mod Fresh
use proba_artifact.Prelude.{
  ℕ, suc, ◌+◌, ◌*◌, ◌%◌, ◌^◌, Bool, true, false, not, ◌&&◌, ◌||◌, Option, none, some, List, [], ◌∷◌,
  ◌==◌, ltb, if◌then◌else◌, set, replicate, assert, ◌>>◌,
}
use proba_artifact.Prelude.Rows.{row}
use proba_artifact.Msl.Bits.{lg2}

-- block_t; its field `data` is `contents`.
pub record Block {ℓ} (T : Type ℓ) : Type ℓ where
  pub last_used : ℕ
  pub contents : T

pub record LruTable {ℓ} (T : Type ℓ) : Type ℓ where
  pub num_set : ℕ
  pub num_way : ℕ
  pub access_count : ℕ
  pub block : List (Block T)

module _ {ℓ} {T : Type ℓ} where
  abbrev pub next_way : Option (ℕ × Block T) → Option (ℕ × Block T)
  next_way none = none
  next_way (some (way, b)) = some (suc way, b)

  abbrev pub next_access : LruTable T → ℕ
  next_access t = (t.access_count + 1) % 2 ^ 64

-- `blank` is what T's constructor gives.
module _ {ℓ} {T : Type ℓ} (blank : T) where
  unfoldable pub new : (sets ways : ℕ) → Option (LruTable T)
  new sets ways = do
    assert (ltb 0 sets)
    assert (ltb 0 ways)
    assert (sets == 2 ^ lg2 sets)
    some (record {
      num_set = sets;
      num_way = ways;
      access_count = 0;
      block = replicate (sets * ways) (record { last_used = 0; contents = blank });
    })

module _ {ℓ} {T : Type ℓ} (index : T → ℕ) where
  unfoldable pub set_idx : LruTable T → T → ℕ
  set_idx t elem = index elem % 2 ^ lg2 t.num_set

  -- get_set_span
  unfoldable pub span : LruTable T → T → List (Block T)
  unfolding set_idx
  span t elem = row t.num_way (set_idx t elem) t.block

  -- A write through an iterator of the span.
  unfoldable pub write : T → ℕ → ℕ → T → LruTable T → LruTable T
  unfolding set_idx
  write elem way used contents t = record t {
    access_count = used;
    block =
        set t.block (set_idx t elem * t.num_way + way)
          (record { last_used = used; contents = contents });
  }

module _ {ℓ} {T : Type ℓ} (tag : T → ℕ) where
  -- match_func
  unfoldable pub is_match : ℕ → Block T → Bool
  is_match wanted x = ltb 0 x.last_used && tag x.contents == wanted

  unfoldable pub find_if : ℕ → List (Block T) → Option (ℕ × Block T)
  unfolding is_match
  find_if wanted [] = none
  find_if wanted (x ∷ xs) =
      let later = next_way (find_if wanted xs) in if is_match wanted x then some (0, x) else later

  -- match_and_check
  unfoldable pub is_less : ℕ → Block T → Block T → Bool
  is_less wanted x y =
      let x_valid = ltb 0 x.last_used in
      let y_valid = ltb 0 y.last_used in
      let x_match = tag x.contents == wanted in
      let y_match = tag y.contents == wanted in
      let cmp_lru = ltb x.last_used y.last_used in
      let same_match = if x_match then y_match else not y_match in
      not x_valid || y_valid && (not x_match && y_match || same_match && cmp_lru)

  -- The least and the greatest block, from those of the blocks before way `i`.
  unfoldable pub min_from : ℕ → ℕ → Block T → ℕ → List (Block T) → ℕ
  unfolding is_less
  min_from wanted best b i [] = best
  min_from wanted best b i (x ∷ xs) =
      let smaller = is_less wanted x b in
      min_from wanted (if smaller then i else best) (if smaller then x else b) (suc i) xs

  unfoldable pub max_from : ℕ → ℕ → Block T → ℕ → List (Block T) → ℕ × Block T
  unfolding is_less
  max_from wanted best b i [] = (best, b)
  max_from wanted best b i (x ∷ xs) =
      let smaller = is_less wanted x b in
      max_from wanted (if smaller then best else i) (if smaller then b else x) (suc i) xs

  -- The way that `fill` writes: that of the greatest block if it has the tag, and otherwise the least.
  unfoldable pub fill_way : ℕ → List (Block T) → ℕ
  unfolding min_from max_from
  fill_way wanted [] = 0
  fill_way wanted (x ∷ xs) =
      let (hit, b) = max_from wanted 0 x 1 xs in
      if tag b.contents == wanted then hit else min_from wanted 0 x 1 xs

module _ {ℓ} {T : Type ℓ} (index tag : T → ℕ) where
  unfoldable pub check_hit : T → LruTable T → Option T × LruTable T
  unfolding find_if write span
  check_hit elem t = elim (find_if tag (tag elem) (span index t elem)) [
    | none ↦ (none, t)
    | some (way, hit) ↦ (some hit.contents, write index elem way (next_access t) hit.contents t)
  ]

  unfoldable pub fill : T → LruTable T → LruTable T
  unfolding fill_way write span
  fill elem t =
      write index elem (fill_way tag (tag elem) (span index t elem)) (next_access t) elem t

  unfoldable pub invalidate : T → T → LruTable T → Option T × LruTable T
  unfolding find_if span set_idx
  invalidate blank elem t = elim (find_if tag (tag elem) (span index t elem)) [
    | none ↦ (none, t)
    | some (way, hit) ↦ (
      some hit.contents,
      record t {
        block =
            set t.block (set_idx index t elem * t.num_way + way)
              (record { last_used = 0; contents = blank });
      },
    )
  ]
