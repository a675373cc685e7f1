-- ===== src/SetAssoc/Lru/Laws.antt =====
-- The least recently used way is the victim, and a key that was just used survives an insertion.
use native.Mathlib.Numerals.{one-add}
use proba_artifact.Prelude.{
  ℕ, zero, suc, ◌≤◌, ◌<◌, ◌+◌, ◌/◌, ◌^◌, replicate, some, List, [], ◌∷◌, get_elem?, get_or, length,
  ◌≡◌, refl, sym, ap, ◌∙◌, ◌⊎◌, inl, inr, ltb, arith, Bool-cases, Option-cases, lt-of-get_elem?,
}
use proba_artifact.SetAssoc
use proba_artifact.SetAssoc.{Entry, index_of, locate}
use proba_artifact.SetAssoc.Valid.{index_of-lt}
use proba_artifact.SetAssoc.Insert.{insert-IsValid, insert-shape}
use proba_artifact.SetAssoc.Ranked
use proba_artifact.SetAssoc.Ranked.{IsValid, rank_row, with_rank, with_rank-hit, with_rank-IsValid}
use proba_artifact.SetAssoc.Lru.{
  LruSetAssociativeCache, init, min_from, min_element, select_victim, insert,
}

-- No number of the list is smaller.
abbrev pub IsLeast : List ℕ → ℕ → Type 0
IsLeast xs w = (v : ℕ) × (get_elem? xs w ≡ some v) × ((j u : ℕ) → get_elem? xs j ≡ some u → v ≤ u)

below_cons :
    (v y : ℕ) (xs : List ℕ)
    → v ≤ y
    → ((j u : ℕ) → get_elem? xs j ≡ some u → v ≤ u)
    → (j u : ℕ) → get_elem? (y ∷ xs) j ≡ some u
    → v ≤ u
below_cons v y xs le below zero u g = ground arith
below_cons v y xs le below (suc j) u g = below j u g

min_from-least :
    (best least i : ℕ) (xs : List ℕ)
    → (v : ℕ) × (v ≤ least)
      × ((j u : ℕ) → get_elem? xs j ≡ some u → v ≤ u)
      × (((min_from best least i xs ≡ best) × (v ≡ least))
          ⊎ ((j : ℕ) × (min_from best least i xs ≡ i + j) × (get_elem? xs j ≡ some v)))
unfolding min_from
min_from-least best least i [] = (least, omega arith, λ j u g. cc, inl (refl, refl))
min_from-least best least i (x ∷ xs) = elim (Bool-cases (ltb x least)) [
  | inl less ↦
      let (v, le, below, place) = min_from-least i x (suc i) xs in
      rw less (
        v,
        ground arith,
        below_cons v x xs le below,
        elim place [
          | inl (w, e) ↦ inr (0, w ∙ omega arith, ap some (sym e))
          | inr (j, w, g) ↦ inr (suc j, w ∙ omega arith, g)
        ],
      )
  | inr more ↦
      let (v, le, below, place) = min_from-least best least (suc i) xs in
      rw more (
        v,
        le,
        below_cons v x xs (ground arith) below,
        elim place [ inl (w, e) ↦ inl (w, e) | inr (j, w, g) ↦ inr (suc j, w ∙ omega arith, g) ],
      )
]

-- `min_element` finds the position of a least number.
pub min_element-IsLeast : (x : ℕ) (xs : List ℕ) → IsLeast (x ∷ xs) (min_element (x ∷ xs))
unfolding min_element
min_element-IsLeast x xs =
    let (v, le, below, place) = min_from-least 0 x 1 xs in
    (
      v,
      elim place [ inl (w, e) ↦ rw w (ap some (sym e)) | inr (j, w, g) ↦ rw (w, one-add) g ],
      below_cons v x xs le below,
    )

-- Every way has a number, and all numbers are below the clock `t`.
pub record IsStamped {ℓ} {T : Type ℓ} (c : LruSetAssociativeCache T) : Type ℓ where
  pub table_valid : IsValid c.table
  pub stamped : (i w u : ℕ) → get_elem? (rank_row c.table i) w ≡ some u → u < c.t

module _ {ℓ} {T : Type ℓ} (c : LruSetAssociativeCache T) where
  rank_row-nonempty :
      (i : ℕ)
      → IsValid c.table
      → 0 < c.table.base.num_ways
      → i < c.table.base.num_sets
      → (x : ℕ) × (xs : List ℕ) × (rank_row c.table i ≡ x ∷ xs)
  rank_row-nonempty i v pos lt = cases (rank_row c.table i) (v.rows_sized i lt)
    where
      cases :
          (l : List ℕ) → length l ≡ c.table.base.num_ways → (x : ℕ) × (xs : List ℕ) × (l ≡ x ∷ xs)
      cases [] e = absurd (omega arith)
      cases (x ∷ xs) e = (x, xs, refl)

  -- In a valid LRU table with at least one way, the victim of a set is one of its ways, and no
  -- way of the set has a smaller stamp.
  pub select_victim-IsLeast :
      (i : ℕ)
      → IsValid c.table
      → 0 < c.table.base.num_ways
      → i < c.table.base.num_sets
      → IsLeast (rank_row c.table i) (select_victim c.table.ranks i).0
        × ((select_victim c.table.ranks i).0 < c.table.base.num_ways)
  unfolding select_victim
  select_victim-IsLeast i v pos lt =
      let (x, xs, e) = rank_row-nonempty i v pos lt in
      let least : IsLeast (rank_row c.table i) (min_element (rank_row c.table i)) =
        rw e (min_element-IsLeast x xs) in
      (least, omega (arith, lt-of-get_elem? (rank_row c.table i) _ least.1, v.rows_sized i lt))

  victim_way-ranks :
      (i : ℕ) (ways : List (Entry T))
      → (SetAssoc.victim_way select_victim c.table.ranks i ways).1 ≡ c.table.ranks
  unfolding SetAssoc.victim_way select_victim
  victim_way-ranks i ways = elim (Option-cases (SetAssoc.first_invalid 0 ways)) [
    | inl full ↦ rw (full, SetAssoc.victim_way) refl
    | inr (w, free) ↦ rw (free, SetAssoc.victim_way) refl
  ]

  -- An insertion leaves the numbers as they are.
  insert-ranks :
      (key : ℕ) (d : T)
      → (SetAssoc.insert select_victim c.table.ranks c.table.base key d).0 ≡ c.table.ranks
  unfolding SetAssoc.insert
  insert-ranks key d = elim (Option-cases (locate c.table.base key)) [
    | inl miss ↦ rw (miss, SetAssoc.insert) (victim_way-ranks _ _)
    | inr ((way, e), hit) ↦ rw (hit, SetAssoc.insert) refl
  ]

  -- In a valid LRU table of at least one way with stamps below its clock, the insertion of any
  -- key keeps it so.
  pub insert-IsStamped :
      (key : ℕ) (d : T) → IsStamped c → 0 < c.table.base.num_ways → IsStamped (insert c key d).0
  unfolding insert
  insert-IsStamped key d v pos =
      let base_ok = v.table_valid.base_valid in
      let i = index_of c.table.base key in
      let (_, lt) =
        select_victim-IsLeast i v.table_valid pos (index_of-lt c.table.base key base_ok) in
      let (sets, ways, _) = insert-shape select_victim c.table.ranks c.table.base key d in
      let same = insert-ranks key d in
      record {
        table_valid = record {
          base_valid = insert-IsValid select_victim c.table.ranks c.table.base key d base_ok lt;
          ranks_sized = rw (same, sets) v.table_valid.ranks_sized;
          rows_sized = rw (same, sets, ways) v.table_valid.rows_sized;
        };
        stamped = rw same v.stamped;
      }

zeros-below : (m w u : ℕ) → get_elem? (replicate m 0) w ≡ some u → u < 1
zeros-below zero w u g = cc
zeros-below (suc m) zero u g = ground arith
zeros-below (suc m) (suc w) u g = zeros-below m w u g

zero_rows-below :
    (n m i w u : ℕ) → get_elem? (get_or (replicate n (replicate m 0)) i []) w ≡ some u → u < 1
zero_rows-below zero m i w u g = cc
zero_rows-below (suc n) m zero w u g = zeros-below m w u g
zero_rows-below (suc n) m (suc i) w u g = zero_rows-below n m i w u g

-- The new table's numbers are below its clock.
pub init-IsStamped {ℓ} :
    {T : Type ℓ} (d : T) (size num_ways : ℕ)
    → size / num_ways ≡ 2 ^ SetAssoc.index_len_of (size / num_ways)
    → IsStamped (init d size num_ways)
unfolding init Ranked.init
init-IsStamped d size num_ways p = record {
  table_valid = Ranked.init-Ranked d size num_ways p;
  stamped = zero_rows-below (size / num_ways) num_ways;
}
