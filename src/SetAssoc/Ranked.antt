-- ===== src/SetAssoc/Ranked.antt =====
-- What the replacement policies of inc/custom_util.h share: one number for each way of each set
-- (`lru`, `frq_`, `rrpv`), reached through the cam.
use proba_artifact.Prelude.{
  ℕ, ◌<◌, ◌/◌, ◌%◌, ◌^◌, some, List, [], get_or, set, length, replicate, ◌≡◌, refl, ap, ap₂, ◌∙◌,
  inl, inr, arith, ℕ-cases, length-set, get_or-set_self, get_or-set_ne, length-replicate,
  get_or-replicate,
}
use proba_artifact.Prelude.Assoc
use proba_artifact.SetAssoc
use proba_artifact.SetAssoc.{
  SetAssociativeCache, Entry, index_of, tag_of, row, cam, locate, find, index_len_of,
}
use proba_artifact.SetAssoc.Valid
use proba_artifact.SetAssoc.Valid.{index_of-lt, init-IsValid}
use proba_artifact.SetAssoc.Laws.{locate-facts}

pub record Ranked {ℓ} (T : Type ℓ) : Type ℓ where
  pub base : SetAssociativeCache T
  pub ranks : List (List ℕ)

module _ {ℓ} {T : Type ℓ} where
  unfoldable pub init : T → ℕ → ℕ → Ranked T
  init d size num_ways = record {
    base = SetAssoc.init d size num_ways;
    ranks = replicate (size / num_ways) (replicate num_ways 0);
  }

  abbrev pub rank_row : Ranked T → ℕ → List ℕ
  rank_row c i = get_or c.ranks i []

  -- `get_lru`, `get_frequency`, `get_rrpv`: the number that the returned pointer shows is replaced
  -- by `f` of it. The index and the tag are by `%` and `/`, unlike those of the base class.
  unfoldable pub with_rank : Ranked T → ℕ → (ℕ → ℕ) → Ranked T
  with_rank c key f =
      let index = key % c.base.num_sets in
      let (way, base') = SetAssoc.way_of c.base index (key / c.base.num_sets) in
      record {
        base = base';
        ranks =
            set c.ranks index (set (rank_row c index) way (f (get_or (rank_row c index) way 0)));
      }

  pub record IsValid (c : Ranked T) : Type ℓ where
    pub base_valid : Valid.IsValid c.base
    pub ranks_sized : length c.ranks ≡ c.base.num_sets
    pub rows_sized : (i : ℕ) → i < c.base.num_sets → length (rank_row c i) ≡ c.base.num_ways

  pub init-Ranked :
      (d : T) (size num_ways : ℕ)
      → size / num_ways ≡ 2 ^ index_len_of (size / num_ways)
      → IsValid (init d size num_ways)
  unfolding init SetAssoc.init
  init-Ranked d size num_ways p = record {
    base_valid = init-IsValid d size num_ways p;
    ranks_sized = length-replicate (size / num_ways) _;
    rows_sized = λ i h.
        rw (get_or-replicate (size / num_ways) i (replicate {A = ℕ} num_ways 0) [] h)
          (length-replicate {A = ℕ} num_ways 0);
  }

  way_of-hit :
      (c : SetAssociativeCache T) (i tag way : ℕ)
      → Assoc.lookup tag (cam c i) ≡ some way
      → SetAssoc.way_of c i tag ≡ (way, c)
  unfolding SetAssoc.way_of
  way_of-hit c i tag way l = rw (l, SetAssoc.way_of)

  -- On a key that is present, the pointer is into the key's own set and way, and only that number
  -- changes.
  pub with_rank-hit :
      (c : Ranked T) (key way : ℕ) (e : Entry T) (f : ℕ → ℕ)
      → IsValid c
      → locate c.base key ≡ some (way, e)
      → with_rank c key f ≡ record c {
        ranks = set c.ranks (index_of c.base key) (
            set
              (rank_row c (index_of c.base key))
              way
              (f (get_or (rank_row c (index_of c.base key)) way 0)));
      }
  unfolding with_rank
  with_rank-hit c key way e f v hit =
      let (g, val, t, i, k, l) = locate-facts c.base key way e v.base_valid hit in
      let same_set = ap (λ (m : ℕ). key % m) v.base_valid.pow2 in
      let same_tag = ap (λ (m : ℕ). key / m) v.base_valid.pow2 in
      let pointer = ap₂ (SetAssoc.way_of c.base) same_set same_tag ∙ way_of-hit c.base _ _ way l in
      rw (pointer, same_set)

  -- So it keeps the table valid, and what it holds.
  pub with_rank-IsValid :
      (c : Ranked T) (key way : ℕ) (e : Entry T) (f : ℕ → ℕ)
      → IsValid c
      → locate c.base key ≡ some (way, e)
      → IsValid (with_rank c key f) × ((with_rank c key f).base ≡ c.base)
  with_rank-IsValid c key way e f v hit = rw (with_rank-hit c key way e f v hit) (
    record {
      base_valid = v.base_valid;
      ranks_sized = length-set c.ranks _ _ ∙ v.ranks_sized;
      rows_sized = λ i h. elim (ℕ-cases (index_of c.base key) i) [
        | inl here ↦
            let lt : index_of c.base key < length c.ranks = omega (arith, v.ranks_sized) in
            rw (← here, get_or-set_self c.ranks (index_of c.base key) _ [] lt)
              (length-set (rank_row c (index_of c.base key)) way _
                ∙ v.rows_sized _ (index_of-lt c.base key v.base_valid))
        | inr there ↦
            rw (get_or-set_ne c.ranks (index_of c.base key) i _ [] there) (v.rows_sized i h)
      ];
    },
    refl,
  )
