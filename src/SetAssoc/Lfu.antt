-- ===== src/SetAssoc/Lfu.antt =====
-- `custom_util::LFUSetAssociativeCache<T>` of inc/custom_util.h; its victim is that of the LRU table,
-- over the counts.
use proba_artifact.Prelude.{ℕ, ◌+◌, ◌%◌, ◌^◌}
use proba_artifact.SetAssoc
use proba_artifact.SetAssoc.{Entry}
use proba_artifact.SetAssoc.Ranked.{Ranked, with_rank}
use proba_artifact.SetAssoc.Lru

-- `frq_` is `table.ranks`.
pub record LfuSetAssociativeCache {ℓ} (T : Type ℓ) : Type ℓ where
  pub table : Ranked T

module _ {ℓ} {T : Type ℓ} where
  -- The count goes up in 64 bits, and starts at 1.
  unfoldable pub rp_promote : LfuSetAssociativeCache T → ℕ → LfuSetAssociativeCache T
  rp_promote c key = record { table = with_rank c.table key (λ n. (n + 1) % 2 ^ 64) }

  unfoldable pub rp_insert : LfuSetAssociativeCache T → ℕ → LfuSetAssociativeCache T
  rp_insert c key = record { table = with_rank c.table key (λ n. 1) }

  -- `insert` with the least used way as the victim.
  unfoldable pub insert : LfuSetAssociativeCache T → ℕ → T → LfuSetAssociativeCache T × Entry T
  insert c key d =
      let (frq, base', old) = SetAssoc.insert Lru.select_victim c.table.ranks c.table.base key d in
      (record { table = record { base = base'; ranks = frq } }, old)
