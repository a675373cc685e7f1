-- ===== src/SetAssoc/Bip.antt =====
-- `custom_util::BIPSetAssociativeCache<T>` of inc/custom_util.h; all but `rp_insert` is that of the LRU
-- table. The draw of `b_dist(engine)` is an argument.
use proba_artifact.Prelude.{ℕ, ◌/◌, Bool, if◌then◌else◌}
use proba_artifact.SetAssoc.Ranked.{with_rank}
use proba_artifact.SetAssoc.Lru.{LruSetAssociativeCache}

-- The stamp is the clock or half of it; the clock stands.
unfoldable pub rp_insert {ℓ} :
    {T : Type ℓ} → LruSetAssociativeCache T → ℕ → Bool → LruSetAssociativeCache T
rp_insert c key draw = record c {
  table = with_rank c.table key (λ n. if draw then c.t else c.t / 2);
}
