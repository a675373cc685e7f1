-- ===== src/SetAssoc/Rrip.antt =====
-- `SRRIPSetAssociativeCache<T>` and `BRRIPSetAssociativeCache<T>` of inc/custom_util.h. The draws of
-- `b_dist(engine)` are arguments.
pub mod Victim
use proba_artifact.Prelude.{
  ℕ, zero, suc, ◌+◌, ◌-◌, List, [], ◌∷◌, map, get_or, set, Bool, true, false, Option, none, some,
  if◌then◌else◌, ltb, leb,
}
use proba_artifact.SetAssoc
use proba_artifact.SetAssoc.{Entry}
use proba_artifact.SetAssoc.Ranked
use proba_artifact.SetAssoc.Ranked.{Ranked, with_rank}

-- `rrpv` is `table.ranks`.
pub record RripSetAssociativeCache {ℓ} (T : Type ℓ) : Type ℓ where
  pub table : Ranked T
  pub max_rrpv : ℕ

-- The scan `rrpv_set[i] >= max_rrpv`; `i` is the counter.
unfoldable pub first_ge : ℕ → ℕ → List ℕ → Option ℕ
first_ge max_rrpv i [] = none
first_ge max_rrpv i (r ∷ rs) = if leb max_rrpv r then some i else first_ge max_rrpv (suc i) rs

-- `ADD(r, max_rrpv)`
unfoldable pub add : ℕ → ℕ → ℕ
add max_rrpv r = if leb max_rrpv r then r else r + 1

unfoldable pub aging : ℕ → List ℕ → List ℕ
aging max_rrpv = map (add max_rrpv)

-- The `for (;;)` of `select_victim` with fuel: the way, and the aged set. `none` means that the fuel
-- ran out.
unfoldable pub victim_loop : ℕ → ℕ → List ℕ → Option (ℕ × List ℕ)
victim_loop zero max_rrpv rrpv_set = none
victim_loop (suc fuel) max_rrpv rrpv_set =
    let rest = victim_loop fuel max_rrpv (aging max_rrpv rrpv_set) in
    elim (first_ge max_rrpv 0 rrpv_set) [ some i ↦ some (i, rrpv_set) | none ↦ rest ]

-- `select_victim`; the number of rounds is bounded by `max_rrpv + 1`.
unfoldable pub select_victim : ℕ → List (List ℕ) → ℕ → ℕ × List (List ℕ)
select_victim max_rrpv rrpv index =
    elim (victim_loop (suc max_rrpv) max_rrpv (get_or rrpv index [])) [
      | none ↦ (0, rrpv)
      | some (way, aged) ↦ (way, set rrpv index aged)
    ]

module _ {ℓ} {T : Type ℓ} where
  unfoldable pub init : T → ℕ → ℕ → ℕ → RripSetAssociativeCache T
  init d size num_ways max_rrpv = record {
    table = Ranked.init d size num_ways;
    max_rrpv = max_rrpv;
  }

  abbrev pub find : RripSetAssociativeCache T → ℕ → Option (Entry T)
  find c key = SetAssoc.find c.table.base key

  -- The inherited `insert`, with this class's `select_victim`.
  unfoldable pub insert : RripSetAssociativeCache T → ℕ → T → RripSetAssociativeCache T × Entry T
  insert c key d =
      let (rrpv, base', old) =
        SetAssoc.insert (select_victim c.max_rrpv) c.table.ranks c.table.base key d in
      (record c { table = record { base = base'; ranks = rrpv } }, old)

  unfoldable pub update : RripSetAssociativeCache T → ℕ → T → Option (RripSetAssociativeCache T)
  update c key d = elim (SetAssoc.update c.table.base key d) [
    | none ↦ none
    | some base' ↦ some (record c { table = record { base = base'; ranks = c.table.ranks } })
  ]

  -- A write through a pointer that `find` returned.
  unfoldable pub modify : RripSetAssociativeCache T → ℕ → (T → T) → RripSetAssociativeCache T
  modify c key f = record c {
    table = record { base = SetAssoc.modify c.table.base key f; ranks = c.table.ranks };
  }

  -- `SRRIPSetAssociativeCache::rp_promote` and `rp_insert`
  unfoldable pub srrip_promote : RripSetAssociativeCache T → ℕ → RripSetAssociativeCache T
  srrip_promote c key = record c { table = with_rank c.table key (λ _. 0) }

  unfoldable pub srrip_insert : RripSetAssociativeCache T → ℕ → RripSetAssociativeCache T
  srrip_insert c key = record c { table = with_rank c.table key (λ _. 2) }

  -- `BRRIPSetAssociativeCache::rp_promote` and `rp_insert`
  unfoldable pub rp_promote : RripSetAssociativeCache T → ℕ → RripSetAssociativeCache T
  rp_promote c key = record c { table = with_rank c.table key (λ r. if ltb 0 r then r - 1 else r) }

  unfoldable pub rp_insert : RripSetAssociativeCache T → ℕ → Bool → RripSetAssociativeCache T
  rp_insert c key draw = record c {
    table = with_rank c.table key (λ _. if draw then c.max_rrpv - 1 else c.max_rrpv);
  }
