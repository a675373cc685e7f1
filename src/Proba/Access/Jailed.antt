-- ===== src/Proba/Access/Jailed.antt =====
-- What the jail table means for `Proba::access` and `Proba::eviction`.
use proba_artifact.Prelude.{ℕ, ◌≡◌, refl, true, false, none, some}
use proba_artifact.Proba.Jail
use proba_artifact.Proba.Jail.{in_jail}
use proba_artifact.Proba.Jail.Laws.{IsSized, in_jail-mark, in_jail-unmark}
use proba_artifact.Proba.Tables.{agt_erase, agt_num_valid, ft_erase}
use proba_artifact.Proba.State.{Draws, Proba}
use proba_artifact.Proba.Access.{eviction, follow, sampled, region_of}

module _ (draws : Draws) (block_num : ℕ) (p : Proba) where
  -- With a jail that has an entry for each hash: an eviction of a block whose region the active
  -- generation table does not follow returns, releases the region from jail, and leaves the
  -- pattern history tables alone.
  pub eviction-releases :
      IsSized p.jt
      → (agt_erase p.agt (region_of block_num)).1 ≡ none
      → (p' : Proba) × (eviction draws block_num p ≡ some p')
        × (in_jail p'.jt (region_of block_num) ≡ false)
        × (p'.phts ≡ p.phts)
  unfolding eviction
  eviction-releases sized unseen = (
    record p {
      ft = ft_erase p.ft (region_of block_num);
      agt = (agt_erase p.agt (region_of block_num)).0;
      jt = Jail.unmark p.jt (region_of block_num);
    },
    rw (unseen, eviction) refl,
    in_jail-unmark p.jt (region_of block_num) sized,
    refl,
  )

module _ (draws : Draws) (region_num region_offset pc block_num : ℕ) (p : Proba) where
  -- With sampling on and a jail that has an entry for each hash: a new region that the sampling
  -- turns down is in jail afterwards, and neither the active generation table nor the pattern
  -- history tables change.
  pub follow_turned_down :
      IsSized p.jt
      → p.config.use_sampling ≡ true
      → (sampled draws p.config p.calls (agt_num_valid p.agt region_num)).0 ≡ false
      → (p' : Proba) × (follow draws region_num region_offset pc block_num p ≡ some p')
        × (in_jail p'.jt region_num ≡ true)
        × (p'.agt ≡ p.agt)
        × (p'.phts ≡ p.phts)
  unfolding follow
  follow_turned_down sized enabled down = (
    record p {
      jt = Jail.mark p.jt region_num;
      calls = (sampled draws p.config p.calls (agt_num_valid p.agt region_num)).1;
    },
    rw (enabled, down) refl,
    in_jail-mark p.jt region_num sized,
    refl,
    refl,
  )
