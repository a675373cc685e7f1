-- ===== src/Proba/Train/View/Laws.antt =====
-- What `update_in_pht` sees of a region is a region pattern, and its first loop trips no assertion.
use proba_artifact.Prelude.{
  ℕ, ◌≡◌, refl, ◌∙◌, ◌⊎◌, inl, inr, Bool, true, false, [], ◌∷◌, set, length, length-set, All-set,
  some, if◌then◌else◌,
}
use proba_artifact.Proba.Pattern.{Pattern, IsBlock, IsPattern, fwd, back}
use proba_artifact.Proba.Pattern.Union.{pattern_bool2int-IsPattern, union_patterns-Covers}
use proba_artifact.Proba.Pattern.Rotate.{rotate-IsPattern}
use proba_artifact.Proba.Tables.{ActiveGenerationTableData, Behavior, is_pc, is_offset_offset}
use proba_artifact.Proba.Train.View.{
  observation_for, prediction_for, stored_pattern_for, aligned, accumulate,
}

-- The block is cleared.
pub clear-IsPattern : (p : Pattern) (i : ℕ) → IsPattern p → IsPattern (set p i 0)
clear-IsPattern p i h = (length-set p i 0 ∙ h.0, All-set IsBlock p i 0 h.1 (inl refl))

pub if-IsPattern :
    (b : Bool) (p q : Pattern) → IsPattern p → IsPattern q → IsPattern (if b then p else q)
if-IsPattern true p q hp hq = hp
if-IsPattern false p q hp hq = hq

-- What a new entry stores is a region pattern.
pub stored_pattern-IsPattern :
    (d : ActiveGenerationTableData) (behavior : Behavior)
    → length d.pattern ≡ 64
    → IsPattern (stored_pattern_for d behavior)
unfolding stored_pattern_for
stored_pattern-IsPattern d behavior len =
    let seen = clear-IsPattern _ d.trigger_offset (pattern_bool2int-IsPattern d.pattern len) in
    let turned =
      if-IsPattern (is_pc behavior) _ _ (rotate-IsPattern _ (back d.trigger_offset) seen) seen in
    if-IsPattern (is_offset_offset behavior) _ _ (clear-IsPattern _ d.second_offset turned) turned

-- What a table is shown of a region, what it predicts, and what it stores, are region patterns.
pub views-IsPattern :
    (d : ActiveGenerationTableData) (behavior : Behavior) (stored : Pattern)
    → length d.pattern ≡ 64
    → IsPattern stored
    → IsPattern (observation_for d behavior)
      × IsPattern (prediction_for d behavior stored)
      × IsPattern (stored_pattern_for d behavior)
      × IsPattern (aligned d behavior stored)
unfolding observation_for prediction_for aligned
views-IsPattern d behavior stored len hs =
    let seen = clear-IsPattern _ d.trigger_offset (pattern_bool2int-IsPattern d.pattern len) in
    let both =
      if-IsPattern (is_offset_offset behavior) _ _ (clear-IsPattern _ d.second_offset seen) seen in
    let pred =
      if-IsPattern (is_pc behavior) _ _ (clear-IsPattern stored 0 hs)
        (clear-IsPattern stored d.trigger_offset hs) in
    (
      if-IsPattern (is_pc behavior) _ _ (rotate-IsPattern _ (back d.trigger_offset) both) both,
      if-IsPattern (is_offset_offset behavior) _ _ (clear-IsPattern _ d.second_offset pred) pred,
      stored_pattern-IsPattern d behavior len,
      if-IsPattern (is_pc behavior) _ _ (rotate-IsPattern _ (fwd d.trigger_offset) hs) hs,
    )

-- A union so far: nothing, or a region pattern.
abbrev pub IsUnion : Pattern → Type 0
IsUnion p = (p ≡ []) ⊎ IsPattern p

pub accumulate-IsPattern :
    (acc p : Pattern)
    → IsUnion acc
    → IsPattern p
    → (r : Pattern) × (accumulate acc p ≡ some r) × IsPattern r
unfolding accumulate
accumulate-IsPattern [] p ha hp = (p, refl, hp)
accumulate-IsPattern (x ∷ acc) p ha hp = elim ha [
  | inl e ↦ absurd (nonempty e)
  | inr h ↦ let (r, e, hr, _) = union_patterns-Covers (x ∷ acc) p h hp in (r, e, hr)
]
  where
    nonempty : ¬ (x ∷ acc ≡ [])
    nonempty e = cc
