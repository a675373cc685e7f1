-- ===== src/Proba/Train/Survey/Total.antt =====
-- The first loop of `update_in_pht` trips no assertion on tables that hold region patterns.
use proba_artifact.Prelude.{
  ℕ, suc, ◌<◌, ◌≤◌, ◌≡◌, refl, inl, inr, ◌&&◌, List, [], ◌∷◌, ◌++◌, set, length, All, All-set,
  All-append, get_or, ◌+◌, some, ltb, ◌==◌, Bool-cases, Option-cases, arith,
}
use proba_artifact.SetAssoc.{Entry}
use proba_artifact.Proba.Pattern.{IsPattern, count_bits_set, accuracy_of, num_blocks}
use proba_artifact.Proba.Pattern.Count.{count_bits_same-le, accuracy-le-100}
use proba_artifact.Proba.Tables.{
  ActiveGenerationTableData, PatternHistoryTableData, PatternHistoryTable, is_offset_offset,
}
use proba_artifact.Proba.Train.View.{observation_for, prediction_for, aligned, look_up}
use proba_artifact.Proba.Train.View.Laws.{views-IsPattern, IsUnion, accumulate-IsPattern}
use proba_artifact.Proba.Train.Survey.{
  Survey, survey_entry, survey_table, survey, insert_sorted, sort_indices,
}

-- Whatever the region finds in the table is a region pattern.
abbrev pub HoldsPatterns : ActiveGenerationTableData → PatternHistoryTable → Type 0
HoldsPatterns d t =
    (e : Entry PatternHistoryTableData) → look_up d t ≡ some e → IsPattern e.payload.pattern

-- The union so far is one, every accuracy is a percentage, and the active tables are among `n`.
abbrev pub IsSurvey : ℕ → Survey → Type 0
IsSurvey n s =
    IsUnion s.accumulated_prediction
    × All (λ a. a ≤ 100) s.accuracy
    × All (λ i. i < n) s.active_indices

module _ (n : ℕ) (d : ActiveGenerationTableData) (len : length d.pattern ≡ 64) where
  survey_entry-total :
      (tidx : ℕ) (t : PatternHistoryTable) (s : Survey) (e : Entry PatternHistoryTableData)
      → IsPattern e.payload.pattern
      → IsSurvey n s
      → (s' : Survey) × (survey_entry d tidx t (observation_for d t.behavior) s e ≡ some s')
        × IsSurvey n s'
  unfolding survey_entry
  survey_entry-total tidx t s e held (union, percents, active) =
      let (obs, pred, _, _) = views-IsPattern d t.behavior e.payload.pattern len held in
      let prediction = prediction_for d t.behavior e.payload.pattern in
      let (_, _, _, turned) = views-IsPattern d t.behavior prediction len pred in
      let (acc, took, union') =
        accumulate-IsPattern s.accumulated_prediction (aligned d t.behavior prediction) union
          turned in
      let (n, same, le, _) =
        count_bits_same-le prediction (observation_for d t.behavior) (omega arith) in
      (
        record s {
          accumulated_prediction = acc;
          accuracy = set s.accuracy tidx (accuracy_of n (count_bits_set prediction));
        },
        rw (took, same) refl,
        (
          inr union',
          All-set (λ a. a ≤ 100) s.accuracy tidx _ percents
              (accuracy-le-100 n (count_bits_set prediction) le),
          active,
        ),
      )

  survey_table-total :
      (tidx : ℕ) (t : PatternHistoryTable) (s : Survey)
      → tidx < n
      → HoldsPatterns d t
      → IsSurvey n s
      → (s' : Survey) × (survey_table d tidx t s ≡ some s') × IsSurvey n s'
  unfolding survey_table
  survey_table-total tidx t s lt holds (union, percents, active) =
      let observation = observation_for d t.behavior in
      let s' : Survey = record s {
        active_indices = s.active_indices ++ tidx ∷ [];
        touches = set s.touches tidx (ltb 0 (count_bits_set observation));
      } in
      let active' = All-append (λ i. i < n) s.active_indices (tidx ∷ []) active (lt, tt) in
      elim (Option-cases (look_up d t)) [
        | inl missing ↦ (s', rw (missing, survey_table) refl, (union, percents, active'))
        | inr (e, found) ↦
            let (r, at, good) =
              survey_entry-total tidx t s' e (holds e found) (union, percents, active') in
            (r, rw (found, survey_table) at, good)
      ]

  -- On a region of 64 blocks and tables that hold region patterns at its keys, the loop ends without a
  -- failed assertion: the union of the predictions is empty or a region pattern, every accuracy is
  -- at most 100, and the active indices are those of tables.
  pub survey-total :
      (tidx : ℕ) (phts : List PatternHistoryTable) (s : Survey)
      → tidx + length phts ≤ n
      → All (HoldsPatterns d) phts
      → IsSurvey n s
      → (s' : Survey) × (survey d tidx phts s ≡ some s') × IsSurvey n s'
  unfolding survey
  survey-total tidx [] s le holds ok = (s, refl, ok)
  survey-total tidx (t ∷ phts) s le holds ok =
      elim (Bool-cases ((d.second_offset == num_blocks) && is_offset_offset t.behavior)) [
        | inl skip ↦
            let (r, at, good) = survey-total (suc tidx) phts s (omega arith) holds.1 ok in
            (r, rw skip at, good)
        | inr ask ↦
            let (s', at, ok') = survey_table-total tidx t s (omega arith) holds.0 ok in
            let (r, at', good) = survey-total (suc tidx) phts s' (omega arith) holds.1 ok' in
            (r, rw (ask, at) at', good)
      ]

insert_sorted-All :
    (n : ℕ) (accuracy : List ℕ) (i : ℕ) (js : List ℕ)
    → i < n
    → All (λ j. j < n) js
    → All (λ j. j < n) (insert_sorted accuracy i js)
unfolding insert_sorted
insert_sorted-All n accuracy i [] lt h = (lt, tt)
insert_sorted-All n accuracy i (j ∷ js) lt h =
    elim (Bool-cases (ltb (get_or accuracy j 0) (get_or accuracy i 0))) [
      | inl higher ↦ rw higher (lt, h)
      | inr lower ↦ rw lower (h.0, insert_sorted-All n accuracy i js lt h.1)
    ]

-- The sort makes up no table.
pub sort_indices-All :
    (n : ℕ) (accuracy sorted is : List ℕ)
    → All (λ j. j < n) sorted
    → All (λ j. j < n) is
    → All (λ j. j < n) (sort_indices accuracy sorted is)
unfolding sort_indices
sort_indices-All n accuracy sorted [] hs hi = hs
sort_indices-All n accuracy sorted (i ∷ is) hs hi =
    sort_indices-All n accuracy (insert_sorted accuracy i sorted) is
      (insert_sorted-All n accuracy i sorted hi.0 hs) hi.1
