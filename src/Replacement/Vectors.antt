-- ===== src/Replacement/Vectors.antt =====
-- The part of a vector between two iterators, and the standard algorithms on it that the policies of
-- replacement/ call.
use proba_artifact.Prelude.{
  ℕ, zero, suc, ◌+◌, ◌*◌, ◌≤◌, ◌<◌, ◌≡◌, refl, ap, sym, ◌∙◌, ◌⊎◌, inl, inr, some, List, [], ◌∷◌,
  ◌++◌, take, drop, get_elem?, if◌then◌else◌, ltb, Bool-cases, arith,
}
use native.Mathlib.Numerals.{one-add}
use proba_artifact.SetAssoc.Rrip.Victim.{IsFirstMax}

-- The numbers of a set, and the vector with those of a set replaced.
abbrev pub segment : ℕ → ℕ → List ℕ → List ℕ
segment num_way set values = take num_way (drop (set * num_way) values)

abbrev pub with_segment : ℕ → ℕ → List ℕ → List ℕ → List ℕ
with_segment num_way set row values =
    take (set * num_way) values ++ row ++ drop (set * num_way + num_way) values

-- `std::max_element`: the first of the largest numbers. `best` and `most` are what the iterator to
-- the largest shows so far, and `i` is the position of the next number.
unfoldable pub max_from : ℕ → ℕ → ℕ → List ℕ → ℕ
max_from best most i [] = best
max_from best most i (x ∷ xs) =
    max_from (if ltb most x then i else best) (if ltb most x then x else most) (suc i) xs

unfoldable pub max_element : List ℕ → ℕ
max_element [] = 0
max_element (x ∷ xs) = max_from 0 x 1 xs

-- What the search from `best` and `most` on finds.
MaxFrom : ℕ → ℕ → ℕ → List ℕ → ℕ → ℕ → Type 0
MaxFrom best most i xs r v =
    (most ≤ v)
    × ((j u : ℕ) → get_elem? xs j ≡ some u → u ≤ v)
    × (((r ≡ best) × (v ≡ most))
        ⊎ ((j : ℕ) × (r ≡ i + j)
            × (get_elem? xs j ≡ some v)
            × (most < v)
            × ((k u : ℕ) → get_elem? xs k ≡ some u → k < j → u < v)))

below_head :
    (v y : ℕ) (xs : List ℕ)
    → y ≤ v
    → ((j u : ℕ) → get_elem? xs j ≡ some u → u ≤ v)
    → (j u : ℕ) → get_elem? (y ∷ xs) j ≡ some u
    → u ≤ v
below_head v y xs le below zero u g = ground arith
below_head v y xs le below (suc j) u g = below j u g

before_head :
    (v y n : ℕ) (xs : List ℕ)
    → y < v
    → ((k u : ℕ) → get_elem? xs k ≡ some u → k < n → u < v)
    → (k u : ℕ) → get_elem? (y ∷ xs) k ≡ some u
    → k < suc n
    → u < v
before_head v y n xs lt before zero u g l = ground arith
before_head v y n xs lt before (suc k) u g l = before k u g (omega arith)

max_from-MaxFrom :
    (best most i : ℕ) (xs : List ℕ) → (v : ℕ) × MaxFrom best most i xs (max_from best most i xs) v
unfolding max_from MaxFrom
max_from-MaxFrom best most i [] = (most, (omega arith, λ j u g. cc, inl (refl, refl)))
max_from-MaxFrom best most i (x ∷ xs) = elim (Bool-cases (ltb most x)) [
  | inl larger ↦
      let (v, (le, below, place)) = max_from-MaxFrom i x (suc i) xs in
      let up : most < x = ground arith in
      rw larger (
        v,
        (
          omega arith,
          below_head v x xs le below,
          elim place [
            | inl (w, e) ↦
                inr (
                  0,
                  w ∙ omega arith,
                  ap some (sym e),
                  omega arith,
                  λ k u g l. absurd (omega arith),
                )
            | inr (j, w, g, lt, before) ↦
                inr (suc j, w ∙ omega arith, g, omega arith, before_head v x j xs lt before)
          ],
        ),
      )
  | inr smaller ↦
      let (v, (le, below, place)) = max_from-MaxFrom best most (suc i) xs in
      let down : x ≤ most = ground arith in
      rw smaller (
        v,
        (
          le,
          below_head v x xs (omega arith) below,
          elim place [
            | inl (w, e) ↦ inl (w, e)
            | inr (j, w, g, lt, before) ↦
                inr (suc j, w ∙ omega arith, g, lt, before_head v x j xs (omega arith) before)
          ],
        ),
      )
]

-- `max_element` finds the leftmost of the largest numbers.
pub max_element-IsFirstMax : (x : ℕ) (xs : List ℕ) → IsFirstMax (x ∷ xs) (max_element (x ∷ xs))
unfolding max_element MaxFrom
max_element-IsFirstMax x xs =
    let (v, (le, below, place)) = max_from-MaxFrom 0 x 1 xs in
    let all = below_head v x xs le below in
    elim place [
      | inl (w, e) ↦ rw w (v, ap some (sym e), λ j u g. (all j u g, λ l. absurd (omega arith)))
      | inr (n, w, g, lt, before) ↦
          rw (w, one-add) (v, g, λ j u h. (all j u h, λ l. before_head v x n xs lt before j u h l))
    ]
