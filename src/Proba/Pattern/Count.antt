-- ===== src/Proba/Pattern/Count.antt =====
-- The counts behind an accuracy: what is predicted and observed is at most what is predicted.
use native.Mathlib.Nat.{div-le_of_le-mul}
use proba_artifact.Prelude.{
  ℕ, suc, ◌*◌, ◌≤◌, ◌≡◌, refl, [], ◌∷◌, some, arith, length, if◌then◌else◌, ◌==◌, ◌&&◌,
}
use proba_artifact.Proba.Pattern.{Pattern, count_bits_set, count_bits_same, accuracy_of, pf_fill_l2}

-- On patterns of one length the assertion of count_bits_same holds, and its count is at most the
-- number of blocks of either.
pub count_bits_same-le :
    (p q : Pattern)
    → length p ≡ length q
    → (n : ℕ) × (count_bits_same p q ≡ some n) × (n ≤ count_bits_set p) × (n ≤ count_bits_set q)
unfolding count_bits_same count_bits_set
count_bits_same-le [] [] l = (0, refl, omega arith, omega arith)
count_bits_same-le [] (b ∷ q) l = absurd (omega arith)
count_bits_same-le (a ∷ p) [] l = absurd (omega arith)
count_bits_same-le (a ∷ p) (b ∷ q) l =
    let (n, e, le₁, le₂) = count_bits_same-le p q (omega arith) in
    (
      if (a == pf_fill_l2) && (b == pf_fill_l2) then suc n else n,
      rw (e, count_bits_same) (ground arith),
      ground arith,
      ground arith,
    )

-- So an accuracy is a percentage.
pub accuracy-le-100 : (same pop : ℕ) → same ≤ pop → accuracy_of same pop ≤ 100
unfolding accuracy_of
accuracy-le-100 same pop h =
    ground (arith, div-le_of_le-mul pop {m = 100 * same} {n = 100} (omega arith))
