-- ===== src/Prelude/Rows.antt =====
-- Writes to a vector, seen by rows of equal length.
use Prim.Native.Nat.{ℕ, zero, suc, ◌+◌, ◌-◌, ◌*◌, ◌≤◌, ◌<◌}
use mathlib.Core.Path.{◌≡◌, refl, ap, ◌∙◌}
use mathlib.Core.Logic.{◌≢◌}
use mathlib.Core.List.{List, [], ◌∷◌}
use native.Mathlib.Omega.{arith}
use native.Mathlib.Nat.{mul-le-mul, add-mul}
use native.Mathlib.Decide.{dec_lt}
use proba_artifact.Prelude.Lists.{length, set, take, drop, length-take}

splits : (r s n : ℕ) → r ≤ s → s * n ≡ r * n + (s - r) * n
splits r s n h = ap (λ (t : ℕ). t * n) {x = s} {y = r + (s - r)} (omega arith) ∙ add-mul r (s - r) n

module _ {ℓ} {A : Type ℓ} where
  drop-set : (a w : ℕ) (xs : List A) (v : A) → drop a (set xs (a + w) v) ≡ set (drop a xs) w v
  drop-set zero w xs v = ap (λ (i : ℕ). set xs i v) {x = 0 + w} {y = w} (omega arith)
  drop-set (suc a) w [] v = refl
  drop-set (suc a) w (x ∷ xs) v =
      ap (λ (i : ℕ). drop (suc a) (set (x ∷ xs) i v)) {x = suc a + w} {y = suc (a + w)}
        (omega arith)
      ∙ drop-set a w xs v

  drop-set_before : (a i : ℕ) (xs : List A) (v : A) → i < a → drop a (set xs i v) ≡ drop a xs
  drop-set_before zero i xs v h = elim h [ ]
  drop-set_before (suc a) i [] v h = refl
  drop-set_before (suc a) zero (x ∷ xs) v h = refl
  drop-set_before (suc a) (suc i) (x ∷ xs) v h = drop-set_before a i xs v (omega arith)

  take-set : (n w : ℕ) (xs : List A) (v : A) → take n (set xs w v) ≡ set (take n xs) w v
  take-set zero w xs v = refl
  take-set (suc n) w [] v = refl
  take-set (suc n) zero (x ∷ xs) v = refl
  take-set (suc n) (suc w) (x ∷ xs) v = ap (◌∷◌ x) (take-set n w xs v)

  set-past : (xs : List A) (w : ℕ) (v : A) → length xs ≤ w → set xs w v ≡ xs
  set-past [] w v h = refl
  set-past (x ∷ xs) zero v h = absurd (omega arith)
  set-past (x ∷ xs) (suc w) v h = ap (◌∷◌ x) (set-past xs w v (omega arith))

  abbrev pub row : ℕ → ℕ → List A → List A
  row n s xs = take n (drop (s * n) xs)

  -- A write inside a row is a write to the row, and leaves the other rows alone.
  pub row-set_self :
      (n s w : ℕ) (xs : List A) (v : A) → row n s (set xs (s * n + w) v) ≡ set (row n s xs) w v
  row-set_self n s w xs v = ap (take n) (drop-set (s * n) w xs v) ∙ take-set n w (drop (s * n) xs) v

  pub row-set_ne :
      (n s r w : ℕ) (xs : List A) (v : A)
      → s ≢ r
      → w < n
      → row n r (set xs (s * n + w) v) ≡ row n r xs
  row-set_ne n s r w xs v apart h = elim (dec_lt s r) [
    | yes lt ↦
        let rows = mul-le-mul {n₁ = suc s} {m₁ = n} {n₂ = r} {m₂ = n} lt (omega arith) in
        ap (take n) (drop-set_before (r * n) (s * n + w) xs v (grind arith))
    | no ge ↦
        let gap = (s - r) * n + w in
        let rows = mul-le-mul {n₁ = 1} {m₁ = n} {n₂ = s - r} {m₂ = n} (omega arith) (omega arith) in
        let split : s * n ≡ r * n + (s - r) * n = splits r s n (omega arith) in
        ap (λ (i : ℕ). row n r (set xs i v)) {x = s * n + w} {y = r * n + gap} (omega arith)
        ∙ ap (take n) (drop-set (r * n) gap xs v)
        ∙ take-set n gap (drop (r * n) xs) v
        ∙ set-past (row n r xs) gap v (omega (arith, length-take n (drop (r * n) xs)))
  ]
