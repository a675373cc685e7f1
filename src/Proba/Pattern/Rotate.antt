-- ===== src/Proba/Pattern/Rotate.antt =====
-- Rotation: its positions, and that a rotation back undoes a rotation.
use native.Mathlib.Nat.{mod-eq_of_lt}
use proba_artifact.Prelude.{
  ℕ, zero, suc, ◌+◌, ◌-◌, ◌%◌, ◌<◌, ◌≡◌, ap, ◌∙◌, ◌⊎◌, inl, inr, ◌++◌, arith, length, take, drop,
  length-take, length-drop, length-append, All-append, All-take, All-drop, ◌==◌, Bool-cases,
  ne→==-false, take-append-drop, take-append_left, drop-append_left,
}
use proba_artifact.Proba.Pattern.{Pattern, IsBlock, IsPattern, Offset, fwd, back, normalize, rotate}

-- A rotation by `k` forward, and one by `k` backward, of `n` blocks.
rotate-fwd :
    (p : Pattern) (k : ℕ)
    → 0 < k
    → k < length p
    → rotate p (fwd k) ≡ drop (length p - k) p ++ take (length p - k) p
unfolding rotate normalize
rotate-fwd p k pos lt =
    rw (mod-eq_of_lt lt, ne→==-false (length p) 0 (omega arith), ne→==-false k 0 (omega arith))

rotate-back :
    (p : Pattern) (k : ℕ) → 0 < k → k < length p → rotate p (back k) ≡ drop k p ++ take k p
unfolding rotate normalize
rotate-back p k pos lt =
    let far : length p - (length p - k) ≡ k = omega arith in
    rw (
      mod-eq_of_lt lt,
      ne→==-false (length p) 0 (omega arith),
      ne→==-false k 0 (omega arith),
      ne→==-false (length p - k) 0 (omega arith),
      far,
    )

rotate-cases :
    (p : Pattern) (o : Offset) → (rotate p o ≡ p) ⊎ ((m : ℕ) × (rotate p o ≡ drop m p ++ take m p))
unfolding rotate
rotate-cases p o = elim (Bool-cases (length p == 0)) [
  | inl empty ↦ inl (rw empty)
  | inr some_blocks ↦ elim (Bool-cases (normalize o (length p) == 0)) [
    | inl still ↦ inl (rw (some_blocks, still))
    | inr moved ↦ inr (length p - normalize o (length p), rw (some_blocks, moved))
  ]
]

normalize-zero : (n : ℕ) → (normalize (fwd 0) n ≡ 0) × (normalize (back 0) n ≡ 0)
unfolding normalize
normalize-zero n = let zero-mod : 0 % n ≡ 0 = omega arith in (zero-mod, rw zero-mod)

rotate_still : (p : Pattern) (o : Offset) → normalize o (length p) ≡ 0 → rotate p o ≡ p
unfolding rotate
rotate_still p o h = elim (Bool-cases (length p == 0)) [
  | inl empty ↦ rw empty
  | inr some_blocks ↦ rw (some_blocks, h)
]

length-rotated : (k : ℕ) (p : Pattern) → length (drop k p ++ take k p) ≡ length p
length-rotated k p =
    omega (arith, length-append (drop k p) (take k p), length-drop k p, length-take k p)

rotated-IsPattern : (k : ℕ) (p : Pattern) → IsPattern p → IsPattern (drop k p ++ take k p)
rotated-IsPattern k p h = (
  length-rotated k p ∙ h.0,
  All-append IsBlock (drop k p) (take k p) (All-drop IsBlock k p h.1) (All-take IsBlock k p h.1),
)

-- A rotation by any offset keeps a region pattern one.
pub rotate-IsPattern : (p : Pattern) (offset : Offset) → IsPattern p → IsPattern (rotate p offset)
rotate-IsPattern p offset h = elim (rotate-cases p offset) [
  | inl still ↦ rw still h
  | inr (m, moved) ↦ rw moved (rotated-IsPattern m p h)
]

-- A rotation back undoes a rotation, and a rotation undoes a rotation back.
rotated_twice :
    (j m : ℕ) (p : Pattern)
    → j + m ≡ length p
    → drop j (drop m p ++ take m p) ++ take j (drop m p ++ take m p) ≡ p
rotated_twice j m p e =
    let len : j ≡ length (drop m p) = omega (arith, length-drop m p) in
    rw (len, drop-append_left (drop m p) (take m p), take-append_left (drop m p) (take m p))
      (take-append-drop m p)

-- A rotation of a pattern by less than its length, and one back by as much, give the pattern.
pub rotate_back : (p : Pattern) (k : ℕ) → k < length p → rotate (rotate p (fwd k)) (back k) ≡ p
rotate_back p zero lt =
    rw (rotate_still p (fwd 0) (normalize-zero (length p)).0)
      (rotate_still p (back 0) (normalize-zero (length p)).1)
rotate_back p (suc k) lt =
    let m = length p - suc k in
    let len = length-rotated m p in
    ap (λ (q : Pattern). rotate q (back (suc k))) (rotate-fwd p (suc k) (omega arith) lt)
    ∙ rotate-back (drop m p ++ take m p) (suc k) (omega arith) (omega arith)
    ∙ rotated_twice (suc k) m p (omega arith)

-- So do one back and one forward.
pub rotate_forth : (p : Pattern) (k : ℕ) → k < length p → rotate (rotate p (back k)) (fwd k) ≡ p
rotate_forth p zero lt =
    rw (rotate_still p (back 0) (normalize-zero (length p)).1)
      (rotate_still p (fwd 0) (normalize-zero (length p)).0)
rotate_forth p (suc k) lt =
    let len = length-rotated (suc k) p in
    ap (λ (q : Pattern). rotate q (fwd (suc k))) (rotate-back p (suc k) (omega arith) lt)
    ∙ rotate-fwd (drop (suc k) p ++ take (suc k) p) (suc k) (omega arith) (omega arith)
    ∙ rw len (rotated_twice (length p - suc k) (suc k) p (omega arith))
