-- ===== src/Proba/Pattern/Union.antt =====
-- The union of two patterns never trips its assertions, and sets what either sets.
use proba_artifact.Prelude.{
  ℕ, suc, ◌≡◌, refl, ap, ◌∙◌, ◌⊎◌, inl, inr, List, [], ◌∷◌, some, arith, length, All, if◌then◌else◌,
  ◌==◌, Bool, true, false,
}
use proba_artifact.Proba.Pattern.{
  Pattern, IsBlock, IsPattern, pf_fill_l2, union_pattern_value, union_patterns, bool2int,
  pattern_bool2int,
}

-- The union of two blocks: set if either is.
join : ℕ → ℕ → ℕ
join a b = if a == 0 then b else a

joined : Pattern → Pattern → Pattern
joined [] q = []
joined (a ∷ p) [] = []
joined (a ∷ p) (b ∷ q) = join a b ∷ joined p q

union_value-join : (a b : ℕ) → IsBlock a → IsBlock b → union_pattern_value a b ≡ some (join a b)
unfolding union_pattern_value join
union_value-join a b ha hb = ground arith

join-IsBlock : (a b : ℕ) → IsBlock a → IsBlock b → IsBlock (join a b)
unfolding join
join-IsBlock a b ha hb = ground arith

union-joined :
    (p q : Pattern)
    → length p ≡ length q
    → All IsBlock p
    → All IsBlock q
    → union_patterns p q ≡ some (joined p q)
unfolding union_patterns joined
union-joined [] [] l hp hq = refl
union-joined [] (b ∷ q) l hp hq = absurd (omega arith)
union-joined (a ∷ p) [] l hp hq = absurd (omega arith)
union-joined (a ∷ p) (b ∷ q) l hp hq =
    rw (union_value-join a b hp.0 hq.0, union-joined p q (omega arith) hp.1 hq.1)

joined-All : (p q : Pattern) → All IsBlock p → All IsBlock q → All IsBlock (joined p q)
unfolding joined
joined-All [] q hp hq = tt
joined-All (a ∷ p) [] hp hq = tt
joined-All (a ∷ p) (b ∷ q) hp hq = (join-IsBlock a b hp.0 hq.0, joined-All p q hp.1 hq.1)

length-joined : (p q : Pattern) → length p ≡ length q → length (joined p q) ≡ length p
unfolding joined
length-joined [] q l = refl
length-joined (a ∷ p) [] l = absurd (omega arith)
length-joined (a ∷ p) (b ∷ q) l = omega (arith, length-joined p q)

-- The bits that are set in the union of two lists of blocks.
abbrev pub Covers : Pattern → Pattern → Pattern → Type 0
Covers [] [] [] = Unit
Covers (a ∷ p) (b ∷ q) (c ∷ r) =
    (((c ≡ pf_fill_l2) → (a ≡ pf_fill_l2) ⊎ (b ≡ pf_fill_l2))
      × (a ≡ pf_fill_l2 → c ≡ pf_fill_l2)
      × (b ≡ pf_fill_l2 → c ≡ pf_fill_l2))
    × Covers p q r
Covers _ _ _ = ⊥

joined-Covers :
    (p q : Pattern) → length p ≡ length q → All IsBlock p → All IsBlock q → Covers p q (joined p q)
unfolding joined join
joined-Covers [] [] l hp hq = tt
joined-Covers [] (b ∷ q) l hp hq = absurd (omega arith)
joined-Covers (a ∷ p) [] l hp hq = absurd (omega arith)
joined-Covers (a ∷ p) (b ∷ q) l hp hq = (
  (λ e. ground arith, λ e. ground arith, λ e. ground arith),
  joined-Covers p q (omega arith) hp.1 hq.1,
)

-- On two region patterns neither assertion of union_patterns fails; the result is a region
-- pattern, and a block is set in it exactly when it is set in one of the two.
pub union_patterns-Covers :
    (p q : Pattern)
    → IsPattern p
    → IsPattern q
    → (r : Pattern) × (union_patterns p q ≡ some r) × IsPattern r × Covers p q r
union_patterns-Covers p q hp hq =
    let same : length p ≡ length q = omega arith in
    (
      joined p q,
      union-joined p q same hp.1 hq.1,
      (length-joined p q same ∙ hp.0, joined-All p q hp.1 hq.1),
      joined-Covers p q same hp.1 hq.1,
    )

bool2int-IsBlock : (b : Bool) → IsBlock (bool2int b)
unfolding bool2int
bool2int-IsBlock true = inr refl
bool2int-IsBlock false = inl refl

pattern_bool2int-All : (p : List Bool) → All IsBlock (pattern_bool2int p)
unfolding pattern_bool2int
pattern_bool2int-All [] = tt
pattern_bool2int-All (b ∷ p) = (bool2int-IsBlock b, pattern_bool2int-All p)

length-pattern_bool2int : (p : List Bool) → length (pattern_bool2int p) ≡ length p
unfolding pattern_bool2int
length-pattern_bool2int [] = refl
length-pattern_bool2int (b ∷ p) = ap suc (length-pattern_bool2int p)

-- A region's bits as numbers are a region pattern.
pub pattern_bool2int-IsPattern : (p : List Bool) → length p ≡ 64 → IsPattern (pattern_bool2int p)
pattern_bool2int-IsPattern p l = (length-pattern_bool2int p ∙ l, pattern_bool2int-All p)
