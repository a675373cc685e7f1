-- ===== src/Proba/Pattern/Sample.antt =====
-- The probabilistic update moves each block of a prediction towards the observation, or leaves it.
use proba_artifact.Prelude.{ℕ, suc, ◌<◌, ◌≡◌, refl, ap, ap₂, ◌∙◌, ◌⊎◌, [], ◌∷◌, arith, length, All}
use proba_artifact.Proba.Pattern.{Pattern, IsBlock, IsPattern, random_gen, sample_bit, sample}

sample_bit-Between :
    (draw ins del p o : ℕ)
    → IsBlock p
    → IsBlock o
    → (sample_bit draw ins del p o ≡ p) ⊎ (sample_bit draw ins del p o ≡ o)
unfolding sample_bit
sample_bit-Between draw ins del p o hp ho = ground arith

-- Each block is the prediction's or the observation's.
abbrev pub Between : Pattern → Pattern → Pattern → Type 0
Between [] [] [] = Unit
Between (a ∷ p) (b ∷ q) (c ∷ r) = ((c ≡ a) ⊎ (c ≡ b)) × Between p q r
Between _ _ _ = ⊥

Between-All :
    (p q r : Pattern)
    → All IsBlock p
    → All IsBlock q
    → Between p q r
    → (length r ≡ length p) × All IsBlock r
Between-All [] [] [] hp hq h = (refl, tt)
Between-All (a ∷ p) (b ∷ q) (c ∷ r) hp hq h =
    let (l, all) = Between-All p q r hp.1 hq.1 h.1 in (ap suc l, (ground arith, all))
Between-All p q r hp hq h = absurd h

-- On lists of blocks of one length the probabilistic update leaves each block as it was
-- predicted or makes it what was observed, whatever the draws and the probabilities are.
pub sample-Between :
    (rand : ℕ → ℕ) (n ins del : ℕ) (p o : Pattern)
    → length p ≡ length o
    → All IsBlock p
    → All IsBlock o
    → Between p o (sample rand n ins del p o)
unfolding sample
sample-Between rand n ins del [] [] l hp ho = tt
sample-Between rand n ins del [] (b ∷ o) l hp ho = absurd (omega arith)
sample-Between rand n ins del (a ∷ p) [] l hp ho = absurd (omega arith)
sample-Between rand n ins del (a ∷ p) (b ∷ o) l hp ho = (
  sample_bit-Between (random_gen rand n) ins del a b hp.0 ho.0,
  sample-Between rand (suc n) ins del p o (omega arith) hp.1 ho.1,
)

-- So the result is a region pattern again.
pub sample-IsPattern :
    (rand : ℕ → ℕ) (n ins del : ℕ) (p o : Pattern)
    → IsPattern p
    → IsPattern o
    → IsPattern (sample rand n ins del p o)
sample-IsPattern rand n ins del p o hp ho =
    let (l, a) =
      Between-All p o _ hp.1 ho.1 (sample-Between rand n ins del p o (omega arith) hp.1 ho.1) in
    (l ∙ hp.0, a)

sample_bit-certain :
    (draw p o : ℕ) → draw < 100 → IsBlock p → IsBlock o → sample_bit draw 100 100 p o ≡ o
unfolding sample_bit
sample_bit-certain draw p o lt hp ho = ground arith

-- On lists of blocks of one length, with both probabilities 100 percent, the update makes the
-- prediction the observation, whatever the draws are.
pub sample_certain :
    (rand : ℕ → ℕ) (n : ℕ) (p o : Pattern)
    → length p ≡ length o
    → All IsBlock p
    → All IsBlock o
    → sample rand n 100 100 p o ≡ o
unfolding sample
sample_certain rand n [] [] l hp ho = refl
sample_certain rand n [] (b ∷ o) l hp ho = absurd (omega arith)
sample_certain rand n (a ∷ p) [] l hp ho = absurd (omega arith)
sample_certain rand n (a ∷ p) (b ∷ o) l hp ho =
    ap₂ ◌∷◌ (sample_bit-certain (random_gen rand n) a b (omega arith) hp.0 ho.0)
      (sample_certain rand (suc n) p o (omega arith) hp.1 ho.1)
