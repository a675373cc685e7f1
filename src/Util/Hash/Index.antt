-- ===== src/Util/Hash/Index.antt =====
-- `hash_index` folds the high bits of a key into its index and loses nothing.
use native.Mathlib.Nat.{one-le-pow, mod-lt, pow-suc, div-le_self, suc-add}
use proba_artifact.Prelude.{
  ℕ, zero, suc, ◌+◌, ◌/◌, ◌%◌, ◌^◌, ◌<◌, bit_xor, ◌≡◌, refl, sym, ap, ◌∙◌, ◌≢◌, inl, inr, ℕ-cases,
  arith, ne→==-false, lt→ltb,
}
use proba_artifact.Prelude.Xor.{xor_cancel, xor_assoc, xor-zero, xor-div, xor-lt, half-div}
use proba_artifact.Util.Hash.{hash_loop, hash_index}

-- The exclusive or of the chunks of `index_len` bits of a tag.
fold : ℕ → ℕ → ℕ → ℕ
fold zero index_len tag = 0
fold (suc fuel) index_len tag =
    bit_xor (tag % 2 ^ index_len) (fold fuel index_len (tag / 2 ^ index_len))

fold-lt : (fuel k tag : ℕ) → fold fuel k tag < 2 ^ k
unfolding fold
fold-lt zero k tag = one-le-pow k 2 (omega arith)
fold-lt (suc fuel) k tag =
    xor-lt k _ _ (mod-lt tag (one-le-pow k 2 (omega arith))) (fold-lt fuel k _)

fold-zero : (fuel k : ℕ) → fold fuel k 0 ≡ 0
unfolding fold
fold-zero zero k = refl
fold-zero (suc fuel) k =
    let low : 0 % 2 ^ k ≡ 0 = omega arith in
    let high : 0 / 2 ^ k ≡ 0 = omega arith in rw (low, high, fold-zero fuel k)

hash_loop-fold : (fuel k key tag : ℕ) → hash_loop fuel k key tag ≡ bit_xor key (fold fuel k tag)
unfolding hash_loop fold
hash_loop-fold zero k key tag = sym (xor-zero key)
hash_loop-fold (suc fuel) k key tag = elim (ℕ-cases tag 0) [
  | inl done ↦ rw done (sym (ap (bit_xor key) (fold-zero (suc fuel) k) ∙ xor-zero key))
  | inr more ↦ rw (lt→ltb 0 tag (omega arith)) (
      hash_loop-fold fuel k (bit_xor key (tag % 2 ^ k)) (tag / 2 ^ k)
      ∙ xor_assoc key (tag % 2 ^ k) (fold fuel k (tag / 2 ^ k)))
]

hash_index-xor : (key k : ℕ) → k ≢ 0 → hash_index key k ≡ bit_xor key (fold 64 k (key / 2 ^ k))
unfolding hash_index
hash_index-xor key k h = rw (ne→==-false k 0 h) (hash_loop-fold 64 k key (key / 2 ^ k))

hash_index-none : (key : ℕ) → hash_index key 0 ≡ key
unfolding hash_index
hash_index-none key = refl

hash_loop-zero : (fuel k key : ℕ) → hash_loop fuel k key 0 ≡ key
unfolding hash_loop
hash_loop-zero zero k key = refl
hash_loop-zero (suc fuel) k key = refl

shift-lt : (fuel k tag : ℕ) → tag < 2 ^ suc fuel → tag / 2 ^ suc k < 2 ^ fuel
shift-lt fuel k tag lt =
    omega (arith, half-div tag k, div-le_self (tag / 2) (2 ^ k), pow-suc 2 fuel)

-- For an index length above 0, rounds of the hash loop beyond the bits of its tag change
-- nothing, so the 64 rounds of the definition are enough for a 64-bit key.
pub hash_loop_enough :
    (fuel more k key tag : ℕ)
    → tag < 2 ^ fuel
    → hash_loop (fuel + more) (suc k) key tag ≡ hash_loop fuel (suc k) key tag
unfolding hash_loop
hash_loop_enough zero more k key tag lt =
    let done : tag ≡ 0 = omega arith in rw (done, hash_loop-zero)
hash_loop_enough (suc fuel) more k key tag lt = elim (ℕ-cases tag 0) [
  | inl done ↦ rw (done, suc-add)
  | inr on ↦
      rw (suc-add, lt→ltb 0 tag (omega arith))
        (hash_loop_enough fuel more k (bit_xor key (tag % 2 ^ suc k)) (tag / 2 ^ suc k)
          (shift-lt fuel k tag lt))
]

-- hash_index, applied twice with the same index length, gives the key back.
pub hash_index_involutive : (key k : ℕ) → hash_index (hash_index key k) k ≡ key
hash_index_involutive key k = elim (ℕ-cases k 0) [
  | inl off ↦ rw off (hash_index-none (hash_index key 0) ∙ hash_index-none key)
  | inr on ↦
      let mask = fold 64 k (key / 2 ^ k) in
      let high : bit_xor key mask / 2 ^ k ≡ key / 2 ^ k =
        xor-div k key mask (fold-lt 64 k (key / 2 ^ k)) in
      ap (λ (x : ℕ). hash_index x k) (hash_index-xor key k on)
      ∙ hash_index-xor (bit_xor key mask) k on
      ∙ ap (λ (t : ℕ). bit_xor (bit_xor key mask) (fold 64 k t)) high
      ∙ xor_cancel key mask
]

-- For an index length above 0, hash_index changes the index bits of a key only: its tag stays.
pub hash_index-tag : (key k : ℕ) → k ≢ 0 → hash_index key k / 2 ^ k ≡ key / 2 ^ k
hash_index-tag key k h =
    ap (λ (t : ℕ). t / 2 ^ k) (hash_index-xor key k h)
    ∙ xor-div k key _ (fold-lt 64 k (key / 2 ^ k))

-- Two keys never share a hash.
pub hash_index-injective : (a b k : ℕ) → hash_index a k ≡ hash_index b k → a ≡ b
hash_index-injective a b k h =
    sym (hash_index_involutive a k) ∙ ap (λ (x : ℕ). hash_index x k) h ∙ hash_index_involutive b k
