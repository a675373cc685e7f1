-- ===== src/Prelude/Xor.antt =====
-- Laws of the exclusive or at every width, from the recursion on digits that it stands for.
use Prim.Native.Nat.{
  bit_xor, bit_xor-bitwise, digits, differ, ℕ, zero, suc, ◌+◌, ◌*◌, ◌/◌, ◌%◌, ◌^◌, ◌≤◌, ◌<◌,
}
use mathlib.Core.Path.{◌≡◌, refl, sym, ◌∙◌, ap}
use mathlib.Core.Logic.{◌⊎◌, inl, inr}
use native.Mathlib.Nat.{pow-suc, one-le-pow, div-eq_of_lt, le_refl, div-div-eq-div-mul}
use native.Mathlib.Omega.{arith}

abbrev xor_digits : ℕ → ℕ → ℕ → ℕ
xor_digits n a b = digits (λ b. b) differ n a b

xor_digits_fuel : (n m a b : ℕ) → a ≤ n → a ≤ m → xor_digits n a b ≡ xor_digits m a b
xor_digits_fuel zero zero a b p q = refl
xor_digits_fuel zero (suc m) zero b p q = refl
xor_digits_fuel zero (suc m) (suc a) b p q = absurd (omega arith)
xor_digits_fuel (suc n) zero zero b p q = refl
xor_digits_fuel (suc n) zero (suc a) b p q = absurd (omega arith)
xor_digits_fuel (suc n) (suc m) zero b p q = refl
xor_digits_fuel (suc n) (suc m) (suc a) b p q =
    ap (λ (t : ℕ). t * 2 + differ (suc a % 2) (b % 2))
      (xor_digits_fuel n m (suc a / 2) (b / 2) (omega arith) (omega arith))

zero-xor : (b : ℕ) → bit_xor 0 b ≡ b
zero-xor b = bit_xor-bitwise 0 b

-- The lowest digit.
pub xor_step : (a b : ℕ) → bit_xor a b ≡ bit_xor (a / 2) (b / 2) * 2 + differ (a % 2) (b % 2)
xor_step zero b = omega (arith, zero-xor b, zero-xor (b / 2))
xor_step (suc a) b =
    bit_xor-bitwise (suc a) b
    ∙ ap (λ (t : ℕ). t * 2 + differ (suc a % 2) (b % 2))
        (xor_digits_fuel a (suc a / 2) (suc a / 2) (b / 2) (omega arith) (le_refl _)
          ∙ sym (bit_xor-bitwise (suc a / 2) (b / 2)))

bit : (a : ℕ) → (a % 2 ≡ 0) ⊎ (a % 2 ≡ 1)
bit a = omega arith

differ-lt : (a b : ℕ) → differ (a % 2) (b % 2) < 2
differ-lt a b = elim (bit a) [
  | inl x ↦ elim (bit b) [ inl y ↦ rw (x, y) (omega arith) | inr y ↦ rw (x, y) (omega arith) ]
  | inr x ↦ elim (bit b) [ inl y ↦ rw (x, y) (omega arith) | inr y ↦ rw (x, y) (omega arith) ]
]

differ-zero : (x : ℕ) → differ x 0 ≡ x
differ-zero zero = refl
differ-zero (suc x) = refl

differ_cancel : (a b : ℕ) → differ (differ (a % 2) (b % 2)) (b % 2) ≡ a % 2
differ_cancel a b = elim (bit a) [
  | inl x ↦ elim (bit b) [ inl y ↦ rw (x, y) | inr y ↦ rw (x, y) ]
  | inr x ↦ elim (bit b) [ inl y ↦ rw (x, y) | inr y ↦ rw (x, y) ]
]

differ_assoc :
    (a b c : ℕ) → differ (differ (a % 2) (b % 2)) (c % 2) ≡ differ (a % 2) (differ (b % 2) (c % 2))
differ_assoc a b c = elim (bit a) [
  | inl x ↦ rw x
  | inr x ↦ elim (bit b) [
    | inl y ↦ rw (x, y)
    | inr y ↦ elim (bit c) [ inl z ↦ rw (x, y, z) | inr z ↦ rw (x, y, z) ]
  ]
]

pub xor-half : (a b : ℕ) → bit_xor a b / 2 ≡ bit_xor (a / 2) (b / 2)
xor-half a b = omega (arith, xor_step a b, differ-lt a b)

xor-parity : (a b : ℕ) → bit_xor a b % 2 ≡ differ (a % 2) (b % 2)
xor-parity a b = omega (arith, xor_step a b, differ-lt a b)

-- A number is its half and its parity.
eq_of_halves : (a b : ℕ) → a / 2 ≡ b / 2 → a % 2 ≡ b % 2 → a ≡ b
eq_of_halves a b p q = omega arith

xor_cancel_fuel : (n a b : ℕ) → a ≤ n → b ≤ n → bit_xor (bit_xor a b) b ≡ a
xor_cancel_fuel zero zero zero p q = refl
xor_cancel_fuel zero zero (suc b) p q = absurd (omega arith)
xor_cancel_fuel zero (suc a) b p q = absurd (omega arith)
xor_cancel_fuel (suc n) a b p q =
    eq_of_halves _ _
      (xor-half (bit_xor a b) b
        ∙ ap (λ (t : ℕ). bit_xor t (b / 2)) (xor-half a b)
        ∙ xor_cancel_fuel n (a / 2) (b / 2) (omega arith) (omega arith))
      (xor-parity (bit_xor a b) b
        ∙ ap (λ (t : ℕ). differ t (b % 2)) (xor-parity a b)
        ∙ differ_cancel a b)

-- To apply the same mask twice changes nothing.
pub xor_cancel : (a b : ℕ) → bit_xor (bit_xor a b) b ≡ a
xor_cancel a b = xor_cancel_fuel (a + b) a b (omega arith) (omega arith)

xor_assoc_fuel :
    (n a b c : ℕ) → a ≤ n → b ≤ n → c ≤ n → bit_xor (bit_xor a b) c ≡ bit_xor a (bit_xor b c)
xor_assoc_fuel zero zero zero zero p q r = refl
xor_assoc_fuel zero zero zero (suc c) p q r = absurd (omega arith)
xor_assoc_fuel zero zero (suc b) c p q r = absurd (omega arith)
xor_assoc_fuel zero (suc a) b c p q r = absurd (omega arith)
xor_assoc_fuel (suc n) a b c p q r =
    eq_of_halves _ _
      (xor-half (bit_xor a b) c
        ∙ ap (λ (t : ℕ). bit_xor t (c / 2)) (xor-half a b)
        ∙ xor_assoc_fuel n (a / 2) (b / 2) (c / 2) (omega arith) (omega arith) (omega arith)
        ∙ ap (bit_xor (a / 2)) (sym (xor-half b c))
        ∙ sym (xor-half a (bit_xor b c)))
      (xor-parity (bit_xor a b) c
        ∙ ap (λ (t : ℕ). differ t (c % 2)) (xor-parity a b)
        ∙ differ_assoc a b c
        ∙ ap (differ (a % 2)) (sym (xor-parity b c))
        ∙ sym (xor-parity a (bit_xor b c)))

pub xor_assoc : (a b c : ℕ) → bit_xor (bit_xor a b) c ≡ bit_xor a (bit_xor b c)
xor_assoc a b c = xor_assoc_fuel (a + b + c) a b c (omega arith) (omega arith) (omega arith)

xor-zero_fuel : (n a : ℕ) → a ≤ n → bit_xor a 0 ≡ a
xor-zero_fuel zero zero p = refl
xor-zero_fuel zero (suc a) p = absurd (omega arith)
xor-zero_fuel (suc n) a p =
    eq_of_halves _ _ (xor-half a 0 ∙ xor-zero_fuel n (a / 2) (omega arith))
      (xor-parity a 0 ∙ differ-zero (a % 2))

pub xor-zero : (a : ℕ) → bit_xor a 0 ≡ a
xor-zero a = xor-zero_fuel a a (le_refl a)

pub half-div : (x k : ℕ) → x / 2 ^ suc k ≡ x / 2 / 2 ^ k
half-div x k =
    let twice : 2 ^ suc k ≡ 2 * 2 ^ k = omega (arith, pow-suc 2 k) in
    ap (λ (t : ℕ). x / t) twice ∙ sym (div-div-eq-div-mul x 2 (2 ^ k))

-- Bits above a mask stay as they are.
pub xor-div : (k a b : ℕ) → b < 2 ^ k → bit_xor a b / 2 ^ k ≡ a / 2 ^ k
xor-div zero a b h =
    let none_set : b ≡ 0 = omega arith in
    ap (λ (t : ℕ). bit_xor a t / 1) none_set ∙ ap (λ (t : ℕ). t / 1) (xor-zero a)
xor-div (suc k) a b h =
    half-div (bit_xor a b) k
    ∙ ap (λ (t : ℕ). t / 2 ^ k) (xor-half a b)
    ∙ xor-div k (a / 2) (b / 2) (omega (arith, pow-suc 2 k))
    ∙ sym (half-div a k)

-- The exclusive or of two numbers of `k` bits has `k` bits.
pub xor-lt : (k a b : ℕ) → a < 2 ^ k → b < 2 ^ k → bit_xor a b < 2 ^ k
xor-lt k a b p q =
    let pos = one-le-pow k 2 (omega arith) in
    let small : bit_xor a b / 2 ^ k ≡ 0 = xor-div k a b q ∙ div-eq_of_lt p in
    omega (arith, ap (λ (t : ℕ). 2 ^ k * t) small)
