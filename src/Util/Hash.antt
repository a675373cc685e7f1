-- ===== src/Util/Hash.antt =====
-- The index and key hashes of src/custom_util.cc. A `uint32_t` is a number below 2 ^ 32, a
-- `uint64_t` one below 2 ^ 64.
pub mod Index
use proba_artifact.Prelude.{
  ℕ, zero, suc, ◌+◌, ◌-◌, ◌*◌, ◌/◌, ◌%◌, ◌^◌, bit_and, bit_xor, Bool, false, if◌then◌else◌, ◌==◌,
  ltb,
}

-- The loop of `hash_index`, `for (tag = key >> index_len; tag > 0; tag >>= index_len)`. The fuel is
-- the width of a key.
unfoldable pub hash_loop : ℕ → ℕ → ℕ → ℕ → ℕ
hash_loop zero index_len key tag = key
hash_loop (suc fuel) index_len key tag =
    let rest = hash_loop fuel index_len (bit_xor key (tag % 2 ^ index_len)) (tag / 2 ^ index_len) in
    if ltb 0 tag then rest else key

unfoldable pub hash_index : ℕ → ℕ → ℕ
hash_index key index_len =
    if index_len == 0 then key else hash_loop 64 index_len key (key / 2 ^ index_len)

-- `is_pow2`; `x - 1` is evaluated for a positive `x` only.
unfoldable pub is_pow2 : ℕ → Bool
is_pow2 x = if x == 0 then false else bit_and x (x - 1) == 0

-- The loop of `folded_xor`; the first number is the rounds left.
unfoldable pub folds : ℕ → ℕ → ℕ → ℕ → ℕ → ℕ → ℕ
folds zero value bits_in_fold mask fold folded_value = folded_value
folds (suc left) value bits_in_fold mask fold folded_value =
    folds left value bits_in_fold mask (suc fold)
      (bit_xor folded_value (bit_and (value / 2 ^ (fold * bits_in_fold)) mask))

-- `folded_xor`, for a number of folds that is a power of two above 1, as its assertions demand.
unfoldable pub folded_xor : ℕ → ℕ → ℕ
unfolding folds
folded_xor value num_folds =
    let bits_in_fold = 64 / num_folds in
    let mask = if num_folds == 2 then 0xffff_ffff else 2 ^ bits_in_fold - 1 in
    folds num_folds value bits_in_fold mask 0 0

-- `key << k` and `key + x` in 32 bits.
abbrev pub shl32 : ℕ → ℕ → ℕ
shl32 key k = key * 2 ^ k % 2 ^ 32

abbrev pub add32 : ℕ → ℕ → ℕ
add32 a b = (a + b) % 2 ^ 32

-- `HashZoo::jenkins`
unfoldable pub jenkins : ℕ → ℕ
jenkins k0 =
    let k1 = add32 k0 (shl32 k0 12) in
    let k2 = bit_xor k1 (k1 / 2 ^ 22) in
    let k3 = add32 k2 (shl32 k2 4) in
    let k4 = bit_xor k3 (k3 / 2 ^ 9) in
    let k5 = add32 k4 (shl32 k4 10) in
    let k6 = bit_xor k5 (k5 / 2 ^ 2) in let k7 = add32 k6 (shl32 k6 7) in bit_xor k7 (k7 / 2 ^ 12)
