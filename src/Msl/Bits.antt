-- ===== src/Msl/Bits.antt =====
-- inc/msl/bits.h; the masks of low bits are written as remainders.
use proba_artifact.Prelude.{ℕ, zero, suc, ◌+◌, ◌*◌, ◌/◌, ◌%◌, ◌^◌, true, false, ltb}

-- The rounds left stand for the recursion; each halves the number.
lg2_from : ℕ → ℕ → ℕ
lg2_from zero n = 0
lg2_from (suc rounds) n = elim (ltb n 2) [ true ↦ 0 | false ↦ 1 + lg2_from rounds (n / 2) ]

unfoldable pub lg2 : ℕ → ℕ
unfolding lg2_from
lg2 n = lg2_from n n

-- The bits of `upper` from `bits` on, and those of `lower` below.
unfoldable pub splice_bits : ℕ → ℕ → ℕ → ℕ
splice_bits upper lower bits = upper / 2 ^ bits * 2 ^ bits + lower % 2 ^ bits
