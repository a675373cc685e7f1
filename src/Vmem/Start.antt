-- ===== src/Vmem/Start.antt =====
-- What the constructor of VirtualMemory sets up.
use native.Mathlib.Nat.{two-pow-succ, pow-le-pow_right, mod_self, mul-mod_right}
use mathlib.Core.Option.{some_inj}
use proba_artifact.Prelude.{
  ℕ, zero, suc, ◌+◌, ◌-◌, ◌*◌, ◌/◌, ◌%◌, ◌^◌, ◌<◌, ◌≡◌, refl, sym, ◌∙◌, ap, subst, some, max, inl,
  inr, [], ltb, ltb→lt, ==→eq, ◌==◌, Bool-cases, dec_le, arith,
}
use proba_artifact.Prelude.Keyed.{lookup}
use proba_artifact.Msl.Bits.{lg2}
use proba_artifact.Vmem.{
  VirtualMemory, virtual_page_key, page_table_key, page_size, vmem_reserve_capacity, new, pte_bytes,
}
use proba_artifact.Vmem.Ownership.{IsOwned}

two_pow_add : (i j : ℕ) → 2 ^ (i + j) ≡ 2 ^ i * 2 ^ j
two_pow_add zero j = ap (λ (n : ℕ). 2 ^ n) {x = 0 + j} {y = j} (omega arith) ∙ omega arith
two_pow_add (suc i) j =
    ap (λ (n : ℕ). 2 ^ n) {x = suc i + j} {y = suc (i + j)} (omega arith)
    ∙ grind (arith, two-pow-succ (i + j), two-pow-succ i, two_pow_add i j)

-- The reserved bytes are whole pages.
reserve_aligned : (k : ℕ) → vmem_reserve_capacity k % page_size k ≡ 0
reserve_aligned k = elim (dec_le 20 k) [
  | yes h ↦
      ap (λ (n : ℕ). n % page_size k) {x = max (2 ^ k) (2 ^ 20)} {y = 2 ^ k}
        (omega (arith, pow-le-pow_right {n = 2} (omega arith) h))
      ∙ mod_self (2 ^ k)
  | no h ↦
      let smaller = pow-le-pow_right {n = 2} (omega arith) {i = k} {j = 20} (omega arith) in
      let split = two_pow_add k (20 - k) in
      ap (λ (n : ℕ). n % page_size k) {x = max (2 ^ k) (2 ^ 20)} {y = 2 ^ k * 2 ^ (20 - k)}
        (omega (arith, ap (λ (n : ℕ). 2 ^ n) {x = 20} {y = k + (20 - k)} (omega arith)))
      ∙ mul-mod_right (2 ^ k) (2 ^ (20 - k))
]

module _ (k s q levels penalty : ℕ) where
  abbrev pub fresh : VirtualMemory
  fresh = record {
    vpage_to_ppage_map = [];
    page_table = [];
    next_pte_page = 0;
    next_ppage = vmem_reserve_capacity k;
    last_ppage = 2 ^ (k + lg2 (s / pte_bytes) * levels);
    minor_fault_penalty = penalty;
    pt_levels = levels;
    pte_page_size = s;
  }

  pub new-fresh :
      {m : VirtualMemory}
      → new k s levels penalty ≡ some m
      → (m ≡ fresh) × (1024 < s) × (s ≡ 2 ^ lg2 s) × (fresh.next_ppage < fresh.last_ppage)
  unfolding new
  new-fresh made = elim (Bool-cases (ltb 1024 s)) [
    | inl wide ↦ elim (Bool-cases (s == 2 ^ lg2 s)) [
      | inl power ↦ elim (Bool-cases (ltb fresh.next_ppage fresh.last_ppage)) [
        | inl left ↦ (
          sym (some_inj.0 (rw (wide, power, left) at made)),
          ltb→lt _ _ wide,
          ==→eq _ _ power,
          ltb→lt _ _ left,
        )
        | inr full ↦ absurd (cc (rw (wide, power, full) at made))
      ]
      | inr other ↦ absurd (cc (rw (wide, other) at made))
    ]
    | inr narrow ↦ absurd (cc (rw narrow at made))
  ]

  fresh-IsOwned :
      fresh.next_ppage < fresh.last_ppage → fresh.last_ppage < 2 ^ 64 → IsOwned k s q fresh
  unfolding lookup
  fresh-IsOwned left small = record {
    apart = record {
      aligned = reserve_aligned k;
      page_whole = λ key d h. cc;
      page_below_next = λ key d h. cc;
      page_apart = λ key other d h h'. cc;
      table_slot = λ key e h. cc;
      table_below_next = λ key e h. cc;
      table_apart = λ key other e h h'. cc;
      kinds_apart = λ key other d e h h'. cc;
    };
    slot = λ apart. absurd (apart refl);
    sized = refl;
    bounded = omega arith;
    small = small;
  }

  pub new-IsOwned :
      {m : VirtualMemory}
      → new k s levels penalty ≡ some m
      → m.last_ppage < 2 ^ 64
      → IsOwned k s q m
  new-IsOwned {m} made small =
      let (eq, _, _, left) = new-fresh made in
      subst (IsOwned k s q) (sym eq)
        (fresh-IsOwned left (subst (λ (n : VirtualMemory). n.last_ppage < 2 ^ 64) eq small))
