-- ===== src/Vmem/Pages.antt =====
-- Addresses by pages and by slots of pages.
use Prim.Native.Nat.{◌∣◌}
use native.Mathlib.Nat.{
  div-add-mod, mul-add-div, div-eq_of_lt, mod-mod_of_dvd, mod-lt, dvd-mul_right, mul-mod_right,
  lt_of_mul-lt-mul_left, mul-le-mul, dvd-add, dvd_of_mod-eq-zero, mod-eq-zero_of_dvd, dvd_refl,
  dvd_trans,
}
use proba_artifact.Prelude.{ℕ, ◌+◌, ◌*◌, ◌/◌, ◌%◌, ◌≤◌, ◌<◌, ◌≡◌, ◌≢◌, ◌∙◌, sym, ap, subst, arith}

module _ (p : ℕ) (pos : 0 < p) where
  whole : (n : ℕ) → n % p ≡ 0 → n ≡ p * (n / p)
  whole n h = omega (arith, div-add-mod n p)

  -- What lies below a page's first byte lies in an earlier page.
  pub page_below : (e n : ℕ) → e < n → n % p ≡ 0 → e / p < n / p
  page_below e n lt aligned =
      lt_of_mul-lt-mul_left p (omega (arith, whole n aligned, div-add-mod e p))

  pub page_above : (e n : ℕ) → e / p < n / p → n % p ≡ 0 → e < n
  page_above e n lt aligned =
      let next =
        mul-le-mul {n₁ = p} {m₁ = e / p + 1} {n₂ = p} {m₂ = n / p} (omega arith) (omega arith) in
      grind (arith, whole n aligned, div-add-mod e p, mod-lt e pos)

  pub page_next : (n : ℕ) → n % p ≡ 0 → (n + p) % p ≡ 0
  page_next n aligned = mod-eq-zero_of_dvd p (dvd-add p (dvd_of_mod-eq-zero p aligned) (dvd_refl p))

  -- Two first bytes of one page are the same.
  pub page_eq : (a b : ℕ) → a % p ≡ 0 → b % p ≡ 0 → a / p ≡ b / p → a ≡ b
  page_eq a b ha hb e = whole a ha ∙ ap (λ (t : ℕ). p * t) e ∙ sym (whole b hb)

-- A page of `p` bytes holds `q` slots of `s` bytes.
module _ (p s q : ℕ) (pos : 0 < p) (slots : p ≡ s * q) where
  slot_divides : s ∣ p
  slot_divides = subst (λ t. s ∣ t) (sym slots) (dvd-mul_right s q)

  pub slot_of_page : (n : ℕ) → n % p ≡ 0 → n % s ≡ 0
  slot_of_page n h = mod-eq-zero_of_dvd s (dvd_trans s slot_divides (dvd_of_mod-eq-zero p h))

  -- The rest of a page after a slot is no less than a slot.
  room : (n : ℕ) → n % s ≡ 0 → n % p + s ≤ p
  room n h =
      let r = n % p in
      let slot = mod-mod_of_dvd s n slot_divides ∙ h in
      let lt =
        lt_of_mul-lt-mul_left s {m = r / s} {n = q}
          (omega (arith, div-add-mod r s, mod-lt n pos)) in
      let le = mul-le-mul {n₁ = s} {m₁ = r / s + 1} {n₂ = s} {m₂ = q} (omega arith) (omega arith) in
      grind (arith, div-add-mod r s)

  -- The slot after a slot lies in the same page, unless it begins a page.
  pub slot_next-page : (n : ℕ) → n % s ≡ 0 → (n + s) % p ≢ 0 → (n + s) / p ≡ n / p
  slot_next-page n h other =
      let r = n % p in
      let parts = div-add-mod n p in
      let after : n + s ≡ p * (n / p) + (r + s) = omega (arith, parts) in
      let short : r + s ≢ p = λ e.
        other (ap (λ (t : ℕ). t % p) (after ∙ ap (λ (t : ℕ). p * (n / p) + t) e) ∙ full (n / p)) in
      ap (λ (t : ℕ). t / p) after
      ∙ mul-add-div pos (n / p) (r + s)
      ∙ ap (λ (t : ℕ). n / p + t) (div-eq_of_lt (omega (arith, room n h)))
      ∙ omega arith
    where
      full : (a : ℕ) → (p * a + p) % p ≡ 0
      full a = page_next p pos (p * a) (mul-mod_right p a)
