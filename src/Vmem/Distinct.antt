-- ===== src/Vmem/Distinct.antt =====
-- No physical page is given out twice.
use native.Mathlib.Nat.{div-div-eq-div-mul}
use proba_artifact.Prelude.{
  ℕ, ◌*◌, ◌/◌, ◌%◌, ◌^◌, ◌<◌, ◌≡◌, ◌≢◌, ◌↔◌, refl, sym, ◌∙◌, ap, some, none, Option-cases, inl, inr,
  arith,
}
use mathlib.Core.Option.{some_inj}
use proba_artifact.Prelude.Keyed.{lookup}
use proba_artifact.Msl.Bits.{splice_bits, lg2}
use proba_artifact.Vmem.{
  VirtualMemory, PageTableKey, virtual_page_key, page_table_key, page_size, new, va_to_pa,
  virtual_page, pte_key, get_pte_pa, available_ppages, ppage_front, get_offset, pte_bytes,
}
use proba_artifact.Vmem.Pages.{page_eq}
use proba_artifact.Vmem.Steps.{va_to_pa_stuck, va_to_pa_old, va_to_pa_new}
use proba_artifact.Vmem.Ownership.{IsOwned, va_to_pa-Translated}
use proba_artifact.Vmem.Walk.{Walked, get_pte_pa-Walked}
use proba_artifact.Vmem.Start.{new-IsOwned, new-fresh}
use proba_artifact.Vmem.Run.{Run, run-IsOwned, same_pages, Translated-page, splice-page, pos}

module _ (k s q levels penalty : ℕ) {m₀ m : VirtualMemory} (made : new k s levels penalty ≡ some m₀)
    (small : m₀.last_ppage < 2 ^ 64) (slots : page_size k ≡ s * q) (before : Run k m₀ m) where
  wide : 0 < s
  wide = omega (arith, new-fresh k s q levels penalty made)

  owned : IsOwned k s q m
  owned = (run-IsOwned k s q wide slots (new-IsOwned k s q levels penalty made small) before).0

  -- In every run of a virtual memory that the constructor made, of at most 2^64 bytes and with a
  -- whole number of table slots to a page: a translation keeps the offset in the page and stays
  -- below the last page, and a later one, after any calls of va_to_pa and get_pte_pa, is in the
  -- same physical page exactly when it is of the same virtual page of the same core.
  pub translations_agree :
      (cpu_num vaddr pa fault cpu_num' vaddr' pa' fault' : ℕ) {m' n n' : VirtualMemory}
      → va_to_pa k cpu_num vaddr m ≡ some (pa, fault, m')
      → Run k m' n
      → va_to_pa k cpu_num' vaddr' n ≡ some (pa', fault', n')
      → ((pa / page_size k ≡ pa' / page_size k)
          ↔ (virtual_page k cpu_num vaddr ≡ virtual_page k cpu_num' vaddr'))
        × (pa % page_size k ≡ vaddr % page_size k)
        × (pa < m'.last_ppage)
  translations_agree cpu_num vaddr pa fault cpu_num' vaddr' pa' fault' call r call' =
      let p = pos k s q wide slots in
      let t = va_to_pa-Translated k s q p wide slots cpu_num vaddr owned call in
      let now = (run-IsOwned k s q wide slots t.owned r).0 in
      let u = va_to_pa-Translated k s q p wide slots cpu_num' vaddr' now call' in
      let (_, offset, below) = Translated-page k s q wide slots cpu_num vaddr pa t in
      (same_pages k s q wide slots cpu_num vaddr pa cpu_num' vaddr' pa' t r u, offset, below)

  power : s ≡ 2 ^ lg2 s
  power = (new-fresh k s q levels penalty made).2

  -- The slot of a table's entry, and its page.
  Walked-slot :
      (cpu_num vaddr level pa : ℕ) {n n' : VirtualMemory}
      → IsOwned k s q n
      → (t : Walked k s q (pos k s q wide slots) wide slots cpu_num vaddr level pa n n')
      → (pa / s ≡ t.slot / s) × (pa / page_size k ≡ t.slot / page_size k)
  Walked-slot cpu_num vaddr level pa {n} own t =
      let lower = get_offset k n vaddr level * pte_bytes in
      let size = power ∙ ap (λ (x : ℕ). 2 ^ lg2 x) (sym own.sized) in
      let slot =
        ap (λ (x : ℕ). x / s) t.address
        ∙ ap (λ (x : ℕ). splice_bits t.slot lower (lg2 n.pte_page_size) / x) size
        ∙ splice-page t.slot lower (lg2 n.pte_page_size)
        ∙ ap (λ (x : ℕ). t.slot / x) (sym size) in
      let by_slots = λ (x : ℕ). ap (λ (y : ℕ). x / y) slots ∙ sym (div-div-eq-div-mul x s q) in
      (slot, by_slots pa ∙ ap (λ (x : ℕ). x / q) slot ∙ sym (by_slots t.slot))

  module _ (cpu_num vaddr level pa fault : ℕ) {m' : VirtualMemory}
      (call : get_pte_pa k cpu_num vaddr level m ≡ some (pa, fault, m')) where
    walked : Walked k s q (pos k s q wide slots) wide slots cpu_num vaddr level pa m m'
    walked =
        get_pte_pa-Walked k s q (pos k s q wide slots) wide slots cpu_num vaddr level owned call

    walks_agree :
        (cpu_num' vaddr' level' pa' fault' : ℕ) {n n' : VirtualMemory}
        → Run k m' n
        → get_pte_pa k cpu_num' vaddr' level' n ≡ some (pa', fault', n')
        → (pa / s ≡ pa' / s)
          ↔ (pte_key k cpu_num vaddr level m ≡ pte_key k cpu_num' vaddr' level' n)
    walks_agree cpu_num' vaddr' level' pa' fault' {n} {n'} r call' =
        let (now, ext) = run-IsOwned k s q wide slots walked.owned r in
        let u =
          get_pte_pa-Walked k s q (pos k s q wide slots) wide slots cpu_num' vaddr' level' now
            call' in
        let a = u.owned.apart in
        let here = u.extends.tables _ _ (ext.tables _ _ walked.found) in
        let (slot, _) = Walked-slot cpu_num vaddr level pa owned walked in
        let (slot', _) = Walked-slot cpu_num' vaddr' level' pa' now u in
        (
          λ e.
              let same =
                page_eq s wide walked.slot u.slot (a.table_slot _ _ here) (a.table_slot _ _ u.found)
                  (sym slot ∙ e ∙ slot') in
              a.table_apart _ _ u.slot (here ∙ ap some same) u.found,
          λ e.
              slot
              ∙ ap (λ (d : ℕ). d / s)
                  (some_inj.0
                    (sym here ∙ ap (λ (key : PageTableKey). lookup key n'.page_table) e ∙ u.found))
              ∙ sym slot',
        )

    walk_apart :
        (cpu_num' vaddr' pa' fault' : ℕ) {n n' : VirtualMemory}
        → Run k m' n
        → va_to_pa k cpu_num' vaddr' n ≡ some (pa', fault', n')
        → pa' / page_size k ≢ pa / page_size k
    walk_apart cpu_num' vaddr' pa' fault' r call' e =
        let p = pos k s q wide slots in
        let (now, ext) = run-IsOwned k s q wide slots walked.owned r in
        let u = va_to_pa-Translated k s q p wide slots cpu_num' vaddr' now call' in
        let here = u.extends.tables _ _ (ext.tables _ _ walked.found) in
        let (_, page) = Walked-slot cpu_num vaddr level pa owned walked in
        let (page', _, _) = Translated-page k s q wide slots cpu_num' vaddr' pa' u in
        u.owned.apart.kinds_apart _ _ u.ppage walked.slot u.found here (sym page' ∙ e ∙ page)

    -- In every run of a virtual memory that the constructor made, of at most 2^64 bytes and with
    -- a whole number of table slots to a page: a later step of a walk is in the same slot as an
    -- earlier one exactly when their keys are the same, and no later translation is in the page
    -- of the slot.
    pub tables_agree :
        (cpu_num₁ vaddr₁ level₁ pa₁ fault₁ cpu_num₂ vaddr₂ pa₂ fault₂ : ℕ)
        {n n₁ o o₂ : VirtualMemory}
        → Run k m' n
        → get_pte_pa k cpu_num₁ vaddr₁ level₁ n ≡ some (pa₁, fault₁, n₁)
        → Run k m' o
        → va_to_pa k cpu_num₂ vaddr₂ o ≡ some (pa₂, fault₂, o₂)
        → ((pa / s ≡ pa₁ / s)
            ↔ (pte_key k cpu_num vaddr level m ≡ pte_key k cpu_num₁ vaddr₁ level₁ n))
          × (pa₂ / page_size k ≢ pa / page_size k)
    tables_agree cpu_num₁ vaddr₁ level₁ pa₁ fault₁ cpu_num₂ vaddr₂ pa₂ fault₂ r call₁ u call₂ = (
      walks_agree cpu_num₁ vaddr₁ level₁ pa₁ fault₁ r call₁,
      walk_apart cpu_num₂ vaddr₂ pa₂ fault₂ u call₂,
    )

module _ (k cpu_num vaddr : ℕ) (m : VirtualMemory) where
  front_none : available_ppages k m ≡ 0 → ppage_front k m ≡ none
  unfolding ppage_front
  front_none h = rw h refl

  front_some : ppage_front k m ≡ none → available_ppages k m ≡ 0
  unfolding ppage_front
  front_some e = ground arith

  -- A translation fails exactly when no physical page is left, whether its page is mapped or
  -- not.
  pub va_to_pa-none : (va_to_pa k cpu_num vaddr m ≡ none) ↔ (available_ppages k m ≡ 0)
  va_to_pa-none = (
    λ h. elim (Option-cases (ppage_front k m)) [
      | inl e ↦ front_some e
      | inr (f, e) ↦
          elim (Option-cases (lookup (virtual_page k cpu_num vaddr) m.vpage_to_ppage_map)) [
            | inl missing ↦ absurd (cc (sym h ∙ va_to_pa_new k cpu_num vaddr m e missing))
            | inr (d, old) ↦ absurd (cc (sym h ∙ va_to_pa_old k cpu_num vaddr m e old))
          ]
    ],
    λ h. va_to_pa_stuck k cpu_num vaddr m (front_none h),
  )
