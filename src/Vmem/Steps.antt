-- ===== src/Vmem/Steps.antt =====
-- What one translation and one page-table step return and leave.
use proba_artifact.Prelude.{
  ℕ, ◌+◌, ◌*◌, ◌%◌, ◌<◌, ◌≡◌, ◌≢◌, ◌⊎◌, inl, inr, refl, sym, none, some, ◌∷◌, Option-cases,
  Bool-cases, ==-false→ne, ◌==◌, arith, ◌>>=◌,
}
use mathlib.Core.Option.{some_inj}
use proba_artifact.Prelude.Keyed.{lookup, insert_old, insert_new}
use proba_artifact.Msl.Bits.{splice_bits, lg2}
use proba_artifact.Vmem.{
  VirtualMemory, virtual_page_key, page_table_key, page_size, ppage_front, available_ppages,
  ppage_pop, va_to_pa, virtual_page, take_pte_page, open_pte_page, advance_pte_page, pte_key,
  get_offset, get_pte_pa, pte_bytes,
}

module _ (k : ℕ) where
  pub ppage_front-eq :
      (m : VirtualMemory) {f : ℕ}
      → ppage_front k m ≡ some f
      → (f ≡ m.next_ppage) × (0 < available_ppages k m)
  unfolding ppage_front
  ppage_front-eq m h = ground arith

  module _ (cpu_num vaddr : ℕ) (m : VirtualMemory) where
    pub va_to_pa_stuck : ppage_front k m ≡ none → va_to_pa k cpu_num vaddr m ≡ none
    unfolding va_to_pa
    va_to_pa_stuck h = rw h refl

    pub va_to_pa_old :
        {f d : ℕ}
        → ppage_front k m ≡ some f
        → lookup (virtual_page k cpu_num vaddr) m.vpage_to_ppage_map ≡ some d
        → va_to_pa k cpu_num vaddr m ≡ some (splice_bits d vaddr k, 0, m)
    unfolding va_to_pa
    va_to_pa_old {f} {d} h old = rw (h, insert_old _ f d _ old) refl

    pub va_to_pa_new :
        {f : ℕ}
        → ppage_front k m ≡ some f
        → lookup (virtual_page k cpu_num vaddr) m.vpage_to_ppage_map ≡ none
        → va_to_pa k cpu_num vaddr m
          ≡ some (
            splice_bits f vaddr k,
            m.minor_fault_penalty,
            record m {
              vpage_to_ppage_map = (virtual_page k cpu_num vaddr, f) ∷ m.vpage_to_ppage_map;
              next_ppage = m.next_ppage + page_size k;
            },
          )
    unfolding va_to_pa ppage_pop
    va_to_pa_new {f} h missing = rw (h, insert_new _ f _ missing) refl

  -- A page for tables is the next physical page.
  abbrev pub taken : VirtualMemory → VirtualMemory
  taken m = record m { next_pte_page = m.next_ppage; next_ppage = m.next_ppage + page_size k }

  pub take_pte_page-eq :
      (m : VirtualMemory) {m' : VirtualMemory}
      → take_pte_page k m ≡ some m'
      → (m' ≡ taken m) × (0 < available_ppages k m)
  unfolding take_pte_page ppage_pop
  take_pte_page-eq m {m'} h = elim (Option-cases (ppage_front k m)) [
    | inl e ↦ absurd (cc (rw e at h))
    | inr (f, e) ↦ let (eq, left) = ppage_front-eq m e in (sym (some_inj.0 (rw (e, eq) at h)), left)
  ]

  pub open_pte_page-cases :
      (m : VirtualMemory) {m' : VirtualMemory}
      → open_pte_page k m ≡ some m'
      → ((m.next_pte_page ≢ 0) × (m' ≡ m)) ⊎ ((m' ≡ taken m) × (0 < available_ppages k m))
  unfolding open_pte_page
  open_pte_page-cases m h = elim (Bool-cases (m.next_pte_page == 0)) [
    | inl e ↦ inr (take_pte_page-eq m (rw e at h))
    | inr e ↦ inl (==-false→ne _ _ e, sym (some_inj.0 (rw e at h)))
  ]

  abbrev pub advanced : VirtualMemory → VirtualMemory
  advanced m = record m { next_pte_page = m.next_pte_page + m.pte_page_size }

  pub advance_pte_page-cases :
      (m : VirtualMemory) {m' : VirtualMemory}
      → advance_pte_page k m ≡ some m'
      → (((m.next_pte_page + m.pte_page_size) % page_size k ≢ 0) × (m' ≡ advanced m))
        ⊎ ((m' ≡ taken m) × (0 < available_ppages k m))
  unfolding advance_pte_page available_ppages
  advance_pte_page-cases m h =
      elim (Bool-cases ((m.next_pte_page + m.pte_page_size) % page_size k == 0)) [
        | inl e ↦ inr (take_pte_page-eq (advanced m) (rw e at h))
        | inr e ↦ inl (==-false→ne _ _ e, sym (some_inj.0 (rw e at h)))
      ]

  pub get_pte_pa_stuck :
      (cpu_num vaddr level : ℕ) (m : VirtualMemory)
      → open_pte_page k m ≡ none
      → get_pte_pa k cpu_num vaddr level m ≡ none
  unfolding get_pte_pa
  get_pte_pa_stuck cpu_num vaddr level m h = rw h refl

  module _ (cpu_num vaddr level : ℕ) (m : VirtualMemory) {opened : VirtualMemory}
      (o : open_pte_page k m ≡ some opened) where
    abbrev pub pte_address : ℕ → ℕ
    pte_address ppage =
        splice_bits ppage (get_offset k opened vaddr level * pte_bytes) (lg2 m.pte_page_size)

    pub get_pte_pa_old :
        {e : ℕ}
        → lookup (pte_key k cpu_num vaddr level opened) opened.page_table ≡ some e
        → get_pte_pa k cpu_num vaddr level m ≡ some (pte_address e, 0, opened)
    unfolding get_pte_pa
    get_pte_pa_old {e} old = rw (o, insert_old _ opened.next_pte_page e _ old) refl

    abbrev pub with_table : VirtualMemory
    with_table = record opened {
      page_table = (pte_key k cpu_num vaddr level opened, opened.next_pte_page) ∷ opened.page_table;
    }

    pub get_pte_pa_new :
        lookup (pte_key k cpu_num vaddr level opened) opened.page_table ≡ none
        → get_pte_pa k cpu_num vaddr level m ≡ (
            advance_pte_page k with_table >>= λ after.
            some (pte_address opened.next_pte_page, m.minor_fault_penalty, after))
    unfolding get_pte_pa
    get_pte_pa_new missing = rw (o, insert_new _ opened.next_pte_page _ missing) refl
