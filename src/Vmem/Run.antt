-- ===== src/Vmem/Run.antt =====
-- Runs of the virtual memory: any calls of `va_to_pa` and `get_pte_pa`, in any order.
use native.Mathlib.Nat.{
  one-le-pow, mul-add-div_right, div-eq_of_lt, mod-lt, mul-add-mod_self_right, mod-eq_of_lt,
}
use proba_artifact.Prelude.{ℕ, ◌+◌, ◌*◌, ◌/◌, ◌%◌, ◌^◌, ◌<◌, ◌≡◌, ◌↔◌, sym, ◌∙◌, ap, some, arith}
use mathlib.Core.Option.{some_inj}
use proba_artifact.Prelude.Keyed.{lookup}
use proba_artifact.Msl.Bits.{splice_bits}
use proba_artifact.Vmem.{
  VirtualMemory, VirtualPage, virtual_page_key, page_table_key, page_size, va_to_pa, virtual_page,
  get_pte_pa,
}
use proba_artifact.Vmem.Pages.{page_below, page_above, page_eq}
use proba_artifact.Vmem.Ownership.{
  Extends, Extends-refl, Extends-trans, IsOwned, Translated, va_to_pa-Translated,
}
use proba_artifact.Vmem.Walk.{get_pte_pa-Walked}

module _ (k : ℕ) where
  pub data Run (m : VirtualMemory) : VirtualMemory → Type 0 where
    start : Run m m
    translation :
        {n n' : VirtualMemory}
        → Run m n
        → (cpu_num vaddr pa penalty : ℕ) → va_to_pa k cpu_num vaddr n ≡ some (pa, penalty, n')
        → Run m n'
    walk :
        {n n' : VirtualMemory}
        → Run m n
        → (cpu_num vaddr level pa penalty : ℕ)
        → get_pte_pa k cpu_num vaddr level n ≡ some (pa, penalty, n')
        → Run m n'

-- The page of a spliced address is that of its upper part.
pub splice-page :
    (upper lower bits : ℕ) → splice_bits upper lower bits / 2 ^ bits ≡ upper / 2 ^ bits
unfolding splice_bits
splice-page upper lower bits =
    let pos = one-le-pow bits 2 (omega arith) in
    mul-add-div_right pos (upper / 2 ^ bits) (lower % 2 ^ bits)
    ∙ ap (λ (t : ℕ). upper / 2 ^ bits + t) (div-eq_of_lt (mod-lt lower pos))
    ∙ omega arith

splice-offset : (upper lower bits : ℕ) → splice_bits upper lower bits % 2 ^ bits ≡ lower % 2 ^ bits
unfolding splice_bits
splice-offset upper lower bits =
    mul-add-mod_self_right (upper / 2 ^ bits) (2 ^ bits) (lower % 2 ^ bits)
    ∙ mod-eq_of_lt (mod-lt lower (one-le-pow bits 2 (omega arith)))

module _ (k s q : ℕ) (spos : 0 < s) (slots : page_size k ≡ s * q) where
  pub pos : 0 < page_size k
  pos = one-le-pow k 2 (omega arith)

  pub run-IsOwned :
      {m n : VirtualMemory} → IsOwned k s q m → Run k m n → IsOwned k s q n × Extends m n
  run-IsOwned {m} own start = (own, Extends-refl m)
  run-IsOwned own (translation r cpu_num vaddr pa penalty call) =
      let (before, ext) = run-IsOwned own r in
      let t = va_to_pa-Translated k s q pos spos slots cpu_num vaddr before call in
      (t.owned, Extends-trans ext t.extends)
  run-IsOwned own (walk r cpu_num vaddr level pa penalty call) =
      let (before, ext) = run-IsOwned own r in
      let t = get_pte_pa-Walked k s q pos spos slots cpu_num vaddr level before call in
      (t.owned, Extends-trans ext t.extends)

  -- A translation's page is mapped in every later state.
  module _ {m m' n : VirtualMemory} (cpu_num vaddr pa : ℕ)
      (t : Translated k s q pos spos slots cpu_num vaddr pa m m') (r : Run k m' n) where
    pub later_page : lookup (virtual_page k cpu_num vaddr) n.vpage_to_ppage_map ≡ some t.ppage
    later_page = (run-IsOwned t.owned r).1.pages _ _ t.found

  pub Translated-page :
      {m m' : VirtualMemory} (cpu_num vaddr pa : ℕ)
      (t : Translated k s q pos spos slots cpu_num vaddr pa m m')
      → (pa / page_size k ≡ t.ppage / page_size k)
        × (pa % page_size k ≡ vaddr % page_size k)
        × (pa < m'.last_ppage)
  Translated-page {m' = m'} cpu_num vaddr pa t =
      let a = t.owned.apart in
      let page = ap (λ (x : ℕ). x / page_size k) t.address ∙ splice-page t.ppage vaddr k in
      let below =
        page_below (page_size k) pos t.ppage m'.next_ppage (a.page_below_next _ _ t.found)
          a.aligned in
      (
        page,
        ap (λ (x : ℕ). x % page_size k) t.address ∙ splice-offset t.ppage vaddr k,
        omega (
          arith,
          page_above (page_size k) pos pa m'.next_ppage (omega (arith, page, below)) a.aligned,
          t.owned.bounded,
        ),
      )

  pub same_pages :
      {m m' n n' : VirtualMemory} (cpu_num vaddr pa cpu_num' vaddr' pa' : ℕ)
      → Translated k s q pos spos slots cpu_num vaddr pa m m'
      → Run k m' n
      → Translated k s q pos spos slots cpu_num' vaddr' pa' n n'
      → (pa / page_size k ≡ pa' / page_size k)
        ↔ (virtual_page k cpu_num vaddr ≡ virtual_page k cpu_num' vaddr')
  same_pages {n' = n'} cpu_num vaddr pa cpu_num' vaddr' pa' t r u =
      let a = u.owned.apart in
      let here = u.extends.pages _ _ (later_page cpu_num vaddr pa t r) in
      let (page, _, _) = Translated-page cpu_num vaddr pa t in
      let (page', _, _) = Translated-page cpu_num' vaddr' pa' u in
      (
        λ e.
            let same =
              page_eq (page_size k) pos t.ppage u.ppage (a.page_whole _ _ here)
                (a.page_whole _ _ u.found) (sym page ∙ e ∙ page') in
            a.page_apart _ _ u.ppage (here ∙ ap some same) u.found,
        λ e.
            page
            ∙ ap (λ (d : ℕ). d / page_size k)
                (some_inj.0 (
                  sym here
                  ∙ ap (λ (key : VirtualPage). lookup key n'.vpage_to_ppage_map) e
                  ∙ u.found))
            ∙ sym page',
      )
