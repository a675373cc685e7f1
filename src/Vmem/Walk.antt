-- ===== src/Vmem/Walk.antt =====
-- A step of the page-table walk keeps the ownership of pages.
use mathlib.Core.Option.{some_inj}
use proba_artifact.Prelude.{
  ℕ, ◌+◌, ◌-◌, ◌*◌, ◌/◌, ◌%◌, ◌^◌, ◌<◌, ◌≡◌, inl, inr, refl, sym, ◌∙◌, ap, subst, none, some, ◌∷◌,
  Option-cases,
}
use proba_artifact.Prelude.Keyed.{lookup, lookup-cons_old, lookup_self}
use proba_artifact.Msl.Bits.{splice_bits, lg2}
use proba_artifact.Vmem.{
  VirtualMemory, PageTableKey, virtual_page_key, page_table_key, page_size, open_pte_page,
  advance_pte_page, pte_key, get_offset, get_pte_pa, pte_bytes, shamt,
}
use proba_artifact.Vmem.Owned.{Apart, Open, take-Apart, take-Open, map_table-Apart, map_table-Open}
use proba_artifact.Vmem.Steps.{
  open_pte_page-cases, advance_pte_page-cases, pte_address, with_table, get_pte_pa_stuck,
  get_pte_pa_old, get_pte_pa_new,
}
use proba_artifact.Vmem.Ownership.{Extends, Extends-refl, IsOwned, room_left, taken-IsOwned}

module _ (k s q : ℕ) (pos : 0 < page_size k) (spos : 0 < s) (slots : page_size k ≡ s * q) where
  -- With a page for tables open.
  record Opened (m o : VirtualMemory) : Type 0 where
    owned : IsOwned k s q o
    extends : Extends m o
    slot : Open (page_size k) s o.vpage_to_ppage_map o.page_table o.next_pte_page o.next_ppage
    sized : o.pte_page_size ≡ m.pte_page_size

  open_pte_page-Opened :
      {m o : VirtualMemory} → IsOwned k s q m → open_pte_page k m ≡ some o → Opened m o
  open_pte_page-Opened {m} {o} own h = elim (open_pte_page-cases k m h) [
    | inl (apart, e) ↦
        subst (Opened m) (sym e)
          (record { owned = own; extends = Extends-refl m; slot = own.slot apart; sized = refl })
    | inr (e, left) ↦ subst (Opened m) (sym e) (record {
      owned = taken-IsOwned k s q pos spos slots own left;
      extends = record { pages = λ key d f. f; tables = λ key d f. f };
      slot =
          take-Open (page_size k) s q pos spos slots m.vpage_to_ppage_map m.page_table m.next_ppage
            own.apart;
      sized = refl;
    })
  ]

  -- The slot that a step of the walk used.
  pub record Walked (cpu_num vaddr level pa : ℕ) (m m' : VirtualMemory) : Type 0 where
    pub slot : ℕ
    pub found : lookup (pte_key k cpu_num vaddr level m) m'.page_table ≡ some slot
    pub address :
        pa ≡ splice_bits slot (get_offset k m vaddr level * pte_bytes) (lg2 m.pte_page_size)
    pub owned : IsOwned k s q m'
    pub extends : Extends m m'

  module _ (key : PageTableKey) {o : VirtualMemory} (own : IsOwned k s q o)
      (slot : Open
        (page_size k)
        s
        o.vpage_to_ppage_map
        o.page_table
        o.next_pte_page
        o.next_ppage) where
    abbrev bound : VirtualMemory
    bound = record o { page_table = (key, o.next_pte_page) ∷ o.page_table }

    bound-Apart : Apart (page_size k) s bound.vpage_to_ppage_map bound.page_table bound.next_ppage
    bound-Apart =
        map_table-Apart (page_size k) s q pos spos slots o.vpage_to_ppage_map o.page_table
          o.next_ppage own.apart key o.next_pte_page slot

    advance-IsOwned :
        {after : VirtualMemory} → advance_pte_page k bound ≡ some after → IsOwned k s q after
    advance-IsOwned h = elim (advance_pte_page-cases k bound h) [
      | inl (inside, e) ↦ subst (IsOwned k s q) (sym e) (record {
        apart = bound-Apart;
        slot = λ _.
            subst
              (λ n.
                Open (page_size k) s bound.vpage_to_ppage_map bound.page_table (o.next_pte_page + n)
                  o.next_ppage)
              (sym own.sized)
              (map_table-Open (page_size k) s q pos spos slots o.vpage_to_ppage_map o.page_table
                o.next_ppage own.apart key o.next_pte_page slot
                (λ z. inside (ap (λ (n : ℕ). (o.next_pte_page + n) % page_size k) own.sized ∙ z)));
        sized = own.sized;
        bounded = own.bounded;
        small = own.small;
      })
      | inr (e, left) ↦ subst (IsOwned k s q) (sym e) (record {
        apart =
            take-Apart (page_size k) s q pos spos slots bound.vpage_to_ppage_map bound.page_table
              bound.next_ppage bound-Apart;
        slot = λ _.
            take-Open (page_size k) s q pos spos slots bound.vpage_to_ppage_map bound.page_table
              bound.next_ppage bound-Apart;
        sized = own.sized;
        bounded = room_left k s q pos spos slots bound own.bounded own.small left;
        small = own.small;
      })
    ]

    advance-keeps :
        {after : VirtualMemory}
        → advance_pte_page k bound ≡ some after
        → (after.vpage_to_ppage_map ≡ o.vpage_to_ppage_map) × (after.page_table ≡ bound.page_table)
    advance-keeps h = elim (advance_pte_page-cases k bound h) [
      | inl (_, e) ↦ (
        ap (λ (m : VirtualMemory). m.vpage_to_ppage_map) e,
        ap (λ (m : VirtualMemory). m.page_table) e,
      )
      | inr (e, _) ↦ (
        ap (λ (m : VirtualMemory). m.vpage_to_ppage_map) e,
        ap (λ (m : VirtualMemory). m.page_table) e,
      )
    ]

  module _ (cpu_num vaddr level : ℕ) {m o : VirtualMemory} (own : IsOwned k s q m)
      (run : open_pte_page k m ≡ some o) where
    state : Opened m o
    state = open_pte_page-Opened own run

    same_key : pte_key k cpu_num vaddr level o ≡ pte_key k cpu_num vaddr level m
    unfolding pte_key shamt
    same_key =
        ap
          (λ (n : ℕ). record {
            cpu_num = cpu_num;
            prefix = vaddr / 2 ^ (k + lg2 (n / pte_bytes) * (level - 1));
            level = level % 2 ^ 32;
          })
          state.sized

    same_address :
        (e : ℕ)
        → pte_address k cpu_num vaddr level m run e
          ≡ splice_bits e (get_offset k m vaddr level * pte_bytes) (lg2 m.pte_page_size)
    unfolding get_offset shamt
    same_address e =
        ap
          (λ (n : ℕ).
            splice_bits e
              (vaddr
                / 2 ^ (k + lg2 (n / pte_bytes) * (level - 1))
                % 2 ^ lg2 (n / pte_bytes)
                * pte_bytes)
              (lg2 m.pte_page_size))
          state.sized

    old-Walked :
        {e : ℕ}
        → lookup (pte_key k cpu_num vaddr level o) o.page_table ≡ some e
        → Walked cpu_num vaddr level (pte_address k cpu_num vaddr level m run e) m o
    old-Walked {e} found = record {
      slot = e;
      found = ap (λ (key : PageTableKey). lookup key o.page_table) (sym same_key) ∙ found;
      address = same_address e;
      owned = state.owned;
      extends = state.extends;
    }

    new-Walked :
        {after : VirtualMemory}
        → lookup (pte_key k cpu_num vaddr level o) o.page_table ≡ none
        → advance_pte_page k (with_table k cpu_num vaddr level m run) ≡ some after
        → Walked cpu_num vaddr level
            (pte_address k cpu_num vaddr level m run o.next_pte_page)
            m
            after
    new-Walked {after} missing advances =
        let key = pte_key k cpu_num vaddr level o in
        let (pages, tables) = advance-keeps key state.owned state.slot advances in
        record {
          slot = o.next_pte_page;
          found =
              ap (λ (key' : PageTableKey). lookup key' after.page_table) (sym same_key)
              ∙ ap (lookup key) tables
              ∙ lookup_self key o.next_pte_page o.page_table;
          address = same_address o.next_pte_page;
          owned = advance-IsOwned key state.owned state.slot advances;
          extends = record {
            pages = λ other d h. ap (lookup other) pages ∙ state.extends.pages other d h;
            tables = λ other e h.
                ap (lookup other) tables
                ∙ lookup-cons_old key other o.next_pte_page e o.page_table missing
                    (state.extends.tables other e h);
          };
        }

  pub get_pte_pa-Walked :
      (cpu_num vaddr level : ℕ) {m m' : VirtualMemory} {pa penalty : ℕ}
      → IsOwned k s q m
      → get_pte_pa k cpu_num vaddr level m ≡ some (pa, penalty, m')
      → Walked cpu_num vaddr level pa m m'
  get_pte_pa-Walked cpu_num vaddr level {m} {m'} {pa} {penalty} own run =
      elim (Option-cases (open_pte_page k m)) [
        | inl e ↦ absurd (cc (sym run ∙ get_pte_pa_stuck k cpu_num vaddr level m e))
        | inr (o, e) ↦ elim (Option-cases (lookup (pte_key k cpu_num vaddr level o) o.page_table)) [
          | inr (slot, old) ↦
              let same = some_inj.0 (sym (get_pte_pa_old k cpu_num vaddr level m e old) ∙ run) in
              subst (λ r. Walked cpu_num vaddr level r.0 m r.2) same
                (old-Walked cpu_num vaddr level own e old)
          | inl missing ↦
              elim (Option-cases (advance_pte_page k (with_table k cpu_num vaddr level m e))) [
                | inl stuck ↦ absurd (
                    cc (sym run ∙ (rw stuck at (get_pte_pa_new k cpu_num vaddr level m e missing))))
                | inr (after, advances) ↦
                    let same = some_inj.0 (
                      sym (rw advances at (get_pte_pa_new k cpu_num vaddr level m e missing))
                      ∙ run) in
                    subst (λ r. Walked cpu_num vaddr level r.0 m r.2) same
                      (new-Walked cpu_num vaddr level own e missing advances)
              ]
        ]
      ]
