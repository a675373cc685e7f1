-- ===== src/Vmem/Ownership.antt =====
-- Every state of the virtual memory owns its pages once; steps keep that, and what is mapped.
use native.Mathlib.Nat.{div-add-mod}
use mathlib.Core.Option.{some_inj}
use proba_artifact.Prelude.{
  ℕ, ◌+◌, ◌-◌, ◌*◌, ◌%◌, ◌^◌, ◌≤◌, ◌<◌, ◌≡◌, ◌≢◌, inl, inr, refl, sym, ◌∙◌, ap, subst, none, some,
  ◌∷◌, Option-cases, arith,
}
use proba_artifact.Prelude.Keyed.{lookup, lookup-cons_old, lookup_self}
use proba_artifact.Msl.Bits.{splice_bits}
use proba_artifact.Vmem.{
  VirtualMemory, VirtualPage, PageTableKey, virtual_page_key, page_table_key, page_size,
  ppage_front, available_ppages, va_to_pa, virtual_page,
}
use proba_artifact.Vmem.Owned.{Apart, Open, map_page-Apart, map_page-Open, take-Apart, take-Open}
use proba_artifact.Vmem.Steps.{ppage_front-eq, va_to_pa_stuck, va_to_pa_old, va_to_pa_new, taken}

-- What is mapped in `m` is mapped alike in `m'`.
pub record Extends (m m' : VirtualMemory) : Type 0 where
  pub pages :
      (key : VirtualPage) (d : ℕ)
      → lookup key m.vpage_to_ppage_map ≡ some d
      → lookup key m'.vpage_to_ppage_map ≡ some d
  pub tables :
      (key : PageTableKey) (e : ℕ)
      → lookup key m.page_table ≡ some e
      → lookup key m'.page_table ≡ some e

pub Extends-refl : (m : VirtualMemory) → Extends m m
Extends-refl m = record { pages = λ key d h. h; tables = λ key e h. h }

pub Extends-trans : {a b c : VirtualMemory} → Extends a b → Extends b c → Extends a c
Extends-trans f g = record {
  pages = λ key d h. g.pages key d (f.pages key d h);
  tables = λ key e h. g.tables key e (f.tables key e h);
}

module _ (k s q : ℕ) where
  pub record IsOwned (m : VirtualMemory) : Type 0 where
    pub apart : Apart (page_size k) s m.vpage_to_ppage_map m.page_table m.next_ppage
    pub slot :
        m.next_pte_page ≢ 0
        → Open (page_size k) s m.vpage_to_ppage_map m.page_table m.next_pte_page m.next_ppage
    pub sized : m.pte_page_size ≡ s
    pub bounded : m.next_ppage ≤ m.last_ppage
    pub small : m.last_ppage < 2 ^ 64

module _ (k s q : ℕ) (pos : 0 < page_size k) (spos : 0 < s) (slots : page_size k ≡ s * q) where
  pub room_left :
      (m : VirtualMemory)
      → m.next_ppage ≤ m.last_ppage
      → m.last_ppage < 2 ^ 64
      → 0 < available_ppages k m
      → m.next_ppage + page_size k ≤ m.last_ppage
  unfolding available_ppages
  room_left m bounded small left =
      let gap = (m.last_ppage + 2 ^ 64 - m.next_ppage) % 2 ^ 64 in
      grind (arith, div-add-mod gap (page_size k))

  pub taken-IsOwned :
      {m : VirtualMemory} → IsOwned k s q m → 0 < available_ppages k m → IsOwned k s q (taken k m)
  taken-IsOwned {m} o left =
      let a = o.apart in
      record {
        apart =
            take-Apart (page_size k) s q pos spos slots m.vpage_to_ppage_map m.page_table
              m.next_ppage a;
        slot = λ _.
            take-Open (page_size k) s q pos spos slots m.vpage_to_ppage_map m.page_table
              m.next_ppage a;
        sized = o.sized;
        bounded = room_left m o.bounded o.small left;
        small = o.small;
      }

  -- The physical page that a translation used.
  pub record Translated (cpu_num vaddr pa : ℕ) (m m' : VirtualMemory) : Type 0 where
    pub ppage : ℕ
    pub found : lookup (virtual_page k cpu_num vaddr) m'.vpage_to_ppage_map ≡ some ppage
    pub address : pa ≡ splice_bits ppage vaddr k
    pub owned : IsOwned k s q m'
    pub extends : Extends m m'

  module _ (cpu_num vaddr : ℕ) {m : VirtualMemory} (o : IsOwned k s q m) where
    new_page-Translated :
        lookup (virtual_page k cpu_num vaddr) m.vpage_to_ppage_map ≡ none
        → 0 < available_ppages k m
        → Translated cpu_num vaddr (splice_bits m.next_ppage vaddr k) m (record m {
          vpage_to_ppage_map = (virtual_page k cpu_num vaddr, m.next_ppage) ∷ m.vpage_to_ppage_map;
          next_ppage = m.next_ppage + page_size k;
        })
    new_page-Translated missing left =
        let key = virtual_page k cpu_num vaddr in
        record {
          ppage = m.next_ppage;
          found = lookup_self key m.next_ppage m.vpage_to_ppage_map;
          address = refl;
          owned = record {
            apart =
                map_page-Apart (page_size k) s q pos spos slots key m.vpage_to_ppage_map
                  m.page_table m.next_ppage o.apart missing;
            slot = λ n.
                map_page-Open (page_size k) s q pos spos slots key m.vpage_to_ppage_map m.page_table
                  m.next_ppage o.apart m.next_pte_page (o.slot n);
            sized = o.sized;
            bounded = room_left m o.bounded o.small left;
            small = o.small;
          };
          extends = record {
            pages = λ other d h.
                lookup-cons_old key other m.next_ppage d m.vpage_to_ppage_map missing h;
            tables = λ other e h. h;
          };
        }

    pub va_to_pa-Translated :
        {pa penalty : ℕ} {m' : VirtualMemory}
        → va_to_pa k cpu_num vaddr m ≡ some (pa, penalty, m')
        → Translated cpu_num vaddr pa m m'
    va_to_pa-Translated {pa} {penalty} {m'} run = elim (Option-cases (ppage_front k m)) [
      | inl e ↦ absurd (cc (sym run ∙ va_to_pa_stuck k cpu_num vaddr m e))
      | inr (f, e) ↦
          let (eq, left) = ppage_front-eq k m e in
          let front = e ∙ ap some eq in
          elim (Option-cases (lookup (virtual_page k cpu_num vaddr) m.vpage_to_ppage_map)) [
            | inl missing ↦
                let same = some_inj.0 (sym (va_to_pa_new k cpu_num vaddr m front missing) ∙ run) in
                subst (λ r. Translated cpu_num vaddr r.0 m r.2) same
                  (new_page-Translated missing left)
            | inr (d, old) ↦
                let same = some_inj.0 (sym (va_to_pa_old k cpu_num vaddr m front old) ∙ run) in
                subst (λ r. Translated cpu_num vaddr r.0 m r.2) same
                  (record {
                    ppage = d;
                    found = old;
                    address = refl;
                    owned = o;
                    extends = Extends-refl m;
                  })
          ]
    ]
