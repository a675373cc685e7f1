-- ===== src/Tests/Memory.antt =====
-- The virtual memory at pages of 4096 bytes.
use proba_artifact.Prelude.{◌/◌, ◌%◌, ◌^◌, ◌<◌, ◌≡◌, ◌≢◌, ◌↔◌, refl, none, some, [], ◌∷◌, arith}
use proba_artifact.Prelude.Keyed.{insert}
use proba_artifact.Msl.Bits.{lg2, splice_bits}
use proba_artifact.Vmem.{
  VirtualMemory, new, va_to_pa, virtual_page, pte_key, get_pte_pa, ppage_front, available_ppages,
  page_size,
}
use proba_artifact.Vmem.Run.{Run}
use proba_artifact.Vmem.Distinct.{translations_agree, tables_agree, va_to_pa-none}

-- Three levels of tables, with 512 entries to a page.
abbrev blank : VirtualMemory
blank = record {
  vpage_to_ppage_map = [];
  page_table = [];
  next_pte_page = 0;
  next_ppage = 0x10_0000;
  last_ppage = 2 ^ 39;
  minor_fault_penalty = 200;
  pt_levels = 3;
  pte_page_size = 4096;
}

made : new 12 4096 3 200 ≡ some blank
unfolding new lg2
made = refl

-- The first page of the program, then its second.
abbrev one_page : VirtualMemory
one_page = record blank {
  vpage_to_ppage_map = (record { cpu_num = 0; vpage = 0x400 }, 0x10_0000) ∷ [];
  next_ppage = 0x10_1000;
}

first_call : va_to_pa 12 0 0x40_0123 blank ≡ some (0x10_0123, 200, one_page)
unfolding va_to_pa ppage_front insert splice_bits
first_call = refl

abbrev two_pages : VirtualMemory
two_pages = record one_page {
  vpage_to_ppage_map =
      (record { cpu_num = 0; vpage = 0x401 }, 0x10_1000) ∷ one_page.vpage_to_ppage_map;
  next_ppage = 0x10_2000;
}

second_call : va_to_pa 12 0 0x40_1040 one_page ≡ some (0x10_1040, 200, two_pages)
unfolding va_to_pa ppage_front insert splice_bits
second_call = refl

translations_agree_example :
    ((0x10_0123 / page_size 12 ≡ 0x10_1040 / page_size 12)
      ↔ (virtual_page 12 0 0x40_0123 ≡ virtual_page 12 0 0x40_1040))
    × (0x10_0123 % page_size 12 ≡ 0x40_0123 % page_size 12)
    × (0x10_0123 < one_page.last_ppage)
translations_agree_example =
    translations_agree 12 4096 1 3 200 made (omega arith) refl Run.start 0 0x40_0123 0x10_0123 200 0
      0x40_1040 0x10_1040 200 first_call Run.start second_call

-- A walk takes a page for tables; the next entry of another level takes the next one.
abbrev one_table : VirtualMemory
one_table = record blank {
  page_table = (record { cpu_num = 0; prefix = 0x400; level = 1 }, 0x10_0000) ∷ [];
  next_pte_page = 0x10_1000;
  next_ppage = 0x10_2000;
}

first_walk : get_pte_pa 12 0 0x40_0123 1 blank ≡ some (0x10_0000, 200, one_table)
unfolding get_pte_pa ppage_front insert splice_bits lg2
first_walk = refl

after_page : VirtualMemory
after_page = record one_table {
  vpage_to_ppage_map = (record { cpu_num = 0; vpage = 0x400 }, 0x10_2000) ∷ [];
  next_ppage = 0x10_3000;
}

page_call : va_to_pa 12 0 0x40_0123 one_table ≡ some (0x10_2123, 200, after_page)
unfolding va_to_pa ppage_front insert splice_bits after_page
page_call = refl

same_walk : get_pte_pa 12 0 0x40_0fff 1 one_table ≡ some (0x10_0000, 0, one_table)
unfolding get_pte_pa ppage_front insert splice_bits lg2
same_walk = refl

tables_agree_example :
    ((0x10_0000 / 4096 ≡ 0x10_0000 / 4096)
      ↔ (pte_key 12 0 0x40_0123 1 blank ≡ pte_key 12 0 0x40_0fff 1 one_table))
    × (0x10_2123 / page_size 12 ≢ 0x10_0000 / page_size 12)
tables_agree_example =
    tables_agree 12 4096 1 3 200 made (omega arith) refl Run.start 0 0x40_0123 1 0x10_0000 200
      first_walk 0 0x40_0fff 1 0x10_0000 0 0 0x40_0123 0x10_2123 200 Run.start same_walk Run.start
      page_call

-- No page is left, and the page that is mapped is not translated.
abbrev full : VirtualMemory
full = record one_page { last_ppage = 0x10_1000 }

va_to_pa-none_example : (va_to_pa 12 0 0x40_0123 full ≡ none) ↔ (available_ppages 12 full ≡ 0)
va_to_pa-none_example = va_to_pa-none 12 0 0x40_0123 full
