-- ===== src/Vmem.antt =====
-- src/vmem.cc, inc/vmem.h: the class VirtualMemory. The page size, which the build generates, is the
-- parameter 2 ^ log2_page_size.
mod Pages
mod Owned
mod Steps
mod Ownership
mod Walk
mod Start
pub mod Run
pub mod Distinct
use proba_artifact.Prelude.{
  ℕ, ◌+◌, ◌-◌, ◌*◌, ◌/◌, ◌%◌, ◌^◌, max, Bool, true, ◌&&◌, Option, some, List, [], ◌==◌,
  if◌then◌else◌, ltb, assert, ◌>>=◌, ◌>>◌, ◌≡◌, ◌↔◌, arith,
}
use proba_artifact.Prelude.Keyed.{Key, insert}
use proba_artifact.Msl.Bits.{lg2, splice_bits}

-- A virtual page, and what a page-table entry translates at its level.
pub record VirtualPage : Type 0 where
  pub cpu_num : ℕ
  pub vpage : ℕ

pub record PageTableKey : Type 0 where
  pub cpu_num : ℕ
  pub prefix : ℕ
  pub level : ℕ

abbrev pub same_page : VirtualPage → VirtualPage → Bool
same_page a b = a.cpu_num == b.cpu_num && a.vpage == b.vpage

pub same_page_iff : (a b : VirtualPage) → (same_page a b ≡ true) ↔ (a ≡ b)
same_page_iff a b = (λ h. ground arith, λ h. ground arith)

abbrev pub same_entry : PageTableKey → PageTableKey → Bool
same_entry a b = a.cpu_num == b.cpu_num && a.prefix == b.prefix && a.level == b.level

pub same_entry_iff : (a b : PageTableKey) → (same_entry a b ≡ true) ↔ (a ≡ b)
same_entry_iff a b = (λ h. ground arith, λ h. ground arith)

instance abbrev pub virtual_page_key : Key VirtualPage
virtual_page_key = record { same = same_page; same_iff = same_page_iff }

instance abbrev pub page_table_key : Key PageTableKey
page_table_key = record { same = same_entry; same_iff = same_entry_iff }

abbrev pub pte_bytes : ℕ
pte_bytes = 8

pub record VirtualMemory : Type 0 where
  pub vpage_to_ppage_map : List (VirtualPage × ℕ)
  pub page_table : List (PageTableKey × ℕ)
  pub next_pte_page : ℕ
  pub next_ppage : ℕ
  pub last_ppage : ℕ
  pub minor_fault_penalty : ℕ
  pub pt_levels : ℕ
  pub pte_page_size : ℕ

module _ (log2_page_size : ℕ) where
  abbrev pub page_size : ℕ
  page_size = 2 ^ log2_page_size

  abbrev pub vmem_reserve_capacity : ℕ
  vmem_reserve_capacity = max page_size (2 ^ 20)

  -- The constructor, with its three assertions.
  unfoldable pub new :
      (page_table_page_size page_table_levels minor_penalty : ℕ) → Option VirtualMemory
  new page_table_page_size page_table_levels minor_penalty =
      let last =
        2 ^ (log2_page_size + lg2 (page_table_page_size / pte_bytes) * page_table_levels) in
      do
        assert (ltb 1024 page_table_page_size)
        assert (page_table_page_size == 2 ^ lg2 page_table_page_size)
        assert (ltb vmem_reserve_capacity last)
        some (record {
          vpage_to_ppage_map = [];
          page_table = [];
          next_pte_page = 0;
          next_ppage = vmem_reserve_capacity;
          last_ppage = last;
          minor_fault_penalty = minor_penalty;
          pt_levels = page_table_levels;
          pte_page_size = page_table_page_size;
        })

  -- Levels are counted from 1.
  unfoldable pub shamt : VirtualMemory → ℕ → ℕ
  shamt m level = log2_page_size + lg2 (m.pte_page_size / pte_bytes) * (level - 1)

  unfoldable pub get_offset : VirtualMemory → ℕ → ℕ → ℕ
  unfolding shamt
  get_offset m vaddr level = vaddr / 2 ^ shamt m level % 2 ^ lg2 (m.pte_page_size / pte_bytes)

  unfoldable pub available_ppages : VirtualMemory → ℕ
  available_ppages m = (m.last_ppage + 2 ^ 64 - m.next_ppage) % 2 ^ 64 / page_size

  unfoldable pub ppage_front : VirtualMemory → Option ℕ
  unfolding available_ppages
  ppage_front m = do assert (ltb 0 (available_ppages m)); some m.next_ppage

  unfoldable pub ppage_pop : VirtualMemory → VirtualMemory
  ppage_pop m = record m { next_ppage = m.next_ppage + page_size }

  unfoldable pub virtual_page : ℕ → ℕ → VirtualPage
  virtual_page cpu_num vaddr = record { cpu_num = cpu_num; vpage = vaddr / page_size }

  -- The physical address, the penalty and the memory afterwards. The front is asked for first, also
  -- where the page has a mapping.
  unfoldable pub va_to_pa : ℕ → ℕ → VirtualMemory → Option (ℕ × ℕ × VirtualMemory)
  unfolding ppage_pop virtual_page
  va_to_pa cpu_num vaddr m = do
    front ← ppage_front m
    let (ppage, fault, mapped) = insert (virtual_page cpu_num vaddr) front m.vpage_to_ppage_map
    let inserted = record m { vpage_to_ppage_map = mapped }
    some (
      splice_bits ppage vaddr log2_page_size,
      if fault then m.minor_fault_penalty else 0,
      if fault then ppage_pop inserted else inserted,
    )

  -- A physical page for page tables is taken.
  unfoldable pub take_pte_page : VirtualMemory → Option VirtualMemory
  unfolding ppage_pop
  take_pte_page m = do front ← ppage_front m; some (ppage_pop (record m { next_pte_page = front }))

  unfoldable pub open_pte_page : VirtualMemory → Option VirtualMemory
  unfolding take_pte_page
  open_pte_page m = if m.next_pte_page == 0 then take_pte_page m else some m

  unfoldable pub advance_pte_page : VirtualMemory → Option VirtualMemory
  unfolding take_pte_page
  advance_pte_page m =
      let advanced = record m { next_pte_page = m.next_pte_page + m.pte_page_size } in
      if advanced.next_pte_page % page_size == 0 then take_pte_page advanced else some advanced

  unfoldable pub pte_key : ℕ → ℕ → ℕ → VirtualMemory → PageTableKey
  unfolding shamt
  pte_key cpu_num vaddr level m = record {
    cpu_num = cpu_num;
    prefix = vaddr / 2 ^ shamt m level;
    level = level % 2 ^ 32;
  }

  unfoldable pub get_pte_pa : ℕ → ℕ → ℕ → VirtualMemory → Option (ℕ × ℕ × VirtualMemory)
  unfolding open_pte_page advance_pte_page pte_key get_offset
  get_pte_pa cpu_num vaddr level m = do
    opened ← open_pte_page m
    let (ppage, fault, table) =
        insert (pte_key cpu_num vaddr level opened) opened.next_pte_page opened.page_table
    let inserted = record opened { page_table = table }
    after ← if fault then advance_pte_page inserted else some inserted
    some (
      splice_bits ppage (get_offset opened vaddr level * pte_bytes) (lg2 m.pte_page_size),
      if fault then m.minor_fault_penalty else 0,
      after,
    )
