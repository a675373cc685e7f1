-- ===== src/Proba/Jail.antt =====
-- `JailTable` of prefetcher/proba/proba.h: two bit tables, each under a hash of the region.
pub mod Laws
use proba_artifact.Prelude.{
  ℕ, ◌+◌, ◌-◌, ◌*◌, ◌/◌, ◌%◌, ◌^◌, bit_and, bit_xor, Bool, true, false, ◌&&◌, List, get_or, set,
  replicate,
}

pub record JailTable : Type 0 where
  pub num_entries : ℕ
  pub jail_table1 : List Bool
  pub jail_table2 : List Bool

-- The constructor, which asserts that the number of entries is a power of two.
unfoldable pub init : ℕ → JailTable
init num_entries = record {
  num_entries = num_entries;
  jail_table1 = replicate num_entries false;
  jail_table2 = replicate num_entries false;
}

-- `hash`; the member `mask` is `num_entries - 1`.
unfoldable pub hash : ℕ → ℕ → ℕ
hash mask key =
    let x1 = bit_xor key (key / 2 ^ 33) in
    let x2 = bit_xor x1 (x1 / 2 ^ 17) in let x3 = bit_xor x2 (x2 / 2 ^ 9) in bit_and x3 mask

-- `region_num & ((1ULL << 37) - 1)`
abbrev pub build_key : ℕ → ℕ
build_key region_num = region_num % 2 ^ 37

abbrev pub second_key : ℕ → ℕ
second_key key = (key * 1664525 + 1013904223) % 2 ^ 64

abbrev pub write : JailTable → ℕ → Bool → JailTable
write j region_num b = record j {
  jail_table1 = set j.jail_table1 (hash (j.num_entries - 1) (build_key region_num)) b;
  jail_table2 = set j.jail_table2 (hash (j.num_entries - 1) (second_key (build_key region_num))) b;
}

unfoldable pub mark : JailTable → ℕ → JailTable
mark j region_num = write j region_num true

unfoldable pub unmark : JailTable → ℕ → JailTable
unmark j region_num = write j region_num false

unfoldable pub in_jail : JailTable → ℕ → Bool
in_jail j region_num =
    get_or j.jail_table1 (hash (j.num_entries - 1) (build_key region_num)) false
    && get_or j.jail_table2 (hash (j.num_entries - 1) (second_key (build_key region_num))) false
