-- ===== src/Tests/Tables.antt =====
-- The theorems on the tables, at a table of two sets of two ways.
use proba_artifact.Prelude.{
  ℕ, zero, suc, ◌≡◌, refl, List, [], ◌∷◌, true, none, some, ◌<◌, ◌≤◌, arith, length, get_elem?,
  ◌==◌, ◌&&◌, if◌then◌else◌, set, ◌^◌, ◌+◌,
}
use proba_artifact.Prelude.Assoc
use proba_artifact.SetAssoc
use proba_artifact.SetAssoc.{
  SetAssociativeCache, Entry, fresh, index_of, locate, find_in, index_len_of, bit_length,
}
use proba_artifact.SetAssoc.Valid
use proba_artifact.SetAssoc.Valid.{index_of-lt}
use proba_artifact.SetAssoc.Insert.{insert-IsValid, find-insert}
use proba_artifact.SetAssoc.Insert.Evict.{insert-lost}
use proba_artifact.SetAssoc.Ranked
use proba_artifact.SetAssoc.Lru
use proba_artifact.SetAssoc.Lru.{LruSetAssociativeCache}
use proba_artifact.SetAssoc.Lru.Laws.{
  IsStamped, IsLeast, init-IsStamped, insert-IsStamped, select_victim-IsLeast,
}
use proba_artifact.SetAssoc.Lru.Mru.{insert-keeps_mru}
use proba_artifact.SetAssoc.Rrip.{select_victim}
use proba_artifact.SetAssoc.Rrip.Victim.{IsFirstMax, Bounded, select_victim-IsFirstMax}
use proba_artifact.Util.Hash.{hash_index, hash_loop}
use proba_artifact.Util.Hash.Index.{hash_index_involutive, hash_loop_enough}
use proba_artifact.Tests.{small}

small-IsStamped : IsStamped small
unfolding Lru.init index_len_of bit_length
small-IsStamped = init-IsStamped 0 4 2 refl

ways : 0 < small.table.base.num_ways
unfolding Lru.init Ranked.init SetAssoc.init
ways = omega arith

-- Keys 5 and 9 stand in set 1.
abbrev full : LruSetAssociativeCache ℕ
full = (Lru.insert (Lru.insert small 5 7).0 9 8).0

full-IsStamped : IsStamped full
unfolding Lru.init Ranked.init SetAssoc.init Lru.insert SetAssoc.insert SetAssoc.victim_way
    SetAssoc.first_invalid SetAssoc.place SetAssoc.locate SetAssoc.find_in Assoc.lookup
    Lru.select_victim
full-IsStamped =
    insert-IsStamped (Lru.insert small 5 7).0 9 8 (insert-IsStamped small 5 7 small-IsStamped ways)
      (omega arith)

entry : Entry ℕ
entry = record { key = 5; index = 1; tag = 2; valid = true; payload = 7 }

held : Lru.find full 5 ≡ some entry
unfolding Lru.init Ranked.init SetAssoc.init Lru.insert SetAssoc.insert SetAssoc.victim_way
    SetAssoc.first_invalid SetAssoc.place SetAssoc.locate SetAssoc.find_in SetAssoc.find
    Assoc.lookup Assoc.insert Assoc.erase Lru.select_victim index_len_of bit_length SetAssoc.write
    entry
held = refl

two : 2 ≤ full.table.base.num_ways
unfolding Lru.init Ranked.init SetAssoc.init Lru.insert SetAssoc.insert SetAssoc.victim_way
    SetAssoc.first_invalid SetAssoc.place SetAssoc.locate SetAssoc.find_in Assoc.lookup Assoc.insert
    Lru.select_victim
two = omega arith

two_sets : 1 < full.table.base.num_sets
unfolding Lru.init Ranked.init SetAssoc.init Lru.insert SetAssoc.insert SetAssoc.victim_way
    SetAssoc.first_invalid SetAssoc.place SetAssoc.locate SetAssoc.find_in Assoc.lookup Assoc.insert
    Lru.select_victim
two_sets = omega arith

-- Key 5 was used; key 13 takes the way of key 9.
insert-keeps_mru_example : Lru.find (Lru.insert (Lru.set_mru full 5) 13 4).0 5 ≡ some entry
insert-keeps_mru_example = insert-keeps_mru full 5 entry full-IsStamped held 13 4 two (omega arith)

full-bounded :
    (Lru.select_victim full.table.ranks (index_of full.table.base 13)).0 < full.table.base.num_ways
full-bounded =
    (select_victim-IsLeast full (index_of full.table.base 13) full-IsStamped.table_valid
      (omega (arith, two)) (index_of-lt full.table.base 13 full-IsStamped.table_valid.base_valid)).1

find-insert_example :
    SetAssoc.find (SetAssoc.insert Lru.select_victim full.table.ranks full.table.base 13 4).1 5 ≡ (
      if 13 == 5
      then some (fresh full.table.base 13 4)
      else if (SetAssoc.insert Lru.select_victim full.table.ranks full.table.base 13 4).2.valid
          && (SetAssoc.insert Lru.select_victim full.table.ranks full.table.base 13 4).2.key == 5
      then none
      else SetAssoc.find full.table.base 5)
find-insert_example =
    find-insert Lru.select_victim full.table.ranks full.table.base 13 4
      full-IsStamped.table_valid.base_valid full-bounded 5

insert-IsValid_example :
    Valid.IsValid (SetAssoc.insert Lru.select_victim full.table.ranks full.table.base 13 4).1
insert-IsValid_example =
    insert-IsValid Lru.select_victim full.table.ranks full.table.base 13 4
      full-IsStamped.table_valid.base_valid full-bounded

lost :
    SetAssoc.find (SetAssoc.insert Lru.select_victim full.table.ranks full.table.base 13 4).1 5
    ≡ none
unfolding Lru.init Ranked.init SetAssoc.init Lru.insert SetAssoc.insert SetAssoc.victim_way
    SetAssoc.first_invalid SetAssoc.place SetAssoc.locate SetAssoc.find_in SetAssoc.find
    Assoc.lookup Assoc.insert Assoc.erase Lru.select_victim Lru.min_element Lru.min_from
    index_len_of bit_length SetAssoc.write
lost = refl

insert-lost_example :
    (index_of full.table.base 13 ≡ index_of full.table.base 5)
    × (locate full.table.base 5
        ≡ some ((Lru.select_victim full.table.ranks (index_of full.table.base 13)).0, entry))
insert-lost_example =
    insert-lost Lru.select_victim full.table.ranks full.table.base 13 4
      full-IsStamped.table_valid.base_valid full-bounded 5 entry (omega arith) held lost

select_victim-IsLeast_example :
    IsLeast (Ranked.rank_row full.table 1) (Lru.select_victim full.table.ranks 1).0
    × ((Lru.select_victim full.table.ranks 1).0 < full.table.base.num_ways)
select_victim-IsLeast_example =
    select_victim-IsLeast full 1 full-IsStamped.table_valid (omega (arith, two)) two_sets

abbrev rrpvs : List ℕ
rrpvs = 1 ∷ 2 ∷ 0 ∷ []

rrpvs-Bounded : Bounded 3 rrpvs
rrpvs-Bounded zero u g = ground arith
rrpvs-Bounded (suc zero) u g = ground arith
rrpvs-Bounded (suc (suc zero)) u g = ground arith
rrpvs-Bounded (suc (suc (suc j))) u g = cc

-- The set ages once; the second way is the victim.
select_victim-IsFirstMax_example :
    IsFirstMax rrpvs (select_victim 3 (rrpvs ∷ []) 0).0
    × ((select_victim 3 (rrpvs ∷ []) 0).0 < length rrpvs)
    × ((aged : List ℕ) × ((select_victim 3 (rrpvs ∷ []) 0).1 ≡ set (rrpvs ∷ []) 0 aged)
        × (get_elem? aged (select_victim 3 (rrpvs ∷ []) 0).0 ≡ some 3)
        × (length aged ≡ length rrpvs)
        × Bounded 3 aged)
select_victim-IsFirstMax_example =
    select_victim-IsFirstMax 3 0 1 (2 ∷ 0 ∷ []) (rrpvs ∷ []) refl rrpvs-Bounded

before_wrap : full.t + 1 < 2 ^ 64
unfolding Lru.init Lru.insert
before_wrap = omega arith

hash_index_involutive_example : hash_index (hash_index 0x1234_5678 3) 3 ≡ 0x1234_5678
hash_index_involutive_example = hash_index_involutive 0x1234_5678 3

hash_loop_enough_example :
    hash_loop (64 + 100) 3 0x1234_5678 0x246_8ACF ≡ hash_loop 64 3 0x1234_5678 0x246_8ACF
hash_loop_enough_example = hash_loop_enough 64 100 2 0x1234_5678 0x246_8ACF (omega arith)
