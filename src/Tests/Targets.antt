-- ===== src/Tests/Targets.antt =====
-- The branch target buffer over a table of two sets of two ways.
use proba_artifact.Prelude.{
  ℕ, ◌+◌, ◌≡◌, ◌≢◌, refl, true, some, List, [], length, replicate, length-replicate, arith,
}
use proba_artifact.Msl.Bits.{lg2}
use proba_artifact.Msl.LruTable.{LruTable, new, check_hit, fill, set_idx, find_if}
use proba_artifact.Msl.LruTable.Held.{IsValid, fill-check_hit}
use proba_artifact.Msl.LruTable.Fresh.{new-IsValid}
use proba_artifact.Btb.{
  Btb, BtbEntry, BranchInfo, BranchType, entry_tag, blank_entry, btb_prediction, update_btb,
  update_entry,
}
use proba_artifact.Btb.Learns.{update-prediction}
use proba_artifact.Btb.Calls.{call-return}

abbrev small_table : LruTable BtbEntry
small_table = record {
  num_set = 2;
  num_way = 2;
  access_count = 0;
  block = replicate 4 (record { last_used = 0; contents = blank_entry });
}

made : new blank_entry 2 2 ≡ some small_table
unfolding new lg2
made = refl

small_table-IsValid : IsValid entry_tag entry_tag small_table
small_table-IsValid = new-IsValid blank_entry entry_tag entry_tag 2 2 made

abbrev jump : BtbEntry
jump = record { ip_tag = 0x1000; target = 0x2000; type = BranchInfo.always_taken }

apart :
    set_idx entry_tag small_table jump
    ≢ set_idx entry_tag small_table (record jump { ip_tag = 0x1004 })
unfolding set_idx lg2
apart = omega arith

fill-check_hit_example :
    ((check_hit entry_tag entry_tag
        (record jump { ip_tag = 0x1002 })
        (fill entry_tag entry_tag jump small_table)).0
      ≡ some jump)
    × ((check_hit entry_tag entry_tag
          (record jump { ip_tag = 0x1004 })
          (fill entry_tag entry_tag jump small_table)).0
        ≡ (check_hit entry_tag entry_tag (record jump { ip_tag = 0x1004 }) small_table).0)
    × IsValid entry_tag entry_tag (fill entry_tag entry_tag jump small_table)
fill-check_hit_example =
    fill-check_hit entry_tag entry_tag small_table jump (record jump { ip_tag = 0x1002 })
      (record jump { ip_tag = 0x1004 }) small_table-IsValid (omega arith) refl refl apart

targets : List ℕ
targets = replicate 4096 0

sizes : List ℕ
sizes = replicate 1024 4

abbrev buffer : Btb
buffer = record {
  table = small_table;
  indirect_btb = targets;
  conditional_history = 5;
  ras = [];
  call_size = sizes;
}

length-targets : length targets ≡ 4096
unfolding targets
length-targets = length-replicate {A = ℕ} 4096 0

length-sizes : length sizes ≡ 1024
unfolding sizes
length-sizes = length-replicate {A = ℕ} 1024 4

update-prediction_example :
    (btb_prediction 0x1000 (update_btb 0x1000 0x2000 true BranchType.branch_indirect buffer)).0
    ≡ (0x2000, true)
update-prediction_example =
    update-prediction 0x1000 0x2000 BranchType.branch_indirect buffer small_table-IsValid
      (omega arith) length-targets (omega arith) refl

-- The call at 0x1000 is five bytes long.
abbrev known_return : BtbEntry
known_return = record { ip_tag = 0x2010; target = 0x1005; type = BranchInfo.return }

return_known :
    (check_hit entry_tag entry_tag
      (record { ip_tag = 0x2010; target = 0; type = BranchInfo.always_taken })
      (update_btb 0x1000 0x2000 true BranchType.direct_call (
        update_btb 0x2010 0x1005 true BranchType.branch_return
          (update_btb 0x1000 0x2000 true BranchType.direct_call buffer))).table).0
    ≡ some known_return
unfolding check_hit update_btb update_entry fill lg2 find_if
return_known = refl

call-return_example :
    ((update_btb 0x2010
        (0x1000 + 5)
        true
        BranchType.branch_return
        (update_btb 0x1000 0x2000 true BranchType.direct_call buffer)).ras
      ≡ [])
    × ((btb_prediction 0x2010 (
          update_btb 0x1000 0x2000 true BranchType.direct_call (
            update_btb 0x2010
              (0x1000 + 5)
              true
              BranchType.branch_return
              (update_btb 0x1000 0x2000 true BranchType.direct_call buffer)))).0
        ≡ (0x1000 + 5, true))
call-return_example =
    call-return 0x1000 0x2000 0x2010 0x2000 5 buffer known_return (omega arith) length-sizes
      (omega arith) (omega arith) return_known refl
