-- ===== src/Btb.antt =====
-- btb/basic_btb/basic_btb.cc: the branch target buffer, with its return address stack. The maps from
-- cores to structures are one state for each core.
pub mod Learns
pub mod Calls
use proba_artifact.Prelude.{
  ℕ, ◌+◌, ◌-◌, ◌*◌, ◌/◌, ◌%◌, ◌^◌, bit_xor, Bool, true, false, not, ◌&&◌, ◌||◌, Option, none, some,
  List, [], ◌∷◌, ◌==◌, ltb, leb, if◌then◌else◌, get_or, set, take, replicate, ◌>>=◌,
}
use proba_artifact.Msl.LruTable
use proba_artifact.Msl.LruTable.{LruTable, check_hit, fill}

pub data BranchInfo : Type 0 where
  indirect : BranchInfo
  return : BranchInfo
  always_taken : BranchInfo
  conditional : BranchInfo

-- The branch types of inc/instruction.h.
pub data BranchType : Type 0 where
  not_branch : BranchType
  direct_jump : BranchType
  branch_indirect : BranchType
  branch_conditional : BranchType
  direct_call : BranchType
  indirect_call : BranchType
  branch_return : BranchType
  branch_other : BranchType

abbrev pub btb_indirect_size : ℕ
btb_indirect_size = 4096

abbrev pub ras_size : ℕ
ras_size = 64

abbrev pub call_size_trackers : ℕ
call_size_trackers = 1024

-- btb_entry_t
pub record BtbEntry : Type 0 where
  pub ip_tag : ℕ
  pub target : ℕ
  pub type : BranchInfo

-- Both `index` and `tag`.
abbrev pub entry_tag : BtbEntry → ℕ
entry_tag e = e.ip_tag / 4

abbrev pub blank_entry : BtbEntry
blank_entry = record { ip_tag = 0; target = 0; type = always_taken }

-- The deque `ras` is held from its back to its front.
pub record Btb : Type 0 where
  pub table : LruTable BtbEntry
  pub indirect_btb : List ℕ
  pub conditional_history : ℕ
  pub ras : List ℕ
  pub call_size : List ℕ

unfoldable pub initialize_btb : Option Btb
initialize_btb = do
  table ← LruTable.new blank_entry 1024 8
  some (record {
    table = table;
    indirect_btb = replicate btb_indirect_size 0;
    conditional_history = 0;
    ras = [];
    call_size = replicate call_size_trackers 4;
  })

unfoldable pub indirect_hash : ℕ → Btb → ℕ
indirect_hash ip s = bit_xor (ip / 4) s.conditional_history % btb_indirect_size

-- The address after the call on top of the stack, and whether the branch is taken.
unfoldable pub predict_top : List ℕ → Btb → ℕ × Bool
predict_top [] s = (0, true)
predict_top (target ∷ rest) s =
    ((target + get_or s.call_size (target % call_size_trackers) 0) % 2 ^ 64, true)

unfoldable pub predict_return : Btb → ℕ × Bool
unfolding predict_top
predict_return s = predict_top s.ras s

unfoldable pub predict_entry : ℕ → BtbEntry → Btb → ℕ × Bool
unfolding predict_return indirect_hash
predict_entry ip e s = elim e.type [
  | return ↦ predict_return s
  | indirect ↦ (get_or s.indirect_btb (indirect_hash ip s) 0, true)
  | always_taken ↦ (e.target, true)
  | conditional ↦ (e.target, false)
]

unfoldable pub btb_prediction : ℕ → Btb → (ℕ × Bool) × Btb
unfolding predict_entry
btb_prediction ip s =
    let (hit, table) =
      check_hit entry_tag entry_tag (record { ip_tag = ip; target = 0; type = always_taken })
        s.table in
    let s' = record s { table = table } in
    elim hit [ none ↦ ((0, false), s') | some e ↦ (predict_entry ip e s', s') ]

abbrev pub is_call : BranchType → Bool
is_call direct_call = true
is_call indirect_call = true
is_call _ = false

abbrev pub is_indirect : BranchType → Bool
is_indirect branch_indirect = true
is_indirect indirect_call = true
is_indirect _ = false

abbrev pub is_conditional : BranchType → Bool
is_conditional branch_conditional = true
is_conditional _ = false

abbrev pub is_return : BranchType → Bool
is_return branch_return = true
is_return _ = false

-- A call is pushed; the front is dropped if there are more than RAS_SIZE.
unfoldable pub push_call : ℕ → BranchType → Btb → Btb
push_call ip branch s = if is_call branch then record s { ras = take ras_size (ip ∷ s.ras) } else s

unfoldable pub update_indirect : ℕ → ℕ → BranchType → Btb → Btb
unfolding indirect_hash
update_indirect ip branch_target branch s =
    if is_indirect branch
    then record s { indirect_btb = set s.indirect_btb (indirect_hash ip s) branch_target }
    else s

-- The history has 12 bits.
unfoldable pub update_history : Bool → BranchType → Btb → Btb
update_history taken branch s =
    if is_conditional branch
    then record s {
      conditional_history = s.conditional_history * 2 % 2 ^ 12 + (if taken then 1 else 0);
    }
    else s

-- The size of the call is recalibrated, if the return came close to it.
unfoldable pub calibrate : ℕ → ℕ → Btb → Btb
calibrate call_ip branch_target s =
    let size =
      if ltb branch_target call_ip then call_ip - branch_target else branch_target - call_ip in
    if leb size 10
    then record s { call_size = set s.call_size (call_ip % call_size_trackers) size }
    else s

unfoldable pub pop_from : List ℕ → ℕ → BranchType → Btb → Btb
unfolding calibrate
pop_from [] branch_target branch s = s
pop_from (call_ip ∷ rest) branch_target branch s =
    if is_return branch then calibrate call_ip branch_target (record s { ras = rest }) else s

unfoldable pub pop_return : ℕ → BranchType → Btb → Btb
unfolding pop_from
pop_return branch_target branch s = pop_from s.ras branch_target branch s

unfoldable pub info : ℕ → Bool → BranchType → BranchInfo
info branch_target taken branch =
    if is_indirect branch
    then indirect
    else (if is_return branch
        then return
        else (if branch_target == 0 || not taken then conditional else always_taken))

-- The entry that is filled: the old one with the new type and target, or a new one.
unfoldable pub new_entry : ℕ → ℕ → BranchInfo → Option BtbEntry → BtbEntry
new_entry ip branch_target type none = record { ip_tag = ip; target = branch_target; type = type }
new_entry ip branch_target type (some e) = record e {
  type = type;
  target = if branch_target == 0 then e.target else branch_target;
}

unfoldable pub update_entry : ℕ → ℕ → BranchInfo → Btb → Btb
unfolding new_entry
update_entry ip branch_target type s =
    let (hit, table) =
      check_hit entry_tag entry_tag (record { ip_tag = ip; target = branch_target; type = type })
        s.table in
    record s { table = fill entry_tag entry_tag (new_entry ip branch_target type hit) table }

unfoldable pub update_btb : ℕ → ℕ → Bool → BranchType → Btb → Btb
unfolding push_call update_indirect update_history pop_return info update_entry
update_btb ip branch_target taken branch s =
    let pushed = push_call ip branch s in
    let indirect_updated = update_indirect ip branch_target branch pushed in
    let history_updated = update_history taken branch indirect_updated in
    let popped = pop_return branch_target branch history_updated in
    update_entry ip branch_target (info branch_target taken branch) popped
