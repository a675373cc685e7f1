-- ===== src/Btb/Learns.antt =====
-- What the buffer predicts after an update.
use proba_artifact.Prelude.{
  ℕ, ◌+◌, ◌/◌, ◌%◌, ◌^◌, ◌<◌, ◌≡◌, bit_xor, ◌≢◌, refl, sym, ◌∙◌, ap, subst, inl, inr, true, false,
  some, List, [], ◌∷◌, length, get_or, set, get_or-set_self, Option-cases, ne→==-false, arith,
}
use proba_artifact.Msl.LruTable.{LruTable, check_hit}
use proba_artifact.Msl.LruTable.Held.{
  IsValid, check_hit_tag, access_count-check_hit, fill-found, check_hit-IsValid,
}
use proba_artifact.Btb.{
  BtbEntry, BranchType, BranchInfo, Btb, entry_tag, btb_indirect_size, indirect_hash, predict_entry,
  predict_return, btb_prediction, push_call, update_indirect, update_history, pop_from, pop_return,
  info, new_entry, update_entry, update_btb, is_return, is_indirect,
}

abbrev pub IsValidBtb : Btb → Type 0
IsValidBtb s = IsValid entry_tag entry_tag s.table

-- The entry that an update leaves for its branch.
module _ (ip branch_target : ℕ) (type : BranchInfo) (s : Btb) (valid : IsValidBtb s)
    (small : s.table.access_count + 2 < 2 ^ 64) where
  probe : BtbEntry
  probe = record { ip_tag = ip; target = branch_target; type = type }

  updated : BtbEntry
  unfolding probe
  updated = new_entry ip branch_target type (check_hit entry_tag entry_tag probe s.table).0

  tag_updated : entry_tag updated ≡ ip / 4
  unfolding updated probe new_entry
  tag_updated = elim (Option-cases (check_hit entry_tag entry_tag probe s.table).0) [
    | inl e ↦ rw e refl
    | inr (old, e) ↦ rw e (check_hit_tag entry_tag entry_tag s.table probe e)
  ]

  type_updated : updated.type ≡ type
  unfolding updated probe new_entry
  type_updated = elim (Option-cases (check_hit entry_tag entry_tag probe s.table).0) [
    | inl e ↦ rw e refl
    | inr (old, e) ↦ rw e refl
  ]

  target_updated : branch_target ≢ 0 → updated.target ≡ branch_target
  unfolding updated probe new_entry
  target_updated nonzero = elim (Option-cases (check_hit entry_tag entry_tag probe s.table).0) [
    | inl e ↦ rw e refl
    | inr (old, e) ↦ rw (e, new_entry, ne→==-false branch_target 0 nonzero) refl
  ]

  learned :
      (check_hit entry_tag entry_tag
        (record { ip_tag = ip; target = 0; type = BranchInfo.always_taken })
        (update_entry ip branch_target type s).table).0
      ≡ some updated
  unfolding update_entry updated probe
  learned =
      let table = (check_hit entry_tag entry_tag probe s.table).1 in
      fill-found entry_tag entry_tag table
        (check_hit-IsValid entry_tag entry_tag s.table probe valid)
        (omega (arith, access_count-check_hit entry_tag entry_tag s.table probe (omega arith)))
        updated _ (sym tag_updated) (sym tag_updated)

-- A prediction is that of the entry that is found.
pub predicts :
    (ip : ℕ) (s : Btb) {e : BtbEntry}
    → (check_hit entry_tag entry_tag
        (record { ip_tag = ip; target = 0; type = BranchInfo.always_taken })
        s.table).0
      ≡ some e
    → (table : LruTable BtbEntry) × ((btb_prediction ip s).0
        ≡ predict_entry ip e (record s { table = table }))
unfolding btb_prediction
predicts ip s h = (
  (check_hit entry_tag entry_tag
      (record { ip_tag = ip; target = 0; type = BranchInfo.always_taken }) s.table).1,
  rw (h, btb_prediction) refl,
)

-- Without a return, the steps before the entry's leave the table and change the fields that
-- predictions of other kinds read in their own way.
pop_from-keeps :
    (ras : List ℕ) (branch_target : ℕ) (branch : BranchType) (s : Btb)
    → is_return branch ≡ false
    → pop_from ras branch_target branch s ≡ s
unfolding pop_from
pop_from-keeps [] branch_target branch s h = refl
pop_from-keeps (call_ip ∷ rest) branch_target branch s h = rw h refl

pub pop_return-keeps :
    (branch_target : ℕ) (branch : BranchType) (s : Btb)
    → is_return branch ≡ false
    → pop_return branch_target branch s ≡ s
unfolding pop_return
pop_return-keeps branch_target branch s h = pop_from-keeps s.ras branch_target branch s h

predict_always :
    (ip : ℕ) (e : BtbEntry) (s : Btb)
    → e.type ≡ BranchInfo.always_taken
    → predict_entry ip e s ≡ (e.target, true)
unfolding predict_entry
predict_always ip e s h = rw (h, predict_entry) refl

predict_indirect :
    (ip : ℕ) (e : BtbEntry) (s : Btb)
    → e.type ≡ BranchInfo.indirect
    → predict_entry ip e s ≡ (get_or s.indirect_btb (indirect_hash ip s) 0, true)
unfolding predict_entry
predict_indirect ip e s h = rw (h, predict_entry) refl

pub predict_return_entry :
    (ip : ℕ) (e : BtbEntry) (s : Btb)
    → e.type ≡ BranchInfo.return
    → predict_entry ip e s ≡ predict_return s
unfolding predict_entry
predict_return_entry ip e s h = rw (h, predict_entry) refl

info_direct :
    (branch_target : ℕ) (branch : BranchType)
    → branch_target ≢ 0
    → is_indirect branch ≡ false
    → is_return branch ≡ false
    → info branch_target true branch ≡ BranchInfo.always_taken
unfolding info
info_direct branch_target branch nonzero i r = rw (i, r, ne→==-false branch_target 0 nonzero) refl

abbrev before_pop : ℕ → ℕ → BranchType → Btb → Btb
before_pop ip branch_target branch s =
    update_history true branch (update_indirect ip branch_target branch (push_call ip branch s))

before_pop-table :
    (ip branch_target : ℕ) (branch : BranchType) (s : Btb)
    → (before_pop ip branch_target branch s).table ≡ s.table
unfolding update_history update_indirect push_call
before_pop-table ip branch_target BranchType.not_branch s = refl
before_pop-table ip branch_target BranchType.direct_jump s = refl
before_pop-table ip branch_target BranchType.branch_indirect s = refl
before_pop-table ip branch_target BranchType.branch_conditional s = refl
before_pop-table ip branch_target BranchType.direct_call s = refl
before_pop-table ip branch_target BranchType.indirect_call s = refl
before_pop-table ip branch_target BranchType.branch_return s = refl
before_pop-table ip branch_target BranchType.branch_other s = refl

-- What is predicted for the branch, over the state that its own steps left: the entry's kind decides
-- what is read.
module _ (ip branch_target : ℕ) (s : Btb) (sized : length s.indirect_btb ≡ btb_indirect_size)
    (nonzero : branch_target ≢ 0) where
  read_direct :
      (branch : BranchType) (e : BtbEntry) (s' : Btb)
      → e.type ≡ info branch_target true branch
      → e.target ≡ branch_target
      → is_indirect branch ≡ false
      → is_return branch ≡ false
      → predict_entry ip e s' ≡ (branch_target, true)
  read_direct branch e s' type target i r =
      predict_always ip e s' (type ∙ info_direct branch_target branch nonzero i r)
      ∙ ap (λ (t : ℕ). (t, true)) target

  -- The target was written where it is read.
  read_indirect :
      (e : BtbEntry) (s' : Btb)
      → e.type ≡ BranchInfo.indirect
      → s'.indirect_btb ≡ set s.indirect_btb (indirect_hash ip s) branch_target
      → s'.conditional_history ≡ s.conditional_history
      → predict_entry ip e s' ≡ (branch_target, true)
  unfolding indirect_hash
  read_indirect e s' type written history =
      let hash = indirect_hash ip s in
      let within : hash < length s.indirect_btb = omega arith in
      predict_indirect ip e s' type
      ∙ ap (λ (n : ℕ). (n, true))
          (ap (λ (xs : List ℕ). get_or xs (indirect_hash ip s') 0) written
            ∙ ap
                (λ (c : ℕ).
                  get_or (set s.indirect_btb hash branch_target)
                    (bit_xor (ip / 4) c % btb_indirect_size) 0)
                history
            ∙ get_or-set_self s.indirect_btb hash branch_target 0 within)

  pub read_entry :
      (branch : BranchType) (e : BtbEntry) (table : LruTable BtbEntry)
      → e.type ≡ info branch_target true branch
      → e.target ≡ branch_target
      → is_return branch ≡ false
      → predict_entry ip e (record (before_pop ip branch_target branch s) { table = table })
        ≡ (branch_target, true)
  unfolding info update_history update_indirect push_call indirect_hash
  read_entry BranchType.not_branch e table type target h =
      read_direct BranchType.not_branch e _ type target refl refl
  read_entry BranchType.direct_jump e table type target h =
      read_direct BranchType.direct_jump e _ type target refl refl
  read_entry BranchType.branch_indirect e table type target h = read_indirect e _ type refl refl
  read_entry BranchType.branch_conditional e table type target h =
      read_direct BranchType.branch_conditional e _ type target refl refl
  read_entry BranchType.direct_call e table type target h =
      read_direct BranchType.direct_call e _ type target refl refl
  read_entry BranchType.indirect_call e table type target h = read_indirect e _ type refl refl
  read_entry BranchType.branch_return e table type target h = absurd (cc)
  read_entry BranchType.branch_other e table type target h =
      read_direct BranchType.branch_other e _ type target refl refl

-- In a buffer with a valid table whose clock does not wrap and with all indirect targets: a
-- branch that was taken, to a target other than 0, and is no return is predicted next time to be
-- taken and to go there.
pub update-prediction :
    (ip branch_target : ℕ) (branch : BranchType) (s : Btb)
    → IsValidBtb s
    → s.table.access_count + 2 < 2 ^ 64
    → length s.indirect_btb ≡ btb_indirect_size
    → branch_target ≢ 0
    → is_return branch ≡ false
    → (btb_prediction ip (update_btb ip branch_target true branch s)).0 ≡ (branch_target, true)
unfolding update_btb update_entry
update-prediction ip branch_target branch s valid small sized nonzero h =
    let type = info branch_target true branch in
    let p = before_pop ip branch_target branch s in
    let same = before_pop-table ip branch_target branch s in
    let valid' = subst (IsValid entry_tag entry_tag) (sym same) valid in
    let small' = subst (λ (t : LruTable BtbEntry). t.access_count + 2 < 2 ^ 64) (sym same) small in
    let e = updated ip branch_target type p valid' small' in
    let popped = pop_return-keeps branch_target branch p h in
    let (table, prediction) =
      predicts ip (update_entry ip branch_target type p)
        (learned ip branch_target type p valid' small') in
    ap (λ (q : Btb). (btb_prediction ip (update_entry ip branch_target type q)).0) popped
    ∙ prediction
    ∙ read_entry ip branch_target s sized nonzero branch e table
        (type_updated ip branch_target type p valid' small')
        (target_updated ip branch_target type p valid' small' nonzero) h
