-- ===== src/Btb/Calls.antt =====
-- Calls and returns on the return address stack.
use native.Mathlib.Nat.{mod-eq_of_lt}
use proba_artifact.Prelude.{
  ℕ, zero, suc, ◌+◌, ◌-◌, ◌%◌, ◌^◌, ◌<◌, ◌≤◌, ◌≡◌, refl, ◌∙◌, ap, true, some, List, [], ◌∷◌, length,
  get_or, set, take, get_or-set_self, ltb, leb, if◌then◌else◌, arith,
}
use proba_artifact.Msl.LruTable.{check_hit}
use proba_artifact.Btb.{
  BtbEntry, BranchType, BranchInfo, Btb, entry_tag, predict_return, predict_top, btb_prediction,
  push_call, update_indirect, update_history, pop_from, pop_return, info, update_entry, update_btb,
  calibrate, call_size_trackers, ras_size,
}
use proba_artifact.Btb.Learns.{predicts, pop_return-keeps, predict_return_entry}

take_all : (n : ℕ) (xs : List ℕ) → length xs ≤ n → take n xs ≡ xs
take_all zero [] h = refl
take_all zero (x ∷ xs) h = absurd (omega arith)
take_all (suc n) [] h = refl
take_all (suc n) (x ∷ xs) h = ap (◌∷◌ x) (take_all n xs (omega arith))

abbrev after_call : ℕ → Btb → Btb
after_call c s = record s { ras = take ras_size (c ∷ s.ras) }

call_step :
    (c t : ℕ) (s : Btb)
    → update_btb c t true BranchType.direct_call s
      ≡ update_entry c t (info t true BranchType.direct_call) (after_call c s)
unfolding update_btb push_call update_indirect update_history
call_step c t s =
    ap (update_entry c t (info t true BranchType.direct_call))
      (pop_return-keeps t BranchType.direct_call (after_call c s) refl)

-- A return within the size of a call instruction calibrates it.
calibrate-near :
    (c n : ℕ) (s : Btb)
    → n ≤ 10
    → calibrate c (c + n) s ≡ record s { call_size = set s.call_size (c % call_size_trackers) n }
unfolding calibrate
calibrate-near c n s h =
    let size : (if ltb (c + n) c then c - (c + n) else c + n - c) ≡ n = ground arith in
    let near : leb n 10 ≡ true = ground arith in rw (size, near) refl

return_step :
    (r c n : ℕ) (rest : List ℕ) (s : Btb)
    → s.ras ≡ c ∷ rest
    → n ≤ 10
    → update_btb r (c + n) true BranchType.branch_return s
      ≡ update_entry r
          (c + n)
          BranchInfo.return
          (record s { ras = rest; call_size = set s.call_size (c % call_size_trackers) n })
unfolding update_btb push_call update_indirect update_history info pop_return pop_from
return_step r c n rest s top near =
    ap
      (λ (ras : List ℕ).
        update_entry r (c + n) BranchInfo.return (pop_from ras (c + n) BranchType.branch_return s))
      top
    ∙ ap (update_entry r (c + n) BranchInfo.return)
        (calibrate-near c n (record s { ras = rest }) near)

top_of :
    {c : ℕ} {rest : List ℕ} (s : Btb)
    → s.ras ≡ c ∷ rest
    → predict_return s ≡ ((c + get_or s.call_size (c % call_size_trackers) 0) % 2 ^ 64, true)
unfolding predict_return predict_top
top_of s top = ap (λ (ras : List ℕ). predict_top ras s) top

calls_top :
    (c t : ℕ) (s : Btb) → (update_btb c t true BranchType.direct_call s).ras ≡ c ∷ take 63 s.ras
unfolding update_entry
calls_top c t s = ap (λ (q : Btb). q.ras) (call_step c t s)

calls_read :
    (c t : ℕ) (s : Btb) → (update_btb c t true BranchType.direct_call s).call_size ≡ s.call_size
unfolding update_entry
calls_read c t s = ap (λ (q : Btb). q.call_size) (call_step c t s)

module _ (c t r n : ℕ) (s : Btb) (room : length s.ras < ras_size)
    (sized : length s.call_size ≡ call_size_trackers) (near : n ≤ 10) where
  abbrev called : Btb
  called = update_btb c t true BranchType.direct_call s

  abbrev returned : Btb
  returned = update_btb r (c + n) true BranchType.branch_return called

  called-ras : called.ras ≡ c ∷ s.ras
  unfolding update_entry
  called-ras = calls_top c t s ∙ ap (◌∷◌ c) (take_all 63 s.ras (omega arith))

  returned-ras : returned.ras ≡ s.ras
  unfolding update_entry
  returned-ras = ap (λ (q : Btb). q.ras) (return_step r c n s.ras called called-ras near)

  returned-size : returned.call_size ≡ set s.call_size (c % call_size_trackers) n
  unfolding update_entry
  returned-size =
      ap (λ (q : Btb). q.call_size) (return_step r c n s.ras called called-ras near)
      ∙ ap (λ (xs : List ℕ). set xs (c % call_size_trackers) n) (calls_read c t s)

-- With room on the stack and all call sizes: a direct call and the return to at most ten bytes
-- after it leave the stack as it was, and after the next direct call from the same address, the
-- same return instruction, where the table knows it as a return, is predicted to go where it
-- went before.
pub call-return :
    (c t r t' n : ℕ) (s : Btb) (e : BtbEntry)
    → length s.ras < ras_size
    → length s.call_size ≡ call_size_trackers
    → n ≤ 10
    → c + n < 2 ^ 64
    → let s₂ =
        update_btb r
          (c + n)
          true
          BranchType.branch_return
          (update_btb c t true BranchType.direct_call s) in
      let s₃ = update_btb c t' true BranchType.direct_call s₂ in
      (check_hit entry_tag entry_tag
          (record { ip_tag = r; target = 0; type = BranchInfo.always_taken })
          s₃.table).0
        ≡ some e
      → e.type ≡ BranchInfo.return
      → (s₂.ras ≡ s.ras) × ((btb_prediction r s₃).0 ≡ (c + n, true))
call-return c t r t' n s e room sized near small hit type =
    let s₂ = returned c t r n s room sized near in
    let s₃ = update_btb c t' true BranchType.direct_call s₂ in
    let (table, prediction) = predicts r s₃ hit in
    let read = calls_read c t' s₂ ∙ returned-size c t r n s room sized near in
    (
      returned-ras c t r n s room sized near,
      prediction
          ∙ predict_return_entry r e (record s₃ { table = table }) type
          ∙ top_of (record s₃ { table = table }) (calls_top c t' s₂)
          ∙ ap (λ (xs : List ℕ). ((c + get_or xs (c % call_size_trackers) 0) % 2 ^ 64, true)) read
          ∙ ap (λ (m : ℕ). ((c + m) % 2 ^ 64, true))
              (get_or-set_self s.call_size (c % call_size_trackers) n 0 (omega arith))
          ∙ ap (λ (m : ℕ). (m, true)) (mod-eq_of_lt small),
    )
