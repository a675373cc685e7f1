-- ===== src/SetAssoc/Insert/Evict.antt =====
-- What `SetAssociativeCache::insert` throws out: only the way that the policy chose, in a full set.
use proba_artifact.Prelude.{
  ℕ, zero, suc, ◌≤◌, ◌<◌, ◌+◌, Bool, true, false, none, some, List, [], ◌∷◌, get_elem?, ◌≡◌, sym,
  ap, ◌∙◌, ◌≢◌, inl, inr, ◌==◌, ◌&&◌, arith, Bool-cases, Option-cases, get_elem?_of_lt,
  get_or-eq-of-get_elem?, ne→==-false, ==→eq,
}
use mathlib.Core.Bool.{false≢true}
use mathlib.Core.Option.{some-ne-none, some-injective}
use proba_artifact.Prelude.Assoc
use proba_artifact.SetAssoc.{
  Entry, SetAssociativeCache, index_of, tag_of, row, cam, locate, find, snd_of, fresh, place,
  first_invalid, victim_way, insert,
}
use proba_artifact.SetAssoc.Row.{find_in_of}
use proba_artifact.SetAssoc.Valid.{IsValid, index_of-lt}
use proba_artifact.SetAssoc.Laws.{locate-facts}
use proba_artifact.SetAssoc.Insert.{
  chosen, placed, insert-hit, insert-miss, find-insert_hit, find-insert_miss, chosen-lt, victim-key,
}

module _ {ℓ} {T : Type ℓ} where
  first_invalid-ge : (i : ℕ) (ways : List (Entry T)) (n : ℕ) → first_invalid i ways ≡ some n → i ≤ n
  unfolding first_invalid
  first_invalid-ge i [] n h = cc
  first_invalid-ge i (x ∷ ways) n h = ground (arith, first_invalid-ge (suc i) ways n)

  first_invalid-dead :
      (i : ℕ) (ways : List (Entry T)) (w : ℕ) (e : Entry T)
      → first_invalid i ways ≡ some (i + w)
      → get_elem? ways w ≡ some e
      → e.valid ≡ false
  unfolding first_invalid
  first_invalid-dead i [] w e h g = cc
  first_invalid-dead i (x ∷ ways) zero e h g =
      ground (arith, first_invalid-ge (suc i) ways (i + zero))
  first_invalid-dead i (x ∷ ways) (suc w) e h g =
      let moved : i + suc w ≡ suc i + w = omega arith in
      elim (Bool-cases x.valid) [
        | inl live ↦ first_invalid-dead (suc i) ways w e (ground arith) g
        | inr dead ↦ absurd (ground arith)
      ]

module _ {ℓ κ} {T : Type ℓ} {S : Type κ} (select_victim : S → ℕ → ℕ × S) (s : S)
    (c : SetAssociativeCache T) (key : ℕ) (d : T) (v : IsValid c)
    (bounded : (select_victim s (index_of c key)).0 < c.num_ways) where
  -- The overwritten entry stood at the chosen way.
  victim-at :
      get_elem? (row c (index_of c key)) (chosen select_victim s c key).0
      ≡ some (placed select_victim s c key d).2
  unfolding placed place
  victim-at =
      let lt = chosen-lt select_victim s c key d v bounded in
      let (y, g) = get_elem?_of_lt (row c (index_of c key)) (chosen select_victim s c key).0 lt in
      g
      ∙ ap some (
          sym (
            get_or-eq-of-get_elem? (row c (index_of c key)) (chosen select_victim s c key).0
              (fresh c key d) g))

  -- A valid entry is overwritten only at the way that the policy chose.
  victim-chosen :
      (placed select_victim s c key d).2.valid ≡ true
      → (chosen select_victim s c key).0 ≡ (select_victim s (index_of c key)).0
  unfolding chosen victim_way
  victim-chosen val = elim (Option-cases (first_invalid 0 (row c (index_of c key)))) [
    | inl full ↦ rw (full, victim_way)
    | inr (w, free) ↦ absurd (false≢true (sym (dead w free) ∙ val))
  ]
    where
      at :
          (w : ℕ)
          → first_invalid 0 (row c (index_of c key)) ≡ some w
          → (chosen select_victim s c key).0 ≡ w
      at w free = rw (free, victim_way)

      dead :
          (w : ℕ)
          → first_invalid 0 (row c (index_of c key)) ≡ some w
          → (placed select_victim s c key d).2.valid ≡ false
      dead w free =
          first_invalid-dead 0 (row c (index_of c key)) w _ (free ∙ ap some (omega arith))
            (ap (get_elem? (row c (index_of c key))) (sym (at w free)) ∙ victim-at)

  victim-located :
      (key' : ℕ)
      → (placed select_victim s c key d).2.valid ≡ true
      → (placed select_victim s c key d).2.key ≡ key'
      → (index_of c key ≡ index_of c key')
        × (locate c key'
            ≡ some ((select_victim s (index_of c key)).0, (placed select_victim s c key d).2))
  unfolding locate
  victim-located key' val same =
      let (i, t) = victim-key select_victim s c key d v bounded val in
      let here : index_of c key ≡ index_of c key' = sym i ∙ ap (index_of c) same in
      let tag = t ∙ ap (tag_of c) same in
      let r = v.rows (index_of c key) (index_of-lt c key v) in
      let l = r.coherent.listed (chosen select_victim s c key).0 _ victim-at val in
      let found =
        find_in_of (row c (index_of c key)) (cam c (index_of c key)) (tag_of c key')
          (chosen select_victim s c key).0 (placed select_victim s c key d).2
          (ap (λ (k : ℕ). Assoc.lookup k (cam c (index_of c key))) (sym tag) ∙ l) victim-at val in
      (
        here,
        rw (← here) found
            ∙ ap (λ (w : ℕ). some (w, (placed select_victim s c key d).2)) (victim-chosen val),
      )

  lost_hit :
      (key' way : ℕ) (x e : Entry T)
      → key ≢ key'
      → locate c key ≡ some (way, x)
      → find c key' ≡ some e
      → find (insert select_victim s c key d).1 key' ≡ some e
  lost_hit key' way x e ne hit held =
      let (g, val, t, i, k, l) = locate-facts c key way x v hit in
      rw (insert-hit select_victim s c key way d x hit) (
        find-insert_hit select_victim s c key d v bounded key' way x hit
        ∙ rw (ne→==-false _ _ ne, k, ne→==-false _ _ ne, val) held)

  lost_miss :
      (key' : ℕ) (e : Entry T)
      → key ≢ key'
      → locate c key ≡ none
      → find c key' ≡ some e
      → find (insert select_victim s c key d).1 key' ≡ none
      → ((placed select_victim s c key d).2.valid && (placed select_victim s c key d).2.key == key')
        ≡ true
  lost_miss key' e ne miss held lost =
      elim (Bool-cases (
        (placed select_victim s c key d).2.valid
        && (placed select_victim s c key d).2.key == key')) [
          | inl b ↦ b
          | inr b ↦
              let kept : find (insert select_victim s c key d).1 key' ≡ some e =
                rw (insert-miss select_victim s c key d miss) (
                  find-insert_miss select_victim s c key d v bounded key' miss
                  ∙ rw (ne→==-false _ _ ne, b) held) in
              absurd (some-ne-none e (sym kept ∙ lost))
        ]

  same_entry :
      (key' w : ℕ) (x e : Entry T)
      → locate c key' ≡ some (w, x)
      → find c key' ≡ some e
      → locate c key' ≡ some (w, e)
  unfolding find
  same_entry key' w x e at held =
      at ∙ ap (λ y. some (w, y)) (some-injective x e (sym (ap snd_of at) ∙ held))

  -- In a valid table, under any policy that chooses a way of the set, a key that the insertion
  -- of another loses stood in the new key's set, at the way that the policy chose.
  pub insert-lost :
      (key' : ℕ) (e : Entry T)
      → key ≢ key'
      → find c key' ≡ some e
      → find (insert select_victim s c key d).1 key' ≡ none
      → (index_of c key ≡ index_of c key')
        × (locate c key' ≡ some ((select_victim s (index_of c key)).0, e))
  insert-lost key' e ne held lost = elim (Option-cases (locate c key)) [
    | inr ((way, x), hit) ↦ absurd (some-ne-none e (sym (lost_hit key' way x e ne hit held) ∙ lost))
    | inl miss ↦
        let (val, same) = both _ _ (lost_miss key' e ne miss held lost) in
        let (here, at) = victim-located key' val (==→eq _ _ same) in
        (here, same_entry key' _ _ e at held)
  ]
    where
      both : (a b : Bool) → (a && b) ≡ true → (a ≡ true) × (b ≡ true)
      both a b h = ground arith
