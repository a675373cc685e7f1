-- ===== src/SetAssoc/Holds.antt =====
-- A property of what a `SetAssociativeCache` holds, which its operations keep: it is that of each
-- payload they write.
use proba_artifact.Prelude.{
  ℕ, zero, suc, ◌<◌, ◌/◌, ◌%◌, ◌≡◌, refl, ap, ◌∙◌, inl, inr, true, false, List, [], ◌∷◌, get_elem?,
  get_or, set, length, length-set, lt-of-get_elem?, get_elem?-set_self, get_elem?-set_ne, replicate,
  none, some, Option-cases, ℕ-cases, arith,
}
use mathlib.Core.Option.{some-injective}
use proba_artifact.Prelude.Assoc
use proba_artifact.SetAssoc.{
  Entry, SetAssociativeCache, index_of, row, cam, locate, find, fresh, write, place, victim_way,
  insert, update, modify, erase, way_of, blank, init,
}
use proba_artifact.SetAssoc.Row.{find_in-eq-some}
use proba_artifact.SetAssoc.Ranked.{Ranked, with_rank}

module _ {ℓ κ} {T : Type ℓ} (P : T → Type κ) where
  abbrev pub RowHolds : List (Entry T) → Type (ℓ ⊔ κ)
  RowHolds ways = (w : ℕ) (e : Entry T) → get_elem? ways w ≡ some e → e.valid ≡ true → P e.payload

  -- Every valid entry's payload satisfies the predicate.
  abbrev pub Holds : SetAssociativeCache T → Type (ℓ ⊔ κ)
  Holds c = (i : ℕ) → RowHolds (row c i)

  set-RowHolds :
      (ways : List (Entry T)) (w : ℕ) (x : Entry T)
      → RowHolds ways
      → (x.valid ≡ true → P x.payload)
      → RowHolds (set ways w x)
  set-RowHolds ways w x h hx j e g val = elim (ℕ-cases w j) [
    | inl here ↦
        let lt : w < length ways =
          omega (arith, lt-of-get_elem? (set ways w x) j g, length-set ways w x) in
        let same : x ≡ e = ground (arith, get_elem?-set_self ways w x lt) in
        rw (← same) (hx (rw same val))
    | inr there ↦ h j e (rw (get_elem?-set_ne ways w j x there) at g) val
  ]

  -- A set is replaced; where its index is out of range nothing is.
  rows-Holds :
      (rows : List (List (Entry T))) (i : ℕ) (ways : List (Entry T))
      → ((j : ℕ) → RowHolds (get_or rows j []))
      → RowHolds ways
      → (j : ℕ) → RowHolds (get_or (set rows i ways) j [])
  rows-Holds [] i ways h hw j = h j
  rows-Holds (r ∷ rows) zero ways h hw zero = hw
  rows-Holds (r ∷ rows) zero ways h hw (suc j) = h (suc j)
  rows-Holds (r ∷ rows) (suc i) ways h hw zero = h zero
  rows-Holds (r ∷ rows) (suc i) ways h hw (suc j) = rows-Holds rows i ways (λ k. h (suc k)) hw j

  pub write-Holds :
      (c : SetAssociativeCache T) (i w : ℕ) (x : Entry T)
      → Holds c
      → (x.valid ≡ true → P x.payload)
      → Holds (write c i w x)
  unfolding write
  write-Holds c i w x h hx = rows-Holds c.entries i _ h (set-RowHolds (row c i) w x (h i) hx)

  pub locate-Holds :
      (c : SetAssociativeCache T) (key w : ℕ) (e : Entry T)
      → Holds c
      → locate c key ≡ some (w, e)
      → P e.payload
  unfolding locate
  locate-Holds c key w e h at =
      let (_, g, val) = find_in-eq-some _ _ _ w e at in h (index_of c key) w e g val

  -- What `find` returns satisfies the predicate.
  pub find-Holds :
      (c : SetAssociativeCache T) (key : ℕ) (e : Entry T)
      → Holds c
      → find c key ≡ some e
      → P e.payload
  unfolding find
  find-Holds c key e h found = elim (Option-cases (locate c key)) [
    | inl missing ↦ absurd (nothing (rw missing at found))
    | inr ((w, x), at) ↦
        let same : x ≡ e = some-injective x e (rw at at found) in
        rw (← same) (locate-Holds c key w x h at)
  ]
    where
      nothing : ¬ (none ≡ some e)
      nothing q = cc

  old-Holds :
      (ways : List (Entry T)) (w : ℕ) (x : Entry T)
      → RowHolds ways
      → P x.payload
      → (get_or ways w x).valid ≡ true
      → P (get_or ways w x).payload
  old-Holds [] w x h hx val = hx
  old-Holds (y ∷ ways) zero x h hx val = h 0 y refl val
  old-Holds (y ∷ ways) (suc w) x h hx val = old-Holds ways w x (λ v e g. h (suc v) e g) hx val

  pub modify-Holds :
      (c : SetAssociativeCache T) (key : ℕ) (f : T → T)
      → Holds c
      → ((d : T) → P d → P (f d))
      → Holds (modify c key f)
  unfolding modify
  modify-Holds c key f h hf = elim (Option-cases (locate c key)) [
    | inl missing ↦ rw (missing, modify) h
    | inr ((w, e), at) ↦
        rw (at, modify) (write-Holds c _ w _ h (λ _. hf e.payload (locate-Holds c key w e h at)))
  ]

  -- `update` succeeds on a key that is present.
  pub update-Holds :
      (c : SetAssociativeCache T) (key : ℕ) (e : Entry T) (d : T)
      → Holds c
      → find c key ≡ some e
      → P d
      → (c' : SetAssociativeCache T) × (update c key d ≡ some c') × Holds c'
  unfolding find update
  update-Holds c key e d h found hd = elim (Option-cases (locate c key)) [
    | inl missing ↦ absurd (nothing (rw missing at found))
    | inr ((w, x), at) ↦ (
      write c (index_of c key) w (fresh c key d),
      rw (at, update) refl,
      write-Holds c _ w _ h (λ _. hd),
    )
  ]
    where
      nothing : ¬ (none ≡ some e)
      nothing q = cc

  pub erase-Holds :
      (c : SetAssociativeCache T) (key : ℕ)
      → Holds c
      → Holds (erase c key).0 × ((e : Entry T) → (erase c key).1 ≡ some e → P e.payload)
  unfolding erase write
  erase-Holds c key h = elim (Option-cases (locate c key)) [
    | inl missing ↦ rw (missing, erase) (h, λ e q. absurd (nothing e q))
    | inr ((w, x), at) ↦
        rw (at, erase)
          (
            rows-Holds c.entries _ _ h (set-RowHolds _ w _ (h (index_of c key)) (λ q. cc)),
            λ e q.
                let same = some-injective (record x { valid = false }) e q in
                rw (← same) (locate-Holds c key w x h at),
          )
  ]
    where
      nothing : (e : Entry T) → ¬ (none ≡ some e)
      nothing e q = cc

  replicate-RowHolds : (n : ℕ) (d : T) → RowHolds (replicate n (blank d))
  replicate-RowHolds zero d w e g val = cc
  replicate-RowHolds (suc n) d zero e g val = absurd (dead (some-injective (blank d) e g))
    where
      dead : ¬ (blank d ≡ e)
      dead q = absurd (off (ap (λ (x : Entry T). x.valid) q ∙ val))
        where
          off : ¬ (false ≡ true)
          off r = cc
  replicate-RowHolds (suc n) d (suc w) e g val = replicate-RowHolds n d w e g val

  pub init-Holds : (d : T) (size num_ways : ℕ) → Holds (init d size num_ways)
  unfolding init
  init-Holds d size num_ways = rows (size / num_ways)
    where
      rows : (n i : ℕ) → RowHolds (get_or (replicate n (replicate num_ways (blank d))) i [])
      rows zero i = λ w e g val. cc
      rows (suc n) zero = replicate-RowHolds num_ways d
      rows (suc n) (suc i) = rows n i

  way_of-entries : (c : SetAssociativeCache T) (i tag : ℕ) → (way_of c i tag).1.entries ≡ c.entries
  unfolding way_of
  way_of-entries c i tag = elim (Option-cases (Assoc.lookup tag (cam c i))) [
    | inl missing ↦ rw (missing, way_of) refl
    | inr (w, at) ↦ rw (at, way_of) refl
  ]

  -- The replacement policies' numbers are not what the table holds.
  pub with_rank-Holds :
      (c : Ranked T) (key : ℕ) (f : ℕ → ℕ) → Holds c.base → Holds (with_rank c key f).base
  unfolding with_rank
  with_rank-Holds c key f h i =
      rw (way_of-entries c.base (key % c.base.num_sets) (key / c.base.num_sets)) (h i)

module _ {ℓ κ ι} {T : Type ℓ} (P : T → Type κ) {S : Type ι} (select_victim : S → ℕ → ℕ × S) where
  -- `insert` under any policy, bounded or not.
  pub insert-Holds :
      (s : S) (c : SetAssociativeCache T) (key : ℕ) (d : T)
      → Holds P c
      → P d
      → Holds P (insert select_victim s c key d).1
        × ((insert select_victim s c key d).2.valid ≡ true
            → P (insert select_victim s c key d).2.payload)
  unfolding insert place
  insert-Holds s c key d h hd = elim (Option-cases (locate c key)) [
    | inr ((w, e), at) ↦
        rw (at, insert) (write-Holds P c _ w _ h (λ _. hd), λ _. locate-Holds P c key w e h at)
    | inl missing ↦
        let w = (victim_way select_victim s (index_of c key) (row c (index_of c key))).0 in
        rw (missing, insert)
          (
            rows-Holds P c.entries _ _ h
                (set-RowHolds P _ w (fresh c key d) (h (index_of c key)) (λ _. hd)),
            old-Holds P _ w (fresh c key d) (h (index_of c key)) hd,
          )
  ]
