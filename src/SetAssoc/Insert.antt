-- ===== src/SetAssoc/Insert.antt =====
-- `SetAssociativeCache::insert` under any replacement policy that chooses a way of the set.
pub mod Evict
use proba_artifact.Prelude.{
  ℕ, zero, suc, ◌≤◌, ◌<◌, ◌+◌, ◌*◌, ◌/◌, ◌%◌, ◌^◌, Bool, true, false, Option, none, some, List, [],
  ◌∷◌, get_elem?, get_or, set, length, ◌≡◌, refl, sym, ap, subst, ◌∙◌, ◌≢◌, ◌⊎◌, inl, inr, ◌==◌,
  ◌&&◌, if◌then◌else◌, arith, Bool-cases, Option-cases, ℕ-cases, get_elem?-set_self,
  get_elem?-set_ne, lt-of-get_elem?, length-set, get_or-set_self, get_or-set_ne, set-get_or,
  get_elem?_of_lt, get_or-eq-of-get_elem?, eq→==, ne→==-false,
}
use mathlib.Core.Option
use proba_artifact.Prelude.Assoc
use proba_artifact.Prelude.Assoc.{lookup-erase}
use proba_artifact.SetAssoc.{
  Entry, Cam, SetAssociativeCache, index_of, tag_of, row, cam, find_in, locate, find, snd_of, fresh,
  invalidate, place, first_invalid, victim_way, insert, erase, update, modify, write,
}
use proba_artifact.SetAssoc.Row.{
  IsCoherent, find_in-eq-some, find_in_of, find_in-none, find_in-tag, place-IsCoherent,
}
use proba_artifact.SetAssoc.RowFind.{
  rewrite-IsCoherent, erase_absent-IsCoherent, invalidate-IsCoherent, find_in-place_self,
  find_in-place_ne, find_in-rewrite, find_in-invalidate, find_in-erase_absent,
}
use proba_artifact.SetAssoc.Valid.{
  RowIsValid, IsValid, index_of-lt, key-eq, put, put-IsValid, set-RowIsValid, write-put, locate-put,
  locate-put_if, key-test, tag_of-ne,
}
use proba_artifact.SetAssoc.Laws.{locate-facts, rewrite-IsValid, locate-rewrite, erase_absent}

module _ {ℓ} {T : Type ℓ} where
  first_invalid-lt :
      (i : ℕ) (ways : List (Entry T)) {w : ℕ} → first_invalid i ways ≡ some w → w < i + length ways
  unfolding first_invalid
  first_invalid-lt i [] h = cc
  first_invalid-lt i (e ∷ ways) {w} h = ground (arith, first_invalid-lt (suc i) ways {w = w})

module _ {ℓ κ} {T : Type ℓ} {S : Type κ} (select_victim : S → ℕ → ℕ × S) where
  -- The way that `insert` overwrites is one of the set, if the policy chooses one of the set.
  victim_way-lt :
      (s : S) (i n : ℕ) (ways : List (Entry T))
      → length ways ≡ n
      → (select_victim s i).0 < n
      → (victim_way select_victim s i ways).0 < length ways
  unfolding victim_way
  victim_way-lt s i n ways e h = elim (Option-cases (first_invalid 0 ways)) [
    | inl full ↦ rw (full, victim_way) (omega arith)
    | inr (w, free) ↦ rw (free, victim_way) (omega (arith, first_invalid-lt 0 ways free))
  ]

  -- What `insert` does on a hit and on a miss.
  insert-hit :
      (s : S) (c : SetAssociativeCache T) (key way : ℕ) (d : T) (e : Entry T)
      → locate c key ≡ some (way, e)
      → insert select_victim s c key d
        ≡ (s, write c (index_of c key) way (record e { payload = d }), e)
  unfolding insert
  insert-hit s c key way d e hit = rw (hit, insert)

  chosen : S → SetAssociativeCache T → ℕ → ℕ × S
  chosen s c key = victim_way select_victim s (index_of c key) (row c (index_of c key))

  placed : S → SetAssociativeCache T → ℕ → T → List (Entry T) × Cam × Entry T
  placed s c key d =
      place (row c (index_of c key)) (cam c (index_of c key)) (chosen s c key).0 (fresh c key d)

  insert-miss :
      (s : S) (c : SetAssociativeCache T) (key : ℕ) (d : T)
      → locate c key ≡ none
      → insert select_victim s c key d ≡ (
        (chosen s c key).1,
        put c (index_of c key) (placed s c key d).0 (placed s c key d).1,
        (placed s c key d).2,
      )
  unfolding insert chosen placed
  insert-miss s c key d miss = rw (miss, insert)

  -- `insert` changes neither the number of sets nor that of ways.
  pub insert-shape :
      (s : S) (c : SetAssociativeCache T) (key : ℕ) (d : T)
      → ((insert select_victim s c key d).1.num_sets ≡ c.num_sets)
        × ((insert select_victim s c key d).1.num_ways ≡ c.num_ways)
        × ((insert select_victim s c key d).1.index_len ≡ c.index_len)
  unfolding write
  insert-shape s c key d = elim (Option-cases (locate c key)) [
    | inr ((way, e), hit) ↦ rw (insert-hit s c key way d e hit) (refl, refl, refl)
    | inl miss ↦ rw (insert-miss s c key d miss) (refl, refl, refl)
  ]

  module _ (s : S) (c : SetAssociativeCache T) (key : ℕ) (d : T) (v : IsValid c)
      (bounded : (select_victim s (index_of c key)).0 < c.num_ways) where
    chosen-lt : (chosen s c key).0 < length (row c (index_of c key))
    unfolding chosen
    chosen-lt =
        let r = v.rows (index_of c key) (index_of-lt c key v) in
        victim_way-lt s (index_of c key) c.num_ways _ r.sized bounded

    placed-RowIsValid :
        locate c key ≡ none
        → RowIsValid c.num_ways c.index_len
            (index_of c key)
            (placed s c key d).0
            (placed s c key d).1
    unfolding placed place
    placed-RowIsValid miss =
        let r = v.rows (index_of c key) (index_of-lt c key v) in
        set-RowIsValid _ _ _ (chosen s c key).0 _ _ _ (fresh c key d) r
          (place-IsCoherent r.coherent (chosen s c key).0 (fresh c key d) chosen-lt refl
            (erase_absent c key v miss))
          (λ _. (refl, refl, refl))

    -- insert keeps a table valid under any policy that chooses a way of the set: the cam of each
    -- set agrees with its ways, and each valid entry stands in the set of its key.
    pub insert-IsValid : IsValid (insert select_victim s c key d).1
    insert-IsValid = elim (Option-cases (locate c key)) [
      | inr ((way, e), hit) ↦
          rw (insert-hit s c key way d e hit) (rewrite-IsValid c key way e d v hit)
      | inl miss ↦
          rw (insert-miss s c key d miss)
            (put-IsValid c (index_of c key) _ _ v (placed-RowIsValid miss))
    ]

    -- The overwritten entry, if it was valid, stood in the set of its key.
    victim-key :
        (placed s c key d).2.valid ≡ true
        → (index_of c (placed s c key d).2.key ≡ index_of c key)
          × ((placed s c key d).2.tag ≡ tag_of c (placed s c key d).2.key)
    unfolding placed place
    victim-key val =
        let r = v.rows (index_of c key) (index_of-lt c key v) in
        let (y, g) = get_elem?_of_lt (row c (index_of c key)) (chosen s c key).0 chosen-lt in
        let same = get_or-eq-of-get_elem? _ (chosen s c key).0 (fresh c key d) g in
        rw same (let (i, k, q) = r.keyed (chosen s c key).0 y g (rw same at val) in (k, q))

    victim-test :
        (key' : ℕ)
        → ((placed s c key d).2.valid && (placed s c key d).2.key == key') ≡ (
            if index_of c key == index_of c key'
            then (placed s c key d).2.valid && (placed s c key d).2.tag == tag_of c key'
            else false)
    victim-test key' = elim (Bool-cases (placed s c key d).2.valid) [
      | inr dead ↦ rw dead (both (index_of c key == index_of c key'))
      | inl live ↦
          let (i, t) = victim-key live in rw (live, key-test c (placed s c key d).2.key key', i, t)
    ]
      where
        both : (b : Bool) → false ≡ (if b then false else false)
        both true = refl
        both false = refl

    find_in-placed :
        (key' : ℕ)
        → locate c key ≡ none
        → key ≢ key'
        → index_of c key ≡ index_of c key'
        → find_in (placed s c key d).0 (placed s c key d).1 (tag_of c key') ≡ (
            if (placed s c key d).2.valid && (placed s c key d).2.tag == tag_of c key'
            then none
            else locate c key')
    unfolding placed place locate
    find_in-placed key' miss ne here =
        let r = v.rows (index_of c key) (index_of-lt c key v) in
        rw (← here) (
          find_in-place_ne r.coherent (chosen s c key).0 (tag_of c key') (fresh c key d) chosen-lt
            (λ e. tag_of-ne c key key' here ne (sym e)))

    locate-placed :
        (key' : ℕ)
        → locate c key ≡ none
        → key ≢ key'
        → locate (put c (index_of c key) (placed s c key d).0 (placed s c key d).1) key' ≡ (
            if (placed s c key d).2.valid && (placed s c key d).2.key == key'
            then none
            else locate c key')
    locate-placed key' miss ne =
        locate-put c (index_of c key) _ _ key' v (index_of-lt c key v)
        ∙ rw (victim-test key') (elim (ℕ-cases (index_of c key) (index_of c key')) [
          | inr apart ↦ rw (ne→==-false _ _ apart)
          | inl here ↦ rw (eq→== _ _ here) (find_in-placed key' miss ne here)
        ])

    locate-placed_self :
        locate (put c (index_of c key) (placed s c key d).0 (placed s c key d).1) key
        ≡ some ((chosen s c key).0, fresh c key d)
    locate-placed_self =
        locate-put c (index_of c key) _ _ key v (index_of-lt c key v)
        ∙ rw (eq→== (index_of c key) (index_of c key) refl) found
      where
        found :
            find_in (placed s c key d).0 (placed s c key d).1 (tag_of c key)
            ≡ some ((chosen s c key).0, fresh c key d)
        found =
            let r = v.rows (index_of c key) (index_of-lt c key v) in
            unfold placed in
            find_in-place_self r.coherent (chosen s c key).0 (fresh c key d) chosen-lt refl

    find-insert_hit :
        (key' way : ℕ) (e : Entry T)
        → locate c key ≡ some (way, e)
        → find (write c (index_of c key) way (record e { payload = d })) key' ≡ (
            if key == key'
            then some (fresh c key d)
            else if e.valid && e.key == key'
            then none
            else find c key')
    unfolding find
    find-insert_hit key' way e hit =
        let (g, val, t, i, k, l) = locate-facts c key way e v hit in
        rw (locate-rewrite c key way key' e d v hit) (elim (ℕ-cases key key') [
          | inl same ↦
              rw (eq→== _ _ same) (λ x.
                some (record { key = k x; index = i x; tag = t x; valid = val x; payload = d }))
          | inr ne ↦ rw (ne→==-false _ _ ne, k, ne→==-false _ _ ne, val)
        ])

    find-insert_miss :
        (key' : ℕ)
        → locate c key ≡ none
        → find (put c (index_of c key) (placed s c key d).0 (placed s c key d).1) key' ≡ (
            if key == key'
            then some (fresh c key d)
            else if (placed s c key d).2.valid && (placed s c key d).2.key == key'
            then none
            else find c key')
    unfolding find
    find-insert_miss key' miss = elim (ℕ-cases key key') [
      | inl same ↦ rw (← same, locate-placed_self, eq→== key key refl)
      | inr ne ↦
          rw (ne→==-false _ _ ne, locate-placed key' miss ne)
            (snd_of-if ((placed s c key d).2.valid && (placed s c key d).2.key == key'))
    ]
      where
        snd_of-if :
            (b : Bool)
            → snd_of (if b then none else locate c key')
              ≡ (if b then none else snd_of (locate c key'))
        snd_of-if true = refl
        snd_of-if false = refl

    -- After insert into a valid table, under any policy that chooses a way of the set, the key
    -- is found with its data, the key of the returned entry, if that was valid, is lost, and
    -- every other key is found as before.
    pub find-insert :
        (key' : ℕ)
        → find (insert select_victim s c key d).1 key' ≡ (
            if key == key'
            then some (fresh c key d)
            else if (insert select_victim s c key d).2.valid
                && (insert select_victim s c key d).2.key == key'
            then none
            else find c key')
    find-insert key' = elim (Option-cases (locate c key)) [
      | inr ((way, e), hit) ↦ rw (insert-hit s c key way d e hit) (find-insert_hit key' way e hit)
      | inl miss ↦ rw (insert-miss s c key d miss) (find-insert_miss key' miss)
    ]
