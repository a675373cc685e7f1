-- ===== src/SetAssoc/Laws.antt =====
-- The operations of `SetAssociativeCache` keep its invariant, and what `find` returns after each.
use proba_artifact.Prelude.{
  ℕ, true, false, none, some, [], get_elem?, set, ◌≡◌, refl, sym, ◌∙◌, inl, inr, ◌==◌,
  if◌then◌else◌, Option-cases, set-get_or,
}
use mathlib.Core.Option
use proba_artifact.Prelude.Assoc
use proba_artifact.Prelude.Assoc.{lookup-erase}
use proba_artifact.SetAssoc.{
  Entry, SetAssociativeCache, index_of, tag_of, row, cam, locate, find, invalidate, erase, write,
}
use proba_artifact.SetAssoc.Row.{find_in-eq-some, find_in-none, find_in-tag}
use proba_artifact.SetAssoc.RowFind.{
  rewrite-IsCoherent, erase_absent-IsCoherent, invalidate-IsCoherent, find_in-rewrite,
  find_in-invalidate, find_in-erase_absent,
}
use proba_artifact.SetAssoc.Valid.{
  IsValid, index_of-lt, key-eq, put, put-IsValid, set-RowIsValid, write-put, locate-put_if,
}

module _ {ℓ} {T : Type ℓ} where
  -- Where `find` has an entry, the set's data at it.
  pub locate-facts :
      (c : SetAssociativeCache T) (key way : ℕ) (e : Entry T)
      → IsValid c
      → locate c key ≡ some (way, e)
      → (get_elem? (row c (index_of c key)) way ≡ some e)
        × (e.valid ≡ true)
        × (e.tag ≡ tag_of c key)
        × (e.index ≡ index_of c key)
        × (e.key ≡ key)
        × (Assoc.lookup (tag_of c key) (cam c (index_of c key)) ≡ some way)
  unfolding locate
  locate-facts c key way e v h =
      let r = v.rows (index_of c key) (index_of-lt c key v) in
      let (l, g, val) = find_in-eq-some _ _ (tag_of c key) way e h in
      let t = find_in-tag r.coherent (tag_of c key) way e h in
      let (i, k, q) = r.keyed way e g val in
      (g, val, t, i, key-eq c e.key ∙ rw (k, ← q, t) (sym (key-eq c key)), l)

  -- A write through the pointer that `find` returned, of an entry that keeps all but the payload.
  pub rewrite-IsValid :
      (c : SetAssociativeCache T) (key way : ℕ) (e : Entry T) (d : T)
      → IsValid c
      → locate c key ≡ some (way, e)
      → IsValid (write c (index_of c key) way (record e { payload = d }))
  rewrite-IsValid c key way e d v h =
      let r = v.rows (index_of c key) (index_of-lt c key v) in
      let (g, val, t, i, k, l) = locate-facts c key way e v h in
      rw (write-put c) (
        put-IsValid c (index_of c key) _ _ v (
          set-RowIsValid _ _ _ way _ _ _ (record e { payload = d }) r
            (rewrite-IsCoherent r.coherent way e (record e { payload = d }) g refl refl)
            (λ _. r.keyed way e g val)))

  pub locate-rewrite :
      (c : SetAssociativeCache T) (key way key' : ℕ) (e : Entry T) (d : T)
      → IsValid c
      → locate c key ≡ some (way, e)
      → locate (write c (index_of c key) way (record e { payload = d })) key'
        ≡ (if key == key' then some (way, record e { payload = d }) else locate c key')
  locate-rewrite c key way key' e d v h =
      let r = v.rows (index_of c key) (index_of-lt c key v) in
      let (g, val, t, i, k, l) = locate-facts c key way e v h in
      rw (write-put c) (
        locate-put_if c key key' _ _ (some (way, record e { payload = d })) v
          (λ tag'. find_in-rewrite r.coherent (tag_of c key) way tag' _ l val))

  -- `erase` replaces one set.
  erase-miss :
      (c : SetAssociativeCache T) (key : ℕ)
      → locate c key ≡ none
      → (erase c key).0
        ≡ put c
            (index_of c key)
            (row c (index_of c key))
            (Assoc.erase (tag_of c key) (cam c (index_of c key)))
  unfolding erase
  erase-miss c key miss = rw (miss, erase, set-get_or c.entries (index_of c key) [])

  erase-hit :
      (c : SetAssociativeCache T) (key way : ℕ) (e : Entry T)
      → locate c key ≡ some (way, e)
      → (erase c key).0
        ≡ put c
            (index_of c key)
            (set (row c (index_of c key)) way (record e { valid = false }))
            (Assoc.erase (tag_of c key) (cam c (index_of c key)))
  unfolding erase write
  erase-hit c key way e hit = rw (hit, erase)

  pub erase_absent :
      (c : SetAssociativeCache T) (key : ℕ)
      → IsValid c
      → locate c key ≡ none
      → Assoc.lookup (tag_of c key) (cam c (index_of c key)) ≡ none
  unfolding locate
  erase_absent c key v h =
      find_in-none (v.rows (index_of c key) (index_of-lt c key v)).coherent (tag_of c key) h

  -- `erase` keeps the invariant.
  pub erase-IsValid : (c : SetAssociativeCache T) (key : ℕ) → IsValid c → IsValid (erase c key).0
  erase-IsValid c key v =
      let r = v.rows (index_of c key) (index_of-lt c key v) in
      elim (Option-cases (locate c key)) [
        | inl miss ↦ rw (erase-miss c key miss) (
            put-IsValid c (index_of c key) _ _ v (record {
              coherent =
                  erase_absent-IsCoherent r.coherent (tag_of c key) (erase_absent c key v miss);
              sized = r.sized;
              keyed = r.keyed;
            }))
        | inr ((way, e), hit) ↦
            let (g, val, t, i, k, l) = locate-facts c key way e v hit in
            rw (erase-hit c key way e hit) (
              put-IsValid c (index_of c key) _ _ v (
                set-RowIsValid _ _ _ way _ _ _ (record e { valid = false }) r
                  (invalidate-IsCoherent r.coherent (tag_of c key) way (record e { valid = false })
                    l refl)
                  (λ h. cc)))
      ]

  -- After erase of a key from a valid table that key is not found, and every other key is found
  -- at its way as before.
  pub locate-erase :
      (c : SetAssociativeCache T) (key key' : ℕ)
      → IsValid c
      → locate (erase c key).0 key' ≡ (if key == key' then none else locate c key')
  locate-erase c key key' v =
      let r = v.rows (index_of c key) (index_of-lt c key v) in
      elim (Option-cases (locate c key)) [
        | inl miss ↦ rw (erase-miss c key miss) (
            locate-put_if c key key' _ _ none v
              (λ tag'. find_in-erase_absent _ _ (tag_of c key) tag' (erase_absent c key v miss)))
        | inr ((way, e), hit) ↦
            let (g, val, t, i, k, l) = locate-facts c key way e v hit in
            rw (erase-hit c key way e hit) (
              locate-put_if c key key' _ _ none v
                (λ tag'. find_in-invalidate r.coherent (tag_of c key) way tag' _ l))
      ]

  -- The pointer that `erase` returns shows the entry that `find` had, invalidated.
  pub erased-find :
      (c : SetAssociativeCache T) (key : ℕ) → (erase c key).1 ≡ Option.map invalidate (find c key)
  unfolding erase find invalidate
  erased-find c key = elim (Option-cases (locate c key)) [
    | inl miss ↦ rw (miss, erase, find)
    | inr ((way, e), hit) ↦ rw (hit, erase, find)
  ]
