-- ===== src/SetAssoc/Row.antt =====
-- One set of a `SetAssociativeCache`: its ways and its cam agree, and the operations keep it so.
use proba_artifact.Prelude.{
  ℕ, ◌<◌, true, none, some, List, get_elem?, get_or, length, ◌≡◌, inl, inr, ◌==◌, ◌&&◌,
  if◌then◌else◌, arith, Option-cases, ℕ-cases, get_elem?-set_self, get_elem?-set_ne,
  get_elem?_of_lt, get_or-eq-of-get_elem?,
}
use proba_artifact.Prelude.Assoc
use proba_artifact.Prelude.Assoc.{lookup-insert, lookup-erase}
use proba_artifact.SetAssoc.{Entry, Cam, find_in, place}

module _ {ℓ} {T : Type ℓ} where
  -- The cam maps a tag to a way exactly where the way holds a valid entry with that tag.
  pub record IsCoherent (ways : List (Entry T)) (cam : Cam) : Type ℓ where
    pub mapped :
        (tag way : ℕ)
        → Assoc.lookup tag cam ≡ some way
        → (e : Entry T) × (get_elem? ways way ≡ some e) × (e.valid ≡ true) × (e.tag ≡ tag)
    pub listed :
        (way : ℕ) (e : Entry T)
        → get_elem? ways way ≡ some e
        → e.valid ≡ true
        → Assoc.lookup e.tag cam ≡ some way

  pub find_in-eq-some :
      (ways : List (Entry T)) (cam : Cam) (tag way : ℕ) (e : Entry T)
      → find_in ways cam tag ≡ some (way, e)
      → (Assoc.lookup tag cam ≡ some way) × (get_elem? ways way ≡ some e) × (e.valid ≡ true)
  unfolding find_in
  find_in-eq-some ways cam tag way e h = ground arith

  pub find_in_of :
      (ways : List (Entry T)) (cam : Cam) (tag way : ℕ) (e : Entry T)
      → Assoc.lookup tag cam ≡ some way
      → get_elem? ways way ≡ some e
      → e.valid ≡ true
      → find_in ways cam tag ≡ some (way, e)
  unfolding find_in
  find_in_of ways cam tag way e l g v = ground arith

  -- What the cam says after a way was overwritten.
  pub lookup-place :
      (ways : List (Entry T)) (cam : Cam) (way tag : ℕ) (e : Entry T)
      → Assoc.lookup tag (place ways cam way e).1 ≡ (
          if e.tag == tag
          then some way
          else if (get_or ways way e).valid && (get_or ways way e).tag == tag
          then none
          else Assoc.lookup tag cam)
  unfolding place
  lookup-place ways cam way tag e = ground (
    arith,
    lookup-insert e.tag tag way
        (if (get_or ways way e).valid then Assoc.erase (get_or ways way e).tag cam else cam),
    lookup-erase (get_or ways way e).tag tag cam,
  )

  module _ {ways : List (Entry T)} {cam : Cam} (c : IsCoherent ways cam) where
    -- Where the cam has no way for a tag, `find` has no entry, and the other way round.
    pub find_in-none : (tag : ℕ) → find_in ways cam tag ≡ none → Assoc.lookup tag cam ≡ none
    find_in-none tag h = elim (Option-cases (Assoc.lookup tag cam)) [
      | inl e ↦ e
      | inr (way, e) ↦
          let (x, g, v, _) = c.mapped tag way e in cc (find_in_of ways cam tag way x e g v)
    ]

    pub find_in-tag :
        (tag way : ℕ) (e : Entry T) → find_in ways cam tag ≡ some (way, e) → e.tag ≡ tag
    find_in-tag tag way e h =
        let (l, g, v) = find_in-eq-some ways cam tag way e h in
        let (x, g', v', t) = c.mapped tag way l in ground arith

    place-mapped :
        (way : ℕ) (e : Entry T)
        → way < length ways
        → e.valid ≡ true
        → (tag w : ℕ) → Assoc.lookup tag (place ways cam way e).1 ≡ some w
        → (x : Entry T) × (get_elem? (place ways cam way e).0 w ≡ some x)
          × (x.valid ≡ true)
          × (x.tag ≡ tag)
    unfolding place
    place-mapped way e lt ev tag w h = elim (ℕ-cases e.tag tag) [
      | inl same ↦ (
        e,
        ground (arith, lookup-place ways cam way tag e, get_elem?-set_self ways way e lt),
        ev,
        same,
      )
      | inr other ↦
          let kept : Assoc.lookup tag cam ≡ some w =
            ground (arith, lookup-place ways cam way tag e) in
          let (x, g, v, t) = c.mapped tag w kept in
          (
            x,
            elim (ℕ-cases way w) [
              | inl here ↦ absurd (
                  ground (
                    arith,
                    lookup-place ways cam way tag e,
                    get_or-eq-of-get_elem? ways way e {a = x},
                  ))
              | inr there ↦ rw (get_elem?-set_ne ways way w e there) g
            ],
            v,
            t,
          )
    ]

    place-listed :
        (way : ℕ) (e : Entry T)
        → way < length ways
        → Assoc.lookup e.tag cam ≡ none
        → (w : ℕ) (x : Entry T) → get_elem? (place ways cam way e).0 w ≡ some x
        → x.valid ≡ true
        → Assoc.lookup x.tag (place ways cam way e).1 ≡ some w
    unfolding place
    place-listed way e lt absent w x g v = elim (ℕ-cases way w) [
      | inl same ↦
          ground (arith, lookup-place ways cam way x.tag e, get_elem?-set_self ways way e lt)
      | inr other ↦
          let g' : get_elem? ways w ≡ some x = rw (get_elem?-set_ne ways way w e other) at g in
          let l : Assoc.lookup x.tag cam ≡ some w = c.listed w x g' v in
          let (y, old) = get_elem?_of_lt ways way lt in
          ground (
            arith,
            lookup-place ways cam way x.tag e,
            get_or-eq-of-get_elem? ways way e old,
            c.listed way y old,
          )
    ]

    -- Overwriting a way with an entry of a new tag keeps the set coherent.
    pub place-IsCoherent :
        (way : ℕ) (e : Entry T)
        → way < length ways
        → e.valid ≡ true
        → Assoc.lookup e.tag cam ≡ none
        → IsCoherent (place ways cam way e).0 (place ways cam way e).1
    unfolding place
    place-IsCoherent way e lt ev absent = record {
      mapped = λ tag w h. place-mapped way e lt ev tag w h;
      listed = λ w x g v. place-listed way e lt absent w x g v;
    }
