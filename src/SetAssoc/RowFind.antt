-- ===== src/SetAssoc/RowFind.antt =====
-- One set of a `SetAssociativeCache`: invalidating and rewriting a way, and what `find` sees after
-- each operation.
use proba_artifact.Prelude.{
  ℕ, ◌<◌, true, false, none, some, List, get_elem?, get_or, set, length, ◌≡◌, ◌≢◌, inl, inr, ◌==◌,
  ◌&&◌, if◌then◌else◌, arith, Option-cases, ℕ-cases, get_elem?-set_self, get_elem?-set_ne,
  lt-of-get_elem?, get_or-eq-of-get_elem?,
}
use proba_artifact.Prelude.Assoc
use proba_artifact.Prelude.Assoc.{lookup-insert, lookup-erase}
use proba_artifact.SetAssoc.{Entry, Cam, find_in, place}
use proba_artifact.SetAssoc.Row.{IsCoherent, find_in_of, lookup-place}

module _ {ℓ} {T : Type ℓ} {ways : List (Entry T)} {cam : Cam} (c : IsCoherent ways cam) where
  -- A write through a pointer that keeps the tag and the valid bit.
  rewrite-mapped :
      (way : ℕ) (e x : Entry T)
      → get_elem? ways way ≡ some e
      → x.tag ≡ e.tag
      → x.valid ≡ e.valid
      → (tag w : ℕ) → Assoc.lookup tag cam ≡ some w
      → (y : Entry T) × (get_elem? (set ways way x) w ≡ some y) × (y.valid ≡ true) × (y.tag ≡ tag)
  rewrite-mapped way e x g t v tag w h =
      let (y, gy, vy, ty) = c.mapped tag w h in
      elim (ℕ-cases way w) [
        | inl here ↦ (
          x,
          ground (arith, get_elem?-set_self ways way x (lt-of-get_elem? ways way g)),
          ground arith,
          ground arith,
        )
        | inr there ↦ (y, rw (get_elem?-set_ne ways way w x there) gy, vy, ty)
      ]

  rewrite-listed :
      (way : ℕ) (e x : Entry T)
      → get_elem? ways way ≡ some e
      → x.tag ≡ e.tag
      → x.valid ≡ e.valid
      → (w : ℕ) (y : Entry T) → get_elem? (set ways way x) w ≡ some y
      → y.valid ≡ true
      → Assoc.lookup y.tag cam ≡ some w
  rewrite-listed way e x g t v w y gy vy = elim (ℕ-cases way w) [
    | inl here ↦
        ground (arith, get_elem?-set_self ways way x (lt-of-get_elem? ways way g), c.listed way e g)
    | inr there ↦ c.listed w y (rw (get_elem?-set_ne ways way w x there) at gy) vy
  ]

  pub rewrite-IsCoherent :
      (way : ℕ) (e x : Entry T)
      → get_elem? ways way ≡ some e
      → x.tag ≡ e.tag
      → x.valid ≡ e.valid
      → IsCoherent (set ways way x) cam
  rewrite-IsCoherent way e x g t v = record {
    mapped = rewrite-mapped way e x g t v;
    listed = rewrite-listed way e x g t v;
  }

  -- Erasing a tag that is not there.
  pub erase_absent-IsCoherent :
      (tag : ℕ) → Assoc.lookup tag cam ≡ none → IsCoherent ways (Assoc.erase tag cam)
  erase_absent-IsCoherent tag h = record {
    mapped = λ t w l. c.mapped t w (ground (arith, lookup-erase tag t cam));
    listed = λ w e g v. ground (arith, lookup-erase tag e.tag cam, c.listed w e g v);
  }

  -- Invalidating the way of a tag, and erasing the tag.
  invalidate-mapped :
      (tag way : ℕ) (x : Entry T)
      → Assoc.lookup tag cam ≡ some way
      → (t w : ℕ) → Assoc.lookup t (Assoc.erase tag cam) ≡ some w
      → (y : Entry T) × (get_elem? (set ways way x) w ≡ some y) × (y.valid ≡ true) × (y.tag ≡ t)
  invalidate-mapped tag way x l t w h =
      let (z, gz, vz, tz) = c.mapped tag way l in
      let h' : Assoc.lookup t cam ≡ some w = ground (arith, lookup-erase tag t cam) in
      let (y, gy, vy, ty) = c.mapped t w h' in
      let there : way ≢ w = ground (arith, lookup-erase tag t cam) in
      (y, rw (get_elem?-set_ne ways way w x there) gy, vy, ty)

  invalidate-listed :
      (tag way : ℕ) (x : Entry T)
      → Assoc.lookup tag cam ≡ some way
      → x.valid ≡ false
      → (w : ℕ) (y : Entry T) → get_elem? (set ways way x) w ≡ some y
      → y.valid ≡ true
      → Assoc.lookup y.tag (Assoc.erase tag cam) ≡ some w
  invalidate-listed tag way x l v w y gy vy =
      let (z, gz, vz, tz) = c.mapped tag way l in
      elim (ℕ-cases way w) [
        | inl here ↦ ground (arith, get_elem?-set_self ways way x (lt-of-get_elem? ways way gz))
        | inr there ↦
            let gy' : get_elem? ways w ≡ some y = rw (get_elem?-set_ne ways way w x there) at gy in
            let ly : Assoc.lookup y.tag cam ≡ some w = c.listed w y gy' vy in
            ground (arith, lookup-erase tag y.tag cam)
      ]

  pub invalidate-IsCoherent :
      (tag way : ℕ) (x : Entry T)
      → Assoc.lookup tag cam ≡ some way
      → x.valid ≡ false
      → IsCoherent (set ways way x) (Assoc.erase tag cam)
  invalidate-IsCoherent tag way x l v = record {
    mapped = invalidate-mapped tag way x l;
    listed = invalidate-listed tag way x l v;
  }

  -- `find` after `place`: the new tag is found, the overwritten one is lost, all else is as before.
  pub find_in-place_self :
      (way : ℕ) (e : Entry T)
      → way < length ways
      → e.valid ≡ true
      → find_in (place ways cam way e).0 (place ways cam way e).1 e.tag ≡ some (way, e)
  unfolding place
  find_in-place_self way e lt v =
      find_in_of _ _ e.tag way e (ground (arith, lookup-place ways cam way e.tag e))
        (get_elem?-set_self ways way e lt) v

  pub find_in-place_ne :
      (way tag : ℕ) (e : Entry T)
      → way < length ways
      → tag ≢ e.tag
      → find_in (place ways cam way e).0 (place ways cam way e).1 tag ≡ (
          if (get_or ways way e).valid && (get_or ways way e).tag == tag
          then none
          else find_in ways cam tag)
  unfolding place find_in
  find_in-place_ne way tag e lt ne = elim (Option-cases (Assoc.lookup tag cam)) [
    | inl miss ↦ ground (arith, lookup-place ways cam way tag e)
    | inr (w, hit) ↦
        let (y, gy, vy, ty) = c.mapped tag w hit in
        elim (ℕ-cases way w) [
          | inl here ↦
              ground
                (arith, lookup-place ways cam way tag e, get_or-eq-of-get_elem? ways way e {a = y})
          | inr there ↦
              let g' : get_elem? (set ways way e) w ≡ some y =
                rw (get_elem?-set_ne ways way w e there) gy in
              ground (arith, lookup-place ways cam way tag e)
        ]
  ]

  -- `find` after a write through the pointer of a tag, after the invalidation of that pointer's
  -- entry, and after the erasure of a tag that is not there.
  pub find_in-rewrite :
      (tag way tag' : ℕ) (x : Entry T)
      → Assoc.lookup tag cam ≡ some way
      → x.valid ≡ true
      → find_in (set ways way x) cam tag'
        ≡ (if tag == tag' then some (way, x) else find_in ways cam tag')
  unfolding find_in
  find_in-rewrite tag way tag' x l v =
      let (e, g, ve, te) = c.mapped tag way l in
      elim (ℕ-cases tag tag') [
        | inl here ↦ ground (arith, get_elem?-set_self ways way x (lt-of-get_elem? ways way g))
        | inr there ↦ elim (Option-cases (Assoc.lookup tag' cam)) [
          | inl miss ↦ ground arith
          | inr (w, hit) ↦
              let (y, gy, vy, ty) = c.mapped tag' w hit in
              let apart : way ≢ w = ground arith in
              ground (arith, get_elem?-set_ne ways way w x apart)
        ]
      ]

  pub find_in-invalidate :
      (tag way tag' : ℕ) (x : Entry T)
      → Assoc.lookup tag cam ≡ some way
      → find_in (set ways way x) (Assoc.erase tag cam) tag'
        ≡ (if tag == tag' then none else find_in ways cam tag')
  unfolding find_in
  find_in-invalidate tag way tag' x l =
      let (e, g, ve, te) = c.mapped tag way l in
      elim (ℕ-cases tag tag') [
        | inl here ↦ ground (arith, lookup-erase tag tag' cam)
        | inr there ↦ elim (Option-cases (Assoc.lookup tag' cam)) [
          | inl miss ↦ ground (arith, lookup-erase tag tag' cam)
          | inr (w, hit) ↦
              let (y, gy, vy, ty) = c.mapped tag' w hit in
              let apart : way ≢ w = ground arith in
              ground (arith, lookup-erase tag tag' cam, get_elem?-set_ne ways way w x apart)
        ]
      ]

module _ {ℓ} {T : Type ℓ} where
  pub find_in-erase_absent :
      (ways : List (Entry T)) (cam : Cam) (tag tag' : ℕ)
      → Assoc.lookup tag cam ≡ none
      → find_in ways (Assoc.erase tag cam) tag'
        ≡ (if tag == tag' then none else find_in ways cam tag')
  unfolding find_in
  find_in-erase_absent ways cam tag tag' h = ground (arith, lookup-erase tag tag' cam)
