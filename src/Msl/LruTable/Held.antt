-- ===== src/Msl/LruTable/Held.antt =====
-- What a valid table holds after `fill` and `check_hit`.
use native.Mathlib.Nat.{mod-lt, mod-eq_of_lt, mul-le-mul, one-le-pow}
use mathlib.Core.Option.{some_inj}
use proba_artifact.Prelude.{
  ℕ, suc, ◌+◌, ◌*◌, ◌%◌, ◌^◌, ◌<◌, ◌≤◌, ◌≡◌, ◌≢◌, refl, sym, ◌∙◌, ap, subst, inl, inr, Option, none,
  some, length, set, drop, length-set, lt-of-get_elem?, length-take, length-drop, Option-cases,
  ℕ-cases, arith,
}
use proba_artifact.Prelude.Rows.{row, row-set_self, row-set_ne}
use proba_artifact.Msl.Bits.{lg2}
use proba_artifact.Msl.LruTable.{
  Block, LruTable, set_idx, span, write, next_access, find_if, fill_way, check_hit, fill,
}
use proba_artifact.Msl.LruTable.Row.{fill_way-lt-length, find_if-found, find_if-at}
use proba_artifact.Msl.LruTable.Laws.{
  IsUnique, set-IsUnique, filled-IsOnly, filled-IsUnique, is_match-used,
}

module _ {ℓ} {T : Type ℓ} (index tag : T → ℕ) where
  pub record IsValid (t : LruTable T) : Type ℓ where
    pub sized : length t.block ≡ t.num_set * t.num_way
    pub power : t.num_set ≡ 2 ^ lg2 t.num_set
    pub ways : 0 < t.num_way
    pub unique : (s : ℕ) → IsUnique tag (row t.num_way s t.block)

  set_idx-lt : (t : LruTable T) (elem : T) → IsValid t → set_idx index t elem < t.num_set
  unfolding set_idx
  set_idx-lt t elem v =
      omega (arith, v.power, mod-lt (index elem) (one-le-pow (lg2 t.num_set) 2 (omega arith)))

  length-span : (t : LruTable T) (elem : T) → IsValid t → length (span index t elem) ≡ t.num_way
  unfolding span
  length-span t elem v =
      let s = set_idx index t elem in
      let rows =
        mul-le-mul {n₁ = suc s} {m₁ = t.num_way} {n₂ = t.num_set} {m₂ = t.num_way}
          (set_idx-lt t elem v) (omega arith) in
      grind (
        arith,
        v.sized,
        length-take t.num_way (drop (s * t.num_way) t.block),
        length-drop (s * t.num_way) t.block,
      )

  -- A write to a set, seen in it and in the others.
  module _ (t : LruTable T) (elem : T) (way used : ℕ) (c : T) where
    span-write_self :
        (wanted : T)
        → set_idx index t wanted ≡ set_idx index t elem
        → span index (write index elem way used c t) wanted
          ≡ set (span index t elem) way (record { last_used = used; contents = c })
    unfolding span write set_idx
    span-write_self wanted e =
        ap (λ (s : ℕ). row t.num_way s (write index elem way used c t).block) e
        ∙ row-set_self t.num_way (set_idx index t elem) way t.block _

    row-write_ne :
        (s : ℕ)
        → way < t.num_way
        → set_idx index t elem ≢ s
        → row t.num_way s (write index elem way used c t).block ≡ row t.num_way s t.block
    unfolding write
    row-write_ne s lt apart = row-set_ne t.num_way (set_idx index t elem) s way t.block _ apart lt

    span-write_ne :
        (other : T)
        → way < t.num_way
        → set_idx index t elem ≢ set_idx index t other
        → span index (write index elem way used c t) other ≡ span index t other
    unfolding span write set_idx
    span-write_ne other lt apart = row-write_ne (set_idx index t other) lt apart

    row-write_self :
        row t.num_way (set_idx index t elem) (write index elem way used c t).block
        ≡ set (span index t elem) way (record { last_used = used; contents = c })
    unfolding span write set_idx
    row-write_self = row-set_self t.num_way (set_idx index t elem) way t.block _

    write-IsValid :
        IsValid t
        → way < t.num_way
        → IsUnique tag (set (span index t elem) way (record { last_used = used; contents = c }))
        → IsValid (write index elem way used c t)
    unfolding write
    write-IsValid v lt u = record {
      sized = length-set t.block _ _ ∙ v.sized;
      power = v.power;
      ways = v.ways;
      unique = λ s. elim (ℕ-cases (set_idx index t elem) s) [
        | inl e ↦
            subst (λ (r : ℕ). IsUnique tag (row t.num_way r (write index elem way used c t).block))
              e (subst (IsUnique tag) (sym row-write_self) u)
        | inr apart ↦ subst (IsUnique tag) (sym (row-write_ne s lt apart)) (v.unique s)
      ];
    }

  -- What `check_hit` returns, and how it leaves the table.
  abbrev contents_of : Option (ℕ × Block T) → Option T
  contents_of none = none
  contents_of (some (way, b)) = some b.contents

  check_hit_miss :
      (t : LruTable T) (elem : T)
      → find_if tag (tag elem) (span index t elem) ≡ none
      → check_hit index tag elem t ≡ (none, t)
  unfolding check_hit
  check_hit_miss t elem e = rw (e, check_hit) refl

  pub check_hit_at :
      (t : LruTable T) (elem : T) {way : ℕ} {b : Block T}
      → find_if tag (tag elem) (span index t elem) ≡ some (way, b)
      → check_hit index tag elem t
        ≡ (some b.contents, write index elem way (next_access t) b.contents t)
  unfolding check_hit
  check_hit_at t elem e = rw (e, check_hit) refl

  check_hit-contents :
      (t : LruTable T) (elem : T)
      → (check_hit index tag elem t).0 ≡ contents_of (find_if tag (tag elem) (span index t elem))
  check_hit-contents t elem = elim (Option-cases (find_if tag (tag elem) (span index t elem))) [
    | inl e ↦
        ap (λ (r : Option T × LruTable T). r.0) (check_hit_miss t elem e) ∙ sym (ap contents_of e)
    | inr ((way, b), e) ↦
        ap (λ (r : Option T × LruTable T). r.0) (check_hit_at t elem e) ∙ sym (ap contents_of e)
  ]

  -- A hit has the tag that was searched, and moves the clock by one at most.
  pub check_hit_tag :
      (t : LruTable T) (elem : T) {x : T}
      → (check_hit index tag elem t).0 ≡ some x
      → tag x ≡ tag elem
  check_hit_tag t elem {x} h = elim (Option-cases (find_if tag (tag elem) (span index t elem))) [
    | inl e ↦ absurd (cc (sym h ∙ check_hit-contents t elem ∙ ap contents_of e))
    | inr ((way, b), e) ↦
        let (_, matches) = find_if-at tag (tag elem) (span index t elem) e in
        let (_, same) = is_match-used tag (tag elem) b matches in
        ap tag (some_inj.0 (sym h ∙ check_hit-contents t elem ∙ ap contents_of e)) ∙ same
  ]

  pub access_count-check_hit :
      (t : LruTable T) (elem : T)
      → t.access_count + 1 < 2 ^ 64
      → (check_hit index tag elem t).1.access_count ≤ t.access_count + 1
  unfolding write
  access_count-check_hit t elem small =
      elim (Option-cases (find_if tag (tag elem) (span index t elem))) [
        | inl e ↦
            omega (
              arith,
              ap (λ (r : Option T × LruTable T). r.1.access_count) (check_hit_miss t elem e),
            )
        | inr ((way, b), e) ↦ omega (
          arith,
          ap (λ (r : Option T × LruTable T). r.1.access_count) (check_hit_at t elem e),
          mod-eq_of_lt small,
        )
      ]

  set_idx-of :
      (t : LruTable T) {a b : T} → index a ≡ index b → set_idx index t a ≡ set_idx index t b
  unfolding set_idx
  set_idx-of t e = ap (λ (i : ℕ). i % 2 ^ lg2 t.num_set) e

  -- A use of a block keeps the table valid.
  touched-IsValid :
      (t : LruTable T) (elem : T) {way : ℕ} {b : Block T}
      → IsValid t
      → find_if tag (tag elem) (span index t elem) ≡ some (way, b)
      → IsValid (write index elem way (next_access t) b.contents t)
  unfolding span
  touched-IsValid t elem {way} {b} v e =
      let (at, matches) = find_if-at tag (tag elem) (span index t elem) e in
      let (used, _) = is_match-used tag (tag elem) b matches in
      let u = v.unique (set_idx index t elem) in
      write-IsValid t elem way (next_access t) b.contents v
        (omega (arith, length-span t elem v, lt-of-get_elem? (span index t elem) way at))
        (set-IsUnique tag (span index t elem) way _ u
          (λ k x g apart hx hn same. apart (u k way x b g at hx used same)))

  module _ (t : LruTable T) (v : IsValid t) (small : t.access_count + 1 < 2 ^ 64) where
    next-eq : next_access t ≡ t.access_count + 1
    next-eq = mod-eq_of_lt small

    IsUnique-span : (elem : T) → IsUnique tag (span index t elem)
    unfolding span
    IsUnique-span elem = v.unique (set_idx index t elem)

    fill_way-lt : (elem : T) → fill_way tag (tag elem) (span index t elem) < t.num_way
    fill_way-lt elem = omega (
      arith,
      length-span t elem v,
      v.ways,
      fill_way-lt-length tag (tag elem) (span index t elem)
          (omega (arith, length-span t elem v, v.ways)),
    )

    pub fill-IsValid : (elem : T) → IsValid (fill index tag elem t)
    unfolding fill
    fill-IsValid elem = write-IsValid t elem _ (next_access t) elem v (fill_way-lt elem) (
        filled-IsUnique tag (span index t elem) (IsUnique-span elem)
          (omega (arith, length-span t elem v, v.ways)) elem (next_access t)
          (omega (arith, next-eq)))

    -- The element that was filled is found; the other sets are as before.
    pub fill-found :
        (elem wanted : T)
        → index wanted ≡ index elem
        → tag wanted ≡ tag elem
        → (check_hit index tag wanted (fill index tag elem t)).0 ≡ some elem
    unfolding fill
    fill-found elem wanted same_index same_tag =
        let row = span index t elem in
        let new =
          filled-IsOnly tag row (IsUnique-span elem) (omega (arith, length-span t elem v, v.ways))
            elem (next_access t) (omega (arith, next-eq)) in
        let seen =
          span-write_self t elem (fill_way tag (tag elem) row) (next_access t) elem wanted
            (set_idx-of t same_index) in
        check_hit-contents (fill index tag elem t) wanted
        ∙ ap (λ xs. contents_of (find_if tag (tag wanted) xs)) seen
        ∙ ap
            (λ (w : ℕ). contents_of (
              find_if tag w (
                set row (fill_way tag (tag elem) row)
                  (record { last_used = next_access t; contents = elem }))))
            same_tag
        ∙ ap contents_of (find_if-found tag (tag elem) _ _ _ new)

    pub fill-others :
        (elem other : T)
        → set_idx index t elem ≢ set_idx index t other
        → (check_hit index tag other (fill index tag elem t)).0 ≡ (check_hit index tag other t).0
    unfolding fill
    fill-others elem other apart =
        check_hit-contents (fill index tag elem t) other
        ∙ ap (λ xs. contents_of (find_if tag (tag other) xs))
            (span-write_ne t elem (fill_way tag (tag elem) (span index t elem)) (next_access t) elem
              other (fill_way-lt elem) apart)
        ∙ sym (check_hit-contents t other)

  pub check_hit-IsValid :
      (t : LruTable T) (elem : T) → IsValid t → IsValid (check_hit index tag elem t).1
  check_hit-IsValid t elem v = elim (Option-cases (find_if tag (tag elem) (span index t elem))) [
    | inl e ↦ subst (λ (r : Option T × LruTable T). IsValid r.1) (sym (check_hit_miss t elem e)) v
    | inr ((way, hit), e) ↦
        subst (λ (r : Option T × LruTable T). IsValid r.1) (sym (check_hit_at t elem e))
          (touched-IsValid t elem v e)
  ]

  -- In a valid table whose clock does not wrap: after fill, a search for an element with the
  -- same index and tag returns the new one, a search in another set returns what it did before,
  -- and the table is valid.
  pub fill-check_hit :
      (t : LruTable T) (elem wanted other : T)
      → IsValid t
      → t.access_count + 1 < 2 ^ 64
      → index wanted ≡ index elem
      → tag wanted ≡ tag elem
      → set_idx index t elem ≢ set_idx index t other
      → ((check_hit index tag wanted (fill index tag elem t)).0 ≡ some elem)
        × ((check_hit index tag other (fill index tag elem t)).0 ≡ (check_hit index tag other t).0)
        × IsValid (fill index tag elem t)
  fill-check_hit t elem wanted other v small same_index same_tag apart = (
    fill-found t v small elem wanted same_index same_tag,
    fill-others t v small elem other apart,
    fill-IsValid t v small elem,
  )
