-- ===== src/SetAssoc/Valid.antt =====
-- The invariant of a `SetAssociativeCache`, and what replacing one of its sets does.
use native.Mathlib.Nat.{one-le-pow, mod-lt}
use proba_artifact.Prelude.{
  ℕ, ◌<◌, ◌+◌, ◌*◌, ◌/◌, ◌%◌, ◌^◌, true, false, Option, some, List, [], get_elem?, set, length, ◌≡◌,
  sym, ap, ◌∙◌, ◌≢◌, inl, inr, ◌==◌, if◌then◌else◌, arith, ℕ-cases, get_elem?-set_self,
  get_elem?-set_ne, lt-of-get_elem?, length-set, get_or-set_self, get_or-set_ne, length-replicate,
  replicate, get_or-replicate, get_elem?-replicate, set-get_or, eq→==, ne→==-false,
}
use proba_artifact.Prelude.Assoc
use proba_artifact.SetAssoc.{
  Entry, Cam, SetAssociativeCache, blank, index_of, tag_of, row, cam, find_in, locate, write, init,
  index_len_of,
}
use proba_artifact.SetAssoc.Row.{IsCoherent}

module _ {ℓ} {T : Type ℓ} where
  pub record RowIsValid (num_ways index_len i : ℕ) (ways : List (Entry T)) (cam : Cam)
      : Type ℓ where
    pub coherent : IsCoherent ways cam
    pub sized : length ways ≡ num_ways
    pub keyed :
        (way : ℕ) (e : Entry T)
        → get_elem? ways way ≡ some e
        → e.valid ≡ true
        → (e.index ≡ i) × (e.key % 2 ^ index_len ≡ i) × (e.tag ≡ e.key / 2 ^ index_len)

  -- A way is overwritten by an entry that stands in the set of its key.
  pub set-RowIsValid :
      (num_ways index_len i way : ℕ) (ways : List (Entry T)) (m m' : Cam) (x : Entry T)
      → RowIsValid num_ways index_len i ways m
      → IsCoherent (set ways way x) m'
      → (x.valid ≡ true
          → (x.index ≡ i) × (x.key % 2 ^ index_len ≡ i) × (x.tag ≡ x.key / 2 ^ index_len))
      → RowIsValid num_ways index_len i (set ways way x) m'
  set-RowIsValid num_ways index_len i way ways m m' x r co k = record {
    coherent = co;
    sized = length-set ways way x ∙ r.sized;
    keyed = λ w e g v. elim (ℕ-cases way w) [
      | inl here ↦
          let lt = lt-of-get_elem? (set ways way x) w g in
          let lt' : way < length ways = omega (arith, length-set ways way x) in
          let same : x ≡ e = ground (arith, get_elem?-set_self ways way x lt') in
          rw (← same) (k (rw same v))
      | inr there ↦ r.keyed w e (rw (get_elem?-set_ne ways way w x there) at g) v
    ];
  }

  -- The number of sets is a power of two, both vectors have one element for each set, and in each
  -- set the cam agrees with the ways and every valid entry stands in the set of its key.
  pub record IsValid (c : SetAssociativeCache T) : Type ℓ where
    pub pow2 : c.num_sets ≡ 2 ^ c.index_len
    pub entries_sized : length c.entries ≡ c.num_sets
    pub cams_sized : length c.cams ≡ c.num_sets
    pub rows : (i : ℕ) → i < c.num_sets → RowIsValid c.num_ways c.index_len i (row c i) (cam c i)

  pub index_of-lt : (c : SetAssociativeCache T) (key : ℕ) → IsValid c → index_of c key < c.num_sets
  index_of-lt c key v = rw v.pow2 (mod-lt key (one-le-pow c.index_len 2 (omega arith)))

  -- A key is its tag and its index.
  pub key-eq :
      (c : SetAssociativeCache T) (key : ℕ) → key ≡ tag_of c key * 2 ^ c.index_len + index_of c key
  key-eq c key = omega arith

  -- Replace set `i`.
  abbrev pub put : SetAssociativeCache T → ℕ → List (Entry T) → Cam → SetAssociativeCache T
  put c i ways cam = record c { entries = set c.entries i ways; cams = set c.cams i cam }

  pub put-IsValid :
      (c : SetAssociativeCache T) (i : ℕ) (ways : List (Entry T)) (m : Cam)
      → IsValid c
      → RowIsValid c.num_ways c.index_len i ways m
      → IsValid (put c i ways m)
  put-IsValid c i ways m v r = record {
    pow2 = v.pow2;
    entries_sized = length-set c.entries i ways ∙ v.entries_sized;
    cams_sized = length-set c.cams i m ∙ v.cams_sized;
    rows = λ j h. elim (ℕ-cases i j) [
      | inl here ↦
          let lt₁ : i < length c.entries = omega (arith, v.entries_sized) in
          let lt₂ : i < length c.cams = omega (arith, v.cams_sized) in
          rw (← here, get_or-set_self c.entries i ways [] lt₁, get_or-set_self c.cams i m [] lt₂) r
      | inr there ↦
          rw (get_or-set_ne c.entries i j ways [] there, get_or-set_ne c.cams i j m [] there)
            (v.rows j h)
    ];
  }

  -- What `find` sees after a set was replaced.
  pub locate-put :
      (c : SetAssociativeCache T) (i : ℕ) (ways : List (Entry T)) (m : Cam) (key : ℕ)
      → IsValid c
      → i < c.num_sets
      → locate (put c i ways m) key
        ≡ (if i == index_of c key then find_in ways m (tag_of c key) else locate c key)
  unfolding locate
  locate-put c i ways m key v lt = elim (ℕ-cases i (index_of c key)) [
    | inl here ↦
        let lt₁ : i < length c.entries = omega (arith, v.entries_sized) in
        let lt₂ : i < length c.cams = omega (arith, v.cams_sized) in
        ground (arith, get_or-set_self c.entries i ways [] lt₁, get_or-set_self c.cams i m [] lt₂)
    | inr there ↦
        rw
          (
            get_or-set_ne c.entries i (index_of c key) ways [] there,
            get_or-set_ne c.cams i (index_of c key) m [] there,
          )
          (ground arith)
  ]

  -- Two keys of one set differ in their tags.
  pub tag_of-ne :
      (c : SetAssociativeCache T) (key key' : ℕ)
      → index_of c key ≡ index_of c key'
      → key ≢ key'
      → tag_of c key ≢ tag_of c key'
  tag_of-ne c key key' same ne t = ne (key-eq c key ∙ rw (same, t) (sym (key-eq c key')))

  -- The test of two keys, by their sets and their tags.
  pub key-test :
      (c : SetAssociativeCache T) (key key' : ℕ)
      → (key == key')
        ≡ (if index_of c key == index_of c key' then tag_of c key == tag_of c key' else false)
  key-test c key key' = elim (ℕ-cases key key') [
    | inl e ↦ rw (eq→== _ _ e, eq→== _ _ (ap (index_of c) e), eq→== _ _ (ap (tag_of c) e))
    | inr ne ↦ elim (ℕ-cases (index_of c key) (index_of c key')) [
      | inl here ↦
          rw (ne→==-false _ _ ne, eq→== _ _ here, ne→==-false _ _ (tag_of-ne c key key' here ne))
      | inr apart ↦ rw (ne→==-false _ _ ne, ne→==-false _ _ apart)
    ]
  ]

  -- The constructor's table is valid, and empty, when the number of sets is a power of two.
  blank-RowIsValid : (d : T) (n k i : ℕ) → RowIsValid n k i (replicate n (blank d)) []
  unfolding Assoc.lookup
  blank-RowIsValid d n k i = record {
    coherent = record {
      mapped = λ tag way h. cc;
      listed = λ way e g v. cc (get_elem?-replicate n way (blank d) g);
    };
    sized = length-replicate n (blank d);
    keyed = λ way e g v. cc (get_elem?-replicate n way (blank d) g);
  }

  pub init-IsValid :
      (d : T) (size num_ways : ℕ)
      → size / num_ways ≡ 2 ^ index_len_of (size / num_ways)
      → IsValid (init d size num_ways)
  unfolding init
  init-IsValid d size num_ways p = record {
    pow2 = p;
    entries_sized = length-replicate (size / num_ways) _;
    cams_sized = length-replicate (size / num_ways) _;
    rows = λ i h.
        rw
          (
            get_or-replicate (size / num_ways) i (replicate num_ways (blank d)) [] h,
            get_or-replicate {A = Cam} (size / num_ways) i [] [] h,
          )
          (blank-RowIsValid d num_ways _ i);
  }

  pub write-put :
      (c : SetAssociativeCache T) (i way : ℕ) (e : Entry T)
      → write c i way e ≡ put c i (set (row c i) way e) (cam c i)
  unfolding write
  write-put c i way e = rw (set-get_or c.cams i [])

  -- Where one tag of a set changes, one key of the table does.
  pub locate-put_if :
      (c : SetAssociativeCache T) (key key' : ℕ) (ways : List (Entry T)) (m : Cam)
      (r : Option (ℕ × Entry T))
      → IsValid c
      → ((tag' : ℕ)
          → find_in ways m tag' ≡ (
              if tag_of c key == tag'
              then r
              else find_in (row c (index_of c key)) (cam c (index_of c key)) tag'))
      → locate (put c (index_of c key) ways m) key' ≡ (if key == key' then r else locate c key')
  unfolding locate
  locate-put_if c key key' ways m r v h =
      let moved = locate-put c (index_of c key) ways m key' v (index_of-lt c key v) in
      elim (ℕ-cases (index_of c key) (index_of c key')) [
        | inl here ↦ moved ∙ rw (eq→== _ _ here, h (tag_of c key')) (same_tag here)
        | inr apart ↦
            let ne : key ≢ key' = λ e. apart (ap (index_of c) e) in
            moved ∙ rw (ne→==-false _ _ apart, ne→==-false _ _ ne)
      ]
    where
      same_tag :
          index_of c key ≡ index_of c key'
          → (if tag_of c key == tag_of c key'
              then r
              else find_in (row c (index_of c key)) (cam c (index_of c key)) (tag_of c key'))
            ≡ (if key == key'
                then r
                else find_in (row c (index_of c key')) (cam c (index_of c key')) (tag_of c key'))
      same_tag here = elim (ℕ-cases key key') [
        | inl e ↦ rw (eq→== _ _ e, eq→== _ _ (ap (tag_of c) e))
        | inr ne ↦ rw (ne→==-false _ _ ne, ne→==-false _ _ (tag_of-ne c key key' here ne), here)
      ]
