-- ===== src/Msl/LruTable/Row.antt =====
-- One set of the table: what the searches find in it.
use proba_artifact.Prelude.{
  ℕ, zero, suc, ◌+◌, ◌<◌, ◌≤◌, ◌≡◌, ◌≢◌, refl, sym, ◌∙◌, ap, subst, inl, inr, true, false, none,
  some, List, [], ◌∷◌, length, get_elem?, lt-of-get_elem?, Bool-cases, Option-cases, ◌==◌, arith,
}
use mathlib.Core.Option.{some_inj}
use proba_artifact.Msl.LruTable.{Block, is_match, find_if, is_less, min_from, max_from, fill_way}

module _ {ℓ} {T : Type ℓ} (tag : T → ℕ) (wanted : ℕ) where
  -- The block `y` at way `m` is the only one in use with the tag.
  pub record IsOnly (m : ℕ) (y : Block T) (xs : List (Block T)) : Type ℓ where
    pub at : get_elem? xs m ≡ some y
    pub matches : is_match tag wanted y ≡ true
    pub others :
        (k : ℕ) (x : Block T) → get_elem? xs k ≡ some x → k ≢ m → is_match tag wanted x ≡ false

  pub tail-IsOnly :
      {m : ℕ} {x y : Block T} {xs : List (Block T)} → IsOnly (suc m) y (x ∷ xs) → IsOnly m y xs
  tail-IsOnly o = record {
    at = o.at;
    matches = o.matches;
    others = λ k z e apart. o.others (suc k) z e (λ same. apart (omega arith));
  }

  less_only :
      (x y : Block T)
      → is_match tag wanted y ≡ true
      → is_match tag wanted x ≡ false
      → (is_less tag wanted x y ≡ true) × (is_less tag wanted y x ≡ false)
  unfolding is_match is_less
  less_only x y hy hx = ground arith

  max_from_stays :
      (m : ℕ) (y : Block T) (i : ℕ) (xs : List (Block T))
      → is_match tag wanted y ≡ true
      → ((k : ℕ) (x : Block T) → get_elem? xs k ≡ some x → is_match tag wanted x ≡ false)
      → max_from tag wanted m y i xs ≡ (m, y)
  unfolding max_from
  max_from_stays m y i [] hy h = refl
  max_from_stays m y i (x ∷ xs) hy h =
      let (less, _) = less_only x y hy (h 0 x refl) in
      rw less (max_from_stays m y (suc i) xs hy (λ k z e. h (suc k) z e))

  max_from_only :
      (j best : ℕ) (b y : Block T) (i : ℕ) (xs : List (Block T))
      → is_match tag wanted b ≡ false
      → IsOnly j y xs
      → max_from tag wanted best b i xs ≡ (i + j, y)
  unfolding max_from
  max_from_only j best b y i [] hb o = absurd (omega (arith, lt-of-get_elem? [] j o.at))
  max_from_only zero best b y i (x ∷ xs) hb o =
      let same = some_inj.0 o.at in
      let hx = ap (is_match tag wanted) same ∙ o.matches in
      let (_, greater) = less_only b x hx hb in
      rw greater (
        max_from_stays i x (suc i) xs hx (λ k z e. o.others (suc k) z e (omega arith))
        ∙ ap (λ (n : ℕ). (n, x)) {x = i} {y = i + 0} (omega arith)
        ∙ ap (λ (z : Block T). (i + 0, z)) same)
  max_from_only (suc j) best b y i (x ∷ xs) hb o =
      let hx = o.others 0 x refl (omega arith) in
      let later =
        ap {B = ℕ × Block T} (λ (n : ℕ). (n, y)) {x = suc i + j} {y = i + suc j} (omega arith) in
      let kept = max_from_only j best b y (suc i) xs hb (tail-IsOnly o) ∙ later in
      let moved = max_from_only j i x y (suc i) xs hx (tail-IsOnly o) ∙ later in
      elim (Bool-cases (is_less tag wanted x b)) [
        | inl e ↦ rw (e, max_from) kept
        | inr e ↦ rw (e, max_from) moved
      ]

  matched : (x : Block T) → is_match tag wanted x ≡ true → (tag x.contents == wanted) ≡ true
  unfolding is_match
  matched x h = ground arith

  -- A block in use with the tag is the one that `fill` writes.
  pub fill_way_only :
      (m : ℕ) (y : Block T) (xs : List (Block T)) → IsOnly m y xs → fill_way tag wanted xs ≡ m
  unfolding fill_way
  fill_way_only m y [] o = absurd (omega (arith, lt-of-get_elem? [] m o.at))
  fill_way_only zero y (x ∷ xs) o =
      let hx = ap (is_match tag wanted) (some_inj.0 o.at) ∙ o.matches in
      let found = max_from_stays 0 x 1 xs hx (λ k z e. o.others (suc k) z e (omega arith)) in
      rw (found, matched x hx) refl
  fill_way_only (suc m) y (x ∷ xs) o =
      let found = max_from_only m 0 x y 1 xs (o.others 0 x refl (omega arith)) (tail-IsOnly o) in
      rw (found, matched y o.matches) (omega arith)

  -- The way that `fill` writes is one of the set.
  max_from-lt :
      (best : ℕ) (b : Block T) (i n : ℕ) (xs : List (Block T))
      → best < n
      → i + length xs ≤ n
      → (max_from tag wanted best b i xs).0 < n
  unfolding max_from
  max_from-lt best b i n [] h le = h
  max_from-lt best b i n (x ∷ xs) h le = elim (Bool-cases (is_less tag wanted x b)) [
    | inl e ↦ rw (e, max_from) (max_from-lt best b (suc i) n xs h (omega arith))
    | inr e ↦ rw (e, max_from) (max_from-lt i x (suc i) n xs (omega arith) (omega arith))
  ]

  min_from-lt :
      (best : ℕ) (b : Block T) (i n : ℕ) (xs : List (Block T))
      → best < n
      → i + length xs ≤ n
      → min_from tag wanted best b i xs < n
  unfolding min_from
  min_from-lt best b i n [] h le = h
  min_from-lt best b i n (x ∷ xs) h le = elim (Bool-cases (is_less tag wanted x b)) [
    | inl e ↦ rw (e, min_from) (min_from-lt i x (suc i) n xs (omega arith) (omega arith))
    | inr e ↦ rw (e, min_from) (min_from-lt best b (suc i) n xs h (omega arith))
  ]

  pub fill_way-lt-length :
      (xs : List (Block T)) → 0 < length xs → fill_way tag wanted xs < length xs
  unfolding fill_way
  fill_way-lt-length [] h = absurd (omega arith)
  fill_way-lt-length (x ∷ xs) h =
      let n = length (x ∷ xs) in
      ground (
        arith,
        max_from-lt 0 x 1 n xs (omega arith) (omega arith),
        min_from-lt 0 x 1 n xs (omega arith) (omega arith),
      )

  -- What `find_if` finds.
  pub find_if-found :
      (m : ℕ) (y : Block T) (xs : List (Block T))
      → IsOnly m y xs
      → find_if tag wanted xs ≡ some (m, y)
  unfolding find_if
  find_if-found m y [] o = absurd (omega (arith, lt-of-get_elem? [] m o.at))
  find_if-found zero y (x ∷ xs) o =
      rw (ap (is_match tag wanted) (some_inj.0 o.at) ∙ o.matches)
        (ap (λ (z : Block T). some (0, z)) (some_inj.0 o.at))
  find_if-found (suc m) y (x ∷ xs) o =
      rw (o.others 0 x refl (omega arith), find_if-found m y xs (tail-IsOnly o)) refl

  abbrev Found : List (Block T) → ℕ × Block T → Type ℓ
  Found xs f = (get_elem? xs f.0 ≡ some f.1) × (is_match tag wanted f.1 ≡ true)

  pub find_if-at :
      (xs : List (Block T)) {way : ℕ} {b : Block T}
      → find_if tag wanted xs ≡ some (way, b)
      → (get_elem? xs way ≡ some b) × (is_match tag wanted b ≡ true)
  unfolding find_if
  find_if-at [] h = absurd (cc)
  find_if-at (x ∷ xs) {way} {b} h = elim (Bool-cases (is_match tag wanted x)) [
    | inl e ↦ subst (Found (x ∷ xs)) (some_inj.0 (rw (e, find_if) at h)) (refl, e)
    | inr e ↦ elim (Option-cases (find_if tag wanted xs)) [
      | inl missing ↦ absurd (cc (rw (e, missing, find_if) at h))
      | inr ((w, c), found) ↦
          subst (Found (x ∷ xs)) (some_inj.0 (rw (e, found, find_if) at h)) (find_if-at xs found)
    ]
  ]

  pub find_if-none :
      (xs : List (Block T))
      → find_if tag wanted xs ≡ none
      → (k : ℕ) (x : Block T) → get_elem? xs k ≡ some x
      → is_match tag wanted x ≡ false
  unfolding find_if
  find_if-none [] h k x e = absurd (cc)
  find_if-none (y ∷ xs) h k x e = elim (Bool-cases (is_match tag wanted y)) [
    | inl m ↦ absurd (cc (rw (m, find_if) at h))
    | inr m ↦ elim (Option-cases (find_if tag wanted xs)) [
      | inr (f, found) ↦ absurd (cc (rw (m, found, find_if) at h))
      | inl missing ↦ head_or_tail k x e m (find_if-none xs missing)
    ]
  ]
    where
      head_or_tail :
          (k : ℕ) (x : Block T)
          → get_elem? (y ∷ xs) k ≡ some x
          → is_match tag wanted y ≡ false
          → ((j : ℕ) (z : Block T) → get_elem? xs j ≡ some z → is_match tag wanted z ≡ false)
          → is_match tag wanted x ≡ false
      head_or_tail zero x e m rest = ap (is_match tag wanted) (sym (some_inj.0 e)) ∙ m
      head_or_tail (suc j) x e m rest = rest j x e
