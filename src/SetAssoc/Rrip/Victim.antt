-- ===== src/SetAssoc/Rrip/Victim.antt =====
-- The victim search of the RRIP policies ends, and chooses the leftmost way with the largest number.
use mathlib.Core.Option.{some-injective}
use proba_artifact.Prelude.{
  ℕ, zero, suc, ◌≤◌, ◌<◌, ◌+◌, false, none, some, List, [], ◌∷◌, get_elem?, set, length, ◌≡◌, refl,
  sym, ap, ◌∙◌, inl, inr, leb, arith, Bool-cases, Option-cases, lt-of-get_elem?, get_elem?_of_lt,
  get_or-eq-of-get_elem?,
}
use proba_artifact.SetAssoc.Rrip.{first_ge, add, aging, victim_loop, select_victim}

-- No number of the list is larger, and those before it are smaller.
abbrev pub IsFirstMax : List ℕ → ℕ → Type 0
IsFirstMax rs w =
    (v : ℕ) × (get_elem? rs w ≡ some v)
    × ((j u : ℕ) → get_elem? rs j ≡ some u → (u ≤ v) × (j < w → u < v))

abbrev pub Bounded : ℕ → List ℕ → Type 0
Bounded m rs = (j u : ℕ) → get_elem? rs j ≡ some u → u ≤ m

-- What the scan finds: the first number that is at least `m`.
first_ge-some :
    (m i : ℕ) (rs : List ℕ) (n : ℕ)
    → first_ge m i rs ≡ some n
    → (w : ℕ) × (n ≡ i + w)
      × ((v : ℕ) × (get_elem? rs w ≡ some v) × (m ≤ v))
      × ((j u : ℕ) → get_elem? rs j ≡ some u → j < w → u < m)
unfolding first_ge
first_ge-some m i [] n h = cc
first_ge-some m i (r ∷ rs) n h = elim (Bool-cases (leb m r)) [
  | inl here ↦ (0, ground arith, (r, refl, ground arith), λ j u g lt. absurd (omega arith))
  | inr later ↦
      let h' : first_ge m (suc i) rs ≡ some n = ground arith in
      let (w, e, top, below) = first_ge-some m (suc i) rs n h' in
      (suc w, omega arith, top, before w below later)
]
  where
    before :
        (w : ℕ)
        → ((j u : ℕ) → get_elem? rs j ≡ some u → j < w → u < m)
        → leb m r ≡ false
        → (j u : ℕ) → get_elem? (r ∷ rs) j ≡ some u
        → j < suc w
        → u < m
    before w below later zero u g lt = ground arith
    before w below later (suc j) u g lt = below j u g (omega arith)

first_ge-none :
    (m i : ℕ) (rs : List ℕ) → first_ge m i rs ≡ none → (j u : ℕ) → get_elem? rs j ≡ some u → u < m
unfolding first_ge
first_ge-none m i [] h j u g = cc
first_ge-none m i (r ∷ rs) h zero u g = ground arith
first_ge-none m i (r ∷ rs) h (suc j) u g = first_ge-none m (suc i) rs (ground arith) j u g

-- `aging` adds one to each number below `m`.
get_elem?-aging :
    (m : ℕ) (rs : List ℕ) (j : ℕ)
    → get_elem? (aging m rs) j ≡ elim (get_elem? rs j) [ none ↦ none | some u ↦ some (add m u) ]
unfolding aging
get_elem?-aging m [] j = refl
get_elem?-aging m (r ∷ rs) zero = refl
get_elem?-aging m (r ∷ rs) (suc j) = get_elem?-aging m rs j

length-aging : (m : ℕ) (rs : List ℕ) → length (aging m rs) ≡ length rs
unfolding aging
length-aging m [] = refl
length-aging m (r ∷ rs) = ap suc (length-aging m rs)

-- The way is the leftmost of the largest numbers, and every number was raised by the same amount,
-- by which the chosen one reached `m`.
abbrev pub Found : ℕ → List ℕ → ℕ → List ℕ → Type 0
Found m rs w aged =
    IsFirstMax rs w
    × (get_elem? aged w ≡ some m)
    × (length aged ≡ length rs)
    × ((k : ℕ) × ((j u : ℕ) → get_elem? rs j ≡ some u → get_elem? aged j ≡ some (u + k)))

get_elem?-aging_below :
    (m : ℕ) (rs : List ℕ) (j u : ℕ)
    → get_elem? rs j ≡ some u
    → u < m
    → get_elem? (aging m rs) j ≡ some (suc u)
unfolding add
get_elem?-aging_below m rs j u g lt = rw (get_elem?-aging m rs j, g) (ground arith)

Found-aging :
    (m : ℕ) (rs : List ℕ) (w : ℕ) (aged : List ℕ)
    → ((j u : ℕ) → get_elem? rs j ≡ some u → u < m)
    → Found m (aging m rs) w aged
    → Found m rs w aged
Found-aging m rs w aged below ((v, g, top), reach, len, shifted) =
    let lt : w < length rs = omega (arith, length-aging m rs, lt-of-get_elem? (aging m rs) w g) in
    let (u, held) = get_elem?_of_lt rs w lt in
    let up =
      λ (j x : ℕ) (e : get_elem? rs j ≡ some x). get_elem?-aging_below m rs j x e (below j x e) in
    let raised : v ≡ suc u = ground (arith, up w u held) in
    let (k, shift) = shifted in
    (
      (
        u,
        held,
        λ j x e.
            let (le, lt') = top j (suc x) (up j x e) in
            (omega arith, λ before. let l = lt' before in omega arith),
      ),
      reach,
      len ∙ length-aging m rs,
      (suc k, λ j x e. shift j (suc x) (up j x e) ∙ ap some (omega arith)),
    )

Found-here :
    (m : ℕ) (rs : List ℕ) (n : ℕ) → Bounded m rs → first_ge m 0 rs ≡ some n → Found m rs n rs
Found-here m rs n b hit =
    let (w, e, (v, g, large), before) = first_ge-some m 0 rs n hit in
    let full : v ≡ m = omega (arith, b w v g) in
    let same : w ≡ n = omega arith in
    (
      (v, rw (← same) g, λ j u at. (omega (arith, b j u at), λ lt. omega (arith, before j u at))),
      rw (← same) (g ∙ ap some full),
      refl,
      (0, λ j u at. at ∙ ap some (omega arith)),
    )

Bounded-aging : (m : ℕ) (rs : List ℕ) → Bounded m rs → Bounded m (aging m rs)
unfolding add
Bounded-aging m rs b j u g = elim (Option-cases (get_elem? rs j)) [
  | inl out ↦ ground (arith, get_elem?-aging m rs j)
  | inr (x, at) ↦ ground (arith, get_elem?-aging m rs j, b j x at)
]

add-progress : (m r fuel : ℕ) → r < m → m < suc fuel + r → m < fuel + add m r
unfolding add
add-progress m r fuel lt h = ground arith

-- The search ends within `m + 1` rounds; it chooses the leftmost of the largest numbers, and has
-- aged every number of the set by the same amount, by which the chosen one reaches `m`.
pub victim_loop-Found :
    (fuel m r : ℕ) (rs : List ℕ)
    → Bounded m (r ∷ rs)
    → m < fuel + r
    → (w : ℕ) × (aged : List ℕ) × (victim_loop fuel m (r ∷ rs) ≡ some (w, aged))
      × Found m (r ∷ rs) w aged
unfolding victim_loop aging
victim_loop-Found zero m r rs b h = absurd (omega (arith, b 0 r refl))
victim_loop-Found (suc fuel) m r rs b h =
    let next = λ (lt : r < m).
      victim_loop-Found fuel m (add m r) (aging m rs) (Bounded-aging m (r ∷ rs) b)
        (add-progress m r fuel lt h) in
    elim (Option-cases (first_ge m 0 (r ∷ rs))) [
      | inr (n, hit) ↦ (n, r ∷ rs, rw (hit, victim_loop), Found-here m (r ∷ rs) n b hit)
      | inl miss ↦
          let below = first_ge-none m 0 (r ∷ rs) miss in
          let (w, aged, found, good) = next (below 0 r refl) in
          (w, aged, rw (miss, victim_loop) found, Found-aging m (r ∷ rs) w aged below good)
    ]

Found-Bounded : (m : ℕ) (rs : List ℕ) (w : ℕ) (aged : List ℕ) → Found m rs w aged → Bounded m aged
Found-Bounded m rs w aged (first, reach, len, (k, shift)) j u at =
    let (v, g, top) = first in
    let lt : j < length rs = omega (arith, lt-of-get_elem? aged j at) in
    let (x, held) = get_elem?_of_lt rs j lt in
    let full = some-injective (v + k) m (sym (shift w v g) ∙ reach) in
    let same = some-injective (x + k) u (sym (shift j x held) ∙ at) in
    let (le, _) = top j x held in omega arith

-- On a set of at least one way whose numbers are at most max_rrpv, the RRIP victim loop ends;
-- the victim is the leftmost way with the largest number, that number is max_rrpv afterwards,
-- and the aged set keeps its length and its bound.
pub select_victim-IsFirstMax :
    (m i r : ℕ) (rs : List ℕ) (rrpv : List (List ℕ))
    → get_elem? rrpv i ≡ some (r ∷ rs)
    → Bounded m (r ∷ rs)
    → IsFirstMax (r ∷ rs) (select_victim m rrpv i).0
      × ((select_victim m rrpv i).0 < length (r ∷ rs))
      × ((aged : List ℕ) × ((select_victim m rrpv i).1 ≡ set rrpv i aged)
          × (get_elem? aged (select_victim m rrpv i).0 ≡ some m)
          × (length aged ≡ length (r ∷ rs))
          × Bounded m aged)
unfolding select_victim
select_victim-IsFirstMax m i r rs rrpv at b =
    let (w, aged, found, (first, reach, len, shifted)) =
      victim_loop-Found (suc m) m r rs b (omega arith) in
    rw (get_or-eq-of-get_elem? rrpv i [] at, found, select_victim)
      (
        first,
        lt-of-get_elem? (r ∷ rs) w first.1,
        (aged, refl, reach, len, Found-Bounded m (r ∷ rs) w aged (first, reach, len, shifted)),
      )
