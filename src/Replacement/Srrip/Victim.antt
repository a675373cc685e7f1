-- ===== src/Replacement/Srrip/Victim.antt =====
-- The loop of `find_victim` of replacement/srrip/srrip.cc ends.
use mathlib.Core.Option.{some-injective}
use proba_artifact.Prelude.{
  ℕ, zero, suc, ◌+◌, ◌<◌, ◌≡◌, ◌≢◌, refl, ap, sym, ◌∙◌, inl, inr, none, some, List, [], ◌∷◌, map,
  length, get_elem?, ◌==◌, Bool-cases, Option-cases, arith,
}
use proba_artifact.SetAssoc.Rrip.Victim.{Bounded}
use proba_artifact.Replacement.Srrip.{max_rrpv, position, victim_loop}

position-some :
    (i : ℕ) (row : List ℕ) (n : ℕ)
    → position i row ≡ some n
    → (w : ℕ) × (n ≡ i + w) × (get_elem? row w ≡ some max_rrpv)
unfolding position
position-some i [] n h = cc
position-some i (x ∷ row) n h = elim (Bool-cases (x == max_rrpv)) [
  | inl here ↦ (0, ground arith, ap some (ground arith))
  | inr later ↦
      let rest : position (suc i) row ≡ some n = ground arith in
      let (w, e, g) = position-some (suc i) row n rest in (suc w, omega arith, g)
]

position-none :
    (i : ℕ) (row : List ℕ) (j u : ℕ)
    → position i row ≡ none
    → get_elem? row j ≡ some u
    → u ≢ max_rrpv
unfolding position
position-none i [] j u h g = cc
position-none i (x ∷ row) zero u h g = ground arith
position-none i (x ∷ row) (suc j) u h g = position-none (suc i) row j u (ground arith) g

get_elem?-raised :
    (row : List ℕ) (j u : ℕ)
    → get_elem? (map suc row) j ≡ some u
    → (v : ℕ) × (get_elem? row j ≡ some v) × (u ≡ suc v)
get_elem?-raised [] j u g = cc
get_elem?-raised (x ∷ row) zero u g = (x, refl, sym (some-injective (suc x) u g))
get_elem?-raised (x ∷ row) (suc j) u g = get_elem?-raised row j u g

length-raised : (row : List ℕ) → length (map suc row) ≡ length row
length-raised [] = refl
length-raised (x ∷ row) = ap suc (length-raised row)

raised-Bounded : (row : List ℕ) → Bounded 3 row → position 0 row ≡ none → Bounded 3 (map suc row)
raised-Bounded row b h j u g =
    let (v, at, e) = get_elem?-raised row j u g in
    omega (arith, b j v at, position-none 0 row j v h at)

-- On a set of at least one way with numbers of at most 3, as many rounds of the SRRIP victim
-- loop as the first number lacks to 3, and one more, are enough: it returns a way whose number
-- is then 3, and the set keeps its length and its bound.
pub victim_loop-ends :
    (left x : ℕ) (xs : List ℕ)
    → Bounded 3 (x ∷ xs)
    → 3 < left + x
    → (way : ℕ) × (aged : List ℕ) × (victim_loop left (x ∷ xs) ≡ some (way, aged))
      × (get_elem? aged way ≡ some 3)
      × (length aged ≡ length (x ∷ xs))
      × Bounded 3 aged
unfolding victim_loop
victim_loop-ends zero x xs b enough = absurd (omega (arith, b 0 x refl))
victim_loop-ends (suc left) x xs b enough = elim (Option-cases (position 0 (x ∷ xs))) [
  | inr (n, found) ↦
      let (w, e, g) = position-some 0 (x ∷ xs) n found in
      let here : n ≡ w = omega arith in
      (n, x ∷ xs, rw (found, victim_loop) refl, rw here g, refl, b)
  | inl missing ↦
      let (way, aged, at, full, len, bounded) =
        victim_loop-ends left (suc x) (map suc xs) (raised-Bounded (x ∷ xs) b missing)
          (omega arith) in
      (way, aged, rw (missing, victim_loop) at, full, len ∙ length-raised (x ∷ xs), bounded)
]
