-- ===== src/Replacement/Drrip/Victim.antt =====
-- What `find_victim` of replacement/drrip/drrip.cc does to a set.
use mathlib.Core.Option.{some-injective}
use native.Mathlib.Nat.{add-suc, suc-add, zero-add}
use proba_artifact.Prelude.{
  ℕ, zero, suc, true, false, ◌+◌, ◌-◌, ◌%◌, ◌^◌, ◌≤◌, ◌<◌, ◌≡◌, refl, ap, ◌∙◌, some, List, [], ◌∷◌,
  get_elem?, get_or-eq-of-get_elem?, leb, ◌==◌, if◌then◌else◌, eq→==, ne→==-false, arith,
}
use proba_artifact.SetAssoc.Rrip.Victim.{IsFirstMax, Bounded}
use proba_artifact.Replacement.Vectors.{max_element, max_element-IsFirstMax}
use proba_artifact.Replacement.Drrip.{max_rrpv, age_from, age}

-- Once the victim shows 3 the loop adds nothing.
raise : (x m : ℕ) → x ≤ m → m ≤ 3 → (x + (max_rrpv + 2 ^ 32 - m)) % 2 ^ 32 ≡ x + (3 - m)
raise x m le top = omega arith

age_from-full :
    (i victim : ℕ) (row : List ℕ) (j u : ℕ)
    → victim < i
    → Bounded 3 row
    → get_elem? row j ≡ some u
    → get_elem? (age_from i victim 3 row) j ≡ some u
unfolding age_from
age_from-full i victim [] j u past b g = cc
age_from-full i victim (x ∷ row) zero u past b g =
    let same = raise x 3 (b 0 x refl) (omega arith) in ap some (same ∙ omega arith) ∙ g
age_from-full i victim (x ∷ row) (suc j) u past b g =
    rw (ne→==-false i victim (omega arith))
      (age_from-full (suc i) victim row j u (omega arith) (λ k. b (suc k)) g)

AgedAt : ℕ → ℕ → ℕ → List ℕ → ℕ → ℕ → Type 0
AgedAt i victim most row j u =
    get_elem? (age_from i victim most row) j
    ≡ some (if leb (i + j) victim then u + (3 - most) else u)

age_from-AgedAt :
    (i n victim most : ℕ) (row : List ℕ) (j u : ℕ)
    → victim ≡ i + n
    → get_elem? row n ≡ some most
    → Bounded most row
    → most ≤ 3
    → get_elem? row j ≡ some u
    → AgedAt i victim most row j u
unfolding age_from AgedAt
age_from-AgedAt i n victim most [] j u at g b le h = cc
age_from-AgedAt i n victim most (x ∷ row) zero u at g b le h =
    let same : x ≡ u = some-injective x u h in
    let early : leb (i + 0) victim ≡ true = ground arith in
    rw (early, ← same) (ap some (raise x most (b 0 x refl) le))
age_from-AgedAt i zero victim most (x ∷ row) (suc j) u at g b le h =
    let same : x ≡ most = some-injective x most g in
    let here : (i == victim) ≡ true = eq→== i victim (omega arith) in
    let late : leb (i + suc j) victim ≡ false = ground arith in
    let full : (x + (max_rrpv + 2 ^ 32 - most)) % 2 ^ 32 ≡ 3 =
      omega (arith, raise x most (b 0 x refl) le) in
    rw (here, late, full)
      (age_from-full (suc i) victim row j u (omega arith) (λ k v q. omega (arith, b (suc k) v q)) h)
age_from-AgedAt i (suc n) victim most (x ∷ row) (suc j) u at g b le h =
    let there : (i == victim) ≡ false = ne→==-false i victim (omega arith) in
    let rest =
      age_from-AgedAt (suc i) n victim most row j u (omega arith) g (λ k. b (suc k)) le h in
    rw (there, add-suc) (rw suc-add at rest)

-- On a set of at least one way with numbers of at most 3, the DRRIP victim is the leftmost way
-- with the largest number; the aging loop raises the numbers up to the victim's way by what the
-- largest lacks to 3, and leaves those of the later ways as they are.
pub age-AgedAt :
    (x : ℕ) (xs : List ℕ)
    → Bounded 3 (x ∷ xs)
    → (most : ℕ) × (get_elem? (x ∷ xs) (max_element (x ∷ xs)) ≡ some most)
      × IsFirstMax (x ∷ xs) (max_element (x ∷ xs))
      × ((j u : ℕ)
          → get_elem? (x ∷ xs) j ≡ some u
          → get_elem? (age (x ∷ xs)) j
            ≡ some (if leb j (max_element (x ∷ xs)) then u + (3 - most) else u))
unfolding age AgedAt
age-AgedAt x xs b =
    let first = max_element-IsFirstMax x xs in
    let (v, at, top) = first in
    let shown = get_or-eq-of-get_elem? (x ∷ xs) (max_element (x ∷ xs)) 0 at in
    (
      v,
      at,
      first,
      λ j u g.
          (let aged =
              age_from-AgedAt 0 (max_element (x ∷ xs)) (max_element (x ∷ xs)) v (x ∷ xs) j u
                (omega arith) at (λ k w q. (top k w q).0) (b _ v at) g in
            ap (λ (m : ℕ). get_elem? (age_from 0 (max_element (x ∷ xs)) m (x ∷ xs)) j) shown
            ∙ rw (zero-add j) at aged),
    )
