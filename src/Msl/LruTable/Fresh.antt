-- ===== src/Msl/LruTable/Fresh.antt =====
-- The table that the constructor makes.
use mathlib.Core.Option.{some_inj}
use proba_artifact.Prelude.{
  ℕ, zero, suc, ◌+◌, ◌*◌, ◌^◌, ◌<◌, ◌≡◌, sym, ◌∙◌, ap, subst, inl, inr, some, List, [], ◌∷◌,
  get_elem?, take, drop, replicate, length-replicate, get_elem?-replicate, get_elem?-drop,
  Bool-cases, ltb, ltb→lt, ◌==◌, ==→eq, arith,
}
use proba_artifact.Msl.Bits.{lg2}
use proba_artifact.Msl.LruTable.{Block, LruTable, new}
use proba_artifact.Msl.LruTable.Held.{IsValid}

module _ {ℓ} {A : Type ℓ} where
  get_elem?-of_take :
      (n i : ℕ) (xs : List A) {x : A} → get_elem? (take n xs) i ≡ some x → get_elem? xs i ≡ some x
  get_elem?-of_take zero i xs h = absurd (cc)
  get_elem?-of_take (suc n) i [] h = absurd (cc)
  get_elem?-of_take (suc n) zero (y ∷ xs) h = h
  get_elem?-of_take (suc n) (suc i) (y ∷ xs) h = get_elem?-of_take n i xs h

module _ {ℓ} {T : Type ℓ} (blank : T) (index tag : T → ℕ) (sets ways : ℕ) where
  abbrev fresh : LruTable T
  fresh = record {
    num_set = sets;
    num_way = ways;
    access_count = 0;
    block = replicate (sets * ways) (record { last_used = 0; contents = blank });
  }

  unused :
      (s i : ℕ) (x : Block T)
      → get_elem? (take ways (drop (s * ways) fresh.block)) i ≡ some x
      → x.last_used ≡ 0
  unused s i x h =
      let at = sym (get_elem?-drop (s * ways) i fresh.block) ∙ get_elem?-of_take ways i _ h in
      ap (λ (b : Block T). b.last_used) (get_elem?-replicate (sets * ways) (s * ways + i) _ at)

  fresh-IsValid : sets ≡ 2 ^ lg2 sets → 0 < ways → IsValid index tag fresh
  fresh-IsValid power pos = record {
    sized = length-replicate (sets * ways) _;
    power = power;
    ways = pos;
    unique = λ s i j x y ei ej hx hy same. absurd (omega (arith, unused s i x ei));
  }

  -- A table that is made is valid.
  pub new-IsValid : {t : LruTable T} → new blank sets ways ≡ some t → IsValid index tag t
  unfolding new
  new-IsValid {t} made = elim (Bool-cases (ltb 0 sets)) [
    | inr none_set ↦ absurd (cc (rw none_set at made))
    | inl some_set ↦ elim (Bool-cases (ltb 0 ways)) [
      | inr none_way ↦ absurd (cc (rw (some_set, none_way) at made))
      | inl some_way ↦ elim (Bool-cases (sets == 2 ^ lg2 sets)) [
        | inr other ↦ absurd (cc (rw (some_set, some_way, other) at made))
        | inl power ↦
            subst (IsValid index tag) (some_inj.0 (rw (some_set, some_way, power) at made))
              (fresh-IsValid (==→eq sets _ power) (ltb→lt 0 ways some_way))
      ]
    ]
  ]
