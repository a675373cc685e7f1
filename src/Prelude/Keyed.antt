-- ===== src/Prelude/Keyed.antt =====
-- `std::map<K, V>` over any key with a test for equality, as a list of bindings.
use mathlib.Core.Path.{◌≡◌, sym, ap, ◌∙◌}
use mathlib.Core.Logic.{◌↔◌, ◌⊎◌, inl, inr}
use mathlib.Core.Bool.{Bool, true, false}
use mathlib.Core.List.{List, [], ◌∷◌}
use mathlib.Core.Option.{Option, none, some}
use native.Mathlib.Omega.{arith}
use proba_artifact.Prelude.Tests.{if◌then◌else◌, Bool-cases}

pub record Key {ℓ} (K : Type ℓ) : Type ℓ where
  pub same : K → K → Bool
  pub same_iff : (a b : K) → (same a b ≡ true) ↔ (a ≡ b)

module _ {ℓ κ} {K : Type ℓ} {V : Type κ} ⦃k : Key K⦄ where
  unfoldable pub lookup : K → List (K × V) → Option V
  lookup key [] = none
  lookup key (binding ∷ rest) = if k.same binding.0 key then some binding.1 else lookup key rest

  -- `insert` of a pair: the value that the key has afterwards, whether it is new, and the map.
  unfoldable pub insert : K → V → List (K × V) → V × Bool × List (K × V)
  unfolding lookup
  insert key value bindings = elim (lookup key bindings) [
    | none ↦ (value, true, (key, value) ∷ bindings)
    | some old ↦ (old, false, bindings)
  ]

  -- A key that is there keeps its value.
  pub insert_old :
      (key : K) (value old : V) (bindings : List (K × V))
      → lookup key bindings ≡ some old
      → insert key value bindings ≡ (old, false, bindings)
  unfolding insert
  insert_old key value old bindings found = rw (insert, found)

  pub insert_new :
      (key : K) (value : V) (bindings : List (K × V))
      → lookup key bindings ≡ none
      → insert key value bindings ≡ (value, true, (key, value) ∷ bindings)
  unfolding insert
  insert_new key value bindings missing = rw (insert, missing)

  pub lookup_self :
      (key : K) (value : V) (bindings : List (K × V))
      → lookup key ((key, value) ∷ bindings) ≡ some value
  unfolding lookup
  lookup_self key value bindings = ground (arith, k.same_iff key key)

  -- A binding of the extended map is the new one, or an old one.
  pub lookup-cons :
      (key other : K) (value v : V) (bindings : List (K × V))
      → lookup other ((key, value) ∷ bindings) ≡ some v
      → ((key ≡ other) × (value ≡ v)) ⊎ (lookup other bindings ≡ some v)
  unfolding lookup
  lookup-cons key other value v bindings h = elim (Bool-cases (k.same key other)) [
    | inl e ↦ inl ((k.same_iff key other).0 e, ground (arith, e))
    | inr e ↦ inr (ground (arith, e))
  ]

  -- An older binding stays.
  pub lookup-cons_old :
      (key other : K) (value v : V) (bindings : List (K × V))
      → lookup key bindings ≡ none
      → lookup other bindings ≡ some v
      → lookup other ((key, value) ∷ bindings) ≡ some v
  unfolding lookup
  lookup-cons_old key other value v bindings missing found = elim (Bool-cases (k.same key other)) [
    | inl e ↦
        absurd (cc (sym missing ∙ ap (λ j. lookup j bindings) ((k.same_iff key other).0 e) ∙ found))
    | inr e ↦ ground (arith, e, found)
  ]
