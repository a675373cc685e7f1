-- ===== src/Prelude/Assoc.antt =====
-- `std::unordered_map<uint64_t, V>` as a list of bindings, with the operations that the code calls.
-- The order of the bindings is never seen.
use Prim.Native.Nat.{ℕ}
use mathlib.Core.Path.{◌≡◌}
use mathlib.Core.List.{List, [], ◌∷◌}
use mathlib.Core.Option.{Option, none, some}
use native.Mathlib.Omega.{arith}
use proba_artifact.Prelude.Tests.{◌==◌, if◌then◌else◌}

module _ {ℓ} {V : Type ℓ} where
  -- `find`, with `none` for `end()`.
  unfoldable pub lookup : ℕ → List (ℕ × V) → Option V
  lookup key [] = none
  lookup key (binding ∷ rest) = if binding.0 == key then some binding.1 else lookup key rest

  unfoldable pub erase : ℕ → List (ℕ × V) → List (ℕ × V)
  erase key [] = []
  erase key (binding ∷ rest) =
      let kept = erase key rest in if binding.0 == key then kept else binding ∷ kept

  -- The assignment through `operator[]`.
  unfoldable pub insert : ℕ → V → List (ℕ × V) → List (ℕ × V)
  unfolding erase
  insert key value bindings = (key, value) ∷ erase key bindings

  pub lookup-erase :
      (key other : ℕ) (bindings : List (ℕ × V))
      → lookup other (erase key bindings) ≡ (if key == other then none else lookup other bindings)
  unfolding lookup erase
  lookup-erase key other [] = ground arith
  lookup-erase key other (binding ∷ rest) = ground (arith, lookup-erase key other rest)

  pub lookup-insert :
      (key other : ℕ) (value : V) (bindings : List (ℕ × V))
      → lookup other (insert key value bindings)
        ≡ (if key == other then some value else lookup other bindings)
  unfolding lookup insert
  lookup-insert key other value bindings = ground (arith, lookup-erase key other bindings)

pub ruleset assoc_laws = (arith, lookup-insert, lookup-erase)
