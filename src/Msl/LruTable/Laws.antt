-- ===== src/Msl/LruTable/Laws.antt =====
-- What the table holds after `fill`, `check_hit` and `invalidate`.
use mathlib.Core.Option.{some_inj}
use proba_artifact.Prelude.{
  ℕ, ◌<◌, ◌≡◌, ◌≢◌, sym, ◌∙◌, ap, subst, inl, inr, true, false, some, List, length, get_elem?, set,
  length-set, get_elem?-set_self, get_elem?-set_ne, lt-of-get_elem?, Bool-cases, ℕ-cases, arith,
}
use proba_artifact.Msl.LruTable.{Block, is_match, fill_way}
use proba_artifact.Msl.LruTable.Row.{IsOnly, fill_way_only, fill_way-lt-length}

module _ {ℓ} {T : Type ℓ} (tag : T → ℕ) where
  -- No two blocks in use of a set have one tag.
  abbrev pub IsUnique : List (Block T) → Type ℓ
  IsUnique xs =
      (i j : ℕ) (x y : Block T)
      → get_elem? xs i ≡ some x
      → get_elem? xs j ≡ some y
      → 0 < x.last_used
      → 0 < y.last_used
      → tag x.contents ≡ tag y.contents
      → i ≡ j

  pub is_match-used :
      (wanted : ℕ) (x : Block T)
      → is_match tag wanted x ≡ true
      → (0 < x.last_used) × (tag x.contents ≡ wanted)
  unfolding is_match
  is_match-used wanted x h = ground arith

  used-is_match : (x : Block T) → 0 < x.last_used → is_match tag (tag x.contents) x ≡ true
  unfolding is_match
  used-is_match x h = ground arith

  IsUnique-IsOnly :
      (wanted m : ℕ) (y : Block T) (xs : List (Block T))
      → IsUnique xs
      → get_elem? xs m ≡ some y
      → is_match tag wanted y ≡ true
      → IsOnly tag wanted m y xs
  IsUnique-IsOnly wanted m y xs u at hy = record {
    at = at;
    matches = hy;
    others = λ k x e apart. elim (Bool-cases (is_match tag wanted x)) [
      | inr h ↦ h
      | inl h ↦
          let (used, same) = is_match-used wanted x h in
          let (used', same') = is_match-used wanted y hy in
          absurd (apart (u k m x y e at used used' (same ∙ sym same')))
    ];
  }

  -- A write keeps the tags apart, if no other block in use has the new one's.
  pub set-IsUnique :
      (xs : List (Block T)) (w : ℕ) (new : Block T)
      → IsUnique xs
      → ((k : ℕ) (x : Block T)
          → get_elem? xs k ≡ some x
          → k ≢ w
          → 0 < x.last_used
          → 0 < new.last_used
          → tag x.contents ≢ tag new.contents)
      → IsUnique (set xs w new)
  set-IsUnique xs w new u apart i j x y ei ej hx hy same = elim (ℕ-cases i w) [
    | inl iw ↦ elim (ℕ-cases j w) [
      | inl jw ↦ iw ∙ sym jw
      | inr jw ↦
          let old = sym (get_elem?-set_ne xs w j new (λ e. jw (sym e))) ∙ ej in
          let is_new = at_written i x iw ei in
          absurd (
            apart j y old jw hy (subst (λ (b : Block T). 0 < b.last_used) is_new hx)
              (sym same ∙ ap (λ (b : Block T). tag b.contents) is_new))
    ]
    | inr iw ↦
        let old = sym (get_elem?-set_ne xs w i new (λ e. iw (sym e))) ∙ ei in
        elim (ℕ-cases j w) [
          | inl jw ↦
              let is_new = at_written j y jw ej in
              absurd (
                apart i x old iw hx (subst (λ (b : Block T). 0 < b.last_used) is_new hy)
                  (same ∙ ap (λ (b : Block T). tag b.contents) is_new))
          | inr jw ↦
              u i j x y old (sym (get_elem?-set_ne xs w j new (λ e. jw (sym e))) ∙ ej) hx hy same
        ]
  ]
    where
      at_written : (k : ℕ) (z : Block T) → k ≡ w → get_elem? (set xs w new) k ≡ some z → z ≡ new
      at_written k z e g =
          let within : w < length xs =
            omega (arith, lt-of-get_elem? (set xs w new) k g, length-set xs w new) in
          some_inj.0 (sym g ∙ ap (get_elem? (set xs w new)) e ∙ get_elem?-set_self xs w new within)

  -- After `fill` the new block is the only one with its tag.
  module _ (xs : List (Block T)) (u : IsUnique xs) (ways : 0 < length xs) (elem : T) (used : ℕ)
      (pos : 0 < used) where
    abbrev new_block : Block T
    new_block = record { last_used = used; contents = elem }

    abbrev way : ℕ
    way = fill_way tag (tag elem) xs

    others_apart :
        (k : ℕ) (x : Block T)
        → get_elem? xs k ≡ some x
        → k ≢ way
        → is_match tag (tag elem) x ≡ false
    others_apart k x e apart = elim (Bool-cases (is_match tag (tag elem) x)) [
      | inr h ↦ h
      | inl h ↦ absurd (
          apart
            (sym (fill_way_only tag (tag elem) k x xs (IsUnique-IsOnly (tag elem) k x xs u e h))))
    ]

    pub filled-IsOnly : IsOnly tag (tag elem) way new_block (set xs way new_block)
    filled-IsOnly = record {
      at = get_elem?-set_self xs way new_block (fill_way-lt-length tag (tag elem) xs ways);
      matches = used-is_match new_block pos;
      others = λ k x e apart.
          others_apart k x (sym (get_elem?-set_ne xs way k new_block (λ s. apart (sym s))) ∙ e)
            apart;
    }

    pub filled-IsUnique : IsUnique (set xs way new_block)
    filled-IsUnique = set-IsUnique xs way new_block u λ k x e apart hx hn same. cc (
        sym (others_apart k x e apart)
        ∙ ap (λ (t : ℕ). is_match tag t x) (sym same)
        ∙ used-is_match x hx)
