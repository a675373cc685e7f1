-- ===== src/SetAssoc/Lru/Mru.antt =====
-- A key that was just used is not the next one to be evicted.
use mathlib.Core.Option.{some-injective}
use proba_artifact.Prelude.{
  ℕ, zero, suc, ◌≤◌, ◌<◌, ◌+◌, ◌^◌, Option, none, some, List, [], get_elem?, get_or, set, length,
  ◌≡◌, sym, ap, ◌∙◌, ◌≢◌, inl, inr, ◌==◌, ◌&&◌, arith, Bool-cases, ℕ-cases, lt-of-get_elem?,
  get_elem?_of_lt, get_elem?-set_self, get_elem?-set_ne, get_or-set_self, get_or-set_ne, length-set,
  ne→==-false, subst,
}
use proba_artifact.SetAssoc
use proba_artifact.SetAssoc.{Entry, index_of, locate, snd_of}
use proba_artifact.SetAssoc.Valid.{index_of-lt}
use proba_artifact.SetAssoc.Laws.{locate-facts}
use proba_artifact.SetAssoc.Insert.{find-insert}
use proba_artifact.SetAssoc.Insert.Evict.{insert-lost}
use proba_artifact.SetAssoc.Ranked.{IsValid, rank_row, with_rank-hit, with_rank-IsValid}
use proba_artifact.SetAssoc.Lru.{LruSetAssociativeCache, select_victim, set_mru, find, insert}
use proba_artifact.SetAssoc.Lru.Laws.{IsStamped, IsLeast, select_victim-IsLeast}

set-le :
    (xs : List ℕ) (i t : ℕ)
    → ((w u : ℕ) → get_elem? xs w ≡ some u → u < t)
    → (w u : ℕ) → get_elem? (set xs i t) w ≡ some u
    → u ≤ t
set-le xs i t below w u g = elim (ℕ-cases i w) [
  | inl here ↦
      let lt : i < length xs = omega (arith, lt-of-get_elem? (set xs i t) w g, length-set xs i t) in
      ground (arith, get_elem?-set_self xs i t lt)
  | inr there ↦ omega (arith, below w u (rw (get_elem?-set_ne xs i w t there) at g))
]

module _ {ℓ} {T : Type ℓ} where
  pub found-located :
      (c : SetAssoc.SetAssociativeCache T) (key : ℕ) (e : Entry T)
      → SetAssoc.find c key ≡ some e
      → (way : ℕ) × (locate c key ≡ some (way, e))
  unfolding SetAssoc.find
  found-located c key e h = cases (locate c key) h
    where
      cases : (o : Option (ℕ × Entry T)) → snd_of o ≡ some e → (way : ℕ) × (o ≡ some (way, e))
      cases none h = cc
      cases (some (way, x)) h = (way, ap (λ y. some (way, y)) (some-injective x e h))

  module _ (c : LruSetAssociativeCache T) (key : ℕ) (e : Entry T) (v : IsStamped c)
      (held : find c key ≡ some e) where
    -- `set_mru` leaves the contents alone, and writes the clock at the key's way.
    pub set_mru-facts :
        (way : ℕ)
        → locate c.table.base key ≡ some (way, e)
        → IsValid (set_mru c key).table
          × ((set_mru c key).table.base ≡ c.table.base)
          × ((set_mru c key).table.ranks
              ≡ set c.table.ranks
                  (index_of c.table.base key)
                  (set (rank_row c.table (index_of c.table.base key)) way c.t))
    unfolding set_mru
    set_mru-facts way at =
        let (ok, same) = with_rank-IsValid c.table key way e (λ _. c.t) v.table_valid at in
        (ok, same, rw (with_rank-hit c.table key way e (λ _. c.t) v.table_valid at))

    -- The ways of the key's set afterwards.
    mru_row :
        (way : ℕ)
        → locate c.table.base key ≡ some (way, e)
        → rank_row (set_mru c key).table (index_of c.table.base key)
          ≡ set (rank_row c.table (index_of c.table.base key)) way c.t
    mru_row way at =
        let (_, _, ranks) = set_mru-facts way at in
        let lt : index_of c.table.base key < length c.table.ranks = omega (
          arith,
          index_of-lt c.table.base key v.table_valid.base_valid,
          v.table_valid.ranks_sized,
        ) in
        rw ranks (get_or-set_self c.table.ranks (index_of c.table.base key) _ [] lt)

    rank_row-mru :
        (i w u way : ℕ)
        → locate c.table.base key ≡ some (way, e)
        → get_elem? (rank_row (set_mru c key).table i) w ≡ some u
        → u ≤ c.t
    rank_row-mru i w u way at g = elim (ℕ-cases (index_of c.table.base key) i) [
      | inl here ↦
          set-le (rank_row c.table (index_of c.table.base key)) way c.t
            (v.stamped (index_of c.table.base key)) w u
            (ap (λ (l : List ℕ). get_elem? l w) (sym (mru_row way at))
              ∙ ap (λ (k : ℕ). get_elem? (rank_row (set_mru c key).table k) w) here
              ∙ g)
      | inr there ↦
          let (_, _, ranks) = set_mru-facts way at in
          let old : get_elem? (rank_row c.table i) w ≡ some u =
            ap (λ (l : List ℕ). get_elem? l w)
              (sym (get_or-set_ne c.table.ranks (index_of c.table.base key) i _ [] there))
            ∙ ap (λ (l : List (List ℕ)). get_elem? (get_or l i []) w) (sym ranks)
            ∙ g in
          omega (arith, v.stamped i w u old)
    ]

    -- In a valid LRU table with stamps below its clock, set_mru on a key that is found keeps it
    -- so, until the clock wraps.
    pub set_mru-IsStamped : c.t + 1 < 2 ^ 64 → IsStamped (set_mru c key)
    unfolding set_mru
    set_mru-IsStamped fits =
        let (way, at) = found-located c.table.base key e held in
        let (ok, same, ranks) = set_mru-facts way at in
        record { table_valid = ok; stamped = λ i w u g. omega (arith, rank_row-mru i w u way at g) }

    way-lt :
        (way : ℕ)
        → locate c.table.base key ≡ some (way, e)
        → way < length (rank_row c.table (index_of c.table.base key))
    way-lt way at =
        let lt = index_of-lt c.table.base key v.table_valid.base_valid in
        let r = v.table_valid.base_valid.rows (index_of c.table.base key) lt in
        let (g, _, _, _, _, _) = locate-facts c.table.base key way e v.table_valid.base_valid at in
        omega (
          arith,
          lt-of-get_elem? (SetAssoc.row c.table.base (index_of c.table.base key)) way g,
          r.sized,
          v.table_valid.rows_sized (index_of c.table.base key) lt,
        )

    -- The victim of the key's set, chosen after the key was used, is not the key's way, if the set
    -- has another.
    mru_not-IsLeast :
        (way : ℕ)
        → locate c.table.base key ≡ some (way, e)
        → 2 ≤ c.table.base.num_ways
        → ¬ IsLeast (rank_row (set_mru c key).table (index_of c.table.base key)) way
    mru_not-IsLeast way at two (x, g, least) =
        let row = rank_row c.table (index_of c.table.base key) in
        let lt = index_of-lt c.table.base key v.table_valid.base_valid in
        let len = v.table_valid.rows_sized (index_of c.table.base key) lt in
        let (there, apart, small) = another way in
        let (u, old) = get_elem?_of_lt row there (omega (arith, len)) in
        let below = v.stamped (index_of c.table.base key) there u old in
        let val = way-lt way at in
        let newest : x ≡ c.t = some-injective x c.t (
          sym g
          ∙ ap (λ (l : List ℕ). get_elem? l way) (mru_row way at)
          ∙ get_elem?-set_self row way c.t val) in
        let kept =
          ap (λ (l : List ℕ). get_elem? l there) (mru_row way at)
          ∙ get_elem?-set_ne row way there c.t apart
          ∙ old in
        omega (arith, least there u kept)
      where
        another : (w : ℕ) → (j : ℕ) × (w ≢ j) × (j < 2)
        another zero = (1, omega arith, omega arith)
        another (suc w) = (0, omega arith, omega arith)

    bounded :
        (key' way : ℕ)
        → locate c.table.base key ≡ some (way, e)
        → 2 ≤ c.table.base.num_ways
        → IsLeast
            (rank_row (set_mru c key).table (index_of (set_mru c key).table.base key'))
            (select_victim (set_mru c key).table.ranks (index_of (set_mru c key).table.base key')).0
          × ((select_victim
                (set_mru c key).table.ranks
                (index_of (set_mru c key).table.base key')).0
              < (set_mru c key).table.base.num_ways)
    bounded key' way at two =
        let (ok, same, _) = set_mru-facts way at in
        select_victim-IsLeast (set_mru c key) (index_of (set_mru c key).table.base key') ok
          (rw same (omega arith)) (index_of-lt _ key' ok.base_valid)

    not_lost :
        (key' : ℕ) (d : T)
        → 2 ≤ c.table.base.num_ways
        → key' ≢ key
        → find (insert (set_mru c key) key' d).0 key ≢ none
    unfolding insert
    not_lost key' d two ne lost =
        let (way, at) = found-located c.table.base key e held in
        let (ok, same, _) = set_mru-facts way at in
        let (least, lt) = bounded key' way at two in
        let held' = ap (λ b. SetAssoc.find b key) same ∙ held in
        let (here, at') =
          insert-lost select_victim (set_mru c key).table.ranks (set_mru c key).table.base key' d
            ok.base_valid lt key e ne held' lost in
        let here' = here ∙ ap (λ b. index_of b key) same in
        mru_not-IsLeast _ (sym (ap (λ b. locate b key) same) ∙ at') two (
          subst
            (λ (i : ℕ).
              IsLeast (rank_row (set_mru c key).table i)
                (select_victim (set_mru c key).table.ranks
                  (index_of (set_mru c key).table.base key')).0)
            here' least)

    -- In a valid LRU table of at least two ways with stamps below its clock: a key that is
    -- found, and is then used, is still found with its entry after the insertion of any other
    -- key.
    pub insert-keeps_mru :
        (key' : ℕ) (d : T)
        → 2 ≤ c.table.base.num_ways
        → key' ≢ key
        → find (insert (set_mru c key) key' d).0 key ≡ some e
    unfolding insert
    insert-keeps_mru key' d two ne =
        let (way, at) = found-located c.table.base key e held in
        let (ok, same, _) = set_mru-facts way at in
        let (least, lt) = bounded key' way at two in
        let after =
          find-insert select_victim (set_mru c key).table.ranks (set_mru c key).table.base key' d
            ok.base_valid lt key in
        let old =
          (SetAssoc.insert select_victim (set_mru c key).table.ranks (set_mru c key).table.base key'
            d).2 in
        elim (Bool-cases (old.valid && old.key == key)) [
          | inl hit ↦ absurd (not_lost key' d two ne (after ∙ rw (ne→==-false _ _ ne, hit)))
          | inr other ↦
              after ∙ rw (ne→==-false _ _ ne, other) (ap (λ b. SetAssoc.find b key) same ∙ held)
        ]
