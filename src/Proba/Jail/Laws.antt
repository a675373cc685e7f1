-- ===== src/Proba/Jail/Laws.antt =====
-- What `mark`, `unmark` and `in_jail` of the jail table mean for each other.
use proba_artifact.Prelude.{
  ℕ, ◌-◌, ◌<◌, ◌≡◌, refl, ap₂, ◌∙◌, [], ◌∷◌, zero, suc, ◌⊎◌, inl, inr, Bool, true, false, ◌&&◌,
  List, get_or, set, length, arith, get_or-set_self, length-set, length-replicate,
}
use proba_artifact.Prelude.And.{bit_and-le}
use proba_artifact.Proba.Jail.{
  JailTable, init, hash, build_key, second_key, write, mark, unmark, in_jail,
}

-- Both tables have an entry for each hash.
pub record IsSized (j : JailTable) : Type 0 where
  pub some_entries : 0 < j.num_entries
  pub sized1 : length j.jail_table1 ≡ j.num_entries
  pub sized2 : length j.jail_table2 ≡ j.num_entries

hash-lt : (n key : ℕ) → 0 < n → hash (n - 1) key < n
unfolding hash
hash-lt n key h = omega (arith, bit_and-le _ (n - 1))

pub init-IsSized : (n : ℕ) → 0 < n → IsSized (init n)
unfolding init
init-IsSized n h = record {
  some_entries = h;
  sized1 = length-replicate n false;
  sized2 = length-replicate n false;
}

pub write-IsSized : (j : JailTable) (r : ℕ) (b : Bool) → IsSized j → IsSized (write j r b)
write-IsSized j r b s = record {
  some_entries = s.some_entries;
  sized1 = length-set j.jail_table1 _ b ∙ s.sized1;
  sized2 = length-set j.jail_table2 _ b ∙ s.sized2;
}

get_or-set_same :
    (xs : List Bool) (n key : ℕ) (b : Bool)
    → 0 < n
    → length xs ≡ n
    → get_or (set xs (hash (n - 1) key) b) (hash (n - 1) key) false ≡ b
get_or-set_same xs n key b h l =
    get_or-set_self xs (hash (n - 1) key) b false (omega (arith, hash-lt n key h))

-- A marked region is in jail, and a released one is not.
pub in_jail-mark : (j : JailTable) (r : ℕ) → IsSized j → in_jail (mark j r) r ≡ true
unfolding mark in_jail
in_jail-mark j r s =
    ap₂ ◌&&◌
      (get_or-set_same j.jail_table1 j.num_entries (build_key r) true s.some_entries s.sized1)
      (get_or-set_same j.jail_table2 j.num_entries (second_key (build_key r)) true s.some_entries
        s.sized2)

pub in_jail-unmark : (j : JailTable) (r : ℕ) → IsSized j → in_jail (unmark j r) r ≡ false
unfolding unmark in_jail
in_jail-unmark j r s =
    ap₂ ◌&&◌
      (get_or-set_same j.jail_table1 j.num_entries (build_key r) false s.some_entries s.sized1)
      (get_or-set_same j.jail_table2 j.num_entries (second_key (build_key r)) false s.some_entries
        s.sized2)

-- A write of `true` clears no bit, and a write of `false` sets none.
get_or-set_either :
    (xs : List Bool) (i k : ℕ) (b : Bool)
    → (get_or (set xs i b) k false ≡ get_or xs k false) ⊎ (get_or (set xs i b) k false ≡ b)
get_or-set_either [] i k b = inl refl
get_or-set_either (x ∷ xs) zero zero b = inr refl
get_or-set_either (x ∷ xs) zero (suc k) b = inl refl
get_or-set_either (x ∷ xs) (suc i) zero b = inl refl
get_or-set_either (x ∷ xs) (suc i) (suc k) b = get_or-set_either xs i k b

-- A region in jail stays there when any region is marked.
pub in_jail-mark_other :
    (j : JailTable) (r r' : ℕ) → in_jail j r' ≡ true → in_jail (mark j r) r' ≡ true
unfolding mark in_jail
in_jail-mark_other j r r' h = ground (
  arith,
  get_or-set_either j.jail_table1 (hash (j.num_entries - 1) (build_key r))
      (hash (j.num_entries - 1) (build_key r')) true,
  get_or-set_either j.jail_table2 (hash (j.num_entries - 1) (second_key (build_key r)))
      (hash (j.num_entries - 1) (second_key (build_key r'))) true,
)

-- A region that is not in jail stays out of it when any region is released.
pub in_jail-unmark_other :
    (j : JailTable) (r r' : ℕ) → in_jail j r' ≡ false → in_jail (unmark j r) r' ≡ false
unfolding unmark in_jail
in_jail-unmark_other j r r' h = ground (
  arith,
  get_or-set_either j.jail_table1 (hash (j.num_entries - 1) (build_key r))
      (hash (j.num_entries - 1) (build_key r')) false,
  get_or-set_either j.jail_table2 (hash (j.num_entries - 1) (second_key (build_key r)))
      (hash (j.num_entries - 1) (second_key (build_key r'))) false,
)
