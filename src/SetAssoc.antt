-- ===== src/SetAssoc.antt =====
-- `custom_util::SetAssociativeCache<T>` of inc/custom_util.h: the tagged table below every
-- prefetcher's state. `entries` and `cams` are the two vectors of the class. The replacement policy
-- is the virtual `select_victim`, an argument of `insert` with the state that it may change.
pub mod Row
pub mod RowFind
pub mod Valid
pub mod Laws
pub mod Insert
pub mod Holds
pub mod Ranked
pub mod Lru
pub mod Rrip
pub mod Nmru
pub mod Lfu
pub mod Bip
use proba_artifact.Prelude.{
  ℕ, zero, suc, ◌+◌, ◌-◌, ◌/◌, ◌%◌, ◌^◌, Bool, true, false, Option, none, some, List, [], ◌∷◌, map,
  get_elem?, get_or, set, replicate, if◌then◌else◌, ◌==◌,
}
use proba_artifact.Prelude.Assoc

-- `Entry`; `payload` is the field `data`.
pub record Entry {ℓ} (T : Type ℓ) : Type ℓ where
  pub key : ℕ
  pub index : ℕ
  pub tag : ℕ
  pub valid : Bool
  pub payload : T

-- `std::unordered_map<uint64_t, int>`, from a tag to its way.
abbrev pub Cam : Type 0
Cam = List (ℕ × ℕ)

pub record SetAssociativeCache {ℓ} (T : Type ℓ) : Type ℓ where
  pub num_ways : ℕ
  pub num_sets : ℕ
  pub index_len : ℕ
  pub entries : List (List (Entry T))
  pub cams : List Cam

-- The loop of the constructor, `for (max_index = num_sets - 1; max_index > 0; max_index >>= 1)`.
-- The fuel is the index itself.
unfoldable pub bit_length : ℕ → ℕ → ℕ
bit_length zero max_index = 0
bit_length (suc fuel) max_index =
    let rest = bit_length fuel (max_index / 2) in if max_index == 0 then 0 else 1 + rest

unfoldable pub index_len_of : ℕ → ℕ
unfolding bit_length
index_len_of num_sets = bit_length (num_sets - 1) (num_sets - 1)

module _ {ℓ} {T : Type ℓ} where
  -- A value-initialised entry.
  abbrev pub blank : T → Entry T
  blank d = record { key = 0; index = 0; tag = 0; valid = false; payload = d }

  -- The constructor; `d` is the value `T{}`.
  unfoldable pub init : T → ℕ → ℕ → SetAssociativeCache T
  unfolding index_len_of
  init d size num_ways =
      let num_sets = size / num_ways in
      record {
        num_ways = num_ways;
        num_sets = num_sets;
        index_len = index_len_of num_sets;
        entries = replicate num_sets (replicate num_ways (blank d));
        cams = replicate num_sets [];
      }

  -- `key & ((1 << index_len) - 1)` and `key >> index_len`
  abbrev pub index_of : SetAssociativeCache T → ℕ → ℕ
  index_of c key = key % 2 ^ c.index_len

  abbrev pub tag_of : SetAssociativeCache T → ℕ → ℕ
  tag_of c key = key / 2 ^ c.index_len

  abbrev pub row : SetAssociativeCache T → ℕ → List (Entry T)
  row c index = get_or c.entries index []

  abbrev pub cam : SetAssociativeCache T → ℕ → Cam
  cam c index = get_or c.cams index []

  -- The part of `find` that looks at one set: where the valid entry with the tag stands.
  unfoldable pub find_in : List (Entry T) → Cam → ℕ → Option (ℕ × Entry T)
  find_in ways cam tag = elim (Assoc.lookup tag cam) [
    | none ↦ none
    | some way ↦ elim (get_elem? ways way) [
      | none ↦ none
      | some e ↦ if e.valid then some (way, e) else none
    ]
  ]

  -- The pointer that `find` returns: the way, and what stands there.
  unfoldable pub locate : SetAssociativeCache T → ℕ → Option (ℕ × Entry T)
  locate c key = find_in (row c (index_of c key)) (cam c (index_of c key)) (tag_of c key)

  abbrev snd_of : Option (ℕ × Entry T) → Option (Entry T)
  snd_of none = none
  snd_of (some (way, e)) = some e

  unfoldable pub find : SetAssociativeCache T → ℕ → Option (Entry T)
  unfolding locate
  find c key = snd_of (locate c key)

  -- A write through a pointer into set `index`.
  unfoldable pub write : SetAssociativeCache T → ℕ → ℕ → Entry T → SetAssociativeCache T
  write c index way e = record c { entries = set c.entries index (set (row c index) way e) }

  -- The scan for the first way that is not valid; `i` is the loop's counter.
  unfoldable pub first_invalid : ℕ → List (Entry T) → Option ℕ
  first_invalid i [] = none
  first_invalid i (e ∷ ways) = if e.valid then first_invalid (suc i) ways else some i

  -- `victim = {…}` and the upkeep of the cam: the set, the cam and the old entry. A way out of
  -- range, undefined in the source, leaves the set as it is.
  unfoldable pub place : List (Entry T) → Cam → ℕ → Entry T → List (Entry T) × Cam × Entry T
  place ways cam way e =
      let old = get_or ways way e in
      let cleared = if old.valid then Assoc.erase old.tag cam else cam in
      (set ways way e, Assoc.insert e.tag way cleared, old)

  -- `{key, index, tag, true, data}`
  abbrev pub fresh : SetAssociativeCache T → ℕ → T → Entry T
  fresh c key d = record {
    key = key;
    index = index_of c key;
    tag = tag_of c key;
    valid = true;
    payload = d;
  }

  -- `update`; the assertion that the key is present is the option.
  unfoldable pub update : SetAssociativeCache T → ℕ → T → Option (SetAssociativeCache T)
  update c key d = elim (locate c key) [
    | none ↦ none
    | some (way, _) ↦ some (write c (index_of c key) way (fresh c key d))
  ]

  -- `entry->data = f(entry->data)` through the pointer that `find` returns.
  unfoldable pub modify : SetAssociativeCache T → ℕ → (T → T) → SetAssociativeCache T
  modify c key f = elim (locate c key) [
    | none ↦ c
    | some (way, e) ↦ write c (index_of c key) way (record e { payload = f e.payload })
  ]

  -- `erase`: the cache, and the entry that the returned pointer shows.
  unfoldable pub erase : SetAssociativeCache T → ℕ → SetAssociativeCache T × Option (Entry T)
  erase c key =
      let i = index_of c key in
      let c' = record c { cams = set c.cams i (Assoc.erase (tag_of c key) (cam c i)) } in
      elim (locate c key) [
        | none ↦ (c', none)
        | some (way, e) ↦ let gone = record e { valid = false } in (write c' i way gone, some gone)
      ]

  unfoldable pub count_valid : List (Entry T) → ℕ
  count_valid [] = 0
  count_valid (e ∷ ways) = if e.valid then suc (count_valid ways) else count_valid ways

  unfoldable pub get_num_valid_entries_per_set : SetAssociativeCache T → ℕ → ℕ
  unfolding count_valid
  get_num_valid_entries_per_set c key = count_valid (row c (index_of c key))

  unfoldable pub invalidate : Entry T → Entry T
  invalidate e = record e { valid = false }

  -- `flush`
  unfoldable pub flush : SetAssociativeCache T → SetAssociativeCache T
  unfolding invalidate
  flush c = record c { entries = map (map invalidate) c.entries; cams = map (λ _. []) c.cams }

  -- `this->cams[index][tag]`: a missing tag is inserted, at way 0.
  unfoldable pub way_of : SetAssociativeCache T → ℕ → ℕ → ℕ × SetAssociativeCache T
  way_of c index tag = elim (Assoc.lookup tag (cam c index)) [
    | some way ↦ (way, c)
    | none ↦ (0, record c { cams = set c.cams index (Assoc.insert tag 0 (cam c index)) })
  ]

module _ {ℓ κ} {T : Type ℓ} {S : Type κ} (select_victim : S → ℕ → ℕ × S) where
  -- The way that `insert` overwrites, and the policy's state after the choice.
  unfoldable pub victim_way : S → ℕ → List (Entry T) → ℕ × S
  victim_way s index ways = elim (first_invalid 0 ways) [
    | some way ↦ (way, s)
    | none ↦ select_victim s index
  ]

  -- `insert`: the policy's state, the cache, and the old entry.
  unfoldable pub insert : S → SetAssociativeCache T → ℕ → T → S × SetAssociativeCache T × Entry T
  insert s c key d = elim (locate c key) [
    | some (way, e) ↦ (s, write c (index_of c key) way (record e { payload = d }), e)
    | none ↦
        let i = index_of c key in
        let (way, s') = victim_way s i (row c i) in
        let e = fresh c key d in
        let (ways', cam', old) = place (row c i) (cam c i) way e in
        (s', record c { entries = set c.entries i ways'; cams = set c.cams i cam' }, old)
  ]
