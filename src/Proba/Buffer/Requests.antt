-- ===== src/Proba/Buffer/Requests.antt =====
-- The requests that `PrefetchBuffer::prefetch` sends, seen by a recorder between it and its cache.
use proba_artifact.Prelude.{
  ℕ, zero, suc, ◌+◌, ◌*◌, ◌/◌, ◌%◌, ◌^◌, ◌<◌, ◌≡◌, ◌∙◌, inl, inr, true, List, [], ◌∷◌, get_or, set,
  length, length-set, All, ltb, Bool-cases, arith,
}
use proba_artifact.Proba.Pattern.{Pattern}
use proba_artifact.Proba.Buffer.{Cache, Issue, has_room, issue, issue_from, address}
use proba_artifact.Proba.Buffer.Issued.{issue_from-keeps}

-- The cache `c`, with the addresses that were asked of it, the last one first.
abbrev pub recording : Cache → Cache
recording c = record {
  State = c.State × List ℕ;
  mshr_occupancy = λ s. c.mshr_occupancy s.0;
  pq_occupancy = λ s. c.pq_occupancy s.0;
  mshr_size = c.mshr_size;
  pq_size = c.pq_size;
  prefetch_line = λ s base_addr pf_addr.
      (let (s', ok) = c.prefetch_line s.0 base_addr pf_addr in ((s', pf_addr ∷ s.1), ok));
}

get_or-clear :
    (p : Pattern) (i j : ℕ) → ltb 0 (get_or (set p i 0) j 0) ≡ true → ltb 0 (get_or p j 0) ≡ true
get_or-clear [] i j h = h
get_or-clear (x ∷ p) zero zero h = ground arith
get_or-clear (x ∷ p) zero (suc j) h = h
get_or-clear (x ∷ p) (suc i) zero h = h
get_or-clear (x ∷ p) (suc i) (suc j) h = get_or-clear p i j h

lt-of-block : (p : Pattern) (i : ℕ) → ltb 0 (get_or p i 0) ≡ true → i < length p
lt-of-block [] i h = absurd (ground arith)
lt-of-block (x ∷ p) zero h = omega arith
lt-of-block (x ∷ p) (suc i) h = omega (arith, lt-of-block p i h)

module _ (region_number : ℕ) (held : Pattern) where
  -- An address in the region, of a block that the pattern holds.
  abbrev pub IsHeldBlock : ℕ → Type 0
  IsHeldBlock a = (a / 2 ^ 12 ≡ region_number) × (ltb 0 (get_or held (a / 2 ^ 6 % 64) 0) ≡ true)

  module _ (c : Cache) (base_addr : ℕ) (fits : region_number < 2 ^ 52) where
    abbrev Good : Issue (recording c).State → Type 0
    Good s =
        (length s.pattern ≡ 64)
        × All IsHeldBlock s.cache.1
        × ((i : ℕ) → ltb 0 (get_or s.pattern i 0) ≡ true → ltb 0 (get_or held i 0) ≡ true)

    address-IsHeldBlock :
        (offset : ℕ)
        → offset < 64
        → ltb 0 (get_or held offset 0) ≡ true
        → IsHeldBlock (address c region_number 64 offset)
    address-IsHeldBlock offset lt h =
        let whole : address c region_number 64 offset ≡ region_number * 4096 + offset * 64 =
          omega arith in
        let block : address c region_number 64 offset / 2 ^ 6 % 64 ≡ offset = omega arith in
        (omega arith, rw block h)

    issue-Good :
        (offset : ℕ) (s : Issue (recording c).State)
        → Good s
        → Good (issue (recording c) region_number 64 base_addr offset s).0
    unfolding issue
    issue-Good offset s (len, log, within) = elim (Bool-cases (ltb 0 (get_or s.pattern offset 0))) [
      | inr empty ↦ rw empty (len, log, within)
      | inl block ↦ elim (Bool-cases (has_room (recording c) s.cache)) [
        | inr full ↦ rw (block, full) (len, log, within)
        | inl room ↦
            let sent = c.prefetch_line s.cache.0 base_addr (address c region_number 64 offset) in
            let lt : offset < 64 = omega (arith, lt-of-block s.pattern offset block) in
            let log' : All IsHeldBlock (address c region_number 64 offset ∷ s.cache.1) =
              (address-IsHeldBlock offset lt (within offset block), log) in
            elim (Bool-cases sent.1) [
              | inl ok ↦
                  rw (block, room, ok)
                    (
                      length-set s.pattern offset 0 ∙ len,
                      log',
                      λ i h. within i (get_or-clear s.pattern offset i h),
                    )
              | inr refused ↦ rw (block, room, refused) (len, log', within)
            ]
      ]
    ]

    -- For a region number below 2^52 and a held pattern of 64 blocks, every address that the
    -- loop of PrefetchBuffer::prefetch requests lies in the region and is that of a block that
    -- the pattern holds, whatever the cache answers.
    pub issue_from-IsHeldBlock :
        (left region_offset d : ℕ) (s : c.State)
        → length held ≡ 64
        → All IsHeldBlock
            (issue_from
              (recording c)
              left
              region_number
              64
              base_addr
              region_offset
              d
              (record { pattern = held; pf_issued = 0; cache = (s, []) })).0.cache.1
    issue_from-IsHeldBlock left region_offset d s len =
        (issue_from-keeps (recording c) region_number 64 base_addr Good issue-Good left
          region_offset d (record { pattern = held; pf_issued = 0; cache = (s, []) })
          (len, tt, λ i h. h)).1
