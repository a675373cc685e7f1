-- ===== src/Proba/Buffer/Issued.antt =====
-- What the loop of `PrefetchBuffer::prefetch` does to the held pattern, for any cache below.
use proba_artifact.Prelude.{
  ℕ, zero, suc, ◌+◌, ◌-◌, ◌≡◌, refl, ap, ◌∙◌, ◌⊎◌, inl, inr, Bool, true, false, [], ◌∷◌, get_or,
  set, if◌then◌else◌, ltb, leb, arith, Bool-cases, length, length-set, All, All-set,
}
use proba_artifact.Proba.Pattern.{Pattern, IsBlock, IsPattern}
use proba_artifact.Proba.Buffer.{
  Cache, Issue, has_room, issue, issue_pair, issue_from, address, add_blocks,
}

-- The blocks that are still to be requested.
unfoldable pub pending : Pattern → ℕ
pending [] = 0
pending (x ∷ p) = if ltb 0 x then suc (pending p) else pending p

pending-set :
    (p : Pattern) (i : ℕ) → ltb 0 (get_or p i 0) ≡ true → suc (pending (set p i 0)) ≡ pending p
unfolding pending
pending-set [] i h = absurd (ground arith)
pending-set (x ∷ p) zero h = ground arith
pending-set (x ∷ p) (suc i) h = ground (arith, pending-set p i h)

-- A property that the request for a block keeps, whatever the block is, is kept by the loop.
module _ {ℓ} (c : Cache) (region_number pattern_len base_addr : ℕ) (Q : Issue c.State → Type ℓ)
    (keeps : (offset : ℕ) (s : Issue c.State)
      → Q s
      → Q (issue c region_number pattern_len base_addr offset s).0) where
  issue_pair-keeps :
      (region_offset d : ℕ) (s : Issue c.State)
      → Q s
      → Q (issue_pair c region_number pattern_len base_addr region_offset d s).0
  unfolding issue_pair
  issue_pair-keeps region_offset d s h = elim (Bool-cases (ltb (region_offset + d) pattern_len)) [
    | inl up ↦ rw up (
        below (issue c region_number pattern_len base_addr (region_offset + d) s)
          (keeps (region_offset + d) s h))
    | inr past ↦ rw past (below (s, false) h)
  ]
    where
      below :
          (r : Issue c.State × Bool)
          → Q r.0
          → Q
              (if r.1
                then (r.0, true)
                else if leb d region_offset
                then issue c region_number pattern_len base_addr (region_offset - d) r.0
                else (r.0, false)).0
      below (s', true) h = h
      below (s', false) h = elim (Bool-cases (leb d region_offset)) [
        | inl down ↦ rw down (keeps (region_offset - d) s' h)
        | inr before ↦ rw before h
      ]

  pub issue_from-keeps :
      (left region_offset d : ℕ) (s : Issue c.State)
      → Q s
      → Q (issue_from c left region_number pattern_len base_addr region_offset d s).0
  unfolding issue_from
  issue_from-keeps zero region_offset d s h = h
  issue_from-keeps (suc left) region_offset d s h =
      let r = issue_pair c region_number pattern_len base_addr region_offset d s in
      let next = issue_pair-keeps region_offset d s h in
      rest r.1 r.0 next (issue_from-keeps left region_offset (suc d) r.0 next)
    where
      rest :
          (stop : Bool) (s' : Issue c.State)
          → Q s'
          → Q (issue_from c left region_number pattern_len base_addr region_offset (suc d) s').0
          → Q
              (if stop
                then (s', true)
                else issue_from c left region_number pattern_len base_addr region_offset
                    (suc d)
                    s').0
      rest true s' h on = h
      rest false s' h on = on

-- What one request leaves of the pattern: either nothing is taken, or its block is cleared.
module _ (c : Cache) (region_number pattern_len base_addr : ℕ) where
  issue-cases :
      (offset : ℕ) (s : Issue c.State)
      → (((issue c region_number pattern_len base_addr offset s).0.pattern ≡ s.pattern)
          × ((issue c region_number pattern_len base_addr offset s).0.pf_issued ≡ s.pf_issued))
        ⊎ ((ltb 0 (get_or s.pattern offset 0) ≡ true)
            × ((issue c region_number pattern_len base_addr offset s).0.pattern
                ≡ set s.pattern offset 0)
            × ((issue c region_number pattern_len base_addr offset s).0.pf_issued
                ≡ s.pf_issued + 1))
  unfolding issue
  issue-cases offset s = elim (Bool-cases (ltb 0 (get_or s.pattern offset 0))) [
    | inr empty ↦ inl (rw empty (refl, refl))
    | inl block ↦ elim (Bool-cases (has_room c s.cache)) [
      | inr full ↦ inl (rw (block, full) (refl, refl))
      | inl room ↦
          let sent =
            c.prefetch_line s.cache base_addr (address c region_number pattern_len offset) in
          elim (Bool-cases sent.1) [
            | inl ok ↦ inr (rw (block, room, ok) (refl, refl, refl))
            | inr refused ↦ inl (rw (block, room, refused) (refl, refl))
          ]
    ]
  ]

  -- The blocks still held and the requests taken, together.
  unfoldable pub total : Issue c.State → ℕ
  total s = pending s.pattern + s.pf_issued

  issue-total :
      (offset : ℕ) (s : Issue c.State)
      → total (issue c region_number pattern_len base_addr offset s).0 ≡ total s
  unfolding total
  issue-total offset s = elim (issue-cases offset s) [
    | inl (p, n) ↦ rw (p, n) refl
    | inr (block, p, n) ↦ rw (p, n) (omega (arith, pending-set s.pattern offset block))
  ]

  -- Whatever the cache answers and wherever the loop of PrefetchBuffer::prefetch stops, the
  -- number of blocks still held and the number of requests taken have the same sum as before it:
  -- each request that was taken cleared exactly one block.
  pub issue_from-total :
      (left region_offset d : ℕ) (s : Issue c.State)
      → total (issue_from c left region_number pattern_len base_addr region_offset d s).0 ≡ total s
  issue_from-total left region_offset d s =
      issue_from-keeps c region_number pattern_len base_addr (λ r. total r ≡ total s)
        (λ offset r h. issue-total offset r ∙ h) left region_offset d s refl

  -- What is held stays a region pattern.
  pub issue_from-IsPattern :
      (left region_offset d : ℕ) (s : Issue c.State)
      → IsPattern s.pattern
      → IsPattern
          (issue_from c left region_number pattern_len base_addr region_offset d s).0.pattern
  issue_from-IsPattern left region_offset d s h =
      issue_from-keeps c region_number pattern_len base_addr (λ r. IsPattern r.pattern)
        (λ offset r hr. elim (issue-cases offset r) [
          | inl (p, n) ↦ rw p hr
          | inr (block, p, n) ↦ rw p (
            length-set r.pattern offset 0 ∙ hr.0,
            All-set IsBlock r.pattern offset 0 hr.1 (inl refl),
          )
        ])
        left region_offset d s h

length-add_blocks : (p q : Pattern) → length (add_blocks p q) ≡ length q
unfolding add_blocks
length-add_blocks [] q = refl
length-add_blocks (x ∷ p) [] = refl
length-add_blocks (x ∷ p) (y ∷ q) = ap suc (length-add_blocks p q)

add_blocks-All : (p q : Pattern) → All IsBlock q → All IsBlock (add_blocks p q)
unfolding add_blocks
add_blocks-All [] q h = h
add_blocks-All (x ∷ p) [] h = tt
add_blocks-All (x ∷ p) (y ∷ q) h = (ground arith, add_blocks-All p q h.1)

-- A pattern to which blocks are added stays a region pattern.
pub add_blocks-IsPattern : (p q : Pattern) → IsPattern q → IsPattern (add_blocks p q)
add_blocks-IsPattern p q h = (length-add_blocks p q ∙ h.0, add_blocks-All p q h.1)
