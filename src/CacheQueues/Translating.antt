-- ===== src/CacheQueues/Translating.antt =====
-- The struct TranslatingQueues of inc/cache.h: requests at virtual addresses wait for their translation.
use proba_artifact.Prelude.{
  ℕ, ◌/◌, ◌^◌, min, Bool, true, not, ◌&&◌, List, [], ◌∷◌, ◌++◌, ◌==◌, ltb, if◌then◌else◌,
}
use mathlib.Core.List.{map}
use proba_artifact.Msl.Bits.{splice_bits}
use proba_artifact.CacheQueues.Packet.{Packet, load, uint64_max}
use proba_artifact.CacheQueues.Queues.{Queues, check_collision, is_ready, ready_cycle}

-- The level below, which takes the request for a translation or turns it down.
pub record Lower : Type 1 where
  pub State : Type 0
  pub add_rq : Packet → State → Bool × State

module _ (lower : Lower) where
  -- `this` is the address of the queues, to which the translation comes back.
  unfoldable pub issue_entry : ℕ → Packet → lower.State → Packet × lower.State
  issue_entry this p s =
      let (success, s') = lower.add_rq (record p { type = load; to_return = this ∷ [] }) s in
      if not p.translate_issued && p.address == p.v_address
      then (if success then record p { translate_issued = true; address = 0 } else p, s')
      else (p, s)

  unfoldable pub do_issue_translation : ℕ → List Packet → lower.State → List Packet × lower.State
  unfolding issue_entry
  do_issue_translation this [] s = ([], s)
  do_issue_translation this (p ∷ ps) s =
      let (p', s₁) = issue_entry this p s in
      let (ps', s₂) = do_issue_translation this ps s₁ in (p' ∷ ps', s₂)

  unfoldable pub issue_translation : ℕ → Queues → lower.State → Queues × lower.State
  unfolding do_issue_translation
  issue_translation this q s =
      let (wq, s₁) = do_issue_translation this q.wq s in
      let (rq, s₂) = do_issue_translation this q.rq s₁ in
      let (pq, s₃) = do_issue_translation this q.pq s₂ in
      (record q { wq = wq; rq = rq; pq = pq }, s₃)

-- An entry that would be ready but for its translation.
abbrev pub is_stalled : ℕ → Packet → Bool
is_stalled current_cycle p = ltb p.event_cycle current_cycle && p.address == 0

unfoldable pub stalled_part : ℕ → List Packet → List Packet
stalled_part current_cycle [] = []
stalled_part current_cycle (p ∷ ps) =
    if is_stalled current_cycle p
    then record p { event_cycle = uint64_max } ∷ stalled_part current_cycle ps
    else []

unfoldable pub moving_part : ℕ → List Packet → List Packet
moving_part current_cycle [] = []
moving_part current_cycle (p ∷ ps) =
    if is_stalled current_cycle p then moving_part current_cycle ps else p ∷ ps

-- The stalled entries at the front go to the back.
unfoldable pub do_detect_misses : ℕ → List Packet → List Packet
unfolding stalled_part moving_part
do_detect_misses current_cycle queue =
    moving_part current_cycle queue ++ stalled_part current_cycle queue

unfoldable pub detect_misses : Queues → Queues
unfolding do_detect_misses
detect_misses q = record q {
  wq = do_detect_misses q.current_cycle q.wq;
  rq = do_detect_misses q.current_cycle q.rq;
  pq = do_detect_misses q.current_cycle q.pq;
}

unfoldable pub operate : (lower : Lower) → ℕ → Queues → lower.State → Queues × lower.State
unfolding issue_translation detect_misses
operate lower this q s =
    let (issued, s') = issue_translation lower this (check_collision q) s in
    (detect_misses issued, s')

abbrev pub is_ready_translated : Queues → Packet → Bool
is_ready_translated q p = is_ready q p && not (p.address == 0) && p.is_translated

-- An entry of the page that `packet` translates.
unfoldable pub translate_entry : ℕ → Queues → Packet → Packet → Packet
translate_entry log2_page_size q packet p =
    if p.v_address / 2 ^ log2_page_size == packet.v_address / 2 ^ log2_page_size
    then record p {
      address = splice_bits packet.content p.v_address log2_page_size;
      event_cycle = min p.event_cycle (ready_cycle q);
      is_translated = true;
    }
    else p

unfoldable pub return_data : ℕ → Packet → Queues → Queues
unfolding translate_entry
return_data log2_page_size packet q =
    let entry = translate_entry log2_page_size q packet in
    record q { wq = map entry q.wq; rq = map entry q.rq; pq = map entry q.pq }
