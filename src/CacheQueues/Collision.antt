-- ===== src/CacheQueues/Collision.antt =====
-- The collisions of a request with one that is queued: `do_collision_for` and the two loops of
-- `check_collision`.
use proba_artifact.Prelude.{
  ℕ, ◌+◌, true, ◌&&◌, ◌||◌, Option, none, some, List, [], ◌∷◌, ◌++◌, if◌then◌else◌,
}
use mathlib.Core.Option
use proba_artifact.CacheQueues.Packet.{Packet, eq_addr, set_union}

-- The callback of `do_collision_for_merge`: `source` goes into `destination`.
unfoldable pub merge_packet : Packet → Packet → Packet
merge_packet source destination = record destination {
  fill_this_level = source.fill_this_level || destination.fill_this_level;
  instr_depend_on_me = set_union destination.instr_depend_on_me source.instr_depend_on_me;
  to_return = set_union destination.to_return source.to_return;
}

-- Only the first packet of the block is looked at, and both must have been translated. The result
-- is the range with that packet merged.
unfoldable pub do_collision_for_merge : ℕ → Packet → List Packet → Option (List Packet)
do_collision_for_merge shamt packet [] = none
do_collision_for_merge shamt packet (found ∷ rest) =
    let later = Option.map (◌∷◌ found) (do_collision_for_merge shamt packet rest) in
    if eq_addr packet.address shamt found
    then (if packet.is_translated && found.is_translated
        then some (merge_packet packet found ∷ rest)
        else none)
    else later

-- The callback of `do_collision_for_return`: the packet that its producers are given.
unfoldable pub forward_packet : Packet → Packet → Packet
forward_packet source destination = record source {
  content = destination.content;
  pf_metadata = destination.pf_metadata;
}

unfoldable pub do_collision_for_return : ℕ → Packet → List Packet → Option Packet
do_collision_for_return shamt packet [] = none
do_collision_for_return shamt packet (found ∷ rest) =
    let later = do_collision_for_return shamt packet rest in
    if eq_addr packet.address shamt found
    then (if packet.is_translated && found.is_translated
        then some (forward_packet packet found)
        else none)
    else later

-- The packets before the first unchecked one, and those from it on.
unfoldable pub checked_part : List Packet → List Packet
checked_part [] = []
checked_part (p ∷ ps) = if p.forward_checked then p ∷ checked_part ps else []

unfoldable pub unchecked_part : List Packet → List Packet
unchecked_part [] = []
unchecked_part (p ∷ ps) = if p.forward_checked then unchecked_part ps else p ∷ ps

abbrev pub checked : Packet → Packet
checked p = record p { forward_checked = true }

-- A queue after its loop, the number of packets that were merged, the producers' returns with
-- their packets in order.
pub record Checked : Type 0 where
  pub queue : List Packet
  pub merged : ℕ
  pub returned : List Packet

-- The loop over the write queue: `before` is the part that the iterator has passed.
unfoldable pub merge_loop : ℕ → ℕ → List Packet → List Packet → Checked
merge_loop shamt merged before [] = record { queue = before; merged = merged; returned = [] }
merge_loop shamt merged before (p ∷ ps) = elim (do_collision_for_merge shamt p before) [
  | some before' ↦ merge_loop shamt (merged + 1) before' ps
  | none ↦ merge_loop shamt merged (before ++ checked p ∷ []) ps
]

-- The loop over the read queue or the prefetch queue: a packet is answered by a write, or merged.
unfoldable pub forward_loop :
    ℕ → ℕ → List Packet → ℕ → List Packet → List Packet → List Packet → Checked
forward_loop write_shamt read_shamt writes merged returned before [] = record {
  queue = before;
  merged = merged;
  returned = returned;
}
forward_loop write_shamt read_shamt writes merged returned before (p ∷ ps) =
    elim (do_collision_for_return write_shamt p writes) [
      | some answer ↦
          forward_loop write_shamt read_shamt writes merged (returned ++ answer ∷ []) before ps
      | none ↦ elim (do_collision_for_merge read_shamt p before) [
        | some before' ↦ forward_loop write_shamt read_shamt writes (merged + 1) returned before' ps
        | none ↦
            forward_loop write_shamt read_shamt writes merged returned (before ++ checked p ∷ []) ps
      ]
    ]

unfoldable pub check_writes : ℕ → List Packet → Checked
unfolding checked_part unchecked_part
check_writes shamt queue = merge_loop shamt 0 (checked_part queue) (unchecked_part queue)

unfoldable pub check_reads : ℕ → ℕ → List Packet → List Packet → Checked
unfolding checked_part unchecked_part
check_reads write_shamt read_shamt writes queue =
    forward_loop write_shamt read_shamt writes 0 [] (checked_part queue) (unchecked_part queue)
