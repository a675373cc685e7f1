-- ===== src/CacheQueues/Packet.antt =====
-- The class PACKET of inc/memory_class.h, with the tests on it of inc/util.h. An instruction is given
-- by its `instr_id`, by which `program_order` compares, and a MemoryRequestProducer by its address; the
-- field `data` is `content` here.
use proba_artifact.Prelude.{
  ℕ, ◌/◌, ◌^◌, ◌-◌, Bool, not, ◌&&◌, List, [], ◌∷◌, ◌==◌, ltb, if◌then◌else◌,
}

-- access_type
abbrev pub load : ℕ
load = 0

-- std::numeric_limits<uint64_t>::max()
abbrev pub uint64_max : ℕ
uint64_max = 2 ^ 64 - 1

pub record Packet : Type 0 where
  pub scheduled : Bool
  pub forward_checked : Bool
  pub translate_issued : Bool
  pub prefetch_from_this : Bool
  pub fill_this_level : Bool
  pub is_translated : Bool
  pub from_prefetching : Bool
  pub late_prefetch : Bool
  pub asid : ℕ
  pub type : ℕ
  pub pf_metadata : ℕ
  pub cpu : ℕ
  pub address : ℕ
  pub v_address : ℕ
  pub content : ℕ
  pub instr_id : ℕ
  pub ip : ℕ
  pub event_cycle : ℕ
  pub cycle_enqueued : ℕ
  pub instr_depend_on_me : List ℕ
  pub to_return : List ℕ
  pub translation_level : ℕ
  pub init_translation_level : ℕ

abbrev pub is_valid : Packet → Bool
is_valid p = not (p.address == 0)

-- Whether `test` is a request for the block of the address `value`.
abbrev pub eq_addr : ℕ → ℕ → Packet → Bool
eq_addr value shamt test = is_valid test && test.address / 2 ^ shamt == value / 2 ^ shamt

-- `std::set_union` of two sorted ranges.
unfoldable pub set_union : List ℕ → List ℕ → List ℕ
set_union [] ys = ys
set_union (x ∷ xs) [] = x ∷ xs
set_union (x ∷ xs) (y ∷ ys) =
    let first = x ∷ set_union xs (y ∷ ys) in
    let second = y ∷ set_union (x ∷ xs) ys in
    let both = x ∷ set_union xs ys in if ltb x y then first else (if ltb y x then second else both)
