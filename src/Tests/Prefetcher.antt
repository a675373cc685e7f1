-- ===== src/Tests/Prefetcher.antt =====
-- The theorems on the prefetcher, at its initial state and after a first access.
use proba_artifact.Prelude.{
  ℕ, ◌≡◌, refl, ◌∙◌, [], true, false, none, some, ◌<◌, inl, inr, arith, set, replicate, All,
  All-set, All-replicate, length-set, if◌then◌else◌, ◌+◌, ◌%◌, ◌^◌,
}
use proba_artifact.Prelude.Assoc
use proba_artifact.SetAssoc
use proba_artifact.SetAssoc.{Entry, index_len_of, bit_length}
use proba_artifact.SetAssoc.Ranked
use proba_artifact.SetAssoc.Lru
use proba_artifact.Util.Hash.{hash_index, hash_loop}
use proba_artifact.Proba.Jail
use proba_artifact.Proba.Jail.Laws.{IsSized, init-IsSized, write-IsSized, in_jail-mark}
use proba_artifact.Proba.Pattern.{Pattern, IsBlock, IsPattern, rotate, fwd, back, union_patterns}
use proba_artifact.Proba.Pattern.Union.{Covers, union_patterns-Covers}
use proba_artifact.Proba.Pattern.Rotate.{rotate_back}
use proba_artifact.Proba.Tables.{
  ActiveGenerationTable, ActiveGenerationTableData, agt_insert, agt_num_valid, agt_erase,
  ft_build_key,
}
use proba_artifact.Proba.Buffer.{Issue, issue_from}
use proba_artifact.Proba.Buffer.Issued.{total, issue_from-total}
use proba_artifact.Proba.Buffer.Requests.{recording, IsHeldBlock, issue_from-IsHeldBlock}
use proba_artifact.Proba.State.{
  Window, Proba, Config, empty_window, default_config, prefetcher_initialize, init,
}
use proba_artifact.Proba.Train.{update_in_pht}
use proba_artifact.Proba.Train.Total.{Trained, update_in_pht-total}
use proba_artifact.Proba.Train.Average.{calibrate}
use proba_artifact.Proba.Train.Average.Laws.{IsWindow, calibrate-IsWindow}
use proba_artifact.Proba.Access.{eviction, follow, sampled}
use proba_artifact.Proba.Access.Run.{initialize-IsValid}
use proba_artifact.Proba.Access.Jailed.{eviction-releases, follow_turned_down}
use proba_artifact.Tests.{draws, stats, sink}

abbrev fresh_state : Proba
fresh_state = prefetcher_initialize stats

-- Blocks 3 and 4, and blocks 4 and 9.
abbrev empty : Pattern
empty = replicate 64 0

abbrev left : Pattern
left = set (set empty 3 2) 4 2

abbrev right : Pattern
right = set (set empty 4 2) 9 2

two_blocks : (i j : ℕ) → IsPattern (set (set empty i 2) j 2)
two_blocks i j = (
  length-set (set empty i 2) j 2 ∙ length-set empty i 2,
  All-set IsBlock _ j 2
      (All-set IsBlock empty i 2 (All-replicate IsBlock 64 0 (inl refl)) (inr refl)) (inr refl),
)

union_patterns-Covers_example :
    (r : Pattern) × (union_patterns left right ≡ some r) × IsPattern r × Covers left right r
union_patterns-Covers_example = union_patterns-Covers left right (two_blocks 3 4) (two_blocks 4 9)

rotate_back_example : rotate (rotate left (fwd 61)) (back 61) ≡ left
rotate_back_example = rotate_back left 61 (omega arith)

-- The trigger is block 3; a request goes to each of its neighbours.
issue_from-IsHeldBlock_example :
    All
      (IsHeldBlock 5 left)
      (issue_from
        (recording sink)
        63
        5
        64
        0x5000
        3
        1
        (record { pattern = left; pf_issued = 0; cache = (0, []) })).0.cache.1
issue_from-IsHeldBlock_example =
    issue_from-IsHeldBlock 5 left sink 0x5000 (omega arith) 63 3 1 0 refl

abbrev request : Issue sink.State
request = record { pattern = left; pf_issued = 0; cache = 0 }

issue_from-total_example :
    total sink 5 64 0x5000 (issue_from sink 63 5 64 0x5000 3 1 request).0
    ≡ total sink 5 64 0x5000 request
issue_from-total_example = issue_from-total sink 5 64 0x5000 63 3 1 request

-- Region 1 was seen at blocks 3 and 9.
abbrev region : ActiveGenerationTableData
region = record {
  trigger_offset = 3;
  second_offset = 9;
  pc = 5;
  addr = 67;
  pattern = set (set (replicate 64 false) 3 true) 9 true;
}

abbrev followed : Entry ActiveGenerationTableData
followed = record { key = 1; index = 1; tag = 0; valid = true; payload = region }

update_in_pht-total_example :
    (p' : Proba) × (update_in_pht draws followed false fresh_state ≡ some p')
    × (Trained fresh_state p'
        × (p'.jt ≡ (if false then fresh_state.jt else Jail.mark fresh_state.jt 1)))
update_in_pht-total_example =
    update_in_pht-total draws followed false fresh_state refl (initialize-IsValid stats).phts

abbrev config : Config
config = default_config 80 80

-- The 1000th update closes the window.
abbrev last_update : Window
last_update = record empty_window {
  num_valid_update = 999;
  total_num_valid_update = 1999;
  global_accurate_pf_sum = 300;
  global_pf_sum = 400;
}

last_update-IsWindow : IsWindow last_update
last_update-IsWindow = record {
  accurate = omega arith;
  estimate = omega arith;
  global = omega arith;
  counted = omega arith;
}

calibrate-IsWindow_example :
    IsWindow (calibrate config stats 3 4 last_update)
    × ((calibrate config stats 3 4 last_update).num_valid_update < config.ewma_window_size)
    × ((calibrate config stats 3 4 last_update).total_num_valid_update
        ≡ last_update.total_num_valid_update + 1)
calibrate-IsWindow_example =
    calibrate-IsWindow config stats 3 4 last_update (omega arith) (omega arith) (omega arith)
      last_update-IsWindow

small_jail : Jail.JailTable
small_jail = Jail.mark (Jail.init 16) 7

small_jail-IsSized : IsSized small_jail
unfolding small_jail Jail.mark
small_jail-IsSized = write-IsSized (Jail.init 16) 7 true (init-IsSized 16 (omega arith))

jailed : Jail.in_jail small_jail 7 ≡ true
unfolding small_jail
jailed = in_jail-mark (Jail.init 16) 7 (init-IsSized 16 (omega arith))

-- Region 1 is jailed, and in no table.
abbrev jailed_state : Proba
jailed_state = record fresh_state { jt = Jail.mark fresh_state.jt 1 }

unseen : SetAssoc.find jailed_state.agt (1 % 2 ^ 37) ≡ none
unfolding prefetcher_initialize init SetAssoc.init SetAssoc.find SetAssoc.locate SetAssoc.find_in
    Assoc.lookup
unseen = refl

unfiltered : Lru.find jailed_state.ft (ft_build_key jailed_state.ft 1) ≡ none
unfolding prefetcher_initialize init Lru.init Ranked.init SetAssoc.init SetAssoc.find
    SetAssoc.locate SetAssoc.find_in Assoc.lookup ft_build_key hash_index hash_loop index_len_of
    bit_length
unfiltered = refl

jailed_state-IsSized : IsSized jailed_state.jt
unfolding Jail.mark
jailed_state-IsSized = write-IsSized fresh_state.jt 1 true (initialize-IsValid stats).jt

not_followed : (agt_erase jailed_state.agt 1).1 ≡ none
unfolding prefetcher_initialize init SetAssoc.init SetAssoc.erase SetAssoc.locate SetAssoc.find_in
    Assoc.lookup agt_erase
not_followed = refl

eviction-releases_example :
    (p' : Proba) × (eviction draws 64 jailed_state ≡ some p')
    × (Jail.in_jail p'.jt 1 ≡ false)
    × (p'.phts ≡ jailed_state.phts)
eviction-releases_example =
    eviction-releases draws 64 jailed_state jailed_state-IsSized not_followed

-- Five of the eight ways of set 0 are in use, and the next draw is 50.
abbrev follow_one : ActiveGenerationTable → ℕ → ActiveGenerationTable
follow_one agt region_num = (agt_insert draws.rand 0 agt region_num 3 5 67).1

abbrev crowded : Proba
crowded = record fresh_state {
  agt =
      follow_one (follow_one (follow_one (follow_one (follow_one fresh_state.agt 8) 16) 24) 32) 40;
  calls = 50;
}

turned_down : (sampled draws crowded.config crowded.calls (agt_num_valid crowded.agt 48)).0 ≡ false
unfolding prefetcher_initialize init SetAssoc.init SetAssoc.insert SetAssoc.victim_way
    SetAssoc.first_invalid SetAssoc.place SetAssoc.locate SetAssoc.find_in Assoc.lookup Assoc.insert
    Assoc.erase agt_insert agt_num_valid SetAssoc.get_num_valid_entries_per_set SetAssoc.count_valid
    sampled index_len_of bit_length
turned_down = refl

sampling : crowded.config.use_sampling ≡ true
unfolding prefetcher_initialize init
sampling = refl

follow_turned_down_example :
    (p' : Proba) × (follow draws 48 3 5 3075 crowded ≡ some p')
    × (Jail.in_jail p'.jt 48 ≡ true)
    × (p'.agt ≡ crowded.agt)
    × (p'.phts ≡ crowded.phts)
follow_turned_down_example =
    follow_turned_down draws 48 3 5 3075 crowded (initialize-IsValid stats).jt sampling turned_down
