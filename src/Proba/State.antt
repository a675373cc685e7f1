-- ===== src/Proba/State.antt =====
-- The members of `proba::Proba` (prefetcher/proba/proba.h), its constructor, `ewma_update` and
-- `get_probs`. The log switch `is_debug`, the members `cpu` and `warmup` and `log`, which only print or
-- are never read, are left out.
pub mod Probs
use proba_artifact.Prelude.{
  ℕ, ◌+◌, ◌-◌, ◌*◌, ◌/◌, ◌%◌, ◌^◌, Bool, true, false, List, [], ◌∷◌, ltb, if◌then◌else◌,
}
use proba_artifact.Util.Counter.{SaturatingCounter, counter, get_cnt}
use proba_artifact.SetAssoc
use proba_artifact.SetAssoc.Lru
use proba_artifact.SetAssoc.Rrip
use proba_artifact.Proba.Jail
use proba_artifact.Proba.Jail.{JailTable}
use proba_artifact.Proba.Pattern.{num_blocks}
use proba_artifact.Proba.Tables.{FilterTable, ActiveGenerationTable, PatternHistoryTable, Behavior}
use proba_artifact.Proba.Buffer.{PrefetchBuffer}

-- What the prefetcher draws: `rand n` is the `n`-th result of `std::rand`, and `b_dist n` the `n`-th
-- of a table's `b_dist(engine)` (all tables start from the same engine).
pub record Draws : Type 0 where
  pub rand : ℕ → ℕ
  pub b_dist : ℕ → Bool

-- The statistics of the cache that the prefetcher reads or writes.
pub record Stats : Type 0 where
  pub num_pht_updates : ℕ
  pub num_end_of_generation_updates : ℕ
  pub pf_useful : ℕ
  pub pf_useless : ℕ

-- The members that `update_in_pht` keeps over a window of updates.
pub record Window : Type 0 where
  pub num_valid_update : ℕ
  pub total_num_valid_update : ℕ
  pub global_accurate_pf_sum : ℕ
  pub global_pf_sum : ℕ
  pub ewma_accuracy_estimate : ℕ
  pub ewma_global_accuracy : ℕ
  pub prev_pf_useful : ℕ
  pub prev_pf_unused : ℕ

pub record Config : Type 0 where
  pub sample_rate : ℕ
  pub proba_acc_thr1 : ℕ
  pub proba_acc_thr2 : ℕ
  pub ewma_window_size : ℕ
  pub ewma_alpha_num : ℕ
  pub ewma_alpha_den : ℕ
  pub is_accuracy_targeter : Bool
  pub is_accuracy_correction : Bool
  pub use_sampling : Bool
  pub use_jail_table : Bool
  pub use_only_training_on_eog : Bool

-- `calls` counts the calls of `std::rand`, which the whole process shares.
pub record Proba : Type 0 where
  pub config : Config
  pub agt : ActiveGenerationTable
  pub phts : List PatternHistoryTable
  pub jt : JailTable
  pub ft : FilterTable
  pub pb : PrefetchBuffer
  pub window : Window
  pub stats : Stats
  pub calls : ℕ

abbrev pub agt_way : ℕ
agt_way = 8

-- The member initialisers.
abbrev pub default_config : ℕ → ℕ → Config
default_config accuracy_threshold marginal_accuracy_threshold = record {
  sample_rate = 5;
  proba_acc_thr1 = accuracy_threshold;
  proba_acc_thr2 = marginal_accuracy_threshold;
  ewma_window_size = 1000;
  ewma_alpha_num = 1;
  ewma_alpha_den = 2;
  is_accuracy_targeter = false;
  is_accuracy_correction = false;
  use_sampling = true;
  use_jail_table = true;
  use_only_training_on_eog = false;
}

abbrev pub empty_window : Window
empty_window = record {
  num_valid_update = 0;
  total_num_valid_update = 0;
  global_accurate_pf_sum = 0;
  global_pf_sum = 0;
  ewma_accuracy_estimate = 0;
  ewma_global_accuracy = 0;
  prev_pf_useful = 0;
  prev_pf_unused = 0;
}

-- `PatternHistoryTable(size, num_ways, width, behavior)`; the base class has `max_rrpv = 7`.
unfoldable pub init_pht : ℕ → ℕ → ℕ → Behavior → PatternHistoryTable
init_pht size num_ways width behavior = record {
  behavior = behavior;
  width = width;
  table = Rrip.init (record { pattern = []; mode = counter 2 0 }) size num_ways 7;
  drawn = 0;
}

-- The constructor.
unfoldable pub init : ℕ → ℕ → ℕ → ℕ → ℕ → ℕ → ℕ → ℕ → ℕ → ℕ → ℕ → ℕ → Stats → Proba
unfolding init_pht
init agt_size agt_ways ft_size ft_ways pht_size pht_ways width jt_size pb_size pb_ways thr1 thr2
      stats =
    record {
      config = default_config thr1 thr2;
      agt =
          SetAssoc.init
            (record { trigger_offset = 0; second_offset = 0; pc = 0; addr = 0; pattern = [] })
            agt_size agt_ways;
      phts =
          init_pht pht_size pht_ways width Behavior.offset_offset
          ∷ init_pht pht_size pht_ways width Behavior.pc_offset
          ∷ init_pht pht_size pht_ways width Behavior.pc
          ∷ [];
      jt = Jail.init jt_size;
      ft = Lru.init (record { trigger_offset = 0 }) ft_size ft_ways;
      pb = record {
        pattern_len = num_blocks;
        table = Lru.init (record { pattern = [] }) pb_size pb_ways;
      };
      window = empty_window;
      stats = stats;
      calls = 0;
    }

-- `prefetcher_initialize` at the constants of proba.h.
unfoldable pub prefetcher_initialize : Stats → Proba
unfolding init
prefetcher_initialize = init 64 8 64 8 256 16 16 4096 32 8 80 80

-- `ewma_update`: the new average, in 64 bits.
unfoldable pub ewma_update : ℕ → ℕ → ℕ → ℕ → ℕ
ewma_update ewma sample alpha_num alpha_den =
    ((alpha_den - alpha_num) * ewma + alpha_num * sample) % 2 ^ 64 / alpha_den

-- `get_probs`; the assertion that the mode is at most 7 bounds the tables.
unfoldable pub insert_probability : ℕ → ℕ
insert_probability cnt =
    if ltb cnt 1
    then 1
    else if ltb cnt 2
    then 5
    else if ltb cnt 3
    then 10
    else if ltb cnt 4
    then 40
    else 100

unfoldable pub delete_probability : ℕ → ℕ
delete_probability cnt =
    if ltb cnt 5 then 100 else if ltb cnt 6 then 60 else if ltb cnt 7 then 40 else 20

unfoldable pub get_probs : SaturatingCounter → ℕ × ℕ
unfolding insert_probability delete_probability
get_probs mode = (insert_probability (get_cnt mode), delete_probability (get_cnt mode))
