-- ===== src/Branch/Gshare.antt =====
-- branch/gshare/gshare.cc; the history has 14 bits.
use proba_artifact.Prelude.{
  ℕ, ◌%◌, ◌/◌, ◌*◌, ◌+◌, ◌^◌, bit_xor, Bool, List, get_or, set, if◌then◌else◌,
}
use proba_artifact.Branch.Counter.{add_outcome, is_taken}

pub record Gshare : Type 0 where
  pub branch_history_vector : ℕ
  pub gs_history_table : List ℕ

unfoldable pub gs_table_hash : ℕ → ℕ → ℕ
gs_table_hash ip bh_vector =
    bit_xor (bit_xor (bit_xor bh_vector ip) (ip / 2 ^ 14)) (ip / 2 ^ 28) % 16384

unfoldable pub predict_branch : Gshare → ℕ → Bool
predict_branch g ip =
    is_taken 2 (get_or g.gs_history_table (gs_table_hash ip g.branch_history_vector) 0)

unfoldable pub last_branch_result : Gshare → ℕ → Bool → Gshare
last_branch_result g ip taken =
    let gs_hash = gs_table_hash ip g.branch_history_vector in
    record {
      branch_history_vector = (g.branch_history_vector * 2 + (if taken then 1 else 0)) % 2 ^ 14;
      gs_history_table =
          set g.gs_history_table gs_hash
            (add_outcome 2 (get_or g.gs_history_table gs_hash 0) taken);
    }
