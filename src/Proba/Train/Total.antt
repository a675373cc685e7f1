-- ===== src/Proba/Train/Total.antt =====
-- `update_in_pht` trips no assertion, and leaves tables of region patterns.
use proba_artifact.Prelude.{
  ℕ, suc, ne→==-false, ◌+◌, ◌≤◌, ◌≡◌, refl, ◌∙◌, inl, inr, Bool, true, false, not, ◌&&◌, List, [],
  ◌∷◌, set, replicate, length, All, All-replicate, Option, some, ◌==◌, if◌then◌else◌, arith,
}
use proba_artifact.Proba.Jail
use proba_artifact.Proba.Pattern.{
  Pattern, IsPattern, pattern_bool2int, count_bits_set, count_bits_same,
}
use proba_artifact.Proba.Pattern.Union.{pattern_bool2int-IsPattern}
use proba_artifact.Proba.Pattern.Count.{count_bits_same-le}
use proba_artifact.Proba.Tables.{ActiveGenerationTableData, PatternHistoryTable}
use proba_artifact.Proba.Tables.Holds.{PhtHolds, find_no_touch-IsPrediction}
use proba_artifact.Proba.State.{Draws, Proba}
use proba_artifact.Proba.Train.View.{AgtEntry, look_up}
use proba_artifact.Proba.Train.View.Laws.{IsUnion, clear-IsPattern}
use proba_artifact.Proba.Train.Survey.{sort_indices}
use proba_artifact.Proba.Train.Survey.Total.{HoldsPatterns, survey-total, sort_indices-All}
use proba_artifact.Proba.Train.Average.{calibrate}
use proba_artifact.Proba.Train.Grade.Total.{grade-total}
use proba_artifact.Proba.Train.Learn.Total.{learn-total}
use proba_artifact.Proba.Train.{train, update_in_pht}

HoldsPatterns-All :
    (d : ActiveGenerationTableData) (phts : List PatternHistoryTable)
    → All PhtHolds phts
    → All (HoldsPatterns d) phts
unfolding look_up
HoldsPatterns-All d [] h = tt
HoldsPatterns-All d (t ∷ phts) h = (
  λ e found.
      (find_no_touch-IsPrediction t d.pc d.trigger_offset d.second_offset d.addr e h.0 found).0,
  HoldsPatterns-All d phts h.1,
)

counted :
    (acc seen : Pattern)
    → IsUnion acc
    → IsPattern seen
    → (n : ℕ) × ((if length acc == 0 then some 0 else count_bits_same acc seen) ≡ some n)
counted [] seen ha hs = (0, refl)
counted (x ∷ acc) seen ha hs = elim ha [
  | inl e ↦ absurd (nonempty e)
  | inr h ↦
      let (n, at, _, _) = count_bits_same-le (x ∷ acc) seen (omega arith) in
      (n, rw (ne→==-false (suc (length acc)) 0 (omega arith)) at)
]
  where
    nonempty : ¬ (x ∷ acc ≡ [])
    nonempty e = cc

-- What training changes: tables, averages and draws, and no more tables than there were.
abbrev pub Trained : Proba → Proba → Type 0
Trained p p' =
    All PhtHolds p'.phts
    × (length p'.phts ≡ length p.phts)
    × (p'.agt ≡ p.agt)
    × (p'.pb ≡ p.pb)
    × (p'.ft ≡ p.ft)
    × (p'.config ≡ p.config)

pub train-total :
    (draws : Draws) (d : ActiveGenerationTableData) (p : Proba)
    → length d.pattern ≡ 64
    → All PhtHolds p.phts
    → (p' : Proba) × (train draws d p ≡ some p') × Trained p p' × (p'.jt ≡ p.jt)
unfolding train
train-total draws d p len h =
    let n = length p.phts in
    let (s, surveyed, (union, percents, active)) =
      survey-total n d len 0 p.phts
        (record {
          accuracy = replicate n 0;
          accumulated_prediction = [];
          active_indices = [];
          touches = replicate n false;
        })
        (omega arith) (HoldsPatterns-All d p.phts h)
        (inl refl, All-replicate (λ a. a ≤ 100) n 0 (omega arith), tt) in
    let seen = set (pattern_bool2int d.pattern) d.trigger_offset 0 in
    let (same, compared) =
      counted s.accumulated_prediction seen union
        (clear-IsPattern _ d.trigger_offset (pattern_bool2int-IsPattern d.pattern len)) in
    let w = calibrate p.config p.stats same (count_bits_set s.accumulated_prediction) p.window in
    let sorted = sort_indices s.accuracy [] s.active_indices in
    let ranked = sort_indices-All n s.accuracy [] s.active_indices tt active in
    let (graded, marked, same₁, holds₁) =
      grade-total p.config w d len s.accuracy sorted true [] p.phts (inl refl) ranked h in
    let (learned, calls', taught, same₂, holds₂) =
      learn-total draws d len s.touches sorted p.calls graded (rw same₁ ranked) holds₁ in
    (
      record p { phts = learned; window = w; calls = calls' },
      rw (surveyed, compared, marked, taught) refl,
      (holds₂, same₂ ∙ same₁, refl, refl, refl, refl),
      refl,
    )

-- Both branches of a test succeed.
pub if-some :
    (Q : Proba → Type 0) (b : Bool) (x y : Option Proba)
    → (p : Proba) × (x ≡ some p) × Q p
    → (p : Proba) × (y ≡ some p) × Q p
    → (p : Proba) × ((if b then x else y) ≡ some p) × Q p
if-some Q true x y hx hy = hx
if-some Q false x y hx hy = hy

-- update_in_pht on a region of 64 blocks and tables of region patterns and modes of at most 7
-- returns, whatever the draws are; it keeps the number of tables and what they hold so, leaves
-- the other tables and the switches alone, and marks the region in jail exactly when the
-- generation has not ended.
pub update_in_pht-total :
    (draws : Draws) (e : AgtEntry) (is_end_of_generation : Bool) (p : Proba)
    → length e.payload.pattern ≡ 64
    → All PhtHolds p.phts
    → (p' : Proba) × (update_in_pht draws e is_end_of_generation p ≡ some p')
      × (Trained p p' × (p'.jt ≡ (if is_end_of_generation then p.jt else Jail.mark p.jt e.key)))
unfolding update_in_pht
update_in_pht-total draws e true p len h =
    let stats = p.stats in
    let q = record p {
      stats = record stats {
        num_pht_updates = stats.num_pht_updates + 1;
        num_end_of_generation_updates = stats.num_end_of_generation_updates + 1;
      };
    } in
    let (p', at, trained, jt) = train-total draws e.payload q len h in
    (p', not_skipped p.config.use_only_training_on_eog _ _ ∙ at, (trained, jt))
  where
    not_skipped : (b : Bool) (x y : Option Proba) → (if b && false then x else y) ≡ y
    not_skipped true x y = refl
    not_skipped false x y = refl
update_in_pht-total draws e false p len h =
    let q = record p {
      stats = record (p.stats) { num_pht_updates = p.stats.num_pht_updates + 1 };
      jt = Jail.mark p.jt e.key;
    } in
    let (p', at, trained, jt) = train-total draws e.payload q len h in
    if-some (λ p'. Trained p p' × (p'.jt ≡ Jail.mark p.jt e.key))
      (p.config.use_only_training_on_eog && not false) (some q) (train draws e.payload q)
      (q, refl, ((h, refl, refl, refl, refl, refl), refl)) (p', at, (trained, jt))
