-- ===== src/Quality/Metrics.antt =====
-- backend/app/services/quality/metrics.py: who was predicted right, with what evidence, and whether
-- targets are met; its child Confidence has the confidences. A ratio of counts is its two numbers, and
-- a target a fraction.
pub mod Confidence
pub mod Accounts
use smart_screen_agent.Prelude.{
  ℕ, suc, ◌+◌, ◌-◌, ◌*◌, String, Bool, true, false, not, ◌&&◌, ◌||◌, Option, none, some, List, [],
  ◌∷◌, map, any, select, length, find_first, same_text, ltb, leb, ◌==◌, is_some, if◌then◌else◌,
}
use smart_screen_agent.Rules.WhatIf.{MetricStats, metric_stats, ratio}

pub data GoldenLabel : Type 0 where
  advance reject borderline : GoldenLabel

pub data TargetStatus : Type 0 where
  meets_target below_target insufficient_data not_applicable : TargetStatus

pub record BoundJudgeDimension : Type 0 where
  pub jd_id : ℕ
  pub id : String
  pub weight : ℕ

pub record JudgeObservation : Type 0 where
  pub dimension_id : String
  pub tier : String
  pub score : Option ℕ
  pub confidence : Option ℕ
  pub has_validated_evidence : Bool

pub record QualityItem : Type 0 where
  pub jd_id : ℕ
  pub candidate_id : ℕ
  pub golden_label : GoldenLabel
  pub grade : Option String
  pub reached_judge : Bool
  pub judge : List JudgeObservation

pub record AgreementObservation : Type 0 where
  pub jd_id : ℕ
  pub ai_agreed : Option Bool

abbrev pub is_borderline : GoldenLabel → Bool
is_borderline borderline = true
is_borderline _ = false

abbrev pub is_advance : GoldenLabel → Bool
is_advance advance = true
is_advance _ = false

abbrev pub predicts_advance : String → Bool
predicts_advance grade = not (same_text grade "rejected")

-- The counters of `classification_metrics`.
pub record Tally : Type 0 where
  pub tp : ℕ
  pub fp : ℕ
  pub tn : ℕ
  pub fn : ℕ
  pub borderline_excluded : ℕ
  pub uncovered : ℕ

abbrev pub no_tally : Tally
no_tally = record { tp = 0; fp = 0; tn = 0; fn = 0; borderline_excluded = 0; uncovered = 0 }

abbrev pub count_label : GoldenLabel → Bool → Tally → Tally
count_label borderline _ t = record t { borderline_excluded = t.borderline_excluded + 1 }
count_label advance true t = record t { tp = t.tp + 1 }
count_label advance false t = record t { fn = t.fn + 1 }
count_label reject true t = record t { fp = t.fp + 1 }
count_label reject false t = record t { tn = t.tn + 1 }

-- An unscored item is uncovered even when borderline.
abbrev pub count_item : Option String → GoldenLabel → Tally → Tally
count_item none label t = record t { uncovered = t.uncovered + 1 }
count_item (some grade) label t = count_label label (predicts_advance grade) t

unfoldable pub tally : List QualityItem → Tally → Tally
tally [] t = t
tally (item ∷ items) t = tally items (count_item item.grade item.golden_label t)

pub record Classification : Type 0 where
  pub labeled_total : ℕ
  pub covered : ℕ
  pub uncovered : ℕ
  pub borderline_excluded : ℕ
  pub stats : MetricStats

unfoldable pub classification_metrics : List QualityItem → Classification
classification_metrics items =
    let t = tally items no_tally in
    record {
      labeled_total = length items;
      covered = t.tp + t.fp + t.tn + t.fn;
      uncovered = t.uncovered;
      borderline_excluded = t.borderline_excluded;
      stats = metric_stats t.tp t.fp t.tn t.fn;
    }

-- `_is_known`
abbrev pub is_known : JudgeObservation → Bool
is_known o = not (same_text o.tier "unknown") && is_some o.score

-- `observations.get(id)`, in which the last entry of an id counts.
unfoldable pub observation_of : String → List JudgeObservation → Option JudgeObservation
observation_of i [] = none
observation_of i (o ∷ os) = elim (observation_of i os) [
  | some later ↦ some later
  | none ↦ if same_text o.dimension_id i then some o else none
]

abbrev pub is_covered : Option JudgeObservation → Bool
is_covered none = false
is_covered (some o) = is_known o && o.has_validated_evidence

abbrev pub is_of_jd : ℕ → BoundJudgeDimension → Bool
is_of_jd jd_id d = d.jd_id == jd_id

abbrev pub covers : List JudgeObservation → BoundJudgeDimension → Bool
covers judge d = is_covered (observation_of d.id judge)

-- What is expected and covered over the items that reached the judge.
unfoldable pub evidence_counts : List QualityItem → List BoundJudgeDimension → ℕ × ℕ
evidence_counts [] dims = (0, 0)
evidence_counts (item ∷ items) dims =
    let (expected, covered) = evidence_counts items dims in
    if item.reached_judge
    then (
      length (select (is_of_jd item.jd_id) dims) + expected,
      length (select (covers item.judge) (select (is_of_jd item.jd_id) dims)) + covered,
    )
    else (expected, covered)

pub data CoverageStatus : Type 0 where
  available too_few no_dimensions : CoverageStatus

pub record Evidence : Type 0 where
  pub participating_candidates : ℕ
  pub hard_filter_rejects : ℕ
  pub expected_count : ℕ
  pub covered_count : ℕ
  pub value : Option (ℕ × ℕ)
  pub status : CoverageStatus

abbrev pub is_empty : {A : Type 0} → List A → Bool
is_empty [] = true
is_empty (x ∷ xs) = false

abbrev pub evidence_value : Bool → ℕ → ℕ → Option (ℕ × ℕ)
evidence_value true expected covered = none
evidence_value false expected covered = ratio covered expected

abbrev pub evidence_status : Bool → ℕ → CoverageStatus
evidence_status true expected = no_dimensions
evidence_status false expected = if expected == 0 then too_few else available

unfoldable pub evidence_metrics : List QualityItem → List BoundJudgeDimension → Evidence
evidence_metrics items dims =
    let (expected, covered) = evidence_counts items dims in
    record {
      participating_candidates = length (select (λ i. i.reached_judge) items);
      hard_filter_rejects = length (select (λ i. is_some i.grade && not i.reached_judge) items);
      expected_count = expected;
      covered_count = covered;
      value = evidence_value (is_empty dims) expected covered;
      status = evidence_status (is_empty dims) expected;
    }

pub record Agreement : Type 0 where
  pub agreed : ℕ
  pub disagreed : ℕ
  pub hold : ℕ
  pub denominator : ℕ
  pub agreement_rate : Option (ℕ × ℕ)

abbrev pub is_agreed : Option Bool → Bool
is_agreed (some true) = true
is_agreed _ = false

abbrev pub is_disagreed : Option Bool → Bool
is_disagreed (some false) = true
is_disagreed _ = false

unfoldable pub agreement_metrics : List AgreementObservation → Agreement
agreement_metrics observations =
    let agreed = length (select (λ o. is_agreed o.ai_agreed) observations) in
    let disagreed = length (select (λ o. is_disagreed o.ai_agreed) observations) in
    record {
      agreed = agreed;
      disagreed = disagreed;
      hold = length (select (λ o. not (is_some o.ai_agreed)) observations);
      denominator = agreed + disagreed;
      agreement_rate = ratio agreed (agreed + disagreed);
    }

pub record TargetResult : Type 0 where
  pub value : Option (ℕ × ℕ)
  pub target : ℕ × ℕ
  pub status : TargetStatus

-- `value >= target`, of the exact fractions: the code compares them as floats, which may round a value
-- next to the target onto it.
abbrev pub reaches : ℕ × ℕ → ℕ × ℕ → Bool
reaches (num, den) (target_num, target_den) = leb (target_num * den) (num * target_den)

abbrev pub status_of : Option (ℕ × ℕ) → ℕ × ℕ → TargetStatus → TargetStatus
status_of none target null_status = null_status
status_of (some value) target null_status =
    if reaches value target then meets_target else below_target

unfoldable pub target_result : Option (ℕ × ℕ) → ℕ × ℕ → TargetStatus → TargetResult
target_result value target null_status = record {
  value = value;
  target = target;
  status = status_of value target null_status;
}

pub data ReleaseStatus : Type 0 where
  meets below : ReleaseStatus

abbrev pub is_short : TargetStatus → Bool
is_short below_target = true
is_short insufficient_data = true
is_short _ = false

unfoldable pub release_rollup : TargetResult → TargetResult → ReleaseStatus
release_rollup f1 evidence = if is_short f1.status || is_short evidence.status then below else meets
