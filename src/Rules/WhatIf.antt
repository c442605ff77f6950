-- ===== src/Rules/WhatIf.antt =====
-- backend/app/services/rule_publication.py (`whatif_grade`, `bucket`, the counting of `evaluate_draft`)
-- and `metric_stats` of backend/app/services/golden_set.py. A ratio is its two numbers.
use smart_screen_agent.Prelude.{
  ℕ, ◌+◌, ◌-◌, ◌*◌, String, Bool, not, ◌||◌, Option, none, some, List, [], ◌∷◌, map, select, length,
  same_text, ◌==◌, if◌then◌else◌,
}
use smart_screen_agent.Scoring.HardFilter.{Extracted, RuleText, HardFilterResult, run_hard_filters}
use smart_screen_agent.Scoring.RuleEngine.{Texts, score_dimensions, rule_total}
use smart_screen_agent.Scoring.Grade.{GradeThreshold, grade_from}
use smart_screen_agent.Scoring.Pipeline.{RuleSchema}

-- What the parts of the scoring read texts by.
pub record Readers : Type 0 where
  pub rule_text : RuleText
  pub texts : Texts

-- `rule_total + judge_total >= min` with `judge_total = stored_total - stored_rule_subtotal`, where the
-- difference may be negative: both sides are given the subtotal.
abbrev pub raised_by : ℕ → GradeThreshold → GradeThreshold
raised_by n t = record t { min = t.min + n }

abbrev pub regrade : Readers → RuleSchema → Extracted → ℕ → ℕ → String
regrade r schema extracted stored_rule_subtotal stored_total =
    grade_from
      (rule_total (score_dimensions r.texts extracted schema.rule_dimensions) + stored_total)
      (map (raised_by stored_rule_subtotal) schema.grade_thresholds)

-- The grade, none for no grade; or `raises` where a filter's rule is not valid.
pub data WhatIf : Type 0 where
  raises : WhatIf
  graded : Option String → WhatIf

abbrev pub after_filters :
    Readers → RuleSchema → Extracted → ℕ → ℕ → Bool → Option HardFilterResult → WhatIf
after_filters r schema extracted subtotal total stored_rejected none = raises
after_filters r schema extracted subtotal total stored_rejected (some hf) =
    if hf.rejected
    then graded (some "rejected")
    else if stored_rejected
    then graded none
    else graded (some (regrade r schema extracted subtotal total))

unfoldable pub whatif_grade : Readers → RuleSchema → Extracted → ℕ → ℕ → Bool → WhatIf
whatif_grade r schema extracted subtotal total stored_rejected =
    after_filters r schema extracted subtotal total stored_rejected
      (run_hard_filters r.rule_text extracted schema.hard_filters)

pub data Cell : Type 0 where
  tp fp tn fn : Cell

unfoldable pub bucket : String → String → Cell
bucket label grade =
    if same_text label "advance"
    then (if same_text grade "rejected" then fn else tp)
    else (if same_text grade "rejected" then tn else fp)

pub record Counts : Type 0 where
  pub tp : ℕ
  pub fp : ℕ
  pub tn : ℕ
  pub fn : ℕ
  pub indeterminate : ℕ

abbrev pub no_counts : Counts
no_counts = record { tp = 0; fp = 0; tn = 0; fn = 0; indeterminate = 0 }

abbrev pub add_cell : Cell → Counts → Counts
add_cell Cell.tp c = record c { tp = c.tp + 1 }
add_cell Cell.fp c = record c { fp = c.fp + 1 }
add_cell Cell.tn c = record c { tn = c.tn + 1 }
add_cell Cell.fn c = record c { fn = c.fn + 1 }

-- A ratio of two numbers, none over 0.
abbrev pub ratio : ℕ → ℕ → Option (ℕ × ℕ)
ratio num den = if den == 0 then none else some (num, den)

pub record MetricStats : Type 0 where
  pub tp : ℕ
  pub fp : ℕ
  pub tn : ℕ
  pub fn : ℕ
  pub precision : Option (ℕ × ℕ)
  pub recall : Option (ℕ × ℕ)
  pub f1 : Option (ℕ × ℕ)
  pub accuracy : Option (ℕ × ℕ)

unfoldable pub metric_stats : ℕ → ℕ → ℕ → ℕ → MetricStats
metric_stats a b c d = record {
  tp = a;
  fp = b;
  tn = c;
  fn = d;
  precision = ratio a (a + b);
  recall = ratio a (a + d);
  f1 = ratio (2 * a) (2 * a + b + d);
  accuracy = ratio (a + c) (a + b + c + d);
}

-- `golden_set_metrics`, by `_metrics_dict`.
pub record Metrics : Type 0 where
  pub stats : MetricStats
  pub evaluated : ℕ
  pub indeterminate : ℕ
  pub borderline_excluded : ℕ
  pub uncovered : ℕ

-- A golden label of the JD that the latest score of its candidate, for the active version, joins.
pub record ScoredLabel : Type 0 where
  pub label : String
  pub extracted : Extracted
  pub stored_rule_subtotal : ℕ
  pub stored_total : ℕ
  pub has_judge_dimensions : Bool

abbrev pub count_grade : String → Option String → Counts → Counts
count_grade label none c = record c { indeterminate = c.indeterminate + 1 }
count_grade label (some grade) c = add_cell (bucket label grade) c

abbrev pub count_whatif : String → WhatIf → Counts → Option Counts
count_whatif label raises c = none
count_whatif label (graded grade) c = some (count_grade label grade c)

-- The loop over the rows; none is an exception of a filter.
unfoldable pub count_rows : Readers → RuleSchema → List ScoredLabel → Counts → Option Counts
count_rows r schema [] c = some c
count_rows r schema (row ∷ rows) c =
    elim (count_whatif row.label
      (whatif_grade r schema row.extracted row.stored_rule_subtotal row.stored_total
        (not row.has_judge_dimensions))
      c) [ none ↦ none | some c' ↦ count_rows r schema rows c' ]

abbrev pub is_label : String → String → Bool
is_label wanted label = same_text label wanted

abbrev pub is_decided : String → Bool
is_decided label = is_label "advance" label || is_label "reject" label

abbrev pub metrics_of : List String → List ScoredLabel → Counts → Metrics
metrics_of labels rows c = record {
  stats = metric_stats c.tp c.fp c.tn c.fn;
  evaluated = c.tp + c.fp + c.tn + c.fn;
  indeterminate = c.indeterminate;
  borderline_excluded = length (select (is_label "borderline") labels);
  uncovered =
      length (select (is_label "advance") labels)
      + length (select (is_label "reject") labels)
      - length rows;
}

-- The metrics of `evaluate_draft`, from the JD's labels and the rows that the join gives for those
-- that are `advance` or `reject`.
unfoldable pub draft_metrics :
    Readers → RuleSchema → List String → List ScoredLabel → Option Metrics
draft_metrics r schema labels rows = elim (count_rows r schema rows no_counts) [
  | none ↦ none
  | some c ↦ some (metrics_of labels rows c)
]
