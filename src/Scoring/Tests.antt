-- ===== src/Scoring/Tests.antt =====
-- Concrete inputs of the scoring: a grade, a judgement, rated dimensions and a run of the pipeline.
use smart_screen_agent.Prelude.{
  ℕ, ◌≡◌, refl, false, none, some, List, [], ◌∷◌, arith, Rowwise, map, find_first,
}
use smart_screen_agent.Llm.Usage.{LlmCallContext, Operation}
use smart_screen_agent.Scoring.Judge
use smart_screen_agent.Scoring.Judge.Validity.{Sound, score-Sound}
use smart_screen_agent.Scoring.RuleEngine.{
  DimensionResult, score_dimensions, tiered_keyword, years_score, is_hit, is_met, every, years_for,
  years_of, find_quotes, joined,
}
use smart_screen_agent.Scoring.RuleEngine.Best.{Rated, score_dimensions-Rated}
use smart_screen_agent.Scoring.Ranking.{descending}
use smart_screen_agent.Scoring.Pipeline.{Meets, Store, Score, has_key, key_of}
use smart_screen_agent.Scoring.Pipeline.Run.{run}
use smart_screen_agent.Scoring.Pipeline.Persisted.{Behaves, run-Behaves}
use smart_screen_agent.Scoring.Samples.{
  settings, encounters, idle, reader, judge_dimensions, rule_text, texts, candidate,
  rule_dimensions, schema,
}
use smart_screen_agent.Scoring.Grade.{
  GradeThreshold, grade_from, grade_or_rejected, best, Best, grade_from-Best,
}

abbrev thresholds : List GradeThreshold
thresholds =
    record { min = 60; grade = "C" }
    ∷ record { min = 85; grade = "A" }
    ∷ record { min = 70; grade = "B" }
    ∷ []

graded : grade_from 72 thresholds ≡ "B"
unfolding grade_from
graded = refl

grade_from-Best_example :
    (grade_from 72 thresholds ≡ grade_or_rejected (best 72 thresholds))
    × Best 72 thresholds (best 72 thresholds)
grade_from-Best_example = grade_from-Best 72 thresholds

abbrev context : LlmCallContext
context = record {
  operation = Operation.judge;
  call_group_id = 7;
  trace_id = none;
  ingestion_job_id = some 3;
  score_id = none;
  jd_id = some 2;
  rule_version_id = some 5;
}

score-Sound_example :
    Sound reader "exports to Brazil" judge_dimensions
      (Judge.score reader settings "exports to Brazil" judge_dimensions context none encounters
        idle).0
score-Sound_example =
    score-Sound reader settings "exports to Brazil" judge_dimensions context none encounters idle

abbrev points : DimensionResult → ℕ
points r = r.score

rated : map points (score_dimensions texts candidate rule_dimensions) ≡ 20 ∷ 6 ∷ []
unfolding score_dimensions tiered_keyword years_score is_hit is_met every years_for years_of joined
    descending find_quotes
rated = refl

score_dimensions-Rated_example :
    Rowwise
      (Rated texts candidate)
      rule_dimensions
      (score_dimensions texts candidate rule_dimensions)
score_dimensions-Rated_example = score_dimensions-Rated texts candidate rule_dimensions

-- Another candidate's score is there.
abbrev other : Score
other = record {
  id = 1;
  candidate_id = 8;
  jd_id = 2;
  rule_version_id = 5;
  total_score = 70;
  grade = "A";
  hard_filter_result = record {
    rejected = false;
    failed_filter_ids = [];
    unknown_filter_ids = [];
    audit_entries = [];
  };
  rule_dimensions = [];
  rule_subtotal = 0;
  judge_dimensions = none;
  llm_model_main = none;
  llm_model_extract = none;
  llm_judge_call_group_id = none;
  cost_tokens = 0;
}

abbrev store : Store
store = record {
  scores = other ∷ [];
  next_id = 2;
  audit = [];
  checks = record { checks = []; scores = []; next_id = 1 };
}

abbrev meets : Meets
meets = record {
  candidate_id = 9;
  parsed_markdown = "exports to Brazil";
  extracted = candidate;
  jd_id = 2;
  active_rule_version_id = some 5;
  schema = some schema;
  ingestion_job_id = some 3;
  call_group_id = 7;
  rule_text = rule_text;
  texts = texts;
  reader = reader;
  gateway = settings;
  encounters = encounters;
  stored = λ n. n;
  meanwhile = λ db. db;
  primitives = record { digest = λ _. 3; decimal = λ _. ""; divide = λ a b. a };
  golden_label = none;
  cross_engine_model = "other";
  sample_percent = 20;
  low_confidence = 50;
  diff_threshold = 15;
}

run-Behaves_example :
    Behaves meets 5 store idle
      (find_first (has_key (key_of meets 5)) store.scores)
      (run meets store idle)
run-Behaves_example = run-Behaves meets 5 store idle refl (λ k. ground arith) (λ k. ground arith)
