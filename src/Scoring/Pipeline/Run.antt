-- ===== src/Scoring/Pipeline/Run.antt =====
-- backend/app/scoring/pipeline.py: what a run persists and queues, and `ScoringPipeline.run`.
use smart_screen_agent.Prelude.{
  ℕ, ◌+◌, String, false, Option, none, some, List, [], ◌∷◌, map, find_first, same_text, Result, ok,
  raised, if◌then◌else◌,
}
use smart_screen_agent.CrossCheck.State
use smart_screen_agent.CrossCheck.Sampling.{Entry, CrossCheckContext, queue_cross_check_for_score}
use smart_screen_agent.Llm.Usage.{LlmCallContext, Operation}
use smart_screen_agent.Llm.Gateway.{World}
use smart_screen_agent.Scoring.Judge
use smart_screen_agent.Scoring.Judge.{
  JudgeDimension, JudgeDimensionResult, JudgeResult, JudgeError, Reader, Encounters,
}
use smart_screen_agent.Scoring.Grade.{grade_from}
use smart_screen_agent.Scoring.HardFilter.{HardFilterResult, run_hard_filters}
use smart_screen_agent.Scoring.RuleEngine.{score_dimensions, rule_total}
use smart_screen_agent.Scoring.Pipeline.{
  RuleSchema, Score, scored, Store, has_key, no_active_rule_version, invalid_schema, invalid_rule,
  no_result_found, judge_failed, Meets, result_of, upsert_score, key_of, logged, Ran, reject,
}

abbrev pub given : String → Option String
given s = if same_text s "" then none else some s

abbrev pub or_zero : Option ℕ → ℕ
or_zero none = 0
or_zero (some n) = n

-- `sum((dimension.score or 0) for dimension in judge_result.dimensions)`
unfoldable pub judge_total : List JudgeDimensionResult → ℕ
judge_total [] = 0
judge_total (d ∷ ds) = or_zero d.score + judge_total ds

abbrev pub call_group : Meets → List JudgeDimension → Option ℕ → Option ℕ
call_group m [] _ = none
call_group m (d ∷ ds) none = some m.call_group_id
call_group m (d ∷ ds) (some i) = some i

abbrev pub judged_score : Meets → ℕ → RuleSchema → HardFilterResult → JudgeResult → Score
judged_score m version schema hf judged =
    let results = score_dimensions m.texts m.extracted schema.rule_dimensions in
    let total = rule_total results + judge_total judged.dimensions in
    record {
      id = 0;
      candidate_id = m.candidate_id;
      jd_id = m.jd_id;
      rule_version_id = version;
      total_score = m.stored total;
      grade = grade_from total schema.grade_thresholds;
      hard_filter_result = hf;
      rule_dimensions = results;
      rule_subtotal = rule_total results;
      judge_dimensions = some judged;
      llm_model_main = given judged.model;
      llm_model_extract = m.extracted.meta_model;
      llm_judge_call_group_id = call_group m schema.judge_dimensions judged.call_group_id;
      cost_tokens = judged.tokens;
    }

abbrev pub entry_of : JudgeDimensionResult → Entry
entry_of d = record { id = some d.id; tier = some d.tier; confidence = some d.confidence }

-- `weights`, in which the last dimension of an id counts.
unfoldable pub weight_of : List JudgeDimension → String → Option ℕ
weight_of [] i = none
weight_of (d ∷ ds) i = elim (weight_of ds i) [
  | some w ↦ some w
  | none ↦ if same_text d.id i then some d.weight else none
]

abbrev pub context_of : Meets → RuleSchema → JudgeResult → Score → CrossCheckContext
context_of m schema judged s = record {
  score_id = s.id;
  prompt_version =
      if same_text judged.prompt_version "" then "resume_judge_v1" else judged.prompt_version;
  secondary_model = m.cross_engine_model;
  primary_model = m.gateway.model_judge;
  schema_dimension_ids = map (λ d. d.id) schema.judge_dimensions;
  judge_dimensions = map entry_of judged.dimensions;
  grade = s.grade;
  sample_percent = m.sample_percent;
  low_confidence = m.low_confidence;
  golden_label = m.golden_label;
  ai_agreed = none;
  weights = weight_of schema.judge_dimensions;
}

-- The queueing is a part of the score's transaction, which NoResultFound rolls back.
abbrev pub queued : Store → Score → Store → Option (List ℕ) × State.Db → Ran
queued before s db (none, checks) = (raised no_result_found, before)
queued before s db (some ids, checks) = (ok (result_of ids s), record db { checks = checks })

-- `_maybe_queue_cross_check`
abbrev pub maybe_queue : Meets → RuleSchema → JudgeResult → Store → Option Score × Store → Ran
maybe_queue m schema judged before (none, db) = (raised no_result_found, before)
maybe_queue m schema judged before (some s, db) = queued before s db (
    queue_cross_check_for_score m.primitives (some (context_of m schema judged s)) false
      m.diff_threshold db.checks)

unfoldable pub persist : Meets → ℕ → RuleSchema → HardFilterResult → JudgeResult → Store → Ran
persist m version schema hf judged db =
    let s = judged_score m version schema hf judged in
    maybe_queue m schema judged db (
      upsert_score (key_of m version) s
        (logged m version
            (scored (rule_total s.rule_dimensions + judge_total judged.dimensions) s.grade)
          ∷ [])
        db)

abbrev pub judge_context : Meets → ℕ → LlmCallContext
judge_context m version = record {
  operation = Operation.judge;
  call_group_id = m.call_group_id;
  trace_id = none;
  ingestion_job_id = m.ingestion_job_id;
  score_id = none;
  jd_id = some m.jd_id;
  rule_version_id = some version;
}

abbrev pub after_judge :
    Meets
    → ℕ
    → RuleSchema
    → HardFilterResult
    → Store
    → Result JudgeError JudgeResult × World
    → Ran × World
after_judge m version schema hf db (raised e, w) = ((raised (judge_failed e), m.meanwhile db), w)
after_judge m version schema hf db (ok judged, w) =
    (persist m version schema hf judged (m.meanwhile db), w)

abbrev pub after_filters :
    Meets → ℕ → RuleSchema → Option HardFilterResult → Store → World → Ran × World
after_filters m version schema none db w = ((raised invalid_rule, db), w)
after_filters m version schema (some hf) db w =
    if hf.rejected
    then (reject m version hf (m.meanwhile db), w)
    else after_judge m version schema hf db (
        Judge.score m.reader m.gateway m.parsed_markdown schema.judge_dimensions
          (judge_context m version) none m.encounters w)

abbrev pub evaluate : Meets → ℕ → Option RuleSchema → Store → World → Ran × World
evaluate m version none db w = ((raised invalid_schema, db), w)
evaluate m version (some schema) db w =
    after_filters m version schema (run_hard_filters m.rule_text m.extracted schema.hard_filters) db
      w

abbrev pub unless_scored : Meets → ℕ → Option Score → Store → World → Ran × World
unless_scored m version (some s) db w = ((ok (result_of [] s), db), w)
unless_scored m version none db w = evaluate m version m.schema db w

abbrev pub with_version : Meets → Option ℕ → Store → World → Ran × World
with_version m none db w = ((raised no_active_rule_version, db), w)
with_version m (some version) db w =
    unless_scored m version (find_first (has_key (key_of m version)) db.scores) db w

unfoldable pub run : Meets → Store → World → Ran × World
run m db w = with_version m m.active_rule_version_id db w
