-- ===== src/CrossCheck/Worker.antt =====
-- backend/app/services/cross_check/worker.py: a worker of the queue claims a check, judges the resume
-- again with the check's model, and records the outcome. What the database holds and the judge
-- meets is a parameter, and so is what other transactions commit between the claim and the outcome.
pub mod Outcome
mod Tests
use smart_screen_agent.Prelude.{
  ℕ, ◌+◌, String, Bool, Option, none, some, List, [], ◌∷◌, Result, ok, raised, ◌>>=◌, if◌then◌else◌,
}
use smart_screen_agent.CrossCheck.State.{
  Db, ScoreCrossCheck, ErrorCode, provider_unavailable, usage_ledger_unavailable,
  database_unavailable, cross_check_unexpected, model_price_missing, provider_configuration_error,
  invalid_secondary_output, source_missing, claim_cross_check, complete_cross_check,
  fail_cross_check,
}
use smart_screen_agent.Llm.Usage.{LlmCallContext, Operation}
use smart_screen_agent.Llm.Gateway.{
  llm_configuration, llm_invalid_response, llm_unavailable, price_missing, ledger_unavailable,
  Settings, World,
}
use smart_screen_agent.Scoring.Judge
use smart_screen_agent.Scoring.Judge.{
  JudgeDimension, JudgeDimensionResult, JudgeResult, Reader, JudgeError, gateway, invalid,
  Encounters, Judged,
}

-- An exception of the worker's `try`: of the judge, `SourceMissing`, one of the database or of the
-- operating system, and any other.
pub data Trouble : Type 0 where
  judging : JudgeError → Trouble
  missing database other : Trouble

-- The joined row: the schema and the subtotal are none where their reading raises.
pub record Row : Type 0 where
  pub score_id : ℕ
  pub jd_id : ℕ
  pub rule_version_id : ℕ
  pub total_score : ℕ
  pub parsed_markdown : Option String
  pub judge_dimensions : Option (List JudgeDimension)
  pub subtotal : Option ℕ

pub record Source : Type 0 where
  pub score_id : ℕ
  pub jd_id : ℕ
  pub rule_version_id : ℕ
  pub primary_total : ℕ
  pub rule_subtotal : ℕ
  pub resume_markdown : String
  pub judge_dimensions : List JudgeDimension

abbrev pub or_empty : Option String → String
or_empty none = ""
or_empty (some text) = text

abbrev pub source_with :
    Row → String → Option (List JudgeDimension) → Option ℕ → Result Trouble Source
source_with row markdown none _ = raised missing
source_with row markdown (some dims) none = raised missing
source_with row markdown (some dims) (some subtotal) = ok (record {
  score_id = row.score_id;
  jd_id = row.jd_id;
  rule_version_id = row.rule_version_id;
  primary_total = row.total_score;
  rule_subtotal = subtotal;
  resume_markdown = markdown;
  judge_dimensions = dims;
})

abbrev pub read_row : (String → Bool) → Option Row → Result Trouble Source
read_row is_blank none = raised missing
read_row is_blank (some row) =
    if is_blank (or_empty row.parsed_markdown)
    then raised missing
    else source_with row (or_empty row.parsed_markdown) row.judge_dimensions row.subtotal

-- `_load_source`, from what its SELECT returns or raises.
unfoldable pub load_source : (String → Bool) → Result Trouble (Option Row) → Result Trouble Source
load_source is_blank selected = selected >>= read_row is_blank

-- `_classify`, without the flag that its caller drops.
unfoldable pub classify : Trouble → ErrorCode
classify (judging (gateway price_missing)) = model_price_missing
classify (judging (gateway ledger_unavailable)) = usage_ledger_unavailable
classify (judging (gateway llm_configuration)) = provider_configuration_error
classify (judging (gateway llm_invalid_response)) = invalid_secondary_output
classify (judging (gateway llm_unavailable)) = provider_unavailable
classify (judging (invalid e)) = invalid_secondary_output
classify missing = source_missing
classify database = database_unavailable
classify other = cross_check_unexpected

-- `item.score or 0`
abbrev pub or_zero : Option ℕ → ℕ
or_zero none = 0
or_zero (some n) = n

-- `sum((Decimal(str(item.score or 0)) ...), Decimal("0"))`
unfoldable pub judge_subtotal : List JudgeDimensionResult → ℕ
judge_subtotal [] = 0
judge_subtotal (item ∷ items) = or_zero item.score + judge_subtotal items

-- The settings, and what a run of the worker meets.
pub record Meets : Type 0 where
  pub lease_seconds : ℕ
  pub max_attempts : ℕ
  pub is_blank : String → Bool
  pub reader : Reader
  pub gateway : Settings
  pub token : ℕ
  pub now : ℕ
  pub call_group_id : ℕ
  pub selected : Result Trouble (Option Row)
  pub encounters : Encounters
  pub later : ℕ
  -- An exception that is none of the judge's own, such as a cancellation.
  pub stopped : Option Trouble
  -- Whether the transaction of the outcome commits; an exception in it leaves the worker.
  pub outcome_commits : Bool
  -- What others commit after the claim.
  pub meanwhile : Db → Db

pub data Report : Type 0 where
  unclaimed : Report
  failed : ErrorCode → Report
  completed : Bool → Report
  lost : Report

abbrev pub context_of : Meets → Source → LlmCallContext
context_of m source = record {
  operation = Operation.cross_check;
  call_group_id = m.call_group_id;
  trace_id = none;
  ingestion_job_id = none;
  score_id = some source.score_id;
  jd_id = some source.jd_id;
  rule_version_id = some source.rule_version_id;
}

abbrev pub total_of : Source → Option Trouble → Result JudgeError JudgeResult → Result Trouble ℕ
total_of source (some trouble) _ = raised trouble
total_of source none (raised e) = raised (judging e)
total_of source none (ok result) = ok (source.rule_subtotal + judge_subtotal result.dimensions)

abbrev pub with_source :
    Meets → ScoreCrossCheck → World → Result Trouble Source → Result Trouble ℕ × World
with_source m c w (raised e) = (raised e, w)
with_source m c w (ok source) =
    let (judged, after) =
      Judge.score m.reader m.gateway source.resume_markdown source.judge_dimensions
        (context_of m source) (some c.secondary_model) m.encounters w in
    (total_of source m.stopped judged, after)

-- The body of the `try`.
unfoldable pub judge_again : Meets → ScoreCrossCheck → World → Result Trouble ℕ × World
judge_again m c w = with_source m c w (load_source m.is_blank m.selected)

-- The transaction of the outcome.
abbrev pub outcome_of : Meets → ℕ → Result Trouble ℕ → Db → Report × Db
outcome_of m row_id (raised e) db =
    (failed (classify e), (fail_cross_check row_id m.token (classify e) m.max_attempts db).1)
outcome_of m row_id (ok total) db =
    let (done, after) = complete_cross_check row_id m.token total m.later db in
    (completed done, after)

-- It is rolled back where a statement of it or its commit raises.
abbrev pub record_outcome : Meets → ℕ → Result Trouble ℕ → Db → Report × Db
record_outcome m row_id total db =
    if m.outcome_commits then outcome_of m row_id total db else (lost, db)

abbrev pub after_claim : Meets → ℕ → World → Option ScoreCrossCheck × Db → Report × Db × World
after_claim m row_id w (none, db) = (unclaimed, db, w)
after_claim m row_id w (some c, db) =
    let (total, w') = judge_again m c w in
    let (report, db') = record_outcome m row_id total (m.meanwhile db) in (report, db', w')

unfoldable pub run_cross_check : Meets → ℕ → Db → World → Report × Db × World
run_cross_check m row_id db w =
    after_claim m row_id w
      (claim_cross_check m.token row_id m.now m.lease_seconds m.max_attempts db)
