-- ===== src/Scoring/Pipeline.antt =====
-- backend/app/scoring/pipeline.py: the table of scores with its unique constraint, the audit log and
-- the queue of cross-checks, what a run meets, and the rejection of a candidate; its child Run is
-- `ScoringPipeline.run`. What other transactions commit while the
-- models are asked is a parameter. The JD's code, the version's text and the trace id only go into
-- audit payloads and ledger rows, and are left out.
pub mod Run
pub mod Persisted
use smart_screen_agent.Prelude.{
  ℕ, suc, ◌+◌, String, Bool, true, false, Option, none, some, List, [], ◌∷◌, ◌++◌, map, any,
  find_first, same_text, ◌==◌, ◌&&◌, Result, ok, raised, if◌then◌else◌,
}
use smart_screen_agent.CrossCheck.State
use smart_screen_agent.CrossCheck.Sampling.{
  Primitives, Entry, CrossCheckContext, queue_cross_check_for_score,
}
use smart_screen_agent.Llm.Usage.{LlmCallContext, Operation}
use smart_screen_agent.Llm.Gateway.{World, Settings}
use smart_screen_agent.Scoring.Judge
use smart_screen_agent.Scoring.Judge.{
  JudgeDimension, JudgeDimensionResult, JudgeResult, JudgeError, Reader, Encounters,
}
use smart_screen_agent.Scoring.Grade.{GradeThreshold, grade_from}
use smart_screen_agent.Scoring.HardFilter.{
  HardFilter, Extracted, RuleText, HardFilterResult, run_hard_filters,
}
use smart_screen_agent.Scoring.RuleEngine.{
  RuleDimension, DimensionResult, Texts, score_dimensions, rule_total,
}

pub record RuleSchema : Type 0 where
  pub hard_filters : List HardFilter
  pub rule_dimensions : List RuleDimension
  pub judge_dimensions : List JudgeDimension
  pub grade_thresholds : List GradeThreshold

-- A row of `scores`; what the cross-checks write is in their own database, under the same id.
pub record Score : Type 0 where
  pub id : ℕ
  pub candidate_id : ℕ
  pub jd_id : ℕ
  pub rule_version_id : ℕ
  pub total_score : ℕ
  pub grade : String
  pub hard_filter_result : HardFilterResult
  pub rule_dimensions : List DimensionResult
  pub rule_subtotal : ℕ
  pub judge_dimensions : Option JudgeResult
  pub llm_model_main : Option String
  pub llm_model_extract : Option String
  pub llm_judge_call_group_id : Option ℕ
  pub cost_tokens : ℕ

pub data AuditEvent : Type 0 where
  hard_filter_reject : HardFilter → AuditEvent
  scored : ℕ → String → AuditEvent

pub record AuditLog : Type 0 where
  pub event : AuditEvent
  pub target_id : ℕ
  pub rule_version_id : ℕ

pub record Store : Type 0 where
  pub scores : List Score
  pub next_id : ℕ
  pub audit : List AuditLog
  pub checks : State.Db

-- The columns of `uq_scores_candidate_jd_rule`.
pub record Key : Type 0 where
  pub candidate_id : ℕ
  pub jd_id : ℕ
  pub rule_version_id : ℕ

unfoldable pub has_key : Key → Score → Bool
has_key k s =
    s.candidate_id == k.candidate_id
    && (s.jd_id == k.jd_id && s.rule_version_id == k.rule_version_id)

pub record PipelineResult : Type 0 where
  pub score_id : ℕ
  pub total_score : ℕ
  pub grade : String
  pub rejected : Bool
  pub cross_check_ids : List ℕ

pub data PipelineError : Type 0 where
  no_active_rule_version invalid_schema invalid_rule no_result_found : PipelineError
  judge_failed : JudgeError → PipelineError

-- The candidate, the JD and its rule version as the first transaction reads them, and what the run
-- meets. `stored` is what the column `Numeric(6, 2)` keeps of a number.
pub record Meets : Type 0 where
  pub candidate_id : ℕ
  pub parsed_markdown : String
  pub extracted : Extracted
  pub jd_id : ℕ
  pub active_rule_version_id : Option ℕ
  pub schema : Option RuleSchema
  pub ingestion_job_id : Option ℕ
  pub call_group_id : ℕ
  pub rule_text : RuleText
  pub texts : Texts
  pub reader : Reader
  pub gateway : Settings
  pub encounters : Encounters
  pub stored : ℕ → ℕ
  pub meanwhile : Store → Store
  pub primitives : Primitives
  pub golden_label : Option String
  pub cross_engine_model : String
  pub sample_percent : ℕ
  pub low_confidence : ℕ
  pub diff_threshold : ℕ

abbrev pub result_of : List ℕ → Score → PipelineResult
result_of ids s = record {
  score_id = s.id;
  total_score = s.total_score;
  grade = s.grade;
  rejected = same_text s.grade "rejected";
  cross_check_ids = ids;
}

abbrev pub check_columns : Score → State.Score
check_columns s = record {
  id = s.id;
  total_score = s.total_score;
  cross_engine_diff = none;
  is_suspicious = false;
}

abbrev pub numbered : ℕ → Score → Score
numbered i s = record s { id = i }

-- INSERT ... ON CONFLICT DO NOTHING; the identity column moves on in both cases.
abbrev pub insert_score : Bool → Score → Store → Store
insert_score true s db = record db { next_id = suc db.next_id }
insert_score false s db = record db {
  scores = db.scores ++ numbered db.next_id s ∷ [];
  next_id = suc db.next_id;
  checks = record db.checks {
    scores = db.checks.scores ++ check_columns (numbered db.next_id s) ∷ [];
  };
}

abbrev pub with_audit : Bool → List AuditLog → Store → Store
with_audit true entries db = db
with_audit false entries db = record db { audit = db.audit ++ entries }

-- `_upsert_score` with the audit rows of a new score, and the row that is there then.
unfoldable pub upsert_score : Key → Score → List AuditLog → Store → Option Score × Store
upsert_score k s entries db =
    let conflict = any (has_key k) db.scores in
    let db' = with_audit conflict entries (insert_score conflict s db) in
    (find_first (has_key k) db'.scores, db')

abbrev pub blank_score : Meets → ℕ → HardFilterResult → Score
blank_score m version hf = record {
  id = 0;
  candidate_id = m.candidate_id;
  jd_id = m.jd_id;
  rule_version_id = version;
  total_score = m.stored 0;
  grade = "rejected";
  hard_filter_result = hf;
  rule_dimensions = [];
  rule_subtotal = 0;
  judge_dimensions = none;
  llm_model_main = none;
  llm_model_extract = m.extracted.meta_model;
  llm_judge_call_group_id = none;
  cost_tokens = 0;
}

abbrev pub key_of : Meets → ℕ → Key
key_of m version = record {
  candidate_id = m.candidate_id;
  jd_id = m.jd_id;
  rule_version_id = version;
}

abbrev pub logged : Meets → ℕ → AuditEvent → AuditLog
logged m version event = record {
  event = event;
  target_id = m.candidate_id;
  rule_version_id = version;
}

abbrev pub Ran : Type 0
Ran = Result PipelineError PipelineResult × Store

-- After a rejection is written; nothing of it is queued.
abbrev pub rejected_result : Store → Option Score × Store → Ran
rejected_result before (none, db) = (raised no_result_found, before)
rejected_result before (some s, db) = (ok (result_of [] s), db)

unfoldable pub reject : Meets → ℕ → HardFilterResult → Store → Ran
reject m version hf db = rejected_result db (
    upsert_score (key_of m version) (blank_score m version hf)
      (map (λ f. logged m version (hard_filter_reject f)) hf.audit_entries) db)
