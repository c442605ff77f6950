-- ===== src/Quality/Releases.antt =====
-- backend/app/services/quality/releases.py: what a release is computed from; its child Creation
-- is `create_release`. The hash of the golden rows and the fingerprint of the inputs are functions that are
-- given; the totals of the usage ledger, which are told beside the metrics, are left out. A judge's
-- payload is given by the observations that `_observations` makes of it.
pub mod Creation
pub mod Gathered
pub mod Written
pub mod Recorded
use smart_screen_agent.Prelude.{
  ℕ, zero, suc, ◌+◌, ◌-◌, String, Bool, true, false, not, ◌&&◌, ◌||◌, Option, none, some, List, [],
  ◌∷◌, ◌++◌, map, any, select, find_first, length, same_text, ltb, leb, ◌==◌, is_some, Result, ok,
  raised, ◌>>=◌, if◌then◌else◌,
}
use smart_screen_agent.Quality.Metrics.{
  GoldenLabel, BoundJudgeDimension, JudgeObservation, QualityItem, AgreementObservation,
  Classification, Evidence, Agreement, TargetResult, TargetStatus, ReleaseStatus, below,
  insufficient_data, not_applicable, CoverageStatus, no_dimensions, classification_metrics,
  evidence_metrics, agreement_metrics, target_result, release_rollup,
}
use smart_screen_agent.Quality.Metrics.Confidence.{Decimals, Confidence, confidence_metrics}

pub record Jd : Type 0 where
  pub id : ℕ
  pub code : String
  pub active_rule_version_id : Option ℕ

-- The judge's dimensions with their weights, if the schema is valid.
pub record RuleVersion : Type 0 where
  pub id : ℕ
  pub judge_dimensions : Option (List (String × ℕ))

pub record GoldenRow : Type 0 where
  pub jd_id : ℕ
  pub candidate_id : ℕ
  pub label : GoldenLabel

pub record Score : Type 0 where
  pub id : ℕ
  pub candidate_id : ℕ
  pub jd_id : ℕ
  pub rule_version_id : ℕ
  pub grade : String
  pub judge : Option (List JudgeObservation)
  pub created_at : ℕ

pub record Feedback : Type 0 where
  pub score_id : ℕ
  pub ai_agreed : Option Bool
  pub stamped : ℕ

pub record Snapshot : Type 0 where
  pub id : ℕ
  pub content_sha256 : String
  pub item_count : ℕ
  pub entries : List GoldenRow

pub record JdBinding : Type 0 where
  pub jd_id : ℕ
  pub jd_code : String
  pub rule_version_id : ℕ

pub record Targets : Type 0 where
  pub f1_target : ℕ × ℕ
  pub evidence_target : ℕ × ℕ
  pub min_bucket_size : ℕ

pub record MetricBlock : Type 0 where
  pub classification : Classification
  pub evidence : Evidence
  pub confidence : Confidence
  pub agreement : Agreement
  pub f1_target_result : TargetResult
  pub evidence_target_result : TargetResult

pub record QualityRelease : Type 0 where
  pub id : ℕ
  pub golden_snapshot_id : ℕ
  pub window_start : ℕ
  pub window_end : ℕ
  pub status : ReleaseStatus
  pub aggregate : MetricBlock
  pub created_by : ℕ
  pub created_at : ℕ

pub record QualityReleaseJd : Type 0 where
  pub quality_release_id : ℕ
  pub jd_id : ℕ
  pub rule_version_id : ℕ
  pub metrics : MetricBlock

pub data AuditEvent : Type 0 where
  quality_release_created quality_release_below_target : AuditEvent

pub record AuditLog : Type 0 where
  pub event : AuditEvent
  pub target_id : ℕ
  pub status : ReleaseStatus

pub record Db : Type 0 where
  pub jds : List Jd
  pub versions : List RuleVersion
  pub golden : List GoldenRow
  pub scores : List Score
  pub feedback : List Feedback
  pub snapshots : List Snapshot
  pub next_snapshot : ℕ
  pub releases : List QualityRelease
  pub next_release : ℕ
  pub release_jds : List QualityReleaseJd
  pub audit : List AuditLog

pub data ReleaseError : Type 0 where
  invalid_release_window release_window_too_large golden_set_empty : ReleaseError
  active_rule_missing invalid_active_rule no_result_found : ReleaseError
  release_input_changed release_transaction_conflict database_failed : ReleaseError

-- A bound of a window, with or without a zone.
pub record Moment : Type 0 where
  pub at : ℕ
  pub aware : Bool

pub record ReleaseRequest : Type 0 where
  pub window_start : Option Moment
  pub window_end : Option Moment
  pub jd_codes : Option (List String)
  pub expected_input_fingerprint : Option String

-- 30 and 365 days, in microseconds.
abbrev pub default_release_window : ℕ
default_release_window = 2592000000000

abbrev pub max_release_window : ℕ
max_release_window = 31536000000000

abbrev pub end_or_now : ℕ → Option Moment → Moment
end_or_now now none = record { at = now; aware = true }
end_or_now now (some m) = m

abbrev pub start_or_default : Moment → Option Moment → Moment
start_or_default end none = record end { at = end.at - default_release_window }
start_or_default end (some m) = m

abbrev pub check_window : ℕ → Moment → Moment → Result ReleaseError (ℕ × ℕ)
check_window now start end =
    if not (start.aware && end.aware)
    then raised invalid_release_window
    else if leb end.at start.at
    then raised invalid_release_window
    else if ltb now end.at
    then raised invalid_release_window
    else if ltb max_release_window (end.at - start.at)
    then raised release_window_too_large
    else ok (start.at, end.at)

-- `resolve_release_window`
unfoldable pub resolve_release_window :
    Option Moment → Option Moment → ℕ → Result ReleaseError (ℕ × ℕ)
resolve_release_window start end now =
    check_window now (start_or_default (end_or_now now end) start) (end_or_now now end)

abbrev pub is_labelled : List GoldenRow → Jd → Bool
is_labelled golden jd = any (λ row. row.jd_id == jd.id) golden

abbrev pub selected_jds : Option (List String) → Db → List Jd
selected_jds none db = select (is_labelled db.golden) db.jds
selected_jds (some codes) db = select (λ jd. any (same_text jd.code) codes) db.jds

-- A binding, with the judge's dimensions of its rules.
abbrev pub Bound : Type 0
Bound = JdBinding × List BoundJudgeDimension

abbrev pub with_dimensions : Jd → ℕ → Option (List (String × ℕ)) → Result ReleaseError Bound
with_dimensions jd version none = raised invalid_active_rule
with_dimensions jd version (some dims) = ok (
  record { jd_id = jd.id; jd_code = jd.code; rule_version_id = version },
  map (λ d. record { jd_id = jd.id; id = d.0; weight = d.1 }) dims,
)

abbrev pub with_row : Jd → Option RuleVersion → Result ReleaseError Bound
with_row jd none = raised no_result_found
with_row jd (some v) = with_dimensions jd v.id v.judge_dimensions

abbrev pub bind_jd : Db → Jd → Option ℕ → Result ReleaseError Bound
bind_jd db jd none = raised active_rule_missing
bind_jd db jd (some i) = with_row jd (find_first (λ v. v.id == i) db.versions)

unfoldable pub bind_all : Db → List Jd → Result ReleaseError (List Bound)
bind_all db [] = ok []
bind_all db (jd ∷ jds) = do
  b ← bind_jd db jd jd.active_rule_version_id
  rest ← bind_all db jds
  ok (b ∷ rest)

abbrev pub bind_some : Db → List Jd → Result ReleaseError (List Bound)
bind_some db [] = raised golden_set_empty
bind_some db (jd ∷ jds) = bind_all db (jd ∷ jds)

-- `_resolve_bindings`
unfoldable pub resolve_bindings : Option (List String) → Db → Result ReleaseError (List Bound)
resolve_bindings codes db = bind_some db (selected_jds codes db)

abbrev pub is_bound : Score → JdBinding → Bool
is_bound s b = s.jd_id == b.jd_id && s.rule_version_id == b.rule_version_id

abbrev pub in_window : ℕ → ℕ → ℕ → Bool
in_window start end at = leb start at && ltb at end

abbrev pub is_candidate : List JdBinding → ℕ → ℕ → Score → Bool
is_candidate bindings start end s = any (is_bound s) bindings && in_window start end s.created_at

-- A later score of the same candidate and JD.
abbrev pub is_later : Score → Score → Bool
is_later s t =
    t.candidate_id == s.candidate_id
    && (t.jd_id == s.jd_id
        && (ltb s.created_at t.created_at || (t.created_at == s.created_at && ltb s.id t.id)))

-- `_matched_scores`: the first by row number of each candidate and JD.
unfoldable pub matched_scores : List JdBinding → ℕ → ℕ → List Score → List Score
matched_scores bindings start end scores =
    let rows = select (is_candidate bindings start end) scores in
    select (λ s. not (any (is_later s) rows)) rows

abbrev pub observations : Option (List JudgeObservation) → List JudgeObservation
observations none = []
observations (some os) = os

abbrev pub item_of : GoldenRow → Option Score → QualityItem
item_of row none = record {
  jd_id = row.jd_id;
  candidate_id = row.candidate_id;
  golden_label = row.label;
  grade = none;
  reached_judge = false;
  judge = [];
}
item_of row (some s) = record {
  jd_id = row.jd_id;
  candidate_id = row.candidate_id;
  golden_label = row.label;
  grade = some s.grade;
  reached_judge = is_some s.judge;
  judge = observations s.judge;
}

abbrev pub score_of : List Score → GoldenRow → Option Score
score_of matched row =
    find_first (λ s. s.candidate_id == row.candidate_id && s.jd_id == row.jd_id) matched

abbrev pub agreement_of : List Score → ℕ → ℕ → Feedback → List AgreementObservation
agreement_of matched start end f = elim (find_first (λ s. s.id == f.score_id) matched) [
  | none ↦ []
  | some s ↦
      if in_window start end f.stamped
      then record { jd_id = s.jd_id; ai_agreed = f.ai_agreed } ∷ []
      else []
]

unfoldable pub agreements : List Score → ℕ → ℕ → List Feedback → List AgreementObservation
agreements matched start end [] = []
agreements matched start end (f ∷ fs) =
    agreement_of matched start end f ++ agreements matched start end fs

pub record GatheredRelease : Type 0 where
  pub window_start : ℕ
  pub window_end : ℕ
  pub bindings : List JdBinding
  pub golden_rows : List GoldenRow
  pub golden_hash : String
  pub fingerprint : String
  pub items : List QualityItem
  pub expected_dimensions : List BoundJudgeDimension
  pub agreement : List AgreementObservation

-- What is given: the settings' targets, the divisions, `golden_content_hash` and `input_fingerprint`.
pub record Given : Type 0 where
  pub targets : Targets
  pub decimals : Decimals
  pub golden_content_hash : List GoldenRow → String
  pub input_fingerprint : String → List JdBinding → ℕ → ℕ → Targets → String

unfoldable pub flatten : List (List BoundJudgeDimension) → List BoundJudgeDimension
flatten [] = []
flatten (x ∷ xs) = x ++ flatten xs

abbrev pub gather_rows :
    Given → Db → ℕ × ℕ → List Bound → List GoldenRow → Result ReleaseError GatheredRelease
gather_rows g db (start, end) bound [] = raised golden_set_empty
gather_rows g db (start, end) bound (row ∷ rows) =
    let bindings = map (λ b. b.0) bound in
    let matched = matched_scores bindings start end db.scores in
    let hash = g.golden_content_hash (row ∷ rows) in
    ok (record {
      window_start = start;
      window_end = end;
      bindings = bindings;
      golden_rows = row ∷ rows;
      golden_hash = hash;
      fingerprint = g.input_fingerprint hash bindings start end g.targets;
      items = map (λ r. item_of r (score_of matched r)) (row ∷ rows);
      expected_dimensions = flatten (map (λ b. b.1) bound);
      agreement = agreements matched start end db.feedback;
    })

-- The golden rows stand in the order of their JD and candidate.
abbrev pub golden_of : List Bound → List GoldenRow → List GoldenRow
golden_of bound golden = select (λ row. any (λ b. row.jd_id == b.0.jd_id) bound) golden

-- `_gather`
unfoldable pub gather : Given → ReleaseRequest → ℕ → Db → Result ReleaseError GatheredRelease
gather g request now db = do
  window ← resolve_release_window request.window_start request.window_end now
  bound ← resolve_bindings request.jd_codes db
  gather_rows g db window bound (golden_of bound db.golden)
