-- ===== src/Rules/Tests.antt =====
-- A concrete history of the rule versions of a JD: a draft is created, evaluated and published.
use smart_screen_agent.Prelude.{◌≡◌, refl, true, none, some, List, [], ◌∷◌, map}
use smart_screen_agent.Scoring.HardFilter.{run_hard_filters, run_filters_from, eval_filter}
use smart_screen_agent.Scoring.RuleEngine.{
  score_dimensions, rule_total, tiered_keyword, years_score, is_hit, is_met, every, years_for,
  years_of, find_quotes, joined,
}
use smart_screen_agent.Scoring.Ranking.{descending, lowest}
use smart_screen_agent.Scoring.Grade.{grade_from}
use smart_screen_agent.Scoring.Samples.{rule_text, texts, candidate, schema}
use smart_screen_agent.Rules.WhatIf.{
  Readers, ScoredLabel, whatif_grade, bucket, metric_stats, count_rows, draft_metrics,
}
use smart_screen_agent.Rules.Publication.{
  RuleVersion, Db, published, archived, Status, new_draft, create_draft, evaluate_draft,
  publish_version,
}
use smart_screen_agent.Rules.Publication.Governed.{IsGoverned}
use smart_screen_agent.Rules.Publication.History.{
  Request, create, evaluate, publish, commit, history, history-IsGoverned,
}

abbrev no_versions : Db
no_versions = record { versions = []; active = λ _. none; next_id = 1 }

abbrev readers : Readers
readers = record { rule_text = rule_text; texts = texts }

abbrev first : RuleVersion
first = new_draft 1 2 "v1" schema none

abbrev second : RuleVersion
second = new_draft 2 2 "v2" schema none

abbrev rows : List ScoredLabel
rows =
    record {
      label = "advance";
      extracted = candidate;
      stored_rule_subtotal = 10;
      stored_total = 40;
      has_judge_dimensions = true;
    }
    ∷ []

-- Two versions are published one after the other.
abbrev requests : List Request
requests =
    create 2 (some ("v1", schema)) none no_versions
    ∷ evaluate readers first ("advance" ∷ []) rows
    ∷ publish 2 "v1" 100 7
    ∷ create 2 (some ("v2", schema)) none no_versions
    ∷ evaluate readers second ("advance" ∷ []) rows
    ∷ publish 2 "v2" 200 7
    ∷ []

abbrev status_of : RuleVersion → Status
status_of v = v.status

ended : map status_of (history requests no_versions).versions ≡ archived ∷ published ∷ []
unfolding history commit create_draft evaluate_draft publish_version draft_metrics count_rows
    whatif_grade bucket metric_stats run_hard_filters run_filters_from eval_filter score_dimensions
    rule_total tiered_keyword years_score is_hit is_met every years_for years_of joined descending
    find_quotes grade_from lowest
ended = refl

no_versions-IsGoverned : IsGoverned no_versions
no_versions-IsGoverned = record { owner = λ i. first; fine = tt; active = λ j i e. absurd (cc e) }

history-IsGoverned_example : IsGoverned (history requests no_versions)
history-IsGoverned_example = history-IsGoverned requests no_versions no_versions-IsGoverned
