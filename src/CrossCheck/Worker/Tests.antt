-- ===== src/CrossCheck/Worker/Tests.antt =====
-- A concrete run of the cross-check worker: it claims a check, asks the check's model and completes it.
use smart_screen_agent.Prelude.{
  ◌≡◌, refl, true, false, none, some, [], ◌∷◌, find_first, ok, some_inj, subst,
}
use smart_screen_agent.CrossCheck.State.{
  queued, deterministic_sample, ScoreCrossCheck, Score, Db, claim_cross_check, claimed, save_check,
  is_score,
}
use smart_screen_agent.Scoring.Samples.{settings, encounters, idle, reader, judge_dimensions}
use smart_screen_agent.Scoring.Judge.Secondary.{OnlyAsks}
use smart_screen_agent.CrossCheck.Worker.{Meets, run_cross_check}
use smart_screen_agent.CrossCheck.Worker.Outcome.{Leaves, HasScore, run_cross_check-LetGo}

abbrev waiting : ScoreCrossCheck
waiting = record {
  id = 1;
  score_id = 7;
  secondary_model = "other";
  prompt_version = "v2";
  sample_reasons = deterministic_sample ∷ [];
  state = queued;
  attempts = 0;
  lease_expires_at = none;
  lease_token = none;
  last_error_code = none;
  secondary_total_score = none;
  absolute_diff = none;
  threshold_snapshot = 15;
  completed_at = none;
}

abbrev score : Score
score = record { id = 7; total_score = 60; cross_engine_diff = none; is_suspicious = false }

abbrev db : Db
db = record { checks = waiting ∷ []; scores = score ∷ []; next_id = 2 }

abbrev meets : Meets
meets = record {
  lease_seconds = 300;
  max_attempts = 3;
  is_blank = λ _. false;
  reader = reader;
  gateway = settings;
  token = 41;
  now = 2000;
  call_group_id = 9;
  selected = ok (
      some (record {
        score_id = 7;
        jd_id = 2;
        rule_version_id = 5;
        total_score = 60;
        parsed_markdown = some "exports to Brazil";
        judge_dimensions = some judge_dimensions;
        subtotal = some 20;
      }));
  encounters = encounters;
  later = 9000;
  stopped = none;
  outcome_commits = true;
  meanwhile = λ d. d;
}

abbrev taken : ScoreCrossCheck
taken = claimed 41 300002000 waiting

claim_ran : claim_cross_check 41 1 2000 300 3 db ≡ (some taken, save_check taken db)
unfolding claim_cross_check
claim_ran = refl

-- The only check that the worker holds is the one that it has claimed.
has_score : HasScore 1 41 (save_check taken db)
has_score c h = (score, scored c (some_inj h))
  where
    scored :
        (c : ScoreCrossCheck) → taken ≡ c → find_first (is_score c.score_id) db.scores ≡ some score
    scored c e = subst (λ x. find_first (is_score x.score_id) db.scores ≡ some score) e refl

run_cross_check-LetGo_example :
    Leaves true 1 41
      (save_check taken db)
      (run_cross_check meets 1 db idle).0
      (run_cross_check meets 1 db idle).1
    × OnlyAsks "other" 2 [] (run_cross_check meets 1 db idle).2.requests
run_cross_check-LetGo_example =
    run_cross_check-LetGo meets 1 db (save_check taken db) idle taken claim_ran has_score
