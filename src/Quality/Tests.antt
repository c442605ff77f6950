-- ===== src/Quality/Tests.antt =====
-- A concrete release: two labelled candidates of a JD, of whom the first is scored.
use smart_screen_agent.Prelude.{zero, suc, true, none, some, [], ◌∷◌}
use smart_screen_agent.Quality.Metrics.{advance, reject}
use smart_screen_agent.Quality.Releases.{Db, Given, ReleaseRequest}
use smart_screen_agent.Quality.Releases.Creation.{Meets, conflict}

abbrev labelled : Db
labelled = record {
  jds = record { id = 2; code = "sales"; active_rule_version_id = some 5 } ∷ [];
  versions = record { id = 5; judge_dimensions = some (("trade", 30) ∷ []) } ∷ [];
  golden =
      record { jd_id = 2; candidate_id = 8; label = advance }
      ∷ record { jd_id = 2; candidate_id = 9; label = reject }
      ∷ [];
  scores =
      record {
        id = 1;
        candidate_id = 8;
        jd_id = 2;
        rule_version_id = 5;
        grade = "A";
        judge = some (
            record {
              dimension_id = "trade";
              tier = "high";
              score = some 30;
              confidence = some 90;
              has_validated_evidence = true;
            }
            ∷ []);
        created_at = 5000000000000;
      }
      ∷ [];
  feedback = record { score_id = 1; ai_agreed = some true; stamped = 5000000000001 } ∷ [];
  snapshots = [];
  next_snapshot = 1;
  releases = [];
  next_release = 1;
  release_jds = [];
  audit = [];
}

abbrev given : Given
given = record {
  targets = record { f1_target = (3, 4); evidence_target = (9, 10); min_bucket_size = 1 };
  decimals = record { one = 100; divide = λ a b. a; share = λ a b c. c };
  golden_content_hash = λ rows. "hash";
  input_fingerprint = λ hash bindings start end targets. "inputs";
}

abbrev request : ReleaseRequest
request = record {
  window_start = none;
  window_end = none;
  jd_codes = none;
  expected_input_fingerprint = some "inputs";
}

-- The first attempt ends in a conflict.
abbrev meets : Meets
meets = record {
  fails = λ n. elim n [ zero ↦ none | suc k ↦ elim k [ zero ↦ none | suc j ↦ some conflict ] ];
  meanwhile = λ n db. db;
}
