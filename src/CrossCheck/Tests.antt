-- ===== src/CrossCheck/Tests.antt =====
-- A concrete queue of cross-checks: the theorems about it at inputs that meet their hypotheses.
use smart_screen_agent.Prelude.{
  ℕ, ◌≡◌, ◌↔◌, refl, false, true, none, some, any, List, [], ◌∷◌, arith,
}
use smart_screen_agent.CrossCheck.State.{
  queued, running, deterministic_sample, golden_error, is_reason, low_confidence, ScoreCrossCheck,
  Score, Db, Wanted, provider_unavailable, claim_cross_check, claimed, save_check,
  complete_cross_check, fail_cross_check,
}
use smart_screen_agent.CrossCheck.State.Soundness.{AllSound}
use smart_screen_agent.CrossCheck.State.Projection.{IsProjected}
use smart_screen_agent.CrossCheck.State.History.{
  Transaction, ensure, claim, complete, history, no_checks, history-IsCoherent,
}
use smart_screen_agent.CrossCheck.Sampling.{
  Primitives, CrossCheckContext, trigger_reasons, is_sampled, reason_set, weighted_confidence,
  sample_bucket, sum_entries,
}
use smart_screen_agent.CrossCheck.Sampling.Decision.{Fires, trigger_reasons_fire}
use smart_screen_agent.CrossCheck.State.Fence.{claim_fences}

abbrev waiting : ScoreCrossCheck
waiting = record {
  id = 1;
  score_id = 7;
  secondary_model = "model-b";
  prompt_version = "v2";
  sample_reasons = deterministic_sample ∷ [];
  state = queued;
  attempts = 0;
  lease_expires_at = none;
  lease_token = none;
  last_error_code = none;
  secondary_total_score = none;
  absolute_diff = none;
  threshold_snapshot = 1500;
  completed_at = none;
}

abbrev working : ScoreCrossCheck
working = record waiting {
  id = 2;
  score_id = 8;
  state = running;
  attempts = 3;
  lease_expires_at = some 5000000;
  lease_token = some 40;
}

abbrev score : ℕ → Score
score i = record { id = i; total_score = 8000; cross_engine_diff = none; is_suspicious = false }

abbrev db : Db
db = record { checks = waiting ∷ working ∷ []; scores = score 7 ∷ score 8 ∷ []; next_id = 3 }

abbrev wanted : Wanted
wanted = record {
  score_id = 7;
  secondary_model = "model-c";
  prompt_version = "v2";
  reasons = low_confidence ∷ [];
  threshold = 1500;
}

claim_ran :
    claim_cross_check 41 1 2000 300 3 db
    ≡ (some (claimed 41 300002000 waiting), save_check (claimed 41 300002000 waiting) db)
unfolding claim_cross_check
claim_ran = refl

claim_fences_example :
    (complete_cross_check 1 40 6000 3000 (save_check (claimed 41 300002000 waiting) db)
      ≡ (false, save_check (claimed 41 300002000 waiting) db))
    × (fail_cross_check 1 40 provider_unavailable 3 (save_check (claimed 41 300002000 waiting) db)
        ≡ (false, save_check (claimed 41 300002000 waiting) db))
claim_fences_example =
    claim_fences 41 40 1 2000 300 3 6000 3000 provider_unavailable db claim_ran (λ e. absurd (cc e))

-- A check is queued, claimed and completed, and then a newer one is queued.
abbrev superseding : List Transaction
superseding =
    ensure wanted
    ∷ claim 41 1 2000 300
    ∷ complete 1 41 6000 3000
    ∷ ensure (record wanted { secondary_model = "model-d" })
    ∷ []

history-IsCoherent_example :
    AllSound 3 (history 3 superseding (no_checks (score 7 ∷ []) 1))
    × IsProjected (history 3 superseding (no_checks (score 7 ∷ []) 1))
history-IsCoherent_example = history-IsCoherent 3 superseding (score 7 ∷ []) 1 (omega arith)

abbrev primitives : Primitives
primitives = record { digest = λ _. 103; decimal = λ _. "7"; divide = λ a b. a }

abbrev context : CrossCheckContext
context = record {
  score_id = 7;
  prompt_version = "v2";
  secondary_model = "model-c";
  primary_model = "model-a";
  schema_dimension_ids = "sales" ∷ [];
  judge_dimensions = record { id = some "sales"; tier = some "high"; confidence = some 90 } ∷ [];
  grade = "rejected";
  sample_percent = 5;
  low_confidence = 60;
  golden_label = some "advance";
  ai_agreed = none;
  weights = λ _. some 1;
}

triggers : trigger_reasons primitives context false ≡ deterministic_sample ∷ golden_error ∷ []
unfolding trigger_reasons reason_set weighted_confidence sample_bucket sum_entries
triggers = refl

trigger_reasons_fire_example :
    (any (is_reason golden_error) (trigger_reasons primitives context false) ≡ true)
    ↔ Fires primitives context false golden_error
trigger_reasons_fire_example = trigger_reasons_fire primitives context false golden_error

sampled : is_sampled primitives context ≡ true
unfolding sample_bucket
sampled = refl
