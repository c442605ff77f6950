-- ===== src/Ingestion/Worker.antt =====
-- backend/app/tasks/ingest.py: the worker's side of a job. `run_job` drives a claimed job to its
-- end, `fail_job` records a failure, and `parse_and_score_task` is the Celery task around both. An
-- action changes the committed table and returns a value or raises; what was committed before a
-- raise stays, what was only flushed is rolled back. Every transition here is committed at once.
-- The calls of MinerU, of the models, of the object store and of the scoring pipeline are a record
-- of their outcomes in this attempt.
pub mod Outcome
use smart_screen_agent.Prelude.{
  ℕ, String, Bool, true, false, Option, none, some, Result, ok, raised, find_first, ◌==◌,
  if◌then◌else◌,
}
use smart_screen_agent.Ingestion.States.{
  IngestionState, parsing, extracting, ready, scoring, completed, retryable_failed, terminal_failed,
  is, InvalidTransition,
}
use smart_screen_agent.Ingestion.Jobs.{IngestionJob, Jobs, claim, transition}

-- The exceptions that the worker tells apart by the names of their classes; `other` is any other.
pub data ErrorClass : Type 0 where
  mineru_unavailable llm_unavailable usage_ledger_unavailable : ErrorClass
  mineru_contract mineru_task llm_configuration llm_invalid_response : ErrorClass
  llm_invalid_output model_price_missing other : ErrorClass

-- `RETRYABLE_ERRORS`
unfoldable pub retryable_errors : ErrorClass → Option String
retryable_errors mineru_unavailable = some "resume_parser_unavailable"
retryable_errors llm_unavailable = some "ai_service_unavailable"
retryable_errors usage_ledger_unavailable = some "usage_ledger_unavailable"
retryable_errors _ = none

-- `TERMINAL_ERRORS`
unfoldable pub terminal_errors : ErrorClass → Option String
terminal_errors mineru_contract = some "resume_parser_contract_invalid"
terminal_errors mineru_task = some "resume_parser_failed"
terminal_errors llm_configuration = some "ai_service_configuration_invalid"
terminal_errors llm_invalid_response = some "ai_invalid_output"
terminal_errors llm_invalid_output = some "ai_invalid_output"
terminal_errors model_price_missing = some "model_price_missing"
terminal_errors _ = none

abbrev pub Action : Type 0 → Type 0
Action A = Jobs → Result ErrorClass A × Jobs

abbrev pub continue :
    {A B : Type 0} → (A → Action B) → Result ErrorClass A × Jobs → Result ErrorClass B × Jobs
continue f (ok a, t) = f a t
continue f (raised e, t) = (raised e, t)

infixl 5 ◌>>=◌
abbrev pub ◌>>=◌ : {A B : Type 0} → Action A → (A → Action B) → Action B
◌>>=◌ m f t = continue f (m t)

abbrev pub pure : {A : Type 0} → A → Action A
pure a t = (ok a, t)

-- A call whose outcome is given.
abbrev pub external : {A : Type 0} → Result ErrorClass A → Action A
external r t = (r, t)

abbrev pub committed : Result InvalidTransition (IngestionJob × Jobs) → Action IngestionJob
committed (ok (j, t')) t = (ok j, t')
committed (raised _) t = (raised other, t)

-- `svc.transition` and the commit after it; an InvalidTransitionError is one of the other classes.
unfoldable pub advance : IngestionState → ℕ → IngestionJob → Action IngestionJob
advance target at job t = committed (transition target none at job t) t

-- What the calls of one attempt return or raise. `candidate_exists` is `db.get(Candidate, id)`.
pub record Attempt : Type 0 where
  pub jd_has_active_rule : Bool
  pub download_verified : Result ErrorClass (Unit {0})
  pub parse : Result ErrorClass String
  pub extract : String → Result ErrorClass String
  pub insert_or_reuse_candidate : String → String → Result ErrorClass ℕ
  pub candidate_exists : ℕ → Bool
  pub score : ℕ → Result ErrorClass ℕ

-- The job after parsing and extraction, with its candidate.
unfoldable pub obtain_candidate : Attempt → ℕ → Option ℕ → IngestionJob → Action (IngestionJob × ℕ)
unfolding advance
obtain_candidate x at none job = do
  _ ← external x.download_verified
  markdown ← external x.parse
  job' ← advance extracting at job
  extracted ← external (x.extract markdown)
  candidate ← external (x.insert_or_reuse_candidate markdown extracted)
  pure (record job' { candidate_id = some candidate }, candidate)
obtain_candidate x at (some candidate) job = do
  _ ← external (if x.candidate_exists candidate then ok tt else raised other)
  job' ← (if is parsing job.state then advance extracting at job else pure job)
  pure (job', candidate)

-- The scoring, or the plain end without an active rule version.
unfoldable pub finish : Attempt → ℕ → Bool → IngestionJob → ℕ → Action (Unit {0})
unfolding advance
finish x at true job candidate = do
  job' ← advance scoring at job
  score_id ← external (x.score candidate)
  _ ← advance completed at (record job' { score_id = some score_id })
  pure tt
finish x at false job candidate = do _ ← advance ready at job; pure tt

unfoldable pub run_job : Attempt → ℕ → IngestionJob → Action (Unit {0})
unfolding obtain_candidate finish
run_job x at job = do
  r ← obtain_candidate x at job.candidate_id job
  finish x at x.jd_has_active_rule r.0 r.1

abbrev pub has_id : ℕ → IngestionJob → Bool
has_id i j = j.id == i

abbrev pub failure : Option String → Option String → IngestionState × String
failure (some code) r = (terminal_failed, code)
failure none (some code) = (retryable_failed, code)
failure none none = (retryable_failed, "ingestion_worker_error")

abbrev pub unless_refused : Result InvalidTransition (IngestionJob × Jobs) → Jobs → Jobs
unless_refused (ok (j, t')) t = t'
unless_refused (raised _) t = t

abbrev pub fail_found : ℕ → IngestionState × String → Option IngestionJob → Jobs → Jobs
fail_found at (target, code) none t = t
fail_found at (target, code) (some j) t = unless_refused (transition target (some code) at j t) t

-- `_fail_job`: it reads the row again, and leaves it alone where the state machine refuses.
unfoldable pub fail_job : ℕ → ℕ → ErrorClass → Jobs → Jobs
fail_job at job_id e t =
    fail_found at (failure (terminal_errors e) (retryable_errors e))
      (find_first (has_id job_id) t.rows) t

abbrev pub settle : ℕ → ℕ → Result ErrorClass (Unit {0}) × Jobs → Jobs
settle at job_id (ok _, t) = t
settle at job_id (raised e, t) = fail_job at job_id e t

abbrev pub work :
    Attempt → ℕ → ℕ → Jobs → Result InvalidTransition (Option IngestionJob × Jobs) → Jobs
work x at job_id t (raised _) = t
work x at job_id t (ok (none, t')) = t'
work x at job_id t (ok (some job, t')) = settle at job_id (run_job x at job t')

-- The table that the task leaves; it re-raises what `run_job` raised.
unfoldable pub parse_and_score_task : Attempt → ℕ → ℕ → ℕ → (ℕ → Bool) → ℕ → Jobs → Jobs
parse_and_score_task x clock lease_seconds at locked job_id t =
    work x at job_id t (claim clock lease_seconds at locked job_id t)
