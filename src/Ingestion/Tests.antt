-- ===== src/Ingestion/Tests.antt =====
-- Concrete jobs: the theorems about ingestion at inputs that meet their hypotheses.
use smart_screen_agent.Prelude.{
  ℕ, ◌≤◌, ◌≡◌, refl, subst, some_inj, false, true, Bool, none, some, Option, List, [], ◌∷◌, arith,
  ok, Rowwise, All,
}
use smart_screen_agent.Ingestion.States.{parsing, retryable_failed}
use smart_screen_agent.Ingestion.Jobs.{
  RawFileReference, IngestionJob, Jobs, Submission, Interference, new_job, claim, claimed,
  claim_found, create_or_reuse, find_active_by_sha256, insert_queued, save,
}
use smart_screen_agent.Ingestion.Sweeper.{
  SweepReport, sweep, swept_rows, sweep_report, ids, reclaim, retry,
}
use smart_screen_agent.Ingestion.Invariant.{AllSound}
use smart_screen_agent.Ingestion.History.{
  Transaction, submit, start, move, recover, to_extracting, commit, Undisturbed, history,
  history-AllSound,
}
use smart_screen_agent.Ingestion.Claim.{claim-AllSound}
use smart_screen_agent.Ingestion.Redelivery.{claim-history-claim}
use smart_screen_agent.Ingestion.Recovery.{
  Swept, sweep-Swept, IsSettled, Decided, sweep-IsSettled, tally, sweep_requeues_once,
}
use smart_screen_agent.Ingestion.Dedupe.{
  create_or_reuse-OneActive, OneActive, create_or_reuse-create_or_reuse, Serves,
  create_or_reuse-Serves,
}
use smart_screen_agent.Ingestion.Intake.{
  UploadCalls, Request, Stores, StoredResume, ingest_upload, Accounted, remove,
  ingest_upload-Accounted,
}
use smart_screen_agent.Ingestion.Worker.{Attempt, parse_and_score_task}
use smart_screen_agent.Ingestion.Worker.Outcome.{RowIn, IsLeft, parse_and_score_task-IsLeft}

abbrev file : RawFileReference
file = record {
  object_key = "resumes/2026/07/a1";
  sha256 = "5e88";
  size_bytes = 1024;
  content_type = "application/pdf";
  original_name_cipher = "gAAAAB";
}

abbrev upload : Submission
upload = record {
  raw_file = file;
  source = "manual";
  source_external_id = none;
  jd_code = some "sales-01";
  actor = "hr";
  batch_id = none;
  trace_id = none;
}

abbrev fresh : IngestionJob
fresh = new_job upload 1 1000

-- A job whose worker died at its third attempt, and one that failed at its first.
abbrev dead : IngestionJob
dead = record fresh { id = 2; state = parsing; attempts = 3; lease_expires_at = some 5000000 }

abbrev failing : IngestionJob
failing = record fresh { id = 3; state = retryable_failed; attempts = 1 }

abbrev table : Jobs
table = record { rows = fresh ∷ dead ∷ failing ∷ []; next_id = 4 }

abbrev quiet : Interference
quiet = record { before_insert = λ t. t; before_reread = λ t. t }

table-AllSound : AllSound 3 table.rows
table-AllSound = ground arith

sweep_ran :
    sweep 900000000 900000000 3 300 (λ _ _. false) table.rows
    ≡ some (
      sweep_report 900000000 900000000 3 600000000 (λ _ _. false) table.rows,
      swept_rows 900000000 900000000 3 (λ _ _. false) table.rows,
    )
unfolding sweep
sweep_ran = refl

-- The dead job ends, the failed one is queued again, and the stranded one is sent again.
sweep_requeues :
    (sweep_report 900000000 900000000 3 600000000 (λ _ _. false) table.rows).requeued ≡ 3 ∷ 1 ∷ []
unfolding sweep_report reclaim retry
sweep_requeues = refl

sweep-Swept_example :
    Rowwise Swept table.rows (swept_rows 900000000 900000000 3 (λ _ _. false) table.rows)
sweep-Swept_example = sweep-Swept 900000000 900000000 3 300 (λ _ _. false) table.rows sweep_ran

sweep-IsSettled_example :
    (r : SweepReport) × (rows' : List IngestionJob) × (sweep 900000000 900000000 3 300
        (λ _ _. false)
        table.rows
      ≡ some (r, rows'))
    × All (IsSettled 900000000) rows'
    × Rowwise (Decided 900000000 3) table.rows rows'
sweep-IsSettled_example = sweep-IsSettled 900000000 900000000 3 300 table.rows (omega arith)

sweep_requeues_once_example :
    (r : SweepReport) × (rows' : List IngestionJob) × (sweep 900000000 900000000 3 300
        (λ _ _. false)
        table.rows
      ≡ some (r, rows'))
    × ((k : ℕ) → tally k r.requeued ≤ tally k (ids table.rows))
sweep_requeues_once_example =
    sweep_requeues_once 900000000 900000000 3 300 (λ _ _. false) table.rows (omega arith)
      (omega arith)

claim_ran :
    claim 2000 300 2000 (λ _. false) 1 table
    ≡ ok (some (claimed 2000 300 2000 fresh), save (claimed 2000 300 2000 fresh) table)
unfolding claim claim_found
claim_ran = refl

claim-AllSound_example :
    (r : Option IngestionJob) × (t' : Jobs) × (claim 2000 300 2000 (λ _. false) 1 table
      ≡ ok (r, t'))
    × AllSound 3 t'.rows
claim-AllSound_example = claim-AllSound 2000 300 2000 3 (λ _. false) 1 table table-AllSound

-- A worker moves the job that it has claimed, and the same file is submitted again.
abbrev between : List Transaction
between = move (claimed 2000 300 2000 fresh) to_extracting none 5000 ∷ submit upload 6000 ∷ []

claim-history-claim_example :
    claim 9000 300 9000
      (λ _. false)
      1
      (history 3 between (save (claimed 2000 300 2000 fresh) table))
    ≡ ok (none, history 3 between (save (claimed 2000 300 2000 fresh) table))
claim-history-claim_example =
    claim-history-claim 3 2000 300 2000 9000 300 9000 (λ _. false) (λ _. false) 1 between table
      claim_ran (omega arith) (tt, (tt, tt))

abbrev empty : Jobs
empty = record { rows = []; next_id = 1 }

empty-OneActive : OneActive empty
empty-OneActive sha = omega arith

create_or_reuse-OneActive_example : OneActive (create_or_reuse quiet upload 3000 empty).1
create_or_reuse-OneActive_example =
    create_or_reuse-OneActive quiet (λ _ h. h) (λ _ h. h) upload 3000 empty empty-OneActive

create_or_reuse-create_or_reuse_example :
    (j : IngestionJob) × (created : Bool) × (t' : Jobs) × (create_or_reuse quiet upload 3000 empty
      ≡ (some (j, created), t'))
    × (create_or_reuse quiet upload 4000 t' ≡ (some (j, false), t'))
create_or_reuse-create_or_reuse_example =
    create_or_reuse-create_or_reuse quiet quiet upload upload 3000 4000 empty refl (λ _ h. h)

abbrev stored : StoredResume
stored = record {
  object_key = "resumes/2026/07/b2";
  sha256 = "5e88";
  size_bytes = 1024;
  content_type = "application/pdf";
}

-- The file is stored, and the commit of its job fails.
abbrev calls : UploadCalls
calls = record {
  validate = none;
  scan = none;
  encrypt = some "gAAAAB";
  store = some stored;
  others = quiet;
  delete_redundant = true;
  commit = false;
  delete_compensating = true;
}

abbrev manual : Request
manual = record {
  source = "manual";
  source_external_id = none;
  jd_code = none;
  actor = "hr";
  batch_id = none;
  trace_id = none;
}

abbrev stores : Stores
stores = record { jobs = empty; objects = "resumes/2026/07/a1" ∷ [] }

ingest_upload-Accounted_example :
    Accounted (some "resumes/2026/07/b2") stores.objects (ingest_upload calls manual 3000 stores)
ingest_upload-Accounted_example =
    ingest_upload-Accounted calls manual 3000 stores refl
      (λ s e. subst (λ z. remove z.object_key stores.objects ≡ stores.objects) (some_inj e) refl)

abbrev attempt : Attempt
attempt = record {
  jd_has_active_rule = true;
  download_verified = ok tt;
  parse = ok "# resume";
  extract = λ _. ok "{}";
  insert_or_reuse_candidate = λ _ _. ok 7;
  candidate_exists = λ _. true;
  score = λ _. ok 11;
}

parse_and_score_task-IsLeft_example :
    RowIn 1 IsLeft (parse_and_score_task attempt 2000 300 2000 (λ _. false) 1 table)
parse_and_score_task-IsLeft_example =
    parse_and_score_task-IsLeft attempt 2000 300 2000 (λ _. false) 1 table claim_ran

create_or_reuse-Serves_example : Serves "5e88" (create_or_reuse quiet upload 3000 empty)
create_or_reuse-Serves_example = create_or_reuse-Serves quiet upload 3000 empty (λ _ h. h)

-- A file is submitted, its worker dies, a sweep recovers the job, and it is claimed again.
abbrev recovering : List Transaction
recovering =
    submit upload 3000
    ∷ start 4000 300 4000 (λ _. false) 1
    ∷ move (claimed 4000 300 4000 (new_job upload 1 3000)) to_extracting none 5000
    ∷ recover 900000000 900000000 300 (λ _ _. false)
    ∷ start 900000001 300 900000001 (λ _. false) 1
    ∷ []

calm : Undisturbed 3 recovering empty
unfolding Undisturbed commit create_or_reuse find_active_by_sha256 insert_queued claim claim_found
calm = (tt, (tt, (((λ _. refl), tt), (tt, (tt, tt)))))

history-AllSound_example : AllSound 3 (history 3 recovering empty).rows
history-AllSound_example = history-AllSound 3 recovering empty (omega arith) calm tt
