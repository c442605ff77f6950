-- ===== src/Sync/Replay/Tests.antt =====
-- Concrete sweeps over failed rows.
use smart_screen_agent.Prelude.{◌≡◌, refl, true, false, none, some, List, [], ◌∷◌, length}
use smart_screen_agent.Ingestion.Jobs.{create_or_reuse, find_active_by_sha256, insert_queued}
use smart_screen_agent.Ingestion.Intake.{ingest_upload}
use smart_screen_agent.Sync.Ledger.{
  ItemOutcome, SyncSourceItem, SourceItem, record_item, already_ingested, was_ingested,
  has_identity,
}
use smart_screen_agent.Sync.Runner.{Run, unknown_sha256}
use smart_screen_agent.Sync.Replay.{
  Fetch, described, RowCalls, ReplayCalls, Tally, ReplayWorld, next, identity, pending, replay_row,
  replay_rows, after_intake, deliver, discard, replay_failed, start, recorded_ingestion,
}
use smart_screen_agent.Sync.Replay.Report.{Promised, counts_of, replay_failed-Promised}
use smart_screen_agent.Sync.Replay.Attempts.{replay_row_forgets}

abbrev item : SourceItem
item = record {
  external_id = "inst-1";
  updated_at = 90000000000;
  filename = "cv.pdf";
  content_type = "application/pdf";
  jd_code = none;
}

-- Before its content was ever fetched, and after an ingestion that failed.
abbrev unfetched : SyncSourceItem
unfetched = record {
  id = 1;
  source = "dingtalk";
  source_external_id = "inst-1";
  content_sha256 = unknown_sha256;
  ingestion_job_id = none;
  outcome = ItemOutcome.failed;
  error_code = some "item_unavailable";
  attempts = 1;
  first_seen_at = 10;
  last_seen_at = 10;
}

abbrev broken : SyncSourceItem
broken = record {
  id = 2;
  source = "dingtalk";
  source_external_id = "inst-1";
  content_sha256 = "5e88";
  ingestion_job_id = none;
  outcome = ItemOutcome.failed;
  error_code = some "ingestion_failed";
  attempts = 1;
  first_seen_at = 20;
  last_seen_at = 20;
}

abbrev answers : RowCalls
answers = record {
  describe = described item;
  fetch = Fetch.fetched "5e88";
  lookup_answers = true;
  upload = record {
    validate = none;
    scan = none;
    encrypt = some "gAAAAB";
    store = some (record {
      object_key = "resumes/2026/07/b2";
      sha256 = "5e88";
      size_bytes = 1024;
      content_type = "application/pdf";
    });
    others = record { before_insert = λ t. t; before_reread = λ t. t };
    delete_redundant = true;
    commit = true;
    delete_compensating = true;
  };
  record_commits = true;
  attempt_commits = true;
  discard_commits = true;
  broker_accepts = true;
}

abbrev calls : ReplayCalls
calls = record {
  select_answers = true;
  row = λ _. answers;
  completion_commits = true;
  abort_audit_commits = true;
}

abbrev run : Run
run = record { is_blank = λ _. false; source = "dingtalk"; now = 90000000000 }

abbrev world : List SyncSourceItem → ReplayWorld
world rows = record {
  stores = record { jobs = record { rows = []; next_id = 1 }; objects = [] };
  ledger = record { rows = rows; next_id = 3 };
  audits = [];
  sent = [];
}

-- Both rows of the candidate are selected; the first is replayed, and the second is then dropped
-- with the record of the ingestion.
sweep_ran : (replay_failed calls run 5 (world (unfetched ∷ broken ∷ []))).1.ledger.rows ≡ []
unfolding replay_failed pending replay_rows replay_row after_intake recorded_ingestion deliver
    discard already_ingested has_identity record_item ingest_upload create_or_reuse
    find_active_by_sha256 insert_queued
sweep_ran = refl

replay_failed-Promised_example :
    Promised calls
      (length (pending "dingtalk" 5 (world (unfetched ∷ broken ∷ [])).ledger))
      (counts_of (
        replay_rows run calls.row
          (pending "dingtalk" 5 (world (unfetched ∷ broken ∷ [])).ledger)
          start
          (world (unfetched ∷ broken ∷ []))))
      (world (unfetched ∷ broken ∷ []))
      (replay_failed calls run 5 (world (unfetched ∷ broken ∷ [])))
replay_failed-Promised_example =
    replay_failed-Promised calls run 5 (world (unfetched ∷ broken ∷ []))

-- Once the first row is replayed.
abbrev later : ReplayWorld
later = world (record broken { outcome = ItemOutcome.ingested; ingestion_job_id = some 1 } ∷ [])

was_replayed : already_ingested run.is_blank (identity run broken "5e88") later.ledger ≡ some true
unfolding already_ingested has_identity
was_replayed = refl

replay_row_forgets_example :
    (n' : Tally) × (w' : ReplayWorld) × (replay_row run broken answers 1 start later ≡ next n' w')
    × (was_ingested (identity run broken "5e88") w'.ledger ≡ false)
replay_row_forgets_example =
    replay_row_forgets run broken answers 1 start later item refl refl refl refl was_replayed
      ((λ _. refl), tt)
