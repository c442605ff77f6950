-- ===== src/Sync/Tests.antt =====
-- Concrete runs: the theorems about synchronisation at inputs that meet their hypotheses.
use smart_screen_agent.Prelude.{
  ℕ, ◌≤◌, ◌≡◌, ◌≢◌, refl, String, true, false, none, some, [], ◌∷◌, All, arith,
}
use smart_screen_agent.Ingestion.Jobs.{Interference}
use smart_screen_agent.Ingestion.Intake.{StoredResume}
use smart_screen_agent.Sync.Ledger.{
  SyncSourceItem, ItemOutcome, Ledger, Identity, SourceItem, Sighting, next_cursor, record_item,
}
use smart_screen_agent.Sync.Ledger.Laws.{
  next_cursor_least, find_row, Recorded, find_row-record_item, OneRow, record_item-OneRow,
}
use smart_screen_agent.Sync.Runner.{fetched, ItemCalls, offered, RunCalls, World, Run, run_sync}
use smart_screen_agent.Sync.JdMetadata.{
  Jd, JobMeta, JdCalls, conclude, sync_jobs, sync_job, JdWorld, listed, sync_jd_metadata,
  jd_sync_completed,
}
use smart_screen_agent.Sync.JdMetadata.Governed.{Reported, sync_jd_metadata-Reported}
use smart_screen_agent.Sync.Runner.Report.{Promised, run_sync-Promised}

abbrev item : SourceItem
item = record {
  external_id = "inst-1";
  updated_at = 90000000000;
  filename = "cv.pdf";
  content_type = "application/pdf";
  jd_code = none;
}

next_cursor_least_example :
    (5 ≤ next_cursor 5 (item ∷ []))
    × All (λ i. i.updated_at ≤ next_cursor 5 (item ∷ [])) (item ∷ [])
    × ((n : ℕ) → 5 ≤ n → All (λ i. i.updated_at ≤ n) (item ∷ []) → next_cursor 5 (item ∷ []) ≤ n)
next_cursor_least_example = next_cursor_least 5 (item ∷ [])

abbrev key : Identity
key = record { source = "dingtalk"; external_id = "inst-1"; sha256 = "5e88" }

abbrev seen : Sighting
seen = record {
  outcome = ItemOutcome.ingested;
  now = 90000000000;
  job_id = some 4;
  error_code = none;
}

abbrev empty : Ledger
empty = record { rows = []; next_id = 1 }

find_row-record_item_example :
    ((row : SyncSourceItem) × (find_row key (record_item key seen empty) ≡ some row)
      × Recorded key seen 1 (find_row key empty) row)
    × ((k' : Identity) → key ≢ k' → find_row k' (record_item key seen empty) ≡ find_row k' empty)
find_row-record_item_example = find_row-record_item key seen empty

empty-OneRow : OneRow empty
empty-OneRow k = omega arith

record_item-OneRow_example : OneRow (record_item key seen empty)
record_item-OneRow_example = record_item-OneRow key seen empty empty-OneRow

abbrev quiet : Interference
quiet = record { before_insert = λ t. t; before_reread = λ t. t }

abbrev stored : StoredResume
stored = record {
  object_key = "resumes/2026/07/b2";
  sha256 = "5e88";
  size_bytes = 1024;
  content_type = "application/pdf";
}

abbrev answers : ItemCalls
answers = record {
  fetch = fetched "5e88";
  lookup_answers = true;
  upload = record {
    validate = none;
    scan = none;
    encrypt = some "gAAAAB";
    store = some stored;
    others = quiet;
    delete_redundant = true;
    commit = true;
    delete_compensating = true;
  };
  record_commits = true;
  failure_commits = true;
  broker_accepts = true;
}

abbrev calls : RunCalls
calls = record {
  list_changed = λ _ _. offered ((item, answers) ∷ []);
  completion_commits = true;
  abort_audit_commits = true;
}

abbrev run : Run
run = record { is_blank = λ _. false; source = "dingtalk"; now = 90000000000 }

abbrev world : World
world = record {
  stores = record { jobs = record { rows = []; next_id = 1 }; objects = [] };
  ledger = empty;
  cursors = λ _. none;
  audits = [];
  sent = [];
}

run_sync-Promised_example : Promised calls run 100 world (run_sync calls run 300 100 world)
run_sync-Promised_example = run_sync-Promised calls run 300 100 world

abbrev sales : Jd
sales = record {
  id = 1;
  code = "sales-01";
  name = "Sales";
  description = none;
  status = "archived";
  active_rule_version_id = some 9;
}

abbrev from_source : String → String → JobMeta
from_source code name = record { code = code; name = name; description = "as listed" }

-- A known job under a new name, and a new job twice.
abbrev jd_calls : JdCalls
jd_calls = record {
  list_jobs = listed (
      from_source "sales-01" "Sales East"
      ∷ from_source "dev-01" "Dev"
      ∷ from_source "dev-01" "Dev"
      ∷ []);
  answers = λ _. true;
  before_insert = λ _ t. t;
  batch_commits = true;
  audit_commits = true;
  abort_audit_commits = true;
}

abbrev jd_world : JdWorld
jd_world = record { jds = record { rows = sales ∷ []; next_id = 2 }; audits = [] }

jd_sync_ran : (sync_jd_metadata jd_calls jd_world).1.audits ≡ jd_sync_completed 3 2 ∷ []
unfolding sync_jd_metadata conclude sync_jobs sync_job
jd_sync_ran = refl

sync_jd_metadata-Reported_example : Reported jd_calls jd_world (sync_jd_metadata jd_calls jd_world)
sync_jd_metadata-Reported_example =
    sync_jd_metadata-Reported jd_calls jd_world
      (λ _ t code r e. (r, e, record { same_id = refl; same_status = refl; same_rule = refl }))
