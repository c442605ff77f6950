-- ===== src/Sync/Runner.antt =====
-- backend/app/services/sync/runner.py: `run_sync`, one pull of changed resumes. The state is what
-- the run writes: the tables of jobs and objects, the ledger, the cursors, the audit log, and the
-- ids handed to the workers. What the adapter, the database and the broker answer is given for
-- each item by `ItemCalls`, and for the run by `RunCalls`.
pub mod Report
use Prim.Native.String
use smart_screen_agent.Prelude.{
  ℕ, suc, ◌+◌, ◌-◌, ◌*◌, String, Bool, true, false, Option, none, some, List, [], ◌∷◌, ◌++◌, map,
  length, take, ltb, if◌then◌else◌,
}
use smart_screen_agent.Ingestion.Jobs.{IngestionJob}
use smart_screen_agent.Ingestion.Intake.{
  UploadCalls, Stores, Request, Intake, accepted, refused, IntakeError, upload_validation, broken,
  ingest_upload,
}
use smart_screen_agent.Sync.Ledger.{
  ItemOutcome, Ledger, Identity, SourceItem, Cursors, Sighting, minus, overlap_start, next_cursor,
  already_ingested, record_item, read_cursor, write_cursor,
}

-- `UNKNOWN_SHA256`
abbrev pub unknown_sha256 : String
unknown_sha256 = "0000000000000000000000000000000000000000000000000000000000000000"

-- The fields of `FetchedResume` that a run looks at.
pub data Fetch : Type 0 where
  fetched : String → Fetch
  item_unavailable crashed : Fetch

pub record ItemCalls : Type 0 where
  pub fetch : Fetch
  pub lookup_answers : Bool
  pub upload : UploadCalls
  pub record_commits : Bool
  pub failure_commits : Bool
  pub broker_accepts : Bool

abbrev pub Offered : Type 0
Offered = SourceItem × ItemCalls

-- `list_changed`: the items, SourceUnavailable, or any other exception.
pub data Listing : Type 0 where
  offered : List Offered → Listing
  source_unavailable listing_crashed : Listing

pub record RunCalls : Type 0 where
  pub list_changed : ℕ → ℕ → Listing
  pub completion_commits : Bool
  pub abort_audit_commits : Bool

pub record SyncReport : Type 0 where
  pub listed : ℕ
  pub ingested : ℕ
  pub skipped : ℕ
  pub failed : ℕ
  pub dropped_at_least : ℕ
  pub truncated : Bool
  pub cursor_from : ℕ
  pub cursor_to : ℕ

-- The rows of the audit log that a run writes.
pub data Audit : Type 0 where
  sync_completed : SyncReport → Audit
  sync_failed_listing : ℕ → Audit
  sync_aborted : (cursor_from listed ingested skipped failed : ℕ) → Audit

pub record World : Type 0 where
  pub stores : Stores
  pub ledger : Ledger
  pub cursors : Cursors
  pub audits : List Audit
  pub sent : List ℕ

-- The local variables of the loop.
pub record Progress : Type 0 where
  pub processed : List SourceItem
  pub ingested : ℕ
  pub skipped : ℕ
  pub failed : ℕ

-- After one item, or after all: the loop goes on, or an exception leaves it.
pub data Loop : Type 0 where
  go : Progress → World → Loop
  abort : Progress → World → Loop

-- The arguments of the run that an item needs.
pub record Run : Type 0 where
  pub is_blank : String → Bool
  pub source : String
  pub now : ℕ

abbrev identity : Run → SourceItem → String → Identity
identity run item sha = record { source = run.source; external_id = item.external_id; sha256 = sha }

abbrev failure : ℕ → String → Sighting
failure now code = record {
  outcome = ItemOutcome.failed;
  now = now;
  job_id = none;
  error_code = some code;
}

-- `failed += 1`, `_record_failure`, `processed.append(item)`.
unfoldable pub note_failure : Run → Offered → String → String → Progress → World → Loop
note_failure run (item, calls) sha code p w =
    let p' = record p { failed = suc p.failed } in
    if calls.failure_commits
    then go (record p' { processed = p.processed ++ item ∷ [] })
        (record w { ledger = record_item (identity run item sha) (failure run.now code) w.ledger })
    else abort p' w

abbrev request : Run → SourceItem → Request
request run item = record {
  source = run.source;
  source_external_id = some item.external_id;
  jd_code = item.jd_code;
  actor = String.◌++◌ "system:sync:" run.source;
  batch_id = none;
  trace_id = none;
}

abbrev success : ℕ → ℕ → Sighting
success now job_id = record {
  outcome = ItemOutcome.ingested;
  now = now;
  job_id = some job_id;
  error_code = none;
}

-- After the ledger row is committed: a created job is handed to the workers.
unfoldable pub deliver : Offered → IngestionJob → Bool → Progress → World → Loop
deliver (item, calls) job created p w =
    let p' = record p { processed = p.processed ++ item ∷ []; ingested = suc p.ingested } in
    if created
    then (if calls.broker_accepts
        then go p' (record w { sent = w.sent ++ job.id ∷ [] })
        else abort p w)
    else go p' w

-- The answer of `ingest_upload`, with the state it left.
unfoldable pub after_intake : Run → Offered → String → Progress → World → Intake × Stores → Loop
unfolding note_failure deliver
after_intake run (item, calls) sha p w (accepted job created, stores) =
    let w' = record w { stores = stores } in
    if calls.record_commits
    then deliver (item, calls) job created p
        (record w' {
          ledger = record_item (identity run item sha) (success run.now job.id) w.ledger;
        })
    else note_failure run (item, calls) sha "ingestion_failed" p w'
after_intake run (item, calls) sha p w (refused upload_validation, stores) =
    note_failure run (item, calls) sha "unsupported_attachment" p (record w { stores = stores })
after_intake run (item, calls) sha p w (refused broken, stores) =
    note_failure run (item, calls) sha "ingestion_failed" p (record w { stores = stores })

abbrev after_lookup : Run → Offered → String → Progress → World → Option Bool → Loop
after_lookup run (item, calls) sha p w none = abort p w
after_lookup run (item, calls) sha p w (some true) =
    go (record p { processed = p.processed ++ item ∷ []; skipped = suc p.skipped }) w
after_lookup run (item, calls) sha p w (some false) =
    after_intake run (item, calls) sha p w
      (ingest_upload calls.upload (request run item) run.now w.stores)

abbrev after_fetch : Run → Offered → Progress → World → Fetch → Loop
after_fetch run (item, calls) p w item_unavailable =
    note_failure run (item, calls) unknown_sha256 "item_unavailable" p w
after_fetch run (item, calls) p w crashed = abort p w
after_fetch run (item, calls) p w (fetched sha) =
    if calls.lookup_answers
    then after_lookup run (item, calls) sha p w
        (already_ingested run.is_blank (identity run item sha) w.ledger)
    else abort p w

-- The body of the loop.
unfoldable pub sync_item : Run → Offered → Progress → World → Loop
unfolding after_intake
sync_item run (item, calls) p w = after_fetch run (item, calls) p w calls.fetch

abbrev unless_aborted : Loop → (Progress → World → Loop) → Loop
unless_aborted (go p w) rest = rest p w
unless_aborted (abort p w) rest = abort p w

unfoldable pub sync_items : Run → List Offered → Progress → World → Loop
sync_items run [] p w = go p w
sync_items run (x ∷ xs) p w =
    unless_aborted (sync_item run x p w) (λ p' w'. sync_items run xs p' w')

pub data SyncError : Type 0 where
  overflow source_down listing_broke run_aborted : SyncError

pub data SyncResult : Type 0 where
  returned : SyncReport → SyncResult
  raised : SyncError → SyncResult

-- `_audit_abort`: a write that fails is logged and swallowed.
abbrev pub audit_abort : RunCalls → Audit → World → World
audit_abort c a w = if c.abort_audit_commits then record w { audits = w.audits ++ a ∷ [] } else w

abbrev pub start : Progress
start = record { processed = []; ingested = 0; skipped = 0; failed = 0 }

abbrev pub report_of : ℕ → ℕ → List Offered → Progress → SyncReport
report_of cursor max_items found p =
    let items = take max_items found in
    let dropped = length found - length items in
    record {
      listed = length items;
      ingested = p.ingested;
      skipped = p.skipped;
      failed = p.failed;
      dropped_at_least = dropped;
      truncated = ltb 0 dropped;
      cursor_from = cursor;
      cursor_to = next_cursor cursor p.processed;
    }

-- The end of the guarded region: the cursor and the audit row in one transaction.
unfoldable pub conclude : RunCalls → Run → ℕ → ℕ → List Offered → Loop → SyncResult × World
conclude c run cursor max_items found (abort p w) = (
  raised run_aborted,
  audit_abort c (sync_aborted cursor (length (take max_items found)) p.ingested p.skipped p.failed)
      w,
)
conclude c run cursor max_items found (go p w) =
    let report = report_of cursor max_items found p in
    if c.completion_commits
    then (
      returned report,
      record w {
        cursors = write_cursor run.source report.cursor_to w.cursors;
        audits = w.audits ++ sync_completed report ∷ [];
      },
    )
    else (
      raised run_aborted,
      audit_abort c
          (sync_aborted cursor (length (take max_items found)) p.ingested p.skipped p.failed) w,
    )

unfoldable pub after_listing : RunCalls → Run → ℕ → ℕ → World → Listing → SyncResult × World
unfolding conclude
after_listing c run cursor max_items w (offered found) =
    conclude c run cursor max_items found (sync_items run (take max_items found) start w)
after_listing c run cursor max_items w source_unavailable =
    (raised source_down, audit_abort c (sync_failed_listing cursor) w)
after_listing c run cursor max_items w listing_crashed = (raised listing_broke, w)

abbrev from_since : RunCalls → Run → ℕ → ℕ → World → Option ℕ → SyncResult × World
from_since c run cursor max_items w none = (raised overflow, w)
from_since c run cursor max_items w (some since) =
    after_listing c run cursor max_items w (c.list_changed since (max_items + 1))

abbrev pub from_default : RunCalls → Run → ℕ → ℕ → World → Option ℕ → SyncResult × World
from_default c run overlap_seconds max_items w none = (raised overflow, w)
from_default c run overlap_seconds max_items w (some default) =
    let cursor = read_cursor run.source default w.cursors in
    from_since c run cursor max_items w (overlap_start cursor overlap_seconds)

-- `FIRST_RUN_LOOKBACK` is one day; the default is computed whether or not it is needed.
unfoldable pub run_sync : RunCalls → Run → ℕ → ℕ → World → SyncResult × World
unfolding after_listing
run_sync c run overlap_seconds max_items w =
    from_default c run overlap_seconds max_items w (minus run.now (86400 * 1000000))
