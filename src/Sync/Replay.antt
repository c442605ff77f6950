-- ===== src/Sync/Replay.antt =====
-- backend/app/services/sync/replay.py: `replay_failed`, which drives the failed rows of the ledger
-- again by their external ids, up to a bound of attempts. What the adapter, the database and the
-- broker answer for a row is given by `RowCalls`, and for the sweep by `ReplayCalls`; other
-- transactions do not write the ledger meanwhile.
pub mod Report
pub mod Attempts
mod Tests
use Prim.Native.String
use smart_screen_agent.Prelude.{
  ℕ, suc, ◌-◌, String, Bool, true, false, not, ◌&&◌, Option, none, some, List, [], ◌∷◌, ◌++◌,
  length, select, ltb, leb, ◌==◌, same_text, if◌then◌else◌,
}
use smart_screen_agent.Ingestion.Jobs.{IngestionJob}
use smart_screen_agent.Ingestion.Intake.{
  UploadCalls, Stores, Request, Intake, accepted, refused, upload_validation, broken, ingest_upload,
}
use smart_screen_agent.Sync.Ledger.{
  ItemOutcome, SyncSourceItem, Ledger, Identity, SourceItem, Sighting, already_ingested,
  record_item,
}
use smart_screen_agent.Sync.Runner.{Run}

-- `describe`: the item, or one of its exceptions; `crashed` is any other.
pub data Describe : Type 0 where
  described : SourceItem → Describe
  no_lookup not_here provider_down crashed : Describe

-- `fetch`, of which the replay looks at the hash of the content.
pub data Fetch : Type 0 where
  fetched : String → Fetch
  not_here provider_down crashed : Fetch

pub record RowCalls : Type 0 where
  pub describe : Describe
  pub fetch : Fetch
  pub lookup_answers : Bool
  pub upload : UploadCalls
  pub record_commits : Bool
  pub attempt_commits : Bool
  pub discard_commits : Bool
  pub broker_accepts : Bool

pub record ReplayCalls : Type 0 where
  pub select_answers : Bool
  pub row : SyncSourceItem → RowCalls
  pub completion_commits : Bool
  pub abort_audit_commits : Bool

-- The counters of a sweep, beside `selected`.
pub record Tally : Type 0 where
  pub replayed : ℕ
  pub failed : ℕ
  pub superseded : ℕ
  pub undescribable : ℕ

pub record ReplayReport : Type 0 where
  pub selected : ℕ
  pub tally : Tally

pub data AbortCode : Type 0 where
  source_unavailable replay_aborted : AbortCode

pub data ReplayAudit : Type 0 where
  resume_sync_replayed : ReplayReport → ReplayAudit
  resume_sync_replay_failed : ReplayReport → AbortCode → ReplayAudit

pub record ReplayWorld : Type 0 where
  pub stores : Stores
  pub ledger : Ledger
  pub audits : List ReplayAudit
  pub sent : List ℕ

-- After one row: the loop goes on, breaks, or is left by an exception.
pub data Step : Type 0 where
  next : Tally → ReplayWorld → Step
  stop : Tally → ReplayWorld → Step
  abort : AbortCode → Tally → ReplayWorld → Step

abbrev pub is_failed : ItemOutcome → Bool
is_failed ItemOutcome.failed = true
is_failed _ = false

-- The WHERE clause of the selection.
abbrev pub is_pending : String → ℕ → SyncSourceItem → Bool
is_pending source max_attempts row =
    same_text row.source source && (is_failed row.outcome && ltb row.attempts max_attempts)

-- ORDER BY first_seen_at, id, of rows that are in the order of their ids.
abbrev pub insert_seen : SyncSourceItem → List SyncSourceItem → List SyncSourceItem
insert_seen row [] = row ∷ []
insert_seen row (r ∷ rows) =
    let rest = insert_seen row rows in
    if leb row.first_seen_at r.first_seen_at then row ∷ r ∷ rows else r ∷ rest

abbrev pub by_first_seen : List SyncSourceItem → List SyncSourceItem
by_first_seen [] = []
by_first_seen (row ∷ rows) = insert_seen row (by_first_seen rows)

unfoldable pub pending : String → ℕ → Ledger → List SyncSourceItem
pending source max_attempts t = by_first_seen (select (is_pending source max_attempts) t.rows)

-- DELETE of the row of an id.
abbrev pub delete_row : ℕ → Ledger → Ledger
delete_row i t = record t { rows = select (λ r. not (r.id == i)) t.rows }

abbrev pub identity : Run → SyncSourceItem → String → Identity
identity run row sha = record {
  source = run.source;
  external_id = row.source_external_id;
  sha256 = sha;
}

abbrev pub failure : ℕ → String → Sighting
failure now code = record {
  outcome = ItemOutcome.failed;
  now = now;
  job_id = none;
  error_code = some code;
}

-- `failed += 1`, `_spend_attempt`, `continue`: the attempt is spent on the stored hash.
unfoldable pub spend_attempt : Run → SyncSourceItem → RowCalls → String → Tally → ReplayWorld → Step
spend_attempt run row calls code n w =
    let n' = record n { failed = suc n.failed } in
    if calls.attempt_commits
    then next n' (record w {
      ledger = record_item (identity run row row.content_sha256) (failure run.now code) w.ledger;
    })
    else abort replay_aborted n' w

-- `superseded += 1`, `_discard`, `continue`.
unfoldable pub discard : SyncSourceItem → RowCalls → Tally → ReplayWorld → Step
discard row calls n w =
    let n' = record n { superseded = suc n.superseded } in
    if calls.discard_commits
    then next n' (record w { ledger = delete_row row.id w.ledger })
    else abort replay_aborted n' w

abbrev pub request : Run → SyncSourceItem → SourceItem → Request
request run row item = record {
  source = run.source;
  source_external_id = some row.source_external_id;
  jd_code = item.jd_code;
  actor = String.◌++◌ "system:sync_replay:" run.source;
  batch_id = none;
  trace_id = none;
}

-- The ledger once the ingestion is recorded: a row of another hash is dropped.
unfoldable pub recorded_ingestion : Run → SyncSourceItem → String → ℕ → Ledger → Ledger
recorded_ingestion run row sha job_id t =
    let t' =
      record_item (identity run row sha)
        (record {
          outcome = ItemOutcome.ingested;
          now = run.now;
          job_id = some job_id;
          error_code = none;
        })
        t in
    if same_text sha row.content_sha256 then t' else delete_row row.id t'

-- After the commit: a created job is handed to the workers.
unfoldable pub deliver : RowCalls → IngestionJob → Bool → Tally → ReplayWorld → Step
deliver calls job created n w =
    let n' = record n { replayed = suc n.replayed } in
    if created
    then (if calls.broker_accepts
        then next n' (record w { sent = w.sent ++ job.id ∷ [] })
        else abort replay_aborted n w)
    else next n' w

-- The answer of `ingest_upload`, with the state it left.
unfoldable pub after_intake :
    Run → SyncSourceItem → RowCalls → String → Tally → ReplayWorld → Intake × Stores → Step
after_intake run row calls sha n w (accepted job created, stores) =
    let w' = record w { stores = stores } in
    if calls.record_commits
    then deliver calls job created n
        (record w' { ledger = recorded_ingestion run row sha job.id w.ledger })
    else spend_attempt run row calls "ingestion_failed" n w'
after_intake run row calls sha n w (refused upload_validation, stores) =
    spend_attempt run row calls "unsupported_attachment" n (record w { stores = stores })
after_intake run row calls sha n w (refused broken, stores) =
    spend_attempt run row calls "ingestion_failed" n (record w { stores = stores })

abbrev pub after_lookup :
    Run → SyncSourceItem → RowCalls → SourceItem → String → Tally → ReplayWorld → Option Bool → Step
after_lookup run row calls item sha n w none = abort replay_aborted n w
after_lookup run row calls item sha n w (some true) = discard row calls n w
after_lookup run row calls item sha n w (some false) =
    after_intake run row calls sha n w
      (ingest_upload calls.upload (request run row item) run.now w.stores)

abbrev pub after_fetch :
    Run → SyncSourceItem → RowCalls → SourceItem → Tally → ReplayWorld → Fetch → Step
after_fetch run row calls item n w not_here = spend_attempt run row calls "item_unavailable" n w
after_fetch run row calls item n w provider_down = abort source_unavailable n w
after_fetch run row calls item n w crashed = abort replay_aborted n w
after_fetch run row calls item n w (fetched sha) =
    if calls.lookup_answers
    then after_lookup run row calls item sha n w
        (already_ingested run.is_blank (identity run row sha) w.ledger)
    else abort replay_aborted n w

-- The body of the loop, with the number of rows from this one on, `selected - index`.
abbrev pub after_describe :
    Run → SyncSourceItem → RowCalls → ℕ → Tally → ReplayWorld → Describe → Step
after_describe run row calls left n w no_lookup = stop (record n { undescribable = left }) w
after_describe run row calls left n w not_here = spend_attempt run row calls "item_unavailable" n w
after_describe run row calls left n w provider_down = abort source_unavailable n w
after_describe run row calls left n w crashed = abort replay_aborted n w
after_describe run row calls left n w (described item) =
    after_fetch run row calls item n w calls.fetch

unfoldable pub replay_row : Run → SyncSourceItem → RowCalls → ℕ → Tally → ReplayWorld → Step
replay_row run row calls left n w = after_describe run row calls left n w calls.describe

abbrev pub unless_over : Step → (Tally → ReplayWorld → Step) → Step
unless_over (next n w) rest = rest n w
unless_over (stop n w) rest = stop n w
unless_over (abort code n w) rest = abort code n w

unfoldable pub replay_rows :
    Run → (SyncSourceItem → RowCalls) → List SyncSourceItem → Tally → ReplayWorld → Step
replay_rows run calls [] n w = next n w
replay_rows run calls (row ∷ rows) n w =
    unless_over (replay_row run row (calls row) (length (row ∷ rows)) n w)
      (λ n' w'. replay_rows run calls rows n' w')

pub data ReplayResult : Type 0 where
  returned : ReplayReport → ReplayResult
  raised : AbortCode → ReplayResult
  select_failed : ReplayResult

-- `_audit_abort`: a write that fails is logged and swallowed.
abbrev pub audit_abort : ReplayCalls → AbortCode → ReplayReport → ReplayWorld → ReplayWorld
audit_abort c code r w =
    if c.abort_audit_commits
    then record w { audits = w.audits ++ resume_sync_replay_failed r code ∷ [] }
    else w

-- After the loop or its break: the audit row, inside the guarded region.
abbrev pub complete : ReplayCalls → ReplayReport → ReplayWorld → ReplayResult × ReplayWorld
complete c r w =
    if c.completion_commits
    then (returned r, record w { audits = w.audits ++ resume_sync_replayed r ∷ [] })
    else (raised replay_aborted, audit_abort c replay_aborted r w)

abbrev pub conclude : ReplayCalls → ℕ → Step → ReplayResult × ReplayWorld
conclude c selected (next n w) = complete c (record { selected = selected; tally = n }) w
conclude c selected (stop n w) = complete c (record { selected = selected; tally = n }) w
conclude c selected (abort code n w) =
    (raised code, audit_abort c code (record { selected = selected; tally = n }) w)

abbrev pub start : Tally
start = record { replayed = 0; failed = 0; superseded = 0; undescribable = 0 }

unfoldable pub replay_failed : ReplayCalls → Run → ℕ → ReplayWorld → ReplayResult × ReplayWorld
replay_failed c run max_attempts w =
    let rows = pending run.source max_attempts w.ledger in
    if c.select_answers
    then conclude c (length rows) (replay_rows run c.row rows start w)
    else (select_failed, w)
