-- ===== src/Sync/JdMetadata.antt =====
-- backend/app/services/sync/runner.py: `sync_jd_metadata`, which creates the job descriptions that a
-- source lists and refreshes their names and descriptions, over backend/app/models/jd.py. The whole
-- batch is one transaction, beside which others commit: `mine` is what the transaction sees,
-- `committed` is what it leaves if it is rolled back. The id that INSERT draws is `next_id`.
pub mod Governed
use smart_screen_agent.Prelude.{
  ℕ, suc, String, Bool, true, false, ◌&&◌, Option, none, some, List, [], ◌∷◌, ◌++◌, any, find_first,
  update_where, length, ◌==◌, same_text, if◌then◌else◌,
}

pub record Jd : Type 0 where
  pub id : ℕ
  pub code : String
  pub name : String
  pub description : Option String
  pub status : String
  pub active_rule_version_id : Option ℕ

pub record Jds : Type 0 where
  pub rows : List Jd
  pub next_id : ℕ

pub record JobMeta : Type 0 where
  pub code : String
  pub name : String
  pub description : String

pub record Tables : Type 0 where
  pub mine : Jds
  pub committed : Jds

pub data JobListing : Type 0 where
  listed : List JobMeta → JobListing
  jobs_unavailable jobs_crashed : JobListing

-- What the adapter and the database answer: whether the statements of a job do, what others commit
-- between its SELECT and its INSERT, and which transactions commit.
pub record JdCalls : Type 0 where
  pub list_jobs : JobListing
  pub answers : JobMeta → Bool
  pub before_insert : JobMeta → Jds → Jds
  pub batch_commits : Bool
  pub audit_commits : Bool
  pub abort_audit_commits : Bool

pub data JdAudit : Type 0 where
  jd_sync_completed : (listed changed : ℕ) → JdAudit
  jd_sync_failed_listing : JdAudit
  jd_sync_aborted : (listed changed_before_abort : ℕ) → JdAudit

pub record JdWorld : Type 0 where
  pub jds : Jds
  pub audits : List JdAudit

-- After one job, or after all: the loop goes on, or an exception leaves it.
pub data JdLoop : Type 0 where
  go : ℕ → Tables → JdLoop
  abort : ℕ → Tables → JdLoop

abbrev pub has_code : String → Jd → Bool
has_code code r = same_text r.code code

abbrev pub new_jd : JobMeta → ℕ → Jd
new_jd job i = record {
  id = i;
  code = job.code;
  name = job.name;
  description = some job.description;
  status = "active";
  active_rule_version_id = none;
}

-- INSERT ... ON CONFLICT (code) DO NOTHING; the identity column moves on in both cases.
abbrev pub insert_jd : Bool → JobMeta → Jds → Jds
insert_jd conflict job t = record {
  rows = if conflict then t.rows else t.rows ++ new_jd job t.next_id ∷ [];
  next_id = suc t.next_id;
}

abbrev pub renamed : JobMeta → Jd → Jd
renamed job r = record r { name = job.name; description = some job.description }

abbrev pub update_jd : ℕ → JobMeta → Jds → Jds
update_jd i job t = record t { rows = update_where (λ r. r.id == i) (renamed job) t.rows }

abbrev pub is_text : Option String → String → Bool
is_text none text = false
is_text (some s) text = same_text s text

abbrev pub others_commit : (Jds → Jds) → Tables → Tables
others_commit others t = record { mine = others t.mine; committed = others t.committed }

abbrev pub create_jd : JobMeta → ℕ → Tables → JdLoop
create_jd job changed t =
    let conflict = any (has_code job.code) t.mine.rows in
    let t' = record t { mine = insert_jd conflict job t.mine } in
    if conflict then go changed t' else go (suc changed) t'

-- From the row that the SELECT returns.
abbrev pub after_select : JdCalls → JobMeta → ℕ → Tables → Option Jd → JdLoop
after_select c job changed t none = create_jd job changed (others_commit (c.before_insert job) t)
after_select c job changed t (some r) =
    if same_text r.name job.name && is_text r.description job.description
    then go changed t
    else go (suc changed) (record t { mine = update_jd r.id job t.mine })

-- The body of the loop.
unfoldable pub sync_job : JdCalls → JobMeta → ℕ → Tables → JdLoop
sync_job c job changed t =
    if c.answers job
    then after_select c job changed t (find_first (has_code job.code) t.mine.rows)
    else abort changed t

abbrev pub unless_aborted : JdLoop → (ℕ → Tables → JdLoop) → JdLoop
unless_aborted (go changed t) rest = rest changed t
unless_aborted (abort changed t) rest = abort changed t

unfoldable pub sync_jobs : JdCalls → List JobMeta → ℕ → Tables → JdLoop
sync_jobs c [] changed t = go changed t
sync_jobs c (job ∷ jobs) changed t =
    unless_aborted (sync_job c job changed t) (λ n t'. sync_jobs c jobs n t')

pub data JdError : Type 0 where
  source_down listing_broke run_aborted : JdError

pub data JdResult : Type 0 where
  returned : ℕ → JdResult
  raised : JdError → JdResult

abbrev pub audit_abort : JdCalls → JdAudit → JdWorld → JdWorld
audit_abort c a w = if c.abort_audit_commits then record w { audits = w.audits ++ a ∷ [] } else w

-- The completion audit, a transaction of its own after the batch.
abbrev pub audit_completed : JdCalls → ℕ → ℕ → JdWorld → JdResult × JdWorld
audit_completed c n changed w =
    if c.audit_commits
    then (returned changed, record w { audits = w.audits ++ jd_sync_completed n changed ∷ [] })
    else (raised run_aborted, audit_abort c (jd_sync_aborted n changed) w)

unfoldable pub conclude : JdCalls → ℕ → JdWorld → JdLoop → JdResult × JdWorld
conclude c n w (abort changed t) =
    (raised run_aborted, audit_abort c (jd_sync_aborted n changed) (record w { jds = t.committed }))
conclude c n w (go changed t) =
    if c.batch_commits then audit_completed c n changed (record w { jds = t.mine }) else (
      raised run_aborted,
      audit_abort c (jd_sync_aborted n changed) (record w { jds = t.committed }),
    )

abbrev pub after_listing : JdCalls → JdWorld → JobListing → JdResult × JdWorld
after_listing c w (listed jobs) =
    conclude c (length jobs) w (sync_jobs c jobs 0 (record { mine = w.jds; committed = w.jds }))
after_listing c w jobs_unavailable = (raised source_down, audit_abort c jd_sync_failed_listing w)
after_listing c w jobs_crashed = (raised listing_broke, w)

unfoldable pub sync_jd_metadata : JdCalls → JdWorld → JdResult × JdWorld
sync_jd_metadata c w = after_listing c w c.list_jobs
