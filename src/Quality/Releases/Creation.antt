-- ===== src/Quality/Releases/Creation.antt =====
-- backend/app/services/quality/releases.py: the metrics of a release, and `create_release` with its
-- attempts.
use smart_screen_agent.Prelude.{
  ℕ, zero, suc, String, Bool, true, Option, none, some, List, [], ◌∷◌, ◌++◌, map, select,
  find_first, length, same_text, ◌==◌, Result, ok, raised, if◌then◌else◌,
}
use smart_screen_agent.Quality.Metrics.{
  BoundJudgeDimension, QualityItem, AgreementObservation, TargetStatus, ReleaseStatus, below,
  insufficient_data, not_applicable, CoverageStatus, no_dimensions, classification_metrics,
  evidence_metrics, agreement_metrics, target_result, release_rollup,
}
use smart_screen_agent.Quality.Metrics.Confidence.{confidence_metrics}
use smart_screen_agent.Quality.Releases.{
  Snapshot, JdBinding, MetricBlock, QualityRelease, QualityReleaseJd, AuditEvent,
  quality_release_created, quality_release_below_target, AuditLog, Db, ReleaseError,
  release_input_changed, release_transaction_conflict, database_failed, ReleaseRequest,
  GatheredRelease, Given, gather,
}

abbrev pub null_status : CoverageStatus → TargetStatus
null_status no_dimensions = not_applicable
null_status _ = insufficient_data

-- `_metric_block`
unfoldable pub metric_block :
    Given → List QualityItem → List BoundJudgeDimension → List AgreementObservation → MetricBlock
metric_block g items dims agreement =
    let classification = classification_metrics items in
    let evidence = evidence_metrics items dims in
    record {
      classification = classification;
      evidence = evidence;
      confidence = confidence_metrics g.decimals items dims g.targets.min_bucket_size;
      agreement = agreement_metrics agreement;
      f1_target_result =
          target_result classification.stats.f1 g.targets.f1_target insufficient_data;
      evidence_target_result =
          target_result evidence.value g.targets.evidence_target (null_status evidence.status);
    }

abbrev pub aggregate_of : Given → GatheredRelease → MetricBlock
aggregate_of g x = metric_block g x.items x.expected_dimensions x.agreement

abbrev pub block_of : Given → GatheredRelease → JdBinding → MetricBlock
block_of g x b =
    metric_block g (select (λ i. i.jd_id == b.jd_id) x.items)
      (select (λ d. d.jd_id == b.jd_id) x.expected_dimensions)
      (select (λ a. a.jd_id == b.jd_id) x.agreement)

-- The status of `compute_release_metrics`.
abbrev pub status_of : MetricBlock → ReleaseStatus
status_of block = release_rollup block.f1_target_result block.evidence_target_result

abbrev pub has_hash : String → Snapshot → Bool
has_hash hash s = same_text s.content_sha256 hash

abbrev pub snapshot_of : GatheredRelease → ℕ → Snapshot
snapshot_of x i = record {
  id = i;
  content_sha256 = x.golden_hash;
  item_count = length x.golden_rows;
  entries = x.golden_rows;
}

abbrev pub insert_snapshot : GatheredRelease → Db → ℕ × Db
insert_snapshot x db = (
  db.next_snapshot,
  record db {
    snapshots = db.snapshots ++ snapshot_of x db.next_snapshot ∷ [];
    next_snapshot = suc db.next_snapshot;
  },
)

-- `_upsert_snapshot`
unfoldable pub upsert_snapshot : GatheredRelease → Db → ℕ × Db
upsert_snapshot x db = elim (find_first (has_hash x.golden_hash) db.snapshots) [
  | some s ↦ (s.id, db)
  | none ↦ insert_snapshot x db
]

abbrev pub events : ReleaseStatus → List AuditEvent
events below = quality_release_created ∷ quality_release_below_target ∷ []
events _ = quality_release_created ∷ []

abbrev pub release_of : Given → GatheredRelease → ℕ → ℕ → ℕ → ℕ → QualityRelease
release_of g x actor now snapshot_id i = record {
  id = i;
  golden_snapshot_id = snapshot_id;
  window_start = x.window_start;
  window_end = x.window_end;
  status = status_of (aggregate_of g x);
  aggregate = aggregate_of g x;
  created_by = actor;
  created_at = now;
}

abbrev pub jd_rows : Given → GatheredRelease → ℕ → List QualityReleaseJd
jd_rows g x i =
    map
      (λ b. record {
        quality_release_id = i;
        jd_id = b.jd_id;
        rule_version_id = b.rule_version_id;
        metrics = block_of g x b;
      })
      x.bindings

abbrev pub audit_rows : QualityRelease → List AuditLog
audit_rows r =
    map (λ e. record { event = e; target_id = r.id; status = r.status }) (events r.status)

-- The release with its rows, over the snapshot that is there.
abbrev pub write_release : Given → GatheredRelease → ℕ → ℕ → ℕ × Db → QualityRelease × Db
write_release g x actor now (snapshot_id, db) =
    let r = release_of g x actor now snapshot_id db.next_release in
    (
      r,
      record db {
        releases = db.releases ++ r ∷ [];
        next_release = suc db.next_release;
        release_jds = db.release_jds ++ jd_rows g x db.next_release;
        audit = db.audit ++ audit_rows r;
      },
    )

abbrev pub is_expected : Option String → String → Bool
is_expected none fingerprint = true
is_expected (some expected) fingerprint = same_text expected fingerprint

abbrev pub create_from :
    Given
    → ReleaseRequest
    → ℕ
    → ℕ
    → Db
    → Result ReleaseError GatheredRelease
    → Result ReleaseError QualityRelease × Db
create_from g request actor now db (raised e) = (raised e, db)
create_from g request actor now db (ok x) =
    if is_expected request.expected_input_fingerprint x.fingerprint
    then (let (r, db') = write_release g x actor now (upsert_snapshot x db) in (ok r, db'))
    else (raised release_input_changed, db)

-- One transaction, over the snapshot that it reads.
unfoldable pub try_create :
    Given → ReleaseRequest → ℕ → ℕ → Db → Result ReleaseError QualityRelease × Db
try_create g request actor now db = create_from g request actor now db (gather g request now db)

-- How the database fails a transaction, which is rolled back: a conflict that `_is_retryable` accepts,
-- or any other.
pub data Failure : Type 0 where
  conflict fatal : Failure

-- What the attempts meet, by how many are left after them.
pub record Meets : Type 0 where
  pub fails : ℕ → Option Failure
  pub meanwhile : ℕ → Db → Db

-- The attempts that are left; a conflict leaves the rest to what others have committed meanwhile.
unfoldable pub attempts :
    Given → Meets → ReleaseRequest → ℕ → ℕ → ℕ → Db → Result ReleaseError QualityRelease × Db
attempts g m request actor now zero db = (raised release_transaction_conflict, db)
attempts g m request actor now (suc n) db =
    let again = attempts g m request actor now n (m.meanwhile n db) in
    elim (m.fails n) [
      | none ↦ try_create g request actor now db
      | some f ↦ elim f [ conflict ↦ again | fatal ↦ (raised database_failed, db) ]
    ]

-- `create_release`, with MAX_RELEASE_ATTEMPTS.
unfoldable pub create_release :
    Given → Meets → ReleaseRequest → ℕ → ℕ → Db → Result ReleaseError QualityRelease × Db
create_release g m request actor now db = attempts g m request actor now 3 db
