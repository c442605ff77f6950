-- ===== src/Quality/Releases/Written.antt =====
-- backend/app/services/quality/releases.py: what a release that is written holds.
use smart_screen_agent.Prelude.{
  ℕ, ◌≤◌, ◌≡◌, refl, sym, ap, ◌∙◌, ◌⊎◌, inl, inr, String, Bool, true, false, ◌||◌, Option, none,
  some, [], ◌∷◌, ◌++◌, any, select, length, length-select-insert, find_first, find_first-append,
  find_first_of_any, is_some, Bool-cases, Option-cases, ok, same_text, eq_iff, if◌then◌else◌, List,
  ◌==◌, Rowwise, Rowwise-map,
}
use text.Mathlib.TextPositions.{eq_refl}
use smart_screen_agent.Quality.Metrics.{
  TargetResult, TargetStatus, meets_target, ReleaseStatus, meets, below, CoverageStatus,
  no_dimensions, insufficient_data, is_short, reaches, release_rollup, target_result,
}
use smart_screen_agent.Quality.Metrics as Metrics
use smart_screen_agent.Quality.Metrics.Accounts.{IsAccounted}
use smart_screen_agent.Quality.Releases.{
  Db, Given, ReleaseRequest, GatheredRelease, QualityRelease, Snapshot, MetricBlock, gather,
  selected_jds, JdBinding, QualityReleaseJd, AuditLog, quality_release_created,
  quality_release_below_target,
}
use smart_screen_agent.Quality.Releases.Gathered.{IsWindow, Binds}
use smart_screen_agent.Quality.Releases.Creation.{
  metric_block, null_status, aggregate_of, status_of, has_hash, snapshot_of, upsert_snapshot,
  block_of, jd_rows, audit_rows, is_expected,
}

-- No content has two snapshots.
abbrev pub OneSnapshot : Db → Type 0
OneSnapshot db = (hash : String) → length (select (has_hash hash) db.snapshots) ≤ 1

-- F1 reaches its target, and so does the coverage of evidence, unless no dimension is judged.
abbrev pub MeetsTargets : Given → MetricBlock → Type 0
MeetsTargets g b =
    ((v : ℕ × ℕ) × (b.classification.stats.f1 ≡ some v) × (reaches v g.targets.f1_target ≡ true))
    × ((b.evidence.status ≡ no_dimensions)
        ⊎ ((v : ℕ × ℕ) × (b.evidence.value ≡ some v)
            × (reaches v g.targets.evidence_target ≡ true)))

-- A row of the release for a binding: of its JD and rules, with the metrics of that JD alone.
pub record RowOf (g : Given) (x : GatheredRelease) (i : ℕ) (b : JdBinding) (row : QualityReleaseJd)
    : Type 0 where
  pub release : row.quality_release_id ≡ i
  pub jd : row.jd_id ≡ b.jd_id
  pub version : row.rule_version_id ≡ b.rule_version_id
  pub metrics : row.metrics ≡ block_of g x b

-- The rows of the audit log for a release: that it was created, and that it misses its targets, if
-- it does.
abbrev pub Told : ReleaseStatus → ℕ → List AuditLog → Type 0
Told meets i news =
    news ≡ record { event = quality_release_created; target_id = i; status = meets } ∷ []
Told below i news =
    news
    ≡ record { event = quality_release_created; target_id = i; status = below }
      ∷ record { event = quality_release_below_target; target_id = i; status = below }
      ∷ []

-- The snapshot was there before, or it is new and holds the labels, each once counted.
abbrev pub HoldsLabels : Db → GatheredRelease → Snapshot → Type 0
HoldsLabels before x s =
    (find_first (has_hash x.golden_hash) before.snapshots ≡ some s)
    ⊎ ((find_first (has_hash x.golden_hash) before.snapshots ≡ none)
        × (s.entries ≡ x.golden_rows)
        × (s.item_count ≡ length x.golden_rows))

-- One release more, of the inputs that were read, with the snapshot of its labels, a row for each
-- binding and its audit rows.
pub record Created (g : Given) (request : ReleaseRequest) (actor now : ℕ) (before : Db)
    (r : QualityRelease) (after : Db) : Type 0 where
  pub gathered : GatheredRelease
  pub was_read : gather g request now before ≡ ok gathered
  pub was_expected : is_expected request.expected_input_fingerprint gathered.fingerprint ≡ true
  pub release : after.releases ≡ before.releases ++ r ∷ []
  pub numbered : r.id ≡ before.next_release
  pub by_actor : (r.created_by ≡ actor) × (r.created_at ≡ now)
  pub window : IsWindow request now r.window_start r.window_end
  pub bound : Rowwise Binds (selected_jds request.jd_codes before) gathered.bindings
  pub labels :
      gathered.golden_rows
      ≡ select (λ row. any (λ b. row.jd_id == b.jd_id) gathered.bindings) before.golden
  pub rows : List QualityReleaseJd
  pub added : after.release_jds ≡ before.release_jds ++ rows
  pub each : Rowwise (RowOf g gathered r.id) gathered.bindings rows
  pub audits : List AuditLog
  pub audited : after.audit ≡ before.audit ++ audits
  pub told : Told r.status r.id audits
  pub metrics : r.aggregate ≡ aggregate_of g gathered
  pub accounted :
      IsAccounted g.decimals gathered.items gathered.expected_dimensions gathered.agreement
        g.targets.min_bucket_size
  pub met : r.status ≡ meets → MeetsTargets g r.aggregate
  pub snapshot : Snapshot
  pub found : find_first (has_hash gathered.golden_hash) after.snapshots ≡ some snapshot
  pub of_snapshot : r.golden_snapshot_id ≡ snapshot.id
  pub holds : HoldsLabels before gathered snapshot
  pub one : OneSnapshot after

f1_met :
    (v : Option (ℕ × ℕ)) (t : ℕ × ℕ)
    → is_short (Metrics.status_of v t insufficient_data) ≡ false
    → (w : ℕ × ℕ) × (v ≡ some w) × (reaches w t ≡ true)
f1_met none t h = absurd (cc h)
f1_met (some w) t h = elim (Bool-cases (reaches w t)) [
  | inl e ↦ (w, refl, e)
  | inr e ↦ absurd (cc (rw e at h))
]

evidence_met :
    (v : Option (ℕ × ℕ)) (t : ℕ × ℕ) (s : CoverageStatus)
    → is_short (Metrics.status_of v t (null_status s)) ≡ false
    → (s ≡ no_dimensions) ⊎ ((w : ℕ × ℕ) × (v ≡ some w) × (reaches w t ≡ true))
evidence_met (some w) t s h = elim (Bool-cases (reaches w t)) [
  | inl e ↦ inr (w, refl, e)
  | inr e ↦ absurd (cc (rw e at h))
]
evidence_met none t no_dimensions h = inl refl
evidence_met none t CoverageStatus.too_few h = absurd (cc h)
evidence_met none t CoverageStatus.available h = absurd (cc h)

short_either : (a b : Bool) → (if a || b then below else meets) ≡ meets → (a ≡ false) × (b ≡ false)
short_either true b h = absurd (cc h)
short_either false true h = absurd (cc h)
short_either false false h = (refl, refl)

pub status-MeetsTargets :
    (g : Given) (x : GatheredRelease)
    → status_of (aggregate_of g x) ≡ meets
    → MeetsTargets g (aggregate_of g x)
unfolding metric_block release_rollup target_result
status-MeetsTargets g x h = let (a, b) = short_either _ _ h in (f1_met _ _ a, evidence_met _ _ _ b)

has_hash_same :
    (x : GatheredRelease) (i : ℕ) (hash : String)
    → has_hash hash (snapshot_of x i) ≡ true
    → (s : Snapshot) → has_hash hash s ≡ has_hash x.golden_hash s
has_hash_same x i hash h s =
    ap (λ t. same_text s.content_sha256 t) (sym ((eq_iff x.golden_hash hash).0 h))

-- The snapshot of the golden rows is there after, under the id that is returned.
pub record IsSnapshot (x : GatheredRelease) (before : Db) (u : ℕ × Db) : Type 0 where
  pub snapshot : Snapshot
  pub found : find_first (has_hash x.golden_hash) u.1.snapshots ≡ some snapshot
  pub numbered : u.0 ≡ snapshot.id
  pub holds : HoldsLabels before x snapshot
  pub one : OneSnapshot u.1
  pub same :
      (u.1.releases ≡ before.releases)
      × (u.1.release_jds ≡ before.release_jds)
      × (u.1.audit ≡ before.audit)
      × (u.1.next_release ≡ before.next_release)

no_hash :
    (x : GatheredRelease) (db : Db)
    → find_first (has_hash x.golden_hash) db.snapshots ≡ none
    → any (has_hash x.golden_hash) db.snapshots ≡ false
no_hash x db e = find_first_of_any (has_hash x.golden_hash) db.snapshots ∙ ap is_some e

pub upsert-IsSnapshot :
    (x : GatheredRelease) (db : Db) → OneSnapshot db → IsSnapshot x db (upsert_snapshot x db)
unfolding upsert_snapshot
upsert-IsSnapshot x db h = elim (Option-cases (find_first (has_hash x.golden_hash) db.snapshots)) [
  | inr (s, e) ↦
      rw (e, upsert_snapshot)
        (record {
          snapshot = s;
          found = e;
          numbered = refl;
          holds = inl e;
          one = h;
          same = (refl, refl, refl, refl);
        })
  | inl e ↦
      rw (e, upsert_snapshot)
        (record {
          snapshot = snapshot_of x db.next_snapshot;
          found =
              find_first-append (has_hash x.golden_hash) db.snapshots
                (snapshot_of x db.next_snapshot) e (eq_refl x.golden_hash);
          numbered = refl;
          holds = inr (e, refl, refl);
          one = λ hash.
              length-select-insert (has_hash x.golden_hash) (has_hash hash)
                (snapshot_of x db.next_snapshot) db.snapshots (no_hash x db e)
                (has_hash_same x db.next_snapshot hash) (h hash);
          same = (refl, refl, refl, refl);
        })
]

pub jd_rows-RowOf :
    (g : Given) (x : GatheredRelease) (i : ℕ) → Rowwise (RowOf g x i) x.bindings (jd_rows g x i)
jd_rows-RowOf g x i =
    Rowwise-map (RowOf g x i) _ x.bindings
      (λ b. record { release = refl; jd = refl; version = refl; metrics = refl })

pub audit_rows-Told :
    (r : QualityRelease) (s : ReleaseStatus) → r.status ≡ s → Told s r.id (audit_rows r)
audit_rows-Told r meets e = rw e refl
audit_rows-Told r below e = rw e refl
