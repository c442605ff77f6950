-- ===== src/Rules/Publication.antt =====
-- backend/app/services/rule_publication.py and backend/app/models/rule_version.py: `create_draft`,
-- `evaluate_draft` and `publish_draft`, with the search for a version of the router
-- backend/app/routers/rule_publication.py. The JDs are a function from their ids to the id of their
-- active version; an instant is a number. What a schema's JSON is validated to stands for it.
pub mod Governed
pub mod Drafts
pub mod Ready
pub mod Published
pub mod History
use smart_screen_agent.Prelude.{
  ℕ, suc, ◌+◌, String, Bool, true, false, not, ◌&&◌, Option, none, some, List, [], ◌∷◌, ◌++◌, any,
  find_first, update_where, same_text, ◌==◌, Result, ok, raised, is_some, if◌then◌else◌,
}
use smart_screen_agent.Scoring.Pipeline.{RuleSchema}
use smart_screen_agent.Rules.WhatIf.{Readers, Metrics, ScoredLabel, draft_metrics}

pub data Status : Type 0 where
  draft published archived : Status

abbrev pub is_draft : Status → Bool
is_draft draft = true
is_draft _ = false

pub record RuleVersion : Type 0 where
  pub id : ℕ
  pub jd_id : ℕ
  pub version : String
  pub schema : RuleSchema
  pub status : Status
  pub published_at : Option ℕ
  pub published_by : Option ℕ
  pub notes : Option String
  pub golden_set_metrics : Option Metrics

pub record Db : Type 0 where
  pub versions : List RuleVersion
  pub active : ℕ → Option ℕ
  pub next_id : ℕ

pub data PublicationError : Type 0 where
  invalid_rule_schema version_exists not_a_draft regression_not_recorded : PublicationError
  invalid_filter no_result_found : PublicationError

abbrev pub has_id : ℕ → RuleVersion → Bool
has_id i v = v.id == i

-- The columns of `uq_rule_versions_jd_version`.
abbrev pub is_version : ℕ → String → RuleVersion → Bool
is_version jd_id version v = v.jd_id == jd_id && same_text v.version version

abbrev pub new_draft : ℕ → ℕ → String → RuleSchema → Option String → RuleVersion
new_draft i jd_id version schema notes = record {
  id = i;
  jd_id = jd_id;
  version = version;
  schema = schema;
  status = draft;
  published_at = none;
  published_by = none;
  notes = notes;
  golden_set_metrics = none;
}

-- The INSERT at the commit; the constraint raises IntegrityError, and the identity column moves on.
abbrev pub insert_draft :
    ℕ → String → RuleSchema → Option String → Db → Result PublicationError RuleVersion × Db
insert_draft jd_id version schema notes db =
    if any (is_version jd_id version) db.versions
    then (raised version_exists, record db { next_id = suc db.next_id })
    else (
      ok (new_draft db.next_id jd_id version schema notes),
      record db {
        versions = db.versions ++ new_draft db.next_id jd_id version schema notes ∷ [];
        next_id = suc db.next_id;
      },
    )

-- `create_draft`, with the schema and its version if it is valid. The SELECT sees `seen`, and others may
-- have committed since when the INSERT is made.
unfoldable pub create_draft :
    ℕ
    → Option (String × RuleSchema)
    → Option String
    → Db
    → Db
    → Result PublicationError RuleVersion × Db
create_draft jd_id none notes seen db = (raised invalid_rule_schema, db)
create_draft jd_id (some (version, schema)) notes seen db =
    if any (is_version jd_id version) seen.versions
    then (raised version_exists, db)
    else insert_draft jd_id version schema notes db

abbrev pub with_metrics : Metrics → RuleVersion → RuleVersion
with_metrics metrics v = record v { golden_set_metrics = some metrics }

abbrev pub save_metrics : ℕ → Option Metrics → Db → Result PublicationError Metrics × Db
save_metrics i none db = (raised invalid_filter, db)
save_metrics i (some metrics) db = (
  ok metrics,
  record db { versions = update_where (has_id i) (with_metrics metrics) db.versions },
)

-- `evaluate_draft`, from the version as the request has loaded it, which is not locked: the row may
-- have changed since. Whether the judge's dimensions changed is only told.
unfoldable pub evaluate_draft :
    Readers
    → RuleVersion
    → List String
    → List ScoredLabel
    → Db
    → Result PublicationError Metrics × Db
evaluate_draft r seen labels rows db =
    if is_draft seen.status
    then save_metrics seen.id (draft_metrics r seen.schema labels rows) db
    else (raised not_a_draft, db)

abbrev pub archive : RuleVersion → RuleVersion
archive v = record v { status = archived }

abbrev pub publish : ℕ → ℕ → RuleVersion → RuleVersion
publish now publisher v = record v {
  status = published;
  published_at = some now;
  published_by = some publisher;
}

-- Where the JD's active version is still there.
abbrev pub archive_previous : Option ℕ → List RuleVersion → List RuleVersion
archive_previous none versions = versions
archive_previous (some i) versions = update_where (has_id i) archive versions

abbrev pub published_db : ℕ → ℕ → ℕ → ℕ → Db → Db
published_db jd_id i now publisher db = record db {
  versions =
      update_where (has_id i) (publish now publisher)
        (archive_previous (db.active jd_id) db.versions);
  active = λ j. if j == jd_id then some i else db.active j;
}

abbrev pub publish_locked : ℕ → ℕ → ℕ → Option RuleVersion → Db → Result PublicationError ℕ × Db
publish_locked jd_id now publisher none db = (raised no_result_found, db)
publish_locked jd_id now publisher (some v) db =
    if not (is_draft v.status)
    then (raised not_a_draft, db)
    else if not (is_some v.golden_set_metrics)
    then (raised regression_not_recorded, db)
    else (ok v.id, published_db jd_id v.id now publisher db)

-- `publish_draft`, which reads both rows again under their locks.
unfoldable pub publish_draft : ℕ → ℕ → ℕ → ℕ → Db → Result PublicationError ℕ × Db
publish_draft jd_id draft_id now publisher db =
    publish_locked jd_id now publisher (find_first (has_id draft_id) db.versions) db

-- `_load_version` and `publish` of the router. A version keeps its id, its JD and its name, so what the
-- search finds is what it would find under the locks.
abbrev pub publish_found : ℕ → ℕ → ℕ → Option RuleVersion → Db → Result PublicationError ℕ × Db
publish_found jd_id now publisher none db = (raised no_result_found, db)
publish_found jd_id now publisher (some v) db = publish_draft jd_id v.id now publisher db

unfoldable pub publish_version : ℕ → String → ℕ → ℕ → Db → Result PublicationError ℕ × Db
unfolding publish_draft
publish_version jd_id version now publisher db =
    publish_found jd_id now publisher (find_first (is_version jd_id version) db.versions) db
