-- ===== src/Sync/Ledger.antt =====
-- backend/app/services/sync/ledger.py and the tables of backend/app/models/sync.py. An instant is a
-- number of microseconds since `datetime.min`, always timezone-aware; a subtraction that would go
-- below is `none`, the OverflowError of Python. `is_blank` is `not part.strip()`, which is Python's.
pub mod Laws
use smart_screen_agent.Prelude.{
  ℕ, suc, ◌+◌, ◌-◌, ◌*◌, max, String, Bool, true, false, ◌&&◌, ◌||◌, Option, none, some, List, [],
  ◌∷◌, ◌++◌, any, find_first, update_where, same_text, ltb, if◌then◌else◌,
}

pub data ItemOutcome : Type 0 where
  ingested skipped_duplicate failed : ItemOutcome

pub record SyncSourceItem : Type 0 where
  pub id : ℕ
  pub source : String
  pub source_external_id : String
  pub content_sha256 : String
  pub ingestion_job_id : Option ℕ
  pub outcome : ItemOutcome
  pub error_code : Option String
  pub attempts : ℕ
  pub first_seen_at : ℕ
  pub last_seen_at : ℕ

pub record Ledger : Type 0 where
  pub rows : List SyncSourceItem
  pub next_id : ℕ

-- The columns of `uq_sync_source_items_identity`.
pub record Identity : Type 0 where
  pub source : String
  pub external_id : String
  pub sha256 : String

-- `a - timedelta`
abbrev pub minus : ℕ → ℕ → Option ℕ
minus a b = if ltb a b then none else some (a - b)

unfoldable pub overlap_start : ℕ → ℕ → Option ℕ
overlap_start cursor_value overlap_seconds = minus cursor_value (overlap_seconds * 1000000)

pub record SourceItem : Type 0 where
  pub external_id : String
  pub updated_at : ℕ
  pub filename : String
  pub content_type : String
  pub jd_code : Option String

-- `max` of the instants of a list.
abbrev newest_from : ℕ → List SourceItem → ℕ
newest_from m [] = m
newest_from m (item ∷ rest) = newest_from (max m item.updated_at) rest

unfoldable pub next_cursor : ℕ → List SourceItem → ℕ
next_cursor current [] = current
next_cursor current (item ∷ rest) = max current (newest_from item.updated_at rest)

-- `none` is the ValueError.
unfoldable pub identity_key : (String → Bool) → Identity → Option Identity
identity_key is_blank k =
    if is_blank k.source || (is_blank k.external_id || is_blank k.sha256) then none else some k

abbrev pub is_ingested : ItemOutcome → Bool
is_ingested ingested = true
is_ingested _ = false

unfoldable pub has_identity : Identity → SyncSourceItem → Bool
has_identity k row =
    same_text row.source k.source
    && (same_text row.source_external_id k.external_id && same_text row.content_sha256 k.sha256)

abbrev pub ingested_row : Identity → SyncSourceItem → Bool
ingested_row k row = has_identity k row && is_ingested row.outcome

abbrev pub was_ingested : Identity → Ledger → Bool
was_ingested k t = any (ingested_row k) t.rows

unfoldable pub already_ingested : (String → Bool) → Identity → Ledger → Option Bool
unfolding identity_key
already_ingested is_blank k t = elim (identity_key is_blank k) [
  | none ↦ none
  | some k' ↦ some (was_ingested k' t)
]

-- The arguments of `record_item` beside the identity.
pub record Sighting : Type 0 where
  pub outcome : ItemOutcome
  pub now : ℕ
  pub job_id : Option ℕ
  pub error_code : Option String

abbrev pub new_row : Identity → Sighting → ℕ → SyncSourceItem
new_row k s i = record {
  id = i;
  source = k.source;
  source_external_id = k.external_id;
  content_sha256 = k.sha256;
  ingestion_job_id = s.job_id;
  outcome = s.outcome;
  error_code = s.error_code;
  attempts = 1;
  first_seen_at = s.now;
  last_seen_at = s.now;
}

abbrev pub coalesce : Option ℕ → Option ℕ → Option ℕ
coalesce (some a) b = some a
coalesce none b = b

abbrev pub seen_again : Sighting → SyncSourceItem → SyncSourceItem
seen_again s row = record row {
  outcome = s.outcome;
  error_code = s.error_code;
  attempts = row.attempts + 1;
  last_seen_at = s.now;
  ingestion_job_id = coalesce s.job_id row.ingestion_job_id;
}

-- INSERT ... ON CONFLICT (source, source_external_id, content_sha256) DO UPDATE. The identity
-- column moves on in both cases.
unfoldable pub record_item : Identity → Sighting → Ledger → Ledger
record_item k s t = record {
  rows =
      if any (has_identity k) t.rows
      then update_where (has_identity k) (seen_again s) t.rows
      else t.rows ++ new_row k s t.next_id ∷ [];
  next_id = suc t.next_id;
}

-- `sync_cursors` is a function from the source; a stored value reads back as the same instant. The
-- times of the last run and update are left out.
abbrev pub Cursors : Type 0
Cursors = String → Option ℕ

unfoldable pub read_cursor : String → ℕ → Cursors → ℕ
read_cursor source default t = elim (t source) [ none ↦ default | some value ↦ value ]

unfoldable pub write_cursor : String → ℕ → Cursors → Cursors
write_cursor source value t s = if same_text s source then some value else t s
