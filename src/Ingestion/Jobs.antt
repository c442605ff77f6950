-- ===== src/Ingestion/Jobs.antt =====
-- backend/app/models/ingestion_job.py and backend/app/services/ingestion/jobs.py: the table of
-- ingestion jobs and the operations of `IngestionJobService`. An instant is a number of
-- microseconds since `datetime.min`; `at` is the database's clock, which `onupdate` writes to
-- `updated_at` when a changed row is flushed. `locked` says which rows another transaction holds,
-- so that `FOR UPDATE SKIP LOCKED` passes them over.
use smart_screen_agent.Prelude.{
  ℕ, suc, ◌+◌, ◌*◌, String, Bool, true, false, not, ◌&&◌, Option, none, some, List, [], ◌∷◌, ◌++◌,
  Result, ok, ◌>>=◌, find_first, update_where, ◌==◌, same_text, if◌then◌else◌,
}
use smart_screen_agent.Ingestion.States.{
  IngestionState, queued, parsing, is, is_processing, is_terminal, InvalidTransition,
  assert_transition,
}

pub record RawFileReference : Type 0 where
  pub object_key : String
  pub sha256 : String
  pub size_bytes : ℕ
  pub content_type : String
  pub original_name_cipher : String

pub record IngestionJob : Type 0 where
  pub id : ℕ
  pub batch_id : Option ℕ
  pub state : IngestionState
  pub source : String
  pub source_external_id : Option String
  pub jd_code : Option String
  pub raw_file : RawFileReference
  pub candidate_id : Option ℕ
  pub score_id : Option ℕ
  pub attempts : ℕ
  pub last_error_code : Option String
  pub lease_expires_at : Option ℕ
  pub trace_id : Option String
  pub actor : String
  pub updated_at : ℕ

-- The rows, and the next value of the identity column.
pub record Jobs : Type 0 where
  pub rows : List IngestionJob
  pub next_id : ℕ

abbrev pub seconds : ℕ → ℕ
seconds n = n * 1000000

-- The arguments of `create_or_reuse`.
pub record Submission : Type 0 where
  pub raw_file : RawFileReference
  pub source : String
  pub source_external_id : Option String
  pub jd_code : Option String
  pub actor : String
  pub batch_id : Option ℕ
  pub trace_id : Option String

abbrev pub has_sha256 : String → IngestionJob → Bool
has_sha256 sha j = same_text j.raw_file.sha256 sha

-- The test of `_find_active_by_sha256`, and of the partial unique index.
abbrev pub is_active_copy : String → IngestionJob → Bool
is_active_copy sha j = has_sha256 sha j && not (is_terminal j.state)

unfoldable pub find_active_by_sha256 : String → Jobs → Option IngestionJob
find_active_by_sha256 sha t = find_first (is_active_copy sha) t.rows

abbrev pub new_job : Submission → ℕ → ℕ → IngestionJob
new_job s i at = record {
  id = i;
  batch_id = s.batch_id;
  state = queued;
  source = s.source;
  source_external_id = s.source_external_id;
  jd_code = s.jd_code;
  raw_file = s.raw_file;
  candidate_id = none;
  score_id = none;
  attempts = 0;
  last_error_code = none;
  lease_expires_at = none;
  trace_id = s.trace_id;
  actor = s.actor;
  updated_at = at;
}

abbrev pub insert_unless : Option IngestionJob → Submission → ℕ → Jobs → Option IngestionJob × Jobs
insert_unless none s at t =
    let j = new_job s t.next_id at in
    (some j, record { rows = t.rows ++ j ∷ []; next_id = suc t.next_id })
insert_unless (some conflict) s at t = (none, record t { next_id = suc t.next_id })

-- INSERT ... ON CONFLICT DO NOTHING on the partial unique index; `none` means a conflict, and the
-- identity column has moved on all the same.
unfoldable pub insert_queued : Submission → ℕ → Jobs → Option IngestionJob × Jobs
insert_queued s at t = insert_unless (find_active_by_sha256 s.raw_file.sha256 t) s at t

-- What other transactions commit between the fast path's SELECT and the INSERT, and between the
-- INSERT and the second SELECT.
pub record Interference : Type 0 where
  pub before_insert : Jobs → Jobs
  pub before_reread : Jobs → Jobs

abbrev pub reread : Option IngestionJob → Jobs → Option (IngestionJob × Bool) × Jobs
reread none t = (none, t)
reread (some existing) t = (some (existing, false), t)

abbrev pub after_insert :
    Interference → String → Option IngestionJob × Jobs → Option (IngestionJob × Bool) × Jobs
after_insert others sha (some j, t) = (some (j, true), t)
after_insert others sha (none, t) =
    let t' = others.before_reread t in reread (find_active_by_sha256 sha t') t'

abbrev pub unless_active :
    Option IngestionJob → Interference → Submission → ℕ → Jobs → Option (IngestionJob × Bool) × Jobs
unless_active (some existing) others s at t = (some (existing, false), t)
unless_active none others s at t =
    after_insert others s.raw_file.sha256 (insert_queued s at (others.before_insert t))

-- `none` is the RuntimeError of the branch that is marked unreachable.
unfoldable pub create_or_reuse :
    Interference → Submission → ℕ → Jobs → Option (IngestionJob × Bool) × Jobs
create_or_reuse others s at t =
    unless_active (find_active_by_sha256 s.raw_file.sha256 t) others s at t

-- Flushing a changed object updates its row.
abbrev pub save : IngestionJob → Jobs → Jobs
save job t = record t { rows = update_where (λ j. j.id == job.id) (λ _. job) t.rows }

abbrev pub claimed : ℕ → ℕ → ℕ → IngestionJob → IngestionJob
claimed clock lease_seconds at j = record j {
  state = parsing;
  attempts = j.attempts + 1;
  lease_expires_at = some (clock + seconds lease_seconds);
  updated_at = at;
}

abbrev pub is_claimable : (ℕ → Bool) → ℕ → IngestionJob → Bool
is_claimable locked job_id j = j.id == job_id && (is queued j.state && not (locked j.id))

unfoldable pub claim_found :
    ℕ → ℕ → ℕ → Option IngestionJob → Jobs → Result InvalidTransition (Option IngestionJob × Jobs)
unfolding assert_transition
claim_found clock lease_seconds at none t = ok (none, t)
claim_found clock lease_seconds at (some j) t = assert_transition j.state parsing >>= λ _.
    let j' = claimed clock lease_seconds at j in ok (some j', save j' t)

unfoldable pub claim :
    ℕ → ℕ → ℕ → (ℕ → Bool) → ℕ → Jobs → Result InvalidTransition (Option IngestionJob × Jobs)
claim clock lease_seconds at locked job_id t =
    claim_found clock lease_seconds at (find_first (is_claimable locked job_id) t.rows) t

abbrev pub moved : IngestionState → Option String → ℕ → IngestionJob → IngestionJob
moved target error_code at j = record j {
  state = target;
  last_error_code = elim error_code [ none ↦ j.last_error_code | some c ↦ some c ];
  lease_expires_at = if is_processing target then j.lease_expires_at else none;
  updated_at = at;
}

unfoldable pub transition :
    IngestionState
    → Option String
    → ℕ
    → IngestionJob
    → Jobs
    → Result InvalidTransition (IngestionJob × Jobs)
unfolding assert_transition
transition target error_code at job t = assert_transition job.state target >>= λ _.
    let j = moved target error_code at job in ok (j, save j t)
