-- ===== src/CrossCheck/State.antt =====
-- backend/app/models/cross_check.py and backend/app/services/cross_check/state.py: the queue of
-- cross-checks, with the scores that they report to. A Decimal total is a number of a fixed decimal
-- quantum and not negative; a lease token is a number, which the caller of `claim_cross_check`
-- draws; an instant is a number of microseconds. Each operation is one transaction.
-- A total and a difference are kept exactly, where their columns round them to two decimals: the
-- test against the threshold reads the difference before it is rounded, here as there.
-- The column `secondary_dimensions`, which no operation reads, is left out.
pub mod Fence
pub mod Soundness
pub mod Projection
pub mod History
use smart_screen_agent.Prelude.{
  ℕ, suc, ◌+◌, ◌-◌, ◌*◌, max, String, Bool, true, false, not, ◌&&◌, ◌||◌, Option, none, some, List,
  [], ◌∷◌, ◌++◌, map, any, find_first, select, update_where, ◌==◌, same_text, ltb, leb,
  if◌then◌else◌,
}

pub data CheckState : Type 0 where
  queued running completed retryable_failed terminal_failed : CheckState

abbrev pub is_queued : CheckState → Bool
is_queued queued = true
is_queued _ = false

abbrev pub is_running : CheckState → Bool
is_running running = true
is_running _ = false

abbrev pub is_retryable : CheckState → Bool
is_retryable retryable_failed = true
is_retryable _ = false

-- The members of `TRIGGER_ORDER`.
pub data Reason : Type 0 where
  deterministic_sample low_confidence golden_error ai_hr_disagreement admin_backfill : Reason

abbrev pub is_reason : Reason → Reason → Bool
is_reason deterministic_sample deterministic_sample = true
is_reason low_confidence low_confidence = true
is_reason golden_error golden_error = true
is_reason ai_hr_disagreement ai_hr_disagreement = true
is_reason admin_backfill admin_backfill = true
is_reason _ _ = false

abbrev pub trigger_order : List Reason
trigger_order =
    deterministic_sample ∷ low_confidence ∷ golden_error ∷ ai_hr_disagreement ∷ admin_backfill ∷ []

pub record ScoreCrossCheck : Type 0 where
  pub id : ℕ
  pub score_id : ℕ
  pub secondary_model : String
  pub prompt_version : String
  pub sample_reasons : List Reason
  pub state : CheckState
  pub attempts : ℕ
  pub lease_expires_at : Option ℕ
  pub lease_token : Option ℕ
  pub last_error_code : Option String
  pub secondary_total_score : Option ℕ
  pub absolute_diff : Option ℕ
  pub threshold_snapshot : ℕ
  pub completed_at : Option ℕ

-- The columns of a score that the checks read and write.
pub record Score : Type 0 where
  pub id : ℕ
  pub total_score : ℕ
  pub cross_engine_diff : Option ℕ
  pub is_suspicious : Bool

pub record Db : Type 0 where
  pub checks : List ScoreCrossCheck
  pub scores : List Score
  pub next_id : ℕ

-- The codes of RETRYABLE_CODES and TERMINAL_CODES.
pub data ErrorCode : Type 0 where
  provider_unavailable usage_ledger_unavailable database_unavailable : ErrorCode
  cross_check_unexpected model_price_missing provider_configuration_error : ErrorCode
  invalid_secondary_output source_missing : ErrorCode

unfoldable pub is_retryable_code : ErrorCode → Bool
is_retryable_code provider_unavailable = true
is_retryable_code usage_ledger_unavailable = true
is_retryable_code database_unavailable = true
is_retryable_code cross_check_unexpected = true
is_retryable_code _ = false

unfoldable pub code_text : ErrorCode → String
code_text provider_unavailable = "provider_unavailable"
code_text usage_ledger_unavailable = "usage_ledger_unavailable"
code_text database_unavailable = "database_unavailable"
code_text cross_check_unexpected = "cross_check_unexpected"
code_text model_price_missing = "model_price_missing"
code_text provider_configuration_error = "provider_configuration_error"
code_text invalid_secondary_output = "invalid_secondary_output"
code_text source_missing = "source_missing"

unfoldable pub merge_reasons : List Reason → List Reason → List Reason
merge_reasons existing incoming =
    select (λ r. any (is_reason r) existing || any (is_reason r) incoming) trigger_order

abbrev pub greater : Option ℕ → ℕ → Option ℕ
greater none i = some i
greater (some m) i = some (max m i)

-- `max` of the ids of a score's checks, by SQL.
unfoldable pub greatest_id : ℕ → List ScoreCrossCheck → Option ℕ
greatest_id score_id [] = none
greatest_id score_id (c ∷ cs) =
    let rest = greatest_id score_id cs in if c.score_id == score_id then greater rest c.id else rest

abbrev pub has_id : ℕ → ScoreCrossCheck → Bool
has_id i c = c.id == i

abbrev pub is_score : ℕ → Score → Bool
is_score i s = s.id == i

-- Flushing a changed object updates its row.
abbrev pub save_check : ScoreCrossCheck → Db → Db
save_check c db = record db { checks = update_where (has_id c.id) (λ _. c) db.checks }

-- The arguments of `ensure_cross_check`.
pub record Wanted : Type 0 where
  pub score_id : ℕ
  pub secondary_model : String
  pub prompt_version : String
  pub reasons : List Reason
  pub threshold : ℕ

-- The columns of `uq_cross_checks_score_model_prompt`.
unfoldable pub same_check : Wanted → ScoreCrossCheck → Bool
same_check w c =
    c.score_id == w.score_id
    && (same_text c.secondary_model w.secondary_model
        && same_text c.prompt_version w.prompt_version)

abbrev pub new_check : Wanted → ℕ → ScoreCrossCheck
new_check w i = record {
  id = i;
  score_id = w.score_id;
  secondary_model = w.secondary_model;
  prompt_version = w.prompt_version;
  sample_reasons = w.reasons;
  state = queued;
  attempts = 0;
  lease_expires_at = none;
  lease_token = none;
  last_error_code = none;
  secondary_total_score = none;
  absolute_diff = none;
  threshold_snapshot = w.threshold;
  completed_at = none;
}

-- INSERT ... ON CONFLICT DO NOTHING; the identity column moves on in both cases.
abbrev pub insert_check : Bool → Wanted → Db → Db
insert_check conflict w db = record db {
  checks = if conflict then db.checks else db.checks ++ new_check w db.next_id ∷ [];
  next_id = suc db.next_id;
}

abbrev pub is_newer : Option ℕ → ℕ → Bool
is_newer none i = true
is_newer (some previous) i = ltb previous i

-- A newly configured check supersedes the projected verdict.
abbrev pub reset_score : ℕ → Db → Db
reset_score i db = record db {
  scores =
      update_where (is_score i) (λ s. record s { cross_engine_diff = none; is_suspicious = false })
        db.scores;
}

abbrev pub merged : Wanted → ScoreCrossCheck → ScoreCrossCheck
merged w c = record c { sample_reasons = merge_reasons c.sample_reasons w.reasons }

-- From the row that is read back; `none` is NoResultFound.
abbrev pub refresh : Option ℕ → Wanted → Option ScoreCrossCheck → Db → Option ScoreCrossCheck × Db
refresh previous w none db = (none, db)
refresh previous w (some c) db =
    let c' = merged w c in
    let db' = save_check c' db in
    (some c', if is_newer previous c.id then reset_score w.score_id db' else db')

unfoldable pub ensure_cross_check : Wanted → Db → Option ScoreCrossCheck × Db
ensure_cross_check w db =
    let previous = greatest_id w.score_id db.checks in
    let db' = insert_check (any (same_check w) db.checks) w db in
    refresh previous w (find_first (same_check w) db'.checks) db'

abbrev pub claimed : ℕ → ℕ → ScoreCrossCheck → ScoreCrossCheck
claimed token expires c = record c {
  state = running;
  attempts = c.attempts + 1;
  lease_token = some token;
  lease_expires_at = some expires;
}

abbrev pub is_claimable : ℕ → ScoreCrossCheck → Bool
is_claimable row_id c = has_id row_id c && is_queued c.state

abbrev pub claim_row : ℕ → ℕ → ℕ → Option ScoreCrossCheck → Db → Option ScoreCrossCheck × Db
claim_row token expires max_attempts none db = (none, db)
claim_row token expires max_attempts (some c) db =
    let c' = claimed token expires c in
    if leb max_attempts c.attempts then (none, db) else (some c', save_check c' db)

unfoldable pub claim_cross_check : ℕ → ℕ → ℕ → ℕ → ℕ → Db → Option ScoreCrossCheck × Db
claim_cross_check token row_id now lease_seconds max_attempts db =
    claim_row token (now + lease_seconds * 1000000) max_attempts
      (find_first (is_claimable row_id) db.checks) db

abbrev pub is_token : ℕ → Option ℕ → Bool
is_token token none = false
is_token token (some t) = t == token

-- The WHERE clause of a worker that still holds its lease.
abbrev pub is_held : ℕ → ℕ → ScoreCrossCheck → Bool
is_held row_id token c = has_id row_id c && (is_running c.state && is_token token c.lease_token)

-- `abs(a - b)`
abbrev pub distance : ℕ → ℕ → ℕ
distance a b = if leb b a then a - b else b - a

abbrev pub finished : ℕ → ℕ → ℕ → ScoreCrossCheck → ScoreCrossCheck
finished secondary_total diff now c = record c {
  state = completed;
  secondary_total_score = some secondary_total;
  absolute_diff = some diff;
  completed_at = some now;
  lease_token = none;
  lease_expires_at = none;
}

abbrev pub project : ScoreCrossCheck → ℕ → Db → Db
project c diff db = record db {
  scores =
      update_where (is_score c.score_id)
        (λ s. record s {
          cross_engine_diff = some diff;
          is_suspicious = leb c.threshold_snapshot diff;
        })
        db.scores;
}

abbrev pub is_current : ScoreCrossCheck → Option ℕ → Bool
is_current c none = false
is_current c (some i) = c.id == i

abbrev pub complete_row : ℕ → ℕ → Option ScoreCrossCheck → Option Score → Db → Bool × Db
complete_row secondary_total now none score db = (false, db)
complete_row secondary_total now (some c) none db = (false, db)
complete_row secondary_total now (some c) (some s) db =
    let diff = distance s.total_score secondary_total in
    let c' = finished secondary_total diff now c in
    let db' = save_check c' db in
    (true, if is_current c (greatest_id c.score_id db.checks) then project c' diff db' else db')

abbrev pub score_of : Option ScoreCrossCheck → Db → Option Score
score_of none db = none
score_of (some c) db = find_first (is_score c.score_id) db.scores

unfoldable pub complete_cross_check : ℕ → ℕ → ℕ → ℕ → Db → Bool × Db
complete_cross_check row_id token secondary_total now db =
    let row = find_first (is_held row_id token) db.checks in
    complete_row secondary_total now row (score_of row db) db

abbrev pub given_up : ErrorCode → ℕ → ScoreCrossCheck → ScoreCrossCheck
given_up code max_attempts c = record c {
  state =
      if is_retryable_code code && ltb c.attempts max_attempts
      then retryable_failed
      else terminal_failed;
  last_error_code = some (code_text code);
  lease_token = none;
  lease_expires_at = none;
}

abbrev pub fail_row : ErrorCode → ℕ → Option ScoreCrossCheck → Db → Bool × Db
fail_row code max_attempts none db = (false, db)
fail_row code max_attempts (some c) db = (true, save_check (given_up code max_attempts c) db)

unfoldable pub fail_cross_check : ℕ → ℕ → ErrorCode → ℕ → Db → Bool × Db
fail_cross_check row_id token code max_attempts db =
    fail_row code max_attempts (find_first (is_held row_id token) db.checks) db

abbrev pub is_expired : ℕ → Option ℕ → Bool
is_expired now none = false
is_expired now (some lease) = ltb lease now

-- The WHERE clause of the sweep; `locked` are the rows that another transaction holds.
abbrev pub is_lost : ℕ → (ℕ → Bool) → ScoreCrossCheck → Bool
is_lost now locked c =
    (is_retryable c.state || (is_running c.state && is_expired now c.lease_expires_at))
    && not (locked c.id)

abbrev pub or_unexpected : Option String → Option String
or_unexpected none = some "cross_check_unexpected"
or_unexpected (some code) = if same_text code "" then some "cross_check_unexpected" else some code

unfoldable pub recovered : ℕ → ScoreCrossCheck → ScoreCrossCheck
recovered max_attempts c =
    let exhausted = leb max_attempts c.attempts in
    record c {
      state = if exhausted then terminal_failed else queued;
      last_error_code = if exhausted then or_unexpected c.last_error_code else c.last_error_code;
      lease_token = none;
      lease_expires_at = none;
    }

-- The rows are in the order of their ids, in which they were inserted.
unfoldable pub sweep_cross_checks : ℕ → ℕ → (ℕ → Bool) → Db → List ℕ × Db
unfolding recovered
sweep_cross_checks now max_attempts locked db = (
  map (λ c. c.id)
      (select (λ c. not (leb max_attempts c.attempts)) (select (is_lost now locked) db.checks)),
  record db { checks = update_where (is_lost now locked) (recovered max_attempts) db.checks },
)
