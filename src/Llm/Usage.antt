-- ===== src/Llm/Usage.antt =====
-- backend/app/services/llm/usage.py: the ledger of attempts. An attempt is written before its call and
-- made terminal after it. What the database does at an INSERT or an UPDATE, and whether the broker
-- takes a message, are arguments; a failed or lost statement is one of their values.
pub mod History
pub mod Settled
pub mod Finalize
use smart_screen_agent.Prelude.{
  ℕ, zero, suc, ◌+◌, String, Bool, true, false, not, ◌&&◌, ◌||◌, Option, none, some, List, [], ◌∷◌,
  ◌++◌, map, length, select, update_where, ltb, ◌==◌, Result, ok, raised, ◌>>=◌, if◌then◌else◌,
}
use smart_screen_agent.Llm.Pricing.{
  InvalidPriceBook, ModelPrice, TokenCount, count, below_zero, not_an_int, max_tokens, require,
  estimate_cost,
}

pub data Operation : Type 0 where
  extract judge cross_check lightweight : Operation

pub data AttemptRole : Type 0 where
  primary fallback secondary : AttemptRole

pub data AttemptStatus : Type 0 where
  pending succeeded unavailable invalid_response configuration_error abandoned : AttemptStatus

pub data AttemptError : Type 0 where
  provider_unavailable provider_unexpected_error provider_configuration_error : AttemptError
  invalid_answer usage_finalization_missing : AttemptError

pub record LlmCallContext : Type 0 where
  pub operation : Operation
  pub call_group_id : ℕ
  pub trace_id : Option String
  pub ingestion_job_id : Option ℕ
  pub score_id : Option ℕ
  pub jd_id : Option ℕ
  pub rule_version_id : Option ℕ

-- A row of `llm_usage_attempts`; its price and cost are in the units of Llm.Pricing.
pub record LlmUsageAttempt : Type 0 where
  pub id : ℕ
  pub context : LlmCallContext
  pub attempt_role : AttemptRole
  pub requested_model : String
  pub actual_model : Option String
  pub prompt_version : String
  pub status : AttemptStatus
  pub input_tokens : Option ℕ
  pub output_tokens : Option ℕ
  pub price : ModelPrice
  pub estimated_cost_cny : Option ℕ
  pub latency_ms : Option ℕ
  pub error_code : Option AttemptError
  pub started_at : ℕ
  pub finished_at : Option ℕ

pub record UsageAttemptHandle : Type 0 where
  pub attempt_id : ℕ
  pub price : ModelPrice
  pub started_at : ℕ

-- The table with its next id, and the messages the broker has taken.
pub record Ledger : Type 0 where
  pub attempts : List LlmUsageAttempt
  pub next_id : ℕ
  pub notified : List ℕ

-- Why `begin` raises.
pub data BeginError : Type 0 where
  model_price_missing usage_ledger_unavailable : BeginError

-- What comes of the INSERT: its acknowledgement, a failure, or a commit whose acknowledgement is
-- lost.
pub data Insert : Type 0 where
  inserted insert_failed insert_lost : Insert

-- `fresh price` is the row that `begin` writes.
abbrev pub fresh :
    LlmCallContext → String → AttemptRole → String → ℕ → ℕ → ModelPrice → LlmUsageAttempt
fresh context model role prompt now i price = record {
  id = i;
  context = context;
  attempt_role = role;
  requested_model = model;
  actual_model = none;
  prompt_version = prompt;
  status = pending;
  input_tokens = none;
  output_tokens = none;
  price = price;
  estimated_cost_cny = none;
  latency_ms = none;
  error_code = none;
  started_at = now;
  finished_at = none;
}

abbrev pub write : LlmUsageAttempt → Ledger → Ledger
write row db = record {
  attempts = db.attempts ++ row ∷ [];
  next_id = suc db.next_id;
  notified = db.notified;
}

abbrev pub insert_attempt :
    Insert → LlmUsageAttempt → Ledger → Result BeginError UsageAttemptHandle × Ledger
insert_attempt inserted row db = (
  ok (record { attempt_id = row.id; price = row.price; started_at = row.started_at }),
  write row db,
)
insert_attempt insert_failed row db = (raised usage_ledger_unavailable, db)
insert_attempt insert_lost row db = (raised usage_ledger_unavailable, write row db)

abbrev pub begin_at :
    Option ModelPrice
    → LlmCallContext
    → String
    → AttemptRole
    → String
    → ℕ
    → Insert
    → Ledger
    → Result BeginError UsageAttemptHandle × Ledger
begin_at none context model role prompt now outcome db = (raised model_price_missing, db)
begin_at (some price) context model role prompt now outcome db =
    insert_attempt outcome (fresh context model role prompt now db.next_id price) db

unfoldable pub begin :
    List (String × ModelPrice)
    → LlmCallContext
    → String
    → AttemptRole
    → String
    → ℕ
    → Insert
    → Ledger
    → Result BeginError UsageAttemptHandle × Ledger
begin prices context model role prompt now outcome db =
    begin_at (require model prices) context model role prompt now outcome db

-- The values of `finalize`; a count may be no count.
pub record TerminalValues : Type 0 where
  pub status : AttemptStatus
  pub actual_model : Option String
  pub input_tokens : Option TokenCount
  pub output_tokens : Option TokenCount
  pub latency_ms : Option TokenCount
  pub error_code : Option AttemptError

abbrev pub is_pending : AttemptStatus → Bool
is_pending pending = true
is_pending _ = false

-- Why `finalize` refuses its values.
pub data ValueError : Type 0 where
  invalid_status invalid_input_tokens invalid_output_tokens invalid_latency_ms : ValueError
  no_cost : InvalidPriceBook → ValueError

-- One round of the loop of `_validate_terminal_values`.
abbrev pub valid_count : ValueError → Option TokenCount → Result ValueError (Option ℕ)
valid_count e none = ok none
valid_count e (some not_an_int) = raised e
valid_count e (some below_zero) = raised e
valid_count e (some (count n)) = if ltb max_tokens n then raised e else ok (some n)

abbrev pub with_cost : Result InvalidPriceBook (Option ℕ) → Result ValueError (Option ℕ)
with_cost (ok cost) = ok cost
with_cost (raised e) = raised (no_cost e)

-- What the UPDATE writes, apart from `finished_at`.
pub record Terminal : Type 0 where
  pub status : AttemptStatus
  pub actual_model : Option String
  pub input_tokens : Option ℕ
  pub output_tokens : Option ℕ
  pub cost : Option ℕ
  pub latency_ms : Option ℕ
  pub error_code : Option AttemptError

-- `_validate_terminal_values`, then the cost. `pending` is no terminal status.
unfoldable pub validate_terminal_values : ModelPrice → TerminalValues → Result ValueError Terminal
validate_terminal_values price v = if is_pending v.status then raised invalid_status else (do
  input ← valid_count invalid_input_tokens v.input_tokens
  output ← valid_count invalid_output_tokens v.output_tokens
  latency ← valid_count invalid_latency_ms v.latency_ms
  cost ← with_cost (estimate_cost price v.input_tokens v.output_tokens)
  ok (record {
    status = v.status;
    actual_model = v.actual_model;
    input_tokens = input;
    output_tokens = output;
    cost = cost;
    latency_ms = latency;
    error_code = v.error_code;
  }))

-- One try of the UPDATE: it fails, it commits at a time, or it commits and its acknowledgement is
-- lost.
pub data Try : Type 0 where
  failed : Try
  committed unacknowledged : ℕ → Try

-- The WHERE of the UPDATE of `finalize`.
abbrev pub is_open : ℕ → LlmUsageAttempt → Bool
is_open i row = (row.id == i) && is_pending row.status

abbrev pub settle : Terminal → ℕ → LlmUsageAttempt → LlmUsageAttempt
settle t now row = record {
  id = row.id;
  context = row.context;
  attempt_role = row.attempt_role;
  requested_model = row.requested_model;
  actual_model = t.actual_model;
  prompt_version = row.prompt_version;
  status = t.status;
  input_tokens = t.input_tokens;
  output_tokens = t.output_tokens;
  price = row.price;
  estimated_cost_cny = t.cost;
  latency_ms = t.latency_ms;
  error_code = t.error_code;
  started_at = row.started_at;
  finished_at = some now;
}

unfoldable pub update_attempt : ℕ → Terminal → ℕ → Ledger → Ledger
update_attempt i t now db = record {
  attempts = update_where (is_open i) (settle t now) db.attempts;
  next_id = db.next_id;
  notified = db.notified;
}

-- `result.rowcount == 1`
abbrev pub updates_one : ℕ → Ledger → Bool
updates_one i db = length (select (is_open i) db.attempts) == 1

-- `_notify_budget_evaluation`
abbrev pub notify : Bool → ℕ → Ledger → Ledger
notify false i db = db
notify true i db = record {
  attempts = db.attempts;
  next_id = db.next_id;
  notified = i ∷ db.notified;
}

-- After a try that has committed.
abbrev pub report : Bool → Bool → ℕ → Ledger → Bool × Ledger
report broker_up true i db = (true, notify broker_up i db)
report broker_up false i db = (false, db)

abbrev pub after_try : Bool → ℕ → Terminal → Try → (Ledger → Bool × Ledger) → Ledger → Bool × Ledger
after_try broker_up i t failed next db = next db
after_try broker_up i t (committed now) next db =
    report broker_up (updates_one i db) i (update_attempt i t now db)
after_try broker_up i t (unacknowledged now) next db = next (update_attempt i t now db)

-- The loop of `finalize`, with the number of tries left and what each of them meets.
unfoldable pub finalize_tries : Bool → ℕ → (ℕ → Try) → ℕ → Terminal → Ledger → Bool × Ledger
finalize_tries broker_up zero tries i t db = (false, db)
finalize_tries broker_up (suc left) tries i t db =
    after_try broker_up i t (tries left) (finalize_tries broker_up left tries i t) db

abbrev pub finalize_valid :
    Bool → ℕ → (ℕ → Try) → ℕ → Result ValueError Terminal → Ledger → Bool × Ledger
finalize_valid broker_up retries tries i (raised e) db = (false, db)
finalize_valid broker_up retries tries i (ok t) db = finalize_tries broker_up retries tries i t db

unfoldable pub finalize :
    Bool → ℕ → (ℕ → Try) → UsageAttemptHandle → TerminalValues → Ledger → Bool × Ledger
finalize broker_up retries tries handle v db =
    finalize_valid broker_up retries tries handle.attempt_id
      (validate_terminal_values handle.price v) db

abbrev pub is_stale : ℕ → LlmUsageAttempt → Bool
is_stale older_than row = is_pending row.status && ltb row.started_at older_than

abbrev pub abandon : ℕ → LlmUsageAttempt → LlmUsageAttempt
abandon now row = record {
  id = row.id;
  context = row.context;
  attempt_role = row.attempt_role;
  requested_model = row.requested_model;
  actual_model = row.actual_model;
  prompt_version = row.prompt_version;
  status = abandoned;
  input_tokens = row.input_tokens;
  output_tokens = row.output_tokens;
  price = row.price;
  estimated_cost_cny = row.estimated_cost_cny;
  latency_ms = row.latency_ms;
  error_code = some usage_finalization_missing;
  started_at = row.started_at;
  finished_at = some now;
}

abbrev pub row_id : LlmUsageAttempt → ℕ
row_id row = row.id

unfoldable pub abandon_stale_attempts : ℕ → ℕ → Ledger → List ℕ × Ledger
abandon_stale_attempts now older_than db = (
  map row_id (select (is_stale older_than) db.attempts),
  record {
    attempts = update_where (is_stale older_than) (abandon now) db.attempts;
    next_id = db.next_id;
    notified = db.notified;
  },
)
