-- ===== src/Ingestion/Sweeper.antt =====
-- backend/app/services/ingestion/sweeper.py: `sweep` reclaims jobs of dead workers, retries or ends
-- failed ones, and finds stranded ones. `locked q` says which rows another transaction holds while
-- query `q` runs. `none` is the OverflowError of a cutoff before `datetime.min`, whose transaction
-- is rolled back.
use smart_screen_agent.Prelude.{
  ℕ, ◌-◌, Bool, false, not, ◌&&◌, Option, none, some, List, ◌++◌, map, length, select, ltb, leb,
  is_some, if◌then◌else◌,
}
use smart_screen_agent.Ingestion.States.{
  queued, retryable_failed, terminal_failed, is, is_processing,
}
use smart_screen_agent.Ingestion.Jobs.{IngestionJob, seconds}

pub record SweepReport : Type 0 where
  pub reclaimed : ℕ
  pub requeued : List ℕ
  pub terminated : ℕ

pub data Query : Type 0 where
  stuck_rows retryable_rows stranded_rows : Query

abbrev pub expired : ℕ → Option ℕ → Bool
expired now none = false
expired now (some lease) = ltb lease now

-- The first SELECT.
abbrev pub is_stuck : ℕ → (ℕ → Bool) → IngestionJob → Bool
is_stuck now locked j = is_processing j.state && expired now j.lease_expires_at && not (locked j.id)

-- The body of the first loop, on every row.
unfoldable pub reclaim : ℕ → ℕ → (ℕ → Bool) → IngestionJob → IngestionJob
reclaim now at locked j =
    if is_stuck now locked j
    then record j { state = retryable_failed; lease_expires_at = none; updated_at = at }
    else j

-- The second SELECT.
abbrev pub is_retryable : (ℕ → Bool) → IngestionJob → Bool
is_retryable locked j = is retryable_failed j.state && not (locked j.id)

abbrev pub is_exhausted : ℕ → IngestionJob → Bool
is_exhausted max_attempts j = leb max_attempts j.attempts

-- The body of the second loop, on every row.
unfoldable pub retry : ℕ → ℕ → (ℕ → Bool) → IngestionJob → IngestionJob
retry max_attempts at locked j =
    if is_retryable locked j
    then (record j {
      state = if is_exhausted max_attempts j then terminal_failed else queued;
      updated_at = at;
    })
    else j

-- The third SELECT.
abbrev pub is_stranded : ℕ → (ℕ → Bool) → IngestionJob → Bool
is_stranded cutoff locked j =
    is queued j.state
    && not (is_some j.lease_expires_at)
    && ltb j.updated_at cutoff
    && not (locked j.id)

abbrev pub ids : List IngestionJob → List ℕ
ids = map (λ j. j.id)

-- The rows after the first two loops.
unfoldable pub swept_rows : ℕ → ℕ → ℕ → (Query → ℕ → Bool) → List IngestionJob → List IngestionJob
swept_rows now at max_attempts locked rows =
    map (retry max_attempts at (locked retryable_rows))
      (map (reclaim now at (locked stuck_rows)) rows)

unfoldable pub sweep_report : ℕ → ℕ → ℕ → ℕ → (Query → ℕ → Bool) → List IngestionJob → SweepReport
unfolding swept_rows
sweep_report now at max_attempts cutoff locked rows =
    let after_reclaim = map (reclaim now at (locked stuck_rows)) rows in
    let retryable = select (is_retryable (locked retryable_rows)) after_reclaim in
    let after_retry = swept_rows now at max_attempts locked rows in
    record {
      reclaimed = length (select (is_stuck now (locked stuck_rows)) rows);
      requeued =
          ids (select (λ j. not (is_exhausted max_attempts j)) retryable)
          ++ ids (select (is_stranded cutoff (locked stranded_rows)) after_retry);
      terminated = length (select (is_exhausted max_attempts) retryable);
    }

unfoldable pub sweep :
    ℕ
    → ℕ
    → ℕ
    → ℕ
    → (Query → ℕ → Bool)
    → List IngestionJob
    → Option (SweepReport × List IngestionJob)
sweep now at max_attempts queued_stale_seconds locked rows =
    let stale = seconds queued_stale_seconds in
    if ltb now stale
    then none
    else some (
      sweep_report now at max_attempts (now - stale) locked rows,
      swept_rows now at max_attempts locked rows,
    )
