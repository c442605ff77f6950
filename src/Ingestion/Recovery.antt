-- ===== src/Ingestion/Recovery.antt =====
-- What one sweep of the ingestion jobs achieves.
use mathlib.Core.List.{map-map}
use smart_screen_agent.Prelude.{
  le→ltb, ℕ, ◌+◌, ◌-◌, ◌≤◌, ◌<◌, ◌≡◌, ◌≢◌, sym, subst, Bool, true, false, not, some, List, [], ◌∷◌,
  ◌++◌, map, arith, All, All-map, All-Unit, select, Rowwise, Rowwise-map, ◌==◌, ◌⊎◌, inl, inr,
  if◌then◌else◌,
}
use smart_screen_agent.Ingestion.States.{
  IngestionState, queued, retryable_failed, terminal_failed, may_move,
}
use smart_screen_agent.Ingestion.Jobs.{IngestionJob, seconds}
use smart_screen_agent.Ingestion.Sweeper.{
  Query, stuck_rows, retryable_rows, stranded_rows, SweepReport, is_stuck, is_retryable,
  is_exhausted, is_stranded, reclaim, retry, sweep, swept_rows, sweep_report, ids,
}
use smart_screen_agent.Ingestion.Invariant.{sweep-rows}

-- The states that one row passes through are joined by allowed transitions.
pub data Moves (s : IngestionState) : IngestionState → Type 0 where
  stay : Moves s s
  move : {t u : IngestionState} → Moves s t → may_move t u ≡ true → Moves s u

-- What a sweep may do to a row: allowed transitions, with its identity and attempts kept.
pub record Swept (j j' : IngestionJob) : Type 0 where
  pub moves : Moves j.state j'.state
  pub same_id : j'.id ≡ j.id
  pub same_attempts : j'.attempts ≡ j.attempts

reclaim-move :
    (now at : ℕ) (locked : ℕ → Bool) (j : IngestionJob)
    → ((reclaim now at locked j).state ≡ j.state)
      ⊎ (may_move j.state (reclaim now at locked j).state ≡ true)
unfolding reclaim may_move
reclaim-move now at locked j = ground arith

retry-move :
    (limit at : ℕ) (locked : ℕ → Bool) (j : IngestionJob)
    → ((retry limit at locked j).state ≡ j.state)
      ⊎ (may_move j.state (retry limit at locked j).state ≡ true)
unfolding retry may_move
retry-move limit at locked j = ground arith

-- A row that needs no recovery.
abbrev pub IsSettled : ℕ → IngestionJob → Type 0
IsSettled now j = (j.state ≢ retryable_failed) × (is_stuck now (λ _. false) j ≡ false)

-- What a sweep makes of a row: if it waits for a decision or its lease has run out, it ends at its
-- last attempt and is queued before that; else it stays.
pub record Decided (now limit : ℕ) (j j' : IngestionJob) : Type 0 where
  pub ended :
      (j.state ≡ retryable_failed) ⊎ (is_stuck now (λ _. false) j ≡ true)
      → limit ≤ j.attempts
      → j'.state ≡ terminal_failed
  pub requeued :
      (j.state ≡ retryable_failed) ⊎ (is_stuck now (λ _. false) j ≡ true)
      → j.attempts < limit
      → j'.state ≡ queued
  pub kept : j.state ≢ retryable_failed → is_stuck now (λ _. false) j ≡ false → j' ≡ j

swept-Decided :
    (now at limit : ℕ) (j : IngestionJob)
    → Decided now limit j (retry limit at (λ _. false) (reclaim now at (λ _. false) j))
unfolding reclaim retry
swept-Decided now at limit j = record {
  ended = ground arith;
  requeued = ground arith;
  kept = ground arith;
}

swept-IsSettled :
    (now at at' limit : ℕ) (j : IngestionJob)
    → IsSettled now (retry limit at' (λ _. false) (reclaim now at (λ _. false) j))
unfolding reclaim retry
swept-IsSettled now at at' limit j = ground arith

extend :
    {s t : IngestionState} (u : IngestionState)
    → Moves s t
    → (u ≡ t) ⊎ (may_move t u ≡ true)
    → Moves s u
extend {s} u m (inl e) = subst (Moves s) (sym e) m
extend u m (inr h) = move m h

Swept-row :
    (now at limit : ℕ) (locked : Query → ℕ → Bool) (j : IngestionJob)
    → Swept j (retry limit at (locked retryable_rows) (reclaim now at (locked stuck_rows) j))
unfolding reclaim retry
Swept-row now at limit locked j =
    let j' = reclaim now at (locked stuck_rows) j in
    let j'' = retry limit at (locked retryable_rows) j' in
    record {
      moves =
          extend j''.state (extend j'.state stay (reclaim-move now at (locked stuck_rows) j))
            (retry-move limit at (locked retryable_rows) j');
      same_id = ground arith;
      same_attempts = ground arith;
    }

-- Every row of a sweep goes by allowed transitions only, and keeps its id and its attempts.
pub sweep-Swept :
    (now at limit stale : ℕ) (locked : Query → ℕ → Bool) (rows : List IngestionJob)
    {r : SweepReport} {rows' : List IngestionJob}
    → sweep now at limit stale locked rows ≡ some (r, rows')
    → Rowwise Swept rows rows'
sweep-Swept now at limit stale locked rows e =
    rw (sweep-rows now at limit stale locked rows e)
      (unfold swept_rows in rw map-map (Rowwise-map Swept _ rows (Swept-row now at limit locked)))

-- A sweep whose cutoff is no instant before the calendar's first returns.
sweep_ends :
    (now at limit stale : ℕ) (locked : Query → ℕ → Bool) (rows : List IngestionJob)
    → seconds stale ≤ now
    → sweep now at limit stale locked rows
      ≡ some (
        sweep_report now at limit (now - seconds stale) locked rows,
        swept_rows now at limit locked rows,
      )
unfolding sweep
sweep_ends now at limit stale locked rows h = rw (le→ltb now (seconds stale) h)

-- With no row locked, one sweep leaves nothing to recover: no failed job waits for a decision, and
-- no lease has run out. Each job that waited, or whose lease had run out, has ended if it had used its
-- attempts, in this sweep and not the next, and is queued if not; every other is as it was.
pub sweep-IsSettled :
    (now at limit stale : ℕ) (rows : List IngestionJob)
    → seconds stale ≤ now
    → (r : SweepReport) × (rows' : List IngestionJob) × (sweep now at limit stale
          (λ _ _. false)
          rows
        ≡ some (r, rows'))
      × All (IsSettled now) rows'
      × Rowwise (Decided now limit) rows rows'
sweep-IsSettled now at limit stale rows h = (
  sweep_report now at limit (now - seconds stale) (λ _ _. false) rows,
  swept_rows now at limit (λ _ _. false) rows,
  sweep_ends now at limit stale (λ _ _. false) rows h,
  unfold swept_rows in
      rw map-map (
        All-map (λ _. Unit {0}) (IsSettled now) _ rows (λ j _. swept-IsSettled now at at limit j)
          (All-Unit rows)),
  unfold swept_rows in
      rw map-map (Rowwise-map (Decided now limit) _ rows (swept-Decided now at limit)),
)

-- How often a job is handed to the workers.
abbrev pub tally : ℕ → List ℕ → ℕ
tally k [] = 0
tally k (x ∷ xs) = (if x == k then 1 else 0) + tally k xs

tally-append : (k : ℕ) (xs ys : List ℕ) → tally k (xs ++ ys) ≡ tally k xs + tally k ys
tally-append k [] ys = omega arith
tally-append k (x ∷ xs) ys = omega (arith, tally-append k xs ys)

module _ (f g : IngestionJob → IngestionJob) (p q s : IngestionJob → Bool)
    (f_id : (j : IngestionJob) → (f j).id ≡ j.id) (g_id : (j : IngestionJob) → (g j).id ≡ j.id)
    (apart : (j : IngestionJob) → q (f j) ≡ true → p (f j) ≡ true → s (g (f j)) ≡ false) where
  -- Two selections that no row is in at once name every row at most once.
  tally_selections :
      (k : ℕ) (rows : List IngestionJob)
      → tally k (ids (select p (select q (map f rows))))
          + tally k (ids (select s (map g (map f rows))))
        ≤ tally k (ids rows)
  tally_selections k [] = omega arith
  tally_selections k (j ∷ rows) =
      ground (arith, f_id j, g_id (f j), apart j, tally_selections k rows)

reclaim-id :
    (now at : ℕ) (locked : ℕ → Bool) (j : IngestionJob) → (reclaim now at locked j).id ≡ j.id
unfolding reclaim
reclaim-id now at locked j = ground arith

retry-id :
    (limit at : ℕ) (locked : ℕ → Bool) (j : IngestionJob) → (retry limit at locked j).id ≡ j.id
unfolding retry
retry-id limit at locked j = ground arith

-- A row that is requeued now is too fresh to be stranded.
retry-is_stranded :
    (limit at cutoff : ℕ) (locked locked' : ℕ → Bool) (j : IngestionJob)
    → cutoff ≤ at
    → is_retryable locked j ≡ true
    → is_stranded cutoff locked' (retry limit at locked j) ≡ false
unfolding retry
retry-is_stranded limit at cutoff locked locked' j h r = ground arith

-- A sweep hands a job to the workers at most once for each row that has its id, so once if ids are
-- unique: no row is both requeued and found stranded, if the database's clock is not behind the
-- cutoff.
pub sweep_requeues_once :
    (now at limit stale : ℕ) (locked : Query → ℕ → Bool) (rows : List IngestionJob)
    → seconds stale ≤ now
    → now ≤ at + seconds stale
    → (r : SweepReport) × (rows' : List IngestionJob) × (sweep now at limit stale locked rows
        ≡ some (r, rows'))
      × ((k : ℕ) → tally k r.requeued ≤ tally k (ids rows))
sweep_requeues_once now at limit stale locked rows h fresh =
    let cutoff = now - seconds stale in
    (
      sweep_report now at limit cutoff locked rows,
      swept_rows now at limit locked rows,
      sweep_ends now at limit stale locked rows h,
      λ k.
          unfold sweep_report in
          rw tally-append (
            tally_selections (reclaim now at (locked stuck_rows))
              (retry limit at (locked retryable_rows)) (λ j. not (is_exhausted limit j))
              (is_retryable (locked retryable_rows)) (is_stranded cutoff (locked stranded_rows))
              (reclaim-id now at (locked stuck_rows)) (retry-id limit at (locked retryable_rows))
              (λ j r _.
                retry-is_stranded limit at cutoff (locked retryable_rows) (locked stranded_rows)
                  (reclaim now at (locked stuck_rows) j) (omega arith) r)
              k rows),
    )
