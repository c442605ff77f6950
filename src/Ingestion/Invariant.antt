-- ===== src/Ingestion/Invariant.antt =====
-- The invariant of a job, and that every operation of the job service and of the sweeper keeps it.
use smart_screen_agent.Prelude.{
  ℕ, ltb, subst, ap, sym, some_inj, ◌≢◌, ◌≤◌, ◌<◌, ◌≡◌, Bool, true, false, String, Option, none,
  some, List, map, arith, All, All-update_where, All-append, All-map, is_some, inl, inr, ◌==◌,
  Bool-cases,
}
use smart_screen_agent.Ingestion.States.{IngestionState, queued, parsing, is_processing, may_move}
use smart_screen_agent.Ingestion.Jobs.{
  IngestionJob, Jobs, Submission, Interference, new_job, insert_queued, create_or_reuse, claimed,
  moved, find_active_by_sha256, reread, save, insert_unless, after_insert, unless_active, seconds,
}
use smart_screen_agent.Ingestion.Sweeper.{
  Query, stuck_rows, retryable_rows, SweepReport, reclaim, retry, sweep, swept_rows,
}

-- A job holds a lease exactly while it is processed, and has used at most `limit` attempts; a
-- queued one has an attempt left.
pub record IsSound (limit : ℕ) (j : IngestionJob) : Type 0 where
  pub lease_held : is_processing j.state ≡ true → is_some j.lease_expires_at ≡ true
  pub lease_free : is_processing j.state ≡ false → j.lease_expires_at ≡ none
  pub within : j.attempts ≤ limit
  pub has_room : j.state ≡ queued → j.attempts < limit

abbrev pub AllSound : ℕ → List IngestionJob → Type 0
AllSound limit = All (IsSound limit)

reclaim-IsSound :
    (limit now at : ℕ) (locked : ℕ → Bool) (j : IngestionJob)
    → IsSound limit j
    → IsSound limit (reclaim now at locked j)
unfolding reclaim
reclaim-IsSound limit now at locked j h = ground arith

retry-IsSound :
    (limit at : ℕ) (locked : ℕ → Bool) (j : IngestionJob)
    → IsSound limit j
    → IsSound limit (retry limit at locked j)
unfolding retry
retry-IsSound limit at locked j h = ground arith

swept_rows-AllSound :
    (now at limit : ℕ) (locked : Query → ℕ → Bool) (rows : List IngestionJob)
    → AllSound limit rows
    → AllSound limit (swept_rows now at limit locked rows)
unfolding swept_rows
swept_rows-AllSound now at limit locked rows h =
    All-map (IsSound limit) (IsSound limit) (retry limit at (locked retryable_rows))
      (map (reclaim now at (locked stuck_rows)) rows)
      (retry-IsSound limit at (locked retryable_rows))
      (All-map (IsSound limit) (IsSound limit) (reclaim now at (locked stuck_rows)) rows
        (reclaim-IsSound limit now at (locked stuck_rows)) h)

-- A sweep that ends has swept every row.
pub sweep-rows :
    (now at limit stale : ℕ) (locked : Query → ℕ → Bool) (rows : List IngestionJob)
    {r : SweepReport} {rows' : List IngestionJob}
    → sweep now at limit stale locked rows ≡ some (r, rows')
    → rows' ≡ swept_rows now at limit locked rows
unfolding sweep
sweep-rows now at limit stale locked rows e = elim (Bool-cases (ltb now (seconds stale))) [
  | inl t ↦ absurd (cc (rw t at e))
  | inr t ↦ sym (ap (λ p. p.1) (some_inj (rw t at e)))
]

-- A sweep that returns keeps every job sound: a job has a lease exactly while it is processed, has
-- used no more attempts than the limit, and has one left while it is queued.
pub sweep-AllSound :
    (now at limit stale : ℕ) (locked : Query → ℕ → Bool) (rows : List IngestionJob)
    {r : SweepReport} {rows' : List IngestionJob}
    → AllSound limit rows
    → sweep now at limit stale locked rows ≡ some (r, rows')
    → AllSound limit rows'
sweep-AllSound now at limit stale locked rows h e =
    subst (AllSound limit) (sym (sweep-rows now at limit stale locked rows e))
      (swept_rows-AllSound now at limit locked rows h)

new_job-IsSound :
    (limit : ℕ) (s : Submission) (i at : ℕ) → 0 < limit → IsSound limit (new_job s i at)
new_job-IsSound limit s i at h = ground arith

insert_unless-AllSound :
    (limit : ℕ) (found : Option IngestionJob) (s : Submission) (at : ℕ) (t : Jobs)
    → 0 < limit
    → AllSound limit t.rows
    → AllSound limit (insert_unless found s at t).1.rows
insert_unless-AllSound limit none s at t pos h =
    All-append (IsSound limit) t.rows _ h (new_job-IsSound limit s t.next_id at pos, tt)
insert_unless-AllSound limit (some j) s at t pos h = h

module _ (limit : ℕ) (others : Interference)
    (calm₁ : (u : Jobs) → AllSound limit u.rows → AllSound limit (others.before_insert u).rows)
    (calm₂ : (u : Jobs)
      → AllSound limit u.rows
      → AllSound limit (others.before_reread u).rows) where
  reread-AllSound :
      (found : Option IngestionJob) (t : Jobs)
      → AllSound limit t.rows
      → AllSound limit (reread found t).1.rows
  reread-AllSound none t h = h
  reread-AllSound (some j) t h = h

  after_insert-AllSound :
      (sha : String) (r : Option IngestionJob × Jobs)
      → AllSound limit r.1.rows
      → AllSound limit (after_insert others sha r).1.rows
  after_insert-AllSound sha (some j, t) h = h
  after_insert-AllSound sha (none, t) h =
      reread-AllSound (find_active_by_sha256 sha (others.before_reread t)) _ (calm₂ t h)

  unless_active-AllSound :
      (found : Option IngestionJob) (s : Submission) (at : ℕ) (t : Jobs)
      → 0 < limit
      → AllSound limit t.rows
      → AllSound limit (unless_active found others s at t).1.rows
  unfolding insert_queued
  unless_active-AllSound (some j) s at t pos h = h
  unless_active-AllSound none s at t pos h =
      let u = others.before_insert t in
      after_insert-AllSound s.raw_file.sha256 (insert_queued s at u) (
        insert_unless-AllSound limit (find_active_by_sha256 s.raw_file.sha256 u) s at u pos
          (calm₁ t h))

  -- Taking a submission in keeps every job sound, if what other transactions commit meanwhile does and
  -- the limit of attempts is positive.
  pub create_or_reuse-AllSound :
      (s : Submission) (at : ℕ) (t : Jobs)
      → 0 < limit
      → AllSound limit t.rows
      → AllSound limit (create_or_reuse others s at t).1.rows
  unfolding create_or_reuse
  create_or_reuse-AllSound s at t pos h =
      unless_active-AllSound (find_active_by_sha256 s.raw_file.sha256 t) s at t pos h

pub claimed-IsSound :
    (limit clock lease at : ℕ) (j : IngestionJob)
    → IsSound limit j
    → j.state ≡ queued
    → IsSound limit (claimed clock lease at j)
claimed-IsSound limit clock lease at j h q = ground arith

pub moved-IsSound :
    (limit at : ℕ) (target : IngestionState) (code : Option String) (j : IngestionJob)
    → IsSound limit j
    → may_move j.state target ≡ true
    → target ≢ parsing
    → (target ≡ queued → j.attempts < limit)
    → IsSound limit (moved target code at j)
unfolding may_move
moved-IsSound limit at target code j h m np room = ground arith

pub save-AllSound :
    (limit : ℕ) (job : IngestionJob) (t : Jobs)
    → IsSound limit job
    → AllSound limit t.rows
    → AllSound limit (save job t).rows
save-AllSound limit job t s h =
    All-update_where (IsSound limit) (λ j. j.id == job.id) (λ _. job) t.rows (λ _ _ _. s) h
