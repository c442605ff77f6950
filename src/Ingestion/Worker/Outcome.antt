-- ===== src/Ingestion/Worker/Outcome.antt =====
-- How a job stands after the worker.
use smart_screen_agent.Prelude.{
  ℕ, ◌≡◌, refl, sym, ap, subst, ◌∙◌, Bool, true, false, String, Option, none, some, arith, Result,
  ok, raised, find_first, find_first-update_where, find_first-weaken, ◌⊎◌, inl, inr, ==_iff,
  All-Unit, All-find_first, if◌then◌else◌,
}
use smart_screen_agent.Ingestion.States.{
  IngestionState, parsing, extracting, ready, scoring, completed, retryable_failed, terminal_failed,
  is, is_processing, may_move,
}
use smart_screen_agent.Ingestion.Jobs.{
  IngestionJob, Jobs, claim, claimed, moved, save, is_claimable,
}
use smart_screen_agent.Ingestion.Claim.{is_claimable→eqs, transition_allowed, claim-cases}
use smart_screen_agent.Ingestion.Worker.{
  ErrorClass, other, Action, continue, committed, advance, Attempt, obtain_candidate, finish,
  run_job, has_id, fail_job, failure, settle, fail_found, terminal_errors, retryable_errors,
  parse_and_score_task,
}

-- What holds when an action returns, and when it raises.
abbrev Ends :
    {A : Type 0} → (A → Jobs → Type 0) → (Jobs → Type 0) → Result ErrorClass A × Jobs → Type 0
Ends post fault (ok a, t) = post a t
Ends post fault (raised e, t) = fault t

Ends-continue :
    {A B : Type 0} (p : A → Jobs → Type 0) (q : B → Jobs → Type 0) (fault : Jobs → Type 0)
    (f : A → Action B) (r : Result ErrorClass A × Jobs)
    → Ends p fault r
    → ((a : A) (t : Jobs) → p a t → Ends q fault (f a t))
    → Ends q fault (continue f r)
Ends-continue p q fault f (ok a, t) h k = k a t h
Ends-continue p q fault f (raised e, t) h k = h

-- A job that the worker has left: it is at its end, or waits for the sweeper.
abbrev pub IsLeft : IngestionState → Type 0
IsLeft s = (s ≡ ready) ⊎ ((s ≡ completed) ⊎ ((s ≡ retryable_failed) ⊎ (s ≡ terminal_failed)))

module _ (i : ℕ) where
  -- The row of the job in the table, in a state of a kind.
  abbrev pub RowIn : (IngestionState → Type 0) → Jobs → Type 0
  RowIn P t = (j : IngestionJob) × (find_first (has_id i) t.rows ≡ some j) × P j.state

  abbrev Processing : IngestionState → Type 0
  Processing s = is_processing s ≡ true

  -- The worker's copy of the job agrees with its row.
  abbrev Holds : IngestionState → IngestionJob → Jobs → Type 0
  Holds s job t = (job.id ≡ i) × (job.state ≡ s) × RowIn (λ u. u ≡ s) t

  -- Writing a copy of the job over its row.
  save-Holds :
      (s : IngestionState) (job row : IngestionJob) (t : Jobs)
      → find_first (has_id i) t.rows ≡ some row
      → job.id ≡ i
      → job.state ≡ s
      → Holds s job (save job t)
  save-Holds s job row t found here now =
      let old = subst (λ k. find_first (has_id k) t.rows ≡ some row) (sym here) found in
      let written =
        find_first-update_where (has_id job.id) row job t.rows old
          ((==_iff job.id job.id).1 refl) in
      (
        here,
        now,
        (job, subst (λ k. find_first (has_id k) (save job t).rows ≡ some job) here written, now),
      )

  -- The row of a job that is held in a processing state is processed.
  row_processed :
      (s : IngestionState) (job : IngestionJob) (t : Jobs)
      → is_processing s ≡ true
      → Holds s job t
      → RowIn Processing t
  row_processed s job t p (_, _, (j, found, e)) = (j, found, rw e p)

  module _ {A B : Type 0} (q : B → Jobs → Type 0) where
    -- A call of something outside leaves the table; the rest is proved for every value of it.
    then-external :
        (s : IngestionState) (job : IngestionJob) (t : Jobs) (r : Result ErrorClass A)
        (f : A → Action B)
        → is_processing s ≡ true
        → Holds s job t
        → ((a : A) → Ends q (RowIn Processing) (f a t))
        → Ends q (RowIn Processing) (continue f (r, t))
    then-external s job t (ok a) f p h k = k a
    then-external s job t (raised e) f p h k = row_processed s job t p h

  -- A transition that the state machine allows returns, and the row follows.
  then-advance :
      {B : Type 0} (q : B → Jobs → Type 0) (s target : IngestionState) (at : ℕ) (job : IngestionJob)
      (t : Jobs) (f : IngestionJob → Action B)
      → may_move s target ≡ true
      → Holds s job t
      → ((j : IngestionJob) (u : Jobs) → Holds target j u → Ends q (RowIn Processing) (f j u))
      → Ends q (RowIn Processing) (continue f (advance target at job t))
  unfolding advance
  then-advance q s target at job t f may h k =
      let allowed = subst (λ u. may_move u target ≡ true) (sym h.1) may in
      let job' = moved target none at job in
      rw (transition_allowed target none at job t allowed, committed)
        (k job' (save job' t) (save-Holds target job' h.2.0 t h.2.1 h.0 refl))

  abbrev Obtained : IngestionJob × ℕ → Jobs → Type 0
  Obtained r = Holds extracting r.0

  obtain-Holds :
      (x : Attempt) (at : ℕ) (candidate : Option ℕ) (job : IngestionJob) (t : Jobs)
      → Holds parsing job t
      → Ends Obtained (RowIn Processing) (obtain_candidate x at candidate job t)
  unfolding obtain_candidate may_move
  obtain-Holds x at none job t h =
      then-external Obtained parsing job t x.download_verified _ refl h λ _.
        then-external Obtained parsing job t x.parse _ refl h λ markdown.
          then-advance Obtained parsing extracting at job t _ refl h λ j u h'.
            then-external Obtained extracting j u (x.extract markdown) _ refl h' λ extracted.
              then-external Obtained extracting j u (x.insert_or_reuse_candidate markdown extracted)
                _ refl h' λ candidate. h'
  obtain-Holds x at (some c) job t h =
      then-external Obtained parsing job t (if x.candidate_exists c then ok tt else raised other) _
        refl h
        λ _.
          let now : is parsing job.state ≡ true = ap (is parsing) h.1 in
          rw now (then-advance Obtained parsing extracting at job t _ refl h λ j u h'. h')

  abbrev Finished : Unit {0} → Jobs → Type 0
  Finished _ = RowIn (λ s. (s ≡ ready) ⊎ (s ≡ completed))

  finish-Finished :
      (x : Attempt) (at : ℕ) (active : Bool) (job : IngestionJob) (candidate : ℕ) (t : Jobs)
      → Holds extracting job t
      → Ends Finished (RowIn Processing) (finish x at active job candidate t)
  unfolding finish may_move
  finish-Finished x at true job candidate t h =
      then-advance Finished extracting scoring at job t _ refl h λ j u h'.
        then-external Finished scoring j u (x.score candidate) _ refl h' λ score.
          then-advance Finished scoring completed at (record j { score_id = some score }) u _ refl
            h' λ j' u' h''. (h''.2.0, h''.2.1, inr h''.2.2)
  finish-Finished x at false job candidate t h =
      then-advance Finished extracting ready at job t _ refl h
        λ j u h'. (h'.2.0, h'.2.1, inl h'.2.2)

  run_job-Finished :
      (x : Attempt) (at : ℕ) (job : IngestionJob) (t : Jobs)
      → Holds parsing job t
      → Ends Finished (RowIn Processing) (run_job x at job t)
  unfolding run_job
  run_job-Finished x at job t h =
      Ends-continue Obtained Finished (RowIn Processing)
        (λ r. finish x at x.jd_has_active_rule r.0 r.1)
        (obtain_candidate x at job.candidate_id job t) (obtain-Holds x at job.candidate_id job t h)
        (λ r u h'. finish-Finished x at x.jd_has_active_rule r.0 r.1 u h')

  failure-target :
      (s : IngestionState) (e : ErrorClass)
      → is_processing s ≡ true
      → let target = (failure (terminal_errors e) (retryable_errors e)).0 in
        (may_move s target ≡ true) × ((target ≡ retryable_failed) ⊎ (target ≡ terminal_failed))
  unfolding terminal_errors retryable_errors may_move
  failure-target s e h = ground arith

  fail_found-RowIn :
      (at : ℕ) (target : IngestionState) (code : String) (j : IngestionJob) (t : Jobs)
      → find_first (has_id i) t.rows ≡ some j
      → may_move j.state target ≡ true
      → (target ≡ retryable_failed) ⊎ (target ≡ terminal_failed)
      → RowIn IsLeft (fail_found at (target, code) (some j) t)
  fail_found-RowIn at target code j t found may which =
      let mine = (All-find_first (λ _. Unit {0}) (has_id i) t.rows j (All-Unit t.rows) found).1 in
      let job' = moved target (some code) at j in
      let h = save-Holds target job' j t found ((==_iff j.id i).0 mine) refl in
      rw (transition_allowed target (some code) at j t may)
        (h.2.0, h.2.1, rw h.2.2 (inr (inr which)))

  fail_job-RowIn :
      (at : ℕ) (e : ErrorClass) (t : Jobs) → RowIn Processing t → RowIn IsLeft (fail_job at i e t)
  unfolding fail_job
  fail_job-RowIn at e t (j, found, p) =
      let f = failure (terminal_errors e) (retryable_errors e) in
      let (may, which) = failure-target j.state e p in
      rw found (fail_found-RowIn at f.0 f.1 j t found may which)

  settle-RowIn :
      (at : ℕ) (r : Result ErrorClass (Unit {0}) × Jobs)
      → Ends Finished (RowIn Processing) r
      → RowIn IsLeft (settle at i r)
  settle-RowIn at (ok _, t) (j, found, inl e) = (j, found, inl e)
  settle-RowIn at (ok _, t) (j, found, inr e) = (j, found, inr (inl e))
  settle-RowIn at (raised e, t) h = fail_job-RowIn at e t h

-- However the calls of an attempt go, the task leaves a job that it claims in one of four states:
-- ready, completed, or failed for good or until the sweeper; it never leaves it processing. (The
-- worker process is not killed meanwhile, which the sweeper is for, and the transactions of the job's
-- own states are committed.)
pub parse_and_score_task-IsLeft :
    (x : Attempt) (clock lease at : ℕ) (locked : ℕ → Bool) (i : ℕ) (t : Jobs) {j : IngestionJob}
    {t' : Jobs}
    → claim clock lease at locked i t ≡ ok (some j, t')
    → RowIn i IsLeft (parse_and_score_task x clock lease at locked i t)
unfolding parse_and_score_task
parse_and_score_task-IsLeft x clock lease at locked i t {j} {t'} h =
    elim (claim-cases clock lease at (λ _. Unit {0}) locked i t (All-Unit t.rows)) [
      | inl e ↦ absurd (cc (sym e ∙ h))
      | inr (j₀, _, same, _, found, e) ↦
          (let job = claimed clock lease at j₀ in
            let row =
              find_first-weaken (is_claimable locked i) (has_id i) t.rows j₀
                (λ r c. (==_iff r.id i).1 (is_claimable→eqs locked i r c).0) found in
            rw e (
              settle-RowIn i at (run_job x at job (save job t)) (
                run_job-Finished i x at job (save job t)
                  (save-Holds i parsing job row.0 t row.1 same refl))))
    ]
