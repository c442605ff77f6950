-- ===== src/Ingestion/Redelivery.antt =====
-- A second message for a job that a worker has claimed.
use smart_screen_agent.Prelude.{
  ℕ, ◌<◌, ◌≡◌, ◌≢◌, String, refl, sym, ap, subst, ◌∙◌, inl, inr, Bool, Option, none, some, List, [],
  ◌∷◌, arith, All, All-append, All-update_where, All-Unit, find_first, update_where, ok, raised,
  Result, ok_inj, ◌==◌, Bool-cases,
}
use smart_screen_agent.Ingestion.States.{queued, InvalidTransition}
use smart_screen_agent.Ingestion.Jobs.{
  IngestionJob, Jobs, Submission, insert_unless, insert_queued, unless_active, after_insert, reread,
  create_or_reuse, find_active_by_sha256, claim, claim_found, claimed, is_claimable, transition,
  save,
}
use smart_screen_agent.Ingestion.Claim.{claim-cases}
use smart_screen_agent.Ingestion.Worker.{has_id}
use smart_screen_agent.Ingestion.History.{
  Transaction, submit, start, move, recover, Target, state_of, flushed, alone, claimed_table,
  moved_table, commit, history, not_queued,
}

-- The job of this id, if it is there, is not queued.
abbrev NotWaiting : ℕ → IngestionJob → Type 0
NotWaiting i row = row.id ≡ i → row.state ≢ queued

-- The id is taken, and no row of it is queued.
record IsTaken (i : ℕ) (t : Jobs) : Type 0 where
  used : i < t.next_id
  rows : All (NotWaiting i) t.rows

-- Any transaction of the queue but a sweep.
abbrev pub IsNoSweep : Transaction → Type 0
IsNoSweep (recover now at stale locked) = ⊥
IsNoSweep _ = Unit {0}

saved-NotWaiting :
    (job : IngestionJob) (rows : List IngestionJob)
    → job.state ≢ queued
    → All (NotWaiting job.id) (update_where (λ j. j.id == job.id) (λ _. job) rows)
saved-NotWaiting job [] ne = tt
saved-NotWaiting job (j ∷ rows) ne = elim (Bool-cases (j.id == job.id)) [
  | inl e ↦ rw e ((λ _. ne), saved-NotWaiting job rows ne)
  | inr e ↦ rw e ((λ same. absurd (ground (arith, e, same))), saved-NotWaiting job rows ne)
]

module _ (i : ℕ) where
  save-IsTaken :
      (job : IngestionJob) (t : Jobs) → job.state ≢ queued → IsTaken i t → IsTaken i (save job t)
  save-IsTaken job t ne h = record {
    used = h.used;
    rows =
        All-update_where (NotWaiting i) (λ j. j.id == job.id) (λ _. job) t.rows (λ _ _ _ _. ne)
          h.rows;
  }

  insert-IsTaken :
      (found : Option IngestionJob) (s : Submission) (at : ℕ) (t : Jobs)
      → IsTaken i t
      → IsTaken i (insert_unless found s at t).1
  insert-IsTaken none s at t h = record {
    used = omega (arith, h.used);
    rows =
        All-append (NotWaiting i) t.rows _ h.rows
          ((λ same. absurd (omega (arith, h.used, same))), tt);
  }
  insert-IsTaken (some j) s at t h = record { used = omega (arith, h.used); rows = h.rows }

  reread-IsTaken :
      (found : Option IngestionJob) (t : Jobs) → IsTaken i t → IsTaken i (reread found t).1
  reread-IsTaken none t h = h
  reread-IsTaken (some j) t h = h

  submitted-IsTaken :
      (found : Option IngestionJob) (s : Submission) (at : ℕ) (t : Jobs)
      → IsTaken i t
      → IsTaken i (unless_active found alone s at t).1
  unfolding insert_queued
  submitted-IsTaken (some j) s at t h = h
  submitted-IsTaken none s at t h =
      after (insert_queued s at t)
        (insert-IsTaken (find_active_by_sha256 s.raw_file.sha256 t) s at t h)
    where
      after :
          (r : Option IngestionJob × Jobs)
          → IsTaken i r.1
          → IsTaken i (after_insert alone s.raw_file.sha256 r).1
      after (some j, u) k = k
      after (none, u) k = reread-IsTaken (find_active_by_sha256 s.raw_file.sha256 u) u k

  moved-IsTaken :
      (held : IngestionJob) (target : Target) (code : Option String) (at : ℕ) (t : Jobs)
      (r : Result InvalidTransition (IngestionJob × Jobs))
      → IsTaken i t
      → IsTaken i (moved_table held (state_of target) code at t r)
  unfolding flushed
  moved-IsTaken held target code at t (raised e) h = h
  moved-IsTaken held target code at t (ok r) h = record {
    used = h.used;
    rows =
        All-update_where (NotWaiting i) (has_id held.id) (flushed (state_of target) code at held)
          t.rows (λ _ _ _ _. not_queued target) h.rows;
  }

  commit-IsTaken :
      (limit : ℕ) (x : Transaction) (t : Jobs)
      → IsNoSweep x
      → IsTaken i t
      → IsTaken i (commit limit x t)
  unfolding commit create_or_reuse
  commit-IsTaken limit (submit s at) t calm h =
      submitted-IsTaken (find_active_by_sha256 s.raw_file.sha256 t) s at t h
  commit-IsTaken limit (start clock lease at locked k) t calm h =
      elim (claim-cases clock lease at (λ _. Unit {0}) locked k t (All-Unit t.rows)) [
        | inl e ↦ subst (λ r. IsTaken i (claimed_table r t)) (sym e) h
        | inr (j, _, _, q, _, e) ↦
            subst (λ r. IsTaken i (claimed_table r t)) (sym e)
              (save-IsTaken (claimed clock lease at j) t (λ p. cc p) h)
      ]
  commit-IsTaken limit (move held target code at) t calm h =
      moved-IsTaken held target code at t (transition (state_of target) code at held t) h
  commit-IsTaken limit (recover now at stale locked) t none_here h = absurd none_here

  history-IsTaken :
      (limit : ℕ) (xs : List Transaction) (t : Jobs)
      → All IsNoSweep xs
      → IsTaken i t
      → IsTaken i (history limit xs t)
  unfolding history
  history-IsTaken limit [] t calm h = h
  history-IsTaken limit (x ∷ xs) t (one, calm) h =
      history-IsTaken limit xs (commit limit x t) calm (commit-IsTaken limit x t one h)

  none_waits :
      (locked : ℕ → Bool) (rows : List IngestionJob)
      → All (NotWaiting i) rows
      → find_first (is_claimable locked i) rows ≡ none
  none_waits locked [] h = refl
  none_waits locked (j ∷ rows) (ne, h) = ground (arith, ne, none_waits locked rows h)

  taken_stays :
      (clock lease at : ℕ) (locked : ℕ → Bool) (t : Jobs)
      → IsTaken i t
      → claim clock lease at locked i t ≡ ok (none, t)
  unfolding claim claim_found
  taken_stays clock lease at locked t h = rw (none_waits locked t.rows h.rows)

-- Once a job is claimed, a second message for it finds nothing and changes nothing, after whatever
-- submissions, claims and moves of workers have been committed meanwhile, as long as no sweep has.
pub claim-history-claim :
    (limit clock lease at clock' lease' at' : ℕ) (locked locked' : ℕ → Bool) (job_id : ℕ)
    (xs : List Transaction) (t : Jobs) {j : IngestionJob} {t' : Jobs}
    → claim clock lease at locked job_id t ≡ ok (some j, t')
    → job_id < t.next_id
    → All IsNoSweep xs
    → claim clock' lease' at' locked' job_id (history limit xs t') ≡ ok (none, history limit xs t')
claim-history-claim limit clock lease at clock' lease' at' locked locked' job_id xs t {j} {t'} h
      below calm =
    taken_stays job_id clock' lease' at' locked' (history limit xs t')
      (history-IsTaken job_id limit xs t' calm taken)
  where
    taken : IsTaken job_id t'
    taken = elim (claim-cases clock lease at (λ _. Unit {0}) locked job_id t (All-Unit t.rows)) [
      | inl e ↦ absurd (cc (sym e ∙ h))
      | inr (j₀, _, same, q, _, e) ↦
          let j' = claimed clock lease at j₀ in
          subst (IsTaken job_id) (ap (λ p. p.1) (ok_inj (sym e ∙ h))) (record {
            used = below;
            rows =
                subst (λ k. All (NotWaiting k) (save j' t).rows) same
                  (saved-NotWaiting j' t.rows (λ p. cc p));
          })
    ]
