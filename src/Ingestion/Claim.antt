-- ===== src/Ingestion/Claim.antt =====
-- What `claim` and `transition` of the job service do to the table.
use smart_screen_agent.Prelude.{
  ℕ, ◌<◌, ◌≡◌, ◌≢◌, refl, sym, ap, ◌⊎◌, inl, inr, Bool, true, false, String, Option, none, some,
  arith, ok, raised, ok_inj, subst, ◌∙◌, All, All-find_first, find_first, Bool-cases, Option-cases,
}
use smart_screen_agent.Ingestion.States.{
  IngestionState, queued, parsing, assert_transition, may_move,
}
use smart_screen_agent.Ingestion.Jobs.{
  IngestionJob, Jobs, claim, claimed, claim_found, is_claimable, transition, moved, save,
}
use smart_screen_agent.Ingestion.Invariant.{
  IsSound, AllSound, claimed-IsSound, moved-IsSound, save-AllSound,
}

pub is_claimable→eqs :
    (locked : ℕ → Bool) (job_id : ℕ) (j : IngestionJob)
    → is_claimable locked job_id j ≡ true
    → (j.id ≡ job_id) × (j.state ≡ queued)
is_claimable→eqs locked job_id j h = ground arith

module _ (clock lease at : ℕ) where
  claim_found-queued :
      (j : IngestionJob) (t : Jobs)
      → j.state ≡ queued
      → claim_found clock lease at (some j) t
        ≡ ok (some (claimed clock lease at j), save (claimed clock lease at j) t)
  unfolding claim_found
  claim_found-queued j t q = rw q

  -- A claim does nothing at all, or it takes a queued row of the table.
  pub claim-cases :
      (P : IngestionJob → Type 0) (locked : ℕ → Bool) (job_id : ℕ) (t : Jobs)
      → All P t.rows
      → (claim clock lease at locked job_id t ≡ ok (none, t))
        ⊎ ((j : IngestionJob) × P j
            × (j.id ≡ job_id)
            × (j.state ≡ queued)
            × (find_first (is_claimable locked job_id) t.rows ≡ some j)
            × (claim clock lease at locked job_id t
                ≡ ok (some (claimed clock lease at j), save (claimed clock lease at j) t)))
  unfolding claim
  claim-cases P locked job_id t h =
      elim (Option-cases (find_first (is_claimable locked job_id) t.rows)) [
        | inl e ↦ inl (rw e (unfold claim_found in refl))
        | inr (j, e) ↦
            (let (p, c) = All-find_first P (is_claimable locked job_id) t.rows j h e in
              let (i, q) = is_claimable→eqs locked job_id j c in
              inr (j, p, i, q, e, rw e (claim_found-queued j t q)))
      ]

  -- A claim is never refused by the state machine: it returns, and keeps every job sound, with a lease
  -- exactly while it is processed and attempts within the limit.
  pub claim-AllSound :
      (limit : ℕ) (locked : ℕ → Bool) (job_id : ℕ) (t : Jobs)
      → AllSound limit t.rows
      → (r : Option IngestionJob) × (t' : Jobs) × (claim clock lease at locked job_id t
          ≡ ok (r, t'))
        × AllSound limit t'.rows
  claim-AllSound limit locked job_id t h = elim (claim-cases (IsSound limit) locked job_id t h) [
    | inl e ↦ (none, t, e, h)
    | inr (j, s, i, q, _, e) ↦ (
      some (claimed clock lease at j),
      save (claimed clock lease at j) t,
      e,
      save-AllSound limit _ t (claimed-IsSound limit clock lease at j s q) h,
    )
  ]

module _ (target : IngestionState) (code : Option String) (at : ℕ) (job : IngestionJob)
    (t : Jobs) where
  pub transition_refused :
      may_move job.state target ≡ false
      → raised (record { current = job.state; target = target }) ≡ transition target code at job t
  unfolding transition
  transition_refused h = rw (h, assert_transition)

  pub transition_allowed :
      may_move job.state target ≡ true
      → transition target code at job t
        ≡ ok (moved target code at job, save (moved target code at job) t)
  unfolding transition
  transition_allowed h = rw (h, assert_transition)

-- A transition that is not refused keeps every job sound, if its target is not `parsing` and, where
-- it is `queued`, the job has an attempt left.
pub transition-AllSound :
    (limit at : ℕ) (target : IngestionState) (code : Option String) (job : IngestionJob) (t : Jobs)
    {job' : IngestionJob} {t' : Jobs}
    → IsSound limit job
    → AllSound limit t.rows
    → target ≢ parsing
    → (target ≡ queued → job.attempts < limit)
    → transition target code at job t ≡ ok (job', t')
    → IsSound limit job' × AllSound limit t'.rows
transition-AllSound limit at target code job t {job'} {t'} s h np room e =
    elim (Bool-cases (may_move job.state target)) [
      | inr c ↦ absurd (cc (transition_refused target code at job t c ∙ e))
      | inl c ↦
          (let p = ok_inj (sym (transition_allowed target code at job t c) ∙ e) in
            let m = moved-IsSound limit at target code job s c np room in
            (
              subst (IsSound limit) (ap (λ r. r.0) p) m,
              subst (λ u. AllSound limit u.rows) (ap (λ r. r.1) p)
                  (save-AllSound limit (moved target code at job) t m h),
            ))
    ]
