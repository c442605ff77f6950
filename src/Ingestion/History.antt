-- ===== src/Ingestion/History.antt =====
-- Histories of the queue: the transactions of submissions, workers and sweepers in the order in
-- which they commit.
use smart_screen_agent.Prelude.{
  ℕ, ◌<◌, ◌≡◌, ◌≢◌, refl, sym, subst, String, Bool, Option, none, some, List, [], ◌∷◌, Result, ok,
  raised, true, false, update_where, All, ◌∙◌, inl, inr, arith, Bool-cases,
}
use smart_screen_agent.Ingestion.States.{
  IngestionState, queued, parsing, extracting, ready, scoring, completed, retryable_failed,
  terminal_failed, InvalidTransition, is_processing, may_move,
}
use smart_screen_agent.Ingestion.Jobs.{
  IngestionJob, Jobs, Submission, Interference, create_or_reuse, claim, transition,
}
use smart_screen_agent.Ingestion.Sweeper.{Query, SweepReport, sweep}
use smart_screen_agent.Ingestion.Invariant.{
  AllSound, IsSound, sweep-AllSound, create_or_reuse-AllSound,
}
use smart_screen_agent.Ingestion.Claim.{claim-AllSound, transition_refused}
use smart_screen_agent.Ingestion.Worker.{has_id}

-- The targets that `run_job` and `_fail_job` give to `transition`.
pub data Target : Type 0 where
  to_extracting to_scoring to_ready to_completed to_retryable_failed to_terminal_failed : Target

abbrev pub state_of : Target → IngestionState
state_of to_extracting = extracting
state_of to_scoring = scoring
state_of to_ready = ready
state_of to_completed = completed
state_of to_retryable_failed = retryable_failed
state_of to_terminal_failed = terminal_failed

-- A transaction, with the arguments that its caller and the clocks choose. A worker moves the copy of
-- the job that it has kept since its claim (`expire_on_commit` is off), whatever the row is now.
pub data Transaction : Type 0 where
  submit : Submission → ℕ → Transaction
  start : (clock lease_seconds at : ℕ) → (ℕ → Bool) → ℕ → Transaction
  move : IngestionJob → Target → Option String → ℕ → Transaction
  recover : (now at stale_seconds : ℕ) → (Query → ℕ → Bool) → Transaction

-- No other transaction commits within a submission; they are the other steps of the history.
abbrev pub alone : Interference
alone = record { before_insert = λ t. t; before_reread = λ t. t }

abbrev pub claimed_table : Result InvalidTransition (Option IngestionJob × Jobs) → Jobs → Jobs
claimed_table (ok (_, t')) t = t'
claimed_table (raised _) t = t

abbrev flushed_lease : Bool → Option ℕ → Option ℕ → Option ℕ
flushed_lease true held lease = lease
flushed_lease false none lease = lease
flushed_lease false (some l) lease = none

-- The UPDATE of a flush writes the columns that have changed in the copy.
unfoldable pub flushed :
    IngestionState → Option String → ℕ → IngestionJob → IngestionJob → IngestionJob
flushed target code at held row = record row {
  state = target;
  last_error_code = elim code [ none ↦ row.last_error_code | some c ↦ some c ];
  lease_expires_at =
      flushed_lease (is_processing target) held.lease_expires_at row.lease_expires_at;
  updated_at = at;
}

abbrev pub moved_table :
    IngestionJob
    → IngestionState
    → Option String
    → ℕ
    → Jobs
    → Result InvalidTransition (IngestionJob × Jobs)
    → Jobs
moved_table held target code at t (raised _) = t
moved_table held target code at t (ok _) = record t {
  rows = update_where (has_id held.id) (flushed target code at held) t.rows;
}

abbrev swept_table : Option (SweepReport × List IngestionJob) → Jobs → Jobs
swept_table none t = t
swept_table (some (_, rows)) t = record t { rows = rows }

unfoldable pub commit : ℕ → Transaction → Jobs → Jobs
commit limit (submit s at) t = (create_or_reuse alone s at t).1
commit limit (start clock lease at locked i) t = claimed_table (claim clock lease at locked i t) t
commit limit (move held target code at) t =
    moved_table held (state_of target) code at t (transition (state_of target) code at held t)
commit limit (recover now at stale locked) t =
    swept_table (sweep now at limit stale locked t.rows) t

unfoldable pub history : ℕ → List Transaction → Jobs → Jobs
history limit [] t = t
history limit (x ∷ xs) t = history limit xs (commit limit x t)

not_parsing : (x : Target) → state_of x ≢ parsing
not_parsing to_extracting = λ e. cc e
not_parsing to_scoring = λ e. cc e
not_parsing to_ready = λ e. cc e
not_parsing to_completed = λ e. cc e
not_parsing to_retryable_failed = λ e. cc e
not_parsing to_terminal_failed = λ e. cc e

pub not_queued : (x : Target) → state_of x ≢ queued
not_queued to_extracting = λ e. cc e
not_queued to_scoring = λ e. cc e
not_queued to_ready = λ e. cc e
not_queued to_completed = λ e. cc e
not_queued to_retryable_failed = λ e. cc e
not_queued to_terminal_failed = λ e. cc e

-- The copy that a worker moves is the row as it is.
abbrev pub IsCurrent : Transaction → Jobs → Type 0
IsCurrent (move held target code at) t = All (λ row. has_id held.id row ≡ true → row ≡ held) t.rows
IsCurrent _ t = Unit {0}

-- No worker moves a job that has changed since the worker wrote it last, such as one that a sweep has
-- taken from it.
unfoldable pub Undisturbed : ℕ → List Transaction → Jobs → Type 0
Undisturbed limit [] t = Unit {0}
Undisturbed limit (x ∷ xs) t = IsCurrent x t × Undisturbed limit xs (commit limit x t)

shut_lease :
    (limit at : ℕ) (target : IngestionState) (code : Option String) (j : IngestionJob)
    → IsSound limit j
    → is_processing target ≡ false
    → target ≢ queued
    → IsSound limit (flushed target code at j j)
unfolding flushed
shut_lease limit at target code j s idle ne = record {
  lease_held = λ e. absurd (cc (sym idle ∙ e));
  lease_free = λ _. rw idle (none_left j.lease_expires_at);
  within = s.within;
  has_room = λ e. absurd (ne e);
}
  where
    none_left : (l : Option ℕ) → flushed_lease false l l ≡ none
    none_left none = refl
    none_left (some l) = refl

flushed-IsSound :
    (limit at : ℕ) (target : Target) (code : Option String) (j : IngestionJob)
    → IsSound limit j
    → may_move j.state (state_of target) ≡ true
    → IsSound limit (flushed (state_of target) code at j j)
unfolding flushed may_move
flushed-IsSound limit at to_extracting code j s m = ground arith
flushed-IsSound limit at to_scoring code j s m = ground arith
flushed-IsSound limit at to_ready code j s m = shut_lease limit at ready code j s refl (λ e. cc e)
flushed-IsSound limit at to_completed code j s m =
    shut_lease limit at completed code j s refl (λ e. cc e)
flushed-IsSound limit at to_retryable_failed code j s m =
    shut_lease limit at retryable_failed code j s refl (λ e. cc e)
flushed-IsSound limit at to_terminal_failed code j s m =
    shut_lease limit at terminal_failed code j s refl (λ e. cc e)

moved_table-AllSound :
    (limit at : ℕ) (target : Target) (code : Option String) (held : IngestionJob) (t : Jobs)
    (r : Result InvalidTransition (IngestionJob × Jobs))
    → transition (state_of target) code at held t ≡ r
    → All (λ row. has_id held.id row ≡ true → row ≡ held) t.rows
    → AllSound limit t.rows
    → AllSound limit (moved_table held (state_of target) code at t r).rows
moved_table-AllSound limit at target code held t (raised _) e same h = h
moved_table-AllSound limit at target code held t (ok (j, t')) e same h =
    elim (Bool-cases (may_move held.state (state_of target))) [
      | inr c ↦ absurd (cc (transition_refused (state_of target) code at held t c ∙ e))
      | inl c ↦ flushed_rows c t.rows same h
    ]
  where
    flushed_rows :
        may_move held.state (state_of target) ≡ true
        → (rows : List IngestionJob) → All (λ row. has_id held.id row ≡ true → row ≡ held) rows
        → AllSound limit rows
        → AllSound limit
            (update_where (has_id held.id) (flushed (state_of target) code at held) rows)
    flushed_rows c [] same h = tt
    flushed_rows c (row ∷ rows) (is_held, same) (s, h) = elim (Bool-cases (has_id held.id row)) [
      | inr miss ↦ rw miss (s, flushed_rows c rows same h)
      | inl hit ↦
          let eq = is_held hit in
          rw hit (
            subst (λ x. IsSound limit (flushed (state_of target) code at held x)) (sym eq)
                (flushed-IsSound limit at target code held (subst (IsSound limit) eq s) c),
            flushed_rows c rows same h,
          )
    ]

swept_table-AllSound :
    (limit now at stale : ℕ) (locked : Query → ℕ → Bool) (t : Jobs)
    (r : Option (SweepReport × List IngestionJob))
    → sweep now at limit stale locked t.rows ≡ r
    → AllSound limit t.rows
    → AllSound limit (swept_table r t).rows
swept_table-AllSound limit now at stale locked t none e h = h
swept_table-AllSound limit now at stale locked t (some (report, rows)) e h =
    sweep-AllSound now at limit stale locked t.rows h e

commit-AllSound :
    (limit : ℕ) (x : Transaction) (t : Jobs)
    → 0 < limit
    → IsCurrent x t
    → AllSound limit t.rows
    → AllSound limit (commit limit x t).rows
unfolding commit
commit-AllSound limit (submit s at) t pos now h =
    create_or_reuse-AllSound limit alone (λ _ q. q) (λ _ q. q) s at t pos h
commit-AllSound limit (start clock lease at locked i) t pos now h =
    let (r, t', e, s) = claim-AllSound clock lease at limit locked i t h in
    subst (λ z. AllSound limit (claimed_table z t).rows) (sym e) s
commit-AllSound limit (move held target code at) t pos now h =
    moved_table-AllSound limit at target code held t (transition (state_of target) code at held t)
      refl now h
commit-AllSound limit (recover now at stale locked) t pos _ h =
    swept_table-AllSound limit now at stale locked t (sweep now at limit stale locked t.rows) refl h

-- However submissions, workers and sweepers interleave, with one positive limit of attempts and as
-- long as no worker moves a job that has changed since it wrote it last, a sound queue stays sound: a
-- job has a lease exactly while it is processed, has used no more attempts than the limit, and has
-- one left while it is queued.
pub history-AllSound :
    (limit : ℕ) (xs : List Transaction) (t : Jobs)
    → 0 < limit
    → Undisturbed limit xs t
    → AllSound limit t.rows
    → AllSound limit (history limit xs t).rows
unfolding history Undisturbed
history-AllSound limit [] t pos calm h = h
history-AllSound limit (x ∷ xs) t pos (now, calm) h =
    history-AllSound limit xs (commit limit x t) pos calm (commit-AllSound limit x t pos now h)
