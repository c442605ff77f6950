-- ===== src/Ingestion/Dedupe.antt =====
-- One active job for one file: what `create_or_reuse` guarantees under concurrent submissions.
use smart_screen_agent.Prelude.{
  ℕ, suc, ◌≤◌, ◌≡◌, ◌≢◌, refl, sym, ap, subst, ◌∙◌, Bool, false, String, Option, none, some, [],
  ◌∷◌, ◌++◌, arith, eq_iff, same_text, length, select, find_first, select-append,
  select_of_find_first, find_first-append, length-append, Bool-cases, Option-cases, inl, inr,
}
use smart_screen_agent.Ingestion.Jobs.{
  IngestionJob, Jobs, Submission, Interference, new_job, is_active_copy, find_active_by_sha256,
  insert_unless, insert_queued, reread, after_insert, unless_active, create_or_reuse,
}

-- The partial unique index: one file has at most one job that is not at an end.
abbrev pub OneActive : Jobs → Type 0
OneActive t = (sha : String) → length (select (is_active_copy sha) t.rows) ≤ 1

insert_free :
    (s : Submission) (at : ℕ) (t : Jobs) (sha : String)
    → find_active_by_sha256 s.raw_file.sha256 t ≡ none
    → OneActive t
    → length (select (is_active_copy sha) (t.rows ++ new_job s t.next_id at ∷ [])) ≤ 1
unfolding find_active_by_sha256
insert_free s at t sha free one = elim (Bool-cases (same_text s.raw_file.sha256 sha)) [
  | inl e ↦
      (let gone =
          subst (λ k. find_first (is_active_copy k) t.rows ≡ none)
            ((eq_iff s.raw_file.sha256 sha).0 e) free in
        rw (select-append, length-append, e)
          (omega (arith, ap length (select_of_find_first (is_active_copy sha) t.rows gone))))
  | inr e ↦ rw (select-append, length-append, e) (omega (arith, one sha))
]

insert_unless-OneActive :
    (found : Option IngestionJob) (s : Submission) (at : ℕ) (t : Jobs)
    → find_active_by_sha256 s.raw_file.sha256 t ≡ found
    → OneActive t
    → OneActive (insert_unless found s at t).1
insert_unless-OneActive none s at t e one = λ sha. insert_free s at t sha e one
insert_unless-OneActive (some j) s at t e one = one

module _ (others : Interference)
    (calm₁ : (u : Jobs) → OneActive u → OneActive (others.before_insert u))
    (calm₂ : (u : Jobs) → OneActive u → OneActive (others.before_reread u)) where
  reread-OneActive :
      (found : Option IngestionJob) (t : Jobs) → OneActive t → OneActive (reread found t).1
  reread-OneActive none t one = one
  reread-OneActive (some j) t one = one

  after_insert-OneActive :
      (sha : String) (r : Option IngestionJob × Jobs)
      → OneActive r.1
      → OneActive (after_insert others sha r).1
  after_insert-OneActive sha (some j, t) one = one
  after_insert-OneActive sha (none, t) one =
      let u = others.before_reread t in
      reread-OneActive (find_active_by_sha256 sha u) u (calm₂ t one)

  unless_active-OneActive :
      (found : Option IngestionJob) (s : Submission) (at : ℕ) (t : Jobs)
      → OneActive t
      → OneActive (unless_active found others s at t).1
  unfolding insert_queued
  unless_active-OneActive (some j) s at t one = one
  unless_active-OneActive none s at t one =
      let u = others.before_insert t in
      after_insert-OneActive s.raw_file.sha256 (insert_queued s at u) (
        insert_unless-OneActive (find_active_by_sha256 s.raw_file.sha256 u) s at u refl
          (calm₁ t one))

  -- No two active jobs have the same file, before and after a submission, whatever other transactions
  -- commit in between, as long as they keep that.
  pub create_or_reuse-OneActive :
      (s : Submission) (at : ℕ) (t : Jobs)
      → OneActive t
      → OneActive (create_or_reuse others s at t).1
  unfolding create_or_reuse
  create_or_reuse-OneActive s at t one =
      unless_active-OneActive (find_active_by_sha256 s.raw_file.sha256 t) s at t one

-- What is returned is the active job of the file.
abbrev pub Serves : String → Option (IngestionJob × Bool) × Jobs → Type 0
Serves sha (none, t) = ⊥
Serves sha (some (j, created), t) = find_active_by_sha256 sha t ≡ some j

reread-Serves :
    (sha : String) (t : Jobs)
    → find_active_by_sha256 sha t ≢ none
    → Serves sha (reread (find_active_by_sha256 sha t) t)
reread-Serves sha t present = elim (Option-cases (find_active_by_sha256 sha t)) [
  | inl e ↦ absurd (present e)
  | inr (j, e) ↦ rw e e
]

module _ (others : Interference) (s : Submission) where
  abbrev sha : String
  sha = s.raw_file.sha256

  insert-Serves :
      (found : Option IngestionJob) (at : ℕ) (t : Jobs)
      → find_active_by_sha256 sha t ≡ found
      → ((u : Jobs)
          → find_active_by_sha256 sha u ≢ none
          → find_active_by_sha256 sha (others.before_reread u) ≢ none)
      → Serves sha (after_insert others sha (insert_unless found s at t))
  unfolding find_active_by_sha256
  insert-Serves none at t e stays =
      find_first-append (is_active_copy sha) t.rows (new_job s t.next_id at) e
        (rw ((eq_iff sha sha).1 refl))
  insert-Serves (some j) at t e stays =
      let u = record t { next_id = suc t.next_id } in
      reread-Serves sha (others.before_reread u) (stays u (λ gone. cc (sym gone ∙ e)))

  unless_active-Serves :
      (found : Option IngestionJob) (at : ℕ) (t : Jobs)
      → find_active_by_sha256 sha t ≡ found
      → ((u : Jobs)
          → find_active_by_sha256 sha u ≢ none
          → find_active_by_sha256 sha (others.before_reread u) ≢ none)
      → Serves sha (unless_active found others s at t)
  unfolding insert_queued
  unless_active-Serves (some j) at t e stays = e
  unless_active-Serves none at t e stays =
      let u = others.before_insert t in insert-Serves (find_active_by_sha256 sha u) at u refl stays

-- Unless the active job of the same file is ended by another transaction between the INSERT and
-- the second SELECT, `create_or_reuse` returns a job, which is the active job of the file then; the
-- branch that is marked unreachable is not reached.
pub create_or_reuse-Serves :
    (others : Interference) (s : Submission) (at : ℕ) (t : Jobs)
    → ((u : Jobs)
        → find_active_by_sha256 s.raw_file.sha256 u ≢ none
        → find_active_by_sha256 s.raw_file.sha256 (others.before_reread u) ≢ none)
    → Serves s.raw_file.sha256 (create_or_reuse others s at t)
unfolding create_or_reuse
create_or_reuse-Serves others s at t stays =
    unless_active-Serves others s (find_active_by_sha256 s.raw_file.sha256 t) at t refl stays

-- Submitting the same bytes again, while their job is active, creates nothing: it returns that job
-- and leaves the table alone.
pub create_or_reuse-create_or_reuse :
    (others others' : Interference) (s s' : Submission) (at at' : ℕ) (t : Jobs)
    → s'.raw_file.sha256 ≡ s.raw_file.sha256
    → ((u : Jobs)
        → find_active_by_sha256 s.raw_file.sha256 u ≢ none
        → find_active_by_sha256 s.raw_file.sha256 (others.before_reread u) ≢ none)
    → (j : IngestionJob) × (created : Bool) × (t' : Jobs) × (create_or_reuse others s at t
        ≡ (some (j, created), t'))
      × (create_or_reuse others' s' at' t' ≡ (some (j, false), t'))
create_or_reuse-create_or_reuse others others' s s' at at' t same stays =
    served (create_or_reuse others s at t) refl (create_or_reuse-Serves others s at t stays)
  where
    served :
        (r : Option (IngestionJob × Bool) × Jobs)
        → create_or_reuse others s at t ≡ r
        → Serves s.raw_file.sha256 r
        → (j : IngestionJob) × (created : Bool) × (t' : Jobs) × (create_or_reuse others s at t
            ≡ (some (j, created), t'))
          × (create_or_reuse others' s' at' t' ≡ (some (j, false), t'))
    served (none, u) e h = absurd h
    served (some (j, created), u) e h = (j, created, u, e, unfold create_or_reuse in rw (same, h))
