-- ===== src/Sync/JdMetadata/Governed.antt =====
-- What the sync of job descriptions may not touch, and what it reports.
use smart_screen_agent.Prelude.{
  ℕ, suc, ◌+◌, ◌≤◌, ◌≡◌, refl, ap, ◌∙◌, String, Bool, true, false, ◌&&◌, Option, none, some, List,
  [], ◌∷◌, ◌++◌, any, find_first, update_where, length, arith, ◌==◌, same_text, Bool-cases, inl,
  inr, some_inj,
}
use smart_screen_agent.Sync.JdMetadata.{
  Jd, Jds, JobMeta, Tables, JobListing, listed, jobs_unavailable, jobs_crashed, JdCalls, JdAudit,
  jd_sync_completed, jd_sync_aborted, jd_sync_failed_listing, JdWorld, JdLoop, go, abort, has_code,
  new_jd, insert_jd, renamed, others_commit, create_jd, after_select, sync_job, unless_aborted,
  sync_jobs, JdError, source_down, listing_broke, run_aborted, JdResult, returned, raised,
  audit_abort, audit_completed, conclude, after_listing, sync_jd_metadata, is_text,
}

-- The columns that rule publication governs, with the id.
pub record SameGoverned (r r' : Jd) : Type 0 where
  pub same_id : r'.id ≡ r.id
  pub same_status : r'.status ≡ r.status
  pub same_rule : r'.active_rule_version_id ≡ r.active_rule_version_id

-- Every job description that was there still is, with its governed columns.
abbrev pub Kept : Jds → Jds → Type 0
Kept t t' =
    (code : String) (r : Jd)
    → find_first (has_code code) t.rows ≡ some r
    → (r' : Jd) × (find_first (has_code code) t'.rows ≡ some r') × SameGoverned r r'

Kept-refl : (t : Jds) → Kept t t
Kept-refl t code r e = (r, e, record { same_id = refl; same_status = refl; same_rule = refl })

Kept-trans : (t u v : Jds) → Kept t u → Kept u v → Kept t v
Kept-trans t u v f g code r e =
    let (r', e', s) = f code r e in
    let (r'', e'', s') = g code r' e' in
    (
      r'',
      e'',
      record {
        same_id = s'.same_id ∙ s.same_id;
        same_status = s'.same_status ∙ s.same_status;
        same_rule = s'.same_rule ∙ s.same_rule;
      },
    )

find-append :
    (p : Jd → Bool) (rows : List Jd) (x r : Jd)
    → find_first p rows ≡ some r
    → find_first p (rows ++ x ∷ []) ≡ some r
find-append p [] x r e = absurd (cc e)
find-append p (y ∷ rows) x r e = elim (Bool-cases (p y)) [
  | inl t ↦ rw t (rw t at e)
  | inr t ↦ rw t (find-append p rows x r (rw t at e))
]

insert-Kept : (conflict : Bool) (job : JobMeta) (t : Jds) → Kept t (insert_jd conflict job t)
insert-Kept true job t code r e = Kept-refl t code r e
insert-Kept false job t code r e = (
  r,
  find-append (has_code code) t.rows (new_jd job t.next_id) r e,
  record { same_id = refl; same_status = refl; same_rule = refl },
)

find-renamed :
    (i : ℕ) (job : JobMeta) (code : String) (r : Jd) (rows : List Jd)
    → find_first (has_code code) rows ≡ some r
    → (r' : Jd) × (find_first (has_code code) (update_where (λ x. x.id == i) (renamed job) rows)
        ≡ some r')
      × SameGoverned r r'
find-renamed i job code r [] e = absurd (cc e)
find-renamed i job code r (x ∷ rows) e = elim (Bool-cases (has_code code x)) [
  | inl here ↦
      (let same : x ≡ r = some_inj (rw here at e) in
        elim (Bool-cases (x.id == i)) [
          | inl hit ↦ (
            renamed job x,
            rw (hit, here),
            record {
              same_id = ap (λ y. y.id) same;
              same_status = ap (λ y. y.status) same;
              same_rule = ap (λ y. y.active_rule_version_id) same;
            },
          )
          | inr miss ↦ (
            x,
            rw (miss, here),
            record {
              same_id = ap (λ y. y.id) same;
              same_status = ap (λ y. y.status) same;
              same_rule = ap (λ y. y.active_rule_version_id) same;
            },
          )
        ])
  | inr apart ↦
      (let (r', e', g) = find-renamed i job code r rows (rw apart at e) in
        elim (Bool-cases (x.id == i)) [
          | inl hit ↦ (r', rw (hit, apart) e', g)
          | inr miss ↦ (r', rw (miss, apart) e', g)
        ])
]

-- What one job, or several, may do to the two tables and the count.
abbrev Steps : ℕ → ℕ → Tables → JdLoop → Type 0
Steps jobs changed t (go n t') =
    Kept t.mine t'.mine × Kept t.committed t'.committed × (n ≤ changed + jobs)
Steps jobs changed t (abort n t') =
    Kept t.mine t'.mine × Kept t.committed t'.committed × (n ≤ changed + jobs)

abbrev pub Calm : JdCalls → Type 0
Calm c = (job : JobMeta) (t : Jds) → Kept t (c.before_insert job t)

create_jd-Steps :
    (job : JobMeta) (changed : ℕ) (t : Tables) → Steps 1 changed t (create_jd job changed t)
create_jd-Steps job changed t = elim (Bool-cases (any (has_code job.code) t.mine.rows)) [
  | inl e ↦ rw e (insert-Kept true job t.mine, Kept-refl t.committed, omega arith)
  | inr e ↦ rw e (insert-Kept false job t.mine, Kept-refl t.committed, omega arith)
]

Steps-after :
    (jobs changed : ℕ) (t u : Tables) (l : JdLoop)
    → Kept t.mine u.mine
    → Kept t.committed u.committed
    → Steps jobs changed u l
    → Steps jobs changed t l
Steps-after jobs changed t u (go n v) f g (a, b, c) =
    (Kept-trans t.mine u.mine v.mine f a, Kept-trans t.committed u.committed v.committed g b, c)
Steps-after jobs changed t u (abort n v) f g (a, b, c) =
    (Kept-trans t.mine u.mine v.mine f a, Kept-trans t.committed u.committed v.committed g b, c)

module _ (c : JdCalls) (calm : Calm c) where
  after_select-Steps :
      (job : JobMeta) (changed : ℕ) (t : Tables) (found : Option Jd)
      → Steps 1 changed t (after_select c job changed t found)
  after_select-Steps job changed t none =
      let u = others_commit (c.before_insert job) t in
      Steps-after 1 changed t u (create_jd job changed u) (calm job t.mine) (calm job t.committed)
        (create_jd-Steps job changed u)
  after_select-Steps job changed t (some r) =
      elim (Bool-cases (same_text r.name job.name && is_text r.description job.description)) [
        | inl e ↦ rw e (Kept-refl t.mine, Kept-refl t.committed, omega arith)
        | inr e ↦ rw e (
          λ code r' q. find-renamed r.id job code r' t.mine.rows q,
          Kept-refl t.committed,
          omega arith,
        )
      ]

  sync_job-Steps :
      (job : JobMeta) (changed : ℕ) (t : Tables) → Steps 1 changed t (sync_job c job changed t)
  unfolding sync_job
  sync_job-Steps job changed t = elim (Bool-cases (c.answers job)) [
    | inl e ↦ rw e (after_select-Steps job changed t (find_first (has_code job.code) t.mine.rows))
    | inr e ↦ rw e (Kept-refl t.mine, Kept-refl t.committed, omega arith)
  ]

  then-Steps :
      (jobs changed : ℕ) (t : Tables) (l : JdLoop) (k : ℕ → Tables → JdLoop)
      → Steps 1 changed t l
      → ((n : ℕ) (t' : Tables) → Steps jobs n t' (k n t'))
      → Steps (suc jobs) changed t (unless_aborted l k)
  then-Steps jobs changed t (abort n u) k (a, b, m) after = (a, b, omega arith)
  then-Steps jobs changed t (go n u) k (a, b, m) after =
      more (k n u) (Steps-after jobs n t u (k n u) a b (after n u))
    where
      more : (l : JdLoop) → Steps jobs n t l → Steps (suc jobs) changed t l
      more (go n' v) (a', b', m') = (a', b', omega arith)
      more (abort n' v) (a', b', m') = (a', b', omega arith)

  sync_jobs-Steps :
      (jobs : List JobMeta) (changed : ℕ) (t : Tables)
      → Steps (length jobs) changed t (sync_jobs c jobs changed t)
  unfolding sync_jobs
  sync_jobs-Steps [] changed t = (Kept-refl t.mine, Kept-refl t.committed, omega arith)
  sync_jobs-Steps (job ∷ jobs) changed t =
      then-Steps (length jobs) changed t (sync_job c job changed t) (λ n t'. sync_jobs c jobs n t')
        (sync_job-Steps job changed t) (λ n t'. sync_jobs-Steps jobs n t')

-- The errors that have an audit row to write.
abbrev pub has_audit_row : JdError → Bool
has_audit_row listing_broke = false
has_audit_row _ = true

-- The audit row of an error: of an abort, with the number of jobs listed and no more changes.
abbrev pub Tells : JobListing → JdError → JdAudit → Type 0
Tells jobs_unavailable source_down jd_sync_failed_listing = Unit {0}
Tells (listed jobs) run_aborted (jd_sync_aborted n changed) =
    (n ≡ length jobs) × (changed ≤ length jobs)
Tells _ _ _ = ⊥

-- The completion row, with the number of jobs listed and the changes that are returned.
abbrev pub Completes : JobListing → ℕ → JdAudit → Type 0
Completes (listed jobs) changed (jd_sync_completed n changed') =
    (n ≡ length jobs) × (changed' ≡ changed) × (changed ≤ length jobs)
Completes _ changed _ = ⊥

-- The evidence of a sync, and what it leaves of the job descriptions.
abbrev pub Reported : JdCalls → JdWorld → JdResult × JdWorld → Type 0
Reported c w (returned n, w') =
    Kept w.jds w'.jds
    × ((a : JdAudit) × Completes c.list_jobs n a × (w'.audits ≡ w.audits ++ a ∷ []))
Reported c w (raised e, w') =
    Kept w.jds w'.jds
    × (has_audit_row e ≡ true
        → c.abort_audit_commits ≡ true
        → (a : JdAudit) × Tells c.list_jobs e a × (w'.audits ≡ w.audits ++ a ∷ []))

aborted-Reported :
    (c : JdCalls) (a : JdAudit) (w w' : JdWorld) (e : JdError)
    → Kept w.jds w'.jds
    → w'.audits ≡ w.audits
    → Tells c.list_jobs e a
    → Reported c w (raised e, audit_abort c a w')
aborted-Reported c a w w' e kept same tells = elim (Bool-cases c.abort_audit_commits) [
  | inl up ↦ rw up (kept, λ _ _. (a, tells, ap (λ l. l ++ a ∷ []) same))
  | inr down ↦ rw down (kept, λ _ up. absurd (cc up))
]

completed-Reported :
    (c : JdCalls) (jobs : List JobMeta) (changed : ℕ) (w w' : JdWorld)
    → c.list_jobs ≡ listed jobs
    → Kept w.jds w'.jds
    → w'.audits ≡ w.audits
    → changed ≤ length jobs
    → Reported c w (audit_completed c (length jobs) changed w')
completed-Reported c jobs changed w w' found kept same le = elim (Bool-cases c.audit_commits) [
  | inl up ↦ rw up (
    kept,
    (
      jd_sync_completed (length jobs) changed,
      rw found (refl, refl, le),
      ap (λ l. l ++ jd_sync_completed (length jobs) changed ∷ []) same,
    ),
  )
  | inr down ↦ rw down (
      aborted-Reported c (jd_sync_aborted (length jobs) changed) w w' run_aborted kept same
        (rw found (refl, le)))
]

conclude-Reported :
    (c : JdCalls) (jobs : List JobMeta) (w : JdWorld) (l : JdLoop)
    → c.list_jobs ≡ listed jobs
    → Steps (length jobs) 0 (record { mine = w.jds; committed = w.jds }) l
    → Reported c w (conclude c (length jobs) w l)
unfolding conclude
conclude-Reported c jobs w (abort changed t) found (a, b, m) =
    aborted-Reported c (jd_sync_aborted (length jobs) changed) w (record w { jds = t.committed })
      run_aborted b refl (rw found (refl, omega (arith, m)))
conclude-Reported c jobs w (go changed t) found (a, b, m) = elim (Bool-cases c.batch_commits) [
  | inl up ↦ rw up (
      completed-Reported c jobs changed w (record w { jds = t.mine }) found a refl
        (omega (arith, m)))
  | inr down ↦ rw down (
      aborted-Reported c (jd_sync_aborted (length jobs) changed) w (record w { jds = t.committed })
        run_aborted b refl (rw found (refl, omega (arith, m))))
]

-- Whatever the source lists and however the run ends, every job description that was there keeps
-- its id, its status and its active rule version, if what other transactions commit meanwhile
-- keeps them; a run that returns has written its completion row, with the number of jobs listed and
-- the changes that it returns, which are no more; a run that raises after the listing, or because
-- the source is down, has written the audit row of that failure if the database takes it, with the
-- number of jobs listed and no more changes than that in the first case.
pub sync_jd_metadata-Reported :
    (c : JdCalls) (w : JdWorld) → Calm c → Reported c w (sync_jd_metadata c w)
unfolding sync_jd_metadata
sync_jd_metadata-Reported c w calm = by_listing c.list_jobs refl
  where
    by_listing : (l : JobListing) → c.list_jobs ≡ l → Reported c w (after_listing c w l)
    by_listing (listed jobs) e =
        conclude-Reported c jobs w (sync_jobs c jobs 0 (record { mine = w.jds; committed = w.jds }))
          e (sync_jobs-Steps c calm jobs 0 (record { mine = w.jds; committed = w.jds }))
    by_listing jobs_unavailable e =
        aborted-Reported c jd_sync_failed_listing w w source_down (Kept-refl w.jds) refl (rw e tt)
    by_listing jobs_crashed e = (Kept-refl w.jds, λ h _. absurd (cc h))
