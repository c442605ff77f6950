-- ===== src/Sync/Replay/Report.antt =====
-- What a sweep of the failed rows reports, and what evidence it leaves.
use smart_screen_agent.Prelude.{
  ℕ, suc, ◌+◌, ◌≤◌, ◌≡◌, refl, ap, ◌∙◌, String, Bool, true, false, Option, none, some, List, [],
  ◌∷◌, ◌++◌, length, arith, if-both,
}
use smart_screen_agent.Ingestion.Jobs.{IngestionJob}
use smart_screen_agent.Ingestion.Intake.{
  Stores, Intake, accepted, refused, upload_validation, broken, ingest_upload,
}
use smart_screen_agent.Sync.Ledger.{SyncSourceItem, SourceItem, already_ingested}
use smart_screen_agent.Sync.Runner.{Run}
use smart_screen_agent.Sync.Replay.{
  Describe, described, no_lookup, Fetch, fetched, RowCalls, ReplayCalls, Tally, ReplayReport,
  AbortCode, replay_aborted, resume_sync_replayed, resume_sync_replay_failed, ReplayWorld, Step,
  next, stop, abort, pending, identity, request, spend_attempt, discard, deliver, after_intake,
  after_lookup, after_fetch, after_describe, replay_row, unless_over, replay_rows, ReplayResult,
  returned, raised, select_failed, audit_abort, complete, conclude, start, replay_failed,
}

abbrev pub total : Tally → ℕ
total n = n.replayed + n.failed + n.superseded + n.undescribable

-- A row counts once, a break counts the rows that are left, and neither writes an audit row. Where
-- an exception leaves the loop, at most that many are counted.
abbrev Counts : ℕ → ℕ → Tally → ReplayWorld → Step → Type 0
Counts done left n w (next n' w') =
    (total n' ≡ total n + done) × (n'.undescribable ≡ n.undescribable) × (w'.audits ≡ w.audits)
Counts done left n w (stop n' w') = (total n' ≡ total n + left) × (w'.audits ≡ w.audits)
Counts done left n w (abort code n' w') = (total n' ≤ total n + left) × (w'.audits ≡ w.audits)

module _ (run : Run) (row : SyncSourceItem) (calls : RowCalls) (left : ℕ) (n : Tally) where
  spend_attempt-Counts :
      (code : String) (w : ReplayWorld)
      → Counts 1 (suc left) n w (spend_attempt run row calls code n w)
  unfolding spend_attempt
  spend_attempt-Counts code w = ground arith

  discard-Counts : (w : ReplayWorld) → Counts 1 (suc left) n w (discard row calls n w)
  unfolding discard
  discard-Counts w = ground arith

  deliver-Counts :
      (job : IngestionJob) (created : Bool) (w : ReplayWorld)
      → Counts 1 (suc left) n w (deliver calls job created n w)
  unfolding deliver
  deliver-Counts job created w = ground arith

  after_intake-Counts :
      (sha : String) (w : ReplayWorld) (r : Intake × Stores)
      → Counts 1 (suc left) n w (after_intake run row calls sha n w r)
  unfolding after_intake
  after_intake-Counts sha w (accepted job created, stores) =
      if-both (Counts 1 (suc left) n w) calls.record_commits (deliver-Counts job created _)
        (spend_attempt-Counts "ingestion_failed" _)
  after_intake-Counts sha w (refused upload_validation, stores) =
      spend_attempt-Counts "unsupported_attachment" (record w { stores = stores })
  after_intake-Counts sha w (refused broken, stores) =
      spend_attempt-Counts "ingestion_failed" (record w { stores = stores })

  after_lookup-Counts :
      (item : SourceItem) (sha : String) (w : ReplayWorld) (seen : Option Bool)
      → Counts 1 (suc left) n w (after_lookup run row calls item sha n w seen)
  after_lookup-Counts item sha w none = (omega arith, refl)
  after_lookup-Counts item sha w (some true) = discard-Counts w
  after_lookup-Counts item sha w (some false) =
      after_intake-Counts sha w (ingest_upload calls.upload (request run row item) run.now w.stores)

  after_fetch-Counts :
      (item : SourceItem) (w : ReplayWorld) (f : Fetch)
      → Counts 1 (suc left) n w (after_fetch run row calls item n w f)
  after_fetch-Counts item w Fetch.not_here = spend_attempt-Counts "item_unavailable" w
  after_fetch-Counts item w Fetch.provider_down = (omega arith, refl)
  after_fetch-Counts item w Fetch.crashed = (omega arith, refl)
  after_fetch-Counts item w (fetched sha) =
      if-both (Counts 1 (suc left) n w) calls.lookup_answers
        (after_lookup-Counts item sha w
          (already_ingested run.is_blank (identity run row sha) w.ledger))
        (omega arith, refl)

  -- Nothing is undescribable before the break that says how much is.
  replay_row-Counts :
      (w : ReplayWorld)
      → n.undescribable ≡ 0
      → Counts 1 (suc left) n w (replay_row run row calls (suc left) n w)
  unfolding replay_row
  replay_row-Counts w zero_yet = by_answer calls.describe
    where
      by_answer :
          (d : Describe) → Counts 1 (suc left) n w (after_describe run row calls (suc left) n w d)
      by_answer no_lookup = (omega (arith, zero_yet), refl)
      by_answer Describe.not_here = spend_attempt-Counts "item_unavailable" w
      by_answer Describe.provider_down = (omega arith, refl)
      by_answer Describe.crashed = (omega arith, refl)
      by_answer (described item) = after_fetch-Counts item w calls.fetch

then-Counts :
    (left : ℕ) (n : Tally) (w : ReplayWorld) (s : Step) (k : Tally → ReplayWorld → Step)
    → Counts 1 (suc left) n w s
    → ((n' : Tally) (w' : ReplayWorld)
        → n'.undescribable ≡ n.undescribable
        → Counts left left n' w' (k n' w'))
    → Counts (suc left) (suc left) n w (unless_over s k)
then-Counts left n w (stop n' w') k h rest = h
then-Counts left n w (abort code n' w') k h rest = h
then-Counts left n w (next n' w') k (a, b, c) rest = join (k n' w') (rest n' w' b)
  where
    join : (s : Step) → Counts left left n' w' s → Counts (suc left) (suc left) n w s
    join (next n'' w'') (a', b', c') = (omega (arith, a, a'), b' ∙ b, c' ∙ c)
    join (stop n'' w'') (a', c') = (omega (arith, a, a'), c' ∙ c)
    join (abort code n'' w'') (a', c') = (omega (arith, a, a'), c' ∙ c)

replay_rows-Counts :
    (run : Run) (calls : SyncSourceItem → RowCalls) (rows : List SyncSourceItem) (n : Tally)
    (w : ReplayWorld)
    → n.undescribable ≡ 0
    → Counts (length rows) (length rows) n w (replay_rows run calls rows n w)
unfolding replay_rows
replay_rows-Counts run calls [] n w h = (omega arith, refl, refl)
replay_rows-Counts run calls (row ∷ rows) n w h =
    then-Counts (length rows) n w (replay_row run row (calls row) (length (row ∷ rows)) n w)
      (λ n' w'. replay_rows run calls rows n' w')
      (replay_row-Counts run row (calls row) (length rows) n w h)
      (λ n' w' e. replay_rows-Counts run calls rows n' w' (e ∙ h))

-- The counts that the loop got to.
abbrev pub counts_of : Step → Tally
counts_of (next n w) = n
counts_of (stop n w) = n
counts_of (abort code n w) = n

-- What a sweep promises of its result, by the counts that its loop got to: a report accounts for every row selected, and is in the
-- audit log; an abort counts no more than was selected and has its row with those counts, if the
-- database takes it; a selection that fails has changed nothing.
abbrev pub Promised : ReplayCalls → ℕ → Tally → ReplayWorld → ReplayResult × ReplayWorld → Type 0
Promised c selected counts w (returned r, w') =
    (r.selected ≡ selected)
    × (r.tally ≡ counts)
    × (total r.tally ≡ selected)
    × (w'.audits ≡ w.audits ++ resume_sync_replayed r ∷ [])
Promised c selected counts w (raised code, w') =
    c.abort_audit_commits ≡ true
    → (r : ReplayReport) × (r.selected ≡ selected)
      × (r.tally ≡ counts)
      × (total r.tally ≤ selected)
      × (w'.audits ≡ w.audits ++ resume_sync_replay_failed r code ∷ [])
Promised c selected counts w (select_failed, w') = w' ≡ w

aborted-Promised :
    (c : ReplayCalls) (selected : ℕ) (w w' : ReplayWorld) (code : AbortCode) (n : Tally)
    → w'.audits ≡ w.audits
    → total n ≤ selected
    → Promised c selected n w
        (raised code, audit_abort c code (record { selected = selected; tally = n }) w')
aborted-Promised c selected w w' code n same le up = (
  record { selected = selected; tally = n },
  refl,
  refl,
  le,
  rw up (
      ap (λ l. l ++ resume_sync_replay_failed (record { selected = selected; tally = n }) code ∷ [])
        same),
)

complete-Promised :
    (c : ReplayCalls) (selected : ℕ) (w w' : ReplayWorld) (n : Tally)
    → w'.audits ≡ w.audits
    → total n ≡ selected
    → Promised c selected n w (complete c (record { selected = selected; tally = n }) w')
complete-Promised c selected w w' n same all =
    if-both (Promised c selected n w) c.completion_commits
      (
        refl,
        refl,
        all,
        ap (λ l. l ++ resume_sync_replayed (record { selected = selected; tally = n }) ∷ []) same,
      )
      (aborted-Promised c selected w w' replay_aborted n same (omega (arith, all)))

conclude-Promised :
    (c : ReplayCalls) (selected : ℕ) (w : ReplayWorld) (s : Step)
    → Counts selected selected start w s
    → Promised c selected (counts_of s) w (conclude c selected s)
conclude-Promised c selected w (next n w') (a, b, same) =
    complete-Promised c selected w w' n same (omega (arith, a))
conclude-Promised c selected w (stop n w') (a, same) =
    complete-Promised c selected w w' n same (omega (arith, a))
conclude-Promised c selected w (abort code n w') (a, same) =
    aborted-Promised c selected w w' code n same (omega (arith, a))

-- However the adapter, the database and the broker behave: a sweep of the failed rows that returns
-- has counted each row it selected once, as replayed, failed, superseded or not describable, and
-- has its report in the audit log; one that raises after the selection has counted no more than it
-- selected, and has written the counts that its loop got to, with a cause, to the audit log, if the
-- database takes the row; one whose selection fails has changed nothing.
pub replay_failed-Promised :
    (c : ReplayCalls) (run : Run) (max_attempts : ℕ) (w : ReplayWorld)
    → Promised c
        (length (pending run.source max_attempts w.ledger))
        (counts_of (replay_rows run c.row (pending run.source max_attempts w.ledger) start w))
        w
        (replay_failed c run max_attempts w)
unfolding replay_failed
replay_failed-Promised c run max_attempts w =
    let rows = pending run.source max_attempts w.ledger in
    if-both (Promised c (length rows) (counts_of (replay_rows run c.row rows start w)) w)
      c.select_answers
      (conclude-Promised c (length rows) w (replay_rows run c.row rows start w)
        (replay_rows-Counts run c.row rows start w refl))
      refl
