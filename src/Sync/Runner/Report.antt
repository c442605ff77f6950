-- ===== src/Sync/Runner/Report.antt =====
-- What a run reports, where it leaves the cursor, and what evidence it leaves.
use mathlib.Core.List.{append_assoc, append-nil}
use smart_screen_agent.Prelude.{
  ℕ, zero, suc, ◌*◌, ◌+◌, ◌≤◌, ◌≡◌, refl, sym, ap, ◌∙◌, String, Bool, true, false, Option, none,
  some, List, [], ◌∷◌, ◌++◌, map, length, take, arith, Bool-cases, inl, inr, eq_iff, if◌then◌else◌,
}
use smart_screen_agent.Ingestion.Jobs.{IngestionJob}
use smart_screen_agent.Ingestion.Intake.{
  Stores, Intake, accepted, refused, upload_validation, broken, ingest_upload,
}
use smart_screen_agent.Sync.Ledger.{
  SourceItem, minus, next_cursor, overlap_start, already_ingested, read_cursor, write_cursor,
}
use smart_screen_agent.Sync.Ledger.Laws.{next_cursor_least}
use smart_screen_agent.Sync.Runner.{
  Fetch, fetched, item_unavailable, crashed, ItemCalls, Offered, Listing, offered,
  source_unavailable, listing_crashed, RunCalls, Audit, sync_completed, World, Progress, Loop, go,
  abort, Run, identity, request, note_failure, deliver, after_intake, after_lookup, after_fetch,
  sync_item, unless_aborted, sync_items, SyncError, SyncResult, returned, raised, run_aborted,
  sync_failed_listing, sync_aborted, source_down, audit_abort, start, report_of, conclude,
  after_listing, from_since, from_default, run_sync, unknown_sha256,
}

abbrev handled : Progress → ℕ
handled p = p.ingested + p.skipped + p.failed

-- The loop writes neither a cursor nor an audit row; where it goes on, it has processed the items in
-- their order and counted each of them once.
abbrev Through : Progress → World → List SourceItem → Loop → Type 0
Through p w items (go p' w') =
    (p'.processed ≡ p.processed ++ items)
    × (handled p' ≡ handled p + length items)
    × (w'.cursors ≡ w.cursors)
    × (w'.audits ≡ w.audits)
Through p w items (abort p' w') = (w'.cursors ≡ w.cursors) × (w'.audits ≡ w.audits)

module _ (run : Run) (item : SourceItem) (calls : ItemCalls) where
  note_failure-Through :
      (sha code : String) (p : Progress) (w : World)
      → Through p w (item ∷ []) (note_failure run (item, calls) sha code p w)
  unfolding note_failure
  note_failure-Through sha code p w = ground arith

  deliver-Through :
      (job : IngestionJob) (created : Bool) (p : Progress) (w : World)
      → Through p w (item ∷ []) (deliver (item, calls) job created p w)
  unfolding deliver
  deliver-Through job created p w = ground arith

  after_intake-Through :
      (sha : String) (p : Progress) (w : World) (r : Intake × Stores)
      → Through p w (item ∷ []) (after_intake run (item, calls) sha p w r)
  unfolding after_intake
  after_intake-Through sha p w (accepted job created, stores) = ground arith
  after_intake-Through sha p w (refused upload_validation, stores) = ground arith
  after_intake-Through sha p w (refused broken, stores) = ground arith

  after_lookup-Through :
      (sha : String) (p : Progress) (w : World) (seen : Option Bool)
      → Through p w (item ∷ []) (after_lookup run (item, calls) sha p w seen)
  after_lookup-Through sha p w none = (refl, refl)
  after_lookup-Through sha p w (some true) = ground arith
  after_lookup-Through sha p w (some false) =
      after_intake-Through sha p w (ingest_upload calls.upload (request run item) run.now w.stores)

  after_fetch-Through :
      (p : Progress) (w : World) (f : Fetch)
      → Through p w (item ∷ []) (after_fetch run (item, calls) p w f)
  after_fetch-Through p w item_unavailable =
      note_failure-Through unknown_sha256 "item_unavailable" p w
  after_fetch-Through p w crashed = (refl, refl)
  after_fetch-Through p w (fetched sha) =
      let seen = already_ingested run.is_blank (identity run item sha) w.ledger in
      elim calls.lookup_answers
        as (λ b.
          Through p w (item ∷ [])
            (if b then after_lookup run (item, calls) sha p w seen else abort p w)) [
              | true ↦ after_lookup-Through sha p w seen
              | false ↦ (refl, refl)
            ]

  sync_item-Through :
      (p : Progress) (w : World) → Through p w (item ∷ []) (sync_item run (item, calls) p w)
  unfolding sync_item
  sync_item-Through p w = after_fetch-Through p w calls.fetch

then-Through :
    (p : Progress) (w : World) (item : SourceItem) (rest : List SourceItem) (l : Loop)
    (k : Progress → World → Loop)
    → Through p w (item ∷ []) l
    → ((p' : Progress) (w' : World) → Through p' w' rest (k p' w'))
    → Through p w (item ∷ rest) (unless_aborted l k)
then-Through p w item rest (abort p' w') k h after = h
then-Through p w item rest (go p' w') k (a, b, c, d) after = join (k p' w') (after p' w')
  where
    join : (l : Loop) → Through p' w' rest l → Through p w (item ∷ rest) l
    join (abort p'' w'') (c', d') = (c' ∙ c, d' ∙ d)
    join (go p'' w'') (a', b', c', d') = (
      a' ∙ ap (λ l. l ++ rest) a ∙ append_assoc p.processed (item ∷ []) rest,
      omega arith,
      c' ∙ c,
      d' ∙ d,
    )

abbrev items_of : List Offered → List SourceItem
items_of = map (λ x. x.0)

sync_items-Through :
    (run : Run) (xs : List Offered) (p : Progress) (w : World)
    → Through p w (items_of xs) (sync_items run xs p w)
unfolding sync_items
sync_items-Through run [] p w = (sym (append-nil p.processed), omega arith, refl, refl)
sync_items-Through run ((item, calls) ∷ xs) p w =
    then-Through p w item (items_of xs) (sync_item run (item, calls) p w)
      (λ p' w'. sync_items run xs p' w') (sync_item-Through run item calls p w)
      (λ p' w'. sync_items-Through run xs p' w')

-- The errors that are written to the audit log; an overflow before the listing, and an exception of
-- the listing that is no SourceUnavailable, are not.
abbrev pub has_audit_row : SyncError → Bool
has_audit_row source_down = true
has_audit_row run_aborted = true
has_audit_row _ = false

-- The cursor that a run starts from: the stored one, or else one day before now.
abbrev pub StartsAt : Run → Option ℕ → ℕ → Type 0
StartsAt run (some t) cursor = cursor ≡ t
StartsAt run none cursor = cursor + 86400 * 1000000 ≡ run.now

-- The audit row of an error, with the cursor of its run.
abbrev pub Tells : Run → ℕ → Option ℕ → SyncError → Audit → Type 0
Tells run max_items stored source_down (sync_failed_listing cursor) = StartsAt run stored cursor
Tells run max_items stored run_aborted (sync_aborted cursor listed ingested skipped failed) =
    StartsAt run stored cursor × (listed ≤ max_items)
Tells run max_items stored _ _ = ⊥

-- What a run promises of its result: a report accounts for every item listed, at most the cap, and
-- the cursor and the audit row are written with it; after an error that has an audit row to write,
-- it is written if the database takes it, and the cursor is as it was.
abbrev pub Promised : RunCalls → Run → ℕ → World → SyncResult × World → Type 0
Promised c run max_items w (returned r, w') =
    (r.listed ≡ r.ingested + r.skipped + r.failed)
    × (r.listed ≤ max_items)
    × StartsAt run (w.cursors run.source) r.cursor_from
    × (r.cursor_from ≤ r.cursor_to)
    × (w'.cursors run.source ≡ some r.cursor_to)
    × (w'.audits ≡ w.audits ++ sync_completed r ∷ [])
Promised c run max_items w (raised e, w') =
    (w'.cursors ≡ w.cursors)
    × (has_audit_row e ≡ true
        → c.abort_audit_commits ≡ true
        → (a : Audit) × Tells run max_items (w.cursors run.source) e a
          × (w'.audits ≡ w.audits ++ a ∷ []))

-- The audit row of an abort, on top of what the loop left.
aborted-Promised :
    (c : RunCalls) (run : Run) (max_items : ℕ) (a : Audit) (w w' : World) (e : SyncError)
    → w'.cursors ≡ w.cursors
    → w'.audits ≡ w.audits
    → Tells run max_items (w.cursors run.source) e a
    → Promised c run max_items w (raised e, audit_abort c a w')
aborted-Promised c run max_items a w w' e same kept tells =
    (ground arith, λ _ up. (a, tells, rw up (ap (λ l. l ++ a ∷ []) kept)))

length-take-le {ℓ} : {A : Type ℓ} (n : ℕ) (xs : List A) → length (take n xs) ≤ n
length-take-le zero xs = omega arith
length-take-le (suc n) [] = omega arith
length-take-le (suc n) (x ∷ xs) = omega (arith, length-take-le n xs)

length-items_of : (xs : List Offered) → length (items_of xs) ≡ length xs
length-items_of [] = refl
length-items_of (x ∷ xs) = ap suc (length-items_of xs)

written :
    (source : String) (v : ℕ) (t : String → Option ℕ) → write_cursor source v t source ≡ some v
unfolding write_cursor
written source v t = rw ((eq_iff source source).1 refl)

conclude-Promised :
    (c : RunCalls) (run : Run) (cursor max_items : ℕ) (found : List Offered) (w : World) (l : Loop)
    → StartsAt run (w.cursors run.source) cursor
    → Through start w (items_of (take max_items found)) l
    → Promised c run max_items w (conclude c run cursor max_items found l)
unfolding conclude
conclude-Promised c run cursor max_items found w (abort p w') from (same, kept) =
    aborted-Promised c run max_items _ w w' run_aborted same kept
      (from, length-take-le max_items found)
conclude-Promised c run cursor max_items found w (go p w') from (a, b, same, kept) =
    elim (Bool-cases c.completion_commits) [
      | inl e ↦ rw e (
        omega (arith, b, length-items_of (take max_items found)),
        length-take-le max_items found,
        from,
        (next_cursor_least cursor p.processed).0,
        written run.source (next_cursor cursor p.processed) w'.cursors,
        ap (λ l. l ++ sync_completed (report_of cursor max_items found p) ∷ []) kept,
      )
      | inr e ↦ rw e (
          aborted-Promised c run max_items _ w w' run_aborted same kept
            (from, length-take-le max_items found))
    ]

after_listing-Promised :
    (c : RunCalls) (run : Run) (cursor max_items : ℕ) (w : World) (l : Listing)
    → StartsAt run (w.cursors run.source) cursor
    → Promised c run max_items w (after_listing c run cursor max_items w l)
unfolding after_listing
after_listing-Promised c run cursor max_items w (offered found) from =
    conclude-Promised c run cursor max_items found w (sync_items run (take max_items found) start w)
      from (sync_items-Through run (take max_items found) start w)
after_listing-Promised c run cursor max_items w source_unavailable from =
    aborted-Promised c run max_items _ w w source_down refl refl from
after_listing-Promised c run cursor max_items w listing_crashed from = (refl, λ h _. absurd (cc h))

from_since-Promised :
    (c : RunCalls) (run : Run) (cursor max_items : ℕ) (w : World) (since : Option ℕ)
    → StartsAt run (w.cursors run.source) cursor
    → Promised c run max_items w (from_since c run cursor max_items w since)
from_since-Promised c run cursor max_items w none from = (refl, λ h _. absurd (cc h))
from_since-Promised c run cursor max_items w (some since) from =
    after_listing-Promised c run cursor max_items w (c.list_changed since (max_items + 1)) from

minus-StartsAt :
    (run : Run) (default : ℕ)
    → minus run.now (86400 * 1000000) ≡ some default
    → default + 86400 * 1000000 ≡ run.now
minus-StartsAt run default e = ground (arith, e)

read-StartsAt :
    (run : Run) (default : ℕ) (t : String → Option ℕ)
    → minus run.now (86400 * 1000000) ≡ some default
    → StartsAt run (t run.source) (read_cursor run.source default t)
unfolding read_cursor
read-StartsAt run default t e =
    elim (t run.source) as (λ o. StartsAt run o (elim o [ none ↦ default | some v ↦ v ])) [
      | none ↦ minus-StartsAt run default e
      | some v ↦ refl
    ]

from_default-Promised :
    (c : RunCalls) (run : Run) (overlap_seconds max_items : ℕ) (w : World) (default : Option ℕ)
    → minus run.now (86400 * 1000000) ≡ default
    → Promised c run max_items w (from_default c run overlap_seconds max_items w default)
from_default-Promised c run overlap_seconds max_items w none e = (refl, λ h _. absurd (cc h))
from_default-Promised c run overlap_seconds max_items w (some default) e =
    let cursor = read_cursor run.source default w.cursors in
    from_since-Promised c run cursor max_items w (overlap_start cursor overlap_seconds)
      (read-StartsAt run default w.cursors e)

-- However the adapter, the database and the broker behave: a run that returns has counted each item
-- it listed once, as ingested, skipped or failed, has listed no more than its cap, and has written
-- its report to the audit log together with a cursor that is not before the one it started from,
-- which is the stored one, or one day before now. A run that raises leaves the cursors alone; if the
-- source was unavailable, or the run was aborted after the listing, it has written one audit row of
-- that failure, with the cursor it started from, if the database takes that row.
pub run_sync-Promised :
    (c : RunCalls) (run : Run) (overlap_seconds max_items : ℕ) (w : World)
    → Promised c run max_items w (run_sync c run overlap_seconds max_items w)
unfolding run_sync
run_sync-Promised c run overlap_seconds max_items w =
    from_default-Promised c run overlap_seconds max_items w (minus run.now (86400 * 1000000)) refl
