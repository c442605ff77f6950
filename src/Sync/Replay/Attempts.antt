-- ===== src/Sync/Replay/Attempts.antt =====
-- What a sweep does to the ledger's memory: a row that is found to be ingested is deleted, also
-- where it is the row that says so.
use smart_screen_agent.Prelude.{
  ℕ, suc, ◌≡◌, refl, ap, ◌∙◌, true, false, not, some, List, [], ◌∷◌, any, select, Bool-cases, inl,
  inr, All, ◌==◌, ==_iff, if◌then◌else◌,
}
use smart_screen_agent.Sync.Ledger.{
  SyncSourceItem, Ledger, Identity, SourceItem, has_identity, ingested_row, was_ingested,
  already_ingested,
}
use smart_screen_agent.Sync.Runner.{Run}
use smart_screen_agent.Sync.Replay.{
  described, fetched, RowCalls, Tally, ReplayWorld, next, abort, replay_aborted, identity,
  delete_row, discard, after_describe, after_fetch, after_lookup, replay_row,
}

-- Every row of an identity has one id, as the unique constraint gives.
abbrev pub HasId : Identity → ℕ → Ledger → Type 0
HasId k i t = All (λ r. has_identity k r ≡ true → r.id ≡ i) t.rows

forgotten :
    (k : Identity) (i : ℕ) (rows : List SyncSourceItem)
    → All (λ r. has_identity k r ≡ true → r.id ≡ i) rows
    → any (ingested_row k) (select (λ r. not (r.id == i)) rows) ≡ false
forgotten k i [] h = refl
forgotten k i (r ∷ rows) (p, h) = elim (Bool-cases (has_identity k r)) [
  | inl e ↦ rw ((==_iff r.id i).1 (p e)) (forgotten k i rows h)
  | inr e ↦ elim (Bool-cases (r.id == i)) [
    | inl d ↦ rw d (forgotten k i rows h)
    | inr d ↦ rw (d, e) (forgotten k i rows h)
  ]
]

-- A row that was selected as failed, and whose identity has been ingested by the time its turn
-- comes, is deleted although it is itself the record of the ingestion: the source still offers the
-- bytes whose hash it stores, and afterwards the ledger does not know them.
pub replay_row_forgets :
    (run : Run) (row : SyncSourceItem) (calls : RowCalls) (left : ℕ) (n : Tally) (w : ReplayWorld)
    (item : SourceItem)
    → calls.describe ≡ described item
    → calls.fetch ≡ fetched row.content_sha256
    → calls.lookup_answers ≡ true
    → calls.discard_commits ≡ true
    → already_ingested run.is_blank (identity run row row.content_sha256) w.ledger ≡ some true
    → HasId (identity run row row.content_sha256) row.id w.ledger
    → (n' : Tally) × (w' : ReplayWorld) × (replay_row run row calls left n w ≡ next n' w')
      × (was_ingested (identity run row row.content_sha256) w'.ledger ≡ false)
unfolding replay_row discard
replay_row_forgets run row calls left n w item d f l c seen h =
    let sha = row.content_sha256 in
    let k = identity run row sha in
    let n' = record n { superseded = suc n.superseded } in
    let w' = record w { ledger = delete_row row.id w.ledger } in
    (
      n',
      w',
      ap (after_describe run row calls left n w) d
          ∙ ap (after_fetch run row calls item n w) f
          ∙ ap
              (λ b.
                if b
                then after_lookup run row calls item sha n w
                    (already_ingested run.is_blank k w.ledger)
                else abort replay_aborted n w)
              l
          ∙ ap (after_lookup run row calls item sha n w) seen
          ∙ ap (λ b. if b then next n' w' else abort replay_aborted n' w) c,
      forgotten k row.id w.ledger.rows h,
    )
