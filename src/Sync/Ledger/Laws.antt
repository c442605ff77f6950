-- ===== src/Sync/Ledger/Laws.antt =====
-- What the ledger remembers, and how the cursor moves.
use smart_screen_agent.Prelude.{
  ℕ, suc, ◌≤◌, ◌≡◌, ◌≢◌, refl, sym, ap, subst, ◌∙◌, max, true, false, inl, inr, Option, none, some,
  List, [], ◌∷◌, ◌++◌, any, All, All-find_first, All-Unit, length, select, arith, eq_iff,
  Bool-cases, select-append, length-append, find_first, find_first_of_any, find_first-update_map,
  find_first-update_apart, find_first-append, find_first-append_apart, is_some,
  length-select-update_where, select_of_find_first, Option-cases,
}
use smart_screen_agent.Sync.Ledger.{
  SyncSourceItem, Ledger, Identity, SourceItem, newest_from, next_cursor, has_identity, Sighting,
  coalesce, new_row, seen_again, record_item,
}

newest_from-le :
    (m : ℕ) (items : List SourceItem)
    → (m ≤ newest_from m items) × All (λ i. i.updated_at ≤ newest_from m items) items
newest_from-le m [] = (omega arith, tt)
newest_from-le m (item ∷ rest) =
    let (low, all) = newest_from-le (max m item.updated_at) rest in
    (omega arith, (omega arith, all))

newest_from-bound :
    (m n : ℕ) (items : List SourceItem)
    → m ≤ n
    → All (λ i. i.updated_at ≤ n) items
    → newest_from m items ≤ n
newest_from-bound m n [] h all = h
newest_from-bound m n (item ∷ rest) h (p, all) =
    newest_from-bound (max m item.updated_at) n rest (omega arith) all

All-le :
    (a b : ℕ) (items : List SourceItem)
    → a ≤ b
    → All (λ i. i.updated_at ≤ a) items
    → All (λ i. i.updated_at ≤ b) items
All-le a b [] h all = tt
All-le a b (item ∷ rest) h (p, all) = (omega arith, All-le a b rest h all)

-- The next cursor is the least instant that is not before the current one nor before any item
-- processed: it never goes back and never skips ahead of what was seen.
pub next_cursor_least :
    (current : ℕ) (processed : List SourceItem)
    → (current ≤ next_cursor current processed)
      × All (λ i. i.updated_at ≤ next_cursor current processed) processed
      × ((n : ℕ)
          → current ≤ n
          → All (λ i. i.updated_at ≤ n) processed
          → next_cursor current processed ≤ n)
unfolding next_cursor
next_cursor_least current [] = (omega arith, tt, λ n h _. h)
next_cursor_least current (item ∷ rest) =
    let m = newest_from item.updated_at rest in
    let (low, all) = newest_from-le item.updated_at rest in
    (
      omega arith,
      (omega arith, All-le m (max current m) rest (omega arith) all),
      λ n h a. let b = newest_from-bound item.updated_at n rest a.0 a.1 in omega arith,
    )

has_identity→eqs :
    (k : Identity) (row : SyncSourceItem)
    → has_identity k row ≡ true
    → (row.source ≡ k.source)
      × (row.source_external_id ≡ k.external_id)
      × (row.content_sha256 ≡ k.sha256)
unfolding has_identity
has_identity→eqs k row h = ground (
  arith,
  eq_iff row.source k.source,
  eq_iff row.source_external_id k.external_id,
  eq_iff row.content_sha256 k.sha256,
)

-- One row has two identities only if they are the same.
has_identity_apart :
    (k k' : Identity) (row : SyncSourceItem)
    → k ≢ k'
    → has_identity k row ≡ true
    → has_identity k' row ≡ false
has_identity_apart k k' row ne h = elim (Bool-cases (has_identity k' row)) [
  | inr e ↦ e
  | inl e ↦
      (let (a, b, c) = has_identity→eqs k row h in
        let (a', b', c') = has_identity→eqs k' row e in
        absurd (
          ne (λ i. record {
            source = (sym a ∙ a') i;
            external_id = (sym b ∙ b') i;
            sha256 = (sym c ∙ c') i;
          })))
]

has_identity-new_row : (k : Identity) (s : Sighting) (i : ℕ) → has_identity k (new_row k s i) ≡ true
unfolding has_identity
has_identity-new_row k s i =
    ground (
      arith,
      eq_iff k.source k.source,
      eq_iff k.external_id k.external_id,
      eq_iff k.sha256 k.sha256,
    )

has_identity-seen_again :
    (k : Identity) (s : Sighting) (row : SyncSourceItem)
    → has_identity k (seen_again s row) ≡ has_identity k row
unfolding has_identity
has_identity-seen_again k s row = refl

-- The row of one identity.
abbrev pub find_row : Identity → Ledger → Option SyncSourceItem
find_row k t = find_first (has_identity k) t.rows

-- The job of a row: the one that is given, or else the one before.
abbrev pub JobOf : Option ℕ → Option ℕ → Option ℕ → Type 0
JobOf (some job) before after = after ≡ some job
JobOf none before after = after ≡ before

-- What a row says of the sighting that it was last written for.
pub record SaysOf (k : Identity) (s : Sighting) (row : SyncSourceItem) : Type 0 where
  pub of_identity :
      (row.source ≡ k.source)
      × (row.source_external_id ≡ k.external_id)
      × (row.content_sha256 ≡ k.sha256)
  pub outcome : row.outcome ≡ s.outcome
  pub error_code : row.error_code ≡ s.error_code
  pub last_seen_at : row.last_seen_at ≡ s.now

-- The row of an identity after a sighting, by the row that was there.
abbrev pub Recorded : Identity → Sighting → ℕ → Option SyncSourceItem → SyncSourceItem → Type 0
Recorded k s i none row =
    SaysOf k s row
    × (row.id ≡ i)
    × (row.attempts ≡ 1)
    × (row.first_seen_at ≡ s.now)
    × (row.ingestion_job_id ≡ s.job_id)
Recorded k s i (some old) row =
    SaysOf k s row
    × (row.id ≡ old.id)
    × (row.attempts ≡ suc old.attempts)
    × (row.first_seen_at ≡ old.first_seen_at)
    × JobOf s.job_id old.ingestion_job_id row.ingestion_job_id

new_row-Recorded : (k : Identity) (s : Sighting) (i : ℕ) → Recorded k s i none (new_row k s i)
new_row-Recorded k s i = (
  record {
    of_identity = (refl, refl, refl);
    outcome = refl;
    error_code = refl;
    last_seen_at = refl;
  },
  refl,
  refl,
  refl,
  refl,
)

coalesce-JobOf : (given before : Option ℕ) → JobOf given before (coalesce given before)
coalesce-JobOf (some job) before = refl
coalesce-JobOf none before = refl

seen_again-Recorded :
    (k : Identity) (s : Sighting) (i : ℕ) (old : SyncSourceItem)
    → has_identity k old ≡ true
    → Recorded k s i (some old) (seen_again s old)
seen_again-Recorded k s i old h = (
  record {
    of_identity = has_identity→eqs k old h;
    outcome = refl;
    error_code = refl;
    last_seen_at = refl;
  },
  refl,
  omega arith,
  refl,
  coalesce-JobOf s.job_id old.ingestion_job_id,
)

-- Recording an item writes the row of its identity, with the outcome, the error and the instant of
-- this sighting: a new one with one attempt, first seen now, or the old one with one more attempt,
-- its id and first sighting and, unless a new one is given, its job kept. Every other identity's row
-- stays as it was.
pub find_row-record_item :
    (k : Identity) (s : Sighting) (t : Ledger)
    → ((row : SyncSourceItem) × (find_row k (record_item k s t) ≡ some row)
        × Recorded k s t.next_id (find_row k t) row)
      × ((k' : Identity) → k ≢ k' → find_row k' (record_item k s t) ≡ find_row k' t)
unfolding record_item
find_row-record_item k s t = elim (Option-cases (find_row k t)) [
  | inr (row, f) ↦
      (let present : any (has_identity k) t.rows ≡ true =
          find_first_of_any (has_identity k) t.rows ∙ ap is_some f in
        (
          (
            seen_again s row,
            rw present (
                rw
                  (find_first-update_map (has_identity k) (seen_again s) t.rows
                    (has_identity-seen_again k s))
                  (rw f)),
            rw f (
                seen_again-Recorded k s t.next_id row
                  (All-find_first (λ _. Unit {0}) (has_identity k) t.rows row (All-Unit t.rows)
                    f).1),
          ),
          λ k' ne. rw present (
              find_first-update_apart (has_identity k) (has_identity k') (seen_again s) t.rows
                (λ x h. (
                  has_identity_apart k k' x ne h,
                  has_identity-seen_again k' s x ∙ has_identity_apart k k' x ne h,
                ))),
        ))
  | inl f ↦
      (let absent : any (has_identity k) t.rows ≡ false =
          find_first_of_any (has_identity k) t.rows ∙ ap is_some f in
        (
          (
            new_row k s t.next_id,
            rw absent (
                find_first-append (has_identity k) t.rows (new_row k s t.next_id) f
                  (has_identity-new_row k s t.next_id)),
            rw f (new_row-Recorded k s t.next_id),
          ),
          λ k' ne. rw absent (
              find_first-append_apart (has_identity k') t.rows (new_row k s t.next_id)
                (has_identity_apart k k' _ ne (has_identity-new_row k s t.next_id))),
        ))
]

-- The unique constraint: one row for one identity.
abbrev pub OneRow : Ledger → Type 0
OneRow t = (k : Identity) → length (select (has_identity k) t.rows) ≤ 1

new_row-OneRow :
    (k : Identity) (s : Sighting) (t : Ledger) (k' : Identity)
    → find_row k t ≡ none
    → length (select (has_identity k') t.rows) ≤ 1
    → length (select (has_identity k') (t.rows ++ new_row k s t.next_id ∷ [])) ≤ 1
new_row-OneRow k s t k' free one = elim (Bool-cases (has_identity k' (new_row k s t.next_id))) [
  | inr e ↦ rw (select-append, length-append, e) (omega (arith, one))
  | inl e ↦
      (let (a, b, c) = has_identity→eqs k' (new_row k s t.next_id) e in
        let same : k ≡ k' = λ i. record { source = a i; external_id = b i; sha256 = c i } in
        let gone =
          select_of_find_first (has_identity k') t.rows
            (subst (λ j. find_row j t ≡ none) same free) in
        rw (select-append, length-append, e) (omega (arith, ap length gone)))
]

-- Recording an item keeps the unique constraint, whichever run comes first.
pub record_item-OneRow :
    (k : Identity) (s : Sighting) (t : Ledger) → OneRow t → OneRow (record_item k s t)
unfolding record_item
record_item-OneRow k s t one = elim (Option-cases (find_row k t)) [
  | inr (row, f) ↦
      (let present : any (has_identity k) t.rows ≡ true =
          find_first_of_any (has_identity k) t.rows ∙ ap is_some f in
        λ k'.
          rw
            (
              present,
              length-select-update_where (has_identity k) (has_identity k') (seen_again s) t.rows
                  (has_identity-seen_again k' s),
            )
            (one k'))
  | inl f ↦
      (let absent : any (has_identity k) t.rows ≡ false =
          find_first_of_any (has_identity k) t.rows ∙ ap is_some f in
        λ k'. rw absent (new_row-OneRow k s t k' f (one k')))
]
