-- ===== src/Llm/Usage/History.antt =====
-- Histories of the ledger of attempts: the calls and the sweeper, in the order in which they commit.
use smart_screen_agent.Prelude.{
  ℕ, zero, suc, ◌≡◌, refl, String, Bool, true, false, Bool-cases, inl, inr, Option, none, some,
  List, [], ◌∷◌, Result, ok, raised, bind_ok, ok_inj, ap, sym, ◌∙◌,
}
use smart_screen_agent.Llm.Pricing.{ModelPrice, require, estimate_cost}
use smart_screen_agent.Llm.Usage.{
  LlmCallContext, AttemptRole, Insert, inserted, insert_failed, insert_lost, Try, failed, committed,
  unacknowledged, UsageAttemptHandle, TerminalValues, Terminal, Ledger, ValueError, is_pending,
  valid_count, invalid_input_tokens, invalid_output_tokens, invalid_latency_ms, with_cost, fresh,
  write, begin_at, begin, notify, report, after_try, updates_one, update_attempt, finalize_tries,
  finalize_valid, finalize, validate_terminal_values, abandon_stale_attempts,
}

-- A transaction on the ledger, with the arguments of its caller and what it meets.
pub data Event : Type 0 where
  begins : LlmCallContext → String → AttemptRole → String → ℕ → Insert → Event
  finalizes : Bool → ℕ → (ℕ → Try) → UsageAttemptHandle → TerminalValues → Event
  abandons : (now older_than : ℕ) → Event

unfoldable pub commit : List (String × ModelPrice) → Event → Ledger → Ledger
commit prices (begins context model role prompt now outcome) db =
    (begin prices context model role prompt now outcome db).1
commit prices (finalizes broker_up retries tries handle v) db =
    (finalize broker_up retries tries handle v db).1
commit prices (abandons now older_than) db = (abandon_stale_attempts now older_than db).1

unfoldable pub history : List (String × ModelPrice) → List Event → Ledger → Ledger
history prices [] db = db
history prices (e ∷ es) db = history prices es (commit prices e db)

pub validate_terminal_values-status :
    (price : ModelPrice) (v : TerminalValues) (t : Terminal)
    → validate_terminal_values price v ≡ ok t
    → (t.status ≡ v.status) × (is_pending t.status ≡ false)
unfolding validate_terminal_values
validate_terminal_values-status price v t h = elim (Bool-cases (is_pending v.status)) [
  | inl e ↦ absurd (cc (rw e at h))
  | inr e ↦
      let (a, _, h1) = bind_ok (valid_count invalid_input_tokens v.input_tokens) _ t (rw e at h) in
      let (b, _, h2) = bind_ok (valid_count invalid_output_tokens v.output_tokens) _ t h1 in
      let (c, _, h3) = bind_ok (valid_count invalid_latency_ms v.latency_ms) _ t h2 in
      let (d, _, h4) =
        bind_ok (with_cost (estimate_cost price v.input_tokens v.output_tokens)) _ t h3 in
      (ap (λ x. x.status) (sym (ok_inj h4)), ap (λ x. is_pending x.status) (sym (ok_inj h4)) ∙ e)
]

pub validate_terminal_values-terminal :
    (price : ModelPrice) (v : TerminalValues) (t : Terminal)
    → validate_terminal_values price v ≡ ok t
    → is_pending t.status ≡ false
validate_terminal_values-terminal price v t h = (validate_terminal_values-status price v t h).1

-- What the tries of `finalize` keep, whichever of them commits.
module _ {ℓ} (P : Ledger → Type ℓ) (broker_up : Bool) (i : ℕ) (t : Terminal)
    (updates : (now : ℕ) (db : Ledger) → P db → P (update_attempt i t now db))
    (reports : (now : ℕ) (db : Ledger)
      → updates_one i db ≡ true
      → P db
      → P (notify broker_up i (update_attempt i t now db))) where
  report_kept :
      (b : Bool) (now : ℕ) (db : Ledger)
      → updates_one i db ≡ b
      → P db
      → P (report broker_up b i (update_attempt i t now db)).1
  report_kept true now db e h = reports now db e h
  report_kept false now db e h = updates now db h

  after_try_kept :
      (outcome : Try) (next : Ledger → Bool × Ledger) (db : Ledger)
      → ((db : Ledger) → P db → P (next db).1)
      → P db
      → P (after_try broker_up i t outcome next db).1
  after_try_kept failed next db step h = step db h
  after_try_kept (committed now) next db step h = report_kept (updates_one i db) now db refl h
  after_try_kept (unacknowledged now) next db step h = step _ (updates now db h)

  pub finalize_tries_kept :
      (left : ℕ) (tries : ℕ → Try) (db : Ledger)
      → P db
      → P (finalize_tries broker_up left tries i t db).1
  unfolding finalize_tries
  finalize_tries_kept zero tries db h = h
  finalize_tries_kept (suc left) tries db h =
      after_try_kept (tries left) _ db (finalize_tries_kept left tries) h

-- What a transaction keeps, from what its writes keep.
module _ {ℓ} (P : Ledger → Type ℓ)
    (writes : (context : LlmCallContext) (model : String) (role : AttemptRole) (prompt : String)
        (now : ℕ) (price : ModelPrice) (db : Ledger)
      → P db
      → P (write (fresh context model role prompt now db.next_id price) db))
    (updates : (i : ℕ) (t : Terminal) (now : ℕ) (db : Ledger)
      → is_pending t.status ≡ false
      → P db
      → P (update_attempt i t now db))
    (reports : (i : ℕ) (t : Terminal) (now : ℕ) (db : Ledger)
      → is_pending t.status ≡ false
      → updates_one i db ≡ true
      → P db
      → P (notify true i (update_attempt i t now db)))
    (abandonments : (now older_than : ℕ) (db : Ledger)
      → P db
      → P (abandon_stale_attempts now older_than db).1) where
  insert_kept :
      (outcome : Insert) (context : LlmCallContext) (model : String) (role : AttemptRole)
      (prompt : String) (now : ℕ) (price : Option ModelPrice) (db : Ledger)
      → P db
      → P (begin_at price context model role prompt now outcome db).1
  insert_kept outcome context model role prompt now none db h = h
  insert_kept inserted context model role prompt now (some p) db h =
      writes context model role prompt now p db h
  insert_kept insert_failed context model role prompt now (some p) db h = h
  insert_kept insert_lost context model role prompt now (some p) db h =
      writes context model role prompt now p db h

  notified_kept :
      (b : Bool) (i : ℕ) (t : Terminal) (now : ℕ) (db : Ledger)
      → is_pending t.status ≡ false
      → updates_one i db ≡ true
      → P db
      → P (notify b i (update_attempt i t now db))
  notified_kept true i t now db done e h = reports i t now db done e h
  notified_kept false i t now db done e h = updates i t now db done h

  finalize_valid_kept :
      (broker_up : Bool) (retries : ℕ) (tries : ℕ → Try) (i : ℕ) (r : Result ValueError Terminal)
      (db : Ledger)
      → ((t : Terminal) → r ≡ ok t → is_pending t.status ≡ false)
      → P db
      → P (finalize_valid broker_up retries tries i r db).1
  finalize_valid_kept broker_up retries tries i (raised e) db done h = h
  finalize_valid_kept broker_up retries tries i (ok t) db done h =
      finalize_tries_kept P broker_up i t (λ now db. updates i t now db (done t refl))
        (λ now db. notified_kept broker_up i t now db (done t refl)) retries tries db h

  commit_kept :
      (prices : List (String × ModelPrice)) (e : Event) (db : Ledger)
      → P db
      → P (commit prices e db)
  unfolding commit begin finalize
  commit_kept prices (begins context model role prompt now outcome) db h =
      insert_kept outcome context model role prompt now (require model prices) db h
  commit_kept prices (finalizes broker_up retries tries handle v) db h =
      finalize_valid_kept broker_up retries tries handle.attempt_id _ db
        (validate_terminal_values-terminal handle.price v) h
  commit_kept prices (abandons now older_than) db h = abandonments now older_than db h

  pub history_kept :
      (prices : List (String × ModelPrice)) (es : List Event) (db : Ledger)
      → P db
      → P (history prices es db)
  unfolding history
  history_kept prices [] db h = h
  history_kept prices (e ∷ es) db h = history_kept prices es _ (commit_kept prices e db h)
