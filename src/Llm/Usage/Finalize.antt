-- ===== src/Llm/Usage/Finalize.antt =====
-- What `finalize` does to the row of its attempt.
use smart_screen_agent.Prelude.{
  ℕ, zero, suc, ◌<◌, ◌≡◌, refl, sym, ap, ◌∙◌, Bool, true, false, Bool-cases, inl, inr, some, List,
  [], ◌∷◌, arith, find_first, update_where, some_inj, ◌==◌, Option, none, is_some, Result, raised,
  ok_inj, bind_ok, subst, ltb, ok, ==_iff,
}
use smart_screen_agent.Llm.Pricing.{ModelPrice, InvalidPriceBook, estimate_cost}
use smart_screen_agent.Llm.Usage.{
  TokenCount, not_an_int, below_zero, count, max_tokens, ValueError, invalid_input_tokens,
  invalid_output_tokens, invalid_latency_ms, valid_count, with_cost, Terminal, Ledger,
  LlmUsageAttempt, Try, failed, committed, unacknowledged, UsageAttemptHandle, TerminalValues,
  is_pending, is_open, settle, notify, report, after_try, updates_one, update_attempt,
  finalize_tries, finalize, validate_terminal_values,
}
use smart_screen_agent.Llm.Usage.History.{finalize_tries_kept, validate_terminal_values-terminal}
use smart_screen_agent.Llm.Usage.Settled.{has_id, found-update_where, shut_of_terminal}

-- A count as it is stored.
abbrev pub Counted : Option TokenCount → Option ℕ → Type 0
Counted none stored = stored ≡ none
Counted (some (count n)) stored = stored ≡ some n
Counted (some _) stored = ⊥

-- The row of an attempt after its end with these values: terminal, with the values and their cost,
-- and otherwise as it was.
pub record Ended (v : TerminalValues) (price : ModelPrice) (row row' : LlmUsageAttempt)
    : Type 0 where
  pub finished : is_some row'.finished_at ≡ true
  pub over : is_pending row'.status ≡ false
  pub status : row'.status ≡ v.status
  pub actual_model : row'.actual_model ≡ v.actual_model
  pub input_tokens : Counted v.input_tokens row'.input_tokens
  pub output_tokens : Counted v.output_tokens row'.output_tokens
  pub latency : Counted v.latency_ms row'.latency_ms
  pub error : row'.error_code ≡ v.error_code
  pub cost : estimate_cost price v.input_tokens v.output_tokens ≡ ok row'.estimated_cost_cny
  pub same_call :
      (row'.id ≡ row.id)
      × (row'.context ≡ row.context)
      × (row'.attempt_role ≡ row.attempt_role)
      × (row'.requested_model ≡ row.requested_model)
      × (row'.prompt_version ≡ row.prompt_version)
  pub same_price : row'.price ≡ row.price
  pub same_start : row'.started_at ≡ row.started_at

valid_count-Counted :
    (e : ValueError) (o : Option TokenCount) (r : Option ℕ) → valid_count e o ≡ ok r → Counted o r
valid_count-Counted e none r h = sym (ok_inj h)
valid_count-Counted e (some not_an_int) r h = absurd (cc h)
valid_count-Counted e (some below_zero) r h = absurd (cc h)
valid_count-Counted e (some (count n)) r h = elim (Bool-cases (ltb max_tokens n)) [
  | inl over ↦ absurd (cc (rw over at h))
  | inr fits ↦ sym (ok_inj (rw fits at h))
]

with_cost_inj :
    (r : Result InvalidPriceBook (Option ℕ)) (c : Option ℕ) → with_cost r ≡ ok c → r ≡ ok c
with_cost_inj (ok x) c h = ap ok (ok_inj h)
with_cost_inj (raised e) c h = absurd (cc h)

-- What is written is what was valid.
settle-Ended :
    (v : TerminalValues) (price : ModelPrice) (t : Terminal) (at : ℕ) (row : LlmUsageAttempt)
    → validate_terminal_values price v ≡ ok t
    → Ended v price row (settle t at row)
unfolding validate_terminal_values
settle-Ended v price t at row h = elim (Bool-cases (is_pending v.status)) [
  | inl e ↦ absurd (cc (rw e at h))
  | inr e ↦
      let (a, ha, h1) = bind_ok (valid_count invalid_input_tokens v.input_tokens) _ t (rw e at h) in
      let (b, hb, h2) = bind_ok (valid_count invalid_output_tokens v.output_tokens) _ t h1 in
      let (c, hc, h3) = bind_ok (valid_count invalid_latency_ms v.latency_ms) _ t h2 in
      let (d, hd, h4) =
        bind_ok (with_cost (estimate_cost price v.input_tokens v.output_tokens)) _ t h3 in
      subst (λ x. Ended v price row (settle x at row)) (ok_inj h4)
        (record {
          finished = refl;
          over = e;
          status = refl;
          actual_model = refl;
          input_tokens = valid_count-Counted invalid_input_tokens v.input_tokens a ha;
          output_tokens = valid_count-Counted invalid_output_tokens v.output_tokens b hb;
          latency = valid_count-Counted invalid_latency_ms v.latency_ms c hc;
          error = refl;
          cost = with_cost_inj (estimate_cost price v.input_tokens v.output_tokens) d hd;
          same_call = (refl, refl, refl, refl, refl);
          same_price = refl;
          same_start = refl;
        })
]

try_apart : (now : ℕ) → committed now ≡ failed → ⊥
try_apart now h = cc h

-- The pending row of an id is written over.
found-settled :
    (i : ℕ) (t : Terminal) (now : ℕ) (row : LlmUsageAttempt) (rows : List LlmUsageAttempt)
    → is_pending row.status ≡ true
    → find_first (has_id i) rows ≡ some row
    → find_first (has_id i) (update_where (is_open i) (settle t now) rows) ≡ some (settle t now row)
found-settled i t now row [] p h = absurd (cc h)
found-settled i t now row (x ∷ xs) p h = elim (Bool-cases (x.id == i)) [
  | inl e ↦
      let same = some_inj (rw e at h) in
      rw (e, ap (λ y. is_pending y.status) same ∙ p, e) (ap (λ y. some (settle t now y)) same)
  | inr e ↦ rw (e, e) (found-settled i t now row xs p (rw e at h))
]

module _ (broker_up : Bool) (i : ℕ) (t : Terminal) (row : LlmUsageAttempt)
    (open_before : is_pending row.status ≡ true) (done : is_pending t.status ≡ false) where
  Settled : Ledger → Type 0
  Settled db = (now : ℕ) × (find_first (has_id i) db.attempts ≡ some (settle t now row))

  again :
      (now at : ℕ) (db : Ledger)
      → find_first (has_id i) db.attempts ≡ some (settle t at row)
      → find_first (has_id i) (update_attempt i t now db).attempts ≡ some (settle t at row)
  unfolding update_attempt
  again now at db h =
      found-update_where (has_id i) (is_open i) (settle t now) db.attempts (settle t at row)
        (λ _. refl) (shut_of_terminal i (settle t at row) done) h

  notified : (b : Bool) (db : Ledger) → (notify b i db).attempts ≡ db.attempts
  notified true db = refl
  notified false db = refl

  reported : (b : Bool) (db : Ledger) → (report broker_up b i db).1.attempts ≡ db.attempts
  reported true db = notified broker_up db
  reported false db = refl

  stays :
      (left : ℕ) (tries : ℕ → Try) (db : Ledger)
      → Settled db
      → Settled (finalize_tries broker_up left tries i t db).1
  unfolding Settled
  stays left tries db h =
      finalize_tries_kept Settled broker_up i t (λ now db (at, e). (at, again now at db e))
        (λ now db one (at, e).
          (at, ap (find_first (has_id i)) (notified broker_up _) ∙ again now at db e))
        left tries db h

  first_commit :
      (now : ℕ) (db : Ledger)
      → find_first (has_id i) db.attempts ≡ some row
      → Settled (update_attempt i t now db)
  unfolding Settled update_attempt
  first_commit now db h = (now, found-settled i t now row db.attempts open_before h)

  settles :
      (outcome : Try) (left : ℕ) (tries : ℕ → Try) (db : Ledger)
      → find_first (has_id i) db.attempts ≡ some row
      → ((outcome ≡ failed) → Settled (finalize_tries broker_up left tries i t db).1)
      → Settled (after_try broker_up i t outcome (finalize_tries broker_up left tries i t) db).1
  unfolding Settled
  settles failed left tries db h rest = rest refl
  settles (committed now) left tries db h rest =
      let (at, e) = first_commit now db h in
      (at, ap (find_first (has_id i)) (reported (updates_one i db) _) ∙ e)
  settles (unacknowledged now) left tries db h rest = stays left tries _ (first_commit now db h)

  tries_settle :
      (left k : ℕ) (tries : ℕ → Try) (now : ℕ) (db : Ledger)
      → k < left
      → tries k ≡ committed now
      → find_first (has_id i) db.attempts ≡ some row
      → Settled (finalize_tries broker_up left tries i t db).1
  unfolding finalize_tries
  tries_settle zero k tries now db lt through h = absurd (omega (arith, lt))
  tries_settle (suc left) k tries now db lt through h =
      settles (tries left) left tries db h (λ lost. elim (Bool-cases (k == left)) [
        | inl e ↦ absurd (try_apart now (sym through ∙ ap tries ((==_iff k left).0 e) ∙ lost))
        | inr e ↦ tries_settle left k tries now db (ground arith) through h
      ])

-- A pending row whose values are valid is terminal after `finalize`, with those values, the cost that
-- the price gives for them and an instant of its end, and otherwise as it was, as soon as one of its
-- tries commits.
pub finalize_settles :
    (broker_up : Bool) (retries k : ℕ) (tries : ℕ → Try) (now : ℕ) (handle : UsageAttemptHandle)
    (v : TerminalValues) (t : Terminal) (row : LlmUsageAttempt) (db : Ledger)
    → validate_terminal_values handle.price v ≡ ok t
    → k < retries
    → tries k ≡ committed now
    → find_first (has_id handle.attempt_id) db.attempts ≡ some row
    → is_pending row.status ≡ true
    → (row' : LlmUsageAttempt) × (find_first
          (has_id handle.attempt_id)
          (finalize broker_up retries tries handle v db).1.attempts
        ≡ some row')
      × Ended v handle.price row row'
unfolding finalize Settled
finalize_settles broker_up retries k tries now handle v t row db valid lt through found
      open_before =
    let run =
      tries_settle broker_up handle.attempt_id t row open_before
        (validate_terminal_values-terminal handle.price v t valid) retries k tries now db lt through
        found in
    let (at, e) = run in (settle t at row, rw valid e, settle-Ended v handle.price t at row valid)
