-- ===== src/Llm/Gateway/Calls.antt =====
-- What every sequence of calls through the gateway keeps.
use smart_screen_agent.Prelude.{
  ℕ, ◌+◌, ◌≤◌, ◌≡◌, refl, sym, subst, ap, ◌∙◌, String, Bool, true, false, Option, none, some, List,
  [], ◌∷◌, arith, length, select, length-append, select-append, length-select-update_where, All,
  All-append, All-update_where, same_text, Result, ok, raised, if◌then◌else◌, if-both,
}
use smart_screen_agent.Llm.Pricing.{ModelPrice, require}
use smart_screen_agent.Llm.Usage.{
  Operation, extract, judge, cross_check, lightweight, AttemptRole, primary, fallback, secondary,
  LlmCallContext, Ledger, LlmUsageAttempt, Insert, inserted, insert_failed, insert_lost, Try,
  UsageAttemptHandle, TerminalValues, Terminal, ValueError, fresh, write, begin, begin_at, finalize,
  finalize_valid, validate_terminal_values, update_attempt, notify, is_open, settle,
}
use smart_screen_agent.Llm.Usage.History.{finalize_tries_kept}
use smart_screen_agent.Llm.Gateway.{
  LlmError, LlmResponse, Encounter, Settings, World, Answered, is_supported, close, conclusion,
  close_with, ask, request, after_begin, call_once, call_fallback, is_recoverable, configured,
  retry_with, after_primary, call_with_fallback, fallback_alone, extract_for, run_extract,
  judge_for, run_judge, lightweight_for, run_lightweight,
}

-- What every write of `finalize` keeps, `finalize` keeps.
pub finalize_kept {ℓ} :
    (P : Ledger → Type ℓ) (broker_up : Bool) (retries : ℕ) (tries : ℕ → Try)
    (handle : UsageAttemptHandle) (v : TerminalValues) (db : Ledger)
    → ((i : ℕ) (t : Terminal) (now : ℕ) (db : Ledger) → P db → P (update_attempt i t now db))
    → ((b : Bool) (i : ℕ) (db : Ledger) → P db → P (notify b i db))
    → P db
    → P (finalize broker_up retries tries handle v db).1
unfolding finalize
finalize_kept P broker_up retries tries handle v db updates reports h =
    valid_kept (validate_terminal_values handle.price v)
  where
    valid_kept :
        (r : Result ValueError Terminal)
        → P (finalize_valid broker_up retries tries handle.attempt_id r db).1
    valid_kept (raised e) = h
    valid_kept (ok t) =
        finalize_tries_kept P broker_up handle.attempt_id t (updates handle.attempt_id t)
          (λ now db e h.
            reports broker_up handle.attempt_id _ (updates handle.attempt_id t now db h))
          retries tries db h

abbrev asks : String → String → Bool
asks m s = same_text s m

abbrev records : String → LlmUsageAttempt → Bool
records m row = same_text row.requested_model m

-- How often the provider has been asked for a model, and how many attempts name it.
unfoldable pub asked : String → World → ℕ
asked m w = length (select (asks m) w.requests)

unfoldable pub recorded : String → Ledger → ℕ
recorded m db = length (select (records m) db.attempts)

abbrev pub is_secondary : AttemptRole → Bool
is_secondary secondary = true
is_secondary _ = false

abbrev pub is_cross_check : Operation → Bool
is_cross_check cross_check = true
is_cross_check _ = false

-- The secondary role is that of cross-checks, and of nothing else.
unfoldable pub IsRole : LlmUsageAttempt → Type 0
IsRole row = is_secondary row.attempt_role ≡ is_cross_check row.context.operation

pub record IsCovered (w : World) : Type 0 where
  pub covered : (m : String) → asked m w ≤ recorded m w.ledger
  pub roles : All IsRole w.ledger.attempts

recorded-write :
    (m : String) (row : LlmUsageAttempt) (db : Ledger)
    → recorded m (write row db) ≡ recorded m db + length (select (records m) (row ∷ []))
unfolding recorded
recorded-write m row db =
    ap length (select-append (records m) db.attempts (row ∷ []))
    ∙ length-append (select (records m) db.attempts) _

asked-ask :
    (m model : String) (w : World)
    → asked m (ask model w) ≡ asked m w + length (select (asks m) (model ∷ []))
unfolding asked
asked-ask m model w =
    ap length (select-append (asks m) w.requests (model ∷ []))
    ∙ length-append (select (asks m) w.requests) _

recorded-update :
    (m : String) (i : ℕ) (t : Terminal) (now : ℕ) (db : Ledger)
    → recorded m (update_attempt i t now db) ≡ recorded m db
unfolding recorded update_attempt
recorded-update m i t now db =
    length-select-update_where (is_open i) (records m) (settle t now) db.attempts (λ _. refl)

recorded-notify :
    (m : String) (b : Bool) (i : ℕ) (db : Ledger) → recorded m (notify b i db) ≡ recorded m db
unfolding recorded
recorded-notify m true i db = refl
recorded-notify m false i db = refl

update-roles :
    (i : ℕ) (t : Terminal) (now : ℕ) (db : Ledger)
    → All IsRole db.attempts
    → All IsRole (update_attempt i t now db).attempts
unfolding update_attempt IsRole
update-roles i t now db h =
    All-update_where IsRole (is_open i) (settle t now) db.attempts (λ row r p. r) h

notify-roles :
    (b : Bool) (i : ℕ) (db : Ledger) → All IsRole db.attempts → All IsRole (notify b i db).attempts
notify-roles true i db h = h
notify-roles false i db h = h

asked-close :
    (m : String) (s : Settings) (env : Encounter) (handle : UsageAttemptHandle)
    (c : TerminalValues × Result LlmError LlmResponse) (w : World)
    → asked m (close_with s env handle c w).1 ≡ asked m w
unfolding close asked
asked-close m s env handle (v, result) w = refl

recorded-close :
    (m : String) (s : Settings) (env : Encounter) (handle : UsageAttemptHandle)
    (c : TerminalValues × Result LlmError LlmResponse) (w : World)
    → recorded m (close_with s env handle c w).1.ledger ≡ recorded m w.ledger
unfolding close
recorded-close m s env handle (v, result) w =
    finalize_kept (λ db. recorded m db ≡ recorded m w.ledger) env.broker_up s.finalize_retries
      env.tries handle v w.ledger (λ i t now db e. recorded-update m i t now db ∙ e)
      (λ b i db e. recorded-notify m b i db ∙ e) refl

roles-close :
    (s : Settings) (env : Encounter) (handle : UsageAttemptHandle)
    (c : TerminalValues × Result LlmError LlmResponse) (w : World)
    → All IsRole w.ledger.attempts
    → All IsRole (close_with s env handle c w).1.ledger.attempts
unfolding close
roles-close s env handle (v, result) w h =
    finalize_kept (λ db. All IsRole db.attempts) env.broker_up s.finalize_retries env.tries handle v
      w.ledger update-roles notify-roles h

one_row :
    (row : LlmUsageAttempt) (model : String) (b : Bool)
    → length {A = LlmUsageAttempt} (if b then row ∷ [] else [])
      ≡ length {A = String} (if b then model ∷ [] else [])
one_row row model true = refl
one_row row model false = refl

asked_apart :
    (m : String) (db db' : Ledger) (requests : List String)
    → asked m (record { ledger = db; requests = requests })
      ≡ asked m (record { ledger = db'; requests = requests })
unfolding asked
asked_apart m db db' requests = refl

-- Recording an attempt that names a model allows for one request of that model.
one_more :
    (m model : String) (row : LlmUsageAttempt) (db : Ledger) (requests : List String)
    → row.requested_model ≡ model
    → asked m (record { ledger = db; requests = requests }) ≤ recorded m db
    → asked m (ask model (record { ledger = write row db; requests = requests }))
      ≤ recorded m (write row db)
one_more m model row db requests named h =
    let grown = recorded-write m row db in
    let asked_more = asked-ask m model (record { ledger = write row db; requests = requests }) in
    let one =
      one_row row row.requested_model (same_text row.requested_model m)
      ∙ ap (λ x. length (select (asks m) (x ∷ []))) named in
    let same = asked_apart m db (write row db) requests in omega arith

-- An attempt alone leaves room.
room :
    (m : String) (row : LlmUsageAttempt) (db : Ledger) (n : ℕ)
    → n ≤ recorded m db
    → n ≤ recorded m (write row db)
room m row db n h = let grown = recorded-write m row db in omega arith

module _ (s : Settings) (model prompt : String) (context : LlmCallContext) (role : AttemptRole)
    (env : Encounter) (allowed : is_secondary role ≡ is_cross_check context.operation) where
  new_row : ℕ → ModelPrice → LlmUsageAttempt
  new_row i price = fresh context model role prompt env.started_at i price

  write-roles :
      (i : ℕ) (price : ModelPrice) (db : Ledger)
      → All IsRole db.attempts
      → All IsRole (write (new_row i price) db).attempts
  unfolding IsRole new_row
  write-roles i price db h = All-append IsRole db.attempts _ h (allowed, tt)

  request-IsCovered :
      (supported : Bool) (handle : UsageAttemptHandle) (price : ModelPrice) (w : World)
      → IsCovered w
      → IsCovered
          (request s model prompt context env supported handle (record {
            ledger = write (new_row w.ledger.next_id price) w.ledger;
            requests = w.requests;
          })).1
  unfolding new_row
  request-IsCovered false handle price w h = record {
    covered = λ m.
        subst (λ n. n ≤ recorded m (write (new_row w.ledger.next_id price) w.ledger))
          (asked_apart m w.ledger (write (new_row w.ledger.next_id price) w.ledger) w.requests)
          (room m (new_row w.ledger.next_id price) w.ledger (asked m w) (h.covered m));
    roles = write-roles w.ledger.next_id price w.ledger h.roles;
  }
  request-IsCovered true handle price w h =
      let before : World = record {
        ledger = write (new_row w.ledger.next_id price) w.ledger;
        requests = w.requests;
      } in
      let verdict = conclusion s.is_blank context prompt env.latency_ms env.answer in
      record {
        covered = λ m.
            let stay = recorded-close m s env handle verdict (ask model before) in
            let same = asked-close m s env handle verdict (ask model before) in
            let more =
              one_more m model (new_row w.ledger.next_id price) w.ledger w.requests refl
                (h.covered m) in
            omega arith;
        roles =
            roles-close s env handle verdict (ask model before)
              (write-roles w.ledger.next_id price w.ledger h.roles);
      }

  begun-IsCovered :
      (price : Option ModelPrice) (outcome : Insert) (w : World)
      → IsCovered w
      → IsCovered
          (after_begin s model prompt context env w.requests
            (begin_at price context model role prompt env.started_at outcome w.ledger)).1
  unfolding new_row
  begun-IsCovered none outcome w h = record { covered = h.covered; roles = h.roles }
  begun-IsCovered (some p) insert_failed w h = record { covered = h.covered; roles = h.roles }
  begun-IsCovered (some p) inserted w h =
      request-IsCovered (is_supported s.structured_output_mode) _ p w h
  begun-IsCovered (some p) insert_lost w h =
      request-IsCovered false (record { attempt_id = 0; price = p; started_at = 0 }) p w h

  call_once-IsCovered :
      (w : World) → IsCovered w → IsCovered (call_once s model prompt context role env w).1
  unfolding call_once begin
  call_once-IsCovered w h = begun-IsCovered (require model s.prices) env.insert w h

module _ (s : Settings) (prompt : String) (context : LlmCallContext)
    (plain : is_cross_check context.operation ≡ false) where
  fallback-IsCovered :
      (model : String) (env : Encounter) (w : World)
      → IsCovered w
      → IsCovered (call_fallback s model prompt context env w).1
  unfolding call_fallback
  fallback-IsCovered model env w h =
      call_once-IsCovered s model prompt context fallback env (sym plain) w h

  retry-IsCovered :
      (env : Encounter) (e : LlmError) (model : Option String) (w : World)
      → IsCovered w
      → IsCovered (retry_with s prompt context env e model w).1
  retry-IsCovered env e none w h = h
  retry-IsCovered env e (some model) w h = fallback-IsCovered model env w h

  after_primary-IsCovered :
      (other : Option String) (env : Encounter) (a : Answered)
      → IsCovered a.1
      → IsCovered (after_primary s other prompt context env a).1
  after_primary-IsCovered other env (ok r, w) h = h
  after_primary-IsCovered other env (raised e, w) h =
      if-both {A = Answered} (λ a. IsCovered a.1) (is_recoverable e)
        (retry-IsCovered env e (configured other) w h) h

  both-IsCovered :
      (model : String) (other : Option String) (env env' : Encounter) (w : World)
      → IsCovered w
      → IsCovered (call_with_fallback s model other prompt context env env' w).1
  unfolding call_with_fallback
  both-IsCovered model other env env' w h =
      after_primary-IsCovered other env' _
        (call_once-IsCovered s model prompt context primary env (sym plain) w h)

  alone-IsCovered :
      (model : Option String) (env : Encounter) (w : World)
      → IsCovered w
      → IsCovered (fallback_alone s prompt context env model w).1
  alone-IsCovered none env w h = h
  alone-IsCovered (some model) env w h = fallback-IsCovered model env w h

-- A call through the gateway, with the arguments of its caller and what it meets.
pub data Call : Type 0 where
  extracts : LlmCallContext → Bool → Encounter → Encounter → Call
  judges : LlmCallContext → Option String → AttemptRole → Bool → Encounter → Encounter → Call
  lightens : LlmCallContext → Encounter → Call

unfoldable pub run : Settings → Call → World → Answered
run s (extracts context only env env') w = run_extract s context only env env' w
run s (judges context model role only env env') w = run_judge s context model role only env env' w
run s (lightens context env) w = run_lightweight s context env w

unfoldable pub run_all : Settings → List Call → World → World
run_all s [] w = w
run_all s (c ∷ cs) w = run_all s cs (run s c w).1

extract-IsCovered :
    (s : Settings) (context : LlmCallContext) (o : Operation) (only : Bool) (env env' : Encounter)
    (w : World)
    → context.operation ≡ o
    → IsCovered w
    → IsCovered (extract_for s o context only env env' w).1
extract-IsCovered s context extract true env env' w e h =
    alone-IsCovered s _ context (ap is_cross_check e) _ env w h
extract-IsCovered s context extract false env env' w e h =
    both-IsCovered s _ context (ap is_cross_check e) _ _ env env' w h
extract-IsCovered s context judge only env env' w e h = h
extract-IsCovered s context cross_check only env env' w e h = h
extract-IsCovered s context lightweight only env env' w e h = h

lightweight-IsCovered :
    (s : Settings) (context : LlmCallContext) (o : Operation) (env : Encounter) (w : World)
    → context.operation ≡ o
    → IsCovered w
    → IsCovered (lightweight_for s o context env w).1
lightweight-IsCovered s context lightweight env w e h =
    call_once-IsCovered s _ _ context primary env (sym (ap is_cross_check e)) w h
lightweight-IsCovered s context extract env w e h = h
lightweight-IsCovered s context judge env w e h = h
lightweight-IsCovered s context cross_check env w e h = h

judge-IsCovered :
    (s : Settings) (context : LlmCallContext) (o : Operation) (model : Option String)
    (role : AttemptRole) (only : Bool) (env env' : Encounter) (w : World)
    → context.operation ≡ o
    → IsCovered w
    → IsCovered (judge_for s o model role only context env env' w).1
judge-IsCovered s context cross_check (some model) secondary false env env' w e h =
    call_once-IsCovered s model _ context secondary env (sym (ap is_cross_check e)) w h
judge-IsCovered s context cross_check (some model) secondary true env env' w e h = h
judge-IsCovered s context cross_check (some model) primary only env env' w e h = h
judge-IsCovered s context cross_check (some model) fallback only env env' w e h = h
judge-IsCovered s context cross_check none role only env env' w e h = h
judge-IsCovered s context judge none primary true env env' w e h =
    alone-IsCovered s _ context (ap is_cross_check e) _ env w h
judge-IsCovered s context judge none primary false env env' w e h =
    both-IsCovered s _ context (ap is_cross_check e) _ _ env env' w h
judge-IsCovered s context judge none fallback only env env' w e h = h
judge-IsCovered s context judge none secondary only env env' w e h = h
judge-IsCovered s context judge (some model) role only env env' w e h = h
judge-IsCovered s context extract model role only env env' w e h = h
judge-IsCovered s context lightweight model role only env env' w e h = h

run-IsCovered : (s : Settings) (c : Call) (w : World) → IsCovered w → IsCovered (run s c w).1
unfolding run run_extract run_judge run_lightweight
run-IsCovered s (extracts context only env env') w h =
    extract-IsCovered s context context.operation only env env' w refl h
run-IsCovered s (judges context model role only env env') w h =
    judge-IsCovered s context context.operation model role only env env' w refl h
run-IsCovered s (lightens context env) w h =
    lightweight-IsCovered s context context.operation env w refl h

run_all-kept :
    (s : Settings) (cs : List Call) (w : World) → IsCovered w → IsCovered (run_all s cs w)
unfolding run_all
run_all-kept s [] w h = h
run_all-kept s (c ∷ cs) w h = run_all-kept s cs _ (run-IsCovered s c w h)

abbrev pub no_calls : ℕ → World
no_calls n = record { ledger = record { attempts = []; next_id = n; notified = [] }; requests = [] }

-- Whatever is asked of the gateway, in whatever order, and whatever the provider and the database
-- do: for every model the provider has been asked at most as often as the ledger has attempts that
-- name it, and an attempt has the secondary role exactly when its operation is a cross-check.
pub run_all-IsCovered :
    (s : Settings) (cs : List Call) (n : ℕ) → IsCovered (run_all s cs (no_calls n))
unfolding asked recorded
run_all-IsCovered s cs n =
    run_all-kept s cs (no_calls n) (record { covered = λ m. omega arith; roles = tt })
