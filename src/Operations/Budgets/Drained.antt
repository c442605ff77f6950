-- ===== src/Operations/Budgets/Drained.antt =====
-- The specification of a reconciliation, and that the loop over the cursor implements it.
use mathlib.Core.List.{append_assoc, append-nil}
use smart_screen_agent.Prelude.{
  ℕ, zero, suc, ◌≤◌, ◌<◌, ◌≡◌, refl, sym, ap, subst, ◌∙◌, ◌⊎◌, inl, inr, Bool, true, false, ◌||◌,
  Option, none, some, List, [], ◌∷◌, ◌++◌, arith, All, length, leb, Bool-cases,
}
use smart_screen_agent.Operations.Budgets.{
  Scope, daily, monthly, Period, Calendar, Settings, Db, Attempt, BudgetAlert, or_now, earliest,
  period_for, evaluate_period, cursor_of, set_cursor, finish_period, drain, cursor_start, cursor_or,
  initial_cursor_start, reconcile_budget_scope,
}
use smart_screen_agent.Operations.Budgets.Periods.{IsCalendar, start_of_start, start_of_end}
use smart_screen_agent.Operations.Budgets.Alerts.{
  Key, has_alert, owes, Told, Adds, Once, evaluate_period-has, evaluate_period-Once,
  evaluate_period-Adds,
}

-- The periods follow one another from the first instant to the last.
abbrev pub Follow : Calendar → Scope → ℕ → List Period → ℕ → Type 0
Follow c scope start [] finish = start ≡ finish
Follow c scope start (p ∷ ps) finish =
    (p ≡ period_for c scope start) × (p.start ≡ start) × Follow c scope p.end ps finish

-- One of the periods owes the alert.
unfoldable pub any_owes : Settings → Key → Db → List Period → Bool
any_owes s k db [] = false
any_owes s k db (p ∷ ps) = owes s k p db.attempts || any_owes s k db ps

-- The new alerts of the periods, one period after another, with what each cost.
abbrev pub Added : Settings → List Attempt → List Period → List BudgetAlert → Type 0
Added s attempts [] news = news ≡ []
Added s attempts (p ∷ ps) news =
    (these : List BudgetAlert) × (rest : List BudgetAlert) × (news ≡ these ++ rest)
    × All (Told s attempts p) these
    × Added s attempts ps rest

-- Where the other scope stands, which a reconciliation of one scope leaves alone.
abbrev pub other_cursor : Scope → Db → Option ℕ
other_cursor daily db = db.monthly_cursor
other_cursor monthly db = db.daily_cursor

-- From a cursor, `done` periods were handled: the oldest that follow it, all of them over by now, as
-- many as the limit allows or until the next is not over. The alerts afterwards are those before,
-- unchanged, and those that these periods owe, each once and telling what its period cost; the cursor
-- stands where the last one ends, and the ledger and the other scope's cursor are as they were.
pub record IsDrained (c : Calendar) (s : Settings) (scope : Scope) (now limit start : ℕ)
    (before : Db) (done : ℕ) (after : Db) : Type 0 where
  pub periods : List Period
  pub finish : ℕ
  pub counted : done ≡ length periods
  pub follow : Follow c scope start periods finish
  pub ended : All (λ p. p.end ≤ now) periods
  pub limited : done ≤ limit
  pub complete : (done ≡ limit) ⊎ (now < (period_for c scope finish).end)
  pub cursor : cursor_of scope after ≡ some finish
  pub alerts :
      (k : Key)
      → has_alert k after.alerts ≡ (any_owes s k before periods || has_alert k before.alerts)
  pub once : Once after.alerts
  pub news : List BudgetAlert
  pub added : after.alerts ≡ before.alerts ++ news
  pub told : Added s before.attempts periods news
  pub other : other_cursor scope after ≡ other_cursor scope before
  pub attempts : after.attempts ≡ before.attempts

cursor-set : (scope : Scope) (t : ℕ) (db : Db) → cursor_of scope (set_cursor scope t db) ≡ some t
cursor-set daily t db = refl
cursor-set monthly t db = refl

alerts-set : (scope : Scope) (t : ℕ) (db : Db) → (set_cursor scope t db).alerts ≡ db.alerts
alerts-set daily t db = refl
alerts-set monthly t db = refl

attempts-set : (scope : Scope) (t : ℕ) (db : Db) → (set_cursor scope t db).attempts ≡ db.attempts
attempts-set daily t db = refl
attempts-set monthly t db = refl

other-set :
    (scope : Scope) (t : ℕ) (db : Db)
    → other_cursor scope (set_cursor scope t db) ≡ other_cursor scope db
other-set daily t db = refl
other-set monthly t db = refl

other-evaluate :
    (s : Settings) (scope : Scope) (p : Period) (db : Db)
    → other_cursor scope (evaluate_period s p db).1 ≡ other_cursor scope db
unfolding evaluate_period
other-evaluate s daily p db = refl
other-evaluate s monthly p db = refl

attempts-evaluate :
    (s : Settings) (p : Period) (db : Db) → (evaluate_period s p db).1.attempts ≡ db.attempts
unfolding evaluate_period
attempts-evaluate s p db = refl

-- What the periods owe depends on the ledger only.
any_owes-attempts :
    (s : Settings) (k : Key) (db db' : Db) (ps : List Period)
    → db'.attempts ≡ db.attempts
    → any_owes s k db' ps ≡ any_owes s k db ps
unfolding any_owes
any_owes-attempts s k db db' [] e = refl
any_owes-attempts s k db db' (p ∷ ps) e =
    ap (λ l. owes s k p l || any_owes s k db' ps) e
    ∙ ap (λ b. owes s k p db.attempts || b) (any_owes-attempts s k db db' ps e)

or_swap : (a b c : Bool) → (a || (b || c)) ≡ ((b || a) || c)
or_swap true true c = refl
or_swap true false c = refl
or_swap false true c = refl
or_swap false false c = refl

module _ (c : Calendar) (h : IsCalendar c) (s : Settings) (scope : Scope) (now : ℕ) where
  stopped :
      (limit t : ℕ) (db : Db)
      → (0 ≡ limit) ⊎ (now < (period_for c scope t).end)
      → cursor_of scope db ≡ some t
      → Once db.alerts
      → IsDrained c s scope now limit t db 0 db
  unfolding any_owes
  stopped limit t db why cursor once = record {
    periods = [];
    finish = t;
    counted = refl;
    follow = refl;
    ended = tt;
    limited = omega arith;
    complete = why;
    cursor = cursor;
    alerts = λ k. refl;
    once = once;
    news = [];
    added = sym (append-nil db.alerts);
    told = refl;
    other = refl;
    attempts = refl;
  }

  -- A period that is over, and then the rest.
  went_on :
      (limit t done : ℕ) (db after : Db)
      → (period_for c scope t).start ≡ t
      → (period_for c scope t).end ≤ now
      → IsDrained c s scope now limit
          (period_for c scope t).end
          (finish_period c s scope (period_for c scope t) db)
          done
          after
      → IsDrained c s scope now (suc limit) t db (suc done) after
  unfolding any_owes
  went_on limit t done db after starts over r = record {
    periods = period_for c scope t ∷ r.periods;
    finish = r.finish;
    counted = ap suc r.counted;
    follow = (refl, starts, r.follow);
    ended = (over, r.ended);
    limited = omega (arith, r.limited);
    complete = elim r.complete [ inl e ↦ inl (ap suc e) | inr e ↦ inr e ];
    cursor = r.cursor;
    alerts = λ k. owed k;
    once = r.once;
    news = evaluated.0 ++ r.news;
    added =
        r.added
        ∙ ap (λ l. l ++ r.news) (alerts-set scope _ (evaluate_period s p db).1 ∙ evaluated.1)
        ∙ append_assoc db.alerts evaluated.0 r.news;
    told = (
      evaluated.0,
      r.news,
      refl,
      evaluated.2,
      subst (λ l. Added s l r.periods r.news) same r.told,
    );
    other = r.other ∙ other-set scope _ (evaluate_period s p db).1 ∙ other-evaluate s scope p db;
    attempts = r.attempts ∙ same;
  }
    where
      evaluated :
          Adds
            (Told s db.attempts (period_for c scope t))
            db.alerts
            (evaluate_period s (period_for c scope t) db).1.alerts
      evaluated = evaluate_period-Adds s (period_for c scope t) db

      p : Period
      p = period_for c scope t

      next : Db
      next = finish_period c s scope p db

      same : next.attempts ≡ db.attempts
      same = attempts-set scope _ (evaluate_period s p db).1 ∙ attempts-evaluate s p db

      owed :
          (k : Key)
          → has_alert k after.alerts
            ≡ ((owes s k p db.attempts || any_owes s k db r.periods) || has_alert k db.alerts)
      owed k =
          r.alerts k
          ∙ ap (λ b. b || has_alert k next.alerts) (any_owes-attempts s k db next r.periods same)
          ∙ ap (λ l. any_owes s k db r.periods || has_alert k l)
              (alerts-set scope _ (evaluate_period s p db).1)
          ∙ ap (λ b. any_owes s k db r.periods || b) (evaluate_period-has s p db k)
          ∙ or_swap (any_owes s k db r.periods) (owes s k p db.attempts) (has_alert k db.alerts)

  drain-IsDrained :
      (limit t : ℕ) (db : Db)
      → (period_for c scope t).start ≡ t
      → cursor_of scope db ≡ some t
      → Once db.alerts
      → IsDrained c s scope now limit t db
          (drain c s scope now limit (period_for c scope t) db).0
          (drain c s scope now limit (period_for c scope t) db).1
  unfolding drain
  drain-IsDrained zero t db starts cursor once = stopped zero t db (inl refl) cursor once
  drain-IsDrained (suc n) t db starts cursor once =
      elim (Bool-cases (leb (period_for c scope t).end now)) [
        | inr e ↦ rw (e, drain) (stopped (suc n) t db (inr (ground (arith, e))) cursor once)
        | inl e ↦
            rw (e, drain)
              (went_on n t _ db _ starts (ground (arith, e)) (
                drain-IsDrained n (period_for c scope t).end
                  (finish_period c s scope (period_for c scope t) db) (start_of_end c h scope t)
                  moved kept))
      ]
    where
      p : Period
      p = period_for c scope t

      next : Db
      next = finish_period c s scope p db

      moved : cursor_of scope next ≡ some p.end
      moved = cursor-set scope _ (evaluate_period s p db).1 ∙ ap some (start_of_end c h scope t)

      kept : Once next.alerts
      kept =
          subst Once (sym (alerts-set scope _ (evaluate_period s p db).1))
            (evaluate_period-Once s p db once)

  started :
      (db : Db)
      → ((t : ℕ) → cursor_of scope db ≡ some t → (period_for c scope t).start ≡ t)
      → (o : Option ℕ) → cursor_of scope db ≡ o
      → (period_for c scope (cursor_or (initial_cursor_start c scope now db.attempts) o)).start
        ≡ cursor_or (initial_cursor_start c scope now db.attempts) o
  unfolding initial_cursor_start
  started db aligned none e = start_of_start c h scope _
  started db aligned (some t) e = aligned t e

-- Where a reconciliation starts: at the stored cursor, or at the start of the period of the earliest
-- attempt, of now if there is none.
abbrev pub Starts : Calendar → Scope → ℕ → Db → Option ℕ → ℕ → Type 0
Starts c scope now db (some t) start = start ≡ t
Starts c scope now db none start =
    start ≡ (period_for c scope (or_now now (earliest db.attempts))).start

start-Starts :
    (c : Calendar) (scope : Scope) (now : ℕ) (db : Db) (o : Option ℕ)
    → Starts c scope now db o (cursor_or (initial_cursor_start c scope now db.attempts) o)
unfolding initial_cursor_start
start-Starts c scope now db none = refl
start-Starts c scope now db (some t) = refl

-- Storing the cursor first changes nothing else.
stored-IsDrained :
    (c : Calendar) (s : Settings) (scope : Scope) (now limit start done : ℕ) (db after : Db)
    → IsDrained c s scope now limit start (set_cursor scope start db) done after
    → IsDrained c s scope now limit start db done after
stored-IsDrained c s scope now limit start done db after r =
    let same = attempts-set scope start db in
    record {
      periods = r.periods;
      finish = r.finish;
      counted = r.counted;
      follow = r.follow;
      ended = r.ended;
      limited = r.limited;
      complete = r.complete;
      cursor = r.cursor;
      alerts = λ k.
          r.alerts k
          ∙ ap (λ b. b || has_alert k (set_cursor scope start db).alerts)
              (any_owes-attempts s k db (set_cursor scope start db) r.periods same)
          ∙ ap (λ l. any_owes s k db r.periods || has_alert k l) (alerts-set scope start db);
      once = r.once;
      news = r.news;
      added = r.added ∙ ap (λ l. l ++ r.news) (alerts-set scope start db);
      told = subst (λ l. Added s l r.periods r.news) same r.told;
      other = r.other ∙ other-set scope start db;
      attempts = r.attempts ∙ same;
    }

-- With a calendar that keeps its promises, and a cursor that stands at the start of a period if there
-- is one, reconciling a scope does this and no more: from its cursor on, or from the period of the
-- earliest attempt or of now if it has none, it handles the oldest periods, one after another and
-- all over by now, as many as the limit allows or until the next one is not over; it adds the alerts
-- of the thresholds that are due by what these periods cost, each at most once, never one that is
-- there, and telling that cost and the budget; and it moves the cursor to the end of the last of
-- them. The alerts before, the ledger and the other scope's cursor stay.
pub reconcile_budget_scope-IsDrained :
    (c : Calendar) (h : IsCalendar c) (s : Settings) (scope : Scope) (now limit : ℕ) (db : Db)
    → ((t : ℕ) → cursor_of scope db ≡ some t → (period_for c scope t).start ≡ t)
    → Once db.alerts
    → (start : ℕ) × Starts c scope now db (cursor_of scope db) start
      × IsDrained c s scope now limit start db
          (reconcile_budget_scope c s scope now limit db).0
          (reconcile_budget_scope c s scope now limit db).1
unfolding reconcile_budget_scope cursor_start
reconcile_budget_scope-IsDrained c h s scope now limit db aligned once =
    let start = cursor_start c scope now db in
    (
      start,
      start-Starts c scope now db (cursor_of scope db),
      stored-IsDrained c s scope now limit start _ db _ (
          drain-IsDrained c h s scope now limit start (set_cursor scope start db)
            (started c h s scope now db aligned (cursor_of scope db) refl)
            (cursor-set scope start db) (subst Once (sym (alerts-set scope start db)) once)),
    )
