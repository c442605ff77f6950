-- ===== src/Operations/Budgets.antt =====
-- backend/app/services/operations/budgets.py. An instant is a number of microseconds; a cost and a
-- budget are numbers of a fixed quantum, and the warning ratio is a fraction. The calendar of the
-- local zone, which datetime and zoneinfo give, is a parameter. Each operation is one transaction.
pub mod Spend
pub mod Periods
pub mod Alerts
pub mod Drained
use smart_screen_agent.Prelude.{
  ℕ, zero, suc, ◌+◌, ◌*◌, min, String, Bool, true, false, ◌&&◌, Option, none, some, List, [], ◌∷◌,
  ◌++◌, any, leb, ltb, ◌==◌, if◌then◌else◌,
}

pub data Scope : Type 0 where
  daily monthly : Scope

pub data Threshold : Type 0 where
  warned passed : Threshold

pub data BudgetState : Type 0 where
  normal warning exceeded : BudgetState

pub record Period : Type 0 where
  pub scope : Scope
  pub start : ℕ
  pub end : ℕ

-- On instants seen in the local zone: `midnight` is `_local_midnight`, `plus_days n` adds days to the
-- local clock, and `first_day` is `replace(day=1)`.
pub record Calendar : Type 0 where
  pub midnight : ℕ → ℕ
  pub plus_days : ℕ → ℕ → ℕ
  pub first_day : ℕ → ℕ

abbrev pub daily_period : Calendar → ℕ → Period
daily_period c now = record {
  scope = daily;
  start = c.midnight now;
  end = c.midnight (c.plus_days 1 (c.midnight now));
}

abbrev pub monthly_period : Calendar → ℕ → Period
monthly_period c now =
    let start = c.midnight (c.first_day now) in
    record { scope = monthly; start = start; end = c.midnight (c.first_day (c.plus_days 32 start)) }

-- `local_periods`; that `now` has a zone is what an instant says.
abbrev pub local_periods : Calendar → ℕ → Period × Period
local_periods c now = (daily_period c now, monthly_period c now)

unfoldable pub period_for : Calendar → Scope → ℕ → Period
period_for c daily moment = (local_periods c moment).0
period_for c monthly moment = (local_periods c moment).1

pub record Settings : Type 0 where
  pub daily_budget : ℕ
  pub monthly_budget : ℕ
  pub warn_numerator : ℕ
  pub warn_denominator : ℕ

abbrev pub budget_for : Scope → Settings → ℕ
budget_for daily s = s.daily_budget
budget_for monthly s = s.monthly_budget

-- `spend >= budget * warn_ratio`
abbrev pub is_warned : Settings → ℕ → ℕ → Bool
is_warned s spend budget = leb (budget * s.warn_numerator) (spend * s.warn_denominator)

unfoldable pub budget_state : Settings → ℕ → ℕ → BudgetState
budget_state s spend budget =
    if leb budget 0
    then (if ltb 0 spend then exceeded else normal)
    else if leb budget spend
    then exceeded
    else if is_warned s spend budget
    then warning
    else normal

abbrev pub thresholds_of : BudgetState → List Threshold
thresholds_of exceeded = warned ∷ passed ∷ []
thresholds_of warning = warned ∷ []
thresholds_of normal = []

unfoldable pub thresholds_crossed : Settings → ℕ → ℕ → List Threshold
unfolding budget_state
thresholds_crossed s spend budget = thresholds_of (budget_state s spend budget)

-- What the aggregates read of `llm_usage_attempts`.
pub record Attempt : Type 0 where
  pub started_at : ℕ
  pub estimated_cost : Option ℕ

pub record BudgetAlert : Type 0 where
  pub threshold : Threshold
  pub scope : Scope
  pub period_start : ℕ
  pub period_end : ℕ
  pub budget : ℕ
  pub spend : ℕ
  pub unknown_cost_count : ℕ

pub record Db : Type 0 where
  pub attempts : List Attempt
  pub alerts : List BudgetAlert
  pub daily_cursor : Option ℕ
  pub monthly_cursor : Option ℕ

abbrev pub is_within : ℕ → ℕ → Attempt → Bool
is_within start end a = leb start a.started_at && ltb a.started_at end

abbrev pub cost_or_zero : Option ℕ → ℕ
cost_or_zero none = 0
cost_or_zero (some c) = c

abbrev pub one_if_unknown : Option ℕ → ℕ
one_if_unknown none = 1
one_if_unknown (some c) = 0

-- `aggregate_period`
unfoldable pub aggregate_period : ℕ → ℕ → List Attempt → ℕ × ℕ
aggregate_period start end [] = (0, 0)
aggregate_period start end (a ∷ rest) =
    let (spend, unknown) = aggregate_period start end rest in
    if is_within start end a
    then (cost_or_zero a.estimated_cost + spend, one_if_unknown a.estimated_cost + unknown)
    else (spend, unknown)

abbrev pub same_scope : Scope → Scope → Bool
same_scope daily daily = true
same_scope monthly monthly = true
same_scope _ _ = false

abbrev pub same_threshold : Threshold → Threshold → Bool
same_threshold warned warned = true
same_threshold passed passed = true
same_threshold _ _ = false

-- The WHERE clause of the search for an alert.
unfoldable pub is_alert : Scope → ℕ → Threshold → BudgetAlert → Bool
is_alert scope start threshold a =
    same_threshold a.threshold threshold && (same_scope a.scope scope && a.period_start == start)

abbrev pub new_alert : Period → ℕ → ℕ → ℕ → Threshold → BudgetAlert
new_alert p budget spend unknown threshold = record {
  threshold = threshold;
  scope = p.scope;
  period_start = p.start;
  period_end = p.end;
  budget = budget;
  spend = spend;
  unknown_cost_count = unknown;
}

-- `_insert_threshold_once`; the advisory lock makes the test and the insert one step.
unfoldable pub insert_threshold_once :
    Period → ℕ → ℕ → ℕ → Threshold → List BudgetAlert → List BudgetAlert
insert_threshold_once p budget spend unknown threshold alerts =
    if any (is_alert p.scope p.start threshold) alerts
    then alerts
    else alerts ++ new_alert p budget spend unknown threshold ∷ []

unfoldable pub insert_thresholds :
    Period → ℕ → ℕ → ℕ → List Threshold → List BudgetAlert → List BudgetAlert
insert_thresholds p budget spend unknown [] alerts = alerts
insert_thresholds p budget spend unknown (t ∷ ts) alerts =
    insert_thresholds p budget spend unknown ts
      (insert_threshold_once p budget spend unknown t alerts)

pub record BudgetEvaluation : Type 0 where
  pub scope : Scope
  pub period_start : ℕ
  pub period_end : ℕ
  pub budget : ℕ
  pub spend : ℕ
  pub unknown_cost_count : ℕ
  pub state : BudgetState

unfoldable pub crossed : Settings → Period → List Attempt → List Threshold
crossed s p attempts =
    thresholds_crossed s (aggregate_period p.start p.end attempts).0 (budget_for p.scope s)

-- `_evaluate_period`
unfoldable pub evaluate_period : Settings → Period → Db → BudgetEvaluation × Db
evaluate_period s p db =
    let (spend, unknown) = aggregate_period p.start p.end db.attempts in
    let budget = budget_for p.scope s in
    (
      record {
        scope = p.scope;
        period_start = p.start;
        period_end = p.end;
        budget = budget;
        spend = spend;
        unknown_cost_count = unknown;
        state = budget_state s spend budget;
      },
      record db {
        alerts = insert_thresholds p budget spend unknown (crossed s p db.attempts) db.alerts;
      },
    )

unfoldable pub evaluate_current_budgets : Calendar → Settings → ℕ → Db → List BudgetEvaluation × Db
evaluate_current_budgets c s now db =
    let (day, db') = evaluate_period s (local_periods c now).0 db in
    let (month, db'') = evaluate_period s (local_periods c now).1 db' in (day ∷ month ∷ [], db'')

abbrev pub earlier : ℕ → Option ℕ → ℕ
earlier t none = t
earlier t (some u) = min t u

-- `min(started_at)` by SQL.
unfoldable pub earliest : List Attempt → Option ℕ
earliest [] = none
earliest (a ∷ rest) = some (earlier a.started_at (earliest rest))

abbrev pub or_now : ℕ → Option ℕ → ℕ
or_now now none = now
or_now now (some t) = t

unfoldable pub initial_cursor_start : Calendar → Scope → ℕ → List Attempt → ℕ
initial_cursor_start c scope now attempts =
    (period_for c scope (or_now now (earliest attempts))).start

abbrev pub cursor_of : Scope → Db → Option ℕ
cursor_of daily db = db.daily_cursor
cursor_of monthly db = db.monthly_cursor

abbrev pub set_cursor : Scope → ℕ → Db → Db
set_cursor daily t db = record db { daily_cursor = some t }
set_cursor monthly t db = record db { monthly_cursor = some t }

-- The cursor after INSERT ... ON CONFLICT DO NOTHING.
abbrev pub cursor_or : ℕ → Option ℕ → ℕ
cursor_or start none = start
cursor_or start (some t) = t

-- One round of the loop: the period is evaluated and the cursor moves to the next one.
abbrev pub finish_period : Calendar → Settings → Scope → Period → Db → Db
finish_period c s scope p db =
    set_cursor scope (period_for c scope p.end).start (evaluate_period s p db).1

-- The loop, with the periods that are left.
unfoldable pub drain : Calendar → Settings → Scope → ℕ → ℕ → Period → Db → ℕ × Db
drain c s scope now zero p db = (0, db)
drain c s scope now (suc n) p db = elim (leb p.end now) [
  | false ↦ (0, db)
  | true ↦
      let (done, db') =
        drain c s scope now n (period_for c scope p.end) (finish_period c s scope p db) in
      (suc done, db')
]

unfoldable pub cursor_start : Calendar → Scope → ℕ → Db → ℕ
cursor_start c scope now db =
    cursor_or (initial_cursor_start c scope now db.attempts) (cursor_of scope db)

unfoldable pub reconcile_budget_scope : Calendar → Settings → Scope → ℕ → ℕ → Db → ℕ × Db
reconcile_budget_scope c s scope now max_periods db =
    let start = cursor_start c scope now db in
    drain c s scope now max_periods (period_for c scope start) (set_cursor scope start db)

pub record ReconcileReport : Type 0 where
  pub daily_processed : ℕ
  pub monthly_processed : ℕ
  pub current : List BudgetEvaluation

unfoldable pub reconcile_budgets : Calendar → Settings → ℕ → ℕ → Db → ReconcileReport × Db
reconcile_budgets c s now max_periods db =
    let (days, db1) = reconcile_budget_scope c s daily now max_periods db in
    let (months, db2) = reconcile_budget_scope c s monthly now max_periods db1 in
    let (current, db3) = evaluate_current_budgets c s now db2 in
    (record { daily_processed = days; monthly_processed = months; current = current }, db3)
