-- ===== src/Operations/Tests.antt =====
-- A concrete calendar, in which a day has ten instants and a month thirty days, and budgets over it.
use smart_screen_agent.Prelude.{ℕ, ◌+◌, ◌*◌, ◌/◌, ◌≡◌, refl, none, some, [], ◌∷◌, arith, length}
use smart_screen_agent.Operations.Budgets.{
  Calendar, Settings, Db, daily, cursor_start, initial_cursor_start, earliest,
  reconcile_budget_scope, drain, evaluate_period, aggregate_period, crossed, thresholds_crossed,
  insert_thresholds, insert_threshold_once, is_alert, period_for,
}
use smart_screen_agent.Operations.Budgets.Periods.{IsCalendar}
use smart_screen_agent.Operations.Budgets.Drained.{
  Starts, IsDrained, reconcile_budget_scope-IsDrained,
}

abbrev calendar : Calendar
calendar = record {
  midnight = λ t. t / 10 * 10;
  plus_days = λ n t. t + 10 * n;
  first_day = λ t. t / 300 * 300;
}

calendar-IsCalendar : IsCalendar calendar
calendar-IsCalendar = record {
  midnight_le = λ t. omega arith;
  next_midnight = λ t. omega arith;
  midnight_midnight = λ t. omega arith;
  month_le = λ t. omega arith;
  next_month = λ t. omega arith;
  month_month = λ t. omega arith;
}

abbrev settings : Settings
settings = record {
  daily_budget = 100;
  monthly_budget = 1500;
  warn_numerator = 8;
  warn_denominator = 10;
}

-- The first day is over its budget, the second one at its warning; the third is not over.
abbrev ledger : Db
ledger = record {
  attempts =
      record { started_at = 12; estimated_cost = some 120 }
      ∷ record { started_at = 25; estimated_cost = some 80 }
      ∷ record { started_at = 27; estimated_cost = none }
      ∷ [];
  alerts = [];
  daily_cursor = none;
  monthly_cursor = none;
}

drained : (reconcile_budget_scope calendar settings daily 38 31 ledger).0 ≡ 2
unfolding reconcile_budget_scope cursor_start initial_cursor_start earliest drain evaluate_period
    aggregate_period crossed thresholds_crossed insert_thresholds insert_threshold_once is_alert
    period_for
drained = refl

alerted : length (reconcile_budget_scope calendar settings daily 38 31 ledger).1.alerts ≡ 3
unfolding reconcile_budget_scope cursor_start initial_cursor_start earliest drain evaluate_period
    aggregate_period crossed thresholds_crossed insert_thresholds insert_threshold_once is_alert
    period_for
alerted = refl

reconcile_budget_scope-IsDrained_example :
    (start : ℕ) × Starts calendar daily 38 ledger none start
    × IsDrained calendar settings daily 38 31 start ledger
        (reconcile_budget_scope calendar settings daily 38 31 ledger).0
        (reconcile_budget_scope calendar settings daily 38 31 ledger).1
reconcile_budget_scope-IsDrained_example =
    reconcile_budget_scope-IsDrained calendar calendar-IsCalendar settings daily 38 31 ledger
      (λ t e. absurd (cc e)) (λ k. omega arith)
