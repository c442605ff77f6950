-- ===== src/Operations/Budgets/Periods.antt =====
-- The periods of a calendar: each begins where the one before ends.
use smart_screen_agent.Prelude.{ℕ, ◌≤◌, ◌<◌, ◌≡◌}
use smart_screen_agent.Operations.Budgets.{Scope, daily, monthly, Calendar, period_for}

-- What datetime and zoneinfo promise: a day's midnight is not after any instant of the day, the next
-- one is, a midnight is its own day's, and so for months.
pub record IsCalendar (c : Calendar) : Type 0 where
  pub midnight_le : (t : ℕ) → c.midnight t ≤ t
  pub next_midnight : (t : ℕ) → t < c.midnight (c.plus_days 1 (c.midnight t))
  pub midnight_midnight : (t : ℕ) → c.midnight (c.midnight t) ≡ c.midnight t
  pub month_le : (t : ℕ) → c.midnight (c.first_day t) ≤ t
  pub next_month :
      (t : ℕ) → t < c.midnight (c.first_day (c.plus_days 32 (c.midnight (c.first_day t))))
  pub month_month :
      (t : ℕ) → c.midnight (c.first_day (c.midnight (c.first_day t))) ≡ c.midnight (c.first_day t)

module _ (c : Calendar) (h : IsCalendar c) where
  pub start_of_start :
      (scope : Scope) (t : ℕ)
      → (period_for c scope (period_for c scope t).start).start ≡ (period_for c scope t).start
  unfolding period_for
  start_of_start daily t = h.midnight_midnight t
  start_of_start monthly t = h.month_month t

  pub start_of_end :
      (scope : Scope) (t : ℕ)
      → (period_for c scope (period_for c scope t).end).start ≡ (period_for c scope t).end
  unfolding period_for
  start_of_end daily t = h.midnight_midnight (c.plus_days 1 (c.midnight t))
  start_of_end monthly t = h.month_month (c.plus_days 32 (c.midnight (c.first_day t)))

  pub in_period :
      (scope : Scope) (t : ℕ)
      → ((period_for c scope t).start ≤ t) × (t < (period_for c scope t).end)
  unfolding period_for
  in_period daily t = (h.midnight_le t, h.next_midnight t)
  in_period monthly t = (h.month_le t, h.next_month t)
