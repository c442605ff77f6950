-- ===== src/Operations/Budgets/Spend.antt =====
-- What the periods cost and which thresholds are due, as a description of its own.
use smart_screen_agent.Prelude.{
  ℕ, ◌+◌, ◌*◌, ◌≡◌, refl, ap, Bool, true, false, not, ◌&&◌, ◌||◌, Option, none, some, is_some, List,
  [], ◌∷◌, any, select, length, arith, ltb, leb, ◌==◌, if◌then◌else◌,
}
use smart_screen_agent.Operations.Budgets.{
  Scope, daily, monthly, Threshold, warned, passed, Settings, Attempt, aggregate_period,
  budget_state, cost_or_zero, one_if_unknown, thresholds_crossed, same_threshold, budget_for,
}

abbrev pub budget_in : Settings → Scope → ℕ
budget_in s daily = s.daily_budget
budget_in s monthly = s.monthly_budget

-- The attempts that started in the window, its end left out.
abbrev pub in_window : ℕ → ℕ → Attempt → Bool
in_window start end a = leb start a.started_at && ltb a.started_at end

unfoldable pub sum_costs : List Attempt → ℕ
sum_costs [] = 0
sum_costs (a ∷ rest) = elim a.estimated_cost [ none ↦ 0 | some c ↦ c ] + sum_costs rest

unfoldable pub spend_in : ℕ → ℕ → List Attempt → ℕ
spend_in start end attempts = sum_costs (select (in_window start end) attempts)

unfoldable pub unknown_in : ℕ → ℕ → List Attempt → ℕ
unknown_in start end attempts =
    length (select (λ a. not (is_some a.estimated_cost)) (select (in_window start end) attempts))

-- A budget is passed when it is reached, and a budget of nothing by any spend.
abbrev pub is_passed : ℕ → ℕ → Bool
is_passed budget spend = if budget == 0 then ltb 0 spend else leb budget spend

-- The warning is due with the budget passed, or from the settings' share of it on.
abbrev pub is_due : Settings → ℕ → ℕ → Threshold → Bool
is_due s budget spend passed = is_passed budget spend
is_due s budget spend warned =
    is_passed budget spend
    || (ltb 0 budget && leb (budget * s.warn_numerator) (spend * s.warn_denominator))

pub aggregate-spend :
    (start end : ℕ) (attempts : List Attempt)
    → (aggregate_period start end attempts).0 ≡ spend_in start end attempts
unfolding aggregate_period spend_in sum_costs
aggregate-spend start end [] = refl
aggregate-spend start end (a ∷ rest) =
    let r = aggregate_period start end rest in
    elim (in_window start end a)
      as (λ c.
        (if c
          then (cost_or_zero a.estimated_cost + r.0, one_if_unknown a.estimated_cost + r.1)
          else r).0
        ≡ sum_costs (
            if c
            then a ∷ select (in_window start end) rest
            else select (in_window start end) rest)) [
              | true ↦ with_cost a.estimated_cost (aggregate-spend start end rest)
              | false ↦ aggregate-spend start end rest
            ]
  where
    with_cost :
        (o : Option ℕ) {m n : ℕ} → m ≡ n → cost_or_zero o + m ≡ elim o [ none ↦ 0 | some c ↦ c ] + n
    with_cost none e = omega (arith, e)
    with_cost (some c) e = ap (λ x. c + x) e

pub aggregate-unknown :
    (start end : ℕ) (attempts : List Attempt)
    → (aggregate_period start end attempts).1 ≡ unknown_in start end attempts
unfolding aggregate_period unknown_in
aggregate-unknown start end [] = refl
aggregate-unknown start end (a ∷ rest) =
    let r = aggregate_period start end rest in
    elim (in_window start end a)
      as (λ c.
        (if c
          then (cost_or_zero a.estimated_cost + r.0, one_if_unknown a.estimated_cost + r.1)
          else r).1
        ≡ length (
            select (λ x. not (is_some x.estimated_cost))
              (if c
                then a ∷ select (in_window start end) rest
                else select (in_window start end) rest))) [
                  | true ↦ counted a.estimated_cost _ (aggregate-unknown start end rest)
                  | false ↦ aggregate-unknown start end rest
                ]
  where
    counted :
        (o : Option ℕ) {m : ℕ} (xs : List Attempt)
        → m ≡ length xs
        → one_if_unknown o + m ≡ length (if not (is_some o) then a ∷ xs else xs)
    counted none xs e = omega (arith, e)
    counted (some c) xs e = omega (arith, e)

pub budget_for-budget_in : (s : Settings) (scope : Scope) → budget_for scope s ≡ budget_in s scope
budget_for-budget_in s daily = refl
budget_for-budget_in s monthly = refl

pub thresholds_due :
    (s : Settings) (budget spend : ℕ) (t : Threshold)
    → any (λ u. same_threshold u t) (thresholds_crossed s spend budget) ≡ is_due s budget spend t
unfolding thresholds_crossed budget_state
thresholds_due s budget spend warned = ground arith
thresholds_due s budget spend passed = ground arith
