-- ===== src/Operations/Budgets/Alerts.antt =====
-- What the evaluation of a period adds to the alerts.
use mathlib.Core.Path.{fun_ext}
use mathlib.Core.List.{append_assoc, append-nil}
use smart_screen_agent.Prelude.{
  ℕ, ◌≤◌, ◌≡◌, refl, sym, ap, ◌∙◌, Bool, true, false, ◌&&◌, ◌||◌, List, [], ◌∷◌, ◌++◌, All, arith,
  any, any-append, length, select, length-select-insert, ◌==◌, Bool-cases, inl, inr, if◌then◌else◌,
}
use smart_screen_agent.Operations.Budgets.{
  Scope, Threshold, Period, BudgetAlert, Db, Settings, same_scope, same_threshold, is_alert,
  new_alert, insert_threshold_once, insert_thresholds, evaluate_period, crossed, budget_for,
  Attempt, aggregate_period,
}
use smart_screen_agent.Operations.Budgets.Spend.{
  budget_in, spend_in, unknown_in, is_due, aggregate-spend, aggregate-unknown, budget_for-budget_in,
  thresholds_due,
}

-- Which alert: its period, by scope and start, and its threshold.
pub record Key : Type 0 where
  pub scope : Scope
  pub start : ℕ
  pub threshold : Threshold

abbrev pub is_key : Key → BudgetAlert → Bool
is_key k a =
    same_threshold a.threshold k.threshold
    && (same_scope a.scope k.scope && a.period_start == k.start)

unfoldable pub has_alert : Key → List BudgetAlert → Bool
has_alert k alerts = any (is_key k) alerts

-- The key is one of the period's, and its threshold is due by what the period cost.
unfoldable pub owes : Settings → Key → Period → List Attempt → Bool
owes s k p attempts =
    is_due s (budget_in s p.scope) (spend_in p.start p.end attempts) k.threshold
    && (same_scope p.scope k.scope && p.start == k.start)

-- What an alert tells of its period.
pub record Told (s : Settings) (attempts : List Attempt) (p : Period) (a : BudgetAlert)
    : Type 0 where
  pub scope : a.scope ≡ p.scope
  pub start : a.period_start ≡ p.start
  pub end : a.period_end ≡ p.end
  pub budget : a.budget ≡ budget_in s p.scope
  pub spend : a.spend ≡ spend_in p.start p.end attempts
  pub unknown : a.unknown_cost_count ≡ unknown_in p.start p.end attempts

-- The key is one of the period's, with one of these thresholds.
unfoldable is_owed : Key → Period → List Threshold → Bool
is_owed k p [] = false
is_owed k p (t ∷ ts) =
    (same_threshold t k.threshold && (same_scope p.scope k.scope && p.start == k.start))
    || is_owed k p ts

-- No alert twice.
abbrev pub Once : List BudgetAlert → Type 0
Once alerts = (k : Key) → length (select (is_key k) alerts) ≤ 1

or_swap : (a b : Bool) → (b || (if a then true else false)) ≡ (a || b)
or_swap true true = refl
or_swap true false = refl
or_swap false true = refl
or_swap false false = refl

or_swap3 : (a b c : Bool) → (a || (b || c)) ≡ ((b || a) || c)
or_swap3 true true c = refl
or_swap3 true false c = refl
or_swap3 false true c = refl
or_swap3 false false c = refl

module _ (p : Period) (budget spend unknown : ℕ) where
  -- A key that the new alert has is the key that was looked for.
  same_alert :
      (k : Key) (t : Threshold)
      → is_key k (new_alert p budget spend unknown t) ≡ true
      → (a : BudgetAlert) → is_key k a ≡ is_alert p.scope p.start t a
  unfolding is_alert
  same_alert k t h a = ground arith

  insert_threshold_once-has :
      (k : Key) (t : Threshold) (alerts : List BudgetAlert)
      → any (is_key k) (insert_threshold_once p budget spend unknown t alerts)
        ≡ (is_key k (new_alert p budget spend unknown t) || any (is_key k) alerts)
  unfolding insert_threshold_once
  insert_threshold_once-has k t alerts =
      elim (Bool-cases (any (is_alert p.scope p.start t) alerts)) [
        | inl e ↦ rw e (there e)
        | inr e ↦
            rw e (any-append (is_key k) alerts (new_alert p budget spend unknown t ∷ []) ∙ swapped)
      ]
    where
      new : Bool
      new = is_key k (new_alert p budget spend unknown t)

      there :
          any (is_alert p.scope p.start t) alerts ≡ true
          → any (is_key k) alerts ≡ (new || any (is_key k) alerts)
      there e = elim (Bool-cases new) [
        | inl n ↦
            ap (λ q. any q alerts) (fun_ext (same_alert k t n))
            ∙ e
            ∙ sym (ap (λ b. b || any (is_key k) alerts) n)
        | inr n ↦ sym (ap (λ b. b || any (is_key k) alerts) n)
      ]

      swapped :
          (any (is_key k) alerts || any (is_key k) (new_alert p budget spend unknown t ∷ []))
          ≡ (new || any (is_key k) alerts)
      swapped = or_swap new (any (is_key k) alerts)

  insert_threshold_once-Once :
      (t : Threshold) (alerts : List BudgetAlert)
      → Once alerts
      → Once (insert_threshold_once p budget spend unknown t alerts)
  unfolding insert_threshold_once
  insert_threshold_once-Once t alerts h k =
      elim (Bool-cases (any (is_alert p.scope p.start t) alerts)) [
        | inl e ↦ rw e (h k)
        | inr e ↦ rw e (
            length-select-insert (is_alert p.scope p.start t) (is_key k)
              (new_alert p budget spend unknown t) alerts e (same_alert k t) (h k))
      ]

  is_key_new :
      (k : Key) (t : Threshold)
      → is_key k (new_alert p budget spend unknown t)
        ≡ (same_threshold t k.threshold && (same_scope p.scope k.scope && p.start == k.start))
  unfolding is_alert
  is_key_new k t = refl

  insert_thresholds-has :
      (k : Key) (ts : List Threshold) (alerts : List BudgetAlert)
      → any (is_key k) (insert_thresholds p budget spend unknown ts alerts)
        ≡ (is_owed k p ts || any (is_key k) alerts)
  unfolding insert_thresholds is_owed
  insert_thresholds-has k [] alerts = refl
  insert_thresholds-has k (t ∷ ts) alerts =
      insert_thresholds-has k ts (insert_threshold_once p budget spend unknown t alerts)
      ∙ ap (λ b. is_owed k p ts || b) (insert_threshold_once-has k t alerts)
      ∙ or_swap3 (is_owed k p ts) (is_key k (new_alert p budget spend unknown t))
          (any (is_key k) alerts)
      ∙ ap (λ b. (b || is_owed k p ts) || any (is_key k) alerts) (is_key_new k t)

  insert_thresholds-Once :
      (ts : List Threshold) (alerts : List BudgetAlert)
      → Once alerts
      → Once (insert_thresholds p budget spend unknown ts alerts)
  unfolding insert_thresholds
  insert_thresholds-Once [] alerts h = h
  insert_thresholds-Once (t ∷ ts) alerts h =
      insert_thresholds-Once ts (insert_threshold_once p budget spend unknown t alerts)
        (insert_threshold_once-Once t alerts h)

either_and : (a b w : Bool) → (a && w || b && w) ≡ ((if a then true else b) && w)
either_and true true true = refl
either_and true true false = refl
either_and true false true = refl
either_and true false false = refl
either_and false b w = refl

is_owed-any :
    (k : Key) (p : Period) (ts : List Threshold)
    → is_owed k p ts ≡ (
        any (λ u. same_threshold u k.threshold) ts
        && (same_scope p.scope k.scope && p.start == k.start))
unfolding is_owed
is_owed-any k p [] = refl
is_owed-any k p (t ∷ ts) =
    ap
      (λ b. same_threshold t k.threshold && (same_scope p.scope k.scope && p.start == k.start) || b)
      (is_owed-any k p ts)
    ∙ either_and (same_threshold t k.threshold) (any (λ u. same_threshold u k.threshold) ts)
        (same_scope p.scope k.scope && p.start == k.start)

crossed-owes :
    (s : Settings) (k : Key) (p : Period) (attempts : List Attempt)
    → is_owed k p (crossed s p attempts) ≡ owes s k p attempts
unfolding crossed owes
crossed-owes s k p attempts =
    is_owed-any k p (crossed s p attempts)
    ∙ ap (λ b. b && (same_scope p.scope k.scope && p.start == k.start))
        (thresholds_due s (budget_for p.scope s) (aggregate_period p.start p.end attempts).0
            k.threshold
          ∙ ap (λ m. is_due s m (aggregate_period p.start p.end attempts).0 k.threshold)
              (budget_for-budget_in s p.scope)
          ∙ ap (λ m. is_due s (budget_in s p.scope) m k.threshold)
              (aggregate-spend p.start p.end attempts))

-- Rows are added at the end, and each is as this says.
abbrev pub Adds : (BudgetAlert → Type 0) → List BudgetAlert → List BudgetAlert → Type 0
Adds P before after = (news : List BudgetAlert) × (after ≡ before ++ news) × All P news

Adds-trans :
    (P : BudgetAlert → Type 0) (a b c : List BudgetAlert) → Adds P a b → Adds P b c → Adds P a c
Adds-trans P a b c (xs, e, all) (ys, e', all') =
    (xs ++ ys, e' ∙ ap (λ l. l ++ ys) e ∙ append_assoc a xs ys, All-both xs all)
  where
    All-both : (xs : List BudgetAlert) → All P xs → All P (xs ++ ys)
    All-both [] h = all'
    All-both (x ∷ xs) (p, h) = (p, All-both xs h)

module _ (P : BudgetAlert → Type 0) (p : Period) (budget spend unknown : ℕ)
    (told : (t : Threshold) → P (new_alert p budget spend unknown t)) where
  insert_threshold_once-Adds :
      (t : Threshold) (alerts : List BudgetAlert)
      → Adds P alerts (insert_threshold_once p budget spend unknown t alerts)
  unfolding insert_threshold_once
  insert_threshold_once-Adds t alerts =
      elim (Bool-cases (any (is_alert p.scope p.start t) alerts)) [
        | inl e ↦ rw e ([], sym (append-nil alerts), tt)
        | inr e ↦ rw e (new_alert p budget spend unknown t ∷ [], refl, (told t, tt))
      ]

  insert_thresholds-Adds :
      (ts : List Threshold) (alerts : List BudgetAlert)
      → Adds P alerts (insert_thresholds p budget spend unknown ts alerts)
  unfolding insert_thresholds
  insert_thresholds-Adds [] alerts = ([], sym (append-nil alerts), tt)
  insert_thresholds-Adds (t ∷ ts) alerts =
      Adds-trans P alerts (insert_threshold_once p budget spend unknown t alerts) _
        (insert_threshold_once-Adds t alerts)
        (insert_thresholds-Adds ts (insert_threshold_once p budget spend unknown t alerts))

-- Evaluating a period adds alerts that tell what it cost, and changes none.
pub evaluate_period-Adds :
    (s : Settings) (p : Period) (db : Db)
    → Adds (Told s db.attempts p) db.alerts (evaluate_period s p db).1.alerts
unfolding evaluate_period
evaluate_period-Adds s p db =
    insert_thresholds-Adds (Told s db.attempts p) p (budget_for p.scope s)
      (aggregate_period p.start p.end db.attempts).0 (aggregate_period p.start p.end db.attempts).1
      (λ t. record {
        scope = refl;
        start = refl;
        end = refl;
        budget = budget_for-budget_in s p.scope;
        spend = aggregate-spend p.start p.end db.attempts;
        unknown = aggregate-unknown p.start p.end db.attempts;
      })
      (crossed s p db.attempts) db.alerts

-- Evaluating a period raises the alerts of the thresholds that it has crossed, and no others.
pub evaluate_period-has :
    (s : Settings) (p : Period) (db : Db) (k : Key)
    → has_alert k (evaluate_period s p db).1.alerts
      ≡ (owes s k p db.attempts || has_alert k db.alerts)
unfolding evaluate_period has_alert
evaluate_period-has s p db k =
    insert_thresholds-has p (budget_for p.scope s) _ _ k (crossed s p db.attempts) db.alerts
    ∙ ap (λ b. b || has_alert k db.alerts) (crossed-owes s k p db.attempts)

pub evaluate_period-Once :
    (s : Settings) (p : Period) (db : Db) → Once db.alerts → Once (evaluate_period s p db).1.alerts
unfolding evaluate_period
evaluate_period-Once s p db h =
    insert_thresholds-Once p (budget_for p.scope s) _ _ (crossed s p db.attempts) db.alerts h
