-- ===== src/CrossCheck/Sampling/Decision.antt =====
-- Why a score is given a second opinion, and that the reasons reach the queue.
use smart_screen_agent.Prelude.{
  ℕ, zero, suc, ◌<◌, ◌≡◌, ◌≢◌, ◌↔◌, ◌⊎◌, String, eq_iff, same_text, refl, sym, ap, ◌∙◌, Bool, true,
  false, ◌&&◌, ◌||◌, Option, none, some, some_inj, List, [], ◌∷◌, any, select, find_first,
  update_where, arith, ==_iff, Bool-cases, Option-cases, inl, inr, All-Unit, All-find_first,
  find_first-append, find_first_of_any, is_some,
}
use smart_screen_agent.CrossCheck.State.{
  Db, Reason, deterministic_sample, golden_error, ai_hr_disagreement, admin_backfill, is_reason,
  trigger_order, merge_reasons, ScoreCrossCheck, Wanted, ensure_cross_check, same_check, new_check,
  insert_check, refresh, merged, has_id, greatest_id, is_newer,
}
use smart_screen_agent.CrossCheck.Sampling.{
  Primitives, CrossCheckContext, trigger_reasons, sample_bucket, is_sampled, reason_set, is_low,
  weighted_confidence, is_golden_error, is_disagreement, add_if, wanted, eligible,
}
use smart_screen_agent.CrossCheck.State.Projection.Queueing.{same_check-new}

-- No usable confidence is a low one.
abbrev pub IsLow : ℕ → Option ℕ → Type 0
IsLow threshold none = Unit {0}
IsLow threshold (some confidence) = confidence < threshold

-- The grade says otherwise than a golden label that decides.
abbrev pub IsWrong : String → Option String → Type 0
IsWrong grade none = ⊥
IsWrong grade (some label) =
    (label ≡ "advance") × (grade ≡ "rejected") ⊎ (label ≡ "reject") × (grade ≢ "rejected")

-- When each reason is given.
abbrev pub Fires : Primitives → CrossCheckContext → Bool → Reason → Type 0
Fires p c backfill deterministic_sample =
    sample_bucket p c.score_id c.prompt_version < c.sample_percent
Fires p c backfill Reason.low_confidence = IsLow c.low_confidence (weighted_confidence p c)
Fires p c backfill golden_error = IsWrong c.grade c.golden_label
Fires p c backfill ai_hr_disagreement = c.ai_agreed ≡ some false
Fires p c backfill admin_backfill = backfill ≡ true

-- The tests of the code for each reason.
abbrev fires : Primitives → CrossCheckContext → Bool → Reason → Bool
fires p c backfill deterministic_sample = is_sampled p c
fires p c backfill Reason.low_confidence = is_low c.low_confidence (weighted_confidence p c)
fires p c backfill golden_error = is_golden_error c.grade c.golden_label
fires p c backfill ai_hr_disagreement = is_disagreement c.ai_agreed
fires p c backfill admin_backfill = backfill

-- Choosing from `TRIGGER_ORDER` loses no reason and adds none.
select_order : (r : Reason) (q : Reason → Bool) → any (is_reason r) (select q trigger_order) ≡ q r
select_order deterministic_sample q = ground arith
select_order Reason.low_confidence q = ground arith
select_order golden_error q = ground arith
select_order ai_hr_disagreement q = ground arith
select_order admin_backfill q = ground arith

any-add_if :
    (r x : Reason) (b : Bool) (rs : List Reason)
    → any (is_reason r) (add_if b x rs) ≡ ((b && is_reason r x) || any (is_reason r) rs)
any-add_if r x true rs = ground arith
any-add_if r x false rs = refl

is_low-IsLow : (threshold : ℕ) (o : Option ℕ) → (is_low threshold o ≡ true) ↔ IsLow threshold o
is_low-IsLow threshold none = ((λ _. tt), (λ _. refl))
is_low-IsLow threshold (some m) = ((λ h. ground arith), (λ h. ground arith))

is_golden_error-IsWrong :
    (grade : String) (o : Option String) → (is_golden_error grade o ≡ true) ↔ IsWrong grade o
is_golden_error-IsWrong grade none = ((λ h. cc h), (λ h. absurd h))
is_golden_error-IsWrong grade (some label) = (there, back)
  where
    there : is_golden_error grade (some label) ≡ true → IsWrong grade (some label)
    there h = ground (arith, eq_iff label "advance", eq_iff label "reject", eq_iff grade "rejected")

    back : IsWrong grade (some label) → is_golden_error grade (some label) ≡ true
    back (inl (l, g)) = rw (l, g) refl
    back (inr (l, g)) = rw l (elim (Bool-cases (same_text grade "rejected")) [
      | inl e ↦ absurd (g ((eq_iff grade "rejected").0 e))
      | inr e ↦ rw e refl
    ])

disagreement_agrees : (o : Option Bool) → (is_disagreement o ≡ true) ↔ (o ≡ some false)
disagreement_agrees none = ((λ h. absurd (cc h)), (λ h. absurd (cc h)))
disagreement_agrees (some true) = ((λ h. absurd (cc h)), (λ h. absurd (cc (some_inj h))))
disagreement_agrees (some false) = ((λ h. refl), (λ h. refl))

fires-Fires :
    (p : Primitives) (c : CrossCheckContext) (backfill : Bool) (r : Reason)
    → (fires p c backfill r ≡ true) ↔ Fires p c backfill r
fires-Fires p c backfill deterministic_sample = ((λ h. ground arith), (λ h. ground arith))
fires-Fires p c backfill Reason.low_confidence =
    is_low-IsLow c.low_confidence (weighted_confidence p c)
fires-Fires p c backfill golden_error = is_golden_error-IsWrong c.grade c.golden_label
fires-Fires p c backfill ai_hr_disagreement = disagreement_agrees c.ai_agreed
fires-Fires p c backfill admin_backfill = ((λ h. h), (λ h. h))

trigger_reasons_given :
    (p : Primitives) (c : CrossCheckContext) (backfill : Bool) (r : Reason)
    → any (is_reason r) (trigger_reasons p c backfill) ≡ fires p c backfill r
unfolding trigger_reasons reason_set
trigger_reasons_given p c backfill r =
    select_order r (λ x. any (is_reason x) (reason_set p c backfill)) ∙ reason_set_any r
  where
    reason_set_any :
        (r : Reason) → any (is_reason r) (reason_set p c backfill) ≡ fires p c backfill r
    reason_set_any deterministic_sample =
        rw (any-add_if, any-add_if, any-add_if, any-add_if, any-add_if) (ground arith)
    reason_set_any Reason.low_confidence =
        rw (any-add_if, any-add_if, any-add_if, any-add_if, any-add_if) (ground arith)
    reason_set_any golden_error =
        rw (any-add_if, any-add_if, any-add_if, any-add_if, any-add_if) (ground arith)
    reason_set_any ai_hr_disagreement =
        rw (any-add_if, any-add_if, any-add_if, any-add_if, any-add_if) (ground arith)
    reason_set_any admin_backfill =
        rw (any-add_if, any-add_if, any-add_if, any-add_if, any-add_if) (ground arith)

-- A score is given exactly the reasons whose conditions hold: its bucket is below the percentage, its
-- confidence is below the threshold or unknown, its grade contradicts a label that decides, the
-- reviewer disagrees, or it is a backfill.
pub trigger_reasons_fire :
    (p : Primitives) (c : CrossCheckContext) (backfill : Bool) (r : Reason)
    → (any (is_reason r) (trigger_reasons p c backfill) ≡ true) ↔ Fires p c backfill r
trigger_reasons_fire p c backfill r = (
  λ h. (fires-Fires p c backfill r).0 (sym (trigger_reasons_given p c backfill r) ∙ h),
  λ h. trigger_reasons_given p c backfill r ∙ (fires-Fires p c backfill r).1 h,
)

abbrev pub upto : ℕ → List ℕ
upto zero = []
upto (suc n) = n ∷ upto n

-- The context's score falls in this bucket.
abbrev pub in_bucket : Primitives → ℕ → Primitives
in_bucket p b = record p { digest = λ _. b }

-- Writing a row back is found by a test that it passes.
find_saved :
    (p : ScoreCrossCheck → Bool) (c c' : ScoreCrossCheck) (rows : List ScoreCrossCheck)
    → find_first p rows ≡ some c
    → p c' ≡ true
    → find_first p (update_where (has_id c.id) (λ _. c') rows) ≡ some c'
find_saved p c c' [] e t = absurd (cc e)
find_saved p c c' (x ∷ rows) e t = elim (Bool-cases (has_id c.id x)) [
  | inl hit ↦ rw (hit, t)
  | inr miss ↦ elim (Bool-cases (p x)) [
    | inl y ↦
        (let same : x ≡ c = some_inj (rw y at e) in
          absurd (cc (sym miss ∙ (==_iff x.id c.id).1 (ap (λ z. z.id) same))))
    | inr n ↦ rw (miss, n) (find_saved p c c' rows (rw n at e) t)
  ]
]

any-merge_reasons :
    (old new : List Reason) (r : Reason)
    → any (is_reason r) (merge_reasons old new) ≡ (any (is_reason r) old || any (is_reason r) new)
unfolding merge_reasons
any-merge_reasons old new r = select_order r (λ x. any (is_reason x) old || any (is_reason x) new)

-- The row that queueing returns: it is in the queue, for the score, model and prompt that are
-- wanted, and it has every reason that is.
abbrev Carried : Wanted → Option ScoreCrossCheck × Db → Type 0
Carried w (none, db) = ⊥
Carried w (some c, db) =
    (find_first (same_check w) db.checks ≡ some c)
    × ((r : Reason)
        → any (is_reason r) w.reasons ≡ true
        → any (is_reason r) c.sample_reasons ≡ true)

same_check-merged : (w : Wanted) (c : ScoreCrossCheck) → same_check w (merged w c) ≡ same_check w c
unfolding same_check
same_check-merged w c = refl

refresh-Carried :
    (previous : Option ℕ) (w : Wanted) (c : ScoreCrossCheck) (db : Db)
    → find_first (same_check w) db.checks ≡ some c
    → Carried w (refresh previous w (some c) db)
refresh-Carried previous w c db e =
    let t = (All-find_first (λ _. Unit {0}) (same_check w) db.checks c (All-Unit db.checks) e).1 in
    let found = find_saved (same_check w) c (merged w c) db.checks e (same_check-merged w c ∙ t) in
    let kept = λ (r : Reason) (q : any (is_reason r) w.reasons ≡ true).
      any-merge_reasons c.sample_reasons w.reasons r
      ∙ ap (λ b. any (is_reason r) c.sample_reasons || b) q
      ∙ or_true (any (is_reason r) c.sample_reasons) in
    elim (Bool-cases (is_newer previous c.id)) [
      | inl y ↦ rw y (found, kept)
      | inr n ↦ rw n (found, kept)
    ]
  where
    or_true : (b : Bool) → (b || true) ≡ true
    or_true true = refl
    or_true false = refl

found-Carried :
    (previous : Option ℕ) (w : Wanted) (db : Db) (found : Option ScoreCrossCheck)
    → find_first (same_check w) db.checks ≡ found
    → is_some found ≡ true
    → Carried w (refresh previous w found db)
found-Carried previous w db none e s = absurd (cc s)
found-Carried previous w db (some c) e s = refresh-Carried previous w c db e

inserted_found :
    (w : Wanted) (db : Db)
    → is_some (find_first (same_check w) (insert_check (any (same_check w) db.checks) w db).checks)
      ≡ true
inserted_found w db = elim (Option-cases (find_first (same_check w) db.checks)) [
  | inr (c, e) ↦ rw (find_first_of_any (same_check w) db.checks ∙ ap is_some e) (ap is_some e)
  | inl e ↦ rw (find_first_of_any (same_check w) db.checks ∙ ap is_some e) (
      ap is_some (
        find_first-append (same_check w) db.checks (new_check w db.next_id) e
          (same_check-new w db.next_id)))
]

-- Queueing a check always returns its row, in the queue and with every reason wanted.
pub ensure_cross_check-Carried : (w : Wanted) (db : Db) → Carried w (ensure_cross_check w db)
unfolding ensure_cross_check
ensure_cross_check-Carried w db =
    let db' = insert_check (any (same_check w) db.checks) w db in
    found-Carried (greatest_id w.score_id db.checks) w db' (find_first (same_check w) db'.checks)
      refl (inserted_found w db)

-- What becomes of a score: nothing is queued and the database is as it was, if it is not eligible
-- or no condition holds; else the one id returned is that of its check, which has every reason
-- whose condition holds.
abbrev pub Queued : Primitives → CrossCheckContext → Bool → ℕ → Db → Option (List ℕ) × Db → Type 0
Queued p c backfill threshold db (none, db') = ⊥
Queued p c backfill threshold db (some [], db') =
    (db' ≡ db) × (eligible c ≡ true → (r : Reason) → ¬ Fires p c backfill r)
Queued p c backfill threshold db (some (i ∷ more), db') =
    (eligible c ≡ true)
    × ((r : Reason) × Fires p c backfill r)
    × (more ≡ [])
    × ((row : ScoreCrossCheck) × (row.id ≡ i)
        × (find_first (same_check (wanted c threshold (trigger_reasons p c backfill))) db'.checks
            ≡ some row)
        × ((r : Reason) → Fires p c backfill r → any (is_reason r) row.sample_reasons ≡ true))
