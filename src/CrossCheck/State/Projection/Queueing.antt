-- ===== src/CrossCheck/State/Projection/Queueing.antt =====
-- Queueing a check: a new one takes the projected verdict back, a known one keeps it.
use smart_screen_agent.Prelude.{
  ℕ, suc, ◌<◌, ◌≡◌, ◌≢◌, refl, sym, ap, subst, ◌∙◌, Bool, true, false, Option, none, some, some_inj,
  List, [], ◌∷◌, ◌++◌, arith, All, All-append, All-find_first, All-imp, All-both, find_first,
  find_first_of_any, find_first-append, is_some, ◌==◌, ==_iff, Bool-cases, Option-cases, inl, inr,
  if◌then◌else◌, All-Unit, eq_iff,
}
use smart_screen_agent.CrossCheck.State.{
  ScoreCrossCheck, Db, Score, Wanted, same_check, new_check, insert_check, is_newer, reset_score,
  merged, refresh, ensure_cross_check, greatest_id, save_check,
}
use smart_screen_agent.CrossCheck.State.Projection.{
  Speaks, IsProjected, greatest_id-new, greatest_id-other, greatest_id-below, save-IsProjected,
  found-owned,
}
use smart_screen_agent.CrossCheck.State.Projection.Verdict.{written_score, other_score}

-- Merging the reasons of a row that is right about its score.
merged-IsProjected :
    (w : Wanted) (db : Db) (h : IsProjected db) (c : ScoreCrossCheck) (p : ScoreCrossCheck → Bool)
    → find_first p db.checks ≡ some c
    → IsProjected (save_check (merged w c) db)
merged-IsProjected w db h c p e =
    let (o, b, t) = found-owned db h p c e in
    save-IsProjected db h (merged w c) o b
      (All-find_first (Speaks db.checks db.scores) p db.checks c h.speaks e).0

greatest_id-head :
    (i : ℕ) (c : ScoreCrossCheck) (rows : List ScoreCrossCheck)
    → c.score_id ≡ i
    → is_newer (greatest_id i (c ∷ rows)) c.id ≡ false
unfolding greatest_id
greatest_id-head i c rows same = elim (Option-cases (greatest_id i rows)) [
  | inl q ↦ rw ((==_iff c.score_id i).1 same, q) (ground arith)
  | inr (m, q) ↦ rw ((==_iff c.score_id i).1 same, q) (ground arith)
]

greatest_id-tail :
    (i k : ℕ) (x : ScoreCrossCheck) (rows : List ScoreCrossCheck)
    → is_newer (greatest_id i rows) k ≡ false
    → is_newer (greatest_id i (x ∷ rows)) k ≡ false
unfolding greatest_id
greatest_id-tail i k x rows h = elim (Option-cases (greatest_id i rows)) [
  | inl q ↦ absurd (cc (sym h ∙ ap (λ r. is_newer r k) q))
  | inr (m, q) ↦ (let h' = rw q at h in rw q (ground (arith, h')))
]

-- No check of a score has an id above the greatest.
not_newer :
    (i : ℕ) (p : ScoreCrossCheck → Bool) (c : ScoreCrossCheck) (rows : List ScoreCrossCheck)
    → find_first p rows ≡ some c
    → c.score_id ≡ i
    → is_newer (greatest_id i rows) c.id ≡ false
not_newer i p c [] e same = absurd (cc e)
not_newer i p c (x ∷ rows) e same = elim (Bool-cases (p x)) [
  | inl t ↦
      (let here : x ≡ c = some_inj (rw t at e) in
        subst (λ y. is_newer (greatest_id i (x ∷ rows)) y.id ≡ false) here
          (greatest_id-head i x rows (ap (λ y. y.score_id) here ∙ same)))
  | inr t ↦ greatest_id-tail i c.id x rows (not_newer i p c rows (rw t at e) same)
]

same_check→score :
    (w : Wanted) (c : ScoreCrossCheck) → same_check w c ≡ true → c.score_id ≡ w.score_id
unfolding same_check
same_check→score w c e = ground arith

pub same_check-new : (w : Wanted) (n : ℕ) → same_check w (new_check w n) ≡ true
unfolding same_check
same_check-new w n =
    ground
      (arith, eq_iff w.secondary_model w.secondary_model, eq_iff w.prompt_version w.prompt_version)

-- An old row of the score of a new one is not the newest.
above :
    (w : Wanted) (n : ℕ) (c : ScoreCrossCheck) (rows : List ScoreCrossCheck)
    → All (λ x. x.id < n) rows
    → c.id < n
    → c.score_id ≡ w.score_id
    → greatest_id c.score_id (rows ++ new_check w n ∷ []) ≢ some c.id
above w n c rows h b same newest =
    let e : n ≡ c.id = some_inj (
      sym (greatest_id-new w n rows h)
      ∙ ap (λ i. greatest_id i (rows ++ new_check w n ∷ [])) (sym same)
      ∙ newest) in
    omega (arith, e, b)

-- A new row with the projected verdict of its score taken back.
reset-IsProjected :
    (w : Wanted) (db : Db) (h : IsProjected db)
    → IsProjected (reset_score w.score_id (insert_check false w db))
reset-IsProjected w db h =
    let n = db.next_id in
    let rows' = db.checks ++ new_check w n ∷ [] in
    let scores' = (reset_score w.score_id db).scores in
    let owner : ℕ → ℕ = λ i. if i == n then w.score_id else h.owner i in
    let clear : Score → Score = λ s. record s { cross_engine_diff = none; is_suspicious = false } in
    record {
      owner = owner;
      owned =
          All-append (λ c. c.score_id ≡ owner c.id) db.checks (new_check w n ∷ [])
            (All-imp (λ c. (c.id < n) × (c.score_id ≡ h.owner c.id)) (λ c. c.score_id ≡ owner c.id)
              db.checks (λ c (b, o). ground (arith, b, o))
              (All-both (λ c. c.id < n) (λ c. c.score_id ≡ h.owner c.id) db.checks h.below h.owned))
            (rw ((==_iff n n).1 refl), tt);
      below =
          All-append (λ c. c.id < suc n) db.checks (new_check w n ∷ [])
            (All-imp (λ c. c.id < n) (λ c. c.id < suc n) db.checks (λ _ b. omega arith) h.below)
            (omega arith, tt);
      speaks =
          All-append (Speaks rows' scores') db.checks (new_check w n ∷ [])
            (All-imp (λ c. (c.id < n) × Speaks db.checks db.scores c) (Speaks rows' scores')
              db.checks
              (λ c (b, p) newest s at.
                let apart : c.score_id ≢ w.score_id =
                  λ same. absurd (above w n c db.checks h.below b same newest) in
                p (sym (greatest_id-other w n c.score_id db.checks apart) ∙ newest) s
                  (sym (other_score w.score_id clear (λ _. refl) c.score_id db.scores apart) ∙ at))
              (All-both (λ c. c.id < n) (Speaks db.checks db.scores) db.checks h.below h.speaks))
            (
              λ newest s at.
                  let (s₀, e) = written_score w.score_id clear (λ _. refl) s db.scores at in
                  (ap (λ x. x.cross_engine_diff) e, ap (λ x. x.is_suspicious) e),
              tt,
            );
    }

inserted-IsProjected :
    (w : Wanted) (db : Db) → IsProjected db → IsProjected (insert_check true w db)
inserted-IsProjected w db h = record {
  owner = h.owner;
  owned = h.owned;
  below =
      All-imp (λ c. c.id < db.next_id) (λ c. c.id < suc db.next_id) db.checks (λ _ b. omega arith)
        h.below;
  speaks = h.speaks;
}

-- The row of the same score, model and prompt is there: it is kept, and so is the verdict.
refresh_old-IsProjected :
    (w : Wanted) (db : Db) (found : Option ScoreCrossCheck)
    → find_first (same_check w) db.checks ≡ found
    → IsProjected db
    → IsProjected (refresh (greatest_id w.score_id db.checks) w found (insert_check true w db)).1
refresh_old-IsProjected w db none e h = inserted-IsProjected w db h
refresh_old-IsProjected w db (some c) e h =
    let t = (All-find_first (λ _. Unit {0}) (same_check w) db.checks c (All-Unit db.checks) e).1 in
    rw (not_newer w.score_id (same_check w) c db.checks e (same_check→score w c t)) (
      merged-IsProjected w (insert_check true w db) (inserted-IsProjected w db h) c (same_check w)
        e)

is_newer-next :
    (i n : ℕ) (rows : List ScoreCrossCheck)
    → All (λ c. c.id < n) rows
    → is_newer (greatest_id i rows) n ≡ true
is_newer-next i n rows h = elim (Option-cases (greatest_id i rows)) [
  | inl e ↦ rw e
  | inr (g, e) ↦ (let b = greatest_id-below i n g rows h e in rw e (ground (arith, b)))
]

-- The row is new: it is the newest, and the verdict is taken back.
refresh_new-IsProjected :
    (w : Wanted) (db : Db) (found : Option ScoreCrossCheck)
    → found ≡ some (new_check w db.next_id)
    → find_first (same_check w) (insert_check false w db).checks ≡ found
    → IsProjected db
    → IsProjected (refresh (greatest_id w.score_id db.checks) w found (insert_check false w db)).1
refresh_new-IsProjected w db none here e h = absurd (cc here)
refresh_new-IsProjected w db (some c) here e h =
    let newer =
      ap (λ x. is_newer (greatest_id w.score_id db.checks) x.id) (some_inj here)
      ∙ is_newer-next w.score_id db.next_id db.checks h.below in
    rw newer (
      merged-IsProjected w (reset_score w.score_id (insert_check false w db))
        (reset-IsProjected w db h) c (same_check w) e)

pub ensure-IsProjected :
    (w : Wanted) (db : Db) → IsProjected db → IsProjected (ensure_cross_check w db).1
unfolding ensure_cross_check
ensure-IsProjected w db h = elim (Option-cases (find_first (same_check w) db.checks)) [
  | inr (c, e) ↦
      rw (find_first_of_any (same_check w) db.checks ∙ ap is_some e)
        (refresh_old-IsProjected w db (find_first (same_check w) db.checks) refl h)
  | inl e ↦
      (let new =
          find_first-append (same_check w) db.checks (new_check w db.next_id) e
            (same_check-new w db.next_id) in
        rw (find_first_of_any (same_check w) db.checks ∙ ap is_some e) (
          refresh_new-IsProjected w db (find_first (same_check w) (insert_check false w db).checks)
            new refl h))
]
