-- ===== src/CrossCheck/State/Projection/Verdict.antt =====
-- Completing a check: its verdict goes to the score if it is the newest.
use smart_screen_agent.Prelude.{
  ℕ, ◌<◌, ◌≡◌, ◌≢◌, refl, sym, ap, subst, ◌∙◌, true, false, Option, none, some, some_inj, List,
  arith, All-update_where, All-update_both, find_first, find_first-update_map,
  find_first-update_apart, leb, ◌==◌, ==_iff, Bool-cases, Option-cases, inl, inr, update_where,
}
use smart_screen_agent.CrossCheck.State.{
  ScoreCrossCheck, Db, Score, greatest_id, is_held, is_current, project, finished, complete_row,
  score_of, complete_cross_check, distance, save_check, has_id, is_score,
}
use smart_screen_agent.CrossCheck.State.Projection.{
  Agrees, Speaks, IsProjected, greatest_id-save, save-IsProjected, found-owned,
}

-- Writing the columns of one score.
module _ (i : ℕ) (f : Score → Score) (keep : (s : Score) → (f s).id ≡ s.id) where
  pub written_score :
      (s : Score) (scores : List Score)
      → find_first (is_score i) (update_where (is_score i) f scores) ≡ some s
      → (s₀ : Score) × (s ≡ f s₀)
  written_score s scores e = elim (Option-cases (find_first (is_score i) scores)) [
    | inl q ↦ absurd (cc (sym e ∙ find_first-update_map (is_score i) f scores keeps ∙ ap change q))
    | inr (s₀, q) ↦
        (s₀, some_inj (sym e ∙ find_first-update_map (is_score i) f scores keeps ∙ ap change q))
  ]
    where
      keeps : (x : Score) → is_score i (f x) ≡ is_score i x
      keeps x = ap (λ n. n == i) (keep x)

      change : Option Score → Option Score
      change r = elim r [ none ↦ none | some x ↦ some (f x) ]

  pub other_score :
      (j : ℕ) (scores : List Score)
      → j ≢ i
      → find_first (is_score j) (update_where (is_score i) f scores)
        ≡ find_first (is_score j) scores
  other_score j scores ne =
      find_first-update_apart (is_score i) (is_score j) f scores
        (λ x e. let k = keep x in (ground (arith, e, ne), ground (arith, e, ne, k)))

finished-Speaks :
    (total now : ℕ) (c : ScoreCrossCheck) (diff : ℕ) (checks : List ScoreCrossCheck)
    (scores : List Score)
    → let c' = finished total diff now c in
      Speaks checks
        (project c' diff (record { checks = checks; scores = scores; next_id = 0 })).scores
        c'
finished-Speaks total now c diff checks scores newest s at =
    let c' = finished total diff now c in
    let (s₀, e) =
      written_score c.score_id
        (λ x. record x {
          cross_engine_diff = some diff;
          is_suspicious = leb c.threshold_snapshot diff;
        })
        (λ _. refl) s scores at in
    subst (Agrees c' c'.state) (sym e) (refl, λ d q. ap (leb c.threshold_snapshot) (some_inj q))

-- The newest check of a score is completed: its verdict is written.
current-IsProjected :
    (db : Db) (h : IsProjected db) (total now diff : ℕ) (c : ScoreCrossCheck)
    → c.score_id ≡ h.owner c.id
    → c.id < db.next_id
    → greatest_id c.score_id db.checks ≡ some c.id
    → let c' = finished total diff now c in IsProjected (project c' diff (save_check c' db))
current-IsProjected db h total now diff c o b newest =
    let c' = finished total diff now c in
    let rows' = update_where (has_id c.id) (λ _. c') db.checks in
    let scores' = (project c' diff (save_check c' db)).scores in
    record {
      owner = h.owner;
      owned =
          All-update_where (λ x. x.score_id ≡ h.owner x.id) (has_id c.id) (λ _. c') db.checks
            (λ _ _ _. o) h.owned;
      below =
          All-update_where (λ x. x.id < db.next_id) (has_id c.id) (λ _. c') db.checks (λ _ _ _. b)
            h.below;
      speaks =
          All-update_both (Speaks db.checks db.scores) (Speaks rows' scores') (has_id c.id)
            (λ _. c') db.checks (λ _ _ _. finished-Speaks total now c diff rows' db.scores)
            (λ x p miss n s at.
              let n' = sym (greatest_id-save x.score_id h.owner c' db.checks o h.owned) ∙ n in
              let apart : x.score_id ≢ c.score_id = λ same. absurd (
                cc (
                  sym miss
                  ∙ (==_iff x.id c.id).1
                      (some_inj (sym n' ∙ ap (λ j. greatest_id j db.checks) same ∙ newest)))) in
              p n' s (sym (other_score c.score_id _ (λ _. refl) x.score_id db.scores apart) ∙ at))
            h.speaks;
    }

-- A superseded check is completed: nothing is written to its score.
superseded-IsProjected :
    (db : Db) (h : IsProjected db) (total now diff : ℕ) (c : ScoreCrossCheck)
    → c.score_id ≡ h.owner c.id
    → c.id < db.next_id
    → is_current c (greatest_id c.score_id db.checks) ≡ false
    → IsProjected (save_check (finished total diff now c) db)
superseded-IsProjected db h total now diff c o b old =
    save-IsProjected db h (finished total diff now c) o b
      (λ newest _ _. absurd (cc (sym old ∙ ap (is_current c) newest ∙ (==_iff c.id c.id).1 refl)))

is_current→eq : (c : ScoreCrossCheck) (r : Option ℕ) → is_current c r ≡ true → r ≡ some c.id
is_current→eq c none e = absurd (cc e)
is_current→eq c (some i) e = ap some (sym ((==_iff c.id i).0 e))

complete_row-IsProjected :
    (total now : ℕ) (found : Option ScoreCrossCheck) (score : Option Score) (db : Db)
    (h : IsProjected db)
    → ((c : ScoreCrossCheck) → found ≡ some c → (c.score_id ≡ h.owner c.id) × (c.id < db.next_id))
    → IsProjected (complete_row total now found score db).1
complete_row-IsProjected total now none score db h row = h
complete_row-IsProjected total now (some c) none db h row = h
complete_row-IsProjected total now (some c) (some s) db h row =
    let (o, b) = row c refl in
    let diff = distance s.total_score total in
    elim (Bool-cases (is_current c (greatest_id c.score_id db.checks))) [
      | inl e ↦ rw e (current-IsProjected db h total now diff c o b (is_current→eq c _ e))
      | inr e ↦ rw e (superseded-IsProjected db h total now diff c o b e)
    ]

pub complete-IsProjected :
    (i token total now : ℕ) (db : Db)
    → IsProjected db
    → IsProjected (complete_cross_check i token total now db).1
unfolding complete_cross_check
complete-IsProjected i token total now db h =
    let row = find_first (is_held i token) db.checks in
    complete_row-IsProjected total now row (score_of row db) db h
      (λ c e. let (o, b, t) = found-owned db h (is_held i token) c e in (o, b))
