-- ===== src/CrossCheck/State/Projection.antt =====
-- What a score shows is the verdict of its newest check: after every operation, the columns
-- `cross_engine_diff` and `is_suspicious` of a score with checks are those of the check with the
-- greatest id if that is completed, and empty if it is not.
pub mod Verdict
pub mod Queueing
use smart_screen_agent.Prelude.{
  ℕ, suc, ◌+◌, ◌*◌, ◌≤◌, ◌<◌, ◌≡◌, ◌≢◌, refl, sym, ap, subst, ◌∙◌, max, Bool, true, false, not,
  ◌&&◌, Option, none, some, List, [], ◌∷◌, ◌++◌, any, arith, All, All-update_where, All-update_both,
  All-both, All-imp, All-append, All-find_first, All-Unit, find_first, find_first-update_map,
  find_first-update_apart, leb, ltb, ◌==◌, ==_iff, Bool-cases, Option-cases, inl, inr, update_where,
  if◌then◌else◌,
}
use smart_screen_agent.CrossCheck.State.{
  CheckState, queued, running, completed, retryable_failed, is_queued, is_running, ScoreCrossCheck,
  Db, ErrorCode, Wanted, same_check, new_check, insert_check, is_newer, reset_score, merged,
  refresh, ensure_cross_check, greatest_id, greater, claimed, is_claimable, claim_row,
  claim_cross_check, is_held, is_current, project, finished, complete_row, score_of,
  complete_cross_check, given_up, fail_row, fail_cross_check, is_lost, recovered,
  sweep_cross_checks, Score, distance, save_check, is_retryable_code, or_unexpected, code_text,
  has_id, is_score,
}

-- The columns of a score against one check.
abbrev pub Agrees : ScoreCrossCheck → CheckState → Score → Type 0
Agrees c completed s =
    (s.cross_engine_diff ≡ c.absolute_diff)
    × ((d : ℕ) → c.absolute_diff ≡ some d → s.is_suspicious ≡ leb c.threshold_snapshot d)
Agrees c _ s = (s.cross_engine_diff ≡ none) × (s.is_suspicious ≡ false)

-- The check speaks for its score if it is the newest.
abbrev pub Speaks : List ScoreCrossCheck → List Score → ScoreCrossCheck → Type 0
Speaks checks scores c =
    greatest_id c.score_id checks ≡ some c.id
    → (s : Score) → find_first (is_score c.score_id) scores ≡ some s
    → Agrees c c.state s

-- Every newest check speaks for its score; an id belongs to one score, and ids have been handed out
-- in order.
pub record IsProjected (db : Db) : Type 0 where
  pub owner : ℕ → ℕ
  pub owned : All (λ c. c.score_id ≡ owner c.id) db.checks
  pub below : All (λ c. c.id < db.next_id) db.checks
  pub speaks : All (Speaks db.checks db.scores) db.checks

-- Operations keep the ids and scores of the rows, so they keep the greatest ids.
greatest_id-update :
    (i : ℕ) (p : ScoreCrossCheck → Bool) (f : ScoreCrossCheck → ScoreCrossCheck)
    (rows : List ScoreCrossCheck)
    → ((c : ScoreCrossCheck) → p c ≡ true → ((f c).id ≡ c.id) × ((f c).score_id ≡ c.score_id))
    → greatest_id i (update_where p f rows) ≡ greatest_id i rows
unfolding greatest_id
greatest_id-update i p f [] keep = refl
greatest_id-update i p f (c ∷ rows) keep = elim (Bool-cases (p c)) [
  | inl e ↦ rw (e, (keep c e).0, (keep c e).1, greatest_id-update i p f rows keep)
  | inr e ↦ rw (e, greatest_id-update i p f rows keep)
]

pub greatest_id-save :
    (i : ℕ) (owner : ℕ → ℕ) (c' : ScoreCrossCheck) (rows : List ScoreCrossCheck)
    → c'.score_id ≡ owner c'.id
    → All (λ c. c.score_id ≡ owner c.id) rows
    → greatest_id i (update_where (has_id c'.id) (λ _. c') rows) ≡ greatest_id i rows
unfolding greatest_id
greatest_id-save i owner c' [] o h = refl
greatest_id-save i owner c' (c ∷ rows) o (oc, h) = elim (Bool-cases (has_id c'.id c)) [
  | inl e ↦
      (let same : c.id ≡ c'.id = (==_iff c.id c'.id).0 e in
        let score : c'.score_id ≡ c.score_id = o ∙ ap owner (sym same) ∙ sym oc in
        rw (e, score, ← same, greatest_id-save i owner c' rows o h))
  | inr e ↦ rw (e, greatest_id-save i owner c' rows o h)
]

pub greatest_id-new :
    (w : Wanted) (n : ℕ) (rows : List ScoreCrossCheck)
    → All (λ c. c.id < n) rows
    → greatest_id w.score_id (rows ++ new_check w n ∷ []) ≡ some n
unfolding greatest_id
greatest_id-new w n [] h = rw ((==_iff w.score_id w.score_id).1 refl)
greatest_id-new w n (c ∷ rows) (p, h) = ground (arith, greatest_id-new w n rows h)

pub greatest_id-other :
    (w : Wanted) (n i : ℕ) (rows : List ScoreCrossCheck)
    → i ≢ w.score_id
    → greatest_id i (rows ++ new_check w n ∷ []) ≡ greatest_id i rows
unfolding greatest_id
greatest_id-other w n i [] ne = ground arith
greatest_id-other w n i (c ∷ rows) ne = rw (greatest_id-other w n i rows ne)

pub greatest_id-below :
    (i n g : ℕ) (rows : List ScoreCrossCheck)
    → All (λ c. c.id < n) rows
    → greatest_id i rows ≡ some g
    → g < n
unfolding greatest_id
greatest_id-below i n g [] h e = absurd (cc e)
greatest_id-below i n g (c ∷ rows) (p, h) e = elim (Option-cases (greatest_id i rows)) [
  | inl q ↦ ground (arith, q)
  | inr (m, q) ↦ (let b = greatest_id-below i n m rows h q in ground (arith, q, b))
]

-- Writing a row that is right about its score keeps the projection.
pub save-IsProjected :
    (db : Db) (h : IsProjected db) (c' : ScoreCrossCheck)
    → c'.score_id ≡ h.owner c'.id
    → c'.id < db.next_id
    → Speaks db.checks db.scores c'
    → IsProjected (save_check c' db)
save-IsProjected db h c' o b speaks = record {
  owner = h.owner;
  owned = All-update_where _ (has_id c'.id) (λ _. c') db.checks (λ _ _ _. o) h.owned;
  below = All-update_where _ (has_id c'.id) (λ _. c') db.checks (λ _ _ _. b) h.below;
  speaks =
      All-update_both (Speaks db.checks db.scores) (Speaks (save_check c' db).checks db.scores)
        (has_id c'.id) (λ _. c') db.checks
        (λ _ _ _ g. speaks (sym (greatest_id-save c'.score_id h.owner c' db.checks o h.owned) ∙ g))
        (λ x s _ g. s (sym (greatest_id-save x.score_id h.owner c' db.checks o h.owned) ∙ g))
        h.speaks;
}

-- A row that is found is right about its owner and its id.
pub found-owned :
    (db : Db) (h : IsProjected db) (p : ScoreCrossCheck → Bool) (c : ScoreCrossCheck)
    → find_first p db.checks ≡ some c
    → (c.score_id ≡ h.owner c.id) × (c.id < db.next_id) × (p c ≡ true)
found-owned db h p c e =
    let (o, t) = All-find_first (λ x. x.score_id ≡ h.owner x.id) p db.checks c h.owned e in
    (o, (All-find_first (λ x. x.id < db.next_id) p db.checks c h.below e).0, t)

claim_row-IsProjected :
    (token expires limit : ℕ) (found : Option ScoreCrossCheck) (db : Db)
    → ((c : ScoreCrossCheck)
        → found ≡ some c
        → IsProjected (save_check (claimed token expires c) db))
    → IsProjected db
    → IsProjected (claim_row token expires limit found db).1
claim_row-IsProjected token expires limit none db row h = h
claim_row-IsProjected token expires limit (some c) db row h =
    elim (Bool-cases (leb limit c.attempts)) [ inl e ↦ rw e h | inr e ↦ rw e (row c refl) ]

claimed-Speaks :
    (db : Db) (h : IsProjected db) (token expires i : ℕ) (c : ScoreCrossCheck)
    → find_first (is_claimable i) db.checks ≡ some c
    → Speaks db.checks db.scores (claimed token expires c)
claimed-Speaks db h token expires i c e newest s at =
    let (speaks, t) =
      All-find_first (Speaks db.checks db.scores) (is_claimable i) db.checks c h.speaks e in
    let a = speaks newest s at in ground arith

pub claim-IsProjected :
    (token i now lease limit : ℕ) (db : Db)
    → IsProjected db
    → IsProjected (claim_cross_check token i now lease limit db).1
unfolding claim_cross_check
claim-IsProjected token i now lease limit db h =
    let expires = now + lease * 1000000 in
    claim_row-IsProjected token expires limit (find_first (is_claimable i) db.checks) db
      (λ c e.
        let (o, b, t) = found-owned db h (is_claimable i) c e in
        save-IsProjected db h (claimed token expires c) o b
          (claimed-Speaks db h token expires i c e))
      h

given_up-Speaks :
    (db : Db) (h : IsProjected db) (code : ErrorCode) (limit i token : ℕ) (c : ScoreCrossCheck)
    → find_first (is_held i token) db.checks ≡ some c
    → Speaks db.checks db.scores (given_up code limit c)
given_up-Speaks db h code limit i token c e newest s at =
    let (speaks, t) =
      All-find_first (Speaks db.checks db.scores) (is_held i token) db.checks c h.speaks e in
    let a = speaks newest s at in ground arith

fail_row-IsProjected :
    (code : ErrorCode) (limit : ℕ) (found : Option ScoreCrossCheck) (db : Db)
    → ((c : ScoreCrossCheck) → found ≡ some c → IsProjected (save_check (given_up code limit c) db))
    → IsProjected db
    → IsProjected (fail_row code limit found db).1
fail_row-IsProjected code limit none db row h = h
fail_row-IsProjected code limit (some c) db row h = row c refl

pub fail-IsProjected :
    (i token : ℕ) (code : ErrorCode) (limit : ℕ) (db : Db)
    → IsProjected db
    → IsProjected (fail_cross_check i token code limit db).1
unfolding fail_cross_check
fail-IsProjected i token code limit db h =
    fail_row-IsProjected code limit (find_first (is_held i token) db.checks) db
      (λ c e.
        let (o, b, t) = found-owned db h (is_held i token) c e in
        save-IsProjected db h (given_up code limit c) o b
          (given_up-Speaks db h code limit i token c e))
      h

recovered-Agrees :
    (limit now : ℕ) (locked : ℕ → Bool) (c : ScoreCrossCheck) (s : Score)
    → is_lost now locked c ≡ true
    → Agrees c c.state s
    → Agrees (recovered limit c) (recovered limit c).state s
unfolding recovered
recovered-Agrees limit now locked c s lost a = ground arith

pub sweep-IsProjected :
    (now limit : ℕ) (locked : ℕ → Bool) (db : Db)
    → IsProjected db
    → IsProjected (sweep_cross_checks now limit locked db).1
unfolding sweep_cross_checks recovered
sweep-IsProjected now limit locked db h =
    let rows' = update_where (is_lost now locked) (recovered limit) db.checks in
    let same : (i : ℕ) → greatest_id i rows' ≡ greatest_id i db.checks = λ i.
      greatest_id-update i (is_lost now locked) (recovered limit) db.checks (λ _ _. (refl, refl)) in
    record {
      owner = h.owner;
      owned =
          All-update_where (λ c. c.score_id ≡ h.owner c.id) (is_lost now locked) (recovered limit)
            db.checks (λ _ o _. o) h.owned;
      below =
          All-update_where (λ c. c.id < db.next_id) (is_lost now locked) (recovered limit) db.checks
            (λ _ b _. b) h.below;
      speaks =
          All-update_both (Speaks db.checks db.scores) (Speaks rows' db.scores) (is_lost now locked)
            (recovered limit) db.checks
            (λ c p lost newest s at.
              recovered-Agrees limit now locked c s lost (p (sym (same c.score_id) ∙ newest) s at))
            (λ c p _ newest s at. p (sym (same c.score_id) ∙ newest) s at) h.speaks;
    }
