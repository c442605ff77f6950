-- ===== src/CrossCheck/Worker/Outcome.antt =====
-- What a run of the cross-check worker leaves behind.
use smart_screen_agent.Prelude.{
  ℕ, ◌≡◌, refl, Bool, true, false, none, some, List, [], ◌∷◌, arith, find_first, update_where,
  All-find_first, All-Unit, Option-cases, Bool-cases, inl, inr, Result, ok, raised,
}
use smart_screen_agent.CrossCheck.State.{
  ScoreCrossCheck, Score, Db, ErrorCode, has_id, is_score, is_held, is_current, distance, finished,
  complete_row, complete_cross_check, given_up, fail_row, fail_cross_check, claim_cross_check,
  greatest_id,
}
use smart_screen_agent.Llm.Gateway.{World}
use smart_screen_agent.Scoring.Judge.Secondary.{OnlyAsks, none_asked, score-OnlyAsks}
use smart_screen_agent.CrossCheck.Worker.{
  Source, Meets, load_source, with_source, judge_again, outcome_of, record_outcome, Report, lost,
  context_of, run_cross_check, Trouble,
}

-- No check runs under this token any more.
abbrev pub LetGo : ℕ → ℕ → Db → Type 0
LetGo row_id token db = find_first (is_held row_id token) db.checks ≡ none

-- A running check of the worker has its score, as the foreign key demands.
abbrev pub HasScore : ℕ → ℕ → Db → Type 0
HasScore row_id token db =
    (c : ScoreCrossCheck)
    → find_first (is_held row_id token) db.checks ≡ some c
    → (s : Score) × (find_first (is_score c.score_id) db.scores ≡ some s)

saved_lets_go :
    (i token : ℕ) (c : ScoreCrossCheck) (rows : List ScoreCrossCheck)
    → c.id ≡ i
    → is_held i token c ≡ false
    → find_first (is_held i token) (update_where (has_id c.id) (λ _. c) rows) ≡ none
saved_lets_go i token c [] here free = refl
saved_lets_go i token c (r ∷ rows) here free =
    ground (arith, saved_lets_go i token c rows here free)

held_id : (i token : ℕ) (c : ScoreCrossCheck) → is_held i token c ≡ true → c.id ≡ i
held_id i token c h = ground arith

module _ (i token : ℕ) (db : Db) (c : ScoreCrossCheck)
    (found : find_first (is_held i token) db.checks ≡ some c) where
  found_id : c.id ≡ i
  found_id =
      held_id i token c
        (All-find_first (λ _. Unit {0}) (is_held i token) db.checks c (All-Unit db.checks) found).1

  fail_row_lets_go :
      (code : ErrorCode) (limit : ℕ) → LetGo i token (fail_row code limit (some c) db).1
  fail_row_lets_go code limit =
      saved_lets_go i token (given_up code limit c) db.checks found_id (ground arith)

  complete_row_lets_go :
      (total now : ℕ) (s : Score) → LetGo i token (complete_row total now (some c) (some s) db).1
  complete_row_lets_go total now s =
      elim (Bool-cases (is_current c (greatest_id c.score_id db.checks))) [
        | inl e ↦ rw e freed
        | inr e ↦ rw e freed
      ]
    where
      done : ScoreCrossCheck
      done = finished total (distance s.total_score total) now c

      freed : find_first (is_held i token) (update_where (has_id c.id) (λ _. done) db.checks) ≡ none
      freed = saved_lets_go i token done db.checks found_id (ground arith)

fail_lets_go :
    (i token : ℕ) (code : ErrorCode) (limit : ℕ) (db : Db)
    → LetGo i token (fail_cross_check i token code limit db).1
unfolding fail_cross_check
fail_lets_go i token code limit db = elim (Option-cases (find_first (is_held i token) db.checks)) [
  | inl e ↦ rw e e
  | inr (c, e) ↦ rw e (fail_row_lets_go i token db c e code limit)
]

complete_lets_go :
    (i token total now : ℕ) (db : Db)
    → HasScore i token db
    → LetGo i token (complete_cross_check i token total now db).1
unfolding complete_cross_check
complete_lets_go i token total now db scored =
    elim (Option-cases (find_first (is_held i token) db.checks)) [
      | inl e ↦ rw e e
      | inr (c, e) ↦
          (let (s, there) = scored c e in
            rw (e, there) (complete_row_lets_go i token db c e total now s))
    ]

outcome_of_lets_go :
    (m : Meets) (i : ℕ) (total : Result Trouble ℕ) (db : Db)
    → HasScore i m.token db
    → LetGo i m.token (outcome_of m i total db).1
outcome_of_lets_go m i (raised e) db scored = fail_lets_go i m.token _ m.max_attempts db
outcome_of_lets_go m i (ok total) db scored = complete_lets_go i m.token total m.later db scored

-- What the transaction of the outcome leaves: by whether it commits, no check under the token, or
-- everything as it was, with the lease that a sweeper waits for, and an exception.
abbrev pub Leaves : Bool → ℕ → ℕ → Db → Report → Db → Type 0
Leaves true row_id token before report after = LetGo row_id token after
Leaves false row_id token before report after = (report ≡ lost) × (after ≡ before)

record_outcome-Leaves :
    (m : Meets) (i : ℕ) (total : Result Trouble ℕ) (db : Db)
    → HasScore i m.token db
    → Leaves m.outcome_commits i m.token db
        (record_outcome m i total db).0
        (record_outcome m i total db).1
record_outcome-Leaves m i total db scored = elim (Bool-cases m.outcome_commits) [
  | inl up ↦ rw up (outcome_of_lets_go m i total db scored)
  | inr down ↦ rw down (refl, refl)
]

with_source_asks :
    (m : Meets) (c : ScoreCrossCheck) (w : World) (source : Result Trouble Source)
    → OnlyAsks c.secondary_model 2 w.requests (with_source m c w source).1.requests
with_source_asks m c w (raised e) = none_asked c.secondary_model 2 w.requests
with_source_asks m c w (ok source) =
    score-OnlyAsks m.reader m.gateway source.resume_markdown source.judge_dimensions
      (context_of m source) c.secondary_model m.encounters w

-- Whatever the database holds, the judge meets and other transactions commit meanwhile, if the check
-- keeps its score: a worker that has claimed a check leaves none running under its token if the
-- transaction of its outcome commits; if not, it raises and leaves the database as others have made
-- it, so that the check waits for a sweep. In both cases it has asked no model but the check's own,
-- at most twice.
pub run_cross_check-LetGo :
    (m : Meets) (row_id : ℕ) (db db' : Db) (w : World) (c : ScoreCrossCheck)
    → claim_cross_check m.token row_id m.now m.lease_seconds m.max_attempts db ≡ (some c, db')
    → HasScore row_id m.token (m.meanwhile db')
    → Leaves m.outcome_commits row_id m.token
        (m.meanwhile db')
        (run_cross_check m row_id db w).0
        (run_cross_check m row_id db w).1
      × OnlyAsks c.secondary_model 2 w.requests (run_cross_check m row_id db w).2.requests
unfolding run_cross_check judge_again
run_cross_check-LetGo m row_id db db' w c taken scored = rw taken (
  record_outcome-Leaves m row_id (judge_again m c w).0 (m.meanwhile db') scored,
  with_source_asks m c w (load_source m.is_blank m.selected),
)
