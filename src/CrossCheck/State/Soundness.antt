-- ===== src/CrossCheck/State/Soundness.antt =====
-- The invariant of a row of the queue, and that every operation keeps it.
use smart_screen_agent.Prelude.{
  ℕ, ◌+◌, ◌*◌, ◌≤◌, ◌<◌, ◌≡◌, ◌≢◌, refl, Bool, true, false, Option, none, some, any, arith, All,
  All-update_where, All-append, All-find_first, is_some, find_first, leb, Bool-cases, inl, inr,
  if◌then◌else◌,
}
use smart_screen_agent.CrossCheck.State.{
  queued, running, completed, ScoreCrossCheck, Db, ErrorCode, Wanted, same_check, new_check,
  insert_check, is_newer, reset_score, merged, refresh, ensure_cross_check, greatest_id, claimed,
  is_claimable, claim_row, claim_cross_check, is_held, is_current, project, finished, complete_row,
  score_of, complete_cross_check, given_up, fail_row, fail_cross_check, is_lost, recovered,
  sweep_cross_checks, Score, distance, save_check, has_id,
}

-- A check has a lease exactly while it runs, a result exactly when it is completed, at most `limit`
-- attempts, and one left while it is queued.
pub record IsSound (limit : ℕ) (c : ScoreCrossCheck) : Type 0 where
  pub leased :
      c.state ≡ running → (is_some c.lease_token ≡ true) × (is_some c.lease_expires_at ≡ true)
  pub unleased : c.state ≢ running → (c.lease_token ≡ none) × (c.lease_expires_at ≡ none)
  pub has_result : c.state ≡ completed → is_some c.absolute_diff ≡ true
  pub no_result : c.state ≢ completed → c.absolute_diff ≡ none
  pub within : c.attempts ≤ limit
  pub has_room : c.state ≡ queued → c.attempts < limit

abbrev pub AllSound : ℕ → Db → Type 0
AllSound limit db = All (IsSound limit) db.checks

new_check-IsSound : (limit : ℕ) (w : Wanted) (i : ℕ) → 0 < limit → IsSound limit (new_check w i)
new_check-IsSound limit w i h = ground arith

merged-IsSound :
    (limit : ℕ) (w : Wanted) (c : ScoreCrossCheck) → IsSound limit c → IsSound limit (merged w c)
merged-IsSound limit w c h = ground arith

claimed-IsSound :
    (limit token expires : ℕ) (c : ScoreCrossCheck)
    → IsSound limit c
    → c.state ≡ queued
    → leb limit c.attempts ≡ false
    → IsSound limit (claimed token expires c)
claimed-IsSound limit token expires c h q room = ground arith

finished-IsSound :
    (limit total diff now : ℕ) (c : ScoreCrossCheck)
    → IsSound limit c
    → IsSound limit (finished total diff now c)
finished-IsSound limit total diff now c h = ground arith

given_up-IsSound :
    (limit : ℕ) (code : ErrorCode) (c : ScoreCrossCheck)
    → IsSound limit c
    → c.state ≡ running
    → IsSound limit (given_up code limit c)
given_up-IsSound limit code c h r = ground arith

recovered-IsSound :
    (limit now : ℕ) (locked : ℕ → Bool) (c : ScoreCrossCheck)
    → IsSound limit c
    → is_lost now locked c ≡ true
    → IsSound limit (recovered limit c)
unfolding recovered
recovered-IsSound limit now locked c h lost = ground arith

save-AllSound :
    (limit : ℕ) (c : ScoreCrossCheck) (db : Db)
    → IsSound limit c
    → AllSound limit db
    → AllSound limit (save_check c db)
save-AllSound limit c db s h =
    All-update_where (IsSound limit) (has_id c.id) (λ _. c) db.checks (λ _ _ _. s) h

insert-AllSound :
    (limit : ℕ) (conflict : Bool) (w : Wanted) (db : Db)
    → 0 < limit
    → AllSound limit db
    → AllSound limit (insert_check conflict w db)
insert-AllSound limit true w db pos h = h
insert-AllSound limit false w db pos h =
    All-append (IsSound limit) db.checks _ h (new_check-IsSound limit w db.next_id pos, tt)

reset-AllSound :
    (limit : ℕ) (newer : Bool) (i : ℕ) (db : Db)
    → AllSound limit db
    → AllSound limit (if newer then reset_score i db else db)
reset-AllSound limit true i db h = h
reset-AllSound limit false i db h = h

refresh-AllSound :
    (limit : ℕ) (previous : Option ℕ) (w : Wanted) (db : Db) (found : Option ScoreCrossCheck)
    → ((c : ScoreCrossCheck) → found ≡ some c → IsSound limit c)
    → AllSound limit db
    → AllSound limit (refresh previous w found db).1
refresh-AllSound limit previous w db none sound h = h
refresh-AllSound limit previous w db (some c) sound h =
    reset-AllSound limit (is_newer previous c.id) w.score_id (save_check (merged w c) db)
      (save-AllSound limit (merged w c) db (merged-IsSound limit w c (sound c refl)) h)

-- Queueing a check keeps the queue sound.
pub ensure_cross_check-AllSound :
    (limit : ℕ) (w : Wanted) (db : Db)
    → 0 < limit
    → AllSound limit db
    → AllSound limit (ensure_cross_check w db).1
unfolding ensure_cross_check
ensure_cross_check-AllSound limit w db pos h =
    let db' = insert_check (any (same_check w) db.checks) w db in
    let h' = insert-AllSound limit (any (same_check w) db.checks) w db pos h in
    refresh-AllSound limit (greatest_id w.score_id db.checks) w db'
      (find_first (same_check w) db'.checks)
      (λ c e. (All-find_first (IsSound limit) (same_check w) db'.checks c h' e).0) h'

is_claimable→queued : (i : ℕ) (c : ScoreCrossCheck) → is_claimable i c ≡ true → c.state ≡ queued
is_claimable→queued i c h = ground arith

is_held→running : (i token : ℕ) (c : ScoreCrossCheck) → is_held i token c ≡ true → c.state ≡ running
is_held→running i token c h = ground arith

claim_row-AllSound :
    (limit token expires : ℕ) (found : Option ScoreCrossCheck) (db : Db)
    → ((c : ScoreCrossCheck) → found ≡ some c → IsSound limit c × (c.state ≡ queued))
    → AllSound limit db
    → AllSound limit (claim_row token expires limit found db).1
claim_row-AllSound limit token expires none db row h = h
claim_row-AllSound limit token expires (some c) db row h =
    elim (Bool-cases (leb limit c.attempts)) [
      | inl e ↦ rw e h
      | inr e ↦ rw e (
          save-AllSound limit (claimed token expires c) db
            (claimed-IsSound limit token expires c (row c refl).0 (row c refl).1 e) h)
    ]

-- A claim keeps the queue sound.
pub claim_cross_check-AllSound :
    (limit token i now lease : ℕ) (db : Db)
    → AllSound limit db
    → AllSound limit (claim_cross_check token i now lease limit db).1
unfolding claim_cross_check
claim_cross_check-AllSound limit token i now lease db h =
    claim_row-AllSound limit token (now + lease * 1000000) (find_first (is_claimable i) db.checks)
      db
      (λ c e.
        let (s, t) = All-find_first (IsSound limit) (is_claimable i) db.checks c h e in
        (s, is_claimable→queued i c t))
      h

project-AllSound :
    (limit : ℕ) (current : Bool) (c : ScoreCrossCheck) (diff : ℕ) (db : Db)
    → AllSound limit db
    → AllSound limit (if current then project c diff db else db)
project-AllSound limit true c diff db h = h
project-AllSound limit false c diff db h = h

complete_row-AllSound :
    (limit total now : ℕ) (found : Option ScoreCrossCheck) (score : Option Score) (db : Db)
    → ((c : ScoreCrossCheck) → found ≡ some c → IsSound limit c)
    → AllSound limit db
    → AllSound limit (complete_row total now found score db).1
complete_row-AllSound limit total now none score db row h = h
complete_row-AllSound limit total now (some c) none db row h = h
complete_row-AllSound limit total now (some c) (some s) db row h =
    let diff = distance s.total_score total in
    let c' = finished total diff now c in
    project-AllSound limit (is_current c (greatest_id c.score_id db.checks)) c' diff
      (save_check c' db)
      (save-AllSound limit c' db (finished-IsSound limit total diff now c (row c refl)) h)

-- Completing a check keeps the queue sound.
pub complete_cross_check-AllSound :
    (limit i token total now : ℕ) (db : Db)
    → AllSound limit db
    → AllSound limit (complete_cross_check i token total now db).1
unfolding complete_cross_check
complete_cross_check-AllSound limit i token total now db h =
    let row = find_first (is_held i token) db.checks in
    complete_row-AllSound limit total now row (score_of row db) db
      (λ c e. (All-find_first (IsSound limit) (is_held i token) db.checks c h e).0) h

fail_row-AllSound :
    (limit : ℕ) (code : ErrorCode) (found : Option ScoreCrossCheck) (db : Db)
    → ((c : ScoreCrossCheck) → found ≡ some c → IsSound limit c × (c.state ≡ running))
    → AllSound limit db
    → AllSound limit (fail_row code limit found db).1
fail_row-AllSound limit code none db row h = h
fail_row-AllSound limit code (some c) db row h =
    save-AllSound limit (given_up code limit c) db
      (given_up-IsSound limit code c (row c refl).0 (row c refl).1) h

-- Failing a check keeps the queue sound.
pub fail_cross_check-AllSound :
    (limit i token : ℕ) (code : ErrorCode) (db : Db)
    → AllSound limit db
    → AllSound limit (fail_cross_check i token code limit db).1
unfolding fail_cross_check
fail_cross_check-AllSound limit i token code db h =
    fail_row-AllSound limit code (find_first (is_held i token) db.checks) db
      (λ c e.
        let (s, t) = All-find_first (IsSound limit) (is_held i token) db.checks c h e in
        (s, is_held→running i token c t))
      h

-- A sweep keeps the queue sound.
pub sweep_cross_checks-AllSound :
    (limit now : ℕ) (locked : ℕ → Bool) (db : Db)
    → AllSound limit db
    → AllSound limit (sweep_cross_checks now limit locked db).1
unfolding sweep_cross_checks
sweep_cross_checks-AllSound limit now locked db h =
    All-update_where (IsSound limit) (is_lost now locked) (recovered limit) db.checks
      (λ c s e. recovered-IsSound limit now locked c s e) h
