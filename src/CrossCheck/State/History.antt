-- ===== src/CrossCheck/State/History.antt =====
-- Histories of the queue: the transactions of triggers, workers and sweepers in the order in which
-- they commit.
use smart_screen_agent.Prelude.{ℕ, ◌<◌, Bool, List, [], ◌∷◌}
use smart_screen_agent.CrossCheck.State.{
  Db, ErrorCode, Wanted, Score, ensure_cross_check, claim_cross_check, complete_cross_check,
  fail_cross_check, sweep_cross_checks,
}
use smart_screen_agent.CrossCheck.State.Soundness.{
  AllSound, ensure_cross_check-AllSound, claim_cross_check-AllSound, complete_cross_check-AllSound,
  fail_cross_check-AllSound, sweep_cross_checks-AllSound,
}
use smart_screen_agent.CrossCheck.State.Projection.{
  IsProjected, claim-IsProjected, fail-IsProjected, sweep-IsProjected,
}
use smart_screen_agent.CrossCheck.State.Projection.Verdict.{complete-IsProjected}
use smart_screen_agent.CrossCheck.State.Projection.Queueing.{ensure-IsProjected}

-- A transaction, with the arguments that its caller chooses.
pub data Transaction : Type 0 where
  ensure : Wanted → Transaction
  claim : (token row_id now lease_seconds : ℕ) → Transaction
  complete : (row_id token secondary_total now : ℕ) → Transaction
  fail : (row_id token : ℕ) → ErrorCode → Transaction
  sweep : ℕ → (ℕ → Bool) → Transaction

unfoldable pub commit : ℕ → Transaction → Db → Db
commit limit (ensure w) db = (ensure_cross_check w db).1
commit limit (claim token i now lease) db = (claim_cross_check token i now lease limit db).1
commit limit (complete i token total now) db = (complete_cross_check i token total now db).1
commit limit (fail i token code) db = (fail_cross_check i token code limit db).1
commit limit (sweep now locked) db = (sweep_cross_checks now limit locked db).1

unfoldable pub history : ℕ → List Transaction → Db → Db
history limit [] db = db
history limit (t ∷ ts) db = history limit ts (commit limit t db)

commit-AllSound :
    (limit : ℕ) (t : Transaction) (db : Db)
    → 0 < limit
    → AllSound limit db
    → AllSound limit (commit limit t db)
unfolding commit
commit-AllSound limit (ensure w) db pos h = ensure_cross_check-AllSound limit w db pos h
commit-AllSound limit (claim token i now lease) db pos h =
    claim_cross_check-AllSound limit token i now lease db h
commit-AllSound limit (complete i token total now) db pos h =
    complete_cross_check-AllSound limit i token total now db h
commit-AllSound limit (fail i token code) db pos h =
    fail_cross_check-AllSound limit i token code db h
commit-AllSound limit (sweep now locked) db pos h =
    sweep_cross_checks-AllSound limit now locked db h

commit-IsProjected :
    (limit : ℕ) (t : Transaction) (db : Db) → IsProjected db → IsProjected (commit limit t db)
unfolding commit
commit-IsProjected limit (ensure w) db h = ensure-IsProjected w db h
commit-IsProjected limit (claim token i now lease) db h =
    claim-IsProjected token i now lease limit db h
commit-IsProjected limit (complete i token total now) db h =
    complete-IsProjected i token total now db h
commit-IsProjected limit (fail i token code) db h = fail-IsProjected i token code limit db h
commit-IsProjected limit (sweep now locked) db h = sweep-IsProjected now limit locked db h

-- Any history keeps what every transaction keeps.
history-kept :
    (limit : ℕ) (ts : List Transaction) (db : Db)
    → 0 < limit
    → AllSound limit db
    → IsProjected db
    → AllSound limit (history limit ts db) × IsProjected (history limit ts db)
unfolding history
history-kept limit [] db pos s p = (s, p)
history-kept limit (t ∷ ts) db pos s p =
    history-kept limit ts (commit limit t db) pos (commit-AllSound limit t db pos s)
      (commit-IsProjected limit t db p)

-- An empty queue.
abbrev pub no_checks : List Score → ℕ → Db
no_checks scores n = record { checks = []; scores = scores; next_id = n }

-- However triggers, workers and sweepers interleave from an empty queue on, with one positive limit
-- of attempts: every check has a lease exactly while it runs, a result exactly when it is
-- completed, and attempts within the limit; and every score whose newest check is completed shows
-- that check's difference, and whether it reaches the check's threshold, while a score whose newest
-- check is not completed shows neither a difference nor a suspicion.
pub history-IsCoherent :
    (limit : ℕ) (ts : List Transaction) (scores : List Score) (n : ℕ)
    → 0 < limit
    → AllSound limit (history limit ts (no_checks scores n))
      × IsProjected (history limit ts (no_checks scores n))
history-IsCoherent limit ts scores n pos =
    history-kept limit ts (no_checks scores n) pos tt
      (record { owner = λ i. i; owned = tt; below = tt; speaks = tt })
