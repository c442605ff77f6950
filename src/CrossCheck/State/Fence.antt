-- ===== src/CrossCheck/State/Fence.antt =====
-- A worker whose lease was taken over can no longer write.
use smart_screen_agent.Prelude.{
  ℕ, ◌+◌, ◌*◌, ◌≡◌, ◌≢◌, refl, sym, ap, subst, true, false, Option, none, some, List, [], ◌∷◌,
  arith, find_first, update_where, leb, Bool-cases, inl, inr, All-find_first, All-Unit,
}
use smart_screen_agent.CrossCheck.State.{
  ScoreCrossCheck, Db, ErrorCode, claimed, is_claimable, claim_row, claim_cross_check, has_id,
  is_held, complete_cross_check, fail_cross_check, save_check,
}

not_held :
    (token token' expires i : ℕ) (c : ScoreCrossCheck) (rows : List ScoreCrossCheck)
    → token' ≢ token
    → c.id ≡ i
    → find_first (is_held i token') (update_where (has_id c.id) (λ _. claimed token expires c) rows)
      ≡ none
not_held token token' expires i c [] ne here = refl
not_held token token' expires i c (r ∷ rows) ne here =
    ground (arith, not_held token token' expires i c rows ne here)

claim_row_took :
    (token expires limit : ℕ) (found : Option ScoreCrossCheck) (db : Db) {c : ScoreCrossCheck}
    {db' : Db}
    → claim_row token expires limit found db ≡ (some c, db')
    → (c₀ : ScoreCrossCheck) × (found ≡ some c₀) × (db' ≡ save_check (claimed token expires c₀) db)
claim_row_took token expires limit none db h = absurd (cc (ap (λ r. r.0) h))
claim_row_took token expires limit (some c₀) db h = elim (Bool-cases (leb limit c₀.attempts)) [
  | inl e ↦ (let r = rw e at h in absurd (cc (ap (λ x. x.0) r)))
  | inr e ↦ (c₀, refl, sym (ap (λ x. x.1) (rw e at h)))
]

fenced :
    (token token' expires i total now : ℕ) (code : ErrorCode) (limit : ℕ) (c : ScoreCrossCheck)
    (db : Db)
    → token' ≢ token
    → c.id ≡ i
    → let db' = save_check (claimed token expires c) db in
      (complete_cross_check i token' total now db' ≡ (false, db'))
      × (fail_cross_check i token' code limit db' ≡ (false, db'))
unfolding complete_cross_check fail_cross_check
fenced token token' expires i total now code limit c db ne here =
    let gone = not_held token token' expires i c db.checks ne here in (rw gone, rw gone)

is_claimable→id : (i : ℕ) (c : ScoreCrossCheck) → is_claimable i c ≡ true → c.id ≡ i
is_claimable→id i c h = ground arith

claim_took :
    (token i now lease limit : ℕ) (db : Db) {c : ScoreCrossCheck} {db' : Db}
    → claim_cross_check token i now lease limit db ≡ (some c, db')
    → (c₀ : ScoreCrossCheck) × (find_first (is_claimable i) db.checks ≡ some c₀)
      × (db' ≡ save_check (claimed token (now + lease * 1000000) c₀) db)
unfolding claim_cross_check
claim_took token i now lease limit db h =
    claim_row_took token (now + lease * 1000000) limit (find_first (is_claimable i) db.checks) db h

-- Nothing that a worker with another token does to a claimed check is written: neither its result
-- nor its failure.
pub claim_fences :
    (token token' i now lease limit total now' : ℕ) (code : ErrorCode) (db : Db)
    {c : ScoreCrossCheck} {db' : Db}
    → claim_cross_check token i now lease limit db ≡ (some c, db')
    → token' ≢ token
    → (complete_cross_check i token' total now' db' ≡ (false, db'))
      × (fail_cross_check i token' code limit db' ≡ (false, db'))
claim_fences token token' i now lease limit total now' code db {c} {db'} h ne =
    let expires = now + lease * 1000000 in
    let (c₀, found, e) = claim_took token i now lease limit db h in
    let mine =
      All-find_first (λ _. Unit {0}) (is_claimable i) db.checks c₀ (All-Unit db.checks) found in
    subst
      (λ d.
        (complete_cross_check i token' total now' d ≡ (false, d))
        × (fail_cross_check i token' code limit d ≡ (false, d)))
      (sym e)
      (fenced token token' expires i total now' code limit c₀ db ne (is_claimable→id i c₀ mine.1))
