-- ===== src/Scoring/Pipeline/Persisted.antt =====
-- What a run of the scoring pipeline leaves in the table of scores.
use smart_screen_agent.Prelude.{
  ℕ, ◌≤◌, ◌≡◌, refl, sym, subst, Bool, true, false, Option, none, some, List, [], arith, any,
  length-select-insert, find_first, select, length, Option-cases, Bool-cases, inl, inr, Result, ok,
  raised, if◌then◌else◌,
}
use smart_screen_agent.CrossCheck.State
use smart_screen_agent.Llm.Gateway.{World}
use smart_screen_agent.Scoring.Judge
use smart_screen_agent.Scoring.Judge.{JudgeResult, JudgeError}
use smart_screen_agent.Scoring.HardFilter.{HardFilterResult, run_hard_filters}
use smart_screen_agent.Scoring.Pipeline.{
  RuleSchema, Score, AuditLog, Store, Key, has_key, PipelineResult, Meets, result_of, insert_score,
  with_audit, upsert_score, numbered, Ran, rejected_result, reject, blank_score, key_of,
}
use smart_screen_agent.Scoring.Pipeline.Run.{
  judged_score, queued, maybe_queue, persist, after_judge, after_filters, evaluate, unless_scored,
  judge_context, with_version, run,
}

-- The score of the key, which is what the result tells of.
pub record Persisted (k : Key) (r : PipelineResult) (db : Store) : Type 0 where
  pub row : Score
  pub found : find_first (has_key k) db.scores ≡ some row
  pub told : result_of r.cross_check_ids row ≡ r

abbrev pub Promised : Key → Ran → Type 0
Promised k (raised e, db) = Unit {0}
Promised k (ok r, db) = Persisted k r db

-- The unique constraint.
abbrev pub OneRow : Store → Type 0
OneRow db = (k : Key) → length (select (has_key k) db.scores) ≤ 1

-- What an upsert returns is the score of its key.
abbrev Found : Key → Option Score × Store → Type 0
Found k (none, db) = Unit {0}
Found k (some s, db) = find_first (has_key k) db.scores ≡ some s

upsert-Found :
    (k : Key) (s : Score) (es : List AuditLog) (db : Store) → Found k (upsert_score k s es db)
unfolding upsert_score
upsert-Found k s es db = elim (Option-cases (find_first (has_key k) after.scores)) [
  | inl e ↦ subst (λ o. Found k (o, after)) (sym e) tt
  | inr (row, e) ↦ subst (λ o. Found k (o, after)) (sym e) e
]
  where
    after : Store
    after =
        with_audit (any (has_key k) db.scores) es (insert_score (any (has_key k) db.scores) s db)

same_key :
    (k k' : Key) (s : Score)
    → has_key k s ≡ true
    → has_key k' s ≡ true
    → (x : Score) → has_key k' x ≡ has_key k x
unfolding has_key
same_key k k' s h h' x = ground arith

upsert-OneRow :
    (k : Key) (s : Score) (es : List AuditLog) (db : Store)
    → has_key k (numbered db.next_id s) ≡ true
    → OneRow db
    → OneRow (upsert_score k s es db).1
unfolding upsert_score
upsert-OneRow k s es db mine h k' = elim (Bool-cases (any (has_key k) db.scores)) [
  | inl e ↦ rw e (h k')
  | inr e ↦ rw e (
      length-select-insert (has_key k) (has_key k') (numbered db.next_id s) db.scores e
        (same_key k k' (numbered db.next_id s) mine) (h k'))
]

module _ (k : Key) where
  -- What a run promises and keeps.
  abbrev Kept : Ran → Type 0
  Kept r = Promised k r × OneRow r.1

  rejected_result-Kept :
      (before : Store) (u : Option Score × Store)
      → Found k u
      → OneRow before
      → OneRow u.1
      → Kept (rejected_result before u)
  rejected_result-Kept before (none, db) f h h' = (tt, h)
  rejected_result-Kept before (some s, db) f h h' = (record { row = s; found = f; told = refl }, h')

  queued-Kept :
      (before : Store) (s : Score) (db : Store) (q : Option (List ℕ) × State.Db)
      → find_first (has_key k) db.scores ≡ some s
      → OneRow before
      → OneRow db
      → Kept (queued before s db q)
  queued-Kept before s db (none, checks) f h h' = (tt, h)
  queued-Kept before s db (some ids, checks) f h h' =
      (record { row = s; found = f; told = refl }, h')

  maybe_queue-Kept :
      (m : Meets) (schema : RuleSchema) (judged : JudgeResult) (before : Store)
      (u : Option Score × Store)
      → Found k u
      → OneRow before
      → OneRow u.1
      → Kept (maybe_queue m schema judged before u)
  maybe_queue-Kept m schema judged before (none, db) f h h' = (tt, h)
  maybe_queue-Kept m schema judged before (some s, db) f h h' = queued-Kept before s db _ f h h'

abbrev pub IfRejected : Bool → World → World → Type 0
IfRejected true w w' = w' ≡ w
IfRejected false w w' = Unit {0}

abbrev pub UnlessPassed : Option HardFilterResult → World → World → Type 0
UnlessPassed none w w' = w' ≡ w
UnlessPassed (some hf) w w' = IfRejected hf.rejected w w'

module _ (m : Meets) (version : ℕ) where
  has_own_key :
      (i : ℕ) (s : Score)
      → s.candidate_id ≡ m.candidate_id
      → s.jd_id ≡ m.jd_id
      → s.rule_version_id ≡ version
      → has_key (key_of m version) (numbered i s) ≡ true
  unfolding has_key
  has_own_key i s a b c = ground arith

  reject-Kept :
      (hf : HardFilterResult) (db : Store)
      → OneRow db
      → Kept (key_of m version) (reject m version hf db)
  unfolding reject
  reject-Kept hf db h =
      rejected_result-Kept (key_of m version) db _
        (upsert-Found (key_of m version) (blank_score m version hf) _ db) h
        (upsert-OneRow (key_of m version) (blank_score m version hf) _ db
          (has_own_key db.next_id (blank_score m version hf) refl refl refl) h)

  persist-Kept :
      (schema : RuleSchema) (hf : HardFilterResult) (judged : JudgeResult) (db : Store)
      → OneRow db
      → Kept (key_of m version) (persist m version schema hf judged db)
  unfolding persist
  persist-Kept schema hf judged db h =
      maybe_queue-Kept (key_of m version) m schema judged db _
        (upsert-Found (key_of m version) (judged_score m version schema hf judged) _ db) h
        (upsert-OneRow (key_of m version) (judged_score m version schema hf judged) _ db
          (has_own_key db.next_id (judged_score m version schema hf judged) refl refl refl) h)

  after_judge-Kept :
      (schema : RuleSchema) (hf : HardFilterResult) (db : Store)
      (j : Result JudgeError JudgeResult × World)
      → OneRow (m.meanwhile db)
      → Kept (key_of m version) (after_judge m version schema hf db j).0
  after_judge-Kept schema hf db (raised e, w) h = (tt, h)
  after_judge-Kept schema hf db (ok judged, w) h = persist-Kept schema hf judged (m.meanwhile db) h

  -- No model is asked for a candidate that a filter rejects, nor where the schema or a filter is
  -- not valid.
  abbrev pub Unasked : Option RuleSchema → World → World → Type 0
  Unasked none w w' = w' ≡ w
  Unasked (some schema) w w' =
      UnlessPassed (run_hard_filters m.rule_text m.extracted schema.hard_filters) w w'

  -- What a run does, given the score of its key that is there before.
  abbrev pub Behaves : Store → World → Option Score → Ran × World → Type 0
  Behaves db w (some s) r = r ≡ ((ok (result_of [] s), db), w)
  Behaves db w none r = Promised (key_of m version) r.0 × OneRow r.0.1 × Unasked m.schema w r.1

  abbrev Filtered : Type 0 → Ran × World → Type 0
  Filtered unasked r = Promised (key_of m version) r.0 × OneRow r.0.1 × unasked

  by_flag :
      (schema : RuleSchema) (hf : HardFilterResult) (db : Store) (w : World) (flag : Bool)
      (j : Result JudgeError JudgeResult × World)
      → OneRow (m.meanwhile db)
      → let r =
          if flag
          then (reject m version hf (m.meanwhile db), w)
          else after_judge m version schema hf db j in
        Filtered (IfRejected flag w r.1) r
  by_flag schema hf db w true j h = let (p, u) = reject-Kept hf (m.meanwhile db) h in (p, u, refl)
  by_flag schema hf db w false j h = let (p, u) = after_judge-Kept schema hf db j h in (p, u, tt)

  after_filters-Filtered :
      (schema : RuleSchema) (o : Option HardFilterResult) (db : Store) (w : World)
      → OneRow db
      → OneRow (m.meanwhile db)
      → let r = after_filters m version schema o db w in Filtered (UnlessPassed o w r.1) r
  after_filters-Filtered schema none db w h h' = (tt, h, refl)
  after_filters-Filtered schema (some hf) db w h h' =
      by_flag schema hf db w hf.rejected
        (Judge.score m.reader m.gateway m.parsed_markdown schema.judge_dimensions
          (judge_context m version) none m.encounters w)
        h'

  evaluate-Behaves :
      (schema : Option RuleSchema) (db : Store) (w : World)
      → OneRow db
      → OneRow (m.meanwhile db)
      → let r = evaluate m version schema db w in Filtered (Unasked schema w r.1) r
  evaluate-Behaves none db w h h' = (tt, h, refl)
  evaluate-Behaves (some schema) db w h h' =
      after_filters-Filtered schema (run_hard_filters m.rule_text m.extracted schema.hard_filters)
        db w h h'

-- However the models answer, and whatever others commit meanwhile, if they keep to the unique
-- constraint on candidate, JD and rule version: where that score is there already, a run returns it,
-- writes nothing and asks no model. Else the table keeps the constraint, a run that returns tells of
-- the one score of its key in the table, its own or another run's, and no model has been asked if a
-- hard filter rejects the candidate.
pub run-Behaves :
    (m : Meets) (version : ℕ) (db : Store) (w : World)
    → m.active_rule_version_id ≡ some version
    → OneRow db
    → OneRow (m.meanwhile db)
    → Behaves m version db w (find_first (has_key (key_of m version)) db.scores) (run m db w)
unfolding run
run-Behaves m version db w active h h' =
    subst
      (λ o.
        Behaves m version db w (find_first (has_key (key_of m version)) db.scores)
          (with_version m o db w))
      (sym active) (scored (find_first (has_key (key_of m version)) db.scores))
  where
    scored : (o : Option Score) → Behaves m version db w o (unless_scored m version o db w)
    scored (some s) = refl
    scored none = evaluate-Behaves m version m.schema db w h h'
