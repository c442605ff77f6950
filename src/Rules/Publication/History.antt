-- ===== src/Rules/Publication/History.antt =====
-- Histories of the rule versions: drafts are created, evaluated and published in any order.
use smart_screen_agent.Prelude.{ℕ, String, Option, List, [], ◌∷◌}
use smart_screen_agent.Scoring.Pipeline.{RuleSchema}
use smart_screen_agent.Rules.WhatIf.{Readers, ScoredLabel}
use smart_screen_agent.Rules.Publication.{
  RuleVersion, Db, create_draft, evaluate_draft, publish_version,
}
use smart_screen_agent.Rules.Publication.Governed.{IsGoverned}
use smart_screen_agent.Rules.Publication.Drafts.{create_draft-IsGoverned, evaluate_draft-IsGoverned}
use smart_screen_agent.Rules.Publication.Published.{publish_version-IsGoverned}

-- A request; a creation has seen some state, and an evaluation some version, of before.
pub data Request : Type 0 where
  create : ℕ → Option (String × RuleSchema) → Option String → Db → Request
  evaluate : Readers → RuleVersion → List String → List ScoredLabel → Request
  publish : ℕ → String → (now publisher : ℕ) → Request

unfoldable pub commit : Request → Db → Db
commit (create jd_id schema notes seen) db = (create_draft jd_id schema notes seen db).1
commit (evaluate r seen labels rows) db = (evaluate_draft r seen labels rows db).1
commit (publish jd_id version now publisher) db = (publish_version jd_id version now publisher db).1

unfoldable pub history : List Request → Db → Db
history [] db = db
history (r ∷ rs) db = history rs (commit r db)

commit-IsGoverned : (r : Request) (db : Db) → IsGoverned db → IsGoverned (commit r db)
unfolding commit
commit-IsGoverned (create jd_id schema notes seen) db h =
    create_draft-IsGoverned jd_id schema notes seen db h
commit-IsGoverned (evaluate r seen labels rows) db h =
    evaluate_draft-IsGoverned r seen labels rows db h
commit-IsGoverned (publish jd_id version now publisher) db h =
    publish_version-IsGoverned jd_id now publisher db h version

-- However drafts are created, evaluated (on whatever version a request has loaded before) and
-- published: ids stay unique, a published version is the active one of its JD, so a JD has one at
-- most, an active version is published and of that JD, and a version that is no draft has its
-- instant of publication and the metrics of an evaluation.
pub history-IsGoverned : (rs : List Request) (db : Db) → IsGoverned db → IsGoverned (history rs db)
unfolding history
history-IsGoverned [] db h = h
history-IsGoverned (r ∷ rs) db h = history-IsGoverned rs (commit r db) (commit-IsGoverned r db h)
