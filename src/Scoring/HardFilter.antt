-- ===== src/Scoring/HardFilter.antt =====
-- backend/app/scoring/hard_filter.py. What the regular expression, `split`, `strip` and `float` make of
-- a rule's text is a parameter. A candidate has the values that the rules read, of the types that
-- the rules expect; a score is a number of a fixed quantum.
use text.Mathlib.Text.{starts_with}
use smart_screen_agent.Prelude.{
  ℕ, String, Bool, true, false, Option, none, some, List, [], ◌∷◌, ◌++◌, same_text, leb,
  if◌then◌else◌,
}

pub record HardFilter : Type 0 where
  pub id : String
  pub rule : String
  pub audit_tag : String

pub record Experience : Type 0 where
  pub title : String
  pub description : String
  pub start : Option String
  pub end : Option String

-- `extracted_json`
pub record Extracted : Type 0 where
  pub age : Option ℕ
  pub education : Option String
  pub total_score : Option ℕ
  pub experiences : List Experience
  pub meta_model : Option String

-- `age_limit` is the group of `_AGE_RULE.match(rule.strip())` as a number, `bound` is
-- `rule.split(">=")[1].strip()`, `unquoted` strips quotes, and `number` is `float`, with none where
-- it raises.
pub record RuleText : Type 0 where
  pub age_limit : String → Option ℕ
  pub bound : String → String
  pub unquoted : String → String
  pub number : String → Option ℕ

pub record HardFilterResult : Type 0 where
  pub rejected : Bool
  pub failed_filter_ids : List String
  pub unknown_filter_ids : List String
  pub audit_entries : List HardFilter

-- `_EDU_RANKS.get(..., 0)`
abbrev pub edu_rank : String → ℕ
edu_rank edu =
    if same_text edu "高中"
    then 1
    else if same_text edu "大专"
    then 2
    else if same_text edu "专升本"
    then 3
    else if same_text edu "本科"
    then 4
    else if same_text edu "硕士"
    then 5
    else if same_text edu "博士"
    then 6
    else 0

-- What a rule finds: it passes, it fails, it cannot tell, or `float` raises.
pub data Outcome : Type 0 where
  passes fails unknown raises : Outcome

abbrev pub outcome_of : Bool → Outcome
outcome_of true = passes
outcome_of false = fails

abbrev pub at_most : ℕ → Option ℕ → Outcome
at_most limit none = unknown
at_most limit (some age) = outcome_of (leb age limit)

-- `if not edu`
abbrev pub educated : String → Option String → Outcome
educated target none = unknown
educated target (some edu) =
    if same_text edu "" then unknown else outcome_of (leb (edu_rank target) (edu_rank edu))

abbrev pub at_least : Option ℕ → Option ℕ → Outcome
at_least none _ = raises
at_least (some threshold) none = unknown
at_least (some threshold) (some score) = outcome_of (leb threshold score)

abbrev pub eval_worded : RuleText → String → Extracted → Outcome
eval_worded t rule candidate =
    if starts_with rule "education >="
    then educated (t.unquoted (t.bound rule)) candidate.education
    else if starts_with rule "total_score >="
    then at_least (t.number (t.bound rule)) candidate.total_score
    else unknown

abbrev pub eval_aged : RuleText → String → Extracted → Option ℕ → Outcome
eval_aged t rule candidate none = eval_worded t rule candidate
eval_aged t rule candidate (some limit) = at_most limit candidate.age

-- `_eval_filter`
unfoldable pub eval_filter : RuleText → String → Extracted → Outcome
eval_filter t rule candidate = eval_aged t rule candidate (t.age_limit rule)

abbrev pub nothing_found : HardFilterResult
nothing_found = record {
  rejected = false;
  failed_filter_ids = [];
  unknown_filter_ids = [];
  audit_entries = [];
}

-- One round of the loop, where the rule does not raise.
abbrev pub after_outcome : HardFilter → HardFilterResult → Outcome → Option HardFilterResult
after_outcome f result passes = some result
after_outcome f result raises = none
after_outcome f result unknown =
    some (record result { unknown_filter_ids = result.unknown_filter_ids ++ f.id ∷ [] })
after_outcome f result fails = some (record result {
  rejected = true;
  failed_filter_ids = result.failed_filter_ids ++ f.id ∷ [];
  audit_entries = result.audit_entries ++ f ∷ [];
})

unfoldable pub run_filters_from :
    RuleText → Extracted → List HardFilter → HardFilterResult → Option HardFilterResult
run_filters_from t candidate [] result = some result
run_filters_from t candidate (f ∷ filters) result =
    elim (after_outcome f result (eval_filter t f.rule candidate)) [
      | none ↦ none
      | some result' ↦ run_filters_from t candidate filters result'
    ]

-- `run_hard_filters`; none is a ValueError.
unfoldable pub run_hard_filters : RuleText → Extracted → List HardFilter → Option HardFilterResult
run_hard_filters t candidate filters = run_filters_from t candidate filters nothing_found
