-- ===== src/Scoring/Judge.antt =====
-- backend/app/scoring/llm_judge.py, with the classes of backend/app/rules/schema.py that it reads:
-- `_validate` and `score`. What JSON and pydantic make of a model's text, the normalisation of text
-- by Unicode and the search of a text in another are parameters. A score is a number of a fixed
-- quantum.
pub mod Validity
pub mod Secondary
use smart_screen_agent.Prelude.{
  ℕ, ◌+◌, String, Bool, true, false, not, ◌&&◌, ◌||◌, Option, none, some, List, [], ◌∷◌, map, any,
  find_first, same_text, ◌==◌, Result, ok, raised, ◌>>=◌, if◌then◌else◌,
}
use smart_screen_agent.Llm.Usage.{LlmCallContext, AttemptRole, primary, secondary}
use smart_screen_agent.Llm.Gateway.{
  LlmError, LlmResponse, Settings, Encounter, World, Answered, run_judge,
}

pub record Tier : Type 0 where
  pub label : String
  pub score : Option ℕ

pub record JudgeDimension : Type 0 where
  pub id : String
  pub weight : ℕ
  pub tiers : List Tier

pub record JudgeDimensionResult : Type 0 where
  pub id : String
  pub tier : String
  pub score : Option ℕ
  pub evidence_quotes : List String
  pub confidence : ℕ

pub record JudgeResult : Type 0 where
  pub dimensions : List JudgeDimensionResult
  pub model : String
  pub tokens : ℕ
  pub prompt_version : String
  pub call_group_id : Option ℕ

-- `read` is `decode_json_object` and `JudgeOutput.model_validate`, `normalize` is
-- `_normalize_evidence`, `within quote source` is `quote in source`.
pub record Reader : Type 0 where
  pub read : String → Option (List JudgeDimensionResult)
  pub normalize : String → String
  pub within : String → String → Bool

-- The messages of LLMInvalidOutputError.
pub data InvalidOutput : Type 0 where
  invalid_output wrong_ids tier_not_allowed unknown_with_score : InvalidOutput
  score_mismatch no_evidence evidence_not_in_source : InvalidOutput

abbrev pub has_id : String → JudgeDimensionResult → Bool
has_id i item = same_text item.id i

abbrev pub has_label : String → Tier → Bool
has_label label tier = same_text tier.label label

-- `len(actual_ids) != len(set(actual_ids))`
unfoldable pub repeats : List JudgeDimensionResult → Bool
repeats [] = false
repeats (item ∷ items) = any (has_id item.id) items || repeats items

abbrev pub is_dimension : String → JudgeDimension → Bool
is_dimension i dim = same_text dim.id i

-- Whether every item is asked for, and every dimension is answered.
unfoldable pub all_asked : List JudgeDimension → List JudgeDimensionResult → Bool
all_asked dims [] = true
all_asked dims (item ∷ items) = any (is_dimension item.id) dims && all_asked dims items

unfoldable pub all_answered : List JudgeDimension → List JudgeDimensionResult → Bool
all_answered [] items = true
all_answered (dim ∷ dims) items = any (has_id dim.id) items && all_answered dims items

-- `not normalized_quote or normalized_quote not in normalized_source`, negated.
abbrev pub is_quoted : Reader → String → String → Bool
is_quoted r source quote =
    not (same_text (r.normalize quote) "") && r.within (r.normalize quote) source

unfoldable pub all_quoted : Reader → String → List String → Bool
all_quoted r source [] = true
all_quoted r source (quote ∷ quotes) = is_quoted r source quote && all_quoted r source quotes

abbrev pub check_evidence :
    Reader → String → JudgeDimensionResult → List String → Result InvalidOutput JudgeDimensionResult
check_evidence r source item [] = raised no_evidence
check_evidence r source item (quote ∷ quotes) =
    if all_quoted r source (quote ∷ quotes) then ok item else raised evidence_not_in_source

-- Against the tier's score, with the item's score and quotes.
abbrev pub check_tier :
    Reader
    → String
    → JudgeDimensionResult
    → Option ℕ
    → Option ℕ
    → List String
    → Result InvalidOutput JudgeDimensionResult
check_tier r source item none none [] = ok item
check_tier r source item none _ _ = raised unknown_with_score
check_tier r source item (some s) none quotes = raised score_mismatch
check_tier r source item (some s) (some t) quotes =
    if t == s then check_evidence r source item quotes else raised score_mismatch

abbrev pub with_tier :
    Reader → String → JudgeDimensionResult → Option Tier → Result InvalidOutput JudgeDimensionResult
with_tier r source item none = raised tier_not_allowed
with_tier r source item (some tier) =
    check_tier r source item tier.score item.score item.evidence_quotes

-- `by_id[dim.id]`; that it is there is what the test of the ids has shown.
abbrev pub with_item :
    Reader
    → String
    → JudgeDimension
    → Option JudgeDimensionResult
    → Result InvalidOutput JudgeDimensionResult
with_item r source dim none = raised wrong_ids
with_item r source dim (some item) =
    with_tier r source item (find_first (has_label item.tier) dim.tiers)

-- The loop over the dimensions.
unfoldable pub check_dimensions :
    Reader
    → String
    → List JudgeDimensionResult
    → List JudgeDimension
    → Result InvalidOutput (List JudgeDimensionResult)
check_dimensions r source items [] = ok []
check_dimensions r source items (dim ∷ dims) = do
  item ← with_item r source dim (find_first (has_id dim.id) items)
  rest ← check_dimensions r source items dims
  ok (item ∷ rest)

abbrev pub tokens_or_zero : Option ℕ → ℕ
tokens_or_zero none = 0
tokens_or_zero (some n) = n

abbrev pub judge_result : LlmResponse → List JudgeDimensionResult → JudgeResult
judge_result response ordered = record {
  dimensions = ordered;
  model = response.model;
  tokens = tokens_or_zero response.input_tokens + tokens_or_zero response.output_tokens;
  prompt_version =
      if same_text response.prompt_version "" then "resume_judge_v1" else response.prompt_version;
  call_group_id = some response.call_group_id;
}

abbrev pub validate_items :
    Reader
    → String
    → List JudgeDimension
    → LlmResponse
    → Option (List JudgeDimensionResult)
    → Result InvalidOutput JudgeResult
validate_items r resume dims response none = raised invalid_output
validate_items r resume dims response (some items) =
    if repeats items || not (all_asked dims items && all_answered dims items)
    then raised wrong_ids
    else (do
      ordered ← check_dimensions r (r.normalize resume) items dims
      ok (judge_result response ordered))

-- `LLMJudge._validate`
unfoldable pub validate :
    Reader → String → List JudgeDimension → LlmResponse → Result InvalidOutput JudgeResult
validate r resume dims response = validate_items r resume dims response (r.read response.content)

-- Why `score` raises: the gateway did, or the output is invalid.
pub data JudgeError : Type 0 where
  gateway : LlmError → JudgeError
  invalid : InvalidOutput → JudgeError

abbrev pub Judged : Type 0
Judged = Result JudgeError JudgeResult × World

abbrev pub as_judged : Result InvalidOutput JudgeResult → Result JudgeError JudgeResult
as_judged (ok result) = ok result
as_judged (raised e) = raised (invalid e)

-- The last call and its validation.
abbrev pub conclude : Reader → String → List JudgeDimension → Answered → Judged
conclude r resume dims (raised e, w) = (raised (gateway e), w)
conclude r resume dims (ok response, w) = (as_judged (validate r resume dims response), w)

-- What the two calls of `score` meet, each with its own fallback.
pub record Encounters : Type 0 where
  pub first : Encounter
  pub first_fallback : Encounter
  pub second : Encounter
  pub second_fallback : Encounter

-- After an output of the first call that is not valid.
abbrev pub try_again :
    Reader
    → Settings
    → String
    → List JudgeDimension
    → LlmCallContext
    → Option String
    → Encounters
    → LlmResponse
    → InvalidOutput
    → World
    → Judged
try_again r s resume dims context (some model) env response e w =
    conclude r resume dims
      (run_judge s context (some model) secondary false env.second env.second_fallback w)
try_again r s resume dims context none env response e w =
    if response.used_fallback
    then (raised (invalid e), w)
    else conclude r resume dims
        (run_judge s context none primary true env.second env.second_fallback w)

abbrev pub after_validation :
    Reader
    → Settings
    → String
    → List JudgeDimension
    → LlmCallContext
    → Option String
    → Encounters
    → LlmResponse
    → Result InvalidOutput JudgeResult
    → World
    → Judged
after_validation r s resume dims context model env response (ok result) w = (ok result, w)
after_validation r s resume dims context model env response (raised e) w =
    try_again r s resume dims context model env response e w

abbrev pub after_call :
    Reader
    → Settings
    → String
    → List JudgeDimension
    → LlmCallContext
    → Option String
    → Encounters
    → Answered
    → Judged
after_call r s resume dims context model env (raised e, w) = (raised (gateway e), w)
after_call r s resume dims context model env (ok response, w) =
    after_validation r s resume dims context model env response (validate r resume dims response) w

-- `model_override` that is empty counts as none for the role, not for the model.
abbrev pub role_for : Option String → AttemptRole
role_for none = primary
role_for (some model) = if same_text model "" then primary else secondary

abbrev pub no_judgement : JudgeResult
no_judgement = record {
  dimensions = [];
  model = "";
  tokens = 0;
  prompt_version = "";
  call_group_id = none;
}

-- `LLMJudge.score`
unfoldable pub score :
    Reader
    → Settings
    → String
    → List JudgeDimension
    → LlmCallContext
    → Option String
    → Encounters
    → World
    → Judged
score r s resume [] context model env w = (ok no_judgement, w)
score r s resume (dim ∷ dims) context model env w =
    after_call r s resume (dim ∷ dims) context model env
      (run_judge s context model (role_for model) false env.first env.first_fallback w)
