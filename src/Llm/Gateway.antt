-- ===== src/Llm/Gateway.antt =====
-- backend/app/services/llm/gateway.py: one call of a model, its record in the ledger, and the fallback.
-- What the provider, the database and the clock do at a call is an argument.
pub mod Response
pub mod Reading
pub mod Calls
pub mod Accounts
use smart_screen_agent.Prelude.{
  ℕ, String, Bool, true, false, not, ◌&&◌, Option, none, some, List, [], ◌∷◌, ◌++◌, ltb, same_text,
  Result, ok, raised, if◌then◌else◌,
}
use smart_screen_agent.Llm.Pricing.{ModelPrice, TokenCount, count}
use smart_screen_agent.Llm.Usage.{
  Operation, extract, judge, cross_check, lightweight, AttemptRole, primary, fallback, secondary,
  LlmCallContext, Ledger, Insert, Try, UsageAttemptHandle, BeginError, model_price_missing,
  usage_ledger_unavailable, TerminalValues, succeeded, unavailable, invalid_response,
  configuration_error, AttemptStatus, AttemptError, provider_unavailable, provider_unexpected_error,
  provider_configuration_error, invalid_answer, begin, finalize,
}
use smart_screen_agent.Llm.Gateway.Response.{RawResponse, Normalized, normalize_provider_response}

pub data LlmError : Type 0 where
  llm_unavailable ledger_unavailable llm_configuration price_missing llm_invalid_response : LlmError

pub record LlmResponse : Type 0 where
  pub content : String
  pub model : String
  pub input_tokens : Option ℕ
  pub output_tokens : Option ℕ
  pub call_group_id : ℕ
  pub prompt_version : String
  pub latency_ms : ℕ
  pub used_fallback : Bool

-- How the request to the provider ends.
pub data Answer : Type 0 where
  -- APIConnectionError, APITimeoutError, RateLimitError, InternalServerError
  trouble : Answer
  -- APIResponseValidationError
  unreadable : Answer
  -- AuthenticationError, PermissionDeniedError, BadRequestError
  rejected : Answer
  -- Another APIStatusError, with its status code.
  status_error : ℕ → Answer
  unexpected : Answer
  answered : RawResponse → Answer

-- What one call meets.
pub record Encounter : Type 0 where
  pub started_at : ℕ
  pub insert : Insert
  pub answer : Answer
  pub latency_ms : ℕ
  pub tries : ℕ → Try
  pub broker_up : Bool

pub record Settings : Type 0 where
  pub prices : List (String × ModelPrice)
  pub finalize_retries : ℕ
  pub structured_output_mode : String
  pub model_extract : String
  pub model_extract_fallback : String
  pub model_judge : String
  pub model_judge_fallback : String
  pub model_light : String
  pub is_blank : String → Bool

-- The ledger, and the models that the provider has been asked for.
pub record World : Type 0 where
  pub ledger : Ledger
  pub requests : List String

abbrev pub Answered : Type 0
Answered = Result LlmError LlmResponse × World

-- `build_response_format` raises for any other mode.
abbrev pub is_supported : String → Bool
is_supported mode = if same_text mode "json_schema" then true else same_text mode "json_object"

-- `_finalize`, then the return or the raise of the branch.
unfoldable pub close :
    Settings
    → Encounter
    → UsageAttemptHandle
    → TerminalValues
    → Result LlmError LlmResponse
    → World
    → Answered
close s env handle v result w = (
  result,
  record {
    ledger = (finalize env.broker_up s.finalize_retries env.tries handle v w.ledger).1;
    requests = w.requests;
  },
)

-- The values of a call that brought no response.
abbrev pub failed_values : AttemptStatus → AttemptError → ℕ → TerminalValues
failed_values status code latency = record {
  status = status;
  actual_model = none;
  input_tokens = none;
  output_tokens = none;
  latency_ms = some (count latency);
  error_code = some code;
}

abbrev pub counted : Option ℕ → Option TokenCount
counted none = none
counted (some n) = some (count n)

abbrev pub response_values : AttemptStatus → Option AttemptError → ℕ → Normalized → TerminalValues
response_values status code latency n = record {
  status = status;
  actual_model = n.actual_model;
  input_tokens = counted n.input_tokens;
  output_tokens = counted n.output_tokens;
  latency_ms = some (count latency);
  error_code = code;
}

-- What a call of a model makes of a response: the values of its row and its result. A valid response
-- has a model and a content, so the asserts of the source hold.
abbrev pub concluded :
    LlmCallContext
    → String
    → ℕ
    → Normalized
    → Bool
    → Option String
    → Option String
    → TerminalValues × Result LlmError LlmResponse
concluded context prompt latency n true (some model) (some content) = (
  response_values succeeded none latency n,
  ok (record {
    content = content;
    model = model;
    input_tokens = n.input_tokens;
    output_tokens = n.output_tokens;
    call_group_id = context.call_group_id;
    prompt_version = prompt;
    latency_ms = latency;
    used_fallback = false;
  }),
)
concluded context prompt latency n _ _ _ =
    (response_values invalid_response (some invalid_answer) latency n, raised llm_invalid_response)

unfoldable pub conclusion :
    (String → Bool)
    → LlmCallContext
    → String
    → ℕ
    → Answer
    → TerminalValues × Result LlmError LlmResponse
conclusion is_blank context prompt latency trouble =
    (failed_values unavailable provider_unavailable latency, raised llm_unavailable)
conclusion is_blank context prompt latency unreadable =
    (failed_values invalid_response invalid_answer latency, raised llm_invalid_response)
conclusion is_blank context prompt latency rejected = (
  failed_values configuration_error provider_configuration_error latency,
  raised llm_configuration,
)
conclusion is_blank context prompt latency (status_error code) =
    if ltb code 500
    then (
      failed_values configuration_error provider_configuration_error latency,
      raised llm_configuration,
    )
    else (failed_values unavailable provider_unavailable latency, raised llm_unavailable)
conclusion is_blank context prompt latency unexpected =
    (failed_values unavailable provider_unexpected_error latency, raised llm_unavailable)
conclusion is_blank context prompt latency (answered response) =
    let n = normalize_provider_response is_blank response in
    concluded context prompt latency n n.valid n.actual_model n.content

abbrev pub close_with :
    Settings
    → Encounter
    → UsageAttemptHandle
    → TerminalValues × Result LlmError LlmResponse
    → World
    → Answered
close_with s env handle (v, result) w = close s env handle v result w

abbrev pub ask : String → World → World
ask model w = record { ledger = w.ledger; requests = w.requests ++ model ∷ [] }

-- After `begin`. An unsupported mode raises before the request, and leaves the row pending.
abbrev pub request :
    Settings
    → String
    → String
    → LlmCallContext
    → Encounter
    → Bool
    → UsageAttemptHandle
    → World
    → Answered
request s model prompt context env false handle w = (raised llm_configuration, w)
request s model prompt context env true handle w =
    close_with s env handle (conclusion s.is_blank context prompt env.latency_ms env.answer)
      (ask model w)

abbrev pub begin_error : BeginError → LlmError
begin_error model_price_missing = price_missing
begin_error usage_ledger_unavailable = ledger_unavailable

abbrev pub after_begin :
    Settings
    → String
    → String
    → LlmCallContext
    → Encounter
    → List String
    → Result BeginError UsageAttemptHandle × Ledger
    → Answered
after_begin s model prompt context env requests (raised e, db) =
    (raised (begin_error e), record { ledger = db; requests = requests })
after_begin s model prompt context env requests (ok handle, db) =
    request s model prompt context env (is_supported s.structured_output_mode) handle
      (record { ledger = db; requests = requests })

unfoldable pub call_once :
    Settings → String → String → LlmCallContext → AttemptRole → Encounter → World → Answered
call_once s model prompt context role env w =
    after_begin s model prompt context env w.requests
      (begin s.prices context model role prompt env.started_at env.insert w.ledger)

-- `replace(response, used_fallback=True)`
abbrev pub by_fallback : Result LlmError LlmResponse → Result LlmError LlmResponse
by_fallback (raised e) = raised e
by_fallback (ok r) = ok (record {
  content = r.content;
  model = r.model;
  input_tokens = r.input_tokens;
  output_tokens = r.output_tokens;
  call_group_id = r.call_group_id;
  prompt_version = r.prompt_version;
  latency_ms = r.latency_ms;
  used_fallback = true;
})

unfoldable pub call_fallback :
    Settings → String → String → LlmCallContext → Encounter → World → Answered
call_fallback s model prompt context env w =
    let (result, after) = call_once s model prompt context fallback env w in
    (by_fallback result, after)

-- Which errors of the primary model are caught.
abbrev pub is_recoverable : LlmError → Bool
is_recoverable llm_unavailable = true
is_recoverable llm_invalid_response = true
is_recoverable _ = false

-- An empty name is no name.
abbrev pub configured : Option String → Option String
configured none = none
configured (some name) = if same_text name "" then none else some name

abbrev pub retry_with :
    Settings → String → LlmCallContext → Encounter → LlmError → Option String → World → Answered
retry_with s prompt context env e none w = (raised e, w)
retry_with s prompt context env e (some model) w = call_fallback s model prompt context env w

abbrev pub after_primary :
    Settings → Option String → String → LlmCallContext → Encounter → Answered → Answered
after_primary s other prompt context env (ok response, w) = (ok response, w)
after_primary s other prompt context env (raised e, w) =
    if is_recoverable e
    then retry_with s prompt context env e (configured other) w
    else (raised e, w)

-- The second encounter is the fallback's.
unfoldable pub call_with_fallback :
    Settings
    → String
    → Option String
    → String
    → LlmCallContext
    → Encounter
    → Encounter
    → World
    → Answered
call_with_fallback s model other prompt context env env' w =
    after_primary s other prompt context env' (call_once s model prompt context primary env w)

-- `fallback_only`, with the fallback's name or none.
abbrev pub fallback_alone :
    Settings → String → LlmCallContext → Encounter → Option String → World → Answered
fallback_alone s prompt context env none w = (raised llm_configuration, w)
fallback_alone s prompt context env (some model) w = call_fallback s model prompt context env w

abbrev pub extract_with :
    Settings → LlmCallContext → Bool → Encounter → Encounter → World → Answered
extract_with s context true env env' w =
    fallback_alone s "resume_extract_v1" context env (configured (some s.model_extract_fallback)) w
extract_with s context false env env' w =
    call_with_fallback s s.model_extract (some s.model_extract_fallback) "resume_extract_v1" context
      env env' w

abbrev pub extract_for :
    Settings → Operation → LlmCallContext → Bool → Encounter → Encounter → World → Answered
extract_for s extract context only env env' w = extract_with s context only env env' w
extract_for s _ context only env env' w = (raised llm_configuration, w)

-- `LLMGateway.extract`
unfoldable pub run_extract :
    Settings → LlmCallContext → Bool → Encounter → Encounter → World → Answered
run_extract s context only env env' w = extract_for s context.operation context only env env' w

abbrev pub judge_first : Settings → LlmCallContext → Bool → Encounter → Encounter → World → Answered
judge_first s context true env env' w =
    fallback_alone s "resume_judge_v1" context env (configured (some s.model_judge_fallback)) w
judge_first s context false env env' w =
    call_with_fallback s s.model_judge (some s.model_judge_fallback) "resume_judge_v1" context env
      env' w

-- The guards of `judge`: a cross-check names its model and the secondary role, and nothing else does.
abbrev pub judge_for :
    Settings
    → Operation
    → Option String
    → AttemptRole
    → Bool
    → LlmCallContext
    → Encounter
    → Encounter
    → World
    → Answered
judge_for s cross_check (some model) secondary false context env env' w =
    call_once s model "resume_judge_v1" context secondary env w
judge_for s judge none primary only context env env' w = judge_first s context only env env' w
judge_for s _ _ _ _ context env env' w = (raised llm_configuration, w)

-- `LLMGateway.judge`
unfoldable pub run_judge :
    Settings
    → LlmCallContext
    → Option String
    → AttemptRole
    → Bool
    → Encounter
    → Encounter
    → World
    → Answered
run_judge s context model role only env env' w =
    judge_for s context.operation model role only context env env' w

abbrev pub lightweight_for : Settings → Operation → LlmCallContext → Encounter → World → Answered
lightweight_for s lightweight context env w =
    call_once s s.model_light "lightweight_v1" context primary env w
lightweight_for s _ context env w = (raised llm_configuration, w)

-- `LLMGateway.lightweight`
unfoldable pub run_lightweight : Settings → LlmCallContext → Encounter → World → Answered
run_lightweight s context env w = lightweight_for s context.operation context env w
