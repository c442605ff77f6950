-- ===== src/Llm/Tests.antt =====
-- Concrete calls of models, at which the theorems' hypotheses hold.
use smart_screen_agent.Prelude.{
  ℕ, zero, suc, ◌≡◌, refl, String, Bool, true, false, none, some, List, [], ◌∷◌, arith, find_first,
  ok, same_text,
}
use smart_screen_agent.Llm.Pricing.{
  finite, scaled, rates, BookValue, book, ModelPrice, normalize_rate, has_duplicates, parse_models,
  parse_price_book, require, count, estimate_cost,
}
use smart_screen_agent.Llm.Pricing.Bounds.{require-estimate_cost}
use smart_screen_agent.Llm.Usage.{
  LlmCallContext, primary, extract, inserted, insert_lost, Try, failed, committed,
  UsageAttemptHandle, TerminalValues, Terminal, Ledger, LlmUsageAttempt, succeeded, unavailable,
  provider_unavailable, fresh, settle, validate_terminal_values, finalize,
}
use smart_screen_agent.Llm.Usage.History.{Event, begins, finalizes, abandons, history}
use smart_screen_agent.Llm.Usage.Settled.{
  has_id, history-terminal, IsConsistent, no_attempts, history-IsConsistent,
}
use smart_screen_agent.Llm.Usage.Finalize.{Ended, finalize_settles}
use smart_screen_agent.Llm.Gateway.{Encounter, Settings, World, trouble, answered}
use smart_screen_agent.Llm.Gateway.Response.{RawResponse, normalize_provider_response}
use smart_screen_agent.Llm.Gateway.Reading.{
  as_sent, IsCounted, IsText, InRange, normalize_provider_response-IsCounted,
  normalize_provider_response-valid, normalize-as_sent,
}
use smart_screen_agent.Llm.Gateway.Calls.{
  Call, extracts, run_all, IsCovered, no_calls, run_all-IsCovered,
}

abbrev empty : String → Bool
empty s = same_text s ""

-- 2.5 and 10 yuan for a million tokens.
abbrev price_json : BookValue
price_json = book (("qwen", rates (("input", finite 25 1) ∷ ("output", scaled 1 1) ∷ [])) ∷ [])

abbrev qwen : ModelPrice
qwen = record { input_cny_per_million = 2500000; output_cny_per_million = 10000000 }

abbrev prices : List (String × ModelPrice)
prices = ("qwen", qwen) ∷ []

parsed : parse_price_book empty price_json ≡ ok prices
unfolding parse_price_book has_duplicates parse_models normalize_rate
parsed = refl

listed : require "qwen" prices ≡ some qwen
unfolding require
listed = refl

require-estimate_cost_example :
    estimate_cost qwen (some (count 1200)) (some (count 300)) ≡ ok (some 6000000000)
require-estimate_cost_example =
    require-estimate_cost empty price_json prices "qwen" qwen 1200 300 parsed listed (omega arith)
      (omega arith)

abbrev context : LlmCallContext
context = record {
  operation = extract;
  call_group_id = 7;
  trace_id = none;
  ingestion_job_id = some 3;
  score_id = none;
  jd_id = none;
  rule_version_id = none;
}

-- The first try loses, the second commits.
abbrev flaky : ℕ → Try
flaky zero = committed 80
flaky (suc n) = failed

abbrev sent : RawResponse
sent = as_sent "qwen-2" (some (1200, 300)) "{}" []

abbrev env : Encounter
env = record {
  started_at = 50;
  insert = inserted;
  answer = answered sent;
  latency_ms = 900;
  tries = flaky;
  broker_up = true;
}

abbrev settings : String → Settings
settings mode = record {
  prices = prices;
  finalize_retries = 2;
  structured_output_mode = mode;
  model_extract = "qwen";
  model_extract_fallback = "qwen";
  model_judge = "qwen";
  model_judge_fallback = "";
  model_light = "qwen";
  is_blank = empty;
}

abbrev idle : World
idle = record { ledger = no_attempts 1; requests = [] }

abbrev settled : Terminal
settled = record {
  status = succeeded;
  actual_model = some "qwen-2";
  input_tokens = some 1200;
  output_tokens = some 300;
  cost = some 6000000000;
  latency_ms = some 900;
  error_code = none;
}

abbrev row : LlmUsageAttempt
row = fresh context "qwen" primary "resume_extract_v1" 50 1 qwen

abbrev calls : List Call
calls = extracts context false (record env { answer = trouble }) env ∷ []

run_all-IsCovered_example : IsCovered (run_all (settings "json_object") calls (no_calls 1))
run_all-IsCovered_example = run_all-IsCovered (settings "json_object") calls 1

normalize_provider_response-IsCounted_example :
    IsCounted
      (normalize_provider_response empty sent).input_tokens
      (normalize_provider_response empty sent).output_tokens
normalize_provider_response-IsCounted_example = normalize_provider_response-IsCounted empty sent

sent_valid : (normalize_provider_response empty sent).valid ≡ true
unfolding normalize_provider_response
sent_valid = refl

normalize_provider_response-valid_example :
    IsText empty (normalize_provider_response empty sent).actual_model
    × IsText empty (normalize_provider_response empty sent).content
normalize_provider_response-valid_example = normalize_provider_response-valid empty sent sent_valid

sent-InRange : InRange (some (1200, 300))
unfolding InRange
sent-InRange = (omega arith, omega arith)

normalize-as_sent_example : normalize_provider_response empty sent ≡ record {
  valid = true;
  actual_model = some "qwen-2";
  input_tokens = some 1200;
  output_tokens = some 300;
  content = some "{}";
}
normalize-as_sent_example =
    normalize-as_sent empty "qwen-2" "{}" (some (1200, 300)) [] refl refl sent-InRange

abbrev handle : UsageAttemptHandle
handle = record { attempt_id = 1; price = qwen; started_at = 50 }

abbrev values : TerminalValues
values = record {
  status = unavailable;
  actual_model = none;
  input_tokens = none;
  output_tokens = none;
  latency_ms = some (count 900);
  error_code = some provider_unavailable;
}

abbrev lost : Terminal
lost = record {
  status = unavailable;
  actual_model = none;
  input_tokens = none;
  output_tokens = none;
  cost = none;
  latency_ms = some 900;
  error_code = some provider_unavailable;
}

lost_valid : validate_terminal_values qwen values ≡ ok lost
unfolding validate_terminal_values estimate_cost
lost_valid = refl

abbrev events : List Event
events =
    begins context "qwen" primary "resume_extract_v1" 50 insert_lost
    ∷ finalizes true 2 flaky handle values
    ∷ abandons 100 90
    ∷ []

history-IsConsistent_example : IsConsistent (history prices events (no_attempts 1))
history-IsConsistent_example = history-IsConsistent prices events 1

abbrev ended : Ledger
ended = record { attempts = settle lost 80 row ∷ []; next_id = 2; notified = 1 ∷ [] }

history-terminal_example :
    find_first (has_id 1) (history prices events ended).attempts ≡ some (settle lost 80 row)
history-terminal_example = history-terminal 1 (settle lost 80 row) refl prices events ended refl

abbrev waiting : Ledger
waiting = record { attempts = row ∷ []; next_id = 2; notified = [] }

finalize_settles_example :
    (row' : LlmUsageAttempt) × (find_first
        (has_id 1)
        (finalize true 2 flaky handle values waiting).1.attempts
      ≡ some row')
    × Ended values handle.price row row'
finalize_settles_example =
    finalize_settles true 2 0 flaky 80 handle values lost row waiting lost_valid (omega arith) refl
      refl refl
