-- ===== src/Llm/Gateway/Accounts.antt =====
-- What a call leaves in the ledger.
use smart_screen_agent.Prelude.{◌≡◌, String, Result, ok, raised}
use smart_screen_agent.Llm.Pricing.{ModelPrice}
use smart_screen_agent.Llm.Usage.{
  AttemptRole, AttemptStatus, pending, succeeded, unavailable, invalid_response,
  configuration_error, LlmCallContext, LlmUsageAttempt, UsageAttemptHandle, TerminalValues, fresh,
  write,
}
use smart_screen_agent.Llm.Gateway.{
  LlmError, llm_unavailable, llm_invalid_response, llm_configuration, ledger_unavailable,
  price_missing, LlmResponse, Encounter, Settings, World, conclusion, ask,
}

-- The status of the row that a result of a call stands for.
abbrev pub status_of : Result LlmError LlmResponse → AttemptStatus
status_of (ok response) = succeeded
status_of (raised llm_unavailable) = unavailable
status_of (raised llm_invalid_response) = invalid_response
status_of (raised llm_configuration) = configuration_error
status_of (raised ledger_unavailable) = pending
status_of (raised price_missing) = pending

Agrees : TerminalValues × Result LlmError LlmResponse → Type 0
Agrees (v, result) = v.status ≡ status_of result

module _ (s : Settings) (model prompt : String) (context : LlmCallContext) (role : AttemptRole)
    (env : Encounter) (w : World) (price : ModelPrice) where
  new_row : LlmUsageAttempt
  new_row = fresh context model role prompt env.started_at w.ledger.next_id price

  verdict : TerminalValues × Result LlmError LlmResponse
  verdict = conclusion s.is_blank context prompt env.latency_ms env.answer

  begun : World
  begun = ask model (record { ledger = write new_row w.ledger; requests = w.requests })

  handle : UsageAttemptHandle
  handle = record { attempt_id = w.ledger.next_id; price = price; started_at = env.started_at }
