-- ===== src/Scoring/Judge/Secondary.antt =====
-- Which models a judge with a model override asks.
use smart_screen_agent.Prelude.{
  ℕ, ◌+◌, ◌≤◌, ◌≡◌, refl, sym, ap, ◌∙◌, String, Bool, true, false, some, List, [], ◌∷◌, ◌++◌, All,
  All-append, length, length-append, Result, ok, raised, arith,
}
use mathlib.Core.List.{append_assoc, append-nil}
use smart_screen_agent.Llm.Usage.{
  LlmCallContext, AttemptRole, primary, secondary, fallback, Operation, Ledger, BeginError,
  UsageAttemptHandle,
}
use smart_screen_agent.Llm.Gateway.{
  LlmResponse, Settings, Encounter, World, Answered, run_judge, call_once, after_begin, request,
  close, judge_for, is_supported,
}
use smart_screen_agent.Scoring.Judge.{
  JudgeDimension, Reader, InvalidOutput, JudgeResult, conclude, Encounters, after_validation,
  after_call, role_for, validate, score,
}

-- The requests after are those before and at most `n` more, each to this model.
pub record OnlyAsks (model : String) (n : ℕ) (before after : List String) : Type 0 where
  pub more : List String
  pub extended : after ≡ before ++ more
  pub same : All (λ m. m ≡ model) more
  pub bounded : length more ≤ n

pub none_asked : (model : String) (n : ℕ) (l : List String) → OnlyAsks model n l l
none_asked model n l = record {
  more = [];
  extended = sym (append-nil l);
  same = tt;
  bounded = omega arith;
}

then_asks :
    (model : String) (n m : ℕ) (a b c : List String)
    → OnlyAsks model n a b
    → OnlyAsks model m b c
    → OnlyAsks model (n + m) a c
then_asks model n m a b c h k = record {
  more = h.more ++ k.more;
  extended = k.extended ∙ ap (λ l. l ++ k.more) h.extended ∙ append_assoc a h.more k.more;
  same = All-append (λ x. x ≡ model) h.more k.more h.same k.same;
  bounded = omega (arith, length-append h.more k.more, h.bounded, k.bounded);
}

weaken_asks :
    (model : String) (n m : ℕ) (a b : List String)
    → n ≤ m
    → OnlyAsks model n a b
    → OnlyAsks model m a b
weaken_asks model n m a b le h = record {
  more = h.more;
  extended = h.extended;
  same = h.same;
  bounded = omega (arith, h.bounded);
}

module _ (s : Settings) (model prompt : String) (context : LlmCallContext) (env : Encounter) where
  request_asks :
      (b : Bool) (handle : UsageAttemptHandle) (w : World)
      → OnlyAsks model 1 w.requests (request s model prompt context env b handle w).1.requests
  unfolding close
  request_asks false handle w = none_asked model 1 w.requests
  request_asks true handle w = record {
    more = model ∷ [];
    extended = refl;
    same = (refl, tt);
    bounded = omega arith;
  }

  after_begin_asks :
      (requests : List String) (begun : Result BeginError UsageAttemptHandle × Ledger)
      → OnlyAsks model 1 requests (after_begin s model prompt context env requests begun).1.requests
  after_begin_asks requests (raised e, db) = none_asked model 1 requests
  after_begin_asks requests (ok handle, db) =
      request_asks (is_supported s.structured_output_mode) handle
        (record { ledger = db; requests = requests })

  call_once_asks :
      (role : AttemptRole) (w : World)
      → OnlyAsks model 1 w.requests (call_once s model prompt context role env w).1.requests
  unfolding call_once
  call_once_asks role w = after_begin_asks w.requests _

judge_for_asks :
    (s : Settings) (op : Operation) (model : String) (role : AttemptRole) (context : LlmCallContext)
    (env env' : Encounter) (w : World)
    → OnlyAsks model 1 w.requests
        (judge_for s op (some model) role false context env env' w).1.requests
judge_for_asks s Operation.cross_check model secondary context env env' w =
    call_once_asks s model "resume_judge_v1" context env secondary w
judge_for_asks s Operation.cross_check model primary context env env' w =
    none_asked model 1 w.requests
judge_for_asks s Operation.cross_check model fallback context env env' w =
    none_asked model 1 w.requests
judge_for_asks s _ model role context env env' w = none_asked model 1 w.requests

run_judge_asks :
    (s : Settings) (model : String) (role : AttemptRole) (context : LlmCallContext)
    (env env' : Encounter) (w : World)
    → OnlyAsks model 1 w.requests
        (run_judge s context (some model) role false env env' w).1.requests
unfolding run_judge
run_judge_asks s model role context env env' w =
    judge_for_asks s context.operation model role context env env' w

conclude_world :
    (r : Reader) (resume : String) (dims : List JudgeDimension) (a : Answered)
    → (conclude r resume dims a).1 ≡ a.1
conclude_world r resume dims (raised e, w) = refl
conclude_world r resume dims (ok response, w) = refl

module _ (r : Reader) (s : Settings) (resume : String) (dims : List JudgeDimension)
    (context : LlmCallContext) (model : String) (env : Encounters) where
  after_validation_asks :
      (response : LlmResponse) (v : Result InvalidOutput JudgeResult) (w : World)
      → OnlyAsks model 1 w.requests
          (after_validation r s resume dims context (some model) env response v w).1.requests
  after_validation_asks response (ok result) w = none_asked model 1 w.requests
  after_validation_asks response (raised e) w =
      rw conclude_world (run_judge_asks s model secondary context env.second env.second_fallback w)

  after_call_asks :
      (before : List String) (a : Answered)
      → OnlyAsks model 1 before a.1.requests
      → OnlyAsks model 2 before (after_call r s resume dims context (some model) env a).1.requests
  after_call_asks before (raised e, w) h = weaken_asks model 1 2 before w.requests (omega arith) h
  after_call_asks before (ok response, w) h =
      then_asks model 1 1 before w.requests _ h
        (after_validation_asks response (validate r resume dims response) w)

-- With a model override, and whatever the models send, a judgement asks that model only, and at most
-- twice: an invalid output is tried again with the same model, never with the configured fallback.
pub score-OnlyAsks :
    (r : Reader) (s : Settings) (resume : String) (dims : List JudgeDimension)
    (context : LlmCallContext) (model : String) (env : Encounters) (w : World)
    → OnlyAsks model 2 w.requests (score r s resume dims context (some model) env w).1.requests
unfolding score
score-OnlyAsks r s resume [] context model env w = none_asked model 2 w.requests
score-OnlyAsks r s resume (dim ∷ dims) context model env w =
    after_call_asks r s resume (dim ∷ dims) context model env w.requests _
      (run_judge_asks s model (role_for (some model)) context env.first env.first_fallback w)
