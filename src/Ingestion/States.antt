-- ===== src/Ingestion/States.antt =====
-- backend/app/services/ingestion/states.py: the states of an ingestion job and the transitions
-- between them that are allowed.
use smart_screen_agent.Prelude.{
  Bool, true, false, List, [], ◌∷◌, any, Result, ok, raised, if◌then◌else◌,
}

pub data IngestionState : Type 0 where
  queued parsing extracting ready scoring completed : IngestionState
  retryable_failed terminal_failed deleted : IngestionState

-- Two states are the same (the source compares their string values).
abbrev pub is : IngestionState → IngestionState → Bool
is queued queued = true
is parsing parsing = true
is extracting extracting = true
is ready ready = true
is scoring scoring = true
is completed completed = true
is retryable_failed retryable_failed = true
is terminal_failed terminal_failed = true
is deleted deleted = true
is _ _ = false

-- `PROCESSING_STATES`
abbrev pub is_processing : IngestionState → Bool
is_processing parsing = true
is_processing extracting = true
is_processing scoring = true
is_processing _ = false

-- `TERMINAL_STATES`
abbrev pub is_terminal : IngestionState → Bool
is_terminal ready = true
is_terminal completed = true
is_terminal terminal_failed = true
is_terminal deleted = true
is_terminal _ = false

-- `_ALLOWED`
unfoldable pub allowed : IngestionState → List IngestionState
allowed queued = parsing ∷ deleted ∷ []
allowed parsing = extracting ∷ retryable_failed ∷ terminal_failed ∷ []
allowed extracting = ready ∷ scoring ∷ retryable_failed ∷ terminal_failed ∷ []
allowed ready = deleted ∷ []
allowed scoring = completed ∷ retryable_failed ∷ terminal_failed ∷ []
allowed completed = deleted ∷ []
allowed retryable_failed = queued ∷ terminal_failed ∷ []
allowed terminal_failed = deleted ∷ []
allowed deleted = []

-- `InvalidTransitionError`
pub record InvalidTransition : Type 0 where
  pub current : IngestionState
  pub target : IngestionState

unfoldable pub may_move : IngestionState → IngestionState → Bool
unfolding allowed
may_move current target = any (is target) (allowed current)

unfoldable pub assert_transition :
    IngestionState → IngestionState → Result InvalidTransition (Unit {0})
unfolding may_move
assert_transition current target =
    if may_move current target
    then ok tt
    else raised (record { current = current; target = target })
