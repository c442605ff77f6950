-- ===== src/Llm/Gateway/Response.antt =====
-- `_normalize_provider_response`: reading an untrusted object of the provider, whose attributes may
-- raise or hold anything.
use smart_screen_agent.Prelude.{
  ℕ, String, Bool, true, false, Option, none, some, List, [], ◌∷◌, ltb, if◌then◌else◌,
}
use smart_screen_agent.Llm.Pricing.{TokenCount, count, max_tokens}

-- `getattr`, which may raise.
pub data Attr (A : Type 0) : Type 0 where
  raises : Attr A
  attr : A → Attr A

pub data RawText : Type 0 where
  not_text : RawText
  text : String → RawText

pub record RawUsage : Type 0 where
  pub prompt_tokens : Attr TokenCount
  pub completion_tokens : Attr TokenCount

-- A choice, by what its message's content reads as: reading the message or its content may raise.
pub record RawChoice : Type 0 where
  pub message_content : Attr RawText

-- A sequence that is no text, or something else.
pub data RawChoices : Type 0 where
  no_sequence : RawChoices
  sequence : List RawChoice → RawChoices

pub record RawResponse : Type 0 where
  pub usage : Attr (Option RawUsage)
  pub model : Attr RawText
  pub choices : Attr RawChoices

pub record Normalized : Type 0 where
  pub valid : Bool
  pub actual_model : Option String
  pub input_tokens : Option ℕ
  pub output_tokens : Option ℕ
  pub content : Option String

-- `_valid_usage_token`
abbrev pub valid_usage_token : TokenCount → Option ℕ
valid_usage_token (count n) = if ltb max_tokens n then none else some n
valid_usage_token _ = none

-- Whether the usage is valid, with the tokens.
abbrev pub Tokens : Type 0
Tokens = Bool × Option (ℕ × ℕ)

abbrev pub both_tokens : Option ℕ → Option ℕ → Tokens
both_tokens (some i) (some o) = (true, some (i, o))
both_tokens _ _ = (false, none)

abbrev pub usage_tokens : Attr TokenCount → Attr TokenCount → Tokens
usage_tokens (attr i) (attr o) = both_tokens (valid_usage_token i) (valid_usage_token o)
usage_tokens _ _ = (false, none)

abbrev pub read_usage : Attr (Option RawUsage) → Tokens
read_usage raises = (false, none)
read_usage (attr none) = (true, none)
read_usage (attr (some u)) = usage_tokens u.prompt_tokens u.completion_tokens

-- `isinstance(raw, str) and raw.strip()`
abbrev pub read_text : (String → Bool) → Attr RawText → Option String
read_text is_blank raises = none
read_text is_blank (attr not_text) = none
read_text is_blank (attr (text s)) = if is_blank s then none else some s

abbrev pub first_content : (String → Bool) → List RawChoice → Option String
first_content is_blank [] = none
first_content is_blank (c ∷ cs) = read_text is_blank c.message_content

-- The content; with no choice, reading its message raises.
abbrev pub read_content : (String → Bool) → Attr RawChoices → Option String
read_content is_blank raises = none
read_content is_blank (attr no_sequence) = none
read_content is_blank (attr (sequence cs)) = first_content is_blank cs

abbrev pub all_valid : Bool → Option String → Option String → Bool
all_valid usage (some model) (some content) = usage
all_valid usage _ _ = false

abbrev pub input_of : Option (ℕ × ℕ) → Option ℕ
input_of none = none
input_of (some (i, o)) = some i

abbrev pub output_of : Option (ℕ × ℕ) → Option ℕ
output_of none = none
output_of (some (i, o)) = some o

unfoldable pub normalize_provider_response : (String → Bool) → RawResponse → Normalized
normalize_provider_response is_blank r =
    let tokens = read_usage r.usage in
    let model = read_text is_blank r.model in
    let content = read_content is_blank r.choices in
    record {
      valid = all_valid tokens.0 model content;
      actual_model = model;
      input_tokens = input_of tokens.1;
      output_tokens = output_of tokens.1;
      content = content;
    }
