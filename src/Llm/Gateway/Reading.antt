-- ===== src/Llm/Gateway/Reading.antt =====
-- What reading an answer of the provider gives.
use smart_screen_agent.Prelude.{
  ℕ, ◌≤◌, ◌≡◌, refl, String, Bool, true, false, ◌⊎◌, inl, inr, Option, none, some, List, [], ◌∷◌,
  arith, ltb, Bool-cases, le→ltb, some_inj,
}
use smart_screen_agent.Llm.Pricing.{TokenCount, count, below_zero, not_an_int, max_tokens}
use smart_screen_agent.Llm.Gateway.Response.{
  Attr, attr, raises, RawText, text, not_text, RawUsage, RawChoice, RawChoices, no_sequence,
  sequence, RawResponse, Tokens, valid_usage_token, both_tokens, usage_tokens, read_usage,
  read_text, read_content, all_valid, input_of, output_of, normalize_provider_response,
}

-- A text that is not blank.
unfoldable pub IsText : (String → Bool) → Option String → Type 0
IsText is_blank o = (s : String) × (o ≡ some s) × (is_blank s ≡ false)

-- Both counts, each in range, or neither.
unfoldable pub IsCounted : Option ℕ → Option ℕ → Type 0
IsCounted i o =
    ((i ≡ none) × (o ≡ none))
    ⊎ ((a : ℕ) × (b : ℕ) × (i ≡ some a) × (o ≡ some b) × a ≤ max_tokens × b ≤ max_tokens)

token_bound : (t : TokenCount) (n : ℕ) → valid_usage_token t ≡ some n → n ≤ max_tokens
token_bound not_an_int n h = absurd (cc h)
token_bound below_zero n h = absurd (cc h)
token_bound (count m) n h = elim (Bool-cases (ltb max_tokens m)) [
  | inl e ↦ absurd (cc (rw e at h))
  | inr e ↦ ground (arith, e, some_inj (rw e at h))
]

Counted : Tokens → Type 0
Counted (valid, pair) = IsCounted (input_of pair) (output_of pair)

both-Counted :
    (i o : Option ℕ)
    → ((n : ℕ) → i ≡ some n → n ≤ max_tokens)
    → ((n : ℕ) → o ≡ some n → n ≤ max_tokens)
    → Counted (both_tokens i o)
unfolding Counted IsCounted
both-Counted none o hi ho = inl (refl, refl)
both-Counted (some i) none hi ho = inl (refl, refl)
both-Counted (some i) (some o) hi ho = inr (i, o, refl, refl, hi i refl, ho o refl)

usage-Counted : (i o : Attr TokenCount) → Counted (usage_tokens i o)
unfolding Counted IsCounted
usage-Counted raises o = inl (refl, refl)
usage-Counted (attr i) raises = inl (refl, refl)
usage-Counted (attr i) (attr o) = both-Counted _ _ (token_bound i) (token_bound o)

read_usage-Counted : (u : Attr (Option RawUsage)) → Counted (read_usage u)
unfolding Counted IsCounted
read_usage-Counted raises = inl (refl, refl)
read_usage-Counted (attr none) = inl (refl, refl)
read_usage-Counted (attr (some u)) = usage-Counted u.prompt_tokens u.completion_tokens

-- Nothing, or a text that is not blank.
unfoldable pub IsOptionalText : (String → Bool) → Option String → Type 0
unfolding IsText
IsOptionalText is_blank o = (o ≡ none) ⊎ IsText is_blank o

read_text-IsOptionalText :
    (is_blank : String → Bool) (t : Attr RawText) → IsOptionalText is_blank (read_text is_blank t)
unfolding IsOptionalText IsText
read_text-IsOptionalText is_blank raises = inl refl
read_text-IsOptionalText is_blank (attr not_text) = inl refl
read_text-IsOptionalText is_blank (attr (text s)) = elim (Bool-cases (is_blank s)) [
  | inl e ↦ inl (rw e refl)
  | inr e ↦ inr (s, rw e refl, e)
]

read_content-IsOptionalText :
    (is_blank : String → Bool) (cs : Attr RawChoices)
    → IsOptionalText is_blank (read_content is_blank cs)
unfolding IsOptionalText
read_content-IsOptionalText is_blank raises = inl refl
read_content-IsOptionalText is_blank (attr no_sequence) = inl refl
read_content-IsOptionalText is_blank (attr (sequence [])) = inl refl
read_content-IsOptionalText is_blank (attr (sequence (c ∷ cs))) =
    read_text-IsOptionalText is_blank c.message_content

valid_texts :
    (is_blank : String → Bool) (usage : Bool) (m c : Option String)
    → all_valid usage m c ≡ true
    → IsOptionalText is_blank m
    → IsOptionalText is_blank c
    → IsText is_blank m × IsText is_blank c
unfolding IsOptionalText
valid_texts is_blank usage none c h tm tc = absurd (cc h)
valid_texts is_blank usage (some m) none h tm tc = absurd (cc h)
valid_texts is_blank usage (some m) (some c) h (inl e) tc = absurd (cc e)
valid_texts is_blank usage (some m) (some c) h (inr tm) (inl e) = absurd (cc e)
valid_texts is_blank usage (some m) (some c) h (inr tm) (inr tc) = (tm, tc)

-- Whatever object the provider sends, and whichever of its attributes raise: both counts of tokens
-- are taken, each in the range of the ledger's columns, or neither is.
pub normalize_provider_response-IsCounted :
    (is_blank : String → Bool) (r : RawResponse)
    → IsCounted
        (normalize_provider_response is_blank r).input_tokens
        (normalize_provider_response is_blank r).output_tokens
unfolding normalize_provider_response Counted
normalize_provider_response-IsCounted is_blank r = read_usage-Counted r.usage

-- A response that counts as valid has a model and a content that are texts and not blank.
pub normalize_provider_response-valid :
    (is_blank : String → Bool) (r : RawResponse)
    → (normalize_provider_response is_blank r).valid ≡ true
    → IsText is_blank (normalize_provider_response is_blank r).actual_model
      × IsText is_blank (normalize_provider_response is_blank r).content
unfolding normalize_provider_response
normalize_provider_response-valid is_blank r h =
    valid_texts is_blank _ _ _ h (read_text-IsOptionalText is_blank r.model)
      (read_content-IsOptionalText is_blank r.choices)

abbrev pub sent_usage : Option (ℕ × ℕ) → Option RawUsage
sent_usage none = none
sent_usage (some (i, o)) =
    some (record { prompt_tokens = attr (count i); completion_tokens = attr (count o) })

-- A response as the provider's protocol writes it.
abbrev pub as_sent : String → Option (ℕ × ℕ) → String → List RawChoice → RawResponse
as_sent model tokens content others = record {
  usage = attr (sent_usage tokens);
  model = attr (text model);
  choices = attr (sequence ((record { message_content = attr (text content) }) ∷ others));
}

-- Both counts are in range, where there are any.
unfoldable pub InRange : Option (ℕ × ℕ) → Type 0
InRange none = Unit
InRange (some (i, o)) = i ≤ max_tokens × o ≤ max_tokens

sent_read :
    (tokens : Option (ℕ × ℕ))
    → InRange tokens
    → read_usage (attr (sent_usage tokens)) ≡ (true, tokens)
unfolding InRange
sent_read none h = refl
sent_read (some (i, o)) (hi, ho) = rw (le→ltb max_tokens i hi, le→ltb max_tokens o ho) refl

-- What a provider sends with a model and a content that are not blank, and with counts in range or
-- none at all, is read back whole, whatever further choices follow the first.
pub normalize-as_sent :
    (is_blank : String → Bool) (model content : String) (tokens : Option (ℕ × ℕ))
    (others : List RawChoice)
    → is_blank model ≡ false
    → is_blank content ≡ false
    → InRange tokens
    → normalize_provider_response is_blank (as_sent model tokens content others) ≡ record {
      valid = true;
      actual_model = some model;
      input_tokens = input_of tokens;
      output_tokens = output_of tokens;
      content = some content;
    }
unfolding normalize_provider_response
normalize-as_sent is_blank model content tokens others hm hc ht =
    rw (hm, hc, sent_read tokens ht) refl
