-- ===== src/Llm/Pricing.antt =====
-- backend/app/services/llm/pricing.py. A rate is a number of millionths of a yuan per million tokens,
-- a cost a number of millionths of a millionth of a yuan, so that a count of tokens times a rate is a
-- cost. The JSON text is given by what `json.loads` makes of it.
pub mod Bounds
use smart_screen_agent.Prelude.{
  ℕ, zero, suc, ◌+◌, ◌-◌, ◌*◌, ◌/◌, ◌%◌, ◌^◌, String, Bool, true, false, ◌||◌, ◌&&◌, Option, none,
  some, List, [], ◌∷◌, any, length, find_first, ltb, ◌==◌, same_text, Result, ok, raised, ◌>>=◌,
  if◌then◌else◌,
}

-- The reasons of an InvalidPriceBook.
pub data InvalidPriceBook : Type 0 where
  not_an_object duplicate_key blank_model wrong_rates not_a_number negative_or_nonfinite :
      InvalidPriceBook
  too_fine rate_too_large tokens_not_integers tokens_out_of_range cost_too_large : InvalidPriceBook

pub record ModelPrice : Type 0 where
  pub input_cny_per_million : ℕ
  pub output_cny_per_million : ℕ

-- The value of a rate in the JSON: `finite c s` is c / 10 ^ s, `scaled c e` is c * 10 ^ e.
pub data RateValue : Type 0 where
  no_number nonfinite negative : RateValue
  finite : (coefficient scale : ℕ) → RateValue
  scaled : (coefficient exponent : ℕ) → RateValue

-- `_MAX_RATE_CNY_PER_MILLION`
abbrev pub max_rate : ℕ
max_rate = 999999999999999999

-- `value.quantize(RATE_QUANTUM)` at a precision of 18 digits.
abbrev pub quantize_rate : ℕ → Result InvalidPriceBook ℕ
quantize_rate quanta = if ltb quanta (10 ^ 18) then ok quanta else raised rate_too_large

abbrev pub fit_rate : ℕ → Result InvalidPriceBook ℕ
fit_rate quanta = if ltb max_rate quanta then raised rate_too_large else quantize_rate quanta

unfoldable pub normalize_rate : RateValue → Result InvalidPriceBook ℕ
normalize_rate no_number = raised not_a_number
normalize_rate nonfinite = raised negative_or_nonfinite
normalize_rate negative = raised negative_or_nonfinite
normalize_rate (finite c scale) =
    if ltb 6 scale then raised too_fine else fit_rate (c * 10 ^ (6 - scale))
normalize_rate (scaled c e) = fit_rate (c * 10 ^ (e + 6))

pub data RatesValue : Type 0 where
  no_rates : RatesValue
  rates : List (String × RateValue) → RatesValue

pub data BookValue : Type 0 where
  no_book : BookValue
  book : List (String × RatesValue) → BookValue

abbrev pub has_key {ℓ} : {A : Type ℓ} → String → String × A → Bool
has_key key (k, _) = same_text k key

-- `_object_without_duplicates`
unfoldable pub has_duplicates : {A : Type 0} → List (String × A) → Bool
has_duplicates [] = false
has_duplicates ((k, _) ∷ pairs) = any (has_key k) pairs || has_duplicates pairs

abbrev pub repeats_rate : String × RatesValue → Bool
repeats_rate (_, no_rates) = false
repeats_rate (_, rates pairs) = has_duplicates pairs

abbrev pub normalize_pair :
    Option (String × RateValue) → Option (String × RateValue) → Result InvalidPriceBook ModelPrice
normalize_pair (some (_, i)) (some (_, o)) = do
  input ← normalize_rate i
  output ← normalize_rate o
  ok (record { input_cny_per_million = input; output_cny_per_million = output })
normalize_pair _ _ = raised wrong_rates

-- `set(rates) == {"input", "output"}`, of an object that repeats no key.
abbrev pub model_price : RatesValue → Result InvalidPriceBook ModelPrice
model_price no_rates = raised wrong_rates
model_price (rates pairs) =
    if length pairs == 2
    then normalize_pair (find_first (has_key "input") pairs) (find_first (has_key "output") pairs)
    else raised wrong_rates

-- The loop over the models; `is_blank` is `not model.strip()`.
unfoldable pub parse_models :
    (String → Bool)
    → List (String × RatesValue)
    → Result InvalidPriceBook (List (String × ModelPrice))
parse_models is_blank [] = ok []
parse_models is_blank ((model, value) ∷ entries) =
    let rest = parse_models is_blank entries in
    if is_blank model
    then raised blank_model
    else (do price ← model_price value; models ← rest; ok ((model, price) ∷ models))

abbrev pub parse_object :
    (String → Bool)
    → List (String × RatesValue)
    → Result InvalidPriceBook (List (String × ModelPrice))
parse_object is_blank [] = raised not_an_object
parse_object is_blank (e ∷ entries) = parse_models is_blank (e ∷ entries)

unfoldable pub parse_price_book :
    (String → Bool) → BookValue → Result InvalidPriceBook (List (String × ModelPrice))
parse_price_book is_blank no_book = raised not_an_object
parse_price_book is_blank (book entries) =
    if any repeats_rate entries || has_duplicates entries
    then raised duplicate_key
    else parse_object is_blank entries

abbrev pub price_of : Option (String × ModelPrice) → Option ModelPrice
price_of none = none
price_of (some (_, price)) = some price

-- `PriceBook.require`; `none` is ModelPriceMissing.
unfoldable pub require : String → List (String × ModelPrice) → Option ModelPrice
require model models = price_of (find_first (has_key model) models)

-- An argument that should be a count of tokens.
pub data TokenCount : Type 0 where
  count : ℕ → TokenCount
  below_zero not_an_int : TokenCount

-- `_MAX_TOKEN_COUNT`
abbrev pub max_tokens : ℕ
max_tokens = 2147483647

-- How many digits a number has beyond a precision; the number is fuel enough.
unfoldable pub excess_digits : ℕ → ℕ → ℕ → ℕ
excess_digits zero precision x = 0
excess_digits (suc fuel) precision x =
    let more = suc (excess_digits fuel precision (x / 10)) in
    if ltb x (10 ^ precision) then 0 else more

-- Rounding half to even at a multiple of `unit`.
abbrev pub round_half_even : ℕ → ℕ → ℕ
round_half_even unit x =
    let q = x / unit in
    let twice = 2 * (x % unit) in
    if ltb twice unit
    then q * unit
    else (if ltb unit twice then (q + 1) * unit else (q + q % 2) * unit)

-- What the decimal context does with a result at its precision.
unfoldable pub round_to : ℕ → ℕ → ℕ
unfolding excess_digits
round_to precision x = round_half_even (10 ^ excess_digits x precision x) x

-- `_COST_CALCULATION_PRECISION`
abbrev pub precision : ℕ
precision = 40

-- `MAX_COST`
abbrev pub max_cost : ℕ
max_cost = 10 ^ 24 - 1

abbrev pub fit_cost : ℕ → Result InvalidPriceBook (Option ℕ)
fit_cost cost = if ltb max_cost cost then raised cost_too_large else ok (some cost)

unfoldable pub cost_of : ModelPrice → ℕ → ℕ → Result InvalidPriceBook (Option ℕ)
unfolding round_to
cost_of price i o = fit_cost (
    round_to precision (
      round_to precision (i * price.input_cny_per_million)
      + round_to precision (o * price.output_cny_per_million)))

abbrev pub checked_cost : ModelPrice → TokenCount → TokenCount → Result InvalidPriceBook (Option ℕ)
checked_cost price not_an_int o = raised tokens_not_integers
checked_cost price below_zero not_an_int = raised tokens_not_integers
checked_cost price below_zero _ = raised tokens_out_of_range
checked_cost price (count i) not_an_int = raised tokens_not_integers
checked_cost price (count i) below_zero = raised tokens_out_of_range
checked_cost price (count i) (count o) =
    if ltb max_tokens i || ltb max_tokens o then raised tokens_out_of_range else cost_of price i o

unfoldable pub estimate_cost :
    ModelPrice → Option TokenCount → Option TokenCount → Result InvalidPriceBook (Option ℕ)
estimate_cost price (some i) (some o) = checked_cost price i o
estimate_cost price none _ = ok none
estimate_cost price (some i) none = ok none
