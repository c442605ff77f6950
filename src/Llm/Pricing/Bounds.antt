-- ===== src/Llm/Pricing/Bounds.antt =====
-- The bounds that keep costs exact.
use smart_screen_agent.Prelude.{
  ℕ, zero, suc, ◌+◌, ◌-◌, ◌*◌, ◌^◌, ◌≤◌, ◌<◌, ◌≡◌, refl, ap, ◌∙◌, String, Bool, true, false, Option,
  none, some, List, [], ◌∷◌, arith, Bool-cases, inl, inr, All, any, length, All-find_first, ltb,
  le→ltb, ok, raised, Result, ok_inj, subst, ◌||◌, bind_ok, if◌then◌else◌, ◌==◌,
}
use smart_screen_agent.Llm.Pricing.{
  InvalidPriceBook, not_an_object, cost_too_large, ModelPrice, RateValue, finite, scaled, no_number,
  nonfinite, negative, normalize_rate, fit_rate, max_rate, RatesValue, no_rates, rates, BookValue,
  no_book, book, normalize_pair, model_price, has_key, parse_models, parse_price_book, require,
  count, max_tokens, excess_digits, round_half_even, round_to, precision, max_cost, cost_of,
  estimate_cost, price_of, repeats_rate, has_duplicates,
}
use native.Mathlib.Nat.{mul-le-mul_right, mul-le-mul_left}

lt→ltb : (a b : ℕ) → a < b → ltb a b ≡ true
lt→ltb a b h = ground arith

half_even_unit : (x : ℕ) → round_half_even 1 x ≡ x
half_even_unit x = ground arith

excess_of_lt : (p x : ℕ) → x < 10 ^ p → excess_digits x p x ≡ 0
unfolding excess_digits
excess_of_lt p zero h = refl
excess_of_lt p (suc x) h = rw (lt→ltb (suc x) (10 ^ p) h)

-- A number within the precision is left alone.
round_to_id : (p x : ℕ) → x < 10 ^ p → round_to p x ≡ x
unfolding round_to
round_to_id p x h = ap (λ d. round_half_even (10 ^ d) x) (excess_of_lt p x h) ∙ half_even_unit x

-- What stands below 2 ^ 31 and below 10 ^ 18 has a product far below the precision.
mul_small : (t r : ℕ) → t ≤ max_tokens → r ≤ max_rate → t * r ≤ max_tokens * max_rate
mul_small t r ht hr = omega (arith, mul-le-mul_right r ht, mul-le-mul_left max_tokens hr)

-- The rates a price may have.
unfoldable pub IsPriced : ModelPrice → Type 0
IsPriced price = price.input_cny_per_million ≤ max_rate × price.output_cny_per_million ≤ max_rate

in_range : (t : ℕ) → t ≤ max_tokens → ltb max_tokens t ≡ false
in_range t h = le→ltb max_tokens t h

sum_small :
    (a b : ℕ) → a ≤ max_tokens * max_rate → b ≤ max_tokens * max_rate → a + b < 10 ^ precision
sum_small a b ha hb = omega arith

term_small : (a : ℕ) → a ≤ max_tokens * max_rate → a < 10 ^ precision
term_small a ha = omega arith

estimate_cost_priced :
    (price : ModelPrice) (i o : ℕ)
    → IsPriced price
    → i ≤ max_tokens
    → o ≤ max_tokens
    → estimate_cost price (some (count i)) (some (count o)) ≡ (
        let cost = i * price.input_cny_per_million + o * price.output_cny_per_million in
        if ltb max_cost cost then raised cost_too_large else ok (some cost))
unfolding estimate_cost cost_of IsPriced
estimate_cost_priced price i o (hi, ho) ti to =
    let a = mul_small i price.input_cny_per_million ti hi in
    let b = mul_small o price.output_cny_per_million to ho in
    rw
      (
        in_range i ti,
        in_range o to,
        round_to_id precision _ (term_small _ a),
        round_to_id precision _ (term_small _ b),
        round_to_id precision _ (sum_small _ _ a b),
      )
      refl

fit_rate_bound : (q r : ℕ) → fit_rate q ≡ ok r → r ≤ max_rate
fit_rate_bound q r h = ground arith

normalize_rate_bound : (v : RateValue) (r : ℕ) → normalize_rate v ≡ ok r → r ≤ max_rate
unfolding normalize_rate
normalize_rate_bound no_number r h = absurd (cc h)
normalize_rate_bound nonfinite r h = absurd (cc h)
normalize_rate_bound negative r h = absurd (cc h)
normalize_rate_bound (finite c scale) r h = elim (Bool-cases (ltb 6 scale)) [
  | inl t ↦ absurd (cc (rw t at h))
  | inr t ↦ fit_rate_bound (c * 10 ^ (6 - scale)) r (rw t at h)
]
normalize_rate_bound (scaled c e) r h = fit_rate_bound (c * 10 ^ (e + 6)) r h

normalize_pair-IsPriced :
    (i o : Option (String × RateValue)) (price : ModelPrice)
    → normalize_pair i o ≡ ok price
    → IsPriced price
unfolding IsPriced
normalize_pair-IsPriced none o price h = absurd (cc h)
normalize_pair-IsPriced (some i) none price h = absurd (cc h)
normalize_pair-IsPriced (some (_, i)) (some (_, o)) price h =
    let (a, ha, h1) = bind_ok (normalize_rate i) _ price h in
    let (b, hb, h2) = bind_ok (normalize_rate o) _ price h1 in
    subst IsPriced (ok_inj h2) (normalize_rate_bound i a ha, normalize_rate_bound o b hb)

model_price-IsPriced :
    (v : RatesValue) (price : ModelPrice) → model_price v ≡ ok price → IsPriced price
model_price-IsPriced no_rates price h = absurd (cc h)
model_price-IsPriced (rates pairs) price h = elim (Bool-cases (length pairs == 2)) [
  | inl t ↦ normalize_pair-IsPriced _ _ price (rw t at h)
  | inr t ↦ absurd (cc (rw t at h))
]

abbrev Listed : String × ModelPrice → Type 0
Listed (_, price) = IsPriced price

parse_models-Listed :
    (is_blank : String → Bool) (entries : List (String × RatesValue))
    (models : List (String × ModelPrice))
    → parse_models is_blank entries ≡ ok models
    → All Listed models
unfolding parse_models
parse_models-Listed is_blank [] models h = subst (All Listed) (ok_inj h) tt
parse_models-Listed is_blank ((model, value) ∷ entries) models h =
    elim (Bool-cases (is_blank model)) [
      | inl t ↦ absurd (cc (rw t at h))
      | inr t ↦
          let (price, hp, h1) = bind_ok (model_price value) _ models (rw t at h) in
          let (others, ho, h2) = bind_ok (parse_models is_blank entries) _ models h1 in
          subst (All Listed) (ok_inj h2)
            (model_price-IsPriced value price hp, parse_models-Listed is_blank entries others ho)
    ]

bad_object :
    {A : Type 0} {a : A} → ◌≡◌ {A = Result InvalidPriceBook A} (raised not_an_object) (ok a) → ⊥
bad_object h = cc h

parse_price_book-Listed :
    (is_blank : String → Bool) (value : BookValue) (models : List (String × ModelPrice))
    → parse_price_book is_blank value ≡ ok models
    → All Listed models
unfolding parse_price_book has_duplicates
parse_price_book-Listed is_blank no_book models h = absurd (cc h)
parse_price_book-Listed is_blank (book []) models h = absurd (bad_object h)
parse_price_book-Listed is_blank (book (e ∷ entries)) models h =
    elim (Bool-cases (any repeats_rate (e ∷ entries) || has_duplicates (e ∷ entries))) [
      | inl t ↦ absurd (cc (rw t at h))
      | inr t ↦ parse_models-Listed is_blank (e ∷ entries) models (rw t at h)
    ]

price_of-some :
    (o : Option (String × ModelPrice)) (price : ModelPrice)
    → price_of o ≡ some price
    → (model : String) × (o ≡ some (model, price))
price_of-some none price h = absurd (cc h)
price_of-some (some (model, p)) price h = (model, cc h)

require-IsPriced :
    (model : String) (models : List (String × ModelPrice)) (price : ModelPrice)
    → All Listed models
    → require model models ≡ some price
    → IsPriced price
unfolding require
require-IsPriced model models price listed h =
    let (m, found) = price_of-some _ price h in
    (All-find_first Listed (has_key model) models (m, price) listed found).0

-- Of a model that a price book which parsed lists, and of counts of tokens in range, the cost is
-- the exact sum of the two products: the precision of 40 digits never rounds it. It is refused
-- exactly when it exceeds the greatest cost of the ledger's column.
pub require-estimate_cost :
    (is_blank : String → Bool) (value : BookValue) (models : List (String × ModelPrice))
    (model : String) (price : ModelPrice) (i o : ℕ)
    → parse_price_book is_blank value ≡ ok models
    → require model models ≡ some price
    → i ≤ max_tokens
    → o ≤ max_tokens
    → estimate_cost price (some (count i)) (some (count o)) ≡ (
        let cost = i * price.input_cny_per_million + o * price.output_cny_per_million in
        if ltb max_cost cost then raised cost_too_large else ok (some cost))
require-estimate_cost is_blank value models model price i o parsed listed ti to =
    let priced =
      require-IsPriced model models price (parse_price_book-Listed is_blank value models parsed)
        listed in
    estimate_cost_priced price i o priced ti to
