-- ===== src/Scoring/RuleEngine.antt =====
-- backend/app/scoring/rule_engine.py and backend/app/scoring/methods. The search of a text in another,
-- the splitting into words, the reading of dates, `today` and the texts of evidence are parameters.
-- A score, which the schema takes as a float of either sign, is a number of a fixed quantum that is not
-- negative, as a score of points is; a span of time, and a tier's years, are numbers of one
-- unit that a day and a tier's years are whole numbers of. `reasoning` is a message and left out.
pub mod Best
use Prim.Native.String.{◌++◌ as join_text}
use smart_screen_agent.Prelude.{
  ℕ, ◌+◌, ◌-◌, ◌*◌, String, Bool, true, false, not, ◌&&◌, ◌||◌, Option, none, some, List, [], ◌∷◌,
  ◌++◌, map, any, find_first, select, take, same_text, ltb, is_some, if◌then◌else◌,
}
use smart_screen_agent.Scoring.HardFilter.{Experience, Extracted}
use smart_screen_agent.Scoring.Ranking.{descending, lowest}

pub record Tier : Type 0 where
  pub label : String
  pub score : Option ℕ
  pub keywords : List String
  pub min_years : Option ℕ
  pub max_years : Option ℕ
  pub required_keywords : List String

pub data Method : Type 0 where
  tiered_keyword_match experience_years lookup : Method

pub record RuleDimension : Type 0 where
  pub id : String
  pub name : String
  pub weight : ℕ
  pub method : Method
  pub tiers : List Tier
  pub table : Option (List (String × ℕ))

pub record DimensionResult : Type 0 where
  pub id : String
  pub name : String
  pub weight : ℕ
  pub score : ℕ
  pub tier : String
  pub evidence_quotes : List String

-- What a method returns.
pub record MethodResult : Type 0 where
  pub score : ℕ
  pub tier : String
  pub evidence_quotes : List String

-- `within a b` is `a in b`, `tokens` is `re.split` without empty parts, `words` is `kw.split()`,
-- `day` is `parse_date`, with none where it raises, `per_day` the units of a day, `cut` is
-- `desc[:120]`, and `years_quote` and `education_quote` are the texts of evidence.
pub record Texts : Type 0 where
  pub within : String → String → Bool
  pub tokens : String → List String
  pub words : String → List String
  pub day : String → Option ℕ
  pub today : ℕ
  pub per_day : ℕ
  pub cut : String → String
  pub years_quote : ℕ → String
  pub education_quote : String → String

-- `t.score or 0`
abbrev pub points : Tier → ℕ
points t = elim t.score [ none ↦ 0 | some s ↦ s ]

unfoldable pub every : {A : Type 0} → (A → Bool) → List A → Bool
every p [] = true
every p (x ∷ xs) = p x && every p xs

abbrev pub is_none_left : {A : Type 0} → List A → Bool
is_none_left [] = true
is_none_left (x ∷ xs) = false

abbrev pub given : Option String → Option String
given none = none
given (some s) = if same_text s "" then none else some s

abbrev pub day_or_today : Texts → Option ℕ → ℕ
day_or_today x none = x.today
day_or_today x (some d) = d

abbrev pub end_day : Texts → Option String → ℕ
end_day x none = x.today
end_day x (some s) = day_or_today x (x.day s)

-- A span that ends before it starts counts 0.
abbrev pub span_from : Texts → Option String → Option ℕ → ℕ
span_from x end none = 0
span_from x end (some s) = (end_day x end - s) * x.per_day

abbrev pub span_between : Texts → Option String → Option String → ℕ
span_between x none end = 0
span_between x (some start) end = span_from x end (x.day start)

-- `_years_between`
unfoldable pub years_between : Texts → Option String → Option String → ℕ
years_between x start end = span_between x (given start) (given end)

abbrev pub blob : Experience → String
blob e = join_text e.title (join_text " " e.description)

-- `" ".join(...)`
unfoldable pub joined : List String → String
joined [] = ""
joined (s ∷ []) = s
joined (s ∷ t ∷ rest) = join_text s (join_text " " (joined (t ∷ rest)))

abbrev pub full_text : Extracted → String
full_text candidate = joined (map blob candidate.experiences)

-- `_match`
abbrev pub matches : Texts → String → String → Bool
matches x text kw = every (λ t. x.within t text) (x.tokens kw)

abbrev pub mentions : Texts → String → String → Bool
mentions x text kw = every (λ t. x.within t text) (x.words kw)

-- `total_years_for_keywords`
unfoldable pub years_for : Texts → List String → List Experience → ℕ
unfolding years_between
years_for x keywords [] = 0
years_for x keywords (e ∷ es) =
    (if any (mentions x (blob e)) keywords then years_between x e.start e.end else 0)
    + years_for x keywords es

unfoldable pub years_of : Texts → List Experience → ℕ
unfolding years_between
years_of x [] = 0
years_of x (e ∷ es) = years_between x e.start e.end + years_of x es

abbrev pub at_least_years : Option ℕ → ℕ → Bool
at_least_years none years = true
at_least_years (some m) years = not (ltb years m)

abbrev pub at_most_years : Option ℕ → ℕ → Bool
at_most_years none years = true
at_most_years (some m) years = not (ltb m years)

abbrev pub hits : Texts → Extracted → Tier → List String
hits x candidate tier = select (matches x (full_text candidate)) tier.keywords

-- The tests of `tiered_keyword_match` for a tier; without keywords there are no hits.
unfoldable pub is_hit : Texts → Extracted → Tier → Bool
is_hit x candidate tier =
    not (is_none_left (hits x candidate tier))
    && at_least_years tier.min_years (years_for x (hits x candidate tier) candidate.experiences)

-- `_find_quotes`
unfoldable pub find_quotes : Texts → List String → List Experience → List String
find_quotes x found [] = []
find_quotes x found (e ∷ es) =
    let rest = find_quotes x found es in
    if any (matches x e.description) found then x.cut e.description ∷ rest else rest

abbrev pub fallback_result : Option Tier → MethodResult
fallback_result none = record { score = 0; tier = "low"; evidence_quotes = [] }
fallback_result (some t) = record { score = points t; tier = t.label; evidence_quotes = [] }

abbrev pub keyword_result : Texts → Extracted → List Tier → Option Tier → MethodResult
keyword_result x candidate tiers none = fallback_result (lowest points tiers)
keyword_result x candidate tiers (some t) = record {
  score = points t;
  tier = t.label;
  evidence_quotes = take 3 (find_quotes x (hits x candidate t) candidate.experiences);
}

unfoldable pub tiered_keyword : Texts → Extracted → List Tier → MethodResult
tiered_keyword x candidate tiers =
    keyword_result x candidate tiers (find_first (is_hit x candidate) (descending points tiers))

-- The tests of `experience_years` for a tier. `not required_keywords` passes as no keyword is missing.
unfoldable pub is_met : Texts → Extracted → Tier → Bool
is_met x candidate tier =
    is_some tier.min_years
    && (at_least_years tier.min_years (years_of x candidate.experiences)
        && (at_most_years tier.max_years (years_of x candidate.experiences)
            && every (λ kw. x.within kw (full_text candidate)) tier.required_keywords))

abbrev pub years_result : Texts → Extracted → Option Tier → MethodResult
years_result x candidate none = record {
  score = 0;
  tier = "low";
  evidence_quotes = x.years_quote (years_of x candidate.experiences) ∷ [];
}
years_result x candidate (some t) = record {
  score = points t;
  tier = t.label;
  evidence_quotes = x.years_quote (years_of x candidate.experiences) ∷ [];
}

unfoldable pub years_score : Texts → Extracted → List Tier → MethodResult
years_score x candidate tiers =
    years_result x candidate (find_first (is_met x candidate) (descending points tiers))

-- `table.get(..., 0.0)`
unfoldable pub table_score : String → List (String × ℕ) → ℕ
table_score key [] = 0
table_score key ((k, v) ∷ rest) = if same_text k key then v else table_score key rest

abbrev pub or_no_table : Option (List (String × ℕ)) → List (String × ℕ)
or_no_table none = []
or_no_table (some table) = table

abbrev pub lookup_result : ℕ → List String → MethodResult
lookup_result score quotes = record {
  score = score;
  tier = if ltb 0 score then "high" else "low";
  evidence_quotes = quotes;
}

abbrev pub lookup_with : Texts → List (String × ℕ) → Option String → MethodResult
lookup_with x table none = lookup_result 0 []
lookup_with x table (some edu) = lookup_result (table_score edu table) (x.education_quote edu ∷ [])

unfoldable pub lookup_score : Texts → Extracted → Option (List (String × ℕ)) → MethodResult
lookup_score x candidate table = lookup_with x (or_no_table table) (given candidate.education)

-- `METHODS[d.method]`; a schema has no other method.
abbrev pub run_method : Texts → Extracted → RuleDimension → Method → MethodResult
run_method x candidate d tiered_keyword_match = tiered_keyword x candidate d.tiers
run_method x candidate d experience_years = years_score x candidate d.tiers
run_method x candidate d lookup = lookup_score x candidate d.table

abbrev pub score_dimension : Texts → Extracted → RuleDimension → DimensionResult
score_dimension x candidate d =
    let r = run_method x candidate d d.method in
    record {
      id = d.id;
      name = d.name;
      weight = d.weight;
      score = r.score;
      tier = r.tier;
      evidence_quotes = r.evidence_quotes;
    }

unfoldable pub score_dimensions : Texts → Extracted → List RuleDimension → List DimensionResult
score_dimensions x candidate dims = map (score_dimension x candidate) dims

-- `sum((r.get("score") or 0) for r in rule_results)`
unfoldable pub rule_total : List DimensionResult → ℕ
rule_total [] = 0
rule_total (r ∷ rs) = r.score + rule_total rs
