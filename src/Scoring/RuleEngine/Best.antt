-- ===== src/Scoring/RuleEngine/Best.antt =====
-- Which tier the rule methods choose.
use smart_screen_agent.Prelude.{
  ℕ, ◌≤◌, ◌≡◌, ◌↔◌, ◌⊎◌, inl, inr, refl, sym, ap, subst, ◌∙◌, Bool, true, false, not, ◌&&◌, Option,
  none, some, some_inj, is_some, List, [], ◌∷◌, All, select, find_first, Rowwise, Rowwise-map,
  String, same_text, arith, Bool-cases, if◌then◌else◌,
}
use smart_screen_agent.Scoring.HardFilter.{Extracted}
use smart_screen_agent.Scoring.Ranking.{
  Among, descending, lowest, Highest, Lowest, lowest-Lowest, find_first-Highest,
}
use smart_screen_agent.Scoring.RuleEngine.{
  Tier, Method, tiered_keyword_match, experience_years, lookup, RuleDimension, DimensionResult,
  MethodResult, Texts, points, every, is_none_left, full_text, matches, hits, years_for, years_of,
  at_least_years, at_most_years, is_hit, is_met, tiered_keyword, keyword_result, fallback_result,
  years_score, years_result, run_method, score_dimension, score_dimensions, given, table_score,
  or_no_table, lookup_score, lookup_with,
}

abbrev AtLeast : Option ℕ → ℕ → Type 0
AtLeast none years = Unit {0}
AtLeast (some m) years = m ≤ years

abbrev AtMost : Option ℕ → ℕ → Type 0
AtMost none years = Unit {0}
AtMost (some m) years = years ≤ m

-- A keyword of the tier has all its tokens in the text of the experiences, and the experiences that
-- mention the keywords found make up the years asked for.
abbrev pub IsHit : Texts → Extracted → Tier → Type 0
IsHit x c t =
    ((kw : String) × Among {A = String} (λ _. 0) kw t.keywords
      × All (λ token. x.within token (full_text c) ≡ true) (x.tokens kw))
    × AtLeast t.min_years (years_for x (hits x c t) c.experiences)

-- The tier asks for years, the experiences have them and no more than it allows, and every keyword
-- that it requires is in their text.
abbrev pub IsMet : Texts → Extracted → Tier → Type 0
IsMet x c t =
    ((m : ℕ) × (t.min_years ≡ some m) × (m ≤ years_of x c.experiences))
    × AtMost t.max_years (years_of x c.experiences)
    × All (λ kw. x.within kw (full_text c) ≡ true) t.required_keywords

both : (a b : Bool) → ((a && b) ≡ true) ↔ ((a ≡ true) × (b ≡ true))
both true b = ((λ h. (refl, h)), (λ h. h.1))
both false b = ((λ h. absurd (cc h)), (λ h. absurd (cc h.0)))

every_iff : (p : String → Bool) (xs : List String) → (every p xs ≡ true) ↔ All (λ s. p s ≡ true) xs
unfolding every
every_iff p [] = ((λ _. tt), (λ _. refl))
every_iff p (x ∷ xs) = (
  λ h. let (a, b) = (both (p x) (every p xs)).0 h in (a, (every_iff p xs).0 b),
  λ h. (both (p x) (every p xs)).1 (h.0, (every_iff p xs).1 h.1),
)

-- Some keyword is left of a selection.
left_iff :
    (p : String → Bool) (ks : List String)
    → (not (is_none_left (select p ks)) ≡ true)
      ↔ ((kw : String) × Among {A = String} (λ _. 0) kw ks × (p kw ≡ true))
left_iff p [] = ((λ h. absurd (cc h)), (λ h. absurd h.1))
left_iff p (k ∷ ks) = elim (Bool-cases (p k)) [
  | inl e ↦ ((λ _. (k, inl refl, e)), (λ _. rw e refl))
  | inr e ↦ (
    λ h. let (kw, m, q) = (left_iff p ks).0 (rw e at h) in (kw, inr m, q),
    λ h. rw e ((left_iff p ks).1 (dropped h.0 h.1 h.2 e)),
  )
]
  where
    dropped :
        (kw : String)
        → (kw ≡ k) ⊎ Among {A = String} (λ _. 0) kw ks
        → p kw ≡ true
        → p k ≡ false
        → (kw : String) × Among {A = String} (λ _. 0) kw ks × (p kw ≡ true)
    dropped kw (inl same) q e = absurd (cc (sym e ∙ ap p (sym same) ∙ q))
    dropped kw (inr m) q e = (kw, m, q)

at_least_years-AtLeast :
    (o : Option ℕ) (years : ℕ) → (at_least_years o years ≡ true) ↔ AtLeast o years
at_least_years-AtLeast none years = ((λ _. tt), (λ _. refl))
at_least_years-AtLeast (some m) years = ((λ h. ground arith), (λ h. ground arith))

at_most_years-AtMost : (o : Option ℕ) (years : ℕ) → (at_most_years o years ≡ true) ↔ AtMost o years
at_most_years-AtMost none years = ((λ _. tt), (λ _. refl))
at_most_years-AtMost (some m) years = ((λ h. ground arith), (λ h. ground arith))

is_hit-IsHit : (x : Texts) (c : Extracted) (t : Tier) → (is_hit x c t ≡ true) ↔ IsHit x c t
unfolding is_hit
is_hit-IsHit x c t = (
  λ h.
      let (a, b) = (both some_left enough).0 h in
      let (kw, m, q) = (left_iff (matches x (full_text c)) t.keywords).0 a in
      (
        (kw, m, (every_iff (λ s. x.within s (full_text c)) (x.tokens kw)).0 q),
        (at_least_years-AtLeast t.min_years years).0 b,
      ),
  λ h. (both some_left enough).1 (
    (left_iff (matches x (full_text c)) t.keywords).1
        (h.0.0, h.0.1, (every_iff (λ s. x.within s (full_text c)) (x.tokens h.0.0)).1 h.0.2),
    (at_least_years-AtLeast t.min_years years).1 h.1,
  ),
)
  where
    years : ℕ
    years = years_for x (hits x c t) c.experiences

    some_left : Bool
    some_left = not (is_none_left (hits x c t))

    enough : Bool
    enough = at_least_years t.min_years years

asked_iff :
    (o : Option ℕ) (years : ℕ)
    → ((is_some o ≡ true) × (at_least_years o years ≡ true))
      ↔ ((m : ℕ) × (o ≡ some m) × (m ≤ years))
asked_iff none years = ((λ h. absurd (cc h.0)), (λ h. absurd (cc h.1)))
asked_iff (some n) years = (
  (λ h. (n, refl, (at_least_years-AtLeast (some n) years).0 h.1)),
  (λ h. (refl, (at_least_years-AtLeast (some n) years).1 (enough h.0 h.1 h.2))),
)
  where
    enough : (m : ℕ) → some n ≡ some m → m ≤ years → n ≤ years
    enough m same le = subst (λ k. k ≤ years) (sym (some_inj same)) le

is_met-IsMet : (x : Texts) (c : Extracted) (t : Tier) → (is_met x c t ≡ true) ↔ IsMet x c t
unfolding is_met
is_met-IsMet x c t = (
  λ h.
      let (a, r) = (both (is_some t.min_years) _).0 h in
      let (b, r') = (both (at_least_years t.min_years years) _).0 r in
      let (d, e) = (both (at_most_years t.max_years years) _).0 r' in
      (
        (asked_iff t.min_years years).0 (a, b),
        (at_most_years-AtMost t.max_years years).0 d,
        (every_iff (λ kw. x.within kw (full_text c)) t.required_keywords).0 e,
      ),
  λ h.
      let (a, b) = (asked_iff t.min_years years).1 h.0 in
      (both (is_some t.min_years) _).1 (
        a,
        (both (at_least_years t.min_years years) _).1 (
          b,
          (both (at_most_years t.max_years years) _).1 (
            (at_most_years-AtMost t.max_years years).1 h.1,
            (every_iff (λ kw. x.within kw (full_text c)) t.required_keywords).1 h.2,
          ),
        ),
      ),
)
  where
    years : ℕ
    years = years_of x c.experiences

-- The method's result has the score and the label of the tier; the default holds if there is none.
abbrev pub TakesTier : MethodResult → Type 0 → Option Tier → Type 0
TakesTier r Default none = Default
TakesTier r Default (some t) = (r.score ≡ points t) × (r.tier ≡ t.label)

-- No points, under the label of a low tier.
abbrev pub IsNothing : MethodResult → Type 0
IsNothing r = (r.score ≡ 0) × (r.tier ≡ "low")

abbrev pub value_or_zero : Option (String × ℕ) → ℕ
value_or_zero none = 0
value_or_zero (some e) = e.1

-- What the table has for the education, or nothing.
abbrev pub looked_up : Option String → List (String × ℕ) → ℕ
looked_up none table = 0
looked_up (some edu) table = value_or_zero (find_first (λ e. same_text e.0 edu) table)

-- By the method: a tier of the dimension that passes its tests and scores no less than any other that
-- passes them; if none passes, the tier of least score, or no points; or what the table has for the
-- education.
abbrev pub Chosen : Texts → Extracted → RuleDimension → Method → MethodResult → Type 0
Chosen x c d tiered_keyword_match r =
    (chosen : Option Tier) × Highest points (IsHit x c) d.tiers chosen
    × TakesTier r
        ((least : Option Tier) × Lowest points d.tiers least × TakesTier r (IsNothing r) least)
        chosen
Chosen x c d experience_years r =
    (chosen : Option Tier) × Highest points (IsMet x c) d.tiers chosen
    × TakesTier r (IsNothing r) chosen
Chosen x c d lookup r = r.score ≡ looked_up (given c.education) (or_no_table d.table)

fallback_takes : (o : Option Tier) → TakesTier (fallback_result o) (IsNothing (fallback_result o)) o
fallback_takes none = (refl, refl)
fallback_takes (some t) = (refl, refl)

keyword_takes :
    (x : Texts) (c : Extracted) (tiers : List Tier) (o : Option Tier)
    → TakesTier
        (keyword_result x c tiers o)
        ((least : Option Tier) × Lowest points tiers least
          × TakesTier (keyword_result x c tiers o) (IsNothing (keyword_result x c tiers o)) least)
        o
keyword_takes x c tiers none =
    (lowest points tiers, lowest-Lowest points tiers, fallback_takes (lowest points tiers))
keyword_takes x c tiers (some t) = (refl, refl)

years_takes :
    (x : Texts) (c : Extracted) (o : Option Tier)
    → TakesTier (years_result x c o) (IsNothing (years_result x c o)) o
years_takes x c none = (refl, refl)
years_takes x c (some t) = (refl, refl)

table_entry :
    (edu : String) (table : List (String × ℕ)) → table_score edu table ≡ looked_up (some edu) table
unfolding table_score
table_entry edu [] = refl
table_entry edu ((k, v) ∷ rest) =
    elim (same_text k edu)
      as (λ c.
        (if c then v else table_score edu rest)
        ≡ value_or_zero (if c then some (k, v) else find_first (λ e. same_text e.0 edu) rest)) [
          | true ↦ refl
          | false ↦ table_entry edu rest
        ]

lookup_takes :
    (x : Texts) (table : List (String × ℕ)) (edu : Option String)
    → (lookup_with x table edu).score ≡ looked_up edu table
lookup_takes x table none = refl
lookup_takes x table (some edu) = table_entry edu table

run_method-Chosen :
    (x : Texts) (c : Extracted) (d : RuleDimension) (m : Method)
    → Chosen x c d m (run_method x c d m)
unfolding tiered_keyword years_score lookup_score
run_method-Chosen x c d tiered_keyword_match = (
  find_first (is_hit x c) (descending points d.tiers),
  find_first-Highest points (IsHit x c) (is_hit x c) d.tiers (is_hit-IsHit x c),
  keyword_takes x c d.tiers (find_first (is_hit x c) (descending points d.tiers)),
)
run_method-Chosen x c d experience_years = (
  find_first (is_met x c) (descending points d.tiers),
  find_first-Highest points (IsMet x c) (is_met x c) d.tiers (is_met-IsMet x c),
  years_takes x c (find_first (is_met x c) (descending points d.tiers)),
)
run_method-Chosen x c d lookup = lookup_takes x (or_no_table d.table) (given c.education)

-- A result is of its dimension, and its method has chosen as it promises.
pub record Rated (x : Texts) (c : Extracted) (d : RuleDimension) (r : DimensionResult)
    : Type 0 where
  pub of_dimension : (r.id ≡ d.id) × (r.name ≡ d.name) × (r.weight ≡ d.weight)
  pub chosen :
      Chosen x c d d.method
        (record { score = r.score; tier = r.tier; evidence_quotes = r.evidence_quotes })

-- The rule engine rates every dimension once, in their order. By keywords or by years, a dimension
-- gets the tier of its own that passes the method's tests and scores no less than any other that
-- passes them; where none passes, its tier of least score by keywords, or no points if it has no tier,
-- and no points by years; by lookup, it gets what its table has for the candidate's education.
pub score_dimensions-Rated :
    (x : Texts) (c : Extracted) (dims : List RuleDimension)
    → Rowwise (Rated x c) dims (score_dimensions x c dims)
unfolding score_dimensions
score_dimensions-Rated x c dims =
    Rowwise-map (Rated x c) (score_dimension x c) dims
      (λ d. record { of_dimension = (refl, refl, refl); chosen = run_method-Chosen x c d d.method })
