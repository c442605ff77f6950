-- ===== src/Scoring/Samples.antt =====
-- Concrete models, readers and rules, for the tests of the scoring and of what is built on it.
use text.Mathlib.Text.{starts_with}
use smart_screen_agent.Prelude.{
  ℕ, String, true, Option, none, some, List, [], ◌∷◌, same_text, if◌then◌else◌,
}
use smart_screen_agent.Llm.Pricing.{ModelPrice}
use smart_screen_agent.Llm.Usage.{inserted, committed}
use smart_screen_agent.Llm.Gateway.{Encounter, Settings, World, answered}
use smart_screen_agent.Llm.Usage.Settled.{no_attempts}
use smart_screen_agent.Llm.Gateway.Reading.{as_sent}
use smart_screen_agent.Scoring.Judge.{JudgeDimension, JudgeDimensionResult, Reader, Encounters}
use smart_screen_agent.Scoring.HardFilter.{Extracted, RuleText}
use smart_screen_agent.Scoring.RuleEngine
use smart_screen_agent.Scoring.RuleEngine.{
  RuleDimension, Texts, tiered_keyword_match, experience_years,
}
use smart_screen_agent.Scoring.Pipeline.{RuleSchema}

abbrev pub price : ModelPrice
price = record { input_cny_per_million = 2500000; output_cny_per_million = 10000000 }

abbrev pub settings : Settings
settings = record {
  prices = ("qwen", price) ∷ ("other", price) ∷ [];
  finalize_retries = 1;
  structured_output_mode = "json_object";
  model_extract = "qwen";
  model_extract_fallback = "";
  model_judge = "qwen";
  model_judge_fallback = "other";
  model_light = "qwen";
  is_blank = λ s. same_text s "";
}

abbrev pub encounter : Encounter
encounter = record {
  started_at = 50;
  insert = inserted;
  answer = answered (as_sent "qwen-2" (some (1200, 300)) "{}" []);
  latency_ms = 900;
  tries = λ _. committed 80;
  broker_up = true;
}

abbrev pub encounters : Encounters
encounters = record {
  first = encounter;
  first_fallback = encounter;
  second = encounter;
  second_fallback = encounter;
}

abbrev pub idle : World
idle = record { ledger = no_attempts 1; requests = [] }

abbrev pub answer : JudgeDimensionResult
answer = record {
  id = "trade";
  tier = "high";
  score = some 30;
  evidence_quotes = "exports" ∷ [];
  confidence = 90;
}

-- Every text is read as this answer, and a quote is found at the start of the resume.
abbrev pub reader : Reader
reader = record {
  read = λ _. some (answer ∷ []);
  normalize = λ s. s;
  within = λ quote source. starts_with source quote;
}

abbrev pub judge_dimensions : List JudgeDimension
judge_dimensions =
    record {
      id = "trade";
      weight = 30;
      tiers =
          record { label = "high"; score = some 30 }
          ∷ record { label = "unknown"; score = none }
          ∷ [];
    }
    ∷ []

abbrev pub rule_text : RuleText
rule_text = record {
  age_limit = λ rule. if same_text rule "age <= 40" then some 40 else none;
  bound = λ _. "本科";
  unquoted = λ s. s;
  number = λ _. some 0;
}

abbrev pub texts : Texts
texts = record {
  within = same_text;
  tokens = λ s. s ∷ [];
  words = λ s. s ∷ [];
  day = λ _. some 100;
  today = 1000;
  per_day = 4;
  cut = λ s. s;
  years_quote = λ _. "years";
  education_quote = λ s. s;
}

abbrev pub candidate : Extracted
candidate = record {
  age = some 35;
  education = some "硕士";
  total_score = none;
  experiences =
      record { title = "sales"; description = "exports"; start = some "2020"; end = none } ∷ [];
  meta_model = some "qwen-2";
}

abbrev pub tier : String → ℕ → List String → Option ℕ → RuleEngine.Tier
tier label score keywords years = record {
  label = label;
  score = some score;
  keywords = keywords;
  min_years = years;
  max_years = none;
  required_keywords = [];
}

abbrev pub rule_dimensions : List RuleDimension
rule_dimensions =
    record {
      id = "field";
      name = "field";
      weight = 20;
      method = tiered_keyword_match;
      tiers = tier "low" 5 [] none ∷ tier "high" 20 ("sales exports" ∷ []) (some 1000) ∷ [];
      table = none;
    }
    ∷ record {
      id = "years";
      name = "years";
      weight = 10;
      method = experience_years;
      tiers = tier "mid" 6 [] (some 100) ∷ tier "high" 10 [] (some 9000) ∷ [];
      table = none;
    }
    ∷ []

abbrev pub schema : RuleSchema
schema = record {
  hard_filters = record { id = "age"; rule = "age <= 40"; audit_tag = "age" } ∷ [];
  rule_dimensions = rule_dimensions;
  judge_dimensions = judge_dimensions;
  grade_thresholds = record { min = 50; grade = "A" } ∷ record { min = 20; grade = "C" } ∷ [];
}
