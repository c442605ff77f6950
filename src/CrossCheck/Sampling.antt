-- ===== src/CrossCheck/Sampling.antt =====
-- backend/app/services/cross_check/sampling.py and triggers.py: which scores are worth a second
-- opinion, and queueing it. A Decimal is a number of a fixed quantum and not negative; its division
-- rounds, and is a parameter, like `sha256` and the decimal text of a number. An entry of the
-- judge's dimensions is given by what the code reads of it: `confidence` is what `_confidence`
-- makes of the value, and a tier that is missing or empty is `none`.
pub mod Decision
use Prim.Native.String
use smart_screen_agent.Prelude.{
  ℕ, ◌+◌, ◌*◌, String, Bool, true, false, not, ◌&&◌, ◌||◌, Option, none, some, List, [], ◌∷◌, ◌++◌,
  any, select, same_text, ltb, leb, ◌==◌, if◌then◌else◌,
}
use Prim.Native.Nat.{◌%◌}
use smart_screen_agent.CrossCheck.State.{
  Db, Reason, deterministic_sample, low_confidence, golden_error, ai_hr_disagreement,
  admin_backfill, is_reason, trigger_order, ScoreCrossCheck, Wanted, ensure_cross_check,
}

pub record Entry : Type 0 where
  pub id : Option String
  pub tier : Option String
  pub confidence : Option ℕ

-- `context.weights` is given for the context's own JD.
pub record CrossCheckContext : Type 0 where
  pub score_id : ℕ
  pub prompt_version : String
  pub secondary_model : String
  pub primary_model : String
  pub schema_dimension_ids : List String
  pub judge_dimensions : List Entry
  pub grade : String
  pub sample_percent : ℕ
  pub low_confidence : ℕ
  pub golden_label : Option String
  pub ai_agreed : Option Bool
  pub weights : String → Option ℕ

-- The first eight bytes of `sha256(text.encode()).digest()` as a number, `str` of an integer, and
-- the division of Decimals.
pub record Primitives : Type 0 where
  pub digest : String → ℕ
  pub decimal : ℕ → String
  pub divide : ℕ → ℕ → ℕ

unfoldable pub sample_bucket : Primitives → ℕ → String → ℕ
sample_bucket p score_id prompt_version =
    p.digest
      (String.◌++◌ "wp7:" (String.◌++◌ (p.decimal score_id) (String.◌++◌ ":" prompt_version)))
    % 100

abbrev pub is_empty : {A : Type 0} → List A → Bool
is_empty [] = true
is_empty (x ∷ xs) = false

abbrev pub is_known : List String → Entry → Bool
is_known known e = elim e.id [ none ↦ false | some i ↦ any (same_text i) known ]

unfoldable pub eligible : CrossCheckContext → Bool
eligible c =
    if same_text c.secondary_model "" || same_text c.secondary_model c.primary_model
    then false
    else (if is_empty c.schema_dimension_ids || is_empty c.judge_dimensions
        then false
        else any (is_known c.schema_dimension_ids) c.judge_dimensions)

abbrev pub or_unknown : Option String → String
or_unknown none = "unknown"
or_unknown (some tier) = tier

-- The weight and the confidence of an entry that the loop does not skip.
abbrev pub usable : Option ℕ → Entry → Option (ℕ × ℕ)
usable none e = none
usable (some weight) e =
    if leb weight 0 || same_text (or_unknown e.tier) "unknown"
    then none
    else elim e.confidence [ none ↦ none | some confidence ↦ some (weight, confidence) ]

abbrev pub weighed : (String → Option ℕ) → Entry → Option (ℕ × ℕ)
weighed weights e = elim e.id [ none ↦ none | some i ↦ usable (weights i) e ]

abbrev pub add_weighed : Option (ℕ × ℕ) → ℕ × ℕ → ℕ × ℕ
add_weighed none sums = sums
add_weighed (some (weight, confidence)) (total, sum) = (total + weight, sum + confidence * weight)

-- The loop, with `total_weight` and `weighted_sum`.
unfoldable pub sum_entries : (String → Option ℕ) → List Entry → ℕ × ℕ → ℕ × ℕ
sum_entries weights [] sums = sums
sum_entries weights (e ∷ es) sums = sum_entries weights es (add_weighed (weighed weights e) sums)

abbrev pub mean : Primitives → ℕ × ℕ → Option ℕ
mean p (total, sum) = if total == 0 then none else some (p.divide sum total)

unfoldable pub weighted_confidence : Primitives → CrossCheckContext → Option ℕ
weighted_confidence p c = mean p (sum_entries c.weights c.judge_dimensions (0, 0))

abbrev pub is_low : ℕ → Option ℕ → Bool
is_low threshold none = true
is_low threshold (some confidence) = ltb confidence threshold

abbrev pub is_sampled : Primitives → CrossCheckContext → Bool
is_sampled p c =
    ltb 0 c.sample_percent && ltb (sample_bucket p c.score_id c.prompt_version) c.sample_percent

abbrev pub is_same : Bool → Bool → Bool
is_same true b = b
is_same false b = not b

abbrev pub is_golden_error : String → Option String → Bool
is_golden_error grade none = false
is_golden_error grade (some label) =
    (same_text label "advance" || same_text label "reject")
    && not (is_same (not (same_text grade "rejected")) (same_text label "advance"))

abbrev pub is_disagreement : Option Bool → Bool
is_disagreement (some false) = true
is_disagreement _ = false

-- `reasons.add` under its condition.
abbrev pub add_if : Bool → Reason → List Reason → List Reason
add_if true r reasons = r ∷ reasons
add_if false r reasons = reasons

unfoldable pub reason_set : Primitives → CrossCheckContext → Bool → List Reason
unfolding weighted_confidence sample_bucket
reason_set p c backfill = add_if backfill admin_backfill (
    add_if (is_sampled p c) deterministic_sample (
      add_if (is_low c.low_confidence (weighted_confidence p c)) Reason.low_confidence (
        add_if (is_golden_error c.grade c.golden_label) golden_error
          (add_if (is_disagreement c.ai_agreed) ai_hr_disagreement []))))

unfoldable pub trigger_reasons : Primitives → CrossCheckContext → Bool → List Reason
trigger_reasons p c backfill =
    let reasons = reason_set p c backfill in select (λ r. any (is_reason r) reasons) trigger_order

abbrev pub wanted : CrossCheckContext → ℕ → List Reason → Wanted
wanted c threshold reasons = record {
  score_id = c.score_id;
  secondary_model = c.secondary_model;
  prompt_version = c.prompt_version;
  reasons = reasons;
  threshold = threshold;
}

-- The id of the row, or NoResultFound.
abbrev pub queued_id : Option ScoreCrossCheck × Db → Option (List ℕ) × Db
queued_id (none, db) = (none, db)
queued_id (some c, db) = (some (c.id ∷ []), db)

abbrev pub queue_reasons : CrossCheckContext → ℕ → List Reason → Db → Option (List ℕ) × Db
queue_reasons c threshold [] db = (some [], db)
queue_reasons c threshold (r ∷ rs) db =
    queued_id (ensure_cross_check (wanted c threshold (r ∷ rs)) db)

-- The context is `none` where the rule version is missing or its schema is not valid.
unfoldable pub queue_cross_check_for_score :
    Primitives → Option CrossCheckContext → Bool → ℕ → Db → Option (List ℕ) × Db
queue_cross_check_for_score p none backfill threshold db = (some [], db)
queue_cross_check_for_score p (some c) backfill threshold db =
    if eligible c
    then queue_reasons c threshold (trigger_reasons p c backfill) db
    else (some [], db)
