-- ===== src/Quality/Metrics/Accounts.antt =====
-- That the metrics count every observation once.
use smart_screen_agent.Prelude.{
  ℕ, ◌+◌, ◌≤◌, ◌≡◌, ◌∙◌, String, Bool, true, false, not, ◌&&◌, Option, none, some, List, [], ◌∷◌,
  arith, select, length, is_some, Bool-cases, inl, inr,
}
use smart_screen_agent.Quality.Metrics.{
  GoldenLabel, advance, reject, borderline, BoundJudgeDimension, QualityItem, AgreementObservation,
  Tally, no_tally, count_item, tally, classification_metrics, is_of_jd, covers, evidence_counts,
  evidence_metrics, is_agreed, is_disagreed, agreement_metrics, is_borderline, predicts_advance,
  is_advance,
}
use smart_screen_agent.Quality.Metrics.Confidence.{
  Decimals, bin_index, in_bin, bins_of, total_count, observe, bucketed, observe_all,
  confidence_metrics, weighted_confidence, same,
}

length-select-le : {A : Type 0} (p : A → Bool) (xs : List A) → length (select p xs) ≤ length xs
length-select-le p [] = omega arith
length-select-le p (x ∷ xs) = ground (arith, length-select-le p xs)

abbrev total : Tally → ℕ
total t = t.tp + t.fp + t.tn + t.fn + t.borderline_excluded + t.uncovered

count_item-total :
    (grade : Option String) (label : GoldenLabel) (t : Tally)
    → total (count_item grade label t) ≡ total t + 1
count_item-total none label t = omega arith
count_item-total (some grade) borderline t = omega arith
count_item-total (some grade) advance t = elim (Bool-cases (predicts_advance grade)) [
  | inl e ↦ rw e (omega arith)
  | inr e ↦ rw e (omega arith)
]
count_item-total (some grade) reject t = elim (Bool-cases (predicts_advance grade)) [
  | inl e ↦ rw e (omega arith)
  | inr e ↦ rw e (omega arith)
]

tally-total :
    (items : List QualityItem) (t : Tally) → total (tally items t) ≡ total t + length items
unfolding tally
tally-total [] t = omega arith
tally-total (i ∷ items) t =
    tally-total items (count_item i.grade i.golden_label t)
    ∙ omega (arith, count_item-total i.grade i.golden_label t)

evidence_counts-le :
    (items : List QualityItem) (dims : List BoundJudgeDimension)
    → (evidence_counts items dims).1 ≤ (evidence_counts items dims).0
unfolding evidence_counts
evidence_counts-le [] dims = omega arith
evidence_counts-le (i ∷ items) dims = elim (Bool-cases i.reached_judge) [
  | inl e ↦ rw e (
      omega (
        arith,
        evidence_counts-le items dims,
        length-select-le (covers i.judge) (select (is_of_jd i.jd_id) dims),
      ))
  | inr e ↦ rw e (evidence_counts-le items dims)
]

-- Each entry is in one of the five bins.
abbrev in_all : ℕ → List (ℕ × Bool) → ℕ
in_all one es =
    length (select (in_bin one 0) es)
    + (length (select (in_bin one 1) es)
        + (length (select (in_bin one 2) es)
            + (length (select (in_bin one 3) es) + (length (select (in_bin one 4) es) + 0))))

bin_index-le : (one c : ℕ) → bin_index one c ≤ 4
unfolding bin_index
bin_index-le one c = ground arith

in_all-length : (one : ℕ) (es : List (ℕ × Bool)) → in_all one es ≡ length es
in_all-length one [] = omega arith
in_all-length one ((c, right) ∷ es) = ground (arith, bin_index-le one c, in_all-length one es)

-- Whether the judge's confidence counts for an item.
abbrev pub is_decided : QualityItem → Bool
is_decided i = is_some i.grade && (not (is_borderline i.golden_label) && i.reached_judge)

bucketed-length :
    (right : Bool) (o : Option ℕ) (rest : List (ℕ × Bool) × ℕ)
    → length (bucketed right o rest).0 + (bucketed right o rest).1 ≡ length rest.0 + rest.1 + 1
bucketed-length right none (es, n) = omega arith
bucketed-length right (some c) (es, n) = omega arith

abbrev one_if : Bool → ℕ
one_if true = 1
one_if false = 0

observe-length :
    (x : Decimals) (dims : List BoundJudgeDimension) (i : QualityItem) (grade : Option String)
    (rest : List (ℕ × Bool) × ℕ)
    → length (observe x dims i grade rest).0 + (observe x dims i grade rest).1
      ≡ length rest.0
        + rest.1
        + one_if (is_some grade && (not (is_borderline i.golden_label) && i.reached_judge))
observe-length x dims i none rest = omega arith
observe-length x dims i (some grade) rest = elim (Bool-cases (is_borderline i.golden_label)) [
  | inl b ↦ rw b (omega arith)
  | inr b ↦ elim (Bool-cases i.reached_judge) [
    | inl r ↦
        simp (b, r)
          (bucketed-length (same (predicts_advance grade) (is_advance i.golden_label))
            (weighted_confidence x dims i) rest)
    | inr r ↦ simp (b, r) (omega arith)
  ]
]

select_one :
    (i : QualityItem) (items : List QualityItem)
    → length (select is_decided (i ∷ items))
      ≡ length (select is_decided items) + one_if (is_decided i)
select_one i items = elim (Bool-cases (is_decided i)) [
  | inl e ↦ rw e (omega arith)
  | inr e ↦ rw e (omega arith)
]

observe_all-length :
    (x : Decimals) (dims : List BoundJudgeDimension) (items : List QualityItem)
    → length (observe_all x dims items).0 + (observe_all x dims items).1
      ≡ length (select is_decided items)
unfolding observe_all
observe_all-length x dims [] = omega arith
observe_all-length x dims (i ∷ items) =
    observe-length x dims i i.grade (observe_all x dims items)
    ∙ omega (arith, observe_all-length x dims items, select_one i items)

split3 :
    (os : List AgreementObservation)
    → length (select (λ o. is_agreed o.ai_agreed) os)
        + length (select (λ o. is_disagreed o.ai_agreed) os)
        + length (select (λ o. not (is_some o.ai_agreed)) os)
      ≡ length os
split3 [] = omega arith
split3 (o ∷ os) = ground (arith, split3 os)

-- Every item is covered, uncovered or borderline; no more evidence is covered than expected; every
-- item that the judge has decided is in one bin or has no confidence; every feedback is counted.
pub record IsAccounted (x : Decimals) (items : List QualityItem) (dims : List BoundJudgeDimension)
    (agreement : List AgreementObservation) (minimum : ℕ) : Type 0 where
  pub classified :
      let c = classification_metrics items in
      c.labeled_total ≡ c.covered + c.uncovered + c.borderline_excluded
  pub evidenced :
      (evidence_metrics items dims).covered_count ≤ (evidence_metrics items dims).expected_count
  pub confident :
      let c = confidence_metrics x items dims minimum in
      c.available_count + c.confidence_unavailable ≡ length (select is_decided items)
  pub agreed : let a = agreement_metrics agreement in a.denominator + a.hold ≡ length agreement

classified_lem :
    (items : List QualityItem)
    → let c = classification_metrics items in
      c.labeled_total ≡ c.covered + c.uncovered + c.borderline_excluded
unfolding classification_metrics
classified_lem items = omega (arith, tally-total items no_tally)

evidenced_lem :
    (items : List QualityItem) (dims : List BoundJudgeDimension)
    → (evidence_metrics items dims).covered_count ≤ (evidence_metrics items dims).expected_count
unfolding evidence_metrics
evidenced_lem items dims = evidence_counts-le items dims

confident_lem :
    (x : Decimals) (items : List QualityItem) (dims : List BoundJudgeDimension) (minimum : ℕ)
    → let c = confidence_metrics x items dims minimum in
      c.available_count + c.confidence_unavailable ≡ length (select is_decided items)
unfolding confidence_metrics bins_of total_count
confident_lem x items dims minimum =
    omega (arith, in_all-length x.one (observe_all x dims items).0, observe_all-length x dims items)

agreed_lem :
    (os : List AgreementObservation)
    → let a = agreement_metrics os in a.denominator + a.hold ≡ length os
unfolding agreement_metrics
agreed_lem os = split3 os

pub metrics-IsAccounted :
    (x : Decimals) (items : List QualityItem) (dims : List BoundJudgeDimension)
    (agreement : List AgreementObservation) (minimum : ℕ)
    → IsAccounted x items dims agreement minimum
metrics-IsAccounted x items dims agreement minimum = record {
  classified = classified_lem items;
  evidenced = evidenced_lem items dims;
  confident = confident_lem x items dims minimum;
  agreed = agreed_lem agreement;
}
