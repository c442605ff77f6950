-- ===== src/Quality/Metrics/Confidence.antt =====
-- backend/app/services/quality/metrics.py: the confidence of the judge in each decision, in bins, and
-- its calibration error. A Decimal is a number of a fixed quantum, of which `one` stands for 1, and
-- its divisions round and are parameters.
use smart_screen_agent.Prelude.{
  ℕ, suc, ◌+◌, ◌-◌, ◌*◌, String, Bool, true, false, not, ◌&&◌, ◌||◌, Option, none, some, List, [],
  ◌∷◌, map, select, length, same_text, ltb, leb, ◌==◌, if◌then◌else◌,
}
use smart_screen_agent.Quality.Metrics.{
  BoundJudgeDimension, JudgeObservation, QualityItem, is_borderline, is_advance, predicts_advance,
  is_known,
}

-- The divisions of Decimals: a sum by a weight or a count, and a share of a total of a gap.
pub record Decimals : Type 0 where
  pub one : ℕ
  pub divide : ℕ → ℕ → ℕ
  pub share : ℕ → ℕ → ℕ → ℕ

-- `weights.get((jd_id, id))`, in which the last dimension counts.
unfoldable pub weight_of : ℕ → String → List BoundJudgeDimension → Option ℕ
weight_of jd_id i [] = none
weight_of jd_id i (d ∷ ds) = elim (weight_of jd_id i ds) [
  | some w ↦ some w
  | none ↦ if d.jd_id == jd_id && same_text d.id i then some d.weight else none
]

-- `_is_usable_confidence`, with the value.
abbrev pub usable : ℕ → Option ℕ → Option ℕ
usable one none = none
usable one (some c) = if leb c one then some c else none

abbrev pub weighed : JudgeObservation → Option ℕ → Option ℕ → ℕ × ℕ → ℕ × ℕ
weighed o none c sums = sums
weighed o (some w) none sums = sums
weighed o (some w) (some c) (total, sum) =
    if leb w 0 || not (is_known o) then (total, sum) else (total + w, sum + c * w)

unfoldable pub weigh_all : ℕ → ℕ → List BoundJudgeDimension → List JudgeObservation → ℕ × ℕ → ℕ × ℕ
weigh_all one jd_id dims [] sums = sums
weigh_all one jd_id dims (o ∷ os) sums =
    weigh_all one jd_id dims os
      (weighed o (weight_of jd_id o.dimension_id dims) (usable one o.confidence) sums)

abbrev pub mean_of : Decimals → ℕ × ℕ → Option ℕ
mean_of x (total, sum) = if total == 0 then none else some (x.divide sum total)

unfoldable pub weighted_confidence : Decimals → List BoundJudgeDimension → QualityItem → Option ℕ
weighted_confidence x dims item = mean_of x (weigh_all x.one item.jd_id dims item.judge (0, 0))

-- `_bin_index`: the bins are fifths, and the last one is closed.
unfoldable pub bin_index : ℕ → ℕ → ℕ
bin_index one c =
    if ltb (5 * c) one
    then 0
    else if ltb (5 * c) (2 * one)
    then 1
    else if ltb (5 * c) (3 * one)
    then 2
    else if ltb (5 * c) (4 * one)
    then 3
    else 4

abbrev pub same : Bool → Bool → Bool
same true b = b
same false b = not b

-- The entries of all buckets, in the order of the items, and how many had no confidence.
abbrev pub bucketed : Bool → Option ℕ → List (ℕ × Bool) × ℕ → List (ℕ × Bool) × ℕ
bucketed correct none (entries, unavailable) = (entries, suc unavailable)
bucketed correct (some c) (entries, unavailable) = ((c, correct) ∷ entries, unavailable)

abbrev pub observe :
    Decimals
    → List BoundJudgeDimension
    → QualityItem
    → Option String
    → List (ℕ × Bool) × ℕ
    → List (ℕ × Bool) × ℕ
observe x dims item none rest = rest
observe x dims item (some grade) rest =
    if is_borderline item.golden_label || not item.reached_judge
    then rest
    else bucketed (same (predicts_advance grade) (is_advance item.golden_label))
        (weighted_confidence x dims item) rest

unfoldable pub observe_all :
    Decimals → List BoundJudgeDimension → List QualityItem → List (ℕ × Bool) × ℕ
observe_all x dims [] = ([], 0)
observe_all x dims (item ∷ items) = observe x dims item item.grade (observe_all x dims items)

pub record Bin : Type 0 where
  pub index : ℕ
  pub count : ℕ
  pub mean_confidence : Option ℕ
  pub decision_accuracy : Option ℕ
  pub absolute_gap : Option ℕ
  pub is_sufficient : Bool

unfoldable pub sum_confidence : List (ℕ × Bool) → ℕ
sum_confidence [] = 0
sum_confidence ((c, right) ∷ es) = c + sum_confidence es

abbrev pub points : ℕ → Bool → ℕ
points one true = one
points one false = 0

unfoldable pub sum_correct : ℕ → List (ℕ × Bool) → ℕ
sum_correct one [] = 0
sum_correct one ((c, right) ∷ es) = points one right + sum_correct one es

abbrev pub distance : ℕ → ℕ → ℕ
distance a b = if leb b a then a - b else b - a

abbrev pub when : Bool → ℕ → Option ℕ
when true n = some n
when false n = none

abbrev pub bin_of : Decimals → ℕ → ℕ → List (ℕ × Bool) → Bin
bin_of x minimum i entries =
    let count = length entries in
    let enough = leb minimum count && not (count == 0) in
    let mean = x.divide (sum_confidence entries) count in
    let accuracy = x.divide (sum_correct x.one entries) count in
    record {
      index = i;
      count = count;
      mean_confidence = when (not (count == 0)) mean;
      decision_accuracy = when enough accuracy;
      absolute_gap = when enough (distance mean accuracy);
      is_sufficient = enough;
    }

abbrev pub in_bin : ℕ → ℕ → ℕ × Bool → Bool
in_bin one i (c, right) = bin_index one c == i

abbrev pub bin_numbers : List ℕ
bin_numbers = 0 ∷ 1 ∷ 2 ∷ 3 ∷ 4 ∷ []

unfoldable pub bins_of : Decimals → ℕ → List (ℕ × Bool) → List Bin
bins_of x minimum entries =
    map (λ i. bin_of x minimum i (select (in_bin x.one i) entries)) bin_numbers

abbrev pub or_zero : Option ℕ → ℕ
or_zero none = 0
or_zero (some n) = n

unfoldable pub total_count : List Bin → ℕ
total_count [] = 0
total_count (b ∷ bs) = b.count + total_count bs

unfoldable pub sum_shares : Decimals → ℕ → List Bin → ℕ
sum_shares x total [] = 0
sum_shares x total (b ∷ bs) = x.share b.count total (or_zero b.absolute_gap) + sum_shares x total bs

pub record Confidence : Type 0 where
  pub available_count : ℕ
  pub confidence_unavailable : ℕ
  pub bins : List Bin
  pub ece : Option ℕ

unfoldable pub ece_of : Decimals → List Bin → Option ℕ
ece_of x bins =
    let sufficient = select (λ b. b.is_sufficient) bins in
    if total_count sufficient == 0
    then none
    else some (sum_shares x (total_count sufficient) sufficient)

-- The lengths of the buckets add up to `available_count`.
unfoldable pub confidence_metrics :
    Decimals → List QualityItem → List BoundJudgeDimension → ℕ → Confidence
confidence_metrics x items dims minimum =
    let (entries, unavailable) = observe_all x dims items in
    let bins = bins_of x minimum entries in
    record {
      available_count = total_count bins;
      confidence_unavailable = unavailable;
      bins = bins;
      ece = ece_of x bins;
    }
