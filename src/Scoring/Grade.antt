-- ===== src/Scoring/Grade.antt =====
-- backend/app/scoring/pipeline.py: `_grade_from`. Scores and thresholds are only compared here, so a
-- number stands for the place of a float in their order.
use smart_screen_agent.Prelude.{
  ℕ, ◌≤◌, ◌≡◌, refl, sym, ap, ◌∙◌, String, Bool, true, false, Option, none, some, List, [], ◌∷◌,
  arith, subst, All, All-imp, All-find_first, find_first, leb, Bool-cases, Option-cases, inl, inr,
  if◌then◌else◌,
}

pub record GradeThreshold : Type 0 where
  pub min : ℕ
  pub grade : String

-- `sorted(..., key=lambda g: g.min, reverse=True)`, which keeps the order of equal keys.
abbrev pub insert : GradeThreshold → List GradeThreshold → List GradeThreshold
insert t [] = t ∷ []
insert t (u ∷ us) = let rest = insert t us in if leb u.min t.min then t ∷ u ∷ us else u ∷ rest

abbrev pub sorted : List GradeThreshold → List GradeThreshold
sorted [] = []
sorted (t ∷ ts) = insert t (sorted ts)

abbrev pub reached : ℕ → GradeThreshold → Bool
reached score t = leb t.min score

abbrev pub grade_or_rejected : Option GradeThreshold → String
grade_or_rejected none = "rejected"
grade_or_rejected (some t) = t.grade

unfoldable pub grade_from : ℕ → List GradeThreshold → String
grade_from score thresholds = grade_or_rejected (find_first (reached score) (sorted thresholds))

-- The best threshold reached: the highest, and of equal ones the first that is listed.
abbrev pub better : GradeThreshold → Option GradeThreshold → GradeThreshold
better t none = t
better t (some u) = if leb u.min t.min then t else u

unfoldable pub best : ℕ → List GradeThreshold → Option GradeThreshold
best score [] = none
best score (t ∷ ts) =
    let rest = best score ts in if reached score t then some (better t rest) else rest

abbrev Sorted : List GradeThreshold → Type 0
Sorted [] = Unit {0}
Sorted (t ∷ ts) = All (λ u. u.min ≤ t.min) ts × Sorted ts

insert-All :
    (n : ℕ) (t : GradeThreshold) (us : List GradeThreshold)
    → t.min ≤ n
    → All (λ u. u.min ≤ n) us
    → All (λ u. u.min ≤ n) (insert t us)
insert-All n t [] h all = (h, tt)
insert-All n t (u ∷ us) h (p, all) = elim (Bool-cases (leb u.min t.min)) [
  | inl e ↦ rw e (h, (p, all))
  | inr e ↦ rw e (p, insert-All n t us h all)
]

insert-Sorted : (t : GradeThreshold) (us : List GradeThreshold) → Sorted us → Sorted (insert t us)
insert-Sorted t [] s = (tt, tt)
insert-Sorted t (u ∷ us) (p, s) = elim (Bool-cases (leb u.min t.min)) [
  | inl e ↦
      (let le : u.min ≤ t.min = ground (arith, e) in
        rw e (
          (
            le,
            All-imp (λ v. v.min ≤ u.min) (λ v. v.min ≤ t.min) us (λ v q. omega (arith, q, le)) p,
          ),
          (p, s),
        ))
  | inr e ↦
      (let le : t.min ≤ u.min = ground (arith, e) in
        rw e (insert-All u.min t us le p, insert-Sorted t us s))
]

sorted-Sorted : (ts : List GradeThreshold) → Sorted (sorted ts)
sorted-Sorted [] = tt
sorted-Sorted (t ∷ ts) = insert-Sorted t (sorted ts) (sorted-Sorted ts)

abbrev choose : ℕ → GradeThreshold → Option GradeThreshold → Option GradeThreshold
choose score t rest = if reached score t then some (better t rest) else rest

-- In a list whose thresholds are not above that of `t`, nothing is better than `t`.
better_low :
    (score : ℕ) (t : GradeThreshold) (us : List GradeThreshold)
    → All (λ u. u.min ≤ t.min) us
    → better t (find_first (reached score) us) ≡ t
better_low score t us low = elim (Option-cases (find_first (reached score) us)) [
  | inl e ↦ ap (better t) e
  | inr (u, e) ↦
      (let (le, _) = All-find_first (λ v. v.min ≤ t.min) (reached score) us u low e in
        ap (better t) e ∙ ground (arith, le))
]

find_first-insert :
    (score : ℕ) (t : GradeThreshold) (us : List GradeThreshold)
    → Sorted us
    → find_first (reached score) (insert t us) ≡ choose score t (find_first (reached score) us)
find_first-insert score t [] s = refl
find_first-insert score t (u ∷ us) (p, s) = elim (Bool-cases (leb u.min t.min)) [
  | inl e ↦
      (let le : u.min ≤ t.min = ground (arith, e) in
        let low = better_low score t (u ∷ us) (
          le,
          All-imp (λ v. v.min ≤ u.min) (λ v. v.min ≤ t.min) us (λ v q. omega (arith, q, le)) p,
        ) in
        rw (e, low))
  | inr e ↦ elim (Bool-cases (reached score u)) [
    | inl y ↦ rw (e, y) (high y e)
    | inr n ↦ rw (e, n) (find_first-insert score t us s)
  ]
]
  where
    high : reached score u ≡ true → leb u.min t.min ≡ false → some u ≡ choose score t (some u)
    high y e = ground (arith, y, e)

sorted-best :
    (score : ℕ) (ts : List GradeThreshold) → find_first (reached score) (sorted ts) ≡ best score ts
unfolding best
sorted-best score [] = refl
sorted-best score (t ∷ ts) =
    find_first-insert score t (sorted ts) (sorted-Sorted ts)
    ∙ ap (choose score t) (sorted-best score ts)

-- What the best threshold is: one of those reached, not below any other one reached.
abbrev pub Best : ℕ → List GradeThreshold → Option GradeThreshold → Type 0
Best score ts none = All (λ t. reached score t ≡ false) ts
Best score ts (some b) = (b.min ≤ score) × All (λ t. reached score t ≡ true → t.min ≤ b.min) ts

Best-choose :
    (score : ℕ) (t : GradeThreshold) (ts : List GradeThreshold) (rest : Option GradeThreshold)
    → Best score ts rest
    → Best score (t ∷ ts) (choose score t rest)
Best-choose score t ts none h = elim (Bool-cases (reached score t)) [
  | inl y ↦ rw y (
    ground (arith, y),
    (
      λ _. omega arith,
      All-imp (λ u. reached score u ≡ false) (λ u. reached score u ≡ true → u.min ≤ t.min) ts
          (λ u n y'. absurd (cc (sym n ∙ y'))) h,
    ),
  )
  | inr n ↦ rw n (n, h)
]
Best-choose score t ts (some b) (le, h) = elim (Bool-cases (reached score t)) [
  | inr n ↦ rw n (le, (λ y. absurd (cc (sym n ∙ y)), h))
  | inl y ↦ elim (Bool-cases (leb b.min t.min)) [
    | inl e ↦
        (let low : b.min ≤ t.min = ground (arith, e) in
          let same : choose score t (some b) ≡ some t = rw (y, e) in
          subst (Best score (t ∷ ts)) (sym same) (
            ground (arith, y),
            (
              λ _. omega arith,
              All-imp (λ u. reached score u ≡ true → u.min ≤ b.min)
                  (λ u. reached score u ≡ true → u.min ≤ t.min) ts
                  (λ u q y'. omega (arith, q y', low)) h,
            ),
          ))
    | inr e ↦
        (let low : t.min ≤ b.min = ground (arith, e) in
          let same : choose score t (some b) ≡ some b = rw (y, e) in
          subst (Best score (t ∷ ts)) (sym same) (le, (λ _. low, h)))
  ]
]

best-Best : (score : ℕ) (ts : List GradeThreshold) → Best score ts (best score ts)
unfolding best
best-Best score [] = tt
best-Best score (t ∷ ts) = Best-choose score t ts (best score ts) (best-Best score ts)

-- Sorting and taking the first threshold reached gives the grade of the best one: one that the score
-- reaches and that is not below any other it reaches, of equal ones the first listed; the grade is
-- `rejected` for want of a threshold only where the score reaches none.
pub grade_from-Best :
    (score : ℕ) (ts : List GradeThreshold)
    → (grade_from score ts ≡ grade_or_rejected (best score ts)) × Best score ts (best score ts)
unfolding grade_from
grade_from-Best score ts = (ap grade_or_rejected (sorted-best score ts), best-Best score ts)
