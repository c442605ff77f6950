-- ===== src/Scoring/Ranking.antt =====
-- `sorted(tiers, key=..., reverse=True)` and `min(tiers, key=...)`, as the rule methods use them, with
-- what the first of the sorted that passes a test is.
use smart_screen_agent.Prelude.{
  ℕ, ◌≤◌, ◌≡◌, ◌⊎◌, ◌↔◌, refl, subst, some_inj, sym, ◌∙◌, Bool, true, false, Option, none, some,
  List, [], ◌∷◌, arith, All, All-imp, find_first, leb, Bool-cases, inl, inr, if◌then◌else◌,
}

module _ {A : Type 0} (key : A → ℕ) where
  -- Equal keys keep their order.
  unfoldable pub insert : A → List A → List A
  insert t [] = t ∷ []
  insert t (u ∷ us) = let rest = insert t us in if leb (key u) (key t) then t ∷ u ∷ us else u ∷ rest

  unfoldable pub descending : List A → List A
  unfolding insert
  descending [] = []
  descending (t ∷ ts) = insert t (descending ts)

  abbrev pub lower : A → Option A → A
  lower t none = t
  lower t (some u) = if leb (key t) (key u) then t else u

  -- The first of the lowest.
  unfoldable pub lowest : List A → Option A
  lowest [] = none
  lowest (t ∷ ts) = some (lower t (lowest ts))

  abbrev pub Among : A → List A → Type 0
  Among a [] = ⊥
  Among a (t ∷ ts) = (a ≡ t) ⊎ Among a ts

  -- One of the list that passes, and has the highest key of all that pass; or nothing passes.
  abbrev pub Highest : (A → Type 0) → List A → Option A → Type 0
  Highest P ts none = All (λ t. ¬ P t) ts
  Highest P ts (some b) = Among b ts × P b × All (λ t. P t → key t ≤ key b) ts

  -- One of the list that has the lowest key of all; or there is none.
  abbrev pub Lowest : List A → Option A → Type 0
  Lowest ts none = ts ≡ []
  Lowest ts (some b) = Among b ts × All (λ t. key b ≤ key t) ts

  pub lowest-Lowest : (ts : List A) → Lowest ts (lowest ts)
  unfolding lowest
  lowest-Lowest [] = refl
  lowest-Lowest (t ∷ ts) = with_head (lowest ts) (lowest-Lowest ts)
    where
      with_head : (o : Option A) → Lowest ts o → Lowest (t ∷ ts) (some (lower t o))
      with_head none e = (inl refl, (omega arith, subst (All (λ u. key t ≤ key u)) (sym e) tt))
      with_head (some b) (among, all) = picked b among all (leb (key t) (key b)) refl
        where
          picked :
              (b : A)
              → Among b ts
              → All (λ u. key b ≤ key u) ts
              → (c : Bool) → leb (key t) (key b) ≡ c
              → Lowest (t ∷ ts) (some (if c then t else b))
          picked b among all true e =
              let le : key t ≤ key b = ground (arith, e) in
              (
                inl refl,
                (
                  omega arith,
                  All-imp (λ u. key b ≤ key u) (λ u. key t ≤ key u) ts (λ u l. omega (arith, l, le))
                      all,
                ),
              )
          picked b among all false e = (inr among, (ground (arith, e), all))

  Among-insert : (b t : A) (us : List A) → Among b (insert t us) → (b ≡ t) ⊎ Among b us
  unfolding insert
  Among-insert b t [] h = h
  Among-insert b t (u ∷ us) h = elim (Bool-cases (leb (key u) (key t))) [
    | inl e ↦ (rw e at h)
    | inr e ↦ elim (rw e at h) [
      | inl same ↦ inr (inl same)
      | inr later ↦ elim (Among-insert b t us later) [ inl same ↦ inl same | inr m ↦ inr (inr m) ]
    ]
  ]

  Among-descending : (b : A) (ts : List A) → Among b (descending ts) → Among b ts
  unfolding descending
  Among-descending b [] h = h
  Among-descending b (t ∷ ts) h = elim (Among-insert b t (descending ts) h) [
    | inl same ↦ inl same
    | inr m ↦ inr (Among-descending b ts m)
  ]

  found-Among : (p : A → Bool) (ts : List A) (b : A) → find_first p ts ≡ some b → Among b ts
  found-Among p [] b h = absurd (cc h)
  found-Among p (t ∷ ts) b h = elim (Bool-cases (p t)) [
    | inl e ↦ inl (sym (some_inj (rw e at h)))
    | inr e ↦ inr (found-Among p ts b (rw e at h))
  ]

  -- By a test.
  abbrev Best : (A → Bool) → List A → Option A → Type 0
  Best p ts none = All (λ t. p t ≡ false) ts
  Best p ts (some b) = (p b ≡ true) × All (λ t. p t ≡ true → key t ≤ key b) ts

  abbrev Sorted : List A → Type 0
  Sorted [] = Unit {0}
  Sorted (t ∷ ts) = All (λ u. key u ≤ key t) ts × Sorted ts

  -- What holds of the new one and of all the others holds of all after.
  insert-All : (P : A → Type 0) (t : A) (us : List A) → P t → All P us → All P (insert t us)
  unfolding insert
  insert-All P t [] h all = (h, tt)
  insert-All P t (u ∷ us) h (q, all) = elim (Bool-cases (leb (key u) (key t))) [
    | inl e ↦ rw e (h, (q, all))
    | inr e ↦ rw e (q, insert-All P t us h all)
  ]

  -- And the other way round.
  All-insert : (P : A → Type 0) (t : A) (us : List A) → All P (insert t us) → P t × All P us
  unfolding insert
  All-insert P t [] h = h
  All-insert P t (u ∷ us) h = elim (Bool-cases (leb (key u) (key t))) [
    | inl e ↦ (rw e at h)
    | inr e ↦
        (let (q, rest) = rw e at h in let (pt, all) = All-insert P t us rest in (pt, (q, all)))
  ]

  All-descending : (P : A → Type 0) (ts : List A) → All P (descending ts) → All P ts
  unfolding descending
  All-descending P [] h = tt
  All-descending P (t ∷ ts) h =
      let (pt, all) = All-insert P t (descending ts) h in (pt, All-descending P ts all)

  insert-Sorted : (t : A) (us : List A) → Sorted us → Sorted (insert t us)
  unfolding insert
  insert-Sorted t [] s = (tt, tt)
  insert-Sorted t (u ∷ us) (q, s) = elim (Bool-cases (leb (key u) (key t))) [
    | inl e ↦
        (let le : key u ≤ key t = ground (arith, e) in
          rw e (
            (
              le,
              All-imp (λ v. key v ≤ key u) (λ v. key v ≤ key t) us (λ v l. omega (arith, l, le)) q,
            ),
            (q, s),
          ))
    | inr e ↦
        (let le : key t ≤ key u = ground (arith, e) in
          rw e (insert-All (λ v. key v ≤ key u) t us le q, insert-Sorted t us s))
  ]

  descending-Sorted : (ts : List A) → Sorted (descending ts)
  unfolding descending
  descending-Sorted [] = tt
  descending-Sorted (t ∷ ts) = insert-Sorted t (descending ts) (descending-Sorted ts)

  first-Best : (p : A → Bool) (ts : List A) → Sorted ts → Best p ts (find_first p ts)
  first-Best p [] s = tt
  first-Best p (t ∷ ts) (q, s) = elim (Bool-cases (p t)) [
    | inl e ↦ rw e (
      e,
      (
        λ _. omega arith,
        All-imp (λ u. key u ≤ key t) (λ u. p u ≡ true → key u ≤ key t) ts (λ u l _. l) q,
      ),
    )
    | inr e ↦ rw e (skipped (find_first p ts) e (first-Best p ts s))
  ]
    where
      skipped : (o : Option A) → p t ≡ false → Best p ts o → Best p (t ∷ ts) o
      skipped none e h = (e, h)
      skipped (some b) e (pb, h) = (pb, ((λ y. absurd (cc (sym e ∙ y))), h))

  -- Sorting and taking the first that passes takes the highest that passes.
  pub find_first-Highest :
      (P : A → Type 0) (p : A → Bool) (ts : List A)
      → ((t : A) → (p t ≡ true) ↔ P t)
      → Highest P ts (find_first p (descending ts))
  find_first-Highest P p ts same =
      back (find_first p (descending ts)) refl (first-Best p (descending ts) (descending-Sorted ts))
    where
      back :
          (o : Option A)
          → find_first p (descending ts) ≡ o
          → Best p (descending ts) o
          → Highest P ts o
      back none e h =
          All-imp (λ t. p t ≡ false) (λ t. ¬ P t) ts (λ t no yes. cc (sym no ∙ (same t).1 yes))
            (All-descending (λ t. p t ≡ false) ts h)
      back (some b) e (pb, h) = (
        Among-descending b ts (found-Among p (descending ts) b e),
        (same b).0 pb,
        All-imp (λ t. p t ≡ true → key t ≤ key b) (λ t. P t → key t ≤ key b) ts
            (λ t le yes. le ((same t).1 yes))
            (All-descending (λ t. p t ≡ true → key t ≤ key b) ts h),
      )
