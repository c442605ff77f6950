-- ===== src/Prelude/Tables.antt =====
-- A database table is the list of its rows. SELECT is `find_first` or `select`, UPDATE ... WHERE is
-- `update_where`; `All` is a predicate of every row.
use Prim.Native.Nat.{ℕ, zero, suc, ◌+◌, ◌≤◌}
use mathlib.Core.Path.{◌≡◌, refl, subst, ap, ◌∙◌, fun_ext}
use mathlib.Core.Logic.{inl, inr}
use mathlib.Core.Bool.{Bool, true, false, ◌||◌}
use mathlib.Core.Option.{Option, none, some}
use mathlib.Core.List.{List, [], ◌∷◌, ◌++◌, map}
use native.Mathlib.Omega.{arith}
use smart_screen_agent.Prelude.Tests.{if◌then◌else◌, Bool-cases, some_inj, is_some}

module _ {ℓ} {A : Type ℓ} where
  abbrev pub length : List A → ℕ
  length [] = 0
  length (x ∷ xs) = suc (length xs)

  abbrev pub take : ℕ → List A → List A
  take zero xs = []
  take (suc n) [] = []
  take (suc n) (x ∷ xs) = x ∷ take n xs

  -- The first row that passes the test.
  abbrev pub find_first : (A → Bool) → List A → Option A
  find_first p [] = none
  find_first p (x ∷ xs) = if p x then some x else find_first p xs

  -- All rows that pass the test, in table order.
  abbrev pub select : (A → Bool) → List A → List A
  select p [] = []
  select p (x ∷ xs) = let rest = select p xs in if p x then x ∷ rest else rest

  -- One row test of `any`.
  abbrev pub any : (A → Bool) → List A → Bool
  any p [] = false
  any p (x ∷ xs) = if p x then true else any p xs

  abbrev pub update_where : (A → Bool) → (A → A) → List A → List A
  update_where p f [] = []
  update_where p f (x ∷ xs) = (if p x then f x else x) ∷ update_where p f xs

  abbrev pub All {κ} : (A → Type κ) → List A → Type κ
  All P [] = Unit
  All P (x ∷ xs) = P x × All P xs

  pub All-update_where {κ} :
      (P : A → Type κ) (p : A → Bool) (f : A → A) (xs : List A)
      → ((x : A) → P x → p x ≡ true → P (f x))
      → All P xs
      → All P (update_where p f xs)
  All-update_where P p f [] keep h = h
  All-update_where P p f (x ∷ xs) keep (px, pxs) = elim (Bool-cases (p x)) [
    | inl e ↦ (rw e (keep x px e), All-update_where P p f xs keep pxs)
    | inr e ↦ (rw e px, All-update_where P p f xs keep pxs)
  ]

  -- What holds of every row before gives what holds of every row after.
  pub All-update_both {κ} :
      (P Q : A → Type κ) (p : A → Bool) (f : A → A) (xs : List A)
      → ((x : A) → P x → p x ≡ true → Q (f x))
      → ((x : A) → P x → p x ≡ false → Q x)
      → All P xs
      → All Q (update_where p f xs)
  All-update_both P Q p f [] hit miss h = h
  All-update_both P Q p f (x ∷ xs) hit miss (px, pxs) = elim (Bool-cases (p x)) [
    | inl e ↦ (rw e (hit x px e), All-update_both P Q p f xs hit miss pxs)
    | inr e ↦ (rw e (miss x px e), All-update_both P Q p f xs hit miss pxs)
  ]

  pub All-imp {κ} : (P Q : A → Type κ) (xs : List A) → ((x : A) → P x → Q x) → All P xs → All Q xs
  All-imp P Q [] imp h = h
  All-imp P Q (x ∷ xs) imp (px, pxs) = (imp x px, All-imp P Q xs imp pxs)

  pub All-both {κ} :
      (P Q : A → Type κ) (xs : List A) → All P xs → All Q xs → All (λ x. P x × Q x) xs
  All-both P Q [] h k = tt
  All-both P Q (x ∷ xs) (px, pxs) (qx, qxs) = ((px, qx), All-both P Q xs pxs qxs)

  pub All-append {κ} : (P : A → Type κ) (xs ys : List A) → All P xs → All P ys → All P (xs ++ ys)
  All-append P [] ys hx hy = hy
  All-append P (x ∷ xs) ys hx hy = (hx.0, All-append P xs ys hx.1 hy)

  pub All-Unit : (xs : List A) → All (λ _. Unit {0}) xs
  All-Unit [] = tt
  All-Unit (x ∷ xs) = (tt, All-Unit xs)

  -- What `find_first` returns has passed the test, and satisfies what all rows do.
  pub All-find_first {κ} :
      (P : A → Type κ) (p : A → Bool) (xs : List A) (a : A)
      → All P xs
      → find_first p xs ≡ some a
      → P a × (p a ≡ true)
  All-find_first P p [] a h e = cc
  All-find_first P p (x ∷ xs) a h e = elim (Bool-cases (p x)) [
    | inl t ↦ subst (λ y. P y × (p y ≡ true)) (some_inj (rw t at e)) (h.0, t)
    | inr t ↦ All-find_first P p xs a h.1 (rw t at e)
  ]

  pub length-append : (xs ys : List A) → length (xs ++ ys) ≡ length xs + length ys
  length-append [] ys = omega arith
  length-append (x ∷ xs) ys = omega (arith, length-append xs ys)

  pub select-append :
      (p : A → Bool) (xs ys : List A) → select p (xs ++ ys) ≡ select p xs ++ select p ys
  select-append p [] ys = refl
  select-append p (x ∷ xs) ys = ground (arith, select-append p xs ys)

  -- No row passes the test exactly when the first one is not found.
  pub select_of_find_first :
      (p : A → Bool) (xs : List A) → find_first p xs ≡ none → select p xs ≡ []
  select_of_find_first p [] h = refl
  select_of_find_first p (x ∷ xs) h = ground (arith, select_of_find_first p xs)

  -- Writing over the rows that pass the test, where one does, leaves a first such row.
  pub find_first-update_where :
      (p : A → Bool) (a b : A) (xs : List A)
      → find_first p xs ≡ some a
      → p b ≡ true
      → find_first p (update_where p (λ _. b) xs) ≡ some b
  find_first-update_where p a b [] h pb = cc
  find_first-update_where p a b (x ∷ xs) h pb = ground (arith, find_first-update_where p a b xs)

  -- Updating the rows of a test in place, by what keeps the test.
  pub find_first-update_map :
      (p : A → Bool) (f : A → A) (xs : List A)
      → ((x : A) → p (f x) ≡ p x)
      → find_first p (update_where p f xs)
        ≡ elim (find_first p xs) [ none ↦ none | some x ↦ some (f x) ]
  find_first-update_map p f [] keep = refl
  find_first-update_map p f (x ∷ xs) keep = elim (Bool-cases (p x)) [
    | inl e ↦ rw (e, keep x, e)
    | inr e ↦ rw (e, e) (find_first-update_map p f xs keep)
  ]

  -- Updating rows that another test leaves out, before and after.
  pub find_first-update_apart :
      (p q : A → Bool) (f : A → A) (xs : List A)
      → ((x : A) → p x ≡ true → (q x ≡ false) × (q (f x) ≡ false))
      → find_first q (update_where p f xs) ≡ find_first q xs
  find_first-update_apart p q f [] apart = refl
  find_first-update_apart p q f (x ∷ xs) apart = elim (Bool-cases (p x)) [
    | inl e ↦ rw (e, (apart x e).0, (apart x e).1) (find_first-update_apart p q f xs apart)
    | inr e ↦ rw (e, find_first-update_apart p q f xs apart)
  ]

  pub find_first-append_apart :
      (q : A → Bool) (xs : List A) (a : A)
      → q a ≡ false
      → find_first q (xs ++ a ∷ []) ≡ find_first q xs
  find_first-append_apart q [] a h = rw h
  find_first-append_apart q (x ∷ xs) a h = rw (find_first-append_apart q xs a h)

  pub length-select-update_where :
      (p q : A → Bool) (f : A → A) (xs : List A)
      → ((x : A) → q (f x) ≡ q x)
      → length (select q (update_where p f xs)) ≡ length (select q xs)
  length-select-update_where p q f [] keep = refl
  length-select-update_where p q f (x ∷ xs) keep =
      ground (arith, keep x, length-select-update_where p q f xs keep)

  pub find_first_of_any : (p : A → Bool) (xs : List A) → any p xs ≡ is_some (find_first p xs)
  find_first_of_any p [] = refl
  find_first_of_any p (x ∷ xs) = ground (arith, find_first_of_any p xs)

  -- A weaker test finds a row too.
  pub find_first-weaken :
      (p q : A → Bool) (xs : List A) (a : A)
      → ((x : A) → p x ≡ true → q x ≡ true)
      → find_first p xs ≡ some a
      → (b : A) × (find_first q xs ≡ some b)
  find_first-weaken p q [] a h e = absurd (cc e)
  find_first-weaken p q (x ∷ xs) a h e = elim (Bool-cases (p x)) [
    | inl t ↦ (x, rw (h x t))
    | inr t ↦ elim (Bool-cases (q x)) [
      | inl u ↦ (x, rw u)
      | inr u ↦ rw u (find_first-weaken p q xs a h (rw t at e))
    ]
  ]

  pub find_first-append :
      (p : A → Bool) (xs : List A) (a : A)
      → find_first p xs ≡ none
      → p a ≡ true
      → find_first p (xs ++ a ∷ []) ≡ some a
  find_first-append p [] a h pa = rw pa
  find_first-append p (x ∷ xs) a h pa = ground (arith, find_first-append p xs a)

  pub any-append : (p : A → Bool) (xs ys : List A) → any p (xs ++ ys) ≡ (any p xs || any p ys)
  any-append p [] ys = refl
  any-append p (x ∷ xs) ys = ground (arith, any-append p xs ys)

  select_of_any : (p : A → Bool) (xs : List A) → any p xs ≡ false → select p xs ≡ []
  select_of_any p [] h = refl
  select_of_any p (x ∷ xs) h = ground (arith, select_of_any p xs)

  -- A row that is inserted where none passes the test of its constraint: any test that it passes
  -- is that test, so at most one row passes it still.
  pub length-select-insert :
      (p q : A → Bool) (a : A) (xs : List A)
      → any p xs ≡ false
      → (q a ≡ true → (x : A) → q x ≡ p x)
      → length (select q xs) ≤ 1
      → length (select q (xs ++ a ∷ [])) ≤ 1
  length-select-insert p q a xs fresh same h = elim (Bool-cases (q a)) [
    | inr e ↦ (let one : length (select q (a ∷ [])) ≡ 0 = rw e refl in omega (arith, split, one, h))
    | inl e ↦
        (let one : length (select q (a ∷ [])) ≡ 1 = rw e refl in
          let before : select q xs ≡ [] =
            ap (λ r. select r xs) (fun_ext (same e)) ∙ select_of_any p xs fresh in
          omega (arith, split, one, ap length before))
  ]
    where
      split : length (select q (xs ++ a ∷ [])) ≡ length (select q xs) + length (select q (a ∷ []))
      split =
          ap length (select-append q xs (a ∷ [])) ∙ length-append (select q xs) (select q (a ∷ []))

module _ {ℓ κ ι} {A : Type ℓ} {B : Type κ} where
  pub All-map :
      (P : A → Type ι) (Q : B → Type ι) (f : A → B) (xs : List A)
      → ((x : A) → P x → Q (f x))
      → All P xs
      → All Q (map f xs)
  All-map P Q f [] keep h = h
  All-map P Q f (x ∷ xs) keep (px, pxs) = (keep x px, All-map P Q f xs keep pxs)

  -- A table and what is made of it are related row by row.
  pub data Rowwise (R : A → B → Type ι) : List A → List B → Type (ℓ ⊔ κ ⊔ ι) where
    end : Rowwise R [] []
    row :
        {x : A} {y : B} {xs : List A} {ys : List B}
        → R x y
        → Rowwise R xs ys
        → Rowwise R (x ∷ xs) (y ∷ ys)

  pub Rowwise-map :
      (R : A → B → Type ι) (f : A → B) (xs : List A)
      → ((x : A) → R x (f x))
      → Rowwise R xs (map f xs)
  Rowwise-map R f [] h = end
  Rowwise-map R f (x ∷ xs) h = row (h x) (Rowwise-map R f xs h)
