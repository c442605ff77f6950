-- ===== src/Llm/Usage/Settled.antt =====
-- What holds of the ledger of attempts in every history.
use smart_screen_agent.Prelude.{
  ℕ, suc, ◌<◌, ◌≡◌, refl, sym, ◌∙◌, ap, String, Bool, true, false, Bool-cases, ◌⊎◌, inl, inr, some,
  List, [], ◌∷◌, ◌++◌, arith, find_first, update_where, length, select, any, All, All-append,
  All-update_where, All-imp, ◌==◌, ◌&&◌, is_some, some_inj, not, subst, ==_iff,
}
use smart_screen_agent.Llm.Pricing.{ModelPrice}
use smart_screen_agent.Llm.Usage.{
  LlmCallContext, AttemptRole, Terminal, Ledger, LlmUsageAttempt, is_pending, is_open, is_stale,
  settle, abandon, fresh, write, notify, updates_one, update_attempt, abandon_stale_attempts,
}
use smart_screen_agent.Llm.Usage.History.{Event, history, history_kept}

abbrev pub has_id : ℕ → LlmUsageAttempt → Bool
has_id i row = row.id == i

-- A found row stays found.
found-append :
    {A : Type 0} (q : A → Bool) (xs ys : List A) (a : A)
    → find_first q xs ≡ some a
    → find_first q (xs ++ ys) ≡ some a
found-append q [] ys a h = absurd (cc h)
found-append q (x ∷ xs) ys a h = ground (arith, found-append q xs ys a)

pub found-update_where :
    {A : Type 0} (q p : A → Bool) (f : A → A) (xs : List A) (a : A)
    → ((x : A) → q (f x) ≡ q x)
    → p a ≡ false
    → find_first q xs ≡ some a
    → find_first q (update_where p f xs) ≡ some a
found-update_where q p f [] a keep out h = absurd (cc h)
found-update_where q p f (x ∷ xs) a keep out h = elim (Bool-cases (q x)) [
  | inl e ↦ let same = some_inj (rw e at h) in rw (ap p same ∙ out, e) (ap some same)
  | inr e ↦ elim (Bool-cases (p x)) [
    | inl u ↦ rw (u, keep x, e) (found-update_where q p f xs a keep out (rw e at h))
    | inr u ↦ rw (u, e) (found-update_where q p f xs a keep out (rw e at h))
  ]
]

and_false : (b : Bool) → (b && false) ≡ false
and_false true = refl
and_false false = refl

pub shut_of_terminal :
    (j : ℕ) (row : LlmUsageAttempt) → is_pending row.status ≡ false → is_open j row ≡ false
shut_of_terminal j row done = ap (λ b. (row.id == j) && b) done ∙ and_false (row.id == j)

module _ (i : ℕ) (row : LlmUsageAttempt) (done : is_pending row.status ≡ false) where
  Has : Ledger → Type 0
  Has db = find_first (has_id i) db.attempts ≡ some row

  closed : (j : ℕ) → is_open j row ≡ false
  closed j = shut_of_terminal j row done

  -- A row that a call or the sweeper has made terminal is never changed again, whatever calls and
  -- sweeps follow and whichever of their statements fail or lose their acknowledgement.
  pub history-terminal :
      (prices : List (String × ModelPrice)) (es : List Event) (db : Ledger)
      → find_first (has_id i) db.attempts ≡ some row
      → find_first (has_id i) (history prices es db).attempts ≡ some row
  unfolding Has update_attempt abandon_stale_attempts
  history-terminal prices es db h =
      history_kept Has
        (λ context model role prompt now price db h. found-append (has_id i) db.attempts _ row h)
        (λ j t now db d h.
          found-update_where (has_id i) (is_open j) (settle t now) db.attempts row (λ _. refl)
            (closed j) h)
        (λ j t now db d e h.
          found-update_where (has_id i) (is_open j) (settle t now) db.attempts row (λ _. refl)
            (closed j) h)
        (λ now old db h.
          found-update_where (has_id i) (is_stale old) (abandon now) db.attempts row (λ _. refl)
            (rw done refl) h)
        prices es db h

-- The check constraint `ck_llm_usage_terminal_time`.
unfoldable pub IsTimed : LlmUsageAttempt → Type 0
IsTimed row = is_pending row.status ≡ not (is_some row.finished_at)

abbrev times : ℕ → List ℕ → ℕ
times i js = length (select (λ j. j == i) js)

-- An attempt has not been notified, or once, of a row that is terminal.
unfoldable pub IsNotifiedOnce : Ledger → ℕ → Type 0
IsNotifiedOnce db i =
    (times i db.notified ≡ 0)
    ⊎ ((times i db.notified ≡ 1) × (any (is_open i) db.attempts ≡ false) × i < db.next_id)

pub record IsConsistent (db : Ledger) : Type 0 where
  pub below : All (λ row. row.id < db.next_id) db.attempts
  pub timed : All IsTimed db.attempts
  pub once : (i : ℕ) → IsNotifiedOnce db i

any-append :
    {A : Type 0} (q : A → Bool) (xs ys : List A)
    → any q xs ≡ false
    → any q ys ≡ false
    → any q (xs ++ ys) ≡ false
any-append q [] ys h k = k
any-append q (x ∷ xs) ys h k = ground (arith, any-append q xs ys)

any-update_where :
    {A : Type 0} (q p : A → Bool) (f : A → A) (xs : List A)
    → ((x : A) → q (f x) ≡ false)
    → any q xs ≡ false
    → any q (update_where p f xs) ≡ false
any-update_where q p f [] shut h = refl
any-update_where q p f (x ∷ xs) shut h = ground (arith, shut x, any-update_where q p f xs shut)

any-update_own :
    {A : Type 0} (p : A → Bool) (f : A → A) (xs : List A)
    → ((x : A) → p (f x) ≡ false)
    → any p (update_where p f xs) ≡ false
any-update_own p f [] shut = refl
any-update_own p f (x ∷ xs) shut = ground (arith, shut x, any-update_own p f xs shut)

length-select_shut :
    {A : Type 0} (p : A → Bool) (xs : List A) → any p xs ≡ false → length (select p xs) ≡ 0
length-select_shut p [] h = refl
length-select_shut p (x ∷ xs) h = ground (arith, length-select_shut p xs)

below_of_open :
    (i n : ℕ) (rows : List LlmUsageAttempt)
    → length (select (is_open i) rows) ≡ 1
    → All (λ row. row.id < n) rows
    → i < n
below_of_open i n [] h b = omega (arith, h)
below_of_open i n (row ∷ rows) h b = elim (Bool-cases (row.id == i)) [
  | inl e ↦ subst (λ k. k < n) ((==_iff row.id i).0 e) b.0
  | inr e ↦ below_of_open i n rows (rw e at h) b.1
]

settle_shut :
    (i j : ℕ) (t : Terminal) (now : ℕ) (row : LlmUsageAttempt)
    → is_pending t.status ≡ false
    → is_open i (settle t now row) ≡ false
settle_shut i j t now row done = shut_of_terminal i (settle t now row) done

update_attempt-once :
    (i j : ℕ) (t : Terminal) (now : ℕ) (db : Ledger)
    → is_pending t.status ≡ false
    → IsNotifiedOnce db i
    → IsNotifiedOnce (update_attempt j t now db) i
unfolding IsNotifiedOnce update_attempt
update_attempt-once i j t now db done (inl never) = inl never
update_attempt-once i j t now db done (inr (one, shut, below)) = inr (
  one,
  any-update_where (is_open i) (is_open j) (settle t now) db.attempts
      (λ row. settle_shut i j t now row done) shut,
  below,
)

times_own : (i : ℕ) (js : List ℕ) → times i (i ∷ js) ≡ suc (times i js)
times_own i js = ground arith

times_other : (i j : ℕ) (js : List ℕ) → (j == i) ≡ false → times i (j ∷ js) ≡ times i js
times_other i j js e = rw e

-- A message of an attempt that was pending is its first.
notify-once_own :
    (i : ℕ) (t : Terminal) (now : ℕ) (db : Ledger)
    → is_pending t.status ≡ false
    → updates_one i db ≡ true
    → All (λ row. row.id < db.next_id) db.attempts
    → IsNotifiedOnce db i
    → IsNotifiedOnce (notify true i (update_attempt i t now db)) i
unfolding IsNotifiedOnce update_attempt
notify-once_own i t now db done e below (inl never) = inr (
  times_own i db.notified ∙ ap suc never,
  any-update_own (is_open i) (settle t now) db.attempts (λ row. settle_shut i i t now row done),
  below_of_open i db.next_id db.attempts ((==_iff (length (select (is_open i) db.attempts)) 1).0 e)
      below,
)
notify-once_own i t now db done e below (inr (one, shut, _)) = absurd (
    omega (
      arith,
      (==_iff (length (select (is_open i) db.attempts)) 1).0 e,
      length-select_shut (is_open i) db.attempts shut,
    ))

notify-once :
    (i j : ℕ) (t : Terminal) (now : ℕ) (db : Ledger)
    → is_pending t.status ≡ false
    → updates_one j db ≡ true
    → All (λ row. row.id < db.next_id) db.attempts
    → IsNotifiedOnce db i
    → IsNotifiedOnce (notify true j (update_attempt j t now db)) i
unfolding IsNotifiedOnce update_attempt
notify-once i j t now db done e below h = elim (Bool-cases (j == i)) [
  | inl same ↦
      subst (λ k. IsNotifiedOnce (notify true k (update_attempt k t now db)) i)
        (sym ((==_iff j i).0 same))
        (notify-once_own i t now db done
          (subst (λ k. updates_one k db ≡ true) ((==_iff j i).0 same) e) below h)
  | inr other ↦
      subst
        (λ n.
          (n ≡ 0)
          ⊎ ((n ≡ 1)
              × (any (is_open i) (update_attempt j t now db).attempts ≡ false)
              × i < db.next_id))
        (sym (times_other i j db.notified other)) (update_attempt-once i j t now db done h)
]

write-once :
    (context : LlmCallContext) (model : String) (role : AttemptRole) (prompt : String) (now : ℕ)
    (price : ModelPrice) (i : ℕ) (db : Ledger)
    → IsNotifiedOnce db i
    → IsNotifiedOnce (write (fresh context model role prompt now db.next_id price) db) i
unfolding IsNotifiedOnce
write-once context model role prompt now price i db (inl never) = inl never
write-once context model role prompt now price i db (inr (one, shut, below)) =
    let other : (db.next_id == i) ≡ false = ground arith in
    inr (one, any-append (is_open i) db.attempts _ shut (rw other refl), omega arith)

abandon-once :
    (now older_than i : ℕ) (db : Ledger)
    → IsNotifiedOnce db i
    → IsNotifiedOnce (abandon_stale_attempts now older_than db).1 i
unfolding IsNotifiedOnce abandon_stale_attempts
abandon-once now older_than i db (inl never) = inl never
abandon-once now older_than i db (inr (one, shut, below)) = inr (
  one,
  any-update_where (is_open i) (is_stale older_than) (abandon now) db.attempts
      (λ row. and_false (row.id == i)) shut,
  below,
)

write-IsConsistent :
    (context : LlmCallContext) (model : String) (role : AttemptRole) (prompt : String) (now : ℕ)
    (price : ModelPrice) (db : Ledger)
    → IsConsistent db
    → IsConsistent (write (fresh context model role prompt now db.next_id price) db)
unfolding IsTimed
write-IsConsistent context model role prompt now price db h = record {
  below =
      All-append (λ row. row.id < suc db.next_id) db.attempts _
        (All-imp (λ row. row.id < db.next_id) (λ row. row.id < suc db.next_id) db.attempts
          (λ row lt. omega arith) h.below)
        (omega arith, tt);
  timed = All-append IsTimed db.attempts _ h.timed (refl, tt);
  once = λ i. write-once context model role prompt now price i db (h.once i);
}

update_attempt-below :
    (i : ℕ) (t : Terminal) (now : ℕ) (db : Ledger)
    → IsConsistent db
    → All (λ row. row.id < db.next_id) (update_attempt i t now db).attempts
unfolding update_attempt
update_attempt-below i t now db h =
    All-update_where (λ row. row.id < db.next_id) (is_open i) (settle t now) db.attempts
      (λ row lt p. lt) h.below

update_attempt-IsTimed :
    (i : ℕ) (t : Terminal) (now : ℕ) (db : Ledger)
    → is_pending t.status ≡ false
    → IsConsistent db
    → All IsTimed (update_attempt i t now db).attempts
unfolding update_attempt IsTimed
update_attempt-IsTimed i t now db done h =
    All-update_where IsTimed (is_open i) (settle t now) db.attempts (λ row timed p. done) h.timed

update_attempt-IsConsistent :
    (i : ℕ) (t : Terminal) (now : ℕ) (db : Ledger)
    → is_pending t.status ≡ false
    → IsConsistent db
    → IsConsistent (update_attempt i t now db)
unfolding update_attempt
update_attempt-IsConsistent i t now db done h = record {
  below = update_attempt-below i t now db h;
  timed = update_attempt-IsTimed i t now db done h;
  once = λ j. update_attempt-once j i t now db done (h.once j);
}

notify-IsConsistent :
    (i : ℕ) (t : Terminal) (now : ℕ) (db : Ledger)
    → is_pending t.status ≡ false
    → updates_one i db ≡ true
    → IsConsistent db
    → IsConsistent (notify true i (update_attempt i t now db))
unfolding update_attempt
notify-IsConsistent i t now db done e h = record {
  below = update_attempt-below i t now db h;
  timed = update_attempt-IsTimed i t now db done h;
  once = λ j. notify-once j i t now db done e h.below (h.once j);
}

abandon-IsConsistent :
    (now older_than : ℕ) (db : Ledger)
    → IsConsistent db
    → IsConsistent (abandon_stale_attempts now older_than db).1
unfolding abandon_stale_attempts IsTimed
abandon-IsConsistent now older_than db h = record {
  below =
      All-update_where (λ row. row.id < db.next_id) (is_stale older_than) (abandon now) db.attempts
        (λ row lt p. lt) h.below;
  timed =
      All-update_where IsTimed (is_stale older_than) (abandon now) db.attempts (λ row timed p. refl)
        h.timed;
  once = λ i. abandon-once now older_than i db (h.once i);
}

abbrev pub no_attempts : ℕ → Ledger
no_attempts n = record { attempts = []; next_id = n; notified = [] }

-- In every history from an empty ledger on, whichever statements fail and whichever
-- acknowledgements are lost: a row is pending exactly while it has no finishing time, and the
-- budget evaluation is asked for at most once for an attempt, of a row that is terminal.
pub history-IsConsistent :
    (prices : List (String × ModelPrice)) (es : List Event) (n : ℕ)
    → IsConsistent (history prices es (no_attempts n))
unfolding IsNotifiedOnce
history-IsConsistent prices es n =
    history_kept IsConsistent write-IsConsistent update_attempt-IsConsistent notify-IsConsistent
      abandon-IsConsistent prices es (no_attempts n)
      (record { below = tt; timed = tt; once = λ i. inl refl })
