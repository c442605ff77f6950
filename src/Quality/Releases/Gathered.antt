-- ===== src/Quality/Releases/Gathered.antt =====
-- backend/app/services/quality/releases.py: the window and the labels that a release is computed from.
use smart_screen_agent.Prelude.{
  ==_iff, All-find_first, sym, ◌∙◌, All-Unit, Rowwise, find_first, String, ℕ, ◌-◌, ◌<◌, ◌≤◌, ◌≡◌,
  refl, ap, true, Option, none, some, List, [], ◌∷◌, map, any, select, ◌==◌, ok, ok_inj, bind_ok,
  if◌then◌else◌, arith,
}
use mathlib.Core.Path.{fun_ext}
use smart_screen_agent.Quality.Releases.{
  Jd, RuleVersion, selected_jds, with_dimensions, with_row, bind_jd, bind_all, bind_some, Db, Given,
  ReleaseRequest, GatheredRelease, GoldenRow, JdBinding, Moment, Bound, end_or_now,
  start_or_default, check_window, resolve_release_window, gather_rows, golden_of, resolve_bindings,
  gather,
}

-- The end that is asked for, or now.
abbrev pub EndsAt : ℕ → Option Moment → ℕ → Type 0
EndsAt now none end = end ≡ now
EndsAt now (some m) end = end ≡ m.at

-- The start that is asked for, or thirty days before the end.
abbrev pub BeginsAt : ℕ → Option Moment → ℕ → Type 0
BeginsAt end none start = start ≡ end - 2592000000000
BeginsAt end (some m) start = start ≡ m.at

-- A window as the request has it, not empty, not in the future, and of at most 365 days.
pub record IsWindow (request : ReleaseRequest) (now start end : ℕ) : Type 0 where
  pub ends : EndsAt now request.window_end end
  pub begins : BeginsAt end request.window_start start
  pub increasing : start < end
  pub past : end ≤ now
  pub bounded : end - start ≤ 31536000000000

check_window_ok :
    (now : ℕ) (s e : Moment) (w : ℕ × ℕ)
    → check_window now s e ≡ ok w
    → (w.0 ≡ s.at) × (w.1 ≡ e.at) × (s.at < e.at) × (e.at ≤ now) × (e.at - s.at ≤ 31536000000000)
check_window_ok now s e w h = ground arith

-- A binding of a JD: to its active rule version.
abbrev pub Binds : Jd → JdBinding → Type 0
Binds jd b = (b.jd_id ≡ jd.id) × (jd.active_rule_version_id ≡ some b.rule_version_id)

-- The release was read over its window, for the JDs that are asked for, or have
-- labels if none are, with their labels.
pub record IsRead (request : ReleaseRequest) (now : ℕ) (db : Db) (x : GatheredRelease)
    : Type 0 where
  pub window : IsWindow request now x.window_start x.window_end
  pub bound : Rowwise Binds (selected_jds request.jd_codes db) x.bindings
  pub labels : x.golden_rows ≡ select (λ row. any (λ b. row.jd_id == b.jd_id) x.bindings) db.golden

resolved_ends : (now : ℕ) (end : Option Moment) → EndsAt now end (end_or_now now end).at
resolved_ends now none = refl
resolved_ends now (some m) = refl

resolved_begins :
    (end : Moment) (start : Option Moment) → BeginsAt end.at start (start_or_default end start).at
resolved_begins end none = refl
resolved_begins end (some m) = refl

resolve_release_window-IsWindow :
    (request : ReleaseRequest) (now : ℕ) (w : ℕ × ℕ)
    → resolve_release_window request.window_start request.window_end now ≡ ok w
    → IsWindow request now w.0 w.1
unfolding resolve_release_window
resolve_release_window-IsWindow request now w h =
    let end = end_or_now now request.window_end in
    let start = start_or_default end request.window_start in
    let c = check_window_ok now start end w h in
    rw (c.0, c.1)
      (record {
        ends = resolved_ends now request.window_end;
        begins = resolved_begins end request.window_start;
        increasing = c.2;
        past = c.3;
        bounded = c.4;
      })

any_bound :
    (row : GoldenRow) (bound : List Bound)
    → any (λ b. row.jd_id == b.0.jd_id) bound
      ≡ any (λ (b : JdBinding). row.jd_id == b.jd_id) (map (λ b. b.0) bound)
any_bound row [] = refl
any_bound row (b ∷ bound) =
    ap (λ t. if row.jd_id == b.0.jd_id then true else t) (any_bound row bound)

with_dimensions-Binds :
    (jd : Jd) (i : ℕ) (dims : Option (List (String × ℕ))) (b : Bound)
    → jd.active_rule_version_id ≡ some i
    → with_dimensions jd i dims ≡ ok b
    → Binds jd b.0
with_dimensions-Binds jd i none b e h = absurd (cc h)
with_dimensions-Binds jd i (some dims) b e h = rw (← ok_inj h) (refl, e)

with_row-Binds :
    (db : Db) (jd : Jd) (i : ℕ) (o : Option RuleVersion) (b : Bound)
    → find_first (λ v. v.id == i) db.versions ≡ o
    → jd.active_rule_version_id ≡ some i
    → with_row jd o ≡ ok b
    → Binds jd b.0
with_row-Binds db jd i none b f e h = absurd (cc h)
with_row-Binds db jd i (some v) b f e h =
    with_dimensions-Binds jd v.id v.judge_dimensions b (e ∙ ap some (sym found)) h
  where
    found : v.id ≡ i
    found =
        (==_iff v.id i).0
          (All-find_first (λ _. Unit) (λ w. w.id == i) db.versions v (All-Unit db.versions) f).1

bind_jd-Binds :
    (db : Db) (jd : Jd) (o : Option ℕ) (b : Bound)
    → jd.active_rule_version_id ≡ o
    → bind_jd db jd o ≡ ok b
    → Binds jd b.0
bind_jd-Binds db jd none b e h = absurd (cc h)
bind_jd-Binds db jd (some i) b e h =
    with_row-Binds db jd i (find_first (λ v. v.id == i) db.versions) b refl e h

bind_all-Binds :
    (db : Db) (jds : List Jd) (bound : List Bound)
    → bind_all db jds ≡ ok bound
    → Rowwise Binds jds (map (λ b. b.0) bound)
unfolding bind_all
bind_all-Binds db [] bound h = rw (← ok_inj h) Rowwise.end
bind_all-Binds db (jd ∷ jds) bound h =
    let (b, e, h') = bind_ok (bind_jd db jd jd.active_rule_version_id) _ bound h in
    let (rest, e', h'') = bind_ok (bind_all db jds) (λ rest. ok (b ∷ rest)) bound h' in
    rw (← ok_inj h'') (
      Rowwise.row (bind_jd-Binds db jd jd.active_rule_version_id b refl e)
        (bind_all-Binds db jds rest e'))

bind_some-Binds :
    (db : Db) (jds : List Jd) (bound : List Bound)
    → bind_some db jds ≡ ok bound
    → Rowwise Binds jds (map (λ b. b.0) bound)
bind_some-Binds db [] bound h = absurd (cc h)
bind_some-Binds db (jd ∷ jds) bound h = bind_all-Binds db (jd ∷ jds) bound h

gather_rows-IsRead :
    (g : Given) (request : ReleaseRequest) (now : ℕ) (db : Db) (w : ℕ × ℕ) (bound : List Bound)
    (rows : List GoldenRow) (x : GatheredRelease)
    → IsWindow request now w.0 w.1
    → Rowwise Binds (selected_jds request.jd_codes db) (map (λ b. b.0) bound)
    → rows
      ≡ select
          (λ row. any (λ (b : JdBinding). row.jd_id == b.jd_id) (map (λ b. b.0) bound))
          db.golden
    → gather_rows g db w bound rows ≡ ok x
    → IsRead request now db x
gather_rows-IsRead g request now db w bound [] x win bs e h = absurd (cc h)
gather_rows-IsRead g request now db (s, t) bound (row ∷ rows) x win bs e h =
    rw (← ok_inj h) (record { window = win; bound = bs; labels = e })

pub gather-IsRead :
    (g : Given) (request : ReleaseRequest) (now : ℕ) (db : Db) (x : GatheredRelease)
    → gather g request now db ≡ ok x
    → IsRead request now db x
unfolding gather resolve_bindings
gather-IsRead g request now db x h =
    let (w, e, h') = bind_ok _ _ _ h in
    let (bound, e', h'') =
      bind_ok (resolve_bindings request.jd_codes db)
        (λ b. gather_rows g db w b (golden_of b db.golden)) x h' in
    gather_rows-IsRead g request now db w bound (golden_of bound db.golden) x
      (resolve_release_window-IsWindow request now w e)
      (bind_some-Binds db (selected_jds request.jd_codes db) bound e')
      (ap (λ p. select p db.golden) (fun_ext λ row. any_bound row bound)) h''
