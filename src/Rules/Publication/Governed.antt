-- ===== src/Rules/Publication/Governed.antt =====
-- One published version for each JD at most, and that it is the active one.
use smart_screen_agent.Prelude.{
  ℕ, ◌<◌, ◌≡◌, ◌≢◌, ap, subst, ◌∙◌, inl, inr, true, false, Option, some, List, [], ◌∷◌, arith,
  find_first, update_where, All, All-find_first, All-Unit, some_inj, is_some, ◌==◌, ==_iff,
  Bool-cases, if◌then◌else◌,
}
use smart_screen_agent.Rules.Publication.{draft, published, RuleVersion, Db, has_id}

-- A published version is the active one of its JD, and whatever is no draft has been evaluated and
-- stamped; `owner` tells the one version of an id.
pub record IsFine (owner : ℕ → RuleVersion) (active : ℕ → Option ℕ) (n : ℕ) (v : RuleVersion)
    : Type 0 where
  pub owned : owner v.id ≡ v
  pub below : v.id < n
  pub chosen : v.status ≡ published → active v.jd_id ≡ some v.id
  pub stamped : v.status ≢ draft → is_some v.published_at ≡ true
  pub measured : v.status ≢ draft → is_some v.golden_set_metrics ≡ true

-- What an active id stands for.
pub record IsActive (versions : List RuleVersion) (jd_id i : ℕ) : Type 0 where
  pub row : RuleVersion
  pub found : find_first (has_id i) versions ≡ some row
  pub is_published : row.status ≡ published
  pub of_jd : row.jd_id ≡ jd_id

pub record IsGoverned (db : Db) : Type 0 where
  pub owner : ℕ → RuleVersion
  pub fine : All (IsFine owner db.active db.next_id) db.versions
  pub active : (j i : ℕ) → db.active j ≡ some i → IsActive db.versions j i

abbrev pub updated : ℕ → (RuleVersion → RuleVersion) → (ℕ → RuleVersion) → ℕ → RuleVersion
updated i f owner k = if k == i then f (owner k) else owner k

module _ (i : ℕ) (f : RuleVersion → RuleVersion) (keep : (u : RuleVersion) → (f u).id ≡ u.id)
    (owner : ℕ → RuleVersion) (v : RuleVersion) (owned : owner v.id ≡ v) where
  pub owned_hit : has_id i v ≡ true → updated i f owner (f v).id ≡ f v
  owned_hit e = ap (updated i f owner) (keep v) ∙ rw e (ap f owned)

  pub owned_miss : has_id i v ≡ false → updated i f owner v.id ≡ v
  owned_miss e = rw e owned

-- Finding a version after an update that keeps ids.
pub find_updated :
    (i k : ℕ) (f : RuleVersion → RuleVersion) (versions : List RuleVersion) (v : RuleVersion)
    → ((u : RuleVersion) → (f u).id ≡ u.id)
    → find_first (has_id k) versions ≡ some v
    → find_first (has_id k) (update_where (has_id i) f versions)
      ≡ some (if has_id i v then f v else v)
find_updated i k f [] v keep h = absurd (cc h)
find_updated i k f (x ∷ xs) v keep h = elim (Bool-cases (has_id k x)) [
  | inl e ↦
      subst
        (λ u.
          find_first (has_id k) (update_where (has_id i) f (x ∷ xs))
          ≡ some (if has_id i u then f u else u))
        (some_inj (rw e at h)) (here e)
  | inr e ↦ missed e ∙ find_updated i k f xs v keep (rw e at h)
]
  where
    here :
        has_id k x ≡ true
        → find_first (has_id k) (update_where (has_id i) f (x ∷ xs))
          ≡ some (if has_id i x then f x else x)
    here e = ground (arith, keep x, e)

    missed :
        has_id k x ≡ false
        → find_first (has_id k) (update_where (has_id i) f (x ∷ xs))
          ≡ find_first (has_id k) (update_where (has_id i) f xs)
    missed e = ground (arith, keep x, e)

pub found_id :
    (k : ℕ) (versions : List RuleVersion) (v : RuleVersion)
    → find_first (has_id k) versions ≡ some v
    → v.id ≡ k
found_id k versions v h =
    (==_iff v.id k).0
      ((All-find_first (λ _. Unit {0}) (has_id k) versions v (All-Unit versions) h).1)

pub IsActive-update :
    (i : ℕ) (f : RuleVersion → RuleVersion) (versions : List RuleVersion) (j k : ℕ)
    → ((u : RuleVersion) → (f u).id ≡ u.id)
    → ((u : RuleVersion)
        → u.id ≡ k
        → u.status ≡ published
        → u.jd_id ≡ j
        → ((if has_id i u then f u else u).status ≡ published)
          × ((if has_id i u then f u else u).jd_id ≡ j))
    → IsActive versions j k
    → IsActive (update_where (has_id i) f versions) j k
IsActive-update i f versions j k keep good a =
    let (p, q) = good a.row (found_id k versions a.row a.found) a.is_published a.of_jd in
    record {
      row = if has_id i a.row then f a.row else a.row;
      found = find_updated i k f versions a.row keep a.found;
      is_published = p;
      of_jd = q;
    }

-- Another version is not touched.
pub IsActive-apart :
    (i : ℕ) (f : RuleVersion → RuleVersion) (versions : List RuleVersion) (j k : ℕ)
    → ((u : RuleVersion) → (f u).id ≡ u.id)
    → k ≢ i
    → IsActive versions j k
    → IsActive (update_where (has_id i) f versions) j k
IsActive-apart i f versions j k keep ne a =
    IsActive-update i f versions j k keep (λ u e p q. untouched u e p q) a
  where
    untouched :
        (u : RuleVersion)
        → u.id ≡ k
        → u.status ≡ published
        → u.jd_id ≡ j
        → ((if has_id i u then f u else u).status ≡ published)
          × ((if has_id i u then f u else u).jd_id ≡ j)
    untouched u e p q = ground arith
