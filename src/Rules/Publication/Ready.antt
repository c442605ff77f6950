-- ===== src/Rules/Publication/Ready.antt =====
-- The versions of a JD once the one before is archived, and once the draft is published.
use smart_screen_agent.Prelude.{
  ℕ, ◌<◌, ◌≡◌, ◌≢◌, refl, sym, ap, ◌∙◌, true, false, Option, none, some, arith, some_inj, is_some,
  ◌==◌, ==_iff, if◌then◌else◌,
}
use smart_screen_agent.Rules.Publication.{draft, published, RuleVersion, has_id, archive, publish}
use smart_screen_agent.Rules.Publication.Governed.{IsFine, updated, owned_hit, owned_miss}

-- A version once the previous one of the JD is archived.
pub record IsReady (owner : ℕ → RuleVersion) (active : ℕ → Option ℕ) (n jd_id : ℕ) (v : RuleVersion)
    : Type 0 where
  pub owned : owner v.id ≡ v
  pub below : v.id < n
  pub chosen : v.status ≡ published → (v.jd_id ≢ jd_id) × (active v.jd_id ≡ some v.id)
  pub stamped : v.status ≢ draft → is_some v.published_at ≡ true
  pub measured : v.status ≢ draft → is_some v.golden_set_metrics ≡ true

module _ (owner : ℕ → RuleVersion) (active : ℕ → Option ℕ) (n jd_id : ℕ) where
  pub IsReady-without :
      active jd_id ≡ none
      → (v : RuleVersion) → IsFine owner active n v
      → IsReady owner active n jd_id v
  IsReady-without e v f = record {
    owned = f.owned;
    below = f.below;
    stamped = f.stamped;
    measured = f.measured;
    chosen = λ p. (λ same. cc (sym e ∙ ap active (sym same) ∙ f.chosen p), f.chosen p);
  }

  -- The active version is no draft, so its stamps stay.
  pub IsReady-archived :
      (i : ℕ) (row v : RuleVersion)
      → owner i ≡ row
      → row.status ≡ published
      → IsFine owner active n v
      → has_id i v ≡ true
      → IsReady (updated i archive owner) active n jd_id (archive v)
  IsReady-archived i row v the is_published f hit =
      let same : v ≡ row = sym f.owned ∙ ap owner ((==_iff v.id i).0 hit) ∙ the in
      let old : v.status ≢ draft = λ e. cc (sym e ∙ ap (λ u. u.status) same ∙ is_published) in
      record {
        owned = owned_hit i archive (λ u. refl) owner v f.owned hit;
        below = f.below;
        stamped = λ _. f.stamped old;
        measured = λ _. f.measured old;
        chosen = λ p. absurd (cc p);
      }

  pub IsReady-other :
      (i : ℕ) (v : RuleVersion)
      → active jd_id ≡ some i
      → IsFine owner active n v
      → has_id i v ≡ false
      → IsReady (updated i archive owner) active n jd_id v
  IsReady-other i v e f other = record {
    owned = owned_miss i archive (λ u. refl) owner v f.owned other;
    below = f.below;
    stamped = f.stamped;
    measured = f.measured;
    chosen = λ p. (
      λ same.
          absurd
            (cc (sym other ∙ (==_iff v.id i).1 (some_inj (sym (f.chosen p) ∙ ap active same ∙ e)))),
      f.chosen p,
    );
  }

  pub published-IsFine :
      (now publisher : ℕ) (v w : RuleVersion)
      → owner v.id ≡ v
      → v.jd_id ≡ jd_id
      → is_some v.golden_set_metrics ≡ true
      → IsReady owner active n jd_id w
      → has_id v.id w ≡ true
      → IsFine
          (updated v.id (publish now publisher) owner)
          (λ j. if j == jd_id then some v.id else active j)
          n
          (publish now publisher w)
  published-IsFine now publisher v w the of_jd measured r hit =
      let same_id = (==_iff w.id v.id).0 hit in
      let same : w ≡ v = sym r.owned ∙ ap owner same_id ∙ the in
      let here : (w.jd_id == jd_id) ≡ true =
        (==_iff w.jd_id jd_id).1 (ap (λ u. u.jd_id) same ∙ of_jd) in
      record {
        owned = owned_hit v.id (publish now publisher) (λ u. refl) owner w r.owned hit;
        below = r.below;
        chosen = λ _. rw here (ap some (sym same_id));
        stamped = λ _. refl;
        measured = λ _. ap (λ u. is_some u.golden_set_metrics) same ∙ measured;
      }

  pub other-IsFine :
      (now publisher i : ℕ) (w : RuleVersion)
      → IsReady owner active n jd_id w
      → has_id i w ≡ false
      → IsFine
          (updated i (publish now publisher) owner)
          (λ j. if j == jd_id then some i else active j)
          n
          w
  other-IsFine now publisher i w r miss = record {
    owned = owned_miss i (publish now publisher) (λ u. refl) owner w r.owned miss;
    below = r.below;
    stamped = r.stamped;
    measured = r.measured;
    chosen = λ p. apart (r.chosen p).0 (r.chosen p).1;
  }
    where
      apart :
          w.jd_id ≢ jd_id
          → active w.jd_id ≡ some w.id
          → (if w.jd_id == jd_id then some i else active w.jd_id) ≡ some w.id
      apart ne e = ground (arith, ne, e)
