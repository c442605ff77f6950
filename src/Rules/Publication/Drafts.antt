-- ===== src/Rules/Publication/Drafts.antt =====
-- Creating and evaluating drafts keeps the published versions as they are.
use smart_screen_agent.Prelude.{
  ℕ, suc, ◌≡◌, refl, inl, inr, String, true, false, Option, none, some, List, [], ◌∷◌, ◌++◌, arith,
  any, find_first, update_where, All, All-update_both, All-imp, All-append, ◌==◌, Bool-cases,
  if◌then◌else◌,
}
use smart_screen_agent.Scoring.Pipeline.{RuleSchema}
use smart_screen_agent.Rules.WhatIf.{Readers, Metrics, ScoredLabel, draft_metrics}
use smart_screen_agent.Rules.Publication.{
  published, is_draft, RuleVersion, Db, has_id, is_version, new_draft, insert_draft, create_draft,
  with_metrics, save_metrics, evaluate_draft,
}
use smart_screen_agent.Rules.Publication.Governed.{
  IsFine, IsActive, IsGoverned, updated, owned_hit, owned_miss, IsActive-update,
}

module _ (i : ℕ) (owner : ℕ → RuleVersion) (active : ℕ → Option ℕ) (n : ℕ) (metrics : Metrics) where
  with_metrics_hit :
      (v : RuleVersion)
      → IsFine owner active n v
      → has_id i v ≡ true
      → IsFine (updated i (with_metrics metrics) owner) active n (with_metrics metrics v)
  with_metrics_hit v h e = record {
    owned = owned_hit i (with_metrics metrics) (λ u. refl) owner v h.owned e;
    below = h.below;
    chosen = h.chosen;
    stamped = h.stamped;
    measured = λ _. refl;
  }

  with_metrics_miss :
      (v : RuleVersion)
      → IsFine owner active n v
      → has_id i v ≡ false
      → IsFine (updated i (with_metrics metrics) owner) active n v
  with_metrics_miss v h e = record {
    owned = owned_miss i (with_metrics metrics) (λ u. refl) owner v h.owned e;
    below = h.below;
    chosen = h.chosen;
    stamped = h.stamped;
    measured = h.measured;
  }

-- Recording metrics, on whatever version.
save_metrics-IsGoverned :
    (i : ℕ) (o : Option Metrics) (db : Db) → IsGoverned db → IsGoverned (save_metrics i o db).1
save_metrics-IsGoverned i none db h = h
save_metrics-IsGoverned i (some metrics) db h = record {
  owner = updated i (with_metrics metrics) h.owner;
  fine =
      All-update_both (IsFine h.owner db.active db.next_id)
        (IsFine (updated i (with_metrics metrics) h.owner) db.active db.next_id) (has_id i)
        (with_metrics metrics) db.versions (with_metrics_hit i h.owner db.active db.next_id metrics)
        (with_metrics_miss i h.owner db.active db.next_id metrics) h.fine;
  active = λ j k e. kept j k (h.active j k e);
}
  where
    kept :
        (j k : ℕ)
        → IsActive db.versions j k
        → IsActive (update_where (has_id i) (with_metrics metrics) db.versions) j k
    kept j k a =
        IsActive-update i (with_metrics metrics) db.versions j k (λ u. refl) (λ u e p q. same u p q)
          a
      where
        same :
            (u : RuleVersion)
            → u.status ≡ published
            → u.jd_id ≡ j
            → ((if has_id i u then with_metrics metrics u else u).status ≡ published)
              × ((if has_id i u then with_metrics metrics u else u).jd_id ≡ j)
        same u p q = ground arith

pub evaluate_draft-IsGoverned :
    (r : Readers) (seen : RuleVersion) (labels : List String) (rows : List ScoredLabel) (db : Db)
    → IsGoverned db
    → IsGoverned (evaluate_draft r seen labels rows db).1
unfolding evaluate_draft
evaluate_draft-IsGoverned r seen labels rows db h = elim (Bool-cases (is_draft seen.status)) [
  | inl e ↦ rw e (save_metrics-IsGoverned seen.id (draft_metrics r seen.schema labels rows) db h)
  | inr e ↦ rw e h
]

found_stays :
    (k : ℕ) (versions : List RuleVersion) (v w : RuleVersion)
    → find_first (has_id k) versions ≡ some v
    → find_first (has_id k) (versions ++ w ∷ []) ≡ some v
found_stays k [] v w h = absurd (cc h)
found_stays k (x ∷ xs) v w h = ground (arith, found_stays k xs v w)

abbrev owner_with : RuleVersion → (ℕ → RuleVersion) → ℕ → RuleVersion
owner_with new owner i = if i == new.id then new else owner i

older-IsFine :
    (new : RuleVersion) (owner : ℕ → RuleVersion) (active : ℕ → Option ℕ) (v : RuleVersion)
    → IsFine owner active new.id v
    → IsFine (owner_with new owner) active (suc new.id) v
older-IsFine new owner active v h =
    let other : (v.id == new.id) ≡ false = ground (arith, h.below) in
    record {
      owned = rw other h.owned;
      below = omega (arith, h.below);
      chosen = h.chosen;
      stamped = h.stamped;
      measured = h.measured;
    }

new_draft-IsFine :
    (owner : ℕ → RuleVersion) (active : ℕ → Option ℕ) (n jd_id : ℕ) (version : String)
    (schema : RuleSchema) (notes : Option String)
    → IsFine
        (owner_with (new_draft n jd_id version schema notes) owner)
        active
        (suc n)
        (new_draft n jd_id version schema notes)
new_draft-IsFine owner active n jd_id version schema notes =
    let itself : (n == n) ≡ true = ground arith in
    record {
      owned = rw itself refl;
      below = omega arith;
      chosen = λ p. absurd (cc p);
      stamped = λ p. absurd (p refl);
      measured = λ p. absurd (p refl);
    }

insert_draft-IsGoverned :
    (jd_id : ℕ) (version : String) (schema : RuleSchema) (notes : Option String) (db : Db)
    → IsGoverned db
    → IsGoverned (insert_draft jd_id version schema notes db).1
insert_draft-IsGoverned jd_id version schema notes db h =
    elim (Bool-cases (any (is_version jd_id version) db.versions)) [
      | inl e ↦ rw e (record { owner = owner_with new h.owner; fine = older; active = h.active })
      | inr e ↦ rw e (record {
        owner = owner_with new h.owner;
        fine =
            All-append (IsFine (owner_with new h.owner) db.active (suc db.next_id)) db.versions
              (new ∷ []) older
              (new_draft-IsFine h.owner db.active db.next_id jd_id version schema notes, tt);
        active = λ j i a. stays j i (h.active j i a);
      })
    ]
  where
    new : RuleVersion
    new = new_draft db.next_id jd_id version schema notes

    older : All (IsFine (owner_with new h.owner) db.active (suc db.next_id)) db.versions
    older =
        All-imp (IsFine h.owner db.active db.next_id)
          (IsFine (owner_with new h.owner) db.active (suc db.next_id)) db.versions
          (older-IsFine new h.owner db.active) h.fine

    stays : (j i : ℕ) → IsActive db.versions j i → IsActive (db.versions ++ new ∷ []) j i
    stays j i a = record {
      row = a.row;
      found = found_stays i db.versions a.row new a.found;
      is_published = a.is_published;
      of_jd = a.of_jd;
    }

pub create_draft-IsGoverned :
    (jd_id : ℕ) (schema : Option (String × RuleSchema)) (notes : Option String) (seen db : Db)
    → IsGoverned db
    → IsGoverned (create_draft jd_id schema notes seen db).1
unfolding create_draft
create_draft-IsGoverned jd_id none notes seen db h = h
create_draft-IsGoverned jd_id (some (version, schema)) notes seen db h =
    elim (Bool-cases (any (is_version jd_id version) seen.versions)) [
      | inl e ↦ rw e h
      | inr e ↦ rw e (insert_draft-IsGoverned jd_id version schema notes db h)
    ]
