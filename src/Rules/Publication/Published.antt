-- ===== src/Rules/Publication/Published.antt =====
-- Publishing a draft archives the version before it.
use smart_screen_agent.Prelude.{
  ℕ, ◌≡◌, ◌≢◌, refl, sym, ap, subst, ◌∙◌, inl, inr, String, true, false, Option, none, some, List,
  arith, find_first, update_where, All, All-update_both, All-imp, All-find_first, some_inj, is_some,
  ◌==◌, ==_iff, Bool-cases, if◌then◌else◌,
}
use smart_screen_agent.Rules.Publication.{
  Status, draft, published, archived, is_draft, RuleVersion, Db, has_id, is_version, archive,
  publish, archive_previous, published_db, publish_locked, publish_draft, publish_found,
  publish_version,
}
use smart_screen_agent.Rules.Publication.Governed.{
  IsFine, IsActive, IsGoverned, updated, owned_miss, find_updated, found_id, IsActive-apart,
}
use smart_screen_agent.Rules.Publication.Ready.{
  IsReady, IsReady-without, IsReady-archived, IsReady-other, published-IsFine, other-IsFine,
}

is_draft→draft : (s : Status) → is_draft s ≡ true → s ≡ draft
is_draft→draft draft e = refl
is_draft→draft published e = absurd (cc e)
is_draft→draft archived e = absurd (cc e)

-- Publishing a measured draft of the JD.
module _ (jd_id now publisher : ℕ) (db : Db) (h : IsGoverned db) (v : RuleVersion)
    (found : find_first (has_id v.id) db.versions ≡ some v) (is_new : v.status ≡ draft)
    (measured : is_some v.golden_set_metrics ≡ true) (of_jd : v.jd_id ≡ jd_id) where
  -- The draft is not what any JD has for active.
  not_active : (j i : ℕ) → db.active j ≡ some i → v.id ≢ i
  not_active j i e same =
      let a = h.active j i e in
      let is_row : v ≡ a.row =
        some_inj
          (sym (subst (λ k. find_first (has_id k) db.versions ≡ some v) same found) ∙ a.found) in
      cc (sym is_new ∙ ap (λ u. u.status) is_row ∙ a.is_published)

  this : IsFine h.owner db.active db.next_id v
  this =
      (All-find_first (IsFine h.owner db.active db.next_id) (has_id v.id) db.versions v h.fine
        found).0

  -- The table once the previous version is archived.
  record Archived (versions : List RuleVersion) : Type 0 where
    owner : ℕ → RuleVersion
    ready : All (IsReady owner db.active db.next_id jd_id) versions
    the : owner v.id ≡ v
    there : find_first (has_id v.id) versions ≡ some v
    others : (j i : ℕ) → j ≢ jd_id → db.active j ≡ some i → IsActive versions j i

  Archived-none : db.active jd_id ≡ none → Archived db.versions
  Archived-none e = record {
    owner = h.owner;
    ready =
        All-imp (IsFine h.owner db.active db.next_id) (IsReady h.owner db.active db.next_id jd_id)
          db.versions (IsReady-without h.owner db.active db.next_id jd_id e) h.fine;
    the = this.owned;
    there = found;
    others = λ j i ne a. h.active j i a;
  }

  Archived-some :
      (p : ℕ) → db.active jd_id ≡ some p → Archived (update_where (has_id p) archive db.versions)
  Archived-some p e = record {
    owner = updated p archive h.owner;
    ready =
        All-update_both (IsFine h.owner db.active db.next_id)
          (IsReady (updated p archive h.owner) db.active db.next_id jd_id) (has_id p) archive
          db.versions
          (λ u f hit.
            IsReady-archived h.owner db.active db.next_id jd_id p a.row u owns a.is_published f hit)
          (λ u f miss. IsReady-other h.owner db.active db.next_id jd_id p u e f miss) h.fine;
    the = owned_miss p archive (λ u. refl) h.owner v this.owned other;
    there =
        find_updated p v.id archive db.versions v (λ u. refl) found
        ∙ ap (λ b. some (if b then archive v else v)) other;
    others = λ j i ne b.
        IsActive-apart p archive db.versions j i (λ u. refl) (differs j i ne b) (h.active j i b);
  }
    where
      a : IsActive db.versions jd_id p
      a = h.active jd_id p e

      owns : h.owner p ≡ a.row
      owns =
          subst (λ k. h.owner k ≡ a.row) (found_id p db.versions a.row a.found)
            ((All-find_first (IsFine h.owner db.active db.next_id) (has_id p) db.versions a.row
              h.fine a.found).0.owned)

      other : has_id p v ≡ false
      other = elim (Bool-cases (has_id p v)) [
        | inl y ↦ absurd (not_active jd_id p e ((==_iff v.id p).0 y))
        | inr n ↦ n
      ]

      differs : (j i : ℕ) → j ≢ jd_id → db.active j ≡ some i → i ≢ p
      differs j i ne b same =
          let c = h.active j i b in
          let rows : c.row ≡ a.row = some_inj (
            sym (subst (λ k. find_first (has_id k) db.versions ≡ some c.row) same c.found)
            ∙ a.found) in
          ne (sym c.of_jd ∙ ap (λ u. u.jd_id) rows ∙ a.of_jd)

  Archived-any : (o : Option ℕ) → db.active jd_id ≡ o → Archived (archive_previous o db.versions)
  Archived-any none e = Archived-none e
  Archived-any (some p) e = Archived-some p e

  published_db-IsGoverned : IsGoverned (published_db jd_id v.id now publisher db)
  published_db-IsGoverned = record {
    owner = updated v.id (publish now publisher) m.owner;
    fine =
        All-update_both (IsReady m.owner db.active db.next_id jd_id)
          (IsFine (updated v.id (publish now publisher) m.owner) next db.next_id) (has_id v.id)
          (publish now publisher) (archive_previous (db.active jd_id) db.versions)
          (λ w r hit.
            published-IsFine m.owner db.active db.next_id jd_id now publisher v w m.the of_jd
              measured r hit)
          (λ w r miss. other-IsFine m.owner db.active db.next_id jd_id now publisher v.id w r miss)
          m.ready;
    active = λ j i e. stands j i e;
  }
    where
      m : Archived (archive_previous (db.active jd_id) db.versions)
      m = Archived-any (db.active jd_id) refl

      next : ℕ → Option ℕ
      next j = if j == jd_id then some v.id else db.active j

      rows : List RuleVersion
      rows =
          update_where (has_id v.id) (publish now publisher)
            (archive_previous (db.active jd_id) db.versions)

      itself : has_id v.id v ≡ true
      itself = (==_iff v.id v.id).1 refl

      mine : IsActive rows jd_id v.id
      mine = record {
        row = publish now publisher v;
        found =
            find_updated v.id v.id (publish now publisher)
              (archive_previous (db.active jd_id) db.versions) v (λ u. refl) m.there
            ∙ ap (λ b. some (if b then publish now publisher v else v)) itself;
        is_published = refl;
        of_jd = of_jd;
      }

      stands : (j i : ℕ) → next j ≡ some i → IsActive rows j i
      stands j i e = elim (Bool-cases (j == jd_id)) [
        | inl y ↦
            subst (λ k. IsActive rows j k)
              (some_inj (sym (ap (λ b. if b then some v.id else db.active j) y) ∙ e))
              (subst (λ k. IsActive rows k v.id) (sym ((==_iff j jd_id).0 y)) mine)
        | inr n ↦ far j i n (sym (ap (λ b. if b then some v.id else db.active j) n) ∙ e)
      ]
        where
          far : (j i : ℕ) → (j == jd_id) ≡ false → db.active j ≡ some i → IsActive rows j i
          far j i n a =
              IsActive-apart v.id (publish now publisher)
                (archive_previous (db.active jd_id) db.versions) j i (λ u. refl)
                (λ same. not_active j i a (sym same))
                (m.others j i (λ y. cc (sym n ∙ (==_iff j jd_id).1 y)) a)

-- A version that the search finds belongs to the JD, and keeps doing so.
module _ (jd_id now publisher : ℕ) (db : Db) (h : IsGoverned db) where
  publish_locked-IsGoverned :
      (i : ℕ) (o : Option RuleVersion)
      → find_first (has_id i) db.versions ≡ o
      → ((v : RuleVersion) → o ≡ some v → v.jd_id ≡ jd_id)
      → IsGoverned (publish_locked jd_id now publisher o db).1
  publish_locked-IsGoverned i none e mine = h
  publish_locked-IsGoverned i (some v) e mine = elim (Bool-cases (is_draft v.status)) [
    | inr n ↦ rw n h
    | inl d ↦ elim (Bool-cases (is_some v.golden_set_metrics)) [
      | inr n ↦ rw (d, n) h
      | inl y ↦
          rw (d, y)
            (published_db-IsGoverned jd_id now publisher db h v
              (subst (λ k. find_first (has_id k) db.versions ≡ some v)
                (sym (found_id i db.versions v e)) e)
              (is_draft→draft v.status d) y (mine v refl))
    ]
  ]

  publish_found-IsGoverned :
      (o : Option RuleVersion)
      → ((v : RuleVersion) → o ≡ some v → (v.jd_id ≡ jd_id) × (h.owner v.id ≡ v))
      → IsGoverned (publish_found jd_id now publisher o db).1
  unfolding publish_draft
  publish_found-IsGoverned none mine = h
  publish_found-IsGoverned (some w) mine =
      publish_locked-IsGoverned w.id (find_first (has_id w.id) db.versions) refl
        (λ v e. belongs v e)
    where
      belongs : (v : RuleVersion) → find_first (has_id w.id) db.versions ≡ some v → v.jd_id ≡ jd_id
      belongs v e =
          let f =
            (All-find_first (IsFine h.owner db.active db.next_id) (has_id w.id) db.versions v h.fine
              e).0 in
          let same : v ≡ w =
            sym f.owned ∙ ap h.owner (found_id w.id db.versions v e) ∙ (mine w refl).1 in
          ap (λ u. u.jd_id) same ∙ (mine w refl).0

  pub publish_version-IsGoverned :
      (version : String) → IsGoverned (publish_version jd_id version now publisher db).1
  unfolding publish_version
  publish_version-IsGoverned version =
      publish_found-IsGoverned (find_first (is_version jd_id version) db.versions)
        (λ v e. belongs v e)
    where
      jd_of : (v : RuleVersion) → is_version jd_id version v ≡ true → v.jd_id ≡ jd_id
      jd_of v t = ground (arith, t)

      belongs :
          (v : RuleVersion)
          → find_first (is_version jd_id version) db.versions ≡ some v
          → (v.jd_id ≡ jd_id) × (h.owner v.id ≡ v)
      belongs v e =
          let (f, t) =
            All-find_first (IsFine h.owner db.active db.next_id) (is_version jd_id version)
              db.versions v h.fine e in
          (jd_of v t, f.owned)
