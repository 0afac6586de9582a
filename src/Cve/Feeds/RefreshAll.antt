-- ===== src/Cve/Feeds/RefreshAll.antt =====
-- `refresh_all_feeds` of control-plane/app/cve_service.py: each enabled feed is refreshed on its own.
use kaaval.Base.{
  ◌≡◌, refl, sym, ap, subst, ◌∙◌, ℕ, String, Bool, true, false, Option, some, some-injective, List,
  [], ◌∷◌, filter, contains, All, ◌==◌, ==-refl, nat_eq, Bool-cases, inl, inr, arith, map,
}
use kaaval.Base.Member.{Member, here, there, All-Member}
use kaaval.Floats.{Floats}
use kaaval.Cve.Entry.{Python}
use kaaval.Cve.JsonFeed.{OsvBlock}
use kaaval.Cve.Feeds.{
  Feed, find_feed, Tables, Fetch, fetch_and_parse, Refreshed, loaded, failed, report_of,
  refresh_feed, refresh_each, refresh_all_feeds,
}
use kaaval.Base.Distinct.{Distinct}
use kaaval.Cve.Feeds.Invariant.{ids, names, entries_of, IsConsistent}
use kaaval.Cve.Feeds.Refresh.{
  refreshed, refresh_feed-cases, entries-refresh_self, entries-refresh_other,
  find_feed-refresh_other,
}

-- The row is the one that its id finds.
abbrev Stored : List Feed → Feed → Type 0
Stored rows f = find_feed f.id rows ≡ some f

contains-ids-Member : (f : Feed) (fs : List Feed) → Member f fs → contains (ids fs) f.id ≡ true
unfolding contains
contains-ids-Member f [] m = elim m [ ]
contains-ids-Member f (g ∷ fs) (here e) = rw (ap (λ (x : Feed). x.id) e, ==-refl g.id) refl
contains-ids-Member f (g ∷ fs) (there m) = ground (arith, contains-ids-Member f fs m)

differ_of_fresh :
    (f g : Feed) (fs : List Feed)
    → contains (ids fs) g.id ≡ false
    → Member f fs
    → (f.id == g.id) ≡ false
differ_of_fresh f g fs fresh m = elim (Bool-cases (f.id == g.id)) [
  | inr e ↦ e
  | inl e ↦ ground (arith, contains-ids-Member f fs m)
]

Member-Stored : (f : Feed) (fs : List Feed) → Distinct (ids fs) → Member f fs → Stored fs f
unfolding find_feed
Member-Stored f [] u m = elim m [ ]
Member-Stored f (g ∷ fs) (fresh, u) (here e) =
    subst (Stored (g ∷ fs)) (sym e) (rw (==-refl g.id) refl)
Member-Stored f (g ∷ fs) (fresh, u) (there m) =
    ground (arith, differ_of_fresh f g fs fresh m, Member-Stored f fs u m)

Member-filter : (p : Feed → Bool) (f : Feed) (fs : List Feed) → Member f (filter p fs) → Member f fs
unfolding filter
Member-filter p f [] m = elim m [ ]
Member-filter p f (g ∷ fs) m = elim (Bool-cases (p g)) [
  | inl e ↦ (elim (rw e at m) [ here q ↦ here q | there k ↦ there (Member-filter p f fs k) ])
  | inr e ↦ there (Member-filter p f fs (rw e at m))
]

contains-ids-filter :
    (p : Feed → Bool) (k : ℕ) (fs : List Feed)
    → contains (ids fs) k ≡ false
    → contains (ids (filter p fs)) k ≡ false
unfolding filter contains
contains-ids-filter p k [] h = refl
contains-ids-filter p k (f ∷ fs) h = ground (arith, contains-ids-filter p k fs)

Distinct-ids-filter :
    (p : Feed → Bool) (fs : List Feed) → Distinct (ids fs) → Distinct (ids (filter p fs))
unfolding filter
Distinct-ids-filter p [] u = tt
Distinct-ids-filter p (f ∷ fs) (fresh, u) = elim (Bool-cases (p f)) [
  | inl e ↦ rw e (contains-ids-filter p f.id fs fresh, Distinct-ids-filter p fs u)
  | inr e ↦ rw e (Distinct-ids-filter p fs u)
]

-- The feed that a result of the loop is about.
abbrev pub reported_name : Refreshed → String
reported_name (loaded name n) = name
reported_name (failed name e) = name

module _ {F : Floats} (py : Python F) (loads : String → Option OsvBlock) (fetch : Fetch F) where
  abbrev after_feed : ℕ → Feed → Tables F → Tables F
  after_feed now f db = (refresh_feed F py loads fetch now f.id db).1

  -- The other rows of the loop are still stored after the refresh of one.
  rest-Stored :
      (now : ℕ) (f : Feed) (fs : List Feed) (db : Tables F)
      → contains (ids fs) f.id ≡ false
      → All (Stored db.feeds) fs
      → All (Stored (after_feed now f db).feeds) fs
  unfolding contains
  rest-Stored now f [] db fresh h = tt
  rest-Stored now f (g ∷ fs) db fresh (h, hs) = (
    find_feed-refresh_other py loads fetch now g.id f.id db (ground arith) ∙ h,
    rest-Stored now f fs db (ground arith) hs,
  )

  -- The loop leaves the entries of every feed that is not on its list.
  entries-refresh_each_other :
      (now j : ℕ) (fs : List Feed) (db : Tables F)
      → contains (ids fs) j ≡ false
      → entries_of j (refresh_each F py loads fetch now fs db).1.entries ≡ entries_of j db.entries
  unfolding refresh_each contains
  entries-refresh_each_other now j [] db h = refl
  entries-refresh_each_other now j (f ∷ fs) db h =
      entries-refresh_each_other now j fs (after_feed now f db) (ground arith)
      ∙ entries-refresh_other py loads fetch now j f.id db (ground arith)

  entries-refresh_each :
      (now : ℕ) (f : Feed) (fs : List Feed) (db : Tables F)
      → Distinct (ids fs)
      → All (Stored db.feeds) fs
      → Member f fs
      → entries_of f.id (refresh_each F py loads fetch now fs db).1.entries
        ≡ refreshed (fetch_and_parse F py loads fetch f) (entries_of f.id db.entries)
  unfolding refresh_each
  entries-refresh_each now f [] db u h m = elim m [ ]
  entries-refresh_each now f (g ∷ fs) db (fresh, u) (h, hs) (here e) =
      subst
        (λ x.
          entries_of x.id (refresh_each F py loads fetch now fs (after_feed now g db)).1.entries
          ≡ refreshed (fetch_and_parse F py loads fetch x) (entries_of x.id db.entries))
        (sym e)
        (entries-refresh_each_other now g.id fs (after_feed now g db) fresh
          ∙ entries-refresh_self py loads fetch now g.id db g h)
  entries-refresh_each now f (g ∷ fs) db (fresh, u) (h, hs) (there m) =
      entries-refresh_each now f fs (after_feed now g db) u (rest-Stored now g fs db fresh hs) m
      ∙ ap (refreshed (fetch_and_parse F py loads fetch f))
          (entries-refresh_other py loads fetch now f.id g.id db (differ_of_fresh f g fs fresh m))

  -- In consistent tables, every enabled feed gets the entries of its fetch if that succeeds and keeps
  -- its own if it fails, whatever happens to the other feeds.
  pub refresh_all_feeds_each :
      (now : ℕ) (db : Tables F) (f : Feed)
      → IsConsistent db
      → Member f (filter (λ g. g.enabled) db.feeds)
      → entries_of f.id (refresh_all_feeds F py loads fetch now db).1.entries
        ≡ refreshed (fetch_and_parse F py loads fetch f) (entries_of f.id db.entries)
  unfolding refresh_all_feeds
  refresh_all_feeds_each now db f c m =
      let enabled = λ (g : Feed). g.enabled in
      entries-refresh_each now f (filter enabled db.feeds) db
        (Distinct-ids-filter enabled db.feeds c.distinct_ids)
        (All-Member _ (filter enabled db.feeds)
          (λ g k. Member-Stored g db.feeds c.distinct_ids (Member-filter enabled g db.feeds k)))
        m

  report_of-name :
      (now : ℕ) (f : Feed) (db : Tables F)
      → Stored db.feeds f
      → reported_name (report_of f (refresh_feed F py loads fetch now f.id db).0) ≡ f.name
  report_of-name now f db h = elim (refresh_feed-cases py loads fetch now f.id db) [
    | inl (e, p) ↦ rw p refl
    | inr (g, es, q, r, p) ↦ rw p (ap (λ (x : Feed). x.name) (some-injective g f (sym q ∙ h)))
  ]

  names-refresh_each :
      (now : ℕ) (fs : List Feed) (db : Tables F)
      → Distinct (ids fs)
      → All (Stored db.feeds) fs
      → map reported_name (refresh_each F py loads fetch now fs db).0 ≡ names fs
  unfolding refresh_each
  names-refresh_each now [] db u h = refl
  names-refresh_each now (f ∷ fs) db (fresh, u) (h, hs) = rw (report_of-name now f db h) (
      ap (◌∷◌ f.name)
        (names-refresh_each now fs (after_feed now f db) u (rest-Stored now f fs db fresh hs)))

  -- In consistent tables, the results are one for each enabled feed, loaded or failed, in the order of
  -- the feeds.
  pub refresh_all_feeds-reports :
      (now : ℕ) (db : Tables F)
      → IsConsistent db
      → map reported_name (refresh_all_feeds F py loads fetch now db).0
        ≡ names (filter (λ g. g.enabled) db.feeds)
  unfolding refresh_all_feeds
  refresh_all_feeds-reports now db c =
      let enabled = λ (g : Feed). g.enabled in
      names-refresh_each now (filter enabled db.feeds) db
        (Distinct-ids-filter enabled db.feeds c.distinct_ids)
        (All-Member _ (filter enabled db.feeds)
          (λ g k. Member-Stored g db.feeds c.distinct_ids (Member-filter enabled g db.feeds k)))
