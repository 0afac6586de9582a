-- ===== src/Cve/Feeds/Refresh.antt =====
-- What a refresh of a feed of control-plane/app does, on every branch.
use kaaval.Base.{
  ◌≡◌, refl, sym, ap, subst, ◌∙◌, ℕ, String, true, false, Option, some, List, [], ◌∷◌, append-nil,
  length, contains, is_some, All, ◌==◌, nat_eq, nat_beq_iff, Bool-cases, Option-cases, inl, inr,
  ◌⊎◌, arith,
}
use kaaval.Http.{Outcome, returned, raised, Outcome-cases}
use kaaval.Floats.{Floats}
use kaaval.Cve.Entry.{Entry, Python}
use kaaval.Cve.JsonFeed.{OsvBlock}
use kaaval.Cve.Feeds.{
  Feed, find_feed, update_feed, Tables, Fetch, fetch_and_parse, store_entries, loaded, refresh_feed,
}
use kaaval.Cve.Feeds.Invariant.{
  ids, is_some-find_feed, entries_of, others, entries_of-append, entries_of-others_self,
  entries_of-others, entries_of-own, entries_of-foreign,
}
use kaaval.Cve.Feeds.Parsed.{fetch_and_parse-own}

pub find_feed-id : (k : ℕ) (f : Feed) (fs : List Feed) → find_feed k fs ≡ some f → f.id ≡ k
unfolding find_feed
find_feed-id k f [] h = cc
find_feed-id k f (g ∷ fs) h = elim (Bool-cases (g.id == k)) [
  | inl e ↦ cc ((nat_beq_iff g.id k).0 e, rw e at h)
  | inr e ↦ find_feed-id k f fs (rw e at h)
]

pub known_feed :
    (k : ℕ) (f : Feed) (fs : List Feed) → find_feed k fs ≡ some f → contains (ids fs) k ≡ true
known_feed k f fs h = sym (is_some-find_feed k fs) ∙ ap is_some h

find_feed-update_other :
    (j k : ℕ) (change : Feed → Feed) (fs : List Feed)
    → (j == k) ≡ false
    → ((f : Feed) → (change f).id ≡ f.id)
    → find_feed j (update_feed k change fs) ≡ find_feed j fs
unfolding find_feed update_feed
find_feed-update_other j k change [] differ keep = refl
find_feed-update_other j k change (f ∷ fs) differ keep =
    ground (arith, keep f, find_feed-update_other j k change fs differ keep)

-- The entries of a feed after its refresh: the new ones, or the old ones if the fetch fails.
abbrev pub refreshed : {F : Floats} → Outcome (List (Entry F)) → List (Entry F) → List (Entry F)
refreshed (raised e) old = old
refreshed (returned es) old = es

module _ {F : Floats} (py : Python F) (loads : String → Option OsvBlock) (fetch : Fetch F) where
  pub refresh_feed-cases :
      (now k : ℕ) (db : Tables F)
      → ((e : String) × (refresh_feed F py loads fetch now k db ≡ (raised e, db)))
        ⊎ ((feed : Feed) × (es : List (Entry F)) × (find_feed k db.feeds ≡ some feed)
            × (fetch_and_parse F py loads fetch feed ≡ returned es)
            × (refresh_feed F py loads fetch now k db
                ≡ (returned (loaded feed.name (length es)), store_entries F k now es db)))
  unfolding refresh_feed
  refresh_feed-cases now k db = elim (Option-cases (find_feed k db.feeds)) [
    | inl q ↦ inl ("Feed not found", rw (q, refresh_feed) refl)
    | inr (feed, q) ↦ (elim (Outcome-cases (fetch_and_parse F py loads fetch feed)) [
      | inl (e, r) ↦ inl (e, rw (q, refresh_feed, r) refl)
      | inr (es, r) ↦ inr (feed, es, q, r, rw (q, refresh_feed, r) refl)
    ])
  ]

  -- A refresh that raises, of an unknown feed or by a fetch or a parser that fails, writes nothing.
  pub refresh_feed-raised :
      (now k : ℕ) (db : Tables F) (e : String)
      → (refresh_feed F py loads fetch now k db).0 ≡ raised e
      → (refresh_feed F py loads fetch now k db).1 ≡ db
  refresh_feed-raised now k db e h = elim (refresh_feed-cases now k db) [
    | inl (e', q) ↦ rw q refl
    | inr (feed, es, q, r, p) ↦ cc (rw p at h)
  ]

  entries-store_self :
      (now k : ℕ) (db : Tables F) (es : List (Entry F))
      → All (λ e. e.feed_id ≡ k) es
      → entries_of k (store_entries F k now es db).entries ≡ es
  unfolding store_entries
  entries-store_self now k db es own =
      entries_of-append k (others k db.entries) es
      ∙ rw entries_of-others_self (entries_of-own k es own)

  pub entries-refresh_self :
      (now k : ℕ) (db : Tables F) (feed : Feed)
      → find_feed k db.feeds ≡ some feed
      → entries_of k (refresh_feed F py loads fetch now k db).1.entries
        ≡ refreshed (fetch_and_parse F py loads fetch feed) (entries_of k db.entries)
  unfolding refresh_feed
  entries-refresh_self now k db feed q =
      elim (Outcome-cases (fetch_and_parse F py loads fetch feed)) [
        | inl (e, r) ↦ rw (q, refresh_feed, r) refl
        | inr (es, r) ↦
            rw (q, refresh_feed, r)
              (entries-store_self now k db es (
                subst (λ j. All (λ e. e.feed_id ≡ j) es) (find_feed-id k feed db.feeds q)
                  (fetch_and_parse-own py loads fetch feed es r)))
      ]

  module _ (now j k : ℕ) (db : Tables F) (differ : (j == k) ≡ false) where
    pub entries-refresh_other :
        entries_of j (refresh_feed F py loads fetch now k db).1.entries ≡ entries_of j db.entries
    unfolding store_entries
    entries-refresh_other = elim (refresh_feed-cases now k db) [
      | inl (e, p) ↦ rw p refl
      | inr (feed, es, q, r, p) ↦
          rw
            (
              p,
              entries_of-append,
              entries_of-foreign j k es differ (
                  subst (λ i. All (λ e. e.feed_id ≡ i) es) (find_feed-id k feed db.feeds q)
                    (fetch_and_parse-own py loads fetch feed es r)),
              append-nil,
            )
            (entries_of-others j k db.entries differ)
    ]

    pub find_feed-refresh_other :
        find_feed j (refresh_feed F py loads fetch now k db).1.feeds ≡ find_feed j db.feeds
    unfolding store_entries
    find_feed-refresh_other = elim (refresh_feed-cases now k db) [
      | inl (e, p) ↦ rw p refl
      | inr (feed, es, q, r, p) ↦ rw p (find_feed-update_other j k _ db.feeds differ (λ f. refl))
    ]
