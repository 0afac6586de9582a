-- ===== src/Cve/Feeds/Writes.antt =====
-- Every operation of control-plane/app on the tables of feeds and entries keeps them consistent.
use kaaval.Base.{
  ◌≡◌, refl, sym, ap, subst, ◌∙◌, append-nil, ℕ, String, true, false, not, Option, none, some, List,
  [], ◌∷◌, ◌++◌, length, filter, contains, contains-append, All, All-append, All-imp, All-filter,
  ◌==◌, nat_eq, nat_beq_iff, string_eq, Bool-cases, Option-cases, inl, inr, arith,
}
use kaaval.Floats.{Floats}
use kaaval.Cve.Entry.{Entry, Python}
use kaaval.Cve.JsonFeed.{OsvBlock}
use kaaval.Cve.Feeds.{
  Feed, FeedCreate, new_feed, find_feed, find_by_name, update_feed, Tables, add_feed, delete_feed,
  toggle_feed, Fetch, store_entries, refresh_feed, refresh_each, seed_feed, ensure_k8s_feed,
  k8s_feed, k8s_feed_name,
}
use kaaval.Base.Distinct.{Distinct, Distinct-snoc}
use kaaval.Cve.Feeds.Invariant.{
  ids, names, ids-append, names-append, find_by_name-none, KeepsName, ids-update_feed,
  names-update_feed, contains-ids-without, Distinct-ids-without, Distinct-names-without, entries_of,
  others, entries_of-append, entries_of-others_self, entries_of-others, entries_of-own,
  entries_of-foreign, entries_of-unknown, IsConsistent,
}
use kaaval.Cve.Feeds.Parsed.{fetch_and_parse-own}
use kaaval.Cve.Feeds.Refresh.{find_feed-id, known_feed, refresh_feed-cases}

-- What holds of a row, and of what a write makes of it, holds after the write.
All-update_feed :
    (P : Feed → Type 0) (Q : Feed → Type 0) (k : ℕ) (change : Feed → Feed) (fs : List Feed)
    → ((f : Feed) → P f → (f.id == k) ≡ true → Q (change f))
    → ((f : Feed) → P f → (f.id == k) ≡ false → Q f)
    → All P fs
    → All Q (update_feed k change fs)
unfolding update_feed
All-update_feed P Q k change [] hit miss h = tt
All-update_feed P Q k change (f ∷ fs) hit miss (h, hs) = elim (Bool-cases (f.id == k)) [
  | inl e ↦ rw e (hit f h e, All-update_feed P Q k change fs hit miss hs)
  | inr e ↦ rw e (miss f h e, All-update_feed P Q k change fs hit miss hs)
]

module _ {F : Floats} where
  -- A new row under a fresh id and a fresh name.
  appended-IsConsistent :
      (db : Tables F) (k : ℕ) (body : FeedCreate)
      → IsConsistent db
      → contains (ids db.feeds) k ≡ false
      → find_by_name body.name db.feeds ≡ none
      → IsConsistent (record { feeds = db.feeds ++ new_feed k body ∷ []; entries = db.entries })
  appended-IsConsistent db k body c fresh absent = record {
    distinct_ids = rw ids-append (Distinct-snoc (ids db.feeds) k c.distinct_ids fresh);
    distinct_names = rw names-append (
        Distinct-snoc (names db.feeds) body.name c.distinct_names
          (find_by_name-none body.name db.feeds absent));
    owned =
        All-imp _ _ db.entries
          (λ (e : Entry F) (h : contains (ids db.feeds) e.feed_id ≡ true).
            rw (ids-append, contains-append, h) refl)
          c.owned;
    counted =
        All-append _ db.feeds (new_feed k body ∷ []) c.counted
          (ap length (sym (entries_of-unknown k (ids db.feeds) db.entries fresh c.owned)), tt);
  }

  pub add_feed-IsConsistent :
      (db : Tables F) (k : ℕ) (body : FeedCreate)
      → IsConsistent db
      → contains (ids db.feeds) k ≡ false
      → IsConsistent (add_feed F k body db).1
  unfolding add_feed
  add_feed-IsConsistent db k body c fresh = elim (Option-cases (find_by_name body.name db.feeds)) [
    | inl e ↦ rw (e, add_feed) (appended-IsConsistent db k body c fresh e)
    | inr (f, e) ↦ rw (e, add_feed) c
  ]

  pub seed_feed-IsConsistent :
      (db : Tables F) (k : ℕ) (body : FeedCreate)
      → IsConsistent db
      → contains (ids db.feeds) k ≡ false
      → IsConsistent (seed_feed F k body db)
  unfolding seed_feed
  seed_feed-IsConsistent db k body c fresh = elim (Option-cases (find_by_name body.name db.feeds)) [
    | inl e ↦ rw (e, seed_feed) (appended-IsConsistent db k body c fresh e)
    | inr (f, e) ↦ rw (e, seed_feed) c
  ]

  pub ensure_k8s_feed-IsConsistent :
      (db : Tables F) (k : ℕ)
      → IsConsistent db
      → contains (ids db.feeds) k ≡ false
      → IsConsistent (ensure_k8s_feed F k db).1
  unfolding ensure_k8s_feed
  ensure_k8s_feed-IsConsistent db k c fresh =
      elim (Option-cases (find_by_name k8s_feed_name db.feeds)) [
        | inl e ↦ rw (e, ensure_k8s_feed) (appended-IsConsistent db k (k8s_feed F) c fresh e)
        | inr (f, e) ↦ rw (e, ensure_k8s_feed) c
      ]

  pub delete_feed-IsConsistent :
      (db : Tables F) (k : ℕ) → IsConsistent db → IsConsistent (delete_feed F k db).1
  unfolding delete_feed
  delete_feed-IsConsistent db k c = elim (Option-cases (find_feed k db.feeds)) [
    | inl e ↦ rw (e, delete_feed) c
    | inr (f, e) ↦
        rw (e, delete_feed)
          (record {
            distinct_ids = Distinct-ids-without k db.feeds c.distinct_ids;
            distinct_names = Distinct-names-without k db.feeds c.distinct_names;
            owned =
                All-filter _ _ (λ e. not (e.feed_id == k)) db.entries
                  (λ e h q. contains-ids-without e.feed_id k db.feeds (ground arith) ∙ h) c.owned;
            counted =
                All-filter _ _ (λ g. not (g.id == k)) db.feeds
                  (λ g h q.
                    h ∙ ap length (sym (entries_of-others g.id k db.entries (ground arith))))
                  c.counted;
          })
  ]

  pub toggle_feed-IsConsistent :
      (db : Tables F) (k : ℕ) → IsConsistent db → IsConsistent (toggle_feed F k db).1
  unfolding toggle_feed
  toggle_feed-IsConsistent db k c = elim (Option-cases (find_feed k db.feeds)) [
    | inl e ↦ rw (e, toggle_feed) c
    | inr (f, e) ↦
        rw (e, toggle_feed)
          (record {
            distinct_ids =
                subst Distinct (sym (ids-update_feed k toggle keeps db.feeds)) c.distinct_ids;
            distinct_names =
                subst Distinct (sym (names-update_feed k toggle keeps db.feeds)) c.distinct_names;
            owned =
                subst (λ known. All (λ e. contains known e.feed_id ≡ true) db.entries)
                  (sym (ids-update_feed k toggle keeps db.feeds)) c.owned;
            counted = All-update_feed _ _ k toggle db.feeds (λ g h q. h) (λ g h q. h) c.counted;
          })
  ]
    where
      toggle : Feed → Feed
      toggle g = record g { enabled = not g.enabled }

      keeps : KeepsName toggle
      keeps = record { id = λ g. refl; name = λ g. refl }

  store_entries-IsConsistent :
      (db : Tables F) (k now : ℕ) (es : List (Entry F))
      → IsConsistent db
      → contains (ids db.feeds) k ≡ true
      → All (λ e. e.feed_id ≡ k) es
      → IsConsistent (store_entries F k now es db)
  unfolding store_entries
  store_entries-IsConsistent db k now es c known own = record {
    distinct_ids = subst Distinct (sym (ids-update_feed k stamp keeps db.feeds)) c.distinct_ids;
    distinct_names =
        subst Distinct (sym (names-update_feed k stamp keeps db.feeds)) c.distinct_names;
    owned =
        subst
          (λ ks.
            All (λ e. contains ks e.feed_id ≡ true)
              (filter (λ e. not (e.feed_id == k)) db.entries ++ es))
          (sym (ids-update_feed k stamp keeps db.feeds))
          (All-append _ (filter (λ e. not (e.feed_id == k)) db.entries) es
            (All-filter _ _ _ db.entries (λ e h q. h) c.owned)
            (All-imp _ _ es (λ e h. ap (contains (ids db.feeds)) h ∙ known) own));
    counted =
        All-update_feed _ _ k stamp db.feeds (λ g h q. ap length (sym (own_entries g q)))
          (λ g h q. h ∙ ap length (sym (other_entries g q))) c.counted;
  }
    where
      stamp : Feed → Feed
      stamp f = record f { last_fetched = some now; entry_count = length es }

      keeps : KeepsName stamp
      keeps = record { id = λ g. refl; name = λ g. refl }

      own_entries :
          (g : Feed) → (g.id == k) ≡ true → entries_of g.id (others k db.entries ++ es) ≡ es
      own_entries g q =
          ap (λ j. entries_of j (others k db.entries ++ es)) ((nat_beq_iff g.id k).0 q)
          ∙ (entries_of-append k (others k db.entries) es
              ∙ rw entries_of-others_self (entries_of-own k es own))

      other_entries :
          (g : Feed)
          → (g.id == k) ≡ false
          → entries_of g.id (others k db.entries ++ es) ≡ entries_of g.id db.entries
      other_entries g q =
          rw (entries_of-append, entries_of-foreign g.id k es q own, append-nil)
            (entries_of-others g.id k db.entries q)

  module _ (py : Python F) (loads : String → Option OsvBlock) (fetch : Fetch F) where
    pub refresh_feed-IsConsistent :
        (now k : ℕ) (db : Tables F)
        → IsConsistent db
        → IsConsistent (refresh_feed F py loads fetch now k db).1
    refresh_feed-IsConsistent now k db c = elim (refresh_feed-cases py loads fetch now k db) [
      | inl (e, h) ↦ rw h c
      | inr (feed, es, q, r, h) ↦ rw h (
          store_entries-IsConsistent db k now es c (known_feed k feed db.feeds q) (
            subst (λ j. All (λ e. e.feed_id ≡ j) es) (find_feed-id k feed db.feeds q)
              (fetch_and_parse-own py loads fetch feed es r)))
    ]

    pub refresh_each-IsConsistent :
        (now : ℕ) (feeds : List Feed) (db : Tables F)
        → IsConsistent db
        → IsConsistent (refresh_each F py loads fetch now feeds db).1
    unfolding refresh_each
    refresh_each-IsConsistent now [] db c = c
    refresh_each-IsConsistent now (feed ∷ feeds) db c =
        refresh_each-IsConsistent now feeds _ (refresh_feed-IsConsistent now feed.id db c)
