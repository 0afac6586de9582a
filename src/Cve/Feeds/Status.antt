-- ===== src/Cve/Feeds/Status.antt =====
-- What the summary and the status of the Kubernetes feed, in control-plane/app/routers/cve.py, say of
-- the tables.
use kaaval.Base.{
  ◌≡◌, refl, subst, ℕ, String, Option, none, some, some-injective, List, [], ◌∷◌, ◌++◌, length,
  ◌==◌, nat_eq, string_eq, Bool-cases, Option-cases, inl, inr, arith, ==-refl,
}
use kaaval.Http.{sent}
use kaaval.Floats.{Floats}
use kaaval.Cve.Entry.{Python}
use kaaval.Cve.JsonFeed.{OsvBlock}
use kaaval.Cve.Feeds.{
  Feed, loaded, Tables, Fetch, find_by_name, update_feed, ensure_k8s_feed, sync_k8s_feed,
  k8s_feed_name, k8s_feed, new_feed, store_entries,
}
use kaaval.Cve.Feeds.Refresh.{refresh_feed-cases}
use kaaval.Cve.Feeds.Browse.{status_of, get_k8s_feed_status}

find_by_name-snoc :
    (f : Feed) (fs : List Feed)
    → find_by_name f.name fs ≡ none
    → find_by_name f.name (fs ++ f ∷ []) ≡ some f
unfolding find_by_name
find_by_name-snoc f [] q = rw (==-refl f.name) refl
find_by_name-snoc f (g ∷ fs) q = ground (arith, find_by_name-snoc f fs)

-- A write that keeps the names, to a row under the id of the first of its name.
find_by_name-update :
    (name : String) (f : Feed) (change : Feed → Feed) (fs : List Feed)
    → ((g : Feed) → (change g).name ≡ g.name)
    → find_by_name name fs ≡ some f
    → find_by_name name (update_feed f.id change fs) ≡ some (change f)
unfolding find_by_name update_feed
find_by_name-update name f change [] keeps q = cc
find_by_name-update name f change (g ∷ fs) keeps q = elim (Bool-cases (g.name == name)) [
  | inl e ↦
      subst (λ x. find_by_name name (update_feed x.id change (g ∷ fs)) ≡ some (change x))
        (some-injective g f (rw e at q)) (rw (==-refl g.id, keeps g, e) refl)
  | inr e ↦ elim (Bool-cases (g.id == f.id)) [
    | inl i ↦ rw (i, keeps g, e) (find_by_name-update name f change fs keeps (rw e at q))
    | inr i ↦ rw (i, e) (find_by_name-update name f change fs keeps (rw e at q))
  ]
]

module _ {F : Floats} where
  ensure_k8s_feed-found :
      (new_id : ℕ) (db : Tables F)
      → find_by_name k8s_feed_name (ensure_k8s_feed F new_id db).1.feeds
        ≡ some (ensure_k8s_feed F new_id db).0
  unfolding ensure_k8s_feed
  ensure_k8s_feed-found new_id db = elim (Option-cases (find_by_name k8s_feed_name db.feeds)) [
    | inl q ↦ rw (q, ensure_k8s_feed) (find_by_name-snoc (new_feed new_id (k8s_feed F)) db.feeds q)
    | inr (f, q) ↦ rw (q, ensure_k8s_feed) q
  ]

  module _ (py : Python F) (loads : String → Option OsvBlock) (fetch : Fetch F) where
    -- After a sync that succeeds, the status is that of the Kubernetes feed, which was there or was
    -- registered by the sync, with the number of entries that the sync loaded and its time.
    pub get_k8s_feed_status-sync :
        (new_id now n : ℕ) (name : String) (db : Tables F)
        → (sync_k8s_feed F py loads fetch new_id now db).0 ≡ sent (loaded name n)
        → get_k8s_feed_status F (sync_k8s_feed F py loads fetch new_id now db).1
          ≡ status_of
              (record (ensure_k8s_feed F new_id db).0 { last_fetched = some now; entry_count = n })
    unfolding sync_k8s_feed get_k8s_feed_status store_entries
    get_k8s_feed_status-sync new_id now n name db h =
        let feed = (ensure_k8s_feed F new_id db).0 in
        let db' = (ensure_k8s_feed F new_id db).1 in
        elim (refresh_feed-cases py loads fetch now feed.id db') [
          | inl (e, q) ↦ cc (rw (sync_k8s_feed, q) at h)
          | inr (known, es, found, parsed, q) ↦
              let stamped : Feed → Feed =
                λ f. record f { last_fetched = some now; entry_count = length es } in
              let counted : length es ≡ n = cc (rw (sync_k8s_feed, q) at h) in
              rw
                (
                  sync_k8s_feed,
                  q,
                  get_k8s_feed_status,
                  q,
                  find_by_name-update k8s_feed_name feed stamped db'.feeds (λ g. refl)
                      (ensure_k8s_feed-found new_id db),
                  counted,
                )
                refl
        ]
