-- ===== src/Cve/Feeds/Steps.antt =====
-- The requests of control-plane/app that write the tables of feeds and entries, as steps, and their
-- runs.
use kaaval.Base.{
  ◌≡◌, refl, sym, subst, ℕ, String, false, Option, filter, contains, nat_eq, Option-cases, inl, inr,
}
use kaaval.Floats.{Floats}
use kaaval.Cve.Entry.{Python}
use kaaval.Cve.JsonFeed.{OsvBlock}
use kaaval.Cve.Feeds.{
  FeedCreate, find_feed, Tables, add_feed, delete_feed, toggle_feed, Fetch, refresh_feed,
  refresh_all_feeds, seed_feed, ensure_k8s_feed, sync_k8s_feed, refresh_route,
}
use kaaval.Cve.Feeds.Invariant.{ids, IsConsistent}
use kaaval.Http.{Outcome-cases}
use kaaval.Cve.Feeds.Writes.{
  add_feed-IsConsistent, seed_feed-IsConsistent, ensure_k8s_feed-IsConsistent,
  delete_feed-IsConsistent, toggle_feed-IsConsistent, refresh_feed-IsConsistent,
  refresh_each-IsConsistent,
}

module _ {F : Floats} where
  -- The requests and the events that write the tables. Any fetch may fail or give any document, and a
  -- new row has an id that no row has.
  pub data Step (py : Python F) (loads : String → Option OsvBlock)
      : Tables F → Tables F → Type 1 where
    add :
        (db : Tables F) (k : ℕ) (body : FeedCreate)
        → contains (ids db.feeds) k ≡ false
        → Step py loads db (add_feed F k body db).1
    seed :
        (db : Tables F) (k : ℕ) (body : FeedCreate)
        → contains (ids db.feeds) k ≡ false
        → Step py loads db (seed_feed F k body db)
    delete : (db : Tables F) (k : ℕ) → Step py loads db (delete_feed F k db).1
    toggle : (db : Tables F) (k : ℕ) → Step py loads db (toggle_feed F k db).1
    refresh :
        (db : Tables F) (fetch : Fetch F) (now k : ℕ)
        → Step py loads db (refresh_route F py loads fetch now k db).1
    refresh_all :
        (db : Tables F) (fetch : Fetch F) (now : ℕ)
        → Step py loads db (refresh_all_feeds F py loads fetch now db).1
    sync :
        (db : Tables F) (fetch : Fetch F) (now k : ℕ)
        → contains (ids db.feeds) k ≡ false
        → Step py loads db (sync_k8s_feed F py loads fetch k now db).1

  pub data Reach (py : Python F) (loads : String → Option OsvBlock) (start : Tables F)
      : Tables F → Type 1 where
    here : Reach py loads start start
    next : {s t : Tables F} → Reach py loads start s → Step py loads s t → Reach py loads start t

  -- The routes write what the service writes.
  refresh_route-tables :
      (py : Python F) (loads : String → Option OsvBlock) (fetch : Fetch F) (now k : ℕ)
      (db : Tables F)
      → (refresh_route F py loads fetch now k db).1 ≡ (refresh_feed F py loads fetch now k db).1
  unfolding refresh_route
  refresh_route-tables py loads fetch now k db = elim (Option-cases (find_feed k db.feeds)) [
    | inl q ↦ rw (q, refresh_route, refresh_feed) refl
    | inr (feed, q) ↦ (elim (Outcome-cases (refresh_feed F py loads fetch now k db).0) [
      | inl (e, r) ↦ rw (q, refresh_route, r) refl
      | inr (a, r) ↦ rw (q, refresh_route, r) refl
    ])
  ]

  sync_k8s_feed-tables :
      (py : Python F) (loads : String → Option OsvBlock) (fetch : Fetch F) (k now : ℕ)
      (db : Tables F)
      → (sync_k8s_feed F py loads fetch k now db).1
        ≡ (refresh_feed F py loads fetch now
            (ensure_k8s_feed F k db).0.id
            (ensure_k8s_feed F k db).1).1
  unfolding sync_k8s_feed
  sync_k8s_feed-tables py loads fetch k now db =
      let (feed, db') = ensure_k8s_feed F k db in
      elim (Outcome-cases (refresh_feed F py loads fetch now feed.id db').0) [
        | inl (e, r) ↦ rw (r, sync_k8s_feed) refl
        | inr (a, r) ↦ rw (r, sync_k8s_feed) refl
      ]

  Step-IsConsistent :
      (py : Python F) (loads : String → Option OsvBlock) {s t : Tables F}
      → Step py loads s t
      → IsConsistent s
      → IsConsistent t
  unfolding refresh_all_feeds
  Step-IsConsistent py loads (add db k body fresh) c = add_feed-IsConsistent db k body c fresh
  Step-IsConsistent py loads (seed db k body fresh) c = seed_feed-IsConsistent db k body c fresh
  Step-IsConsistent py loads (delete db k) c = delete_feed-IsConsistent db k c
  Step-IsConsistent py loads (toggle db k) c = toggle_feed-IsConsistent db k c
  Step-IsConsistent py loads (refresh db fetch now k) c =
      subst IsConsistent (sym (refresh_route-tables py loads fetch now k db))
        (refresh_feed-IsConsistent py loads fetch now k db c)
  Step-IsConsistent py loads (refresh_all db fetch now) c =
      refresh_each-IsConsistent py loads fetch now (filter (λ f. f.enabled) db.feeds) db c
  Step-IsConsistent py loads (sync db fetch now k fresh) c =
      subst IsConsistent (sym (sync_k8s_feed-tables py loads fetch k now db)) (
        refresh_feed-IsConsistent py loads fetch now _ _
          (ensure_k8s_feed-IsConsistent db k c fresh))

  -- Whatever requests are made, and whatever the fetches give, consistent tables stay consistent: ids
  -- and names are unique, every entry belongs to a feed, and the count of a feed is the number of its
  -- entries.
  pub Reach-IsConsistent :
      (py : Python F) (loads : String → Option OsvBlock) {s t : Tables F}
      → IsConsistent s
      → Reach py loads s t
      → IsConsistent t
  Reach-IsConsistent py loads c here = c
  Reach-IsConsistent py loads c (next run step) =
      Step-IsConsistent py loads step (Reach-IsConsistent py loads c run)
