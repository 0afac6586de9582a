-- ===== src/Cve/Feeds.antt =====
-- The CVE feeds and their entries: the methods of CVEFeedService in control-plane/app/cve_service.py
-- that write the tables of CVEFeed and CVEEntry, the routes of routers/cve.py over them, and the
-- seeding of feeds in main.py. The tables are passed from call to call; a fresh UUID, the time and
-- the response to a fetch are arguments.
pub mod Browse
pub mod Invariant
pub mod Pages
pub mod Parsed
pub mod Writes
pub mod Status
pub mod Steps
pub mod Refresh
pub mod RefreshAll
use kaaval.Base.{
  ℕ, String, Bool, true, false, not, ◌&&◌, Option, none, some, List, [], ◌∷◌, ◌++◌, ◌<>◌, map,
  if◌then◌else◌, length, filter, any, head?, ◌==◌, nat_eq, string_eq,
}
use kaaval.Http.{Reply, sent, http_error, Outcome, returned, raised}
use kaaval.Floats.{Floats}
use kaaval.Cve.Entry.{Entry, Python}
use kaaval.Cve.JsonFeed.{OsvBlock, Document, detect_and_parse}

abbrev pub k8s_official_cve_feed_url : String
k8s_official_cve_feed_url =
    "https://k8s.io/docs/reference/issues-security/official-cve-feed/index.json"

abbrev pub k8s_feed_name : String
k8s_feed_name = "Kubernetes Official CVE Feed"

-- A row of CVEFeed; the rows stand in the order of their creation.
pub record Feed : Type 0 where
  pub id : ℕ
  pub name : String
  pub url : String
  pub feed_type : String
  pub description : Option String
  pub enabled : Bool
  pub last_fetched : Option ℕ
  pub entry_count : ℕ

pub record FeedCreate : Type 0 where
  pub name : String
  pub url : String
  pub feed_type : String
  pub description : Option String

-- `CVEFeed(...)`, with the defaults of the columns.
abbrev pub new_feed : ℕ → FeedCreate → Feed
new_feed id body = record {
  id = id;
  name = body.name;
  url = body.url;
  feed_type = body.feed_type;
  description = body.description;
  enabled = true;
  last_fetched = none;
  entry_count = 0;
}

-- `db.query(CVEFeed).filter(CVEFeed.id == id).first()`
unfoldable pub find_feed : ℕ → List Feed → Option Feed
find_feed id [] = none
find_feed id (f ∷ feeds) = if f.id == id then some f else find_feed id feeds

-- `db.query(CVEFeed).filter(CVEFeed.name == name).first()`
unfoldable pub find_by_name : String → List Feed → Option Feed
find_by_name name [] = none
find_by_name name (f ∷ feeds) = if f.name == name then some f else find_by_name name feeds

-- A write to the row with a given id.
unfoldable pub update_feed : ℕ → (Feed → Feed) → List Feed → List Feed
update_feed id change [] = []
update_feed id change (f ∷ feeds) =
    (if f.id == id then change f else f) ∷ update_feed id change feeds

-- What a refresh reports: the feed's name, and the number of its entries or the text of the error.
pub data Refreshed : Type 0 where
  loaded : String → ℕ → Refreshed
  failed : String → String → Refreshed

-- `results.append(...)`, on either branch of the `try`.
abbrev pub report_of : Feed → Outcome Refreshed → Refreshed
report_of feed (returned result) = result
report_of feed (raised e) = failed feed.name e

module _ (F : Floats) where
  pub record Tables : Type 0 where
    pub feeds : List Feed
    pub entries : List (Entry F)

  -- POST /cve/feeds
  unfoldable pub add_feed : ℕ → FeedCreate → Tables → Reply Feed × Tables
  unfolding find_by_name
  add_feed new_id body db = elim (find_by_name body.name db.feeds) [
    | some f ↦ (http_error 400 ("A feed named '" <> (body.name <> "' already exists.")), db)
    | none ↦ (
      sent (new_feed new_id body),
      record { feeds = db.feeds ++ new_feed new_id body ∷ []; entries = db.entries },
    )
  ]

  -- DELETE /cve/feeds/{feed_id}: the foreign key deletes the entries of the feed.
  unfoldable pub delete_feed : ℕ → Tables → Reply String × Tables
  unfolding find_feed filter
  delete_feed feed_id db = elim (find_feed feed_id db.feeds) [
    | none ↦ (http_error 404 "Feed not found.", db)
    | some f ↦ (
      sent ("Feed '" <> (f.name <> "' and all its entries deleted.")),
      record {
        feeds = filter (λ g. not (g.id == feed_id)) db.feeds;
        entries = filter (λ e. not (e.feed_id == feed_id)) db.entries;
      },
    )
  ]

  -- PATCH /cve/feeds/{feed_id}/toggle
  unfoldable pub toggle_feed : ℕ → Tables → Reply Bool × Tables
  unfolding find_feed update_feed
  toggle_feed feed_id db = elim (find_feed feed_id db.feeds) [
    | none ↦ (http_error 404 "Feed not found.", db)
    | some f ↦ (
      sent (not f.enabled),
      record {
        feeds = update_feed feed_id (λ g. record g { enabled = not g.enabled }) db.feeds;
        entries = db.entries;
      },
    )
  ]

  -- What a GET of a feed's URL gives: a decoded document, or the exception of the HTTP client.
  abbrev pub Fetch : Type 0
  Fetch = Feed → Outcome (Document F)

  -- The text of the UnboundLocalError of `_parse_osv_affected`.
  abbrev unbound_error : String
  unbound_error =
      "cannot access local variable 'introduced' where it is not associated with a value"

  abbrev pub outcome_of : Option (List (Entry F)) → Outcome (List (Entry F))
  outcome_of none = raised unbound_error
  outcome_of (some entries) = returned entries

  unfoldable pub parse_fetched :
      Python F → (String → Option OsvBlock) → ℕ → Outcome (Document F) → Outcome (List (Entry F))
  unfolding detect_and_parse
  parse_fetched py loads feed_id (raised e) = raised e
  parse_fetched py loads feed_id (returned doc) =
      outcome_of (detect_and_parse F py loads doc feed_id)

  -- What is written after the fetch: the old entries go, the new ones come, and the row is stamped.
  unfoldable pub store_entries : ℕ → ℕ → List (Entry F) → Tables → Tables
  unfolding update_feed filter
  store_entries feed_id now entries db = record {
    feeds =
        update_feed feed_id
          (λ f. record f { last_fetched = some now; entry_count = length entries }) db.feeds;
    entries = filter (λ e. not (e.feed_id == feed_id)) db.entries ++ entries;
  }

  module _ (py : Python F) (loads : String → Option OsvBlock) (fetch : Fetch) where
    unfoldable pub fetch_and_parse : Feed → Outcome (List (Entry F))
    unfolding parse_fetched
    fetch_and_parse feed = parse_fetched py loads feed.id (fetch feed)

    -- CVEFeedService.refresh_feed
    unfoldable pub refresh_feed : ℕ → ℕ → Tables → Outcome Refreshed × Tables
    unfolding find_feed fetch_and_parse store_entries
    refresh_feed now feed_id db = elim (find_feed feed_id db.feeds) [
      | none ↦ (raised "Feed not found", db)
      | some feed ↦ (elim (fetch_and_parse feed) [
        | raised e ↦ (raised e, db)
        | returned entries ↦
            (returned (loaded feed.name (length entries)), store_entries feed_id now entries db)
      ])
    ]

    -- The loop of refresh_all_feeds over the rows that were enabled at its start.
    unfoldable pub refresh_each : ℕ → List Feed → Tables → List Refreshed × Tables
    unfolding refresh_feed
    refresh_each now [] db = ([], db)
    refresh_each now (feed ∷ feeds) db =
        let (result, db') = refresh_feed now feed.id db in
        let (results, db'') = refresh_each now feeds db' in (report_of feed result ∷ results, db'')

    unfoldable pub refresh_all_feeds : ℕ → Tables → List Refreshed × Tables
    unfolding refresh_each filter
    refresh_all_feeds now db = refresh_each now (filter (λ f. f.enabled) db.feeds) db

    -- POST /cve/feeds/{feed_id}/refresh
    unfoldable pub refresh_route : ℕ → ℕ → Tables → Reply Refreshed × Tables
    unfolding find_feed refresh_feed
    refresh_route now feed_id db = elim (find_feed feed_id db.feeds) [
      | none ↦ (http_error 404 "Feed not found.", db)
      | some feed ↦
          let (result, db') = refresh_feed now feed_id db in
          (elim result [
            | returned r ↦ (sent r, db')
            | raised e ↦ (http_error 502 ("Feed fetch failed: " <> e), db')
          ])
    ]

  abbrev k8s_feed : FeedCreate
  k8s_feed = record {
    name = k8s_feed_name;
    url = k8s_official_cve_feed_url;
    feed_type = "json_feed";
    description =
        some
          "Auto-refreshing official CVE feed from kubernetes.io — includes all Kubernetes core and add-on CVEs with embedded OSV data.";
  }

  -- `if not db.query(CVEFeed).filter(name).first(): db.add(CVEFeed(...))`
  unfoldable pub seed_feed : ℕ → FeedCreate → Tables → Tables
  unfolding find_by_name
  seed_feed new_id body db = elim (find_by_name body.name db.feeds) [
    | some f ↦ db
    | none ↦ record { feeds = db.feeds ++ new_feed new_id body ∷ []; entries = db.entries }
  ]

  -- The loop of startup_event, with the fresh id of each feed.
  unfoldable pub seed_feeds : List (ℕ × FeedCreate) → Tables → Tables
  unfolding seed_feed
  seed_feeds [] db = db
  seed_feeds ((new_id, body) ∷ bodies) db = seed_feeds bodies (seed_feed new_id body db)

  -- CVEFeedService.ensure_k8s_feed: the row, and the tables with it.
  unfoldable pub ensure_k8s_feed : ℕ → Tables → Feed × Tables
  unfolding find_by_name
  ensure_k8s_feed new_id db = elim (find_by_name k8s_feed_name db.feeds) [
    | some f ↦ (f, db)
    | none ↦ (
      new_feed new_id k8s_feed,
      record { feeds = db.feeds ++ new_feed new_id k8s_feed ∷ []; entries = db.entries },
    )
  ]

  -- POST /cve/k8s/feed/sync
  unfoldable pub sync_k8s_feed :
      Python F → (String → Option OsvBlock) → Fetch → ℕ → ℕ → Tables → Reply Refreshed × Tables
  unfolding ensure_k8s_feed refresh_feed
  sync_k8s_feed py loads fetch new_id now db =
      let (feed, db') = ensure_k8s_feed new_id db in
      let (result, db'') = refresh_feed py loads fetch now feed.id db' in
      elim result [
        | returned r ↦ (sent r, db'')
        | raised e ↦ (http_error 502 ("Failed to fetch K8s CVE feed: " <> e), db'')
      ]

-- DEFAULT_CVE_FEEDS
abbrev pub default_cve_feeds : List FeedCreate
default_cve_feeds =
    record {
      name = "Kubernetes Official CVE Feed";
      url = "https://kubernetes.io/docs/reference/issues-security/official-cve-feed/index.json";
      feed_type = "json_feed";
      description =
          some "Official Kubernetes security CVE feed — updated by the Kubernetes security team";
    }
    ∷ record {
      name = "NVD — Kubernetes CVEs";
      url =
          "https://services.nvd.nist.gov/rest/json/cves/2.0?keywordSearch=kubernetes&resultsPerPage=2000";
      feed_type = "nvd";
      description = some "NIST NVD filtered for Kubernetes vulnerabilities (includes CVSS scores)";
    }
    ∷ record {
      name = "NVD — containerd CVEs";
      url =
          "https://services.nvd.nist.gov/rest/json/cves/2.0?keywordSearch=containerd&resultsPerPage=500";
      feed_type = "nvd";
      description = some "NIST NVD filtered for containerd runtime vulnerabilities";
    }
    ∷ []
