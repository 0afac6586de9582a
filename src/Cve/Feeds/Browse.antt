-- ===== src/Cve/Feeds/Browse.antt =====
-- The reads of feeds and entries in control-plane/app/routers/cve.py: a page of entries, the summary
-- and the status of the Kubernetes feed. The filters run one after the other, as the query
-- chains them. The order of a query's rows is the database's: it may arrange rows of one date in any
-- way, and in another way for the next query.
use kaaval.Base.{
  ℕ, String, Bool, true, false, ◌||◌, Option, none, some, List, [], ◌∷◌, map, length, filter, take,
  drop, if◌then◌else◌, ◌==◌, nat_eq, string_eq, ◌<>◌,
}
use kaaval.Base.Text.{upper, is_text}
use kaaval.Base.Sort.{IsSorted}
use kaaval.Floats.{Floats}
use kaaval.Cve.Osv.{Component}
use kaaval.Cve.Entry.{Entry, Link}
use kaaval.Cve.Feeds.{
  Feed, Tables, find_feed, find_by_name, k8s_feed_name, k8s_official_cve_feed_url,
}
use mathlib.Core.List.{Perm}

-- What the database gives: ILIKE of a text and a pattern, and "at least as late" of two dates.
pub record Database : Type 0 where
  pub ilike : String → String → Bool
  pub no_earlier : String → String → Bool

-- The query parameters of GET /cve/entries that filter.
pub record Filters : Type 0 where
  pub severity : Option String
  pub feed_id : Option ℕ
  pub search : Option String

-- `if severity:`, for a text that may be missing or empty
abbrev pub given : Option String → Option String
given none = none
given (some s) = if is_text s then some s else none

-- GET /cve/k8s/feed
pub data K8sFeedStatus : Type 0 where
  not_registered : String → String → K8sFeedStatus
  registered : ℕ → String → String → Bool → ℕ → Option ℕ → K8sFeedStatus

abbrev pub status_of : Feed → K8sFeedStatus
status_of feed =
    registered feed.id feed.name feed.url feed.enabled feed.entry_count feed.last_fetched

module _ (F : Floats) where
  -- An element of "entries"
  pub record EntryView : Type 0 where
    pub feed_id : ℕ
    pub cve_id : String
    pub title : String
    pub severity : String
    pub cvss_score : Option F.Float
    pub published_date : Option String
    pub affected_components : List Component
    pub fixed_in : List String
    pub references : List Link

  unfoldable pub view : Entry F → EntryView
  unfolding take
  view e = record {
    feed_id = e.feed_id;
    cve_id = e.cve_id;
    title = e.title;
    severity = e.severity;
    cvss_score = e.cvss_score;
    published_date = e.published_date;
    affected_components = e.affected_components;
    fixed_in = e.fixed_in;
    references = take 3 e.references;
  }

  pub record EntryPage : Type 0 where
    pub total : ℕ
    pub offset : ℕ
    pub limit : ℕ
    pub entries : List EntryView

  -- `.join(CVEFeed).filter(CVEFeed.enabled == True)`, on one row
  unfoldable pub in_enabled_feed : List Feed → Entry F → Bool
  unfolding find_feed
  in_enabled_feed feeds e = elim (find_feed e.feed_id feeds) [ none ↦ false | some f ↦ f.enabled ]

  unfoldable pub filter_severity : Option String → List (Entry F) → List (Entry F)
  unfolding filter upper
  filter_severity severity entries = elim (given severity) [
    | none ↦ entries
    | some s ↦ filter (λ e. e.severity == upper s) entries
  ]

  unfoldable pub filter_feed : Option ℕ → List (Entry F) → List (Entry F)
  unfolding filter
  filter_feed none entries = entries
  filter_feed (some id) entries = filter (λ e. e.feed_id == id) entries

  module _ (pg : Database) where
    unfoldable pub filter_search : Option String → List (Entry F) → List (Entry F)
    unfolding filter
    filter_search search entries = elim (given search) [
      | none ↦ entries
      | some s ↦
          let pattern = "%" <> (s <> "%") in
          filter (λ e. pg.ilike e.cve_id pattern || pg.ilike e.title pattern) entries
    ]

    -- The query before it is counted and ordered.
    unfoldable pub matching : Filters → Tables F → List (Entry F)
    unfolding filter filter_severity filter_feed filter_search in_enabled_feed
    matching filters db = filter_search filters.search (
        filter_feed filters.feed_id
          (filter_severity filters.severity (filter (in_enabled_feed db.feeds) db.entries)))

    -- `desc().nullslast()`
    abbrev pub nulls_last : Option String → Option String → Bool
    nulls_last c none = true
    nulls_last none (some d) = false
    nulls_last (some c) (some d) = pg.no_earlier c d

    -- `CVEEntry.published_date.desc().nullslast()`
    abbrev pub comes_before : Entry F → Entry F → Bool
    comes_before a b = nulls_last a.published_date b.published_date

    -- What ORDER BY promises: the same rows, by falling date, those without a date last. It does not
    -- promise more, so rows of one date may stand in any order.
    pub record IsArrangement (arrange : List (Entry F) → List (Entry F)) : Type 0 where
      pub same_rows : (rows : List (Entry F)) → Perm (arrange rows) rows
      pub by_date : (rows : List (Entry F)) → IsSorted comes_before (arrange rows)

    -- GET /cve/entries, with the arrangement that the database gives the rows of this one query. The
    -- database refuses a negative limit or offset.
    unfoldable pub list_entries :
        (List (Entry F) → List (Entry F)) → Filters → ℕ → ℕ → Tables F → EntryPage
    unfolding matching take drop view
    list_entries arrange filters limit offset db = record {
      total = length (matching filters db);
      offset = offset;
      limit = limit;
      entries = map view (take limit (drop offset (arrange (matching filters db))));
    }

  -- GET /cve/k8s/feed
  unfoldable pub get_k8s_feed_status : Tables F → K8sFeedStatus
  unfolding find_by_name
  get_k8s_feed_status db = elim (find_by_name k8s_feed_name db.feeds) [
    | none ↦
        not_registered k8s_official_cve_feed_url
          "Not yet registered. POST /cve/k8s/feed/sync to load it."
    | some feed ↦ status_of feed
  ]

  unfoldable pub count_of : String → List (Entry F) → ℕ
  unfolding filter
  count_of severity entries = length (filter (λ e. e.severity == severity) entries)

  -- "feeds", "total_cves" and "severity_breakdown" of GET /cve/summary; its "latest_scan" is a read of
  -- the table of scans.
  pub record Summary : Type 0 where
    pub feeds : ℕ
    pub total_cves : ℕ
    pub severity_breakdown : List (String × ℕ)

  unfoldable pub get_summary : Tables F → Summary
  unfolding count_of
  get_summary db = record {
    feeds = length db.feeds;
    total_cves = length db.entries;
    severity_breakdown =
        map (λ sev. (sev, count_of sev db.entries))
          ("CRITICAL" ∷ "HIGH" ∷ "MEDIUM" ∷ "LOW" ∷ "UNKNOWN" ∷ []);
  }
