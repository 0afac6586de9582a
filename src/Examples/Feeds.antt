-- ===== src/Examples/Feeds.antt =====
-- A feed of NVD that is refreshed, and a cluster that is scanned with its entries.
use kaaval.Base.{
  ◌≡◌, refl, ℕ, String, true, false, Option, none, some, [], ◌∷◌, filter, contains, nat_eq,
  string_eq,
}
use kaaval.Base.Member.{Member, here}
use kaaval.Http.{returned}
use kaaval.Cve.Entry.{Python}
use kaaval.Cve.Nvd.{CpeMatch, NvdCve}
use kaaval.Cve.OsvFeed.{Vuln}
use kaaval.Cve.JsonFeed.{OsvBlock, Document}
use kaaval.Cve.Feeds.{
  Feed, FeedCreate, find_feed, Tables, add_feed, Fetch, fetch_and_parse, refresh_route,
  refresh_all_feeds,
}
use kaaval.Cve.Feeds.Invariant.{entries_of, IsConsistent}
use kaaval.Cve.Feeds.Refresh.{refreshed}
use kaaval.Cve.Feeds.RefreshAll.{refresh_all_feeds_each}
use kaaval.Cve.Feeds.Steps.{Reach, add, refresh, here as start, next, Reach-IsConsistent}
use kaaval.Examples.Fixed.{fixed}

abbrev pub python : Python fixed
python = record { to_float = λ s. none; from_iso = λ s. some s; in_set = λ xs. xs }

abbrev pub no_block : String → Option OsvBlock
no_block s = none

-- Every containerd from 1.6.0 up to 1.7.27.
abbrev pub containerd : CpeMatch
containerd = record {
  vulnerable = true;
  criteria = some "cpe:2.3:a:containerd:kubernetes:*:*:*:*:*:*:*:*";
  version_start_including = some "1.30.0";
  version_end_excluding = some "1.30.5";
}

abbrev pub cve : NvdCve fixed
cve = record {
  id = some "CVE-2024-0001";
  descriptions = [];
  metrics_v31 = record { base_score = some 980; base_severity = some "critical" } ∷ [];
  metrics_v30 = [];
  metrics_v2 = [];
  configurations = record { nodes = record { cpe_match = containerd ∷ [] } ∷ [] } ∷ [];
  references = [];
  published = none;
  last_modified = none;
}

abbrev no_vuln : Vuln fixed
no_vuln = record {
  id = none;
  aliases = [];
  db_cvss = none;
  db_severity = none;
  severity_scores = [];
  affected = [];
  references = [];
  summary = none;
  details = none;
  published = none;
  modified = none;
}

abbrev pub document : Document fixed
document = record {
  vulnerabilities = some (cve ∷ []);
  vulns = none;
  has_affected = false;
  has_references = false;
  single = no_vuln;
  items = none;
}

abbrev pub fetch : Fetch fixed
fetch feed = returned document

abbrev nvd : FeedCreate
nvd = record { name = "NVD"; url = "https://nvd"; feed_type = "nvd"; description = none }

abbrev pub nvd_feed : Feed
nvd_feed = record {
  id = 7;
  name = "NVD";
  url = "https://nvd";
  feed_type = "nvd";
  description = none;
  enabled = true;
  last_fetched = none;
  entry_count = 0;
}

abbrev no_rows : Tables fixed
no_rows = record { feeds = []; entries = [] }

abbrev pub one_feed : Tables fixed
one_feed = record { feeds = nvd_feed ∷ []; entries = [] }

no_rows-IsConsistent : IsConsistent no_rows
no_rows-IsConsistent = record { distinct_ids = tt; distinct_names = tt; owned = tt; counted = tt }

one_feed-IsConsistent : IsConsistent one_feed
unfolding contains entries_of
one_feed-IsConsistent = record {
  distinct_ids = (refl, tt);
  distinct_names = (refl, tt);
  owned = tt;
  counted = (refl, tt);
}

fresh_id : contains {A = ℕ} [] 7 ≡ false
unfolding contains
fresh_id = refl

-- The feed is added, and then refreshed.
abbrev added : Tables fixed
added = (add_feed fixed 7 nvd no_rows).1

two_requests :
    Reach python no_block no_rows (refresh_route fixed python no_block fetch 100 7 added).1
two_requests = next (next start (add no_rows 7 nvd fresh_id)) (refresh added fetch 100 7)

Reach-IsConsistent_example : IsConsistent (refresh_route fixed python no_block fetch 100 7 added).1
Reach-IsConsistent_example = Reach-IsConsistent python no_block no_rows-IsConsistent two_requests

pub nvd_found : find_feed 7 one_feed.feeds ≡ some nvd_feed
unfolding find_feed
nvd_found = refl

nvd_enabled : Member nvd_feed (filter (λ g. g.enabled) one_feed.feeds)
unfolding filter
nvd_enabled = here refl

refresh_all_feeds_each_example :
    entries_of 7 (refresh_all_feeds fixed python no_block fetch 100 one_feed).1.entries
    ≡ refreshed
        (fetch_and_parse fixed python no_block fetch nvd_feed)
        (entries_of 7 one_feed.entries)
refresh_all_feeds_each_example =
    refresh_all_feeds_each python no_block fetch 100 one_feed nvd_feed one_feed-IsConsistent
      nvd_enabled
