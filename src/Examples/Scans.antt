-- ===== src/Examples/Scans.antt =====
-- A cluster that is scanned with the entries of a feed of NVD, and the add-ons of its images.
use kaaval.Base.{
  ◌≡◌, refl, ℕ, ◌+◌, ◌≤◌, true, false, not, none, some, List, [], ◌∷◌, any, all, filter, flat_map,
  contains, ◌==◌, nat_eq, string_eq, is_some, ◌&&◌, arith,
}
use kaaval.Base.Member.{Member, here}
use kaaval.Base.Regex.{search_in, either_case}
use kaaval.Base.Text.{lower, is_text}
use kaaval.Base.Parsing.{split_at, lstrip_char, to_int, occurs_in}
use kaaval.Base.Text.{strip}
use kaaval.Http.{returned}
use kaaval.Cve.Version.{version_in_range, version_lt, lower_bound, parse_semver}
use kaaval.Cve.Entry.{row_of}
use kaaval.Cve.Nvd.{component_name, nvd_entry}
use kaaval.Cve.Match.{
  versions_map, kubernetes_versions, add_versions, add_version, add_addons, same_component,
  cve_finding, entry_matches,
}
use kaaval.Cve.Match.Candidates.{IsCandidate}
use kaaval.Cve.Addons.{Workload, image_matches, detect_addons, detect_addons_remote}
use kaaval.Cve.Addons.Laws.{Unambiguous, detect_addons-remote}
use kaaval.Cve.Feeds.{refresh_feed}
use kaaval.Cve.Inventory.{Inventory, Remote, server_version}
use kaaval.Base.{flat_map}
use kaaval.Cve.Scans.{
  context_of, Cluster, Scan, ScanTables, ScanSummary, format_scan_result, completed_scan,
  running_scan, scan_registered_cluster, scan_all_registered_clusters, match_inventory,
}
use kaaval.Cve.Scans.Reads.{list_clusters}
use kaaval.Cve.Scans.Settled.{
  Leaves, AllReported, ids, scan_registered_cluster_settles, scan_all_registered_clusters_settles,
}
use kaaval.Cve.Scans.Laws.{list_clusters_sent}
use kaaval.Cve.Pipeline.{cpes_of, nvd_refresh-reported}
use kaaval.Examples.Fixed.{fixed, production}
use kaaval.Examples.Cves.{in_order, in_order-IsWalk}
use kaaval.Examples.Feeds.{
  python, no_block, fetch, cve, containerd, document, nvd_feed, one_feed, nvd_found,
}

abbrev web : Workload
web = record {
  namespace = "kube-system";
  name = "dns";
  images = "registry.k8s.io/coredns/coredns:v1.11.1" ∷ [];
}

abbrev agents : Workload
agents = record { namespace = "kube-system"; name = "agents"; images = "busybox:1.36" ∷ [] }

web-Unambiguous : Unambiguous (web ∷ [])
unfolding filter image_matches search_in either_case
web-Unambiguous = omega arith

agents-Unambiguous : Unambiguous (agents ∷ [])
unfolding filter image_matches search_in either_case
agents-Unambiguous = omega arith

detect_addons-remote_example :
    detect_addons_remote (some (web ∷ [])) (some (agents ∷ []))
    ≡ detect_addons (some (web ∷ [])) (some (agents ∷ []))
detect_addons-remote_example =
    detect_addons-remote (web ∷ []) (agents ∷ []) web-Unambiguous agents-Unambiguous

abbrev cluster : Cluster
cluster = record {
  id = 3;
  tenant_id = 1;
  name = "edge";
  environment = some "production";
  data_classification = none;
  compliance_scope = "PCI-DSS" ∷ [];
  exposure = some "internal";
  active = true;
  last_seen = none;
}

abbrev tables : ScanTables fixed
tables = record { scans = []; clusters = cluster ∷ [] }

abbrev responses : Remote
responses = record {
  version = returned (record { git_version = some "v1.30.1"; major = none; minor = none });
  nodes = returned [];
  deployments = none;
  daemonsets = none;
}

-- More than every id of the table.
next_id : List (Scan fixed) → ℕ
next_id [] = 1
next_id (s ∷ scans) = s.id + next_id scans + 1

contains-above :
    (k : ℕ) (scans : List (Scan fixed)) → next_id scans ≤ k → contains (ids scans) k ≡ false
unfolding contains next_id
contains-above k [] h = refl
contains-above k (s ∷ scans) h = ground (arith, contains-above k scans)

next_id-fresh : (scans : List (Scan fixed)) → contains (ids scans) (next_id scans) ≡ false
next_id-fresh scans = contains-above (next_id scans) scans (omega arith)

scan_registered_cluster_settles_example :
    (scan : Scan fixed) × ((scan_registered_cluster fixed in_order next_id one_feed responses 100
        cluster 1 tables).1.scans
      ≡ scan ∷ [])
    × Leaves fixed in_order next_id one_feed cluster 1 100
        (scan_registered_cluster fixed in_order next_id one_feed responses 100 cluster 1 tables).0
        scan
scan_registered_cluster_settles_example =
    scan_registered_cluster_settles fixed in_order next_id one_feed responses 100 cluster 1 tables
      (next_id-fresh [])

abbrev collected : Inventory
collected = record {
  server_version = server_version "v1.30.1" "0" "0";
  node_versions = [];
  addons = detect_addons_remote none none;
}

abbrev summary : ScanSummary fixed
summary = format_scan_result fixed (
    completed_scan fixed in_order one_feed collected (context_of cluster)
      (running_scan fixed 1 100 3 1))

scan_all_registered_clusters_settles_example :
    AllReported fixed in_order next_id 1
      (filter (λ c. c.tenant_id == 1 && c.active) (cluster ∷ []))
      []
      (scan_all_registered_clusters fixed in_order next_id one_feed (λ c. responses) 100 1 tables).0
      (scan_all_registered_clusters fixed in_order next_id one_feed
        (λ c. responses)
        100
        1
        tables).1.scans
scan_all_registered_clusters_settles_example =
    scan_all_registered_clusters_settles fixed in_order next_id one_feed (λ c. responses) 100 1
      tables next_id-fresh

list_clusters_sent_example :
    is_some (list_clusters fixed 1 tables)
    ≡ all
        (λ c. not (any (λ s. s.cluster_id == c.id) tables.scans))
        (filter (λ c. c.tenant_id == 1) tables.clusters)
list_clusters_sent_example = list_clusters_sent fixed 1 tables

abbrev runs_1_30_1 : Inventory
runs_1_30_1 = record { server_version = "1.30.1"; node_versions = []; addons = [] }

kubernetes_runs :
    IsCandidate (lower (component_name containerd.criteria)) (versions_map "1.30.1" [] []) "1.30.1"
unfolding versions_map kubernetes_versions add_versions add_version add_addons lower contains
    same_component component_name split_at occurs_in
kubernetes_runs = ("kubernetes", "1.30.1" ∷ [], here refl, refl, here refl)

kubernetes_named : is_text (lower (component_name containerd.criteria)) ≡ true
unfolding lower component_name split_at occurs_in
kubernetes_named = refl

in_range : version_in_range "1.30.1" (some "1.30.0") (some "1.30.5") ≡ true
unfolding version_in_range version_lt lower_bound parse_semver split_at lstrip_char strip to_int
    occurs_in
in_range = refl

in_cve : Member containerd (cpes_of cve.configurations)
unfolding flat_map
in_cve = here refl

nvd_refresh-reported_example :
    Member
      (cve_finding fixed in_order production (row_of fixed (nvd_entry fixed python 7 cve)) (
        entry_matches fixed in_order
          (versions_map "1.30.1" [] [])
          (row_of fixed (nvd_entry fixed python 7 cve))))
      (match_inventory fixed in_order
        (refresh_feed fixed python no_block fetch 100 7 one_feed).1
        runs_1_30_1
        production)
nvd_refresh-reported_example =
    nvd_refresh-reported fixed python in_order in_order-IsWalk no_block fetch 100 7 one_feed
      nvd_feed document (cve ∷ []) cve containerd runs_1_30_1 production "1.30.1" nvd_found refl
      refl refl (here refl) in_cve refl kubernetes_named kubernetes_runs refl in_range
