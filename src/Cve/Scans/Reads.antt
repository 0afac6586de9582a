-- ===== src/Cve/Scans/Reads.antt =====
-- The reads of CVE scans in control-plane/app/cve_service.py and routers/cve.py: the latest scan, the
-- history, and the list of clusters.
use kaaval.Base.{
  ℕ, String, Bool, Option, none, some, List, [], ◌∷◌, map, filter, take, ◌==◌, nat_eq,
}
use kaaval.Base.Newest.{newest_first}
use kaaval.Floats.{Floats}
use kaaval.Cve.Scans.{Cluster, Scan, ScanTables, ScanSummary, format_scan_result}

-- An element of the answer of GET /cve/k8s/clusters that has no "latest_scan".
pub record ClusterStatus : Type 0 where
  pub id : ℕ
  pub name : String
  pub environment : Option String
  pub active : Bool
  pub last_seen : Option ℕ

abbrev pub status_of : Cluster → ClusterStatus
status_of c = record {
  id = c.id;
  name = c.name;
  environment = c.environment;
  active = c.active;
  last_seen = c.last_seen;
}

abbrev pub cons_status : ClusterStatus → Option (List ClusterStatus) → Option (List ClusterStatus)
cons_status s none = none
cons_status s (some ss) = some (s ∷ ss)

module _ (F : Floats) where
  -- The scans of a cluster, by `order_by(scanned_at.desc())`.
  unfoldable pub scans_of : ℕ → List (Scan F) → List (Scan F)
  unfolding filter newest_first
  scans_of cluster_id scans =
      newest_first (λ s. s.scanned_at) (filter (λ s. s.cluster_id == cluster_id) scans)

  -- get_latest_cluster_scan
  unfoldable pub get_latest_cluster_scan : ℕ → List (Scan F) → Option (ScanSummary F)
  unfolding scans_of
  get_latest_cluster_scan cluster_id scans = elim (scans_of cluster_id scans) [
    | [] ↦ none
    | scan ∷ older ↦ some (format_scan_result F scan)
  ]

  -- get_cluster_scan_history
  unfoldable pub get_cluster_scan_history : ℕ → ℕ → List (Scan F) → List (ScanSummary F)
  unfolding scans_of take
  get_cluster_scan_history cluster_id limit scans =
      map (λ s. format_scan_result F s) (take limit (scans_of cluster_id scans))

  -- The loop of GET /cve/k8s/clusters. The summary of a latest scan reads `_severity_breakdown` as an
  -- attribute of the service object, which has none: `none` is the AttributeError.
  unfoldable pub cluster_statuses : List (Scan F) → List Cluster → Option (List ClusterStatus)
  unfolding scans_of
  cluster_statuses scans [] = some []
  cluster_statuses scans (c ∷ clusters) =
      let rest = cluster_statuses scans clusters in
      elim (scans_of c.id scans) [ [] ↦ cons_status (status_of c) rest | s ∷ older ↦ none ]

  -- GET /cve/k8s/clusters, from the clusters in the order of their names.
  unfoldable pub list_clusters : ℕ → ScanTables F → Option (List ClusterStatus)
  unfolding cluster_statuses filter
  list_clusters tenant_id db =
      cluster_statuses db.scans (filter (λ c. c.tenant_id == tenant_id) db.clusters)
