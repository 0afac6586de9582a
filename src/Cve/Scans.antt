-- ===== src/Cve/Scans.antt =====
-- The CVE scans of control-plane/app: `scan_cluster`, `scan_registered_cluster`,
-- `scan_all_registered_clusters` and the reads of their results in cve_service.py, and the routes of
-- routers/cve.py over them. A new row goes to the front of its table; the fresh UUID of a row is chosen
-- by a function of the table.
pub mod Reads
pub mod Laws
pub mod Settled
use kaaval.Base.{
  ℕ, String, Bool, true, false, not, ◌&&◌, Option, none, some, List, [], ◌∷◌, ◌++◌, ◌<>◌, map,
  if◌then◌else◌, length, filter, any, take, ◌==◌, nat_eq, head?,
}
use kaaval.Base.Dict.{Dict}
use kaaval.Http.{Reply, sent, http_error, Outcome, returned, raised}
use kaaval.Floats.{Floats}
use kaaval.Scoring.{Context}
use kaaval.Finding.{Finding}
use kaaval.Rbac.Diff.{severity_breakdown}
use kaaval.Cve.Addons.{AddonFound}
use kaaval.Cve.Entry.{Entry, row_of}
use kaaval.Cve.Match.{match_cves}
use kaaval.Cve.Feeds.{Feed, Tables}
use kaaval.Cve.Inventory.{
  Inventory, Remote, collect_remote, InCluster, collect_in_cluster, addon_of,
}

-- A row of ClusterRegistration
pub record Cluster : Type 0 where
  pub id : ℕ
  pub tenant_id : ℕ
  pub name : String
  pub environment : Option String
  pub data_classification : Option String
  pub compliance_scope : List String
  pub exposure : Option String
  pub active : Bool
  pub last_seen : Option ℕ

-- `context` of scan_registered_cluster
abbrev pub context_of : Cluster → Context
context_of c = record {
  environment = some c.environment;
  data_classification = some c.data_classification;
  compliance_scope = c.compliance_scope;
  exposure = some c.exposure;
}

pub data Status : Type 0 where
  running completed failed : Status

-- The query of a tenant's cluster, which each route of a cluster makes first.
unfoldable pub find_cluster : ℕ → ℕ → List Cluster → Option Cluster
find_cluster cluster_id tenant_id [] = none
find_cluster cluster_id tenant_id (c ∷ clusters) =
    if c.id == cluster_id && c.tenant_id == tenant_id
    then some c
    else find_cluster cluster_id tenant_id clusters

module _ (F : Floats) where
  -- `db.query(CVEEntry).join(CVEFeed).filter(CVEFeed.enabled == True)`
  unfoldable pub enabled_entries : Tables F → List (Entry F)
  unfolding filter any
  enabled_entries db =
      filter (λ e. any (λ (f : Feed). f.id == e.feed_id && f.enabled) db.feeds) db.entries

  -- A row of CVEScanResult or K8sCVEScanResult; the ids are those of the latter.
  pub record Scan : Type 0 where
    pub id : ℕ
    pub scanned_at : ℕ
    pub cluster_id : ℕ
    pub tenant_id : ℕ
    pub cluster_version : Option String
    pub node_versions : List String
    pub addons : List AddonFound
    pub total_cves_checked : ℕ
    pub affected_count : ℕ
    pub findings : List (Finding F)
    pub status : Status
    pub error : Option String

  pub record ScanTables : Type 0 where
    pub scans : List Scan
    pub clusters : List Cluster

  -- `K8sCVEScanResult(cluster_id, tenant_id, status="running")`
  abbrev pub running_scan : ℕ → ℕ → ℕ → ℕ → Scan
  running_scan id now cluster_id tenant_id = record {
    id = id;
    scanned_at = now;
    cluster_id = cluster_id;
    tenant_id = tenant_id;
    cluster_version = none;
    node_versions = [];
    addons = [];
    total_cves_checked = 0;
    affected_count = 0;
    findings = [];
    status = running;
    error = none;
  }

  module _ (walk : List String → List String) where
    -- `_match_cves` on the entries of the enabled feeds.
    unfoldable pub match_inventory : Tables F → Inventory → Context → List (Finding F)
    unfolding enabled_entries match_cves row_of
    match_inventory feeds inventory context =
        match_cves F walk (map (row_of F) (enabled_entries feeds)) inventory.server_version
          inventory.node_versions (map addon_of inventory.addons) context

    -- The assignments of a scan that has its findings.
    unfoldable pub completed_scan : Tables F → Inventory → Context → Scan → Scan
    unfolding match_inventory enabled_entries
    completed_scan feeds inventory context scan =
        let findings = match_inventory feeds inventory context in
        record scan {
          cluster_version = some inventory.server_version;
          node_versions = inventory.node_versions;
          addons = inventory.addons;
          total_cves_checked = length (enabled_entries feeds);
          affected_count = length findings;
          findings = findings;
          status = completed;
        }

    -- `scan_cluster`, whose result row takes the next place in its own table.
    unfoldable pub scan_cluster : ℕ → Tables F → InCluster → Context → List Scan → Scan × List Scan
    unfolding completed_scan collect_in_cluster
    scan_cluster now feeds k context results =
        let scan = completed_scan feeds (collect_in_cluster k) context (running_scan 0 now 0 0) in
        (scan, scan ∷ results)

  -- A write to the row with an id.
  unfoldable pub update_scan : ℕ → (Scan → Scan) → List Scan → List Scan
  update_scan id change [] = []
  update_scan id change (s ∷ scans) =
      (if s.id == id then change s else s) ∷ update_scan id change scans

  -- `cluster.last_seen = datetime.utcnow()`
  unfoldable pub touch : ℕ → ℕ → List Cluster → List Cluster
  touch now id [] = []
  touch now id (c ∷ clusters) =
      (if c.id == id then record c { last_seen = some now } else c) ∷ touch now id clusters

  -- `_format_scan_result` and the summaries of the other scans.
  pub record ScanSummary : Type 0 where
    pub scan : Scan
    pub severity_breakdown : Dict String ℕ

  abbrev pub format_scan_result : Scan → ScanSummary
  format_scan_result scan = record {
    scan = scan;
    severity_breakdown = severity_breakdown F scan.findings;
  }

  -- `db.add(scan_result); db.commit()`
  abbrev begin_scan : ℕ → ℕ → Cluster → ℕ → ScanTables → ScanTables
  begin_scan id now cluster tenant_id db = record {
    scans = running_scan id now cluster.id tenant_id ∷ db.scans;
    clusters = db.clusters;
  }

  -- The handler of the `except`.
  abbrev pub failed_scan : String → Scan → Scan
  failed_scan e scan = record scan { status = failed; error = some e }

  -- What scan_all_registered_clusters reports of a cluster.
  pub data Report : Type 0 where
    scanned : ScanSummary → Report
    not_scanned : ℕ → String → String → Report

  abbrev pub report_of : Cluster → Outcome ScanSummary → Report
  report_of cluster (returned result) = scanned result
  report_of cluster (raised e) = not_scanned cluster.id cluster.name e

  module _ (walk : List String → List String) (new_id : List Scan → ℕ) where
    -- scan_registered_cluster: the row is written as running, and then as completed or as failed.
    unfoldable pub scan_registered_cluster :
        Tables F → Remote → ℕ → Cluster → ℕ → ScanTables → Outcome ScanSummary × ScanTables
    unfolding completed_scan collect_remote update_scan touch
    scan_registered_cluster feeds remote now cluster tenant_id db =
        let id = new_id db.scans in
        let begun = begin_scan id now cluster tenant_id db in
        let started = running_scan id now cluster.id tenant_id in
        elim (collect_remote remote) [
          | raised e ↦ (
            raised e,
            record {
              scans = update_scan id (failed_scan e) begun.scans;
              clusters = begun.clusters;
            },
          )
          | returned inventory ↦
              let finish = completed_scan walk feeds inventory (context_of cluster) in
              (
                returned (format_scan_result (finish started)),
                record {
                  scans = update_scan id finish begun.scans;
                  clusters = touch now cluster.id begun.clusters;
                },
              )
        ]

    -- The loop over the clusters; each has its own responses.
    unfoldable pub scan_each :
        Tables F → (Cluster → Remote) → ℕ → List Cluster → ℕ → ScanTables → List Report × ScanTables
    unfolding scan_registered_cluster
    scan_each feeds remote now [] tenant_id db = ([], db)
    scan_each feeds remote now (cluster ∷ clusters) tenant_id db =
        let (result, db') =
          scan_registered_cluster feeds (remote cluster) now cluster tenant_id db in
        let (results, db'') = scan_each feeds remote now clusters tenant_id db' in
        (report_of cluster result ∷ results, db'')

    unfoldable pub scan_all_registered_clusters :
        Tables F → (Cluster → Remote) → ℕ → ℕ → ScanTables → List Report × ScanTables
    unfolding scan_each filter
    scan_all_registered_clusters feeds remote now tenant_id db =
        scan_each feeds remote now (filter (λ c. c.tenant_id == tenant_id && c.active) db.clusters)
          tenant_id db

    -- The answer of the route to what the service returns.
    abbrev answer : Outcome ScanSummary × ScanTables → Reply ScanSummary × ScanTables
    answer (returned result, db) = (sent result, db)
    answer (raised e, db) = (http_error 502 ("Cluster scan failed: " <> e), db)

    -- POST /cve/k8s/clusters/{cluster_id}/scan
    unfoldable pub scan_route :
        Tables F → (Cluster → Remote) → ℕ → ℕ → ℕ → ScanTables → Reply ScanSummary × ScanTables
    unfolding find_cluster scan_registered_cluster
    scan_route feeds remote now cluster_id tenant_id db =
        elim (find_cluster cluster_id tenant_id db.clusters) [
          | none ↦ (http_error 404 "Cluster not found.", db)
          | some cluster ↦
              let scan = scan_registered_cluster feeds (remote cluster) now cluster tenant_id db in
              if not cluster.active
              then (http_error 400 "Cluster is not active.", db)
              else answer scan
        ]
