-- ===== src/Cve/Scans/Settled.antt =====
-- Every scan of control-plane/app/cve_service.py leaves one row of its own, completed or failed.
use kaaval.Base.{
  ◌≡◌, refl, ap, ◌∙◌, ℕ, String, false, ◌&&◌, none, some, List, [], ◌∷◌, length, filter, contains,
  map, All, ◌==◌, ==-refl, nat_eq, inl, inr, arith,
}
use kaaval.Http.{Outcome, returned, raised}
use kaaval.Floats.{Floats}
use kaaval.Cve.Feeds.{Tables}
use kaaval.Http.{Outcome-cases}
use kaaval.Cve.Inventory.{Remote, collect_remote}
use kaaval.Cve.Scans.{
  Cluster, Report, scanned, not_scanned, report_of, completed, failed, enabled_entries, Scan,
  ScanTables, ScanSummary, format_scan_result, completed_scan, context_of, update_scan, failed_scan,
  running_scan, scan_registered_cluster, scan_each, scan_all_registered_clusters,
}

module _ {F : Floats} where
  abbrev pub ids : List (Scan F) → List ℕ
  ids [] = []
  ids (s ∷ scans) = s.id ∷ ids scans

  update_scan-absent :
      (id : ℕ) (change : Scan F → Scan F) (scans : List (Scan F))
      → contains (ids scans) id ≡ false
      → update_scan F id change scans ≡ scans
  unfolding update_scan contains
  update_scan-absent id change [] h = refl
  update_scan-absent id change (s ∷ scans) h = ground (arith, update_scan-absent id change scans)

  -- The row just begun is the only one that is written.
  update_scan-first :
      (change : Scan F → Scan F) (s : Scan F) (scans : List (Scan F))
      → contains (ids scans) s.id ≡ false
      → update_scan F s.id change (s ∷ scans) ≡ change s ∷ scans
  unfolding update_scan
  update_scan-first change s scans fresh =
      rw (==-refl s.id) (ap (◌∷◌ (change s)) (update_scan-absent s.id change scans fresh))

module _ (F : Floats) (walk : List String → List String) (new_id : List (Scan F) → ℕ) where
  -- The row that a scan leaves: failed with the error that was raised, or completed with its counts.
  abbrev pub Leaves : Tables F → Cluster → ℕ → ℕ → Outcome (ScanSummary F) → Scan F → Type 0
  Leaves feeds cluster tenant_id now (raised e) scan =
      (scan.status ≡ failed)
      × (scan.error ≡ some e)
      × (scan.cluster_id ≡ cluster.id)
      × (scan.tenant_id ≡ tenant_id)
      × (scan.scanned_at ≡ now)
  Leaves feeds cluster tenant_id now (returned summary) scan =
      (scan.status ≡ completed)
      × (scan.error ≡ none)
      × (scan.cluster_id ≡ cluster.id)
      × (scan.tenant_id ≡ tenant_id)
      × (summary ≡ format_scan_result F scan)
      × (scan.affected_count ≡ length scan.findings)
      × (scan.total_cves_checked ≡ length (enabled_entries F feeds))
      × (scan.scanned_at ≡ now)

  -- A scan under a fresh id adds one row and leaves the others: failed with the error that the call
  -- raises, or completed with the summary that it returns and with its counts, and never running.
  pub scan_registered_cluster_settles :
      (feeds : Tables F) (remote : Remote) (now : ℕ) (cluster : Cluster) (tenant_id : ℕ)
      (db : ScanTables F)
      → contains (ids db.scans) (new_id db.scans) ≡ false
      → (scan : Scan F) × ((scan_registered_cluster F walk new_id feeds remote now cluster tenant_id
            db).1.scans
          ≡ scan ∷ db.scans)
        × Leaves feeds cluster tenant_id now
            (scan_registered_cluster F walk new_id feeds remote now cluster tenant_id db).0
            scan
  unfolding scan_registered_cluster completed_scan
  scan_registered_cluster_settles feeds remote now cluster tenant_id db fresh =
      let start = running_scan F (new_id db.scans) now cluster.id tenant_id in
      elim (Outcome-cases (collect_remote remote)) [
        | inl (e, r) ↦ (
          failed_scan F e start,
          rw (r, scan_registered_cluster)
              (update_scan-first (failed_scan F e) start db.scans fresh),
          rw (r, scan_registered_cluster, Leaves) (refl, refl, refl, refl, refl),
        )
        | inr (inventory, r) ↦
            let finish = completed_scan F walk feeds inventory (context_of cluster) in
            (
              finish start,
              rw (r, scan_registered_cluster) (update_scan-first finish start db.scans fresh),
              rw (r, scan_registered_cluster, Leaves)
                  (refl, refl, refl, refl, refl, refl, refl, refl),
            )
      ]

  -- What scan_all_registered_clusters reports of a cluster and the row that its scan leaves: the summary
  -- of that row, which is completed, or the cluster with the error of that row, which is failed.
  abbrev pub IsReported : ℕ → Cluster → Report F → Scan F → Type 0
  IsReported tenant_id cluster (scanned summary) scan =
      (summary ≡ format_scan_result F scan)
      × (scan.status ≡ completed)
      × (scan.error ≡ none)
      × (scan.cluster_id ≡ cluster.id)
      × (scan.tenant_id ≡ tenant_id)
  IsReported tenant_id cluster (not_scanned id name e) scan =
      (scan.error ≡ some e)
      × (scan.status ≡ failed)
      × (id ≡ cluster.id)
      × (name ≡ cluster.name)
      × (scan.cluster_id ≡ cluster.id)
      × (scan.tenant_id ≡ tenant_id)

  -- The clusters in their order, each with its report and its row.
  abbrev pub Runs : Type 0
  Runs = List (Cluster × (Report F × Scan F))

  -- The rows of the runs in front of the earlier ones, the last run first.
  abbrev pub onto : Runs → List (Scan F) → List (Scan F)
  onto [] scans = scans
  onto ((cluster, (report, scan)) ∷ runs) scans = onto runs (scan ∷ scans)

  Leaves-IsReported :
      (feeds : Tables F) (cluster : Cluster) (tenant_id now : ℕ) (o : Outcome (ScanSummary F))
      (scan : Scan F)
      → Leaves feeds cluster tenant_id now o scan
      → IsReported tenant_id cluster (report_of F cluster o) scan
  Leaves-IsReported feeds cluster tenant_id now (raised e) scan h = (h.1, h.0, refl, refl, h.2, h.3)
  Leaves-IsReported feeds cluster tenant_id now (returned s) scan h = (h.4, h.0, h.1, h.2, h.3)

  -- Each cluster has its report and its row, in the order of the clusters.
  pub record AllReported (tenant_id : ℕ) (clusters : List Cluster) (before : List (Scan F))
      (reports : List (Report F)) (after : List (Scan F)) : Type 0 where
    pub runs : Runs
    pub of_clusters : map (λ r. r.0) runs ≡ clusters
    pub of_reports : map (λ r. r.1.0) runs ≡ reports
    pub of_rows : after ≡ onto runs before
    pub reported : All (λ r. IsReported tenant_id r.0 r.1.0 r.1.1) runs

  scan_each-reported :
      (feeds : Tables F) (remote : Cluster → Remote) (now : ℕ) (clusters : List Cluster)
      (tenant_id : ℕ) (db : ScanTables F)
      → ((scans : List (Scan F)) → contains (ids scans) (new_id scans) ≡ false)
      → AllReported tenant_id clusters db.scans
          (scan_each F walk new_id feeds remote now clusters tenant_id db).0
          (scan_each F walk new_id feeds remote now clusters tenant_id db).1.scans
  unfolding scan_each
  scan_each-reported feeds remote now [] tenant_id db fresh = record {
    runs = [];
    of_clusters = refl;
    of_reports = refl;
    of_rows = refl;
    reported = tt;
  }
  scan_each-reported feeds remote now (cluster ∷ clusters) tenant_id db fresh =
      let (scan, added, left) =
        scan_registered_cluster_settles feeds (remote cluster) now cluster tenant_id db
          (fresh db.scans) in
      let db' =
        (scan_registered_cluster F walk new_id feeds (remote cluster) now cluster tenant_id db).1 in
      let outcome =
        (scan_registered_cluster F walk new_id feeds (remote cluster) now cluster tenant_id db).0 in
      let rest = scan_each-reported feeds remote now clusters tenant_id db' fresh in
      record {
        runs = (cluster, (report_of F cluster outcome, scan)) ∷ rest.runs;
        of_clusters = ap (◌∷◌ cluster) rest.of_clusters;
        of_reports = ap (◌∷◌ (report_of F cluster outcome)) rest.of_reports;
        of_rows = rest.of_rows ∙ ap (onto rest.runs) added;
        reported = (Leaves-IsReported feeds cluster tenant_id now outcome scan left, rest.reported);
      }

  -- If every new id is fresh, a scan of all clusters of a tenant reports on each of its active clusters,
  -- in their order and on no other, and adds one row for each, whichever of them fail: a completed row
  -- with its summary as the report, or a failed row with the id and the name of the cluster and the error
  -- as the report. The rows that were there stay.
  pub scan_all_registered_clusters_settles :
      (feeds : Tables F) (remote : Cluster → Remote) (now tenant_id : ℕ) (db : ScanTables F)
      → ((scans : List (Scan F)) → contains (ids scans) (new_id scans) ≡ false)
      → AllReported tenant_id
          (filter (λ c. c.tenant_id == tenant_id && c.active) db.clusters)
          db.scans
          (scan_all_registered_clusters F walk new_id feeds remote now tenant_id db).0
          (scan_all_registered_clusters F walk new_id feeds remote now tenant_id db).1.scans
  unfolding scan_all_registered_clusters
  scan_all_registered_clusters_settles feeds remote now tenant_id db fresh =
      scan_each-reported feeds remote now
        (filter (λ c. c.tenant_id == tenant_id && c.active) db.clusters) tenant_id db fresh
