-- ===== src/Cve/Scans/Laws.antt =====
-- The list of clusters with their latest scans, of control-plane/app/routers/cve.py.
use kaaval.Base.{
  ◌≡◌, refl, ◌∙◌, ℕ, Bool, not, Option, none, some, List, [], ◌∷◌, filter, any, all, nonempty,
  is_some, ◌&&◌, ◌==◌, nat_eq, Bool-cases, inl, inr,
}
use kaaval.Base.Newest.{nonempty-newest_first}
use kaaval.Floats.{Floats}
use kaaval.Cve.Scans.{Cluster, Scan, ScanTables}
use kaaval.Cve.Scans.Reads.{
  scans_of, status_of, cons_status, ClusterStatus, cluster_statuses, list_clusters,
}

is_some-cons_status :
    (s : ClusterStatus) (o : Option (List ClusterStatus)) → is_some (cons_status s o) ≡ is_some o
is_some-cons_status s none = refl
is_some-cons_status s (some ss) = refl

module _ (F : Floats) where
  never_scanned : List (Scan F) → Cluster → Bool
  never_scanned scans c = not (any (λ s. s.cluster_id == c.id) scans)

  nonempty-own :
      (k : ℕ) (scans : List (Scan F))
      → nonempty (filter (λ s. s.cluster_id == k) scans) ≡ any (λ s. s.cluster_id == k) scans
  unfolding filter any
  nonempty-own k [] = refl
  nonempty-own k (s ∷ scans) = elim (Bool-cases (s.cluster_id == k)) [
    | inl e ↦ rw e refl
    | inr e ↦ rw e (nonempty-own k scans)
  ]

  nonempty-scans_of :
      (k : ℕ) (scans : List (Scan F))
      → nonempty (scans_of F k scans) ≡ any (λ s. s.cluster_id == k) scans
  unfolding scans_of
  nonempty-scans_of k scans =
      nonempty-newest_first (λ s. s.scanned_at) (filter (λ s. s.cluster_id == k) scans)
      ∙ nonempty-own k scans

  statuses_step :
      (scans : List (Scan F)) (c : Cluster) (clusters : List Cluster) (found : List (Scan F))
      → is_some (elim found [
        | [] ↦ cons_status (status_of c) (cluster_statuses F scans clusters)
        | s ∷ older ↦ none
      ])
        ≡ (not (nonempty found) && is_some (cluster_statuses F scans clusters))
  statuses_step scans c clusters [] =
      is_some-cons_status (status_of c) (cluster_statuses F scans clusters)
  statuses_step scans c clusters (s ∷ older) = refl

  is_some-cluster_statuses :
      (scans : List (Scan F)) (clusters : List Cluster)
      → is_some (cluster_statuses F scans clusters) ≡ all (never_scanned scans) clusters
  unfolding cluster_statuses all never_scanned
  is_some-cluster_statuses scans [] = refl
  is_some-cluster_statuses scans (c ∷ clusters) =
      statuses_step scans c clusters (scans_of F c.id scans)
      ∙ rw (nonempty-scans_of c.id scans, is_some-cluster_statuses scans clusters) refl

  -- The list of a tenant's clusters is sent exactly when none of them has ever been scanned; as soon as
  -- one has, the route raises.
  pub list_clusters_sent :
      (tenant_id : ℕ) (db : ScanTables F)
      → is_some (list_clusters F tenant_id db)
        ≡ all
            (λ c. not (any (λ s. s.cluster_id == c.id) db.scans))
            (filter (λ c. c.tenant_id == tenant_id) db.clusters)
  unfolding list_clusters never_scanned
  list_clusters_sent tenant_id db =
      is_some-cluster_statuses db.scans (filter (λ c. c.tenant_id == tenant_id) db.clusters)
