-- ===== src/Rbac/Store.antt =====
-- control-plane/app/rbac_service.py: the scan that is stored, and its reads, with `run_combo_scan` and
-- the other routes of routers/rbac.py. What the client of Kubernetes gives, a fresh id and the time are
-- arguments; a new row goes to the front of its table.
pub mod Laws
use kaaval.Base.{
  ℕ, ◌+◌, String, Bool, true, false, Option, none, some, List, [], ◌∷◌, ◌++◌, if◌then◌else◌, get_or,
  length, map, flat_map, take, contains, string_eq, option_eq, pair_eq,
}
use kaaval.Base.Dict.{Dict}
use kaaval.Base.Newest.{newest_first}
use kaaval.Http.{Outcome, returned, raised}
use kaaval.Floats.{Floats}
use kaaval.Scoring.{Context}
use kaaval.Finding.{Finding}
use kaaval.Rbac.Graph.{Role, RawBinding, Subject, Graph}
use kaaval.Rbac.Findings.{evaluate_rbac_findings}
use kaaval.Rbac.Diff.{Diff, severity_breakdown, diff_latest_scans}
use kaaval.Effective.Combos.{evaluate_combo_findings}
use kaaval.Cve.Contexts.{Contexts, get_or_create_scan_context, context_to_dict}

abbrev pub empty_graph : Graph
empty_graph = record {
  roles = [];
  cluster_roles = [];
  role_bindings = [];
  cluster_role_bindings = [];
  service_accounts = [];
  pods = [];
}

-- `K8sClient()`: whether it is authorized, and the graph or the text under "error".
pub record Client : Type 0 where
  pub authorized : Bool
  pub fetched : Outcome Graph

unfoldable pub graph_of : Client → Graph
graph_of client = elim client.fetched [
  | raised e ↦ empty_graph
  | returned graph ↦ if client.authorized then graph else empty_graph
]

-- The body of POST /rbac/combo-scan; a context that is empty is `none`.
pub record ComboScanRequest : Type 0 where
  pub roles : List Role
  pub cluster_roles : List Role
  pub role_bindings : List RawBinding
  pub cluster_role_bindings : List RawBinding
  pub context : Option Context

-- `{x for x in xs}`, in the order of the first ones
unfoldable pub distinct_subjects :
    List (Option String × (Option String × Option String))
    → List (Option String × (Option String × Option String))
unfolding contains
distinct_subjects [] = []
distinct_subjects (s ∷ ss) =
    let rest = distinct_subjects ss in if contains rest s then rest else s ∷ rest

abbrev subject_triple : Subject → Option String × (Option String × Option String)
subject_triple s = (s.kind, (s.name, s.namespace))

module _ (F : Floats) where
  -- A row of RBACScanResult
  pub record RbacScan : Type 0 where
    pub id : ℕ
    pub scanned_at : ℕ
    pub total_bindings_checked : ℕ
    pub affected_count : ℕ
    pub findings : List (Finding F)
    pub status : String

  pub record RbacTables : Type 0 where
    pub contexts : Contexts
    pub scans : List RbacScan

  pub record RbacScanResult : Type 0 where
    pub scan_id : ℕ
    pub scanned_at : ℕ
    pub total_bindings_checked : ℕ
    pub affected_count : ℕ
    pub severity_breakdown : Dict String ℕ
    pub findings : List (Finding F)
    pub status : String

  unfoldable pub format_scan_result : RbacScan → RbacScanResult
  unfolding severity_breakdown
  format_scan_result scan = record {
    scan_id = scan.id;
    scanned_at = scan.scanned_at;
    total_bindings_checked = scan.total_bindings_checked;
    affected_count = scan.affected_count;
    severity_breakdown = severity_breakdown F scan.findings;
    findings = scan.findings;
    status = scan.status;
  }

  -- The row of a scan of a graph.
  unfoldable pub scan_row : ℕ → ℕ → Graph → List (Finding F) → RbacScan
  scan_row id now graph findings = record {
    id = id;
    scanned_at = now;
    total_bindings_checked = length graph.role_bindings + length graph.cluster_role_bindings;
    affected_count = length findings;
    findings = findings;
    status = "completed";
  }

  -- scan_rbac, and POST /rbac/scan
  unfoldable pub scan_rbac : ℕ → ℕ → Client → ℕ → RbacTables → RbacScanResult × RbacTables
  unfolding graph_of get_or_create_scan_context evaluate_rbac_findings scan_row format_scan_result
  scan_rbac id now client tenant_id db =
      let graph = graph_of client in
      let (context, contexts) = get_or_create_scan_context tenant_id db.contexts in
      let findings = evaluate_rbac_findings F graph (context_to_dict context) in
      let row = scan_row id now graph findings in
      (format_scan_result row, record { contexts = contexts; scans = row ∷ db.scans })

  -- `order_by(scanned_at.desc())`
  unfoldable pub latest_scans : List RbacScan → List RbacScan
  unfolding newest_first
  latest_scans scans = newest_first (λ s. s.scanned_at) scans

  -- get_latest_rbac_scan: `.first()`
  unfoldable pub get_latest_rbac_scan : List RbacScan → Option RbacScanResult
  unfolding format_scan_result latest_scans
  get_latest_rbac_scan scans = elim (latest_scans scans) [
    | [] ↦ none
    | scan ∷ older ↦ some (format_scan_result scan)
  ]

  -- GET /rbac/scan/diff: the two latest scans are compared.
  unfoldable pub get_scan_diff : List RbacScan → Diff F
  unfolding diff_latest_scans take latest_scans
  get_scan_diff scans = diff_latest_scans F (map (λ s. s.findings) (take 2 (latest_scans scans)))

  pub record ComboScanResult : Type 0 where
    pub total_subjects_checked : ℕ
    pub combo_findings_count : ℕ
    pub findings : List (Finding F)

  -- POST /rbac/combo-scan: the stored context is created only if the body has none.
  unfoldable pub run_combo_scan : ComboScanRequest → ℕ → Contexts → ComboScanResult × Contexts
  unfolding get_or_create_scan_context evaluate_combo_findings distinct_subjects flat_map
  run_combo_scan body tenant_id contexts =
      let graph : Graph = record empty_graph {
        roles = body.roles;
        cluster_roles = body.cluster_roles;
        role_bindings = body.role_bindings;
        cluster_role_bindings = body.cluster_role_bindings;
      } in
      let (context, contexts') : Context × Contexts = elim body.context [
        | some c ↦ (c, contexts)
        | none ↦
            let (stored, db) = get_or_create_scan_context tenant_id contexts in
            (context_to_dict stored, db)
      ] in
      let findings = evaluate_combo_findings F graph context in
      let subjects =
        flat_map (λ b. map subject_triple b.subjects)
          (body.cluster_role_bindings ++ body.role_bindings) in
      (
        record {
          total_subjects_checked = length (distinct_subjects subjects);
          combo_findings_count = length findings;
          findings = findings;
        },
        contexts',
      )
