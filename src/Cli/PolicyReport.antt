-- ===== src/Cli/PolicyReport.antt =====
-- control-plane/app/cli.py: the findings as PolicyReports, one per namespace and one for the cluster.
pub mod Laws
use kaaval.Base.{
  ℕ, String, ◌<>◌, Bool, true, false, not, Option, none, some, List, [], ◌∷◌, ◌++◌, map,
  if◌then◌else◌, get_or, length, nonempty, Eq, ◌==◌, string_eq,
}
use kaaval.Base.Dict.{Dict, lookup, insert, keys, append_to, list_at}
use kaaval.Base.Sort.{sort}
use kaaval.Base.Text.{show, truthy, is_text, or_text, join, text_le}
use kaaval.Floats.{Floats}
use kaaval.Finding.{Finding, Affected, Remediation}
use kaaval.Remediation.References.{Reference}
use kaaval.Cli.Export.{ExportTarget, finding_target}

abbrev pub policy_severities : Dict String String
policy_severities =
    ("CRITICAL", "critical")
    ∷ ("HIGH", "high")
    ∷ ("MEDIUM", "medium")
    ∷ ("LOW", "low")
    ∷ ("UNKNOWN", "info")
    ∷ []

-- An element of "resources"
pub record Resource : Type 0 where
  pub api_version : String
  pub kind : Option String
  pub name : Option String
  pub namespace : Option String

-- An element of "results", without its constant keys; an image finding has no "resources".
pub record Entry : Type 0 where
  pub policy : String
  pub category : String
  pub severity : String
  pub message : String
  pub resources : List Resource
  pub properties : Dict String String

pub record Report : Type 0 where
  pub kind : String
  pub name : String
  pub namespace : Option String
  pub fail : ℕ
  pub results : List Entry

abbrev reference_text : Reference → String
reference_text r = r.benchmark <> (if truthy r.id then " " <> show r.id else "")

abbrev resource_of : ExportTarget → Resource
resource_of t = record {
  api_version = get_or t.api_version "rbac.authorization.k8s.io/v1";
  kind = t.kind;
  name = t.name;
  namespace = if truthy t.namespace then t.namespace else none;
}

abbrev no_remediation : Remediation
no_remediation = record {
  action = "";
  why_it_matters = "";
  compliance_note = none;
  audit_note = "";
  benchmark_refs = [];
}

module _ (F : Floats) where
  abbrev pub remediation_of : Finding F → Remediation
  remediation_of f = get_or f.remediation no_remediation

  unfoldable pub entry_properties : Finding F → Dict String String
  unfolding join
  entry_properties f =
      let refs = join "; " (map reference_text (remediation_of f).benchmark_refs) in
      ("contextual_score", F.text f.contextual_score)
      ∷ ("remediation", (remediation_of f).action)
      ∷ ("why_it_matters", (remediation_of f).why_it_matters)
      ∷ ((if is_text refs then ("benchmark_refs", refs) ∷ [] else [])
          ++ (if truthy f.image
              then ("image", show f.image)
                ∷ ("scanner", show f.source)
                ∷ ("components", join ", " (map (λ a. a.component) f.affected))
                ∷ []
              else []))

  -- Every finding has a rule or a CVE, and a remediation.
  unfoldable pub policyreport_result : Finding F → Entry
  unfolding entry_properties finding_target lookup
  policyreport_result f = record {
    policy = or_text f.rule_type (get_or f.cve_id "");
    category = if truthy f.image then "image" else "rbac";
    severity = get_or (lookup f.severity policy_severities) "info";
    message = f.title;
    resources = if truthy f.image then [] else resource_of (finding_target F f) ∷ [];
    properties = entry_properties f;
  }

  -- The namespace that a finding is grouped by.
  abbrev pub group_of : Finding F → Option String
  group_of f = (finding_target F f).namespace

-- The loop, for findings of any type: `by_namespace` and `cluster_results`.
module _ {ℓ κ} {A : Type ℓ} {B : Type κ} (group : A → Option String) (result : A → B) where
  unfoldable pub by_namespace : List A → Dict String (List B) → Dict String (List B)
  unfolding append_to
  by_namespace [] d = d
  by_namespace (f ∷ fs) d =
      by_namespace fs (if truthy (group f) then append_to (show (group f)) (result f) d else d)

  unfoldable pub cluster_results : List A → List B
  cluster_results [] = []
  cluster_results (f ∷ fs) =
      let rest = cluster_results fs in if truthy (group f) then rest else result f ∷ rest

abbrev namespace_report : String → Dict String (List Entry) → String → Report
namespace_report scan_type d ns =
    let results = list_at ns d in
    record {
      kind = "PolicyReport";
      name = "kaaval-" <> scan_type;
      namespace = some ns;
      fail = length results;
      results = results;
    }

abbrev cluster_report : String → List Entry → Report
cluster_report scan_type results = record {
  kind = "ClusterPolicyReport";
  name = "kaaval-" <> scan_type;
  namespace = none;
  fail = length results;
  results = results;
}

module _ (F : Floats) where
  unfoldable pub build_policy_reports : String → List (Finding F) → List Report
  unfolding by_namespace cluster_results policyreport_result lookup keys sort finding_target
  build_policy_reports scan_type fs =
      let d = by_namespace (group_of F) (policyreport_result F) fs [] in
      let results = cluster_results (group_of F) (policyreport_result F) fs in
      map (namespace_report scan_type d) (sort text_le (keys d))
      ++ cluster_report scan_type results ∷ []
