-- ===== src/Examples/Exports.antt =====
-- The theorems on manifests and on policy reports, on one document and one finding.
use kaaval.Base.{◌≡◌, String, true, not, some, none, List, [], ◌∷◌, map, filter, flat_map}
use kaaval.Base.Text.{truthy}
use kaaval.Finding.{Finding, bare_finding}
use kaaval.Scoring.{compute_contextual_score}
use kaaval.Cli.PolicyReport.{policyreport_result, group_of, build_policy_reports}
use kaaval.Cli.PolicyReport.Laws.{belongs, results_in, build_policy_reports_partition}
use kaaval.Cli.Manifests.{
  Doc, to_role, to_cluster_role, to_role_binding, to_cluster_role_binding, to_service_account,
  build_graph,
}
use kaaval.Cli.Manifests.Laws.{has_kind, pods_of, build_graph_collects}
use kaaval.Examples.Fixed.{fixed, production}

abbrev pub nightly : Doc
nightly = record {
  kind = some "CronJob";
  name = some "nightly";
  namespace = some "ci";
  rules = [];
  role_ref = record { kind = none; name = none };
  subjects = [];
  automount = none;
  spec = none;
  template = none;
  job_template = some (record { service_account_name = some "builder"; automount = some true });
}

abbrev pub docs : List Doc
docs =
    nightly ∷ record nightly { kind = some "Service" } ∷ record nightly { kind = some "Role" } ∷ []

build_graph_collects_example :
    ((build_graph docs).roles ≡ map to_role (filter (has_kind "Role") docs))
    × ((build_graph docs).cluster_roles
        ≡ map to_cluster_role (filter (has_kind "ClusterRole") docs))
    × ((build_graph docs).role_bindings
        ≡ map to_role_binding (filter (has_kind "RoleBinding") docs))
    × ((build_graph docs).cluster_role_bindings
        ≡ map to_cluster_role_binding (filter (has_kind "ClusterRoleBinding") docs))
    × ((build_graph docs).service_accounts
        ≡ map to_service_account (filter (has_kind "ServiceAccount") docs))
    × ((build_graph docs).pods ≡ flat_map pods_of docs)
build_graph_collects_example = build_graph_collects docs

abbrev exposed : Finding fixed
exposed =
    let bare = bare_finding fixed "LOW" (compute_contextual_score fixed none "LOW" production) in
    record bare {
      rule_type = some "token_automount";
      service_account = some (record { kind = none; name = some "builder"; namespace = some "ci" });
    }

build_policy_reports_partition_example :
    ((ns : String)
      → results_in (some ns) (build_policy_reports fixed "rbac" (exposed ∷ []))
        ≡ map (policyreport_result fixed) (filter (belongs (group_of fixed) ns) (exposed ∷ [])))
    × (results_in none (build_policy_reports fixed "rbac" (exposed ∷ []))
        ≡ map
            (policyreport_result fixed)
            (filter (λ f. not (truthy (group_of fixed f))) (exposed ∷ [])))
build_policy_reports_partition_example = build_policy_reports_partition fixed "rbac" (exposed ∷ [])
