-- ===== src/Rbac/Findings.antt =====
-- control-plane/app/rbac_service.py: `evaluate_rbac_findings`.
pub mod Severities
pub mod Origin
pub mod Resolve
pub mod Masters
use kaaval.Base.{
  String, ◌<>◌, Bool, true, false, not, ◌&&◌, ◌||◌, Option, none, some, List, [], ◌∷◌, ◌++◌, map,
  if◌then◌else◌, is_some, get_or, flat_map, ◌==◌, string_eq, option_eq, pair_eq,
}
use kaaval.Base.Dict.{Dict, lookup, insert}
use kaaval.Base.Sort.{sort}
use kaaval.Base.Text.{show, title, spaced}
use kaaval.Floats.{Floats}
use kaaval.Scoring.{Context, compute_contextual_score}
use kaaval.Finding.{Finding, Target, bare_finding}
use kaaval.Remediation.Build.{with_remediation}
use kaaval.Rbac.Graph.{Rule, Role, Binding, Graph, RoleKey, role_key, all_bindings}
use kaaval.Rbac.Subjects.{
  is_builtin_role, all_subjects_builtin, is_stock_cluster_admin_binding, broad_identity_in,
  is_cluster_admin_equivalent, is_segmentation_violation,
}
use kaaval.Rbac.Risks.{Risk, evaluate_role_risks}
use kaaval.Rbac.Automount.{AutomountRisk, evaluate_token_automount}

-- `role_index[(kind, namespace, name)] = r` for each of the roles.
unfoldable pub index_roles : List Role → Dict RoleKey Role → Dict RoleKey Role
unfolding insert
index_roles [] d = d
index_roles (r ∷ roles) d = index_roles roles (insert (some "Role", (r.namespace, r.name)) r d)

unfoldable pub index_cluster_roles : List Role → Dict RoleKey Role → Dict RoleKey Role
unfolding insert
index_cluster_roles [] d = d
index_cluster_roles (r ∷ roles) d =
    index_cluster_roles roles (insert (some "ClusterRole", (none, r.name)) r d)

unfoldable pub role_index : Graph → Dict RoleKey Role
unfolding index_roles index_cluster_roles
role_index g = index_cluster_roles g.cluster_roles (index_roles g.roles [])

-- The test of the `continue` after the lookup.
unfoldable pub is_skipped : Binding → Bool
is_skipped b =
    is_builtin_role b.role_ref.name
    || (all_subjects_builtin b.subjects || is_stock_cluster_admin_binding b)

abbrev pub is_cluster_scoped : Binding → Bool
is_cluster_scoped b = b.role_ref.kind == some "ClusterRole"

unfoldable pub admin_risks : Binding → List Rule → List Risk
admin_risks b rules = elim (broad_identity_in b.subjects) [
  | none ↦ []
  | some identity ↦
      if is_cluster_admin_equivalent b.role_ref.name rules
      then (record {
        rule_type = "cluster_admin_binding";
        severity = "CRITICAL";
        detail = "Grants cluster-admin-equivalent access to " <> identity <> ".";
      })
        ∷ []
      else []
]

unfoldable pub segmentation_risks : Binding → List Risk
segmentation_risks b = elim (is_segmentation_violation b b.role_ref.kind) [
  | none ↦ []
  | some detail ↦
      (record { rule_type = "segmentation_violation"; severity = "HIGH"; detail = detail }) ∷ []
]

-- The risks that one binding of a role with these rules has.
unfoldable pub binding_risks : Binding → List Rule → List Risk
binding_risks b rules =
    evaluate_role_risks rules (is_cluster_scoped b) ++ (admin_risks b rules ++ segmentation_risks b)

-- One round of the loop over the bindings, from the role that the lookup gives.
unfoldable pub resolved_risks : Binding → Option Role → List Risk
resolved_risks b none = []
resolved_risks b (some role) = if is_skipped b then [] else binding_risks b role.rules

unfoldable pub risks_of : Dict RoleKey Role → Binding → List Risk
unfolding lookup resolved_risks
risks_of index b = resolved_risks b (lookup (role_key b) index)

module _ (F : Floats) where
  abbrev pub target_of : Binding → Target
  target_of b = record { kind = some b.binding_kind; name = b.name; namespace = b.namespace }

  unfoldable pub binding_finding : Context → Binding → Risk → Finding F
  unfolding with_remediation
  binding_finding c b risk =
      let bare = bare_finding F risk.severity (compute_contextual_score F none risk.severity c) in
      with_remediation F (record bare {
        rule_type = some risk.rule_type;
        title =
            title (spaced risk.rule_type)
            <> " via "
            <> show b.role_ref.kind
            <> " '"
            <> show b.role_ref.name
            <> "'";
        description = risk.detail;
        role = some b.role_ref;
        binding = some (target_of b);
        subjects = b.subjects;
      })

  unfoldable pub automount_finding : Context → AutomountRisk → Finding F
  unfolding with_remediation
  automount_finding c risk =
      let bare = bare_finding F risk.severity (compute_contextual_score F none risk.severity c) in
      let target = get_or risk.workload risk.service_account in
      let kind = if is_some risk.workload then target.kind else some "ServiceAccount" in
      with_remediation F (record bare {
        rule_type = some "token_automount";
        title = "Token Automount via " <> show kind <> " '" <> show target.name <> "'";
        description = risk.detail;
        service_account = some risk.service_account;
        workload = risk.workload;
      })

  -- `key=lambda f: -f["contextual_score"]`
  abbrev pub ranks_before : Finding F → Finding F → Bool
  ranks_before f g = F.at_most g.contextual_score f.contextual_score

  unfoldable pub binding_findings : Context → Dict RoleKey Role → Binding → List (Finding F)
  unfolding risks_of binding_finding
  binding_findings c index b = map (binding_finding c b) (risks_of index b)

  -- The list before it is sorted.
  unfoldable pub collect_findings : Graph → Context → List (Finding F)
  unfolding binding_findings automount_finding role_index
  collect_findings g c =
      flat_map (binding_findings c (role_index g)) (all_bindings g)
      ++ map (automount_finding c) (evaluate_token_automount g)

  unfoldable pub evaluate_rbac_findings : Graph → Context → List (Finding F)
  unfolding collect_findings
  evaluate_rbac_findings g c = sort ranks_before (collect_findings g c)
