-- ===== src/Examples/RbacRuns.antt =====
-- The RBAC theorems on the cluster of the examples.
use kaaval.Base.{
  ◌≡◌, refl, Bool, true, false, some, none, [], ◌∷◌, nat_beq, ◌<>◌, flat_map, arith, any, All,
  contains, string_eq, option_eq, pair_eq,
}
use kaaval.Base.Dict.{lookup}
use kaaval.Base.Member.{Member, here, there, Member-append_left, Member-append_right}
use kaaval.Finding.{Finding}
use kaaval.Rbac.Graph.{role_key, all_bindings}
use kaaval.Rbac.Subjects.{
  is_masters, is_builtin_role, has_builtin_prefix, is_stock_cluster_admin_binding,
  is_cluster_admin_equivalent, broad_identity_in,
}
use kaaval.Rbac.Rules.{is_wildcard_open}
use kaaval.Rbac.Risks.{Risk, evaluate_role_risks}
use kaaval.Rbac.Automount.{
  AutomountRisk, evaluate_token_automount, account_index, account_risks, pod_risks,
}
use kaaval.Rbac.Findings.{
  role_index, is_skipped, binding_risks, binding_finding, ranks_before, evaluate_rbac_findings,
  admin_risks,
}
use kaaval.Rbac.Findings.Origin.{
  Exposes, HasOrigin, evaluate_rbac_findings_sound, binding_risk_reported,
}
use kaaval.Rbac.Findings.Masters.{IsAdminRisk, masters-not-skipped, masters-reported}
use kaaval.Examples.Fixed.{fixed, production}
use kaaval.Examples.Cluster.{cluster, admin_bound, admin_role}

evaluate_rbac_findings_sound_example :
    All (HasOrigin fixed cluster production) (evaluate_rbac_findings fixed cluster production)
evaluate_rbac_findings_sound_example = evaluate_rbac_findings_sound fixed cluster production

abbrev admin_risk : Risk
admin_risk = record {
  rule_type = "cluster_admin_binding";
  severity = "CRITICAL";
  detail = "Grants cluster-admin-equivalent access to group 'system:masters'.";
}

admin_resolves : lookup (role_key admin_bound) (role_index cluster) ≡ some admin_role
unfolding lookup role_index
admin_resolves = refl

admin_named : is_builtin_role admin_bound.role_ref.name ≡ false
unfolding is_builtin_role has_builtin_prefix
admin_named = refl

admin_masters : any is_masters admin_bound.subjects ≡ true
unfolding any
admin_masters = refl

admin_not_stock : is_stock_cluster_admin_binding admin_bound ≡ false
unfolding is_stock_cluster_admin_binding
admin_not_stock = refl

admin_equivalent : is_cluster_admin_equivalent admin_bound.role_ref.name admin_role.rules ≡ true
unfolding is_cluster_admin_equivalent any is_wildcard_open contains
admin_equivalent = refl

admin_placed : Member admin_bound (all_bindings cluster)
unfolding all_bindings
admin_placed = there (here refl)

masters-reported_example :
    (risk : Risk) × IsAdminRisk risk
    × Member
        (binding_finding fixed production admin_bound risk)
        (evaluate_rbac_findings fixed cluster production)
masters-reported_example =
    masters-reported fixed cluster production admin_bound admin_role admin_placed admin_masters
      admin_named admin_not_stock admin_resolves admin_equivalent

admin_flagged : admin_risks admin_bound admin_role.rules ≡ admin_risk ∷ []
unfolding admin_risks broad_identity_in contains is_cluster_admin_equivalent any is_wildcard_open
admin_flagged = refl

admin-not-skipped : is_skipped admin_bound ≡ false
admin-not-skipped = masters-not-skipped admin_bound admin_masters admin_named admin_not_stock

admin-Exposes : Exposes cluster admin_bound admin_role admin_risk
unfolding all_bindings binding_risks
admin-Exposes = record {
  bound = there (here refl);
  resolved = admin_resolves;
  kept = admin-not-skipped;
  flagged = Member-append_right admin_risk (evaluate_role_risks admin_role.rules true) _ (
      Member-append_left admin_risk (admin_risks admin_bound admin_role.rules) _
        (rw admin_flagged (here refl)));
}

binding_risk_reported_example :
    Member
      (binding_finding fixed production admin_bound admin_risk)
      (evaluate_rbac_findings fixed cluster production)
binding_risk_reported_example =
    binding_risk_reported fixed cluster production admin_bound admin_role admin_risk admin-Exposes

abbrev runner_risk : AutomountRisk
runner_risk = record {
  severity = "MEDIUM";
  detail =
      "Pod 'runner' in namespace 'ci' sets automountServiceAccountToken: true, overriding ServiceAccount "
      <> "'builder' which explicitly disables it (pod spec wins over the SA).";
  service_account = record { kind = none; name = some "builder"; namespace = some "ci" };
  workload = some (record { kind = some "Pod"; name = some "runner"; namespace = some "ci" });
}

runner_found : Member runner_risk (evaluate_token_automount cluster)
unfolding evaluate_token_automount account_risks pod_risks account_index flat_map
runner_found = here refl

-- A finding with the score 26.0.
abbrev scores_26 : Finding fixed → Bool
scores_26 f = nat_beq f.contextual_score 2600

scores_26-alike :
    (f h : Finding fixed) → scores_26 f ≡ true → scores_26 h ≡ true → ranks_before fixed f h ≡ true
scores_26-alike f h p q = ground arith
