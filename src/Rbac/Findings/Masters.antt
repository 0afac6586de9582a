-- ===== src/Rbac/Findings/Masters.antt =====
-- CIS 5.1.7 in control-plane/app/rbac_service.py: a binding to system:masters is not hidden by the
-- filter for built-in subjects.
use kaaval.Base.{
  ◌≡◌, refl, true, false, some, ◌<>◌, List, is_some, any, string_eq, option_eq, pair_eq,
  Option-cases, inl, inr,
}
use kaaval.Base.Dict.{lookup}
use kaaval.Base.Member.{Member, here, Member-append_left, Member-append_right}
use kaaval.Floats.{Floats}
use kaaval.Scoring.{Context}
use kaaval.Rbac.Graph.{Rule, Role, Binding, Graph, role_key, all_bindings}
use kaaval.Rbac.Subjects.{
  is_masters, is_builtin_role, is_stock_cluster_admin_binding, broad_identity_in,
  is_cluster_admin_equivalent,
}
use kaaval.Rbac.Subjects.Laws.{masters-not-all_builtin, masters-broad}
use kaaval.Rbac.Risks.{Risk}
use kaaval.Rbac.Findings.{
  is_skipped, admin_risks, binding_risks, role_index, binding_finding, evaluate_rbac_findings,
}
use kaaval.Rbac.Findings.Origin.{binding_risk_reported}

-- A binding of a role whose name is not built in, with system:masters among its subjects, that is
-- not the stock cluster-admin binding, is not skipped.
pub masters-not-skipped :
    (b : Binding)
    → any is_masters b.subjects ≡ true
    → is_builtin_role b.role_ref.name ≡ false
    → is_stock_cluster_admin_binding b ≡ false
    → is_skipped b ≡ false
unfolding is_skipped
masters-not-skipped b m n k = rw (n, masters-not-all_builtin b.subjects m, k)

-- A cluster-admin finding among the risks of a binding.
pub record IsAdminRisk (risk : Risk) : Type 0 where
  pub rule_type : risk.rule_type ≡ "cluster_admin_binding"
  pub severity : risk.severity ≡ "CRITICAL"

IsAdminRisk-Member :
    (b : Binding) (rules : List Rule)
    → is_some (broad_identity_in b.subjects) ≡ true
    → is_cluster_admin_equivalent b.role_ref.name rules ≡ true
    → (risk : Risk) × IsAdminRisk risk × Member risk (admin_risks b rules)
unfolding admin_risks
IsAdminRisk-Member b rules h k = elim (Option-cases (broad_identity_in b.subjects)) [
  | inl q ↦ cc (rw q at h)
  | inr (identity, q) ↦ (
    record {
      rule_type = "cluster_admin_binding";
      severity = "CRITICAL";
      detail = "Grants cluster-admin-equivalent access to " <> identity <> ".";
    },
    record { rule_type = refl; severity = refl },
    rw (q, admin_risks, k) (here refl),
  )
]

module _ (F : Floats) (g : Graph) (c : Context) where
  -- A binding of the graph that has the group system:masters among its subjects, names a role that is not
  -- built in, is not the stock cluster-admin binding, and resolves to a role that amounts to cluster-admin
  -- has a critical finding of a cluster-admin binding in the report.
  pub masters-reported :
      (b : Binding) (role : Role)
      → Member b (all_bindings g)
      → any is_masters b.subjects ≡ true
      → is_builtin_role b.role_ref.name ≡ false
      → is_stock_cluster_admin_binding b ≡ false
      → lookup (role_key b) (role_index g) ≡ some role
      → is_cluster_admin_equivalent b.role_ref.name role.rules ≡ true
      → (risk : Risk) × IsAdminRisk risk
        × Member (binding_finding F c b risk) (evaluate_rbac_findings F g c)
  unfolding binding_risks
  masters-reported b role bound m n k resolved a =
      let (risk, admin, placed) = IsAdminRisk-Member b role.rules (masters-broad b.subjects m) a in
      let flagged : Member risk (binding_risks b role.rules) =
        Member-append_right risk _ _ (Member-append_left risk _ _ placed) in
      (
        risk,
        admin,
        binding_risk_reported F g c b role risk (record {
          bound = bound;
          resolved = resolved;
          kept = masters-not-skipped b m n k;
          flagged = flagged;
        }),
      )
