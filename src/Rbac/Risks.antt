-- ===== src/Rbac/Risks.antt =====
-- control-plane/app/rbac_service.py: `_evaluate_role_risks`, the flags of one role's rules.
pub mod Laws
pub mod Severity
use kaaval.Base.{
  String, ◌<>◌, Bool, not, ◌&&◌, Option, none, some, List, [], ◌∷◌, ◌++◌, if◌then◌else◌, nonempty,
  any, flat_map,
}
use kaaval.Base.Text.{join, sorted_set}
use kaaval.Rbac.Graph.{Rule}
use kaaval.Rbac.Rules.{
  is_wildcard_open, grants_secrets_access, grants_exec_attach, grants_escalation_verbs,
  grants_node_proxy, grants_token_creation, grants_csr_approval, grants_webhook_write,
  grants_workload_creation, grants_pv_creation, cluster_scoped_resources_in,
}

pub record Risk : Type 0 where
  pub rule_type : String
  pub severity : String
  pub detail : String

-- `"HIGH" if is_cluster_scoped else "MEDIUM"`
abbrev pub scoped_severity : Bool → String
scoped_severity cluster_scoped = if cluster_scoped then "HIGH" else "MEDIUM"

-- `if test: risks.append(risk)`
abbrev pub flag : Bool → Risk → List Risk
flag test risk = if test then risk ∷ [] else []

abbrev pub inert_resources : List Rule → List String
inert_resources rules = sorted_set (flat_map cluster_scoped_resources_in rules)

-- The flags that a role of either scope can have.
unfoldable pub shared_risks : List Rule → Bool → List Risk
shared_risks rules cluster_scoped =
    flag (any is_wildcard_open rules) (record {
      rule_type = "wildcard_permissions";
      severity = scoped_severity cluster_scoped;
      detail = "Grants wildcard (*) verbs or resources.";
    })
    ++ (flag (any grants_secrets_access rules) (record {
      rule_type = "broad_secrets_access";
      severity = scoped_severity cluster_scoped;
      detail = "Can read/list/watch Secrets — list returns full secret contents, not just names.";
    })
        ++ (flag (any grants_exec_attach rules) (record {
          rule_type = "exec_attach_grant";
          severity = "MEDIUM";
          detail = "Can exec/attach/port-forward into pods — equivalent to code execution access.";
        })
            ++ (flag (any grants_escalation_verbs rules) (record {
              rule_type = "privilege_escalation_verbs";
              severity = scoped_severity cluster_scoped;
              detail =
                  "Grants escalate/bind/impersonate — each verb lets the holder "
                  <> "obtain permissions beyond what they were granted.";
            })
                ++ (flag (any grants_token_creation rules) (record {
                  rule_type = "token_creation";
                  severity = scoped_severity cluster_scoped;
                  detail =
                      "Can create ServiceAccount tokens (TokenRequest) — can act as any covered ServiceAccount.";
                })
                    ++ flag (any grants_workload_creation rules) (record {
                      rule_type = "workload_creation";
                      severity = "MEDIUM";
                      detail =
                          "Can create workloads — implicitly reaches every Secret, ConfigMap, "
                          <> "and ServiceAccount mountable in the namespace.";
                    })))))

-- The flag of a namespaced role that names cluster-scoped resources.
unfoldable pub inert_risks : List Rule → List Risk
inert_risks rules = flag (nonempty (inert_resources rules)) (record {
  rule_type = "ineffective_cluster_scope_grant";
  severity = "MEDIUM";
  detail =
      "Namespaced Role names cluster-scoped resources ("
      <> join ", " (inert_resources rules)
      <> "). A Role cannot grant access to them, so that part of the grant is "
      <> "silently inert and the bound subject will get 403s.";
})

-- The flags that only a cluster role can have.
unfoldable pub cluster_risks : List Rule → List Risk
cluster_risks rules =
    flag (any grants_node_proxy rules) (record {
      rule_type = "node_proxy_access";
      severity = "HIGH";
      detail =
          "Can access the kubelet API via nodes/proxy — command execution on "
          <> "pods that bypasses API-server audit logging and admission control.";
    })
    ++ (flag (any grants_csr_approval rules) (record {
      rule_type = "csr_approval";
      severity = "HIGH";
      detail =
          "Can approve CertificateSigningRequests — can issue client "
          <> "certificates for arbitrary identities, including system components.";
    })
        ++ (flag (any grants_webhook_write rules) (record {
          rule_type = "webhook_config_access";
          severity = "HIGH";
          detail =
              "Can modify admission webhook configurations — can intercept or "
              <> "mutate every object admitted to the cluster, including secrets reads.";
        })
            ++ flag (any grants_pv_creation rules) (record {
              rule_type = "pv_creation";
              severity = "HIGH";
              detail =
                  "Can create PersistentVolumes — enables hostPath volumes that "
                  <> "expose node filesystems to workloads.";
            })))

unfoldable pub evaluate_role_risks : List Rule → Bool → List Risk
unfolding shared_risks inert_risks cluster_risks
evaluate_role_risks rules cluster_scoped =
    shared_risks rules cluster_scoped
    ++ (if cluster_scoped then cluster_risks rules else inert_risks rules)
