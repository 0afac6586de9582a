-- ===== src/Remediation/References.antt =====
-- control-plane/app/remediation.py: the references that a rule cites.
use kaaval.Base.{String, ◌<>◌, Option, none, some, List, [], ◌∷◌}
use kaaval.Base.Dict.{Dict}

abbrev pub cis_benchmark : String
cis_benchmark = "CIS Kubernetes Benchmark v1.12.0"

-- A control of a benchmark, or a document that has no control ids.
pub record Reference : Type 0 where
  pub benchmark : String
  pub id : Option String
  pub title : String

-- A control of the CIS benchmark.
abbrev pub cis : String → String → Reference
cis id title = record { benchmark = cis_benchmark; id = some id; title = title }

-- A document that is cited as a whole.
abbrev pub document : String → String → Reference
document benchmark title = record { benchmark = benchmark; id = none; title = title }

abbrev pub rbac_good_practices_url : String
rbac_good_practices_url = "https://kubernetes.io/docs/concepts/security/rbac-good-practices/"

abbrev pub cis_refs : Dict String (List Reference)
cis_refs =
    ("wildcard_permissions", cis "5.1.3" "Minimize wildcard use in Roles and ClusterRoles" ∷ [])
    ∷ ("broad_secrets_access", cis "5.1.2" "Minimize access to secrets" ∷ [])
    ∷ (
      "cluster_admin_binding",
      cis "5.1.1" "Ensure that the cluster-admin role is only used where required" ∷ [],
    )
    ∷ (
      "privilege_escalation_verbs",
      cis "5.1.8" "Limit use of the Bind, Impersonate, and Escalate permissions" ∷ [],
    )
    ∷ ("node_proxy_access", cis "5.1.10" "Minimize access to the proxy subresource of nodes" ∷ [])
    ∷ ("token_creation", cis "5.1.13" "Minimize access to the service account token creation" ∷ [])
    ∷ (
      "csr_approval",
      cis "5.1.11" (
            "Minimize access to the approval subresource of certificatesigningrequests "
            <> "objects")
          ∷ [],
    )
    ∷ (
      "webhook_config_access",
      cis "5.1.12" "Minimize access to webhook configuration objects" ∷ [],
    )
    ∷ ("workload_creation", cis "5.1.4" "Minimize access to create pods" ∷ [])
    ∷ (
      "token_automount",
      cis "5.1.6" "Ensure that Service Account Tokens are only mounted where necessary" ∷ [],
    )
    ∷ ("pv_creation", cis "5.1.9" "Minimize access to create persistent volumes" ∷ [])
    ∷ (
      "ineffective_cluster_scope_grant",
      document "Kubernetes RBAC documentation" (
            "Role and ClusterRole — a Role always sets permissions within a particular "
            <> "namespace; cluster-scoped resources need a ClusterRole — "
            <> "https://kubernetes.io/docs/reference/access-authn-authz/rbac/#role-and-clusterrole")
          ∷ [],
    )
    ∷ (
      "exec_attach_grant",
      document "Kubernetes RBAC Good Practices"
            ("Least privilege for pod exec/attach — " <> rbac_good_practices_url)
          ∷ (record {
            benchmark = "OWASP Kubernetes Top 10";
            id = some "K03";
            title = "Overly permissive RBAC configurations";
          })
          ∷ [],
    )
    ∷ (
      "combo_role_escalation",
      cis "5.1.8" "Limit use of the Bind, Impersonate, and Escalate permissions"
          ∷ document "Kubernetes RBAC Good Practices"
              ("Risks of granting create verbs on Roles — " <> rbac_good_practices_url)
          ∷ [],
    )
    ∷ (
      "combo_bind_escalation",
      cis "5.1.8" "Limit use of the Bind, Impersonate, and Escalate permissions"
          ∷ document "Kubernetes RBAC Good Practices"
              ("Risks of granting create verbs on RoleBindings — " <> rbac_good_practices_url)
          ∷ [],
    )
    ∷ (
      "impersonation_grant",
      cis "5.1.8" "Limit use of the Bind, Impersonate, and Escalate permissions" ∷ [],
    )
    ∷ (
      "privileged_pod_creation",
      cis "5.1.4" "Minimize access to create pods"
          ∷ document "Kubernetes RBAC Good Practices"
              ("SA token mount path — " <> rbac_good_practices_url)
          ∷ [],
    )
    ∷ (
      "segmentation_violation",
      document "NIST SP 800-207A" (
            "Zero Trust micro-segmentation — workload identities must not cross namespace "
            <> "boundaries")
          ∷ document "Kubernetes RBAC Good Practices"
              ("Namespace isolation — " <> rbac_good_practices_url)
          ∷ [],
    )
    ∷ []

abbrev pub system_masters_ref : Reference
system_masters_ref = cis "5.1.7" "Avoid use of system:masters group"
