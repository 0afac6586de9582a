-- ===== src/Remediation/Actions.antt =====
-- control-plane/app/remediation.py: the action templates and the compliance notes.
use kaaval.Base.{String, ◌<>◌, List, [], ◌∷◌}
use kaaval.Base.Dict.{Dict}

-- A part of a template: plain text, or one of the names that `format` fills in.
pub data Piece : Type 0 where
  literal : String → Piece
  role role_arg binding_cmd : Piece

abbrev pub Template : Type 0
Template = List Piece

abbrev pub rbac_actions : Dict String Template
rbac_actions =
    (
      "wildcard_permissions",
      Piece.literal ("Replace wildcard verbs/resources in ")
          ∷ Piece.role
          ∷ Piece.literal
              (" with the explicit list the workload actually needs. Review with: kubectl get ")
          ∷ Piece.role_arg
          ∷ Piece.literal (" -o yaml")
          ∷ [],
    )
    ∷ (
      "broad_secrets_access",
      Piece.literal ("Drop get/list/watch on secrets from ")
          ∷ Piece.role
          ∷ Piece.literal (
              ", or constrain it with resourceNames to the specific Secrets required. "
              <> "list/watch return full secret contents, not just names.")
          ∷ [],
    )
    ∷ (
      "exec_attach_grant",
      Piece.literal ("Remove pods/exec, pods/attach, and pods/portforward from ")
          ∷ Piece.role
          ∷ Piece.literal (
              "; grant interactive access through an audited break-glass role instead of a "
              <> "standing permission.")
          ∷ [],
    )
    ∷ (
      "ineffective_cluster_scope_grant",
      Piece.literal ("Move the cluster-scoped resources out of ")
          ∷ Piece.role
          ∷ Piece.literal (
              " into a ClusterRole bound with a ClusterRoleBinding; a namespaced Role cannot "
              <> "grant access to them. Review with: kubectl get ")
          ∷ Piece.role_arg
          ∷ Piece.literal (" -o yaml")
          ∷ [],
    )
    ∷ (
      "cluster_admin_binding",
      Piece.literal ("Delete the binding (")
          ∷ Piece.binding_cmd
          ∷ Piece.literal (
              ") and create a narrowly scoped Role/RoleBinding for what the subject actually "
              <> "does.")
          ∷ [],
    )
    ∷ (
      "privilege_escalation_verbs",
      Piece.literal ("Remove the escalate/bind/impersonate verbs from ")
          ∷ Piece.role
          ∷ Piece.literal (" — each one lets the holder mint permissions they were never granted.")
          ∷ [],
    )
    ∷ (
      "node_proxy_access",
      Piece.literal ("Remove nodes/proxy from ")
          ∷ Piece.role
          ∷ Piece.literal (
              ". It allows direct kubelet API access, which bypasses API-server audit "
              <> "logging and admission control.")
          ∷ [],
    )
    ∷ (
      "token_creation",
      Piece.literal ("Remove create on serviceaccounts/token from ")
          ∷ Piece.role
          ∷ Piece.literal (
              "; issue tokens through your workload-identity mechanism instead of ad-hoc "
              <> "TokenRequests.")
          ∷ [],
    )
    ∷ (
      "csr_approval",
      Piece.literal ("Remove update/patch on certificatesigningrequests/approval from ")
          ∷ Piece.role
          ∷ Piece.literal (
              ". CSR approval rights allow issuing client certificates for arbitrary "
              <> "identities, including system components.")
          ∷ [],
    )
    ∷ (
      "webhook_config_access",
      Piece.literal ("Remove write access to mutating/validating webhook configurations from ")
          ∷ Piece.role
          ∷ Piece.literal (
              " — controlling admission webhooks is equivalent to controlling every object "
              <> "admitted to the cluster.")
          ∷ [],
    )
    ∷ (
      "workload_creation",
      Piece.literal ("Restrict create on workload resources in ")
          ∷ Piece.role
          ∷ Piece.literal (
              " to the deployment pipeline's ServiceAccount. Creating pods implicitly "
              <> "reaches every Secret and ServiceAccount mountable in the namespace.")
          ∷ [],
    )
    ∷ (
      "pv_creation",
      Piece.literal ("Remove create on persistentvolumes from ")
          ∷ Piece.role
          ∷ Piece.literal (
              "; provision storage via PersistentVolumeClaims and StorageClasses. Direct PV "
              <> "creation enables hostPath mounts onto node filesystems.")
          ∷ [],
    )
    ∷ (
      "token_automount",
      Piece.literal (
            "Set automountServiceAccountToken: false on the ServiceAccount (and on pod "
            <> "specs that do not call the Kubernetes API). Create a dedicated ServiceAccount "
            <> "with automount enabled only for workloads that need it.")
          ∷ [],
    )
    ∷ (
      "combo_role_escalation",
      Piece.literal (
            "Break the combination: remove either the create verb on roles/clusterroles OR "
            <> "the escalate verb from every binding the subject holds. Audit which bindings "
            <> "grant each half: kubectl get clusterrolebindings,rolebindings -A -o wide | "
            <> "grep <subject>")
          ∷ [],
    )
    ∷ (
      "combo_bind_escalation",
      Piece.literal (
            "Break the combination: remove either the create verb on "
            <> "rolebindings/clusterrolebindings OR the bind verb from every binding the "
            <> "subject holds. Audit which bindings grant each half: kubectl get "
            <> "clusterrolebindings,rolebindings -A -o wide | grep <subject>")
          ∷ [],
    )
    ∷ (
      "impersonation_grant",
      Piece.literal (
            "Remove the impersonate verb on users/groups/serviceaccounts from every role "
            <> "the subject holds. Impersonation bypasses all RBAC controls targeting the "
            <> "impersonated identity — treat it as cluster-admin equivalent. Review with: "
            <> "kubectl get clusterrolebindings,rolebindings -A -o wide | grep <subject>")
          ∷ [],
    )
    ∷ (
      "privileged_pod_creation",
      Piece.literal (
            "Either remove create on pods from the subject's roles, or remove the "
            <> "privileged ServiceAccount from the namespace. A pod creator can mount any SA "
            <> "token in the same namespace — constraining one side of the pair breaks the "
            <> "escalation path. Review mountable SAs: kubectl get serviceaccounts -n "
            <> "<namespace>")
          ∷ [],
    )
    ∷ (
      "segmentation_violation",
      Piece.literal (
            "Replace the ClusterRoleBinding with a namespaced RoleBinding scoped to the "
            <> "ServiceAccount's own namespace, or create a namespace-scoped Role with only "
            <> "the permissions the workload actually needs. Remove the binding with: ")
          ∷ Piece.binding_cmd
          ∷ [],
    )
    ∷ []

-- The template of a rule type that has none of its own.
abbrev pub default_action : Template
default_action =
    Piece.literal ("Review and narrow ") ∷ Piece.role ∷ Piece.literal (" to least privilege.") ∷ []

abbrev pub cve_compliance_notes : Dict String String
cve_compliance_notes =
    ("PCI-DSS", "PCI-DSS Req 6.2 — apply security patches for known vulnerabilities.")
    ∷ ("HIPAA", "HIPAA Security Rule 164.308(a)(5) — protect against known vulnerabilities.")
    ∷ ("SOC2", "SOC 2 CC7.1 — identify and remediate vulnerabilities in a timely manner.")
    ∷ []

abbrev pub rbac_compliance_notes : Dict String String
rbac_compliance_notes =
    (
      "PCI-DSS",
      "PCI-DSS Req 7 — restrict access to system components to least privilege / "
          <> "need to know.",
    )
    ∷ (
      "HIPAA",
      "HIPAA Security Rule 164.308(a)(4) — information access management, minimum "
          <> "necessary access.",
    )
    ∷ ("SOC2", "SOC 2 CC6.3 — provision and modify access based on roles and least privilege.")
    ∷ []
