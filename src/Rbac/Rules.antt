-- ===== src/Rbac/Rules.antt =====
-- control-plane/app/rbac_service.py: what one rule of a role grants.
use kaaval.Base.{
  String, Bool, not, ◌&&◌, ◌||◌, List, [], ◌∷◌, if◌then◌else◌, nonempty, any, filter, flat_map,
  contains, string_eq,
}
use kaaval.Base.Dict.{Dict}
use kaaval.Rbac.Graph.{Rule}

-- `bool(xs & set(ys))`
abbrev pub overlaps : List String → List String → Bool
overlaps xs ys = any (contains ys) xs

abbrev pub exec_resources : List String
exec_resources = "pods/exec" ∷ "pods/attach" ∷ "pods/portforward" ∷ []

abbrev pub escalation_verbs : List String
escalation_verbs = "escalate" ∷ "bind" ∷ "impersonate" ∷ []

abbrev pub write_verbs : List String
write_verbs = "create" ∷ "update" ∷ "patch" ∷ "delete" ∷ []

abbrev pub workload_resources : List String
workload_resources =
    "pods" ∷ "deployments" ∷ "daemonsets" ∷ "statefulsets" ∷ "replicasets" ∷ "jobs" ∷ "cronjobs"
    ∷ []

abbrev pub webhook_resources : List String
webhook_resources = "mutatingwebhookconfigurations" ∷ "validatingwebhookconfigurations" ∷ []

abbrev pub cluster_scoped_resources : Dict String (List String)
cluster_scoped_resources =
    ("", "nodes" ∷ "nodes/proxy" ∷ "nodes/metrics" ∷ "persistentvolumes" ∷ "namespaces" ∷ [])
    ∷ ("rbac.authorization.k8s.io", "clusterroles" ∷ "clusterrolebindings" ∷ [])
    ∷ ("apiextensions.k8s.io", "customresourcedefinitions" ∷ [])
    ∷ ("storage.k8s.io", "storageclasses" ∷ "volumeattachments" ∷ "csidrivers" ∷ "csinodes" ∷ [])
    ∷ ("scheduling.k8s.io", "priorityclasses" ∷ [])
    ∷ ("apiregistration.k8s.io", "apiservices" ∷ [])
    ∷ ("certificates.k8s.io", "certificatesigningrequests" ∷ [])
    ∷ (
      "admissionregistration.k8s.io",
      "mutatingwebhookconfigurations" ∷ "validatingwebhookconfigurations" ∷ [],
    )
    ∷ ("networking.k8s.io", "ingressclasses" ∷ [])
    ∷ ("node.k8s.io", "runtimeclasses" ∷ [])
    ∷ ("policy", "podsecuritypolicies" ∷ [])
    ∷ []

unfoldable pub is_wildcard_open : Rule → Bool
is_wildcard_open r = contains r.verbs "*" || contains r.resources "*"

unfoldable pub grants_secrets_access : Rule → Bool
grants_secrets_access r =
    contains r.resources "secrets" && any (contains r.verbs) ("get" ∷ "list" ∷ "watch" ∷ [])

unfoldable pub grants_exec_attach : Rule → Bool
grants_exec_attach r =
    overlaps exec_resources r.resources && any (contains r.verbs) ("create" ∷ "get" ∷ [])

unfoldable pub grants_escalation_verbs : Rule → Bool
grants_escalation_verbs r = overlaps escalation_verbs r.verbs

unfoldable pub grants_node_proxy : Rule → Bool
grants_node_proxy r = contains r.resources "nodes/proxy"

unfoldable pub grants_token_creation : Rule → Bool
grants_token_creation r = contains r.resources "serviceaccounts/token" && contains r.verbs "create"

unfoldable pub grants_csr_approval : Rule → Bool
grants_csr_approval r =
    contains r.resources "certificatesigningrequests/approval"
    && overlaps ("update" ∷ "patch" ∷ []) r.verbs

unfoldable pub grants_webhook_write : Rule → Bool
grants_webhook_write r = overlaps webhook_resources r.resources && overlaps write_verbs r.verbs

unfoldable pub grants_workload_creation : Rule → Bool
grants_workload_creation r = overlaps workload_resources r.resources && contains r.verbs "create"

unfoldable pub grants_pv_creation : Rule → Bool
grants_pv_creation r = contains r.resources "persistentvolumes" && contains r.verbs "create"

-- The resources of the rule among the names of one API group, if the rule covers the group.
unfoldable pub in_group : Rule → String × List String → List String
in_group r (group, names) =
    if not (nonempty r.api_groups) || contains r.api_groups group || contains r.api_groups "*"
    then filter (contains names) r.resources
    else []

-- A set as a list: its order, and how often an element stands in it, do not matter to the caller,
-- which sorts and drops repetitions.
unfoldable pub cluster_scoped_resources_in : Rule → List String
unfolding in_group
cluster_scoped_resources_in r =
    if contains r.resources "*" then [] else flat_map (in_group r) cluster_scoped_resources
