-- ===== src/Effective/Predicates.antt =====
-- control-plane/app/effective_access.py: the four predicates over the aggregated rules of a subject.
pub mod Laws
use kaaval.Base.{
  String, ◌<>◌, Bool, true, false, not, ◌&&◌, ◌||◌, Option, none, some, List, [], ◌∷◌,
  if◌then◌else◌, any, nonempty, contains, string_eq,
}
use kaaval.Base.Text.{show, truthy}
use kaaval.Rbac.Graph.{Rule}
use kaaval.Rbac.Rules.{overlaps}
use kaaval.Rbac.Risks.{Risk}

unfoldable pub has_verb : Rule → List String → Bool
has_verb r verbs = overlaps verbs r.verbs || contains r.verbs "*"

-- A rule that names no API groups is taken to cover them all.
unfoldable pub has_resource : Rule → List String → List String → Bool
has_resource r groups resources =
    if not (overlaps resources r.resources || contains r.resources "*")
    then false
    else if not (nonempty r.api_groups)
    then true
    else overlaps groups r.api_groups || contains r.api_groups "*"

abbrev pub rbac_api_group : List String
rbac_api_group = "rbac.authorization.k8s.io" ∷ []

abbrev pub core_api_group : List String
core_api_group = "" ∷ []

unfoldable pub can_create_roles : List Rule → Bool
can_create_roles rules =
    any
      (λ r.
        has_resource r rbac_api_group ("roles" ∷ "clusterroles" ∷ []) && has_verb r ("create" ∷ []))
      rules

unfoldable pub can_escalate : List Rule → Bool
can_escalate rules = any (λ r. has_verb r ("escalate" ∷ [])) rules

unfoldable pub combo_role_escalation : List Rule → Option Risk
combo_role_escalation rules =
    if can_create_roles rules && can_escalate rules
    then some (record {
      rule_type = "combo_role_escalation";
      severity = "CRITICAL";
      detail =
          "Subject can both create roles/clusterroles and use the 'escalate' verb: "
          <> "they can create a role with arbitrary permissions and escalate into it, "
          <> "achieving full privilege escalation without touching existing roles.";
    })
    else none

unfoldable pub can_create_bindings : List Rule → Bool
can_create_bindings rules =
    any
      (λ r.
        has_resource r rbac_api_group ("rolebindings" ∷ "clusterrolebindings" ∷ [])
        && has_verb r ("create" ∷ []))
      rules

unfoldable pub can_bind : List Rule → Bool
can_bind rules = any (λ r. has_verb r ("bind" ∷ [])) rules

unfoldable pub combo_bind_escalation : List Rule → Option Risk
combo_bind_escalation rules =
    if can_create_bindings rules && can_bind rules
    then some (record {
      rule_type = "combo_bind_escalation";
      severity = "CRITICAL";
      detail =
          "Subject can both create rolebindings/clusterrolebindings and use the 'bind' verb: "
          <> "they can bind any existing role — including cluster-admin — to themselves or "
          <> "any other identity, achieving privilege escalation via binding.";
    })
    else none

abbrev pub impersonatable_resources : List String
impersonatable_resources = "users" ∷ "groups" ∷ "serviceaccounts" ∷ "userextras" ∷ []

unfoldable pub can_impersonate : List Rule → Bool
can_impersonate rules =
    any
      (λ r.
        has_verb r ("impersonate" ∷ []) && has_resource r core_api_group impersonatable_resources)
      rules

unfoldable pub impersonation_grant : List Rule → Option Risk
impersonation_grant rules =
    if can_impersonate rules
    then some (record {
      rule_type = "impersonation_grant";
      severity = "CRITICAL";
      detail =
          "Subject holds the 'impersonate' verb on users, groups, or serviceaccounts: "
          <> "they can send requests as any other identity, bypassing all RBAC controls "
          <> "that target those identities — including cluster-admin.";
    })
    else none

unfoldable pub can_create_pods : List Rule → Bool
can_create_pods rules =
    any (λ r. has_resource r core_api_group ("pods" ∷ []) && has_verb r ("create" ∷ [])) rules

unfoldable pub privileged_pod_creation : List Rule → Option String → Bool → Option Risk
privileged_pod_creation rules namespace namespace_has_privileged_sa =
    if can_create_pods rules && namespace_has_privileged_sa
    then some (record {
      rule_type = "privileged_pod_creation";
      severity = "HIGH";
      detail =
          "Subject can create pods in "
          <> (if truthy namespace then "namespace '" <> show namespace <> "'" else "cluster scope")
          <> ", which contains a ServiceAccount "
          <> "bound to a privileged role.  By mounting that ServiceAccount's token "
          <> "in a new pod, the subject can act as the privileged identity without "
          <> "ever being directly bound to it.";
    })
    else none
