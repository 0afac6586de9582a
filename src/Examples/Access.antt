-- ===== src/Examples/Access.antt =====
-- The theorems on combined grants, on the cluster of the examples.
use kaaval.Base.{◌≡◌, refl, true, any, contains, string_eq, option_eq, pair_eq}
use kaaval.Base.Dict.{lookup}
use kaaval.Base.Member.{Member, here, there}
use kaaval.Rbac.Graph.{all_bindings}
use kaaval.Effective.Predicates.{
  can_create_roles, can_escalate, can_create_bindings, can_bind, has_verb, has_resource,
}
use kaaval.Effective.Privileged.{build_privileged_namespaces}
use kaaval.Effective.Privileged.Laws.{makes_privileged, contains-build_privileged_namespaces}
use kaaval.Effective.Subjects.{bound_rules, named_role_index, index_named_roles}
use kaaval.Effective.Subjects.Laws.{Names}
use kaaval.Effective.Combos.Laws.{
  IsReported, role_escalation-IsReported, bind_escalation-IsReported,
}
use kaaval.Examples.Fixed.{fixed, production}
use kaaval.Examples.Cluster.{cluster, builder, builder_key, create_bound, escalate_bound}

create_found : Member create_bound (all_bindings cluster)
unfolding all_bindings
create_found = here refl

escalate_found : Member escalate_bound (all_bindings cluster)
unfolding all_bindings
escalate_found = there (there (here refl))

Names-create : Names builder_key create_bound
Names-create = (builder, here refl, refl)

Names-escalate : Names builder_key escalate_bound
Names-escalate = (builder, here refl, refl)

creates_roles : can_create_roles (bound_rules (named_role_index cluster) create_bound) ≡ true
unfolding can_create_roles any has_verb has_resource contains lookup named_role_index
    index_named_roles
creates_roles = refl

may_escalate : can_escalate (bound_rules (named_role_index cluster) escalate_bound) ≡ true
unfolding can_escalate any has_verb contains lookup named_role_index index_named_roles
may_escalate = refl

creates_bindings : can_create_bindings (bound_rules (named_role_index cluster) create_bound) ≡ true
unfolding can_create_bindings any has_verb has_resource contains lookup named_role_index
    index_named_roles
creates_bindings = refl

may_bind : can_bind (bound_rules (named_role_index cluster) escalate_bound) ≡ true
unfolding can_bind any has_verb contains lookup named_role_index index_named_roles
may_bind = refl

role_escalation-IsReported_example :
    IsReported fixed cluster production builder_key "combo_role_escalation"
role_escalation-IsReported_example =
    role_escalation-IsReported fixed cluster production builder_key create_bound escalate_bound
      create_found escalate_found Names-create Names-escalate creates_roles may_escalate

bind_escalation-IsReported_example :
    IsReported fixed cluster production builder_key "combo_bind_escalation"
bind_escalation-IsReported_example =
    bind_escalation-IsReported fixed cluster production builder_key create_bound escalate_bound
      create_found escalate_found Names-create Names-escalate creates_bindings may_bind

contains-build_privileged_namespaces_example :
    contains (build_privileged_namespaces (all_bindings cluster) (named_role_index cluster)) "ci"
    ≡ any (makes_privileged (named_role_index cluster) "ci") (all_bindings cluster)
contains-build_privileged_namespaces_example =
    contains-build_privileged_namespaces (named_role_index cluster) "ci" (all_bindings cluster)
