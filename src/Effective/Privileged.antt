-- ===== src/Effective/Privileged.antt =====
-- control-plane/app/effective_access.py: the namespaces with a privileged service account.
pub mod Laws
use kaaval.Base.{
  String, Bool, true, false, not, ◌&&◌, ◌||◌, Option, none, some, List, [], ◌∷◌, ◌++◌,
  if◌then◌else◌, any, flat_map, contains, ◌==◌, string_eq, option_eq, pair_eq,
}
use kaaval.Base.Dict.{Dict, lookup}
use kaaval.Rbac.Graph.{Rule, Subject, Role, Binding, RoleKey, role_key}
use kaaval.Rbac.Rules.{overlaps}
use kaaval.Effective.Predicates.{has_resource, core_api_group}

abbrev pub powerful_verbs : List String
powerful_verbs = "escalate" ∷ "bind" ∷ "impersonate" ∷ []

abbrev pub broad_read : List String
broad_read = "get" ∷ "list" ∷ "watch" ∷ []

abbrev pub exec_subresources : List String
exec_subresources = "pods/exec" ∷ "pods/attach" ∷ "pods/portforward" ∷ []

-- The tests of the loop's body: it returns True at the first rule that passes one.
unfoldable pub rule_is_privileged : Rule → Bool
unfolding has_resource
rule_is_privileged r =
    (contains r.verbs "*" || contains r.resources "*")
    || ((overlaps broad_read r.verbs && has_resource r core_api_group ("secrets" ∷ []))
        || (overlaps powerful_verbs r.verbs
            || (overlaps ("create" ∷ "get" ∷ []) r.verbs
                && has_resource r core_api_group exec_subresources)))

unfoldable pub role_is_privileged : List Rule → Bool
unfolding rule_is_privileged
role_is_privileged rules = any rule_is_privileged rules

-- `role and _role_is_privileged(...)` of the role that the lookup gives.
abbrev pub found_privileged : Option Role → Bool
found_privileged none = false
found_privileged (some role) = role_is_privileged role.rules

-- The namespace that a subject adds: that of a service account other than `default`.
unfoldable pub account_namespace : Subject → List String
account_namespace s =
    if not (s.kind == some "ServiceAccount")
    then []
    else if s.name == some "default"
    then []
    else elim s.namespace [ none ↦ [] | some ns ↦ ns ∷ [] ]

unfoldable pub binding_namespaces : Dict RoleKey Role → Binding → List String
unfolding lookup account_namespace
binding_namespaces index b =
    if not (found_privileged (lookup (role_key b) index))
    then []
    else flat_map account_namespace b.subjects

-- A set, which is only asked for membership, as a list.
unfoldable pub build_privileged_namespaces : List Binding → Dict RoleKey Role → List String
unfolding binding_namespaces
build_privileged_namespaces bindings index = flat_map (binding_namespaces index) bindings
