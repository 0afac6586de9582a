-- ===== src/Rbac/Subjects.antt =====
-- control-plane/app/rbac_service.py: what the subjects of a binding and its role's name say.
pub mod Laws
use text.Mathlib.Text.{starts_with}
use kaaval.Base.{
  String, ◌<>◌, Bool, true, false, not, ◌&&◌, ◌||◌, Option, none, some, List, [], ◌∷◌, map,
  if◌then◌else◌, get_or, nonempty, any, all, contains, ◌==◌, string_eq, option_eq,
}
use kaaval.Base.Text.{show, is_text, truthy, or_text, or_none}
use kaaval.Rbac.Graph.{Rule, Subject, Binding}
use kaaval.Rbac.Rules.{is_wildcard_open}

abbrev pub broad_service_accounts : List String
broad_service_accounts = "default" ∷ []

abbrev pub broad_groups : List String
broad_groups = "system:authenticated" ∷ "system:unauthenticated" ∷ "system:masters" ∷ []

-- `s.startswith(("system:", "kubeadm:"))`
unfoldable pub has_builtin_prefix : String → Bool
has_builtin_prefix s = starts_with s "system:" || starts_with s "kubeadm:"

unfoldable pub is_builtin_role : Option String → Bool
unfolding has_builtin_prefix
is_builtin_role name = has_builtin_prefix (or_text name "")

unfoldable pub is_builtin_subject : Subject → Bool
unfolding has_builtin_prefix
is_builtin_subject s =
    if not (s.kind == some "Group" || s.kind == some "User")
    then false
    else if contains broad_groups (or_text s.name "")
    then false
    else has_builtin_prefix (or_text s.name "")

unfoldable pub all_subjects_builtin : List Subject → Bool
all_subjects_builtin subjects = nonempty subjects && all is_builtin_subject subjects

abbrev pub is_masters : Subject → Bool
is_masters s = s.kind == some "Group" && s.name == some "system:masters"

unfoldable pub is_stock_cluster_admin_binding : Binding → Bool
is_stock_cluster_admin_binding b =
    b.binding_kind == "ClusterRoleBinding"
    && (b.name == some "cluster-admin"
        && (b.role_ref.name == some "cluster-admin"
            && (nonempty b.subjects && all is_masters b.subjects)))

unfoldable pub subject_namespace : Subject → Option String
subject_namespace s = if s.kind == some "ServiceAccount" then or_none s.namespace else none

abbrev cluster_scope_detail : Binding → Subject → String → String
cluster_scope_detail b s ns =
    "ServiceAccount '"
    <> show s.name
    <> "' in namespace '"
    <> ns
    <> "' is bound at cluster scope via ClusterRoleBinding '"
    <> show b.name
    <> "' — it reaches every namespace."

abbrev cross_namespace_detail : Binding → Subject → String → String
cross_namespace_detail b s ns =
    "ServiceAccount '"
    <> show s.name
    <> "' in namespace '"
    <> ns
    <> "' is granted access in namespace '"
    <> show b.namespace
    <> "' via RoleBinding '"
    <> show b.name
    <> "' — cross-namespace reach breaks micro-segmentation."

-- The first loop: the first subject with a namespace.
unfoldable pub cluster_scope_reach : Binding → List Subject → Option String
cluster_scope_reach b [] = none
cluster_scope_reach b (s ∷ subjects) = elim (subject_namespace s) [
  | none ↦ cluster_scope_reach b subjects
  | some ns ↦ some (cluster_scope_detail b s ns)
]

-- The second loop: the first subject with a namespace that is not the binding's.
unfoldable pub cross_namespace_reach : Binding → List Subject → Option String
cross_namespace_reach b [] = none
cross_namespace_reach b (s ∷ subjects) = elim (subject_namespace s) [
  | none ↦ cross_namespace_reach b subjects
  | some ns ↦
      let rest = cross_namespace_reach b subjects in
      if some ns == b.namespace then rest else some (cross_namespace_detail b s ns)
]

-- A binding has one kind, so at most one of the two loops runs.
unfoldable pub is_segmentation_violation : Binding → Option String → Option String
unfolding cluster_scope_reach cross_namespace_reach
is_segmentation_violation b role_kind =
    if b.binding_kind == "ClusterRoleBinding"
    then cluster_scope_reach b b.subjects
    else if b.binding_kind == "RoleBinding"
        && (role_kind == some "ClusterRole" && truthy b.namespace)
    then cross_namespace_reach b b.subjects
    else none

unfoldable pub is_cluster_admin_equivalent : Option String → List Rule → Bool
is_cluster_admin_equivalent role_name rules =
    role_name == some "cluster-admin"
    || any (λ r. is_wildcard_open r && contains r.api_groups "*") rules

-- A namespace that is missing is shown as `?`.
unfoldable pub broad_identity_in : List Subject → Option String
broad_identity_in [] = none
broad_identity_in (s ∷ subjects) =
    let rest = broad_identity_in subjects in
    if s.kind == some "ServiceAccount" && contains (map some broad_service_accounts) s.name
    then some
        ("ServiceAccount '" <> show s.name <> "' in namespace '" <> get_or s.namespace "?" <> "'")
    else if s.kind == some "Group" && contains (map some broad_groups) s.name
    then some ("group '" <> show s.name <> "'")
    else rest
