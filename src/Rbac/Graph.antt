-- ===== src/Rbac/Graph.antt =====
-- The graph that the two scanners read: what K8sClient.get_rbac_graph_data() of
-- control-plane/app/k8s_client.py and build_graph_from_manifests() of control-plane/app/cli.py
-- return. A missing key and `None` are both `none`; for a list, `None`, a missing key and the empty
-- list are `[]`, since the code reads each by `or []` or by its truth value.
use kaaval.Base.{
  String, Bool, Option, none, some, List, ◌++◌, map, if◌then◌else◌, ◌==◌, string_eq, option_eq,
}

pub record Rule : Type 0 where
  pub verbs : List String
  pub resources : List String
  pub api_groups : List String

pub record Subject : Type 0 where
  pub kind : Option String
  pub name : Option String
  pub namespace : Option String

-- An entry of "roles" or of "cluster_roles"; these have no namespace.
pub record Role : Type 0 where
  pub name : Option String
  pub namespace : Option String
  pub rules : List Rule

-- `roleRef` of a binding
pub record RoleRef : Type 0 where
  pub kind : Option String
  pub name : Option String

-- An entry of "role_bindings" or of "cluster_role_bindings"; these have no namespace.
pub record RawBinding : Type 0 where
  pub name : Option String
  pub namespace : Option String
  pub role_ref : RoleRef
  pub subjects : List Subject

-- `automountServiceAccountToken`: `true`, `false`, or neither, which the code treats as unset.
abbrev pub Automount : Type 0
Automount = Option Bool

pub record ServiceAccount : Type 0 where
  pub name : Option String
  pub namespace : Option String
  pub automount : Automount

pub record Pod : Type 0 where
  pub kind : Option String
  pub name : Option String
  pub namespace : Option String
  pub service_account_name : Option String
  pub automount : Automount

pub record Graph : Type 0 where
  pub roles : List Role
  pub cluster_roles : List Role
  pub role_bindings : List RawBinding
  pub cluster_role_bindings : List RawBinding
  pub service_accounts : List ServiceAccount
  pub pods : List Pod

-- A binding with its "binding_kind".
pub record Binding : Type 0 where
  pub binding_kind : String
  pub name : Option String
  pub namespace : Option String
  pub role_ref : RoleRef
  pub subjects : List Subject

abbrev pub with_kind : String → RawBinding → Binding
with_kind k b = record {
  binding_kind = k;
  name = b.name;
  namespace = b.namespace;
  role_ref = b.role_ref;
  subjects = b.subjects;
}

unfoldable pub all_bindings : Graph → List Binding
all_bindings g =
    map (with_kind "RoleBinding") g.role_bindings
    ++ map (with_kind "ClusterRoleBinding") g.cluster_role_bindings

-- The key of `role_index`: kind, namespace, name.
abbrev pub RoleKey : Type 0
RoleKey = Option String × (Option String × Option String)

-- The key that a binding looks its role up by.
abbrev pub role_key : Binding → RoleKey
role_key b = (
  b.role_ref.kind,
  (if b.role_ref.kind == some "Role" then b.namespace else none, b.role_ref.name),
)
