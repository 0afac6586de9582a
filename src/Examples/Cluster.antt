-- ===== src/Examples/Cluster.antt =====
-- A small cluster: a binding of cluster-admin to system:masters, two bindings that together let one
-- account escalate, and a pod that turns automounting back on.
use kaaval.Base.{some, none, [], ◌∷◌, true, false}
use kaaval.Rbac.Graph.{
  Rule, Subject, Role, RawBinding, Binding, ServiceAccount, Pod, Graph, with_kind,
}
use kaaval.Effective.Subjects.{SubjectKey}

abbrev pub masters : Subject
masters = record { kind = some "Group"; name = some "system:masters"; namespace = none }

abbrev pub builder : Subject
builder = record { kind = some "ServiceAccount"; name = some "builder"; namespace = some "ci" }

abbrev pub builder_key : SubjectKey
builder_key = (some "ServiceAccount", (some "builder", some "ci"))

abbrev pub everything : Rule
everything = record { verbs = "*" ∷ []; resources = "*" ∷ []; api_groups = "*" ∷ [] }

abbrev pub escalates : Rule
escalates = record {
  verbs = "escalate" ∷ "bind" ∷ [];
  resources = "clusterroles" ∷ [];
  api_groups = [];
}

abbrev pub creates : Rule
creates = record {
  verbs = "create" ∷ [];
  resources = "roles" ∷ "rolebindings" ∷ [];
  api_groups = "rbac.authorization.k8s.io" ∷ [];
}

abbrev pub admin_role : Role
admin_role = record { name = some "ops-admin"; namespace = none; rules = everything ∷ [] }

abbrev pub escalate_role : Role
escalate_role = record { name = some "escalate"; namespace = none; rules = escalates ∷ [] }

abbrev pub create_role : Role
create_role = record { name = some "create"; namespace = some "ci"; rules = creates ∷ [] }

abbrev pub admin_binding : RawBinding
admin_binding = record {
  name = some "ops-admins";
  namespace = none;
  role_ref = record { kind = some "ClusterRole"; name = some "ops-admin" };
  subjects = masters ∷ [];
}

abbrev pub escalate_binding : RawBinding
escalate_binding = record {
  name = some "escalate";
  namespace = none;
  role_ref = record { kind = some "ClusterRole"; name = some "escalate" };
  subjects = builder ∷ [];
}

abbrev pub create_binding : RawBinding
create_binding = record {
  name = some "create";
  namespace = some "ci";
  role_ref = record { kind = some "Role"; name = some "create" };
  subjects = builder ∷ [];
}

abbrev pub opted_out : ServiceAccount
opted_out = record { name = some "builder"; namespace = some "ci"; automount = some false }

abbrev pub runner : Pod
runner = record {
  kind = some "Pod";
  name = some "runner";
  namespace = some "ci";
  service_account_name = some "builder";
  automount = some true;
}

abbrev pub cluster : Graph
cluster = record {
  roles = create_role ∷ [];
  cluster_roles = admin_role ∷ escalate_role ∷ [];
  role_bindings = create_binding ∷ [];
  cluster_role_bindings = admin_binding ∷ escalate_binding ∷ [];
  service_accounts = opted_out ∷ [];
  pods = runner ∷ [];
}

abbrev pub create_bound : Binding
create_bound = with_kind "RoleBinding" create_binding

abbrev pub admin_bound : Binding
admin_bound = with_kind "ClusterRoleBinding" admin_binding

abbrev pub escalate_bound : Binding
escalate_bound = with_kind "ClusterRoleBinding" escalate_binding
