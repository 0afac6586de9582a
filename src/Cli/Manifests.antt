-- ===== src/Cli/Manifests.antt =====
-- control-plane/app/cli.py: `build_graph_from_manifests`, from the documents that `_iter_manifest_docs`
-- yields. Reading the files and parsing YAML are not modelled: a document is its parsed fields.
pub mod Laws
use kaaval.Base.{
  String, Bool, true, false, not, ◌||◌, Option, none, some, List, [], ◌∷◌, ◌++◌, if◌then◌else◌,
  get_or, contains, ◌==◌, string_eq, option_eq,
}
use kaaval.Rbac.Graph.{
  Rule, Subject, Role, RoleRef, RawBinding, Automount, ServiceAccount, Pod, Graph,
}
use kaaval.Cli.Export.{workload_template_kinds}

-- What is read of the spec of a pod.
pub record PodSpec : Type 0 where
  pub service_account_name : Option String
  pub automount : Automount

-- A document. `spec` is its own spec, `template` that of `spec.template`, and `job_template` that of
-- `spec.jobTemplate.spec.template`; a missing one is `none`. The fields of a rule stand as they are.
pub record Doc : Type 0 where
  pub kind : Option String
  pub name : Option String
  pub namespace : Option String
  pub rules : List Rule
  pub role_ref : RoleRef
  pub subjects : List Subject
  pub automount : Automount
  pub spec : Option PodSpec
  pub template : Option PodSpec
  pub job_template : Option PodSpec

abbrev no_spec : PodSpec
no_spec = record { service_account_name = none; automount = none }

abbrev pub to_role : Doc → Role
to_role d = record { name = d.name; namespace = d.namespace; rules = d.rules }

abbrev pub to_cluster_role : Doc → Role
to_cluster_role d = record { name = d.name; namespace = none; rules = d.rules }

abbrev pub to_role_binding : Doc → RawBinding
to_role_binding d = record {
  name = d.name;
  namespace = d.namespace;
  role_ref = d.role_ref;
  subjects = d.subjects;
}

abbrev pub to_cluster_role_binding : Doc → RawBinding
to_cluster_role_binding d = record {
  name = d.name;
  namespace = none;
  role_ref = d.role_ref;
  subjects = d.subjects;
}

abbrev pub to_service_account : Doc → ServiceAccount
to_service_account d = record { name = d.name; namespace = d.namespace; automount = d.automount }

abbrev pub to_pod : Doc → Option PodSpec → Pod
to_pod d spec = record {
  kind = d.kind;
  name = d.name;
  namespace = d.namespace;
  service_account_name = (get_or spec no_spec).service_account_name;
  automount = (get_or spec no_spec).automount;
}

-- The pod spec of a workload: that of its template, or of its job's template.
abbrev pub workload_spec : Doc → Option PodSpec
workload_spec d = if d.kind == some "CronJob" then d.job_template else d.template

abbrev pub is_workload : Option String → Bool
is_workload none = false
is_workload (some kind) = contains workload_template_kinds kind

-- One round of the loop, the guard included: a document of no known kind changes nothing.
unfoldable pub add_doc : Graph → Doc → Graph
unfolding contains
add_doc g d =
    if d.kind == some "Role"
    then record g { roles = g.roles ++ to_role d ∷ [] }
    else if d.kind == some "ClusterRole"
    then record g { cluster_roles = g.cluster_roles ++ to_cluster_role d ∷ [] }
    else if d.kind == some "RoleBinding"
    then record g { role_bindings = g.role_bindings ++ to_role_binding d ∷ [] }
    else if d.kind == some "ClusterRoleBinding"
    then record g {
      cluster_role_bindings = g.cluster_role_bindings ++ to_cluster_role_binding d ∷ [];
    }
    else if d.kind == some "ServiceAccount"
    then record g { service_accounts = g.service_accounts ++ to_service_account d ∷ [] }
    else if d.kind == some "Pod"
    then record g { pods = g.pods ++ to_pod d d.spec ∷ [] }
    else if is_workload d.kind
    then record g { pods = g.pods ++ to_pod d (workload_spec d) ∷ [] }
    else g

unfoldable pub add_docs : List Doc → Graph → Graph
unfolding add_doc
add_docs [] g = g
add_docs (d ∷ docs) g = add_docs docs (add_doc g d)

abbrev empty_graph : Graph
empty_graph = record {
  roles = [];
  cluster_roles = [];
  role_bindings = [];
  cluster_role_bindings = [];
  service_accounts = [];
  pods = [];
}

unfoldable pub build_graph : List Doc → Graph
unfolding add_docs
build_graph docs = add_docs docs empty_graph
