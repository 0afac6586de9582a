-- ===== src/Effective/Subjects.antt =====
-- control-plane/app/effective_access.py: the bindings and the rules of each subject.
pub mod Laws
use kaaval.Base.{
  String, ◌<>◌, Bool, true, false, not, Option, none, some, List, [], ◌∷◌, ◌++◌, if◌then◌else◌,
  get_or, flat_map, ◌==◌, string_eq, option_eq, pair_eq,
}
use kaaval.Base.Dict.{Dict, lookup, insert, append_to}
use kaaval.Base.Text.{show, truthy}
use kaaval.Rbac.Graph.{Rule, Subject, Role, Binding, Graph, RoleKey, role_key}

abbrev pub SubjectKey : Type 0
SubjectKey = Option String × (Option String × Option String)

abbrev pub subject_key : Subject → SubjectKey
subject_key s = (s.kind, (s.name, s.namespace))

-- `_subject_description`; a kind or a name that is there is a text.
unfoldable pub subject_description : Subject → String
subject_description s =
    get_or s.kind "Unknown"
    <> "/"
    <> get_or s.name "?"
    <> (if truthy s.namespace then " (ns: " <> show s.namespace <> ")" else "")

-- The first loops of `evaluate_combo_findings`: roles with no name are left out.
unfoldable pub index_named_roles :
    (Role → RoleKey) → List Role → Dict RoleKey Role → Dict RoleKey Role
unfolding insert
index_named_roles key [] d = d
index_named_roles key (r ∷ roles) d =
    index_named_roles key roles (if truthy r.name then insert (key r) r d else d)

unfoldable pub named_role_index : Graph → Dict RoleKey Role
unfolding index_named_roles
named_role_index g =
    index_named_roles (λ r. (some "ClusterRole", (none, r.name))) g.cluster_roles
      (index_named_roles (λ r. (some "Role", (r.namespace, r.name))) g.roles [])

-- `role.get("rules") or []` of the role that the lookup gives, if there is one
abbrev pub found_rules : Option Role → List Rule
found_rules none = []
found_rules (some role) = role.rules

abbrev pub bound_rules : Dict RoleKey Role → Binding → List Rule
bound_rules index b = found_rules (lookup (role_key b) index)

unfoldable pub flatten_rules_for_subject : List Binding → Dict RoleKey Role → List Rule
unfolding lookup
flatten_rules_for_subject bindings index = flat_map (bound_rules index) bindings

unfoldable pub add_subjects :
    Binding → List Subject → Dict SubjectKey (List Binding) → Dict SubjectKey (List Binding)
unfolding append_to
add_subjects b [] d = d
add_subjects b (s ∷ subjects) d = add_subjects b subjects (append_to (subject_key s) b d)

-- `subject_to_bindings`
unfoldable pub subject_index :
    List Binding → Dict SubjectKey (List Binding) → Dict SubjectKey (List Binding)
unfolding add_subjects
subject_index [] d = d
subject_index (b ∷ bindings) d = subject_index bindings (add_subjects b b.subjects d)

-- `next(s for s in subjects if _subject_key(s) == key)`; `none` is StopIteration.
unfoldable pub find_subject : SubjectKey → List Subject → Option Subject
find_subject k [] = none
find_subject k (s ∷ subjects) =
    let rest = find_subject k subjects in if subject_key s == k then some s else rest

-- The subject of the first of its bindings; `none` where the code would raise.
unfoldable pub representative : SubjectKey → List Binding → Option Subject
unfolding find_subject
representative k [] = none
representative k (b ∷ bindings) = find_subject k b.subjects
