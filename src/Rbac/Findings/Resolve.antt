-- ===== src/Rbac/Findings/Resolve.antt =====
-- Which role a binding of control-plane/app/rbac_service.py resolves to.
use kaaval.Base.{
  ◌≡◌, sym, ap, ◌∙◌, none, some, List, [], ◌∷◌, ◌⊎◌, inl, inr, if◌then◌else◌, ◌==◌, string_eq,
  option_eq, pair_eq,
}
use kaaval.Base.Dict.{Dict, lookup, insert, lookup-nil, lookup-insert_cases}
use kaaval.Base.Member.{Member, here, there}
use kaaval.Rbac.Graph.{Role, Binding, Graph, RoleKey, role_key}
use kaaval.Rbac.Findings.{index_roles, index_cluster_roles, role_index}

abbrev own_key : Role → RoleKey
own_key r = (some "Role", (r.namespace, r.name))

abbrev cluster_key : Role → RoleKey
cluster_key r = (some "ClusterRole", (none, r.name))

-- One of the roles with the key `key r`, or what the dict held before.
abbrev FromRoles : (Role → RoleKey) → List Role → Dict RoleKey Role → RoleKey → Role → Type 0
FromRoles key roles d k r = (Member r roles × (k ≡ key r)) ⊎ (lookup k d ≡ some r)

step_cases :
    (key : Role → RoleKey) (s : Role) (roles : List Role) (d : Dict RoleKey Role) (k : RoleKey)
    (r : Role)
    → FromRoles key roles (insert (key s) s d) k r
    → FromRoles key (s ∷ roles) d k r
step_cases key s roles d k r (inl (m, e)) = inl (there m, e)
step_cases key s roles d k r (inr h) = elim (lookup-insert_cases k (key s) s r d h) [
  | inl same ↦ inl (here (sym (same.1)), same.0 ∙ ap key same.1)
  | inr old ↦ inr old
]

index_roles_cases :
    (roles : List Role) (d : Dict RoleKey Role) (k : RoleKey) (r : Role)
    → lookup k (index_roles roles d) ≡ some r
    → FromRoles own_key roles d k r
unfolding index_roles
index_roles_cases [] d k r h = inr h
index_roles_cases (s ∷ roles) d k r h =
    step_cases own_key s roles d k r (index_roles_cases roles (insert (own_key s) s d) k r h)

index_cluster_roles_cases :
    (roles : List Role) (d : Dict RoleKey Role) (k : RoleKey) (r : Role)
    → lookup k (index_cluster_roles roles d) ≡ some r
    → FromRoles cluster_key roles d k r
unfolding index_cluster_roles
index_cluster_roles_cases [] d k r h = inr h
index_cluster_roles_cases (s ∷ roles) d k r h =
    step_cases cluster_key s roles d k r
      (index_cluster_roles_cases roles (insert (cluster_key s) s d) k r h)

-- A key of the kind Role carries the binding's namespace.
own_scope : (b : Binding) (r : Role) → role_key b ≡ own_key r → b.namespace ≡ r.namespace
own_scope b r e =
    sym (ap (λ k. if k == some "Role" then b.namespace else none) (ap (λ k. k.0) e))
    ∙ ap (λ k. k.1.0) e

-- A binding resolves only to a cluster role of its `roleRef`'s name, for the kind ClusterRole, or to a
-- role of that name in the binding's own namespace, for the kind Role.
pub role_index_resolves :
    (g : Graph) (b : Binding) (r : Role)
    → lookup (role_key b) (role_index g) ≡ some r
    → (Member r g.cluster_roles
        × (b.role_ref.kind ≡ some "ClusterRole")
        × (b.role_ref.name ≡ r.name))
      ⊎ (Member r g.roles
          × (b.role_ref.kind ≡ some "Role")
          × (b.namespace ≡ r.namespace)
          × (b.role_ref.name ≡ r.name))
unfolding role_index
role_index_resolves g b r h =
    elim (index_cluster_roles_cases g.cluster_roles (index_roles g.roles []) (role_key b) r h) [
      | inl found ↦ inl (found.0, ap (λ k. k.0) found.1, ap (λ k. k.1.1) found.1)
      | inr older ↦ elim (index_roles_cases g.roles [] (role_key b) r older) [
        | inl found ↦
            inr (found.0, ap (λ k. k.0) found.1, own_scope b r found.1, ap (λ k. k.1.1) found.1)
        | inr empty ↦ cc (lookup-nil {V = Role} (role_key b))
      ]
    ]
