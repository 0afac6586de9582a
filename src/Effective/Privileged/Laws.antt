-- ===== src/Effective/Privileged/Laws.antt =====
-- Which namespaces control-plane/app/effective_access.py takes for privileged.
use kaaval.Base.{
  ◌≡◌, refl, ◌∙◌, String, Bool, not, ◌&&◌, some, List, [], ◌∷◌, arith, any, flat_map, contains,
  contains-append, ◌==◌, string_eq, option_eq, pair_eq,
}
use kaaval.Base.Dict.{Dict, lookup}
use kaaval.Rbac.Graph.{Subject, Role, Binding, RoleKey, role_key}
use kaaval.Effective.Privileged.{
  found_privileged, account_namespace, binding_namespaces, build_privileged_namespaces,
}

-- A service account other than `default` that lives in the namespace.
abbrev pub lives_in : String → Subject → Bool
lives_in ns s =
    s.kind == some "ServiceAccount" && (not (s.name == some "default") && some ns == s.namespace)

-- A binding of a privileged role to such an account.
abbrev pub makes_privileged : Dict RoleKey Role → String → Binding → Bool
makes_privileged index ns b =
    found_privileged (lookup (role_key b) index) && any (lives_in ns) b.subjects

contains-account_namespace :
    (ns : String) (s : Subject) → contains (account_namespace s) ns ≡ lives_in ns s
unfolding account_namespace contains
contains-account_namespace ns s = ground arith

contains-account_namespaces :
    (ns : String) (subjects : List Subject)
    → contains (flat_map account_namespace subjects) ns ≡ any (lives_in ns) subjects
unfolding flat_map any contains
contains-account_namespaces ns [] = refl
contains-account_namespaces ns (s ∷ subjects) =
    contains-append (account_namespace s) (flat_map account_namespace subjects) ns
    ∙ ground (arith, contains-account_namespace ns s, contains-account_namespaces ns subjects)

contains-binding_namespaces :
    (index : Dict RoleKey Role) (ns : String) (b : Binding)
    → contains (binding_namespaces index b) ns ≡ makes_privileged index ns b
unfolding binding_namespaces contains
contains-binding_namespaces index ns b = ground (arith, contains-account_namespaces ns b.subjects)

-- A namespace is privileged exactly if some binding gives a privileged role to a service account that
-- lives there and is not `default`. An account with no namespace makes no namespace privileged.
pub contains-build_privileged_namespaces :
    (index : Dict RoleKey Role) (ns : String) (bindings : List Binding)
    → contains (build_privileged_namespaces bindings index) ns
      ≡ any (makes_privileged index ns) bindings
unfolding build_privileged_namespaces flat_map any contains
contains-build_privileged_namespaces index ns [] = refl
contains-build_privileged_namespaces index ns (b ∷ bindings) =
    contains-append (binding_namespaces index b) (flat_map (binding_namespaces index) bindings) ns
    ∙ ground (
      arith,
      contains-binding_namespaces index ns b,
      contains-build_privileged_namespaces index ns bindings,
    )
