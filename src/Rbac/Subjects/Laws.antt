-- ===== src/Rbac/Subjects/Laws.antt =====
-- When a binding of control-plane/app/rbac_service.py breaks micro-segmentation, and which subjects
-- are never taken for built-in ones.
use kaaval.Base.{
  ◌≡◌, refl, String, Bool, true, false, not, ◌&&◌, ◌||◌, Option, some, List, [], ◌∷◌, arith,
  is_some, any, all, contains, ◌==◌, string_eq, option_eq, eq_iff,
}
use kaaval.Base.Text.{truthy}
use kaaval.Rbac.Graph.{Subject, Binding}
use kaaval.Rbac.Subjects.{
  is_masters, is_builtin_subject, all_subjects_builtin, subject_namespace, cluster_scope_reach,
  cross_namespace_reach, is_segmentation_violation, broad_identity_in,
}

-- A service account with a home namespace.
abbrev pub has_home : Subject → Bool
has_home s = s.kind == some "ServiceAccount" && truthy s.namespace

-- The two cases of NIST 800-207A: cluster scope, or a namespace that is not the account's own.
unfoldable pub breaks_segmentation : Binding → Option String → Bool
unfolding any
breaks_segmentation b role_kind =
    (b.binding_kind == "ClusterRoleBinding" && any has_home b.subjects)
    || (b.binding_kind == "RoleBinding"
        && ((role_kind == some "ClusterRole" && truthy b.namespace)
            && any (λ s. has_home s && not (s.namespace == b.namespace)) b.subjects))

is_some-subject_namespace : (s : Subject) → is_some (subject_namespace s) ≡ has_home s
unfolding subject_namespace
is_some-subject_namespace s = ground arith

is_some-cluster_scope_reach :
    (b : Binding) (subjects : List Subject)
    → is_some (cluster_scope_reach b subjects) ≡ any has_home subjects
unfolding cluster_scope_reach any subject_namespace
is_some-cluster_scope_reach b [] = refl
is_some-cluster_scope_reach b (s ∷ subjects) =
    ground (arith, is_some-cluster_scope_reach b subjects)

is_some-cross_namespace_reach :
    (b : Binding) (subjects : List Subject)
    → is_some (cross_namespace_reach b subjects)
      ≡ any (λ s. has_home s && not (s.namespace == b.namespace)) subjects
unfolding cross_namespace_reach any subject_namespace
is_some-cross_namespace_reach b [] = refl
is_some-cross_namespace_reach b (s ∷ subjects) =
    ground (arith, is_some-cross_namespace_reach b subjects)

-- A binding has one kind.
kinds_differ : (k : String) → (k == "ClusterRoleBinding") ≡ true → (k == "RoleBinding") ≡ false
kinds_differ k h = rw ((eq_iff k "ClusterRoleBinding").0 h)

-- A description is given exactly if the binding breaks segmentation: a cluster role binding with a
-- subject that has a home, or a role binding of a cluster role, in a namespace that is not empty,
-- with a subject whose home is another namespace.
pub is_some-is_segmentation_violation :
    (b : Binding) (role_kind : Option String)
    → is_some (is_segmentation_violation b role_kind) ≡ breaks_segmentation b role_kind
unfolding is_segmentation_violation breaks_segmentation
is_some-is_segmentation_violation b role_kind = ground (
  arith,
  kinds_differ b.binding_kind,
  is_some-cluster_scope_reach b b.subjects,
  is_some-cross_namespace_reach b b.subjects,
)

-- Membership of system:masters is never a built-in identity, so a binding that names it is not
-- skipped for its subjects.
is_masters-not-builtin : (s : Subject) → is_masters s ≡ true → is_builtin_subject s ≡ false
unfolding is_builtin_subject contains
is_masters-not-builtin s h = ground arith

masters-not-all :
    (subjects : List Subject)
    → any is_masters subjects ≡ true
    → all is_builtin_subject subjects ≡ false
unfolding any all
masters-not-all [] h = cc
masters-not-all (s ∷ subjects) h =
    ground (arith, masters-not-all subjects, is_masters-not-builtin s)

pub masters-not-all_builtin :
    (subjects : List Subject)
    → any is_masters subjects ≡ true
    → all_subjects_builtin subjects ≡ false
unfolding all_subjects_builtin
masters-not-all_builtin subjects h = ground (arith, masters-not-all subjects h)

-- A binding that names system:masters has a broad identity.
pub masters-broad :
    (subjects : List Subject)
    → any is_masters subjects ≡ true
    → is_some (broad_identity_in subjects) ≡ true
unfolding broad_identity_in any contains
masters-broad [] h = cc
masters-broad (s ∷ subjects) h = ground (arith, masters-broad subjects)
