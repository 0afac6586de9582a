-- ===== src/Rbac/Findings/Severities.antt =====
-- The severities of the findings of control-plane/app/rbac_service.py.
use kaaval.Base.{
  ◌≡◌, refl, String, true, ◌==◌, Option, some, List, [], ◌∷◌, All, All-append, all, all-append,
  Option-cases, flat_map, option_eq, pair_eq, All-of_all, all_of_All, All-imp, contains, string_eq,
  Bool-cases, inl, inr,
}
use kaaval.Base.Dict.{Dict, lookup}
use kaaval.Base.Member.{Member-All}
use kaaval.Floats.{Floats}
use kaaval.Scoring.{Context, severity_order}
use kaaval.Finding.{Finding}
use kaaval.Remediation.Build.{with_remediation}
use kaaval.Rbac.Graph.{Rule, Graph, Automount, Binding, Pod, ServiceAccount}
use kaaval.Rbac.Subjects.{broad_identity_in, is_cluster_admin_equivalent, is_segmentation_violation}
use kaaval.Rbac.Risks.Severity.{severity_in, evaluate_role_risks-known}
use kaaval.Rbac.Automount.{
  AutomountRisk, effective_automount, is_true, is_false, account_index, account_name, account_risks,
  pod_risks, evaluate_token_automount,
}
use kaaval.Rbac.Findings.{
  admin_risks, segmentation_risks, binding_risks, binding_finding, automount_finding,
  evaluate_rbac_findings,
}
use kaaval.Rbac.Findings.Origin.{HasOrigin, evaluate_rbac_findings_sound}

All-flat_map {ℓ κ} :
    {A : Type ℓ} {B : Type κ} (P : B → Type 0) (f : A → List B) (xs : List A)
    → ((x : A) → All P (f x))
    → All P (flat_map f xs)
unfolding flat_map
All-flat_map P f [] h = tt
All-flat_map P f (x ∷ xs) h = All-append P (f x) _ (h x) (All-flat_map P f xs h)

admin_risks-known :
    (b : Binding) (rules : List Rule)
    → all (severity_in severity_order) (admin_risks b rules) ≡ true
unfolding admin_risks all contains
admin_risks-known b rules = elim (Option-cases (broad_identity_in b.subjects)) [
  | inl q ↦ rw (q, admin_risks) refl
  | inr (identity, q) ↦ elim (Bool-cases (is_cluster_admin_equivalent b.role_ref.name rules)) [
    | inl e ↦ rw (q, admin_risks, e) refl
    | inr e ↦ rw (q, admin_risks, e) refl
  ]
]

segmentation_risks-known :
    (b : Binding) → all (severity_in severity_order) (segmentation_risks b) ≡ true
unfolding segmentation_risks all contains
segmentation_risks-known b = elim (Option-cases (is_segmentation_violation b b.role_ref.kind)) [
  | inl q ↦ rw (q, segmentation_risks) refl
  | inr (detail, q) ↦ rw (q, segmentation_risks) refl
]

binding_risks-known :
    (b : Binding) (rules : List Rule)
    → all (severity_in severity_order) (binding_risks b rules) ≡ true
unfolding binding_risks
binding_risks-known b rules =
    simp (all-append, evaluate_role_risks-known, admin_risks-known, segmentation_risks-known)

abbrev Known : AutomountRisk → Type 0
Known r = contains severity_order r.severity ≡ true

account_risks-Known : (sa : ServiceAccount) → All Known (account_risks sa)
unfolding account_risks contains
account_risks-Known sa = elim (Bool-cases (effective_automount sa.automount)) [
  | inl e ↦ elim (Bool-cases (sa.name == some "default")) [
    | inl k ↦ rw (e, k) (refl, tt)
    | inr k ↦ rw (e, k) (refl, tt)
  ]
  | inr e ↦ rw e tt
]

pod_risks-Known :
    (index : Dict (Option String × Option String) Automount) (p : Pod)
    → All Known (pod_risks index p)
unfolding pod_risks contains
pod_risks-Known index p = elim (Bool-cases (is_true p.automount)) [
  | inl e ↦ elim (Bool-cases (is_false (lookup (p.namespace, some (account_name p)) index))) [
    | inl k ↦ rw (e, k) (refl, tt)
    | inr k ↦ rw (e, k) tt
  ]
  | inr e ↦ rw e tt
]

evaluate_token_automount-Known : (g : Graph) → All Known (evaluate_token_automount g)
unfolding evaluate_token_automount
evaluate_token_automount-Known g =
    let index = account_index g.service_accounts [] in
    All-append Known (flat_map account_risks g.service_accounts) _
      (All-flat_map Known account_risks g.service_accounts account_risks-Known)
      (All-flat_map Known (pod_risks index) g.pods (pod_risks-Known index))

module _ (F : Floats) (g : Graph) (c : Context) where
  known_origin : (f : Finding F) → HasOrigin F g c f → contains severity_order f.severity ≡ true
  unfolding binding_finding automount_finding with_remediation
  known_origin f (inl (b, role, risk, x, e)) = rw e (
      Member-All (λ r. severity_in severity_order r ≡ true) risk _
        (All-of_all _ _ (binding_risks-known b role.rules)) x.flagged)
  known_origin f (inr (risk, m, e)) =
      rw e (Member-All Known risk _ (evaluate_token_automount-Known g) m)

  -- Every finding has a severity of the order.
  pub evaluate_rbac_findings-known :
      all (λ f. contains severity_order f.severity) (evaluate_rbac_findings F g c) ≡ true
  evaluate_rbac_findings-known = all_of_All _ _ (
      All-imp (HasOrigin F g c) _ (evaluate_rbac_findings F g c) known_origin
        (evaluate_rbac_findings_sound F g c))
