-- ===== src/Rbac/Risks/Laws.antt =====
-- What the flags of `_evaluate_role_risks` in control-plane/app/rbac_service.py say of the rules.
use kaaval.Base.{
  ◌≡◌, refl, sym, ◌∙◌, String, Bool, true, false, ◌&&◌, ◌||◌, List, [], ◌∷◌, ◌++◌, arith,
  if◌then◌else◌, nonempty, any, any-append, any_or, any_and, any-false, or_assoc, or-false,
  flat_map, ◌==◌, string_eq,
}
use kaaval.Base.Text.{nonempty-sorted_set}
use kaaval.Rbac.Graph.{Rule}
use kaaval.Rbac.Rules.{
  is_wildcard_open, grants_secrets_access, grants_exec_attach, grants_escalation_verbs,
  grants_node_proxy, grants_token_creation, grants_csr_approval, grants_webhook_write,
  grants_workload_creation, grants_pv_creation, cluster_scoped_resources_in,
}
use kaaval.Rbac.Risks.{Risk, flag, inert_resources, evaluate_role_risks}

-- Whether a rule type stands among the risks.
unfoldable pub reports : String → List Risk → Bool
unfolding any
reports t risks = any (λ r. r.rule_type == t) risks

pub reports-append :
    (t : String) (xs ys : List Risk) → reports t (xs ++ ys) ≡ (reports t xs || reports t ys)
unfolding reports
reports-append t xs ys = any-append _ xs ys

reports-flag : (t : String) (b : Bool) (r : Risk) → reports t (flag b r) ≡ (r.rule_type == t && b)
unfolding reports
reports-flag t true r = ground arith
reports-flag t false r = ground arith

-- A rule that names a cluster-scoped resource.
abbrev pub names_inert : Rule → Bool
names_inert r = nonempty (cluster_scoped_resources_in r)

-- The rule types with what one rule must grant for them, as docs/rbac-rules.md lists them: the
-- first six for every role, then those of its scope.
unfoldable pub catalogue : Bool → List (String × (Rule → Bool))
catalogue cluster_scoped =
    ("wildcard_permissions", is_wildcard_open)
    ∷ ("broad_secrets_access", grants_secrets_access)
    ∷ ("exec_attach_grant", grants_exec_attach)
    ∷ ("privilege_escalation_verbs", grants_escalation_verbs)
    ∷ ("token_creation", grants_token_creation)
    ∷ ("workload_creation", grants_workload_creation)
    ∷ (if cluster_scoped
        then ("node_proxy_access", grants_node_proxy)
          ∷ ("csr_approval", grants_csr_approval)
          ∷ ("webhook_config_access", grants_webhook_write)
          ∷ ("pv_creation", grants_pv_creation)
          ∷ []
        else ("ineffective_cluster_scope_grant", names_inert) ∷ [])

-- The rule, taken alone, gives the rule type.
unfoldable pub causes : Bool → String → Rule → Bool
unfolding catalogue
causes cluster_scoped t r = any (λ (u, p). u == t && p r) (catalogue cluster_scoped)

nonempty-append : (xs ys : List String) → nonempty (xs ++ ys) ≡ (nonempty xs || nonempty ys)
nonempty-append [] ys = refl
nonempty-append (x ∷ xs) ys = refl

nonempty-inert_resources :
    (rules : List Rule) → nonempty (inert_resources rules) ≡ any names_inert rules
unfolding any flat_map
nonempty-inert_resources [] = nonempty-sorted_set []
nonempty-inert_resources (r ∷ rules) = ground (
  arith,
  nonempty-sorted_set (flat_map cluster_scoped_resources_in (r ∷ rules)),
  nonempty-sorted_set (flat_map cluster_scoped_resources_in rules),
  nonempty-append (cluster_scoped_resources_in r) (flat_map cluster_scoped_resources_in rules),
  nonempty-inert_resources rules,
)

-- The flags, as one pass over the catalogue.
reports-catalogue :
    (t : String) (rules : List Rule) (cluster_scoped : Bool)
    → reports t (evaluate_role_risks rules cluster_scoped)
      ≡ any (λ (u, p). u == t && any p rules) (catalogue cluster_scoped)
unfolding evaluate_role_risks catalogue any
reports-catalogue t rules true = simp (reports-append, reports-flag, or_assoc, or-false)
reports-catalogue t rules false =
    simp (reports-append, reports-flag, nonempty-inert_resources, or_assoc, or-false)

-- Asking each entry for a rule is asking each rule for an entry.
any_swap :
    (t : String) (rules : List Rule) (entries : List (String × (Rule → Bool)))
    → any (λ (u, p). u == t && any p rules) entries
      ≡ any (λ r. any (λ (u, p). u == t && p r) entries) rules
unfolding any
any_swap t rules [] = sym (any-false rules)
any_swap t rules ((u, p) ∷ entries) = ground (
  arith,
  any_swap t rules entries,
  any_or (λ r. u == t && p r) (λ r. any (λ (v, q). v == t && q r) entries) rules,
  any_and (u == t) p rules,
)

-- A rule type is reported for a role exactly if one of its rules, taken alone, causes it.
pub reports-evaluate_role_risks :
    (t : String) (rules : List Rule) (cluster_scoped : Bool)
    → reports t (evaluate_role_risks rules cluster_scoped) ≡ any (causes cluster_scoped t) rules
unfolding causes
reports-evaluate_role_risks t rules cluster_scoped =
    reports-catalogue t rules cluster_scoped ∙ any_swap t rules (catalogue cluster_scoped)
