-- ===== src/Effective/Combos/Laws.antt =====
-- `evaluate_combo_findings` of control-plane/app/effective_access.py, from the graph to the findings.
use mathlib.Core.Option.{some-injective}
use kaaval.Base.{
  ◌≡◌, refl, sym, String, Bool, true, Option, none, some, List, [], ◌∷◌, nonempty, any, string_eq,
  option_eq, pair_eq,
}
use kaaval.Base.Dict.{Dict}
use kaaval.Base.Member.{
  Member, here, there, Member-flat_map, Member-map, Member-sort, any-Member, Member-of_any,
}
use kaaval.Floats.{Floats}
use kaaval.Scoring.{Context}
use kaaval.Rbac.Graph.{Rule, Subject, Role, Binding, Graph, RoleKey, all_bindings}
use kaaval.Rbac.Risks.{Risk}
use kaaval.Rbac.Findings.{ranks_before}
use kaaval.Effective.Predicates.{
  can_create_roles, can_escalate, combo_role_escalation, can_create_bindings, can_bind,
  combo_bind_escalation,
}
use kaaval.Effective.Privileged.{build_privileged_namespaces}
use kaaval.Effective.Subjects.{
  SubjectKey, subject_key, named_role_index, bound_rules, flatten_rules_for_subject, subject_index,
  representative,
}
use kaaval.Effective.Subjects.Laws.{
  bindings_of, Names, Member-bindings_of, representative_of_bindings, Member-subject_index,
}
use kaaval.Effective.Combos.{
  present, combo_risks, combo_finding, found_findings, subject_findings, collect_combo_findings,
  evaluate_combo_findings,
}

any-flat_map-Member :
    (p : Rule → Bool) (index : Dict RoleKey Role) (b : Binding) (bindings : List Binding)
    → Member b bindings
    → any p (bound_rules index b) ≡ true
    → any p (flatten_rules_for_subject bindings index) ≡ true
unfolding flatten_rules_for_subject
any-flat_map-Member p index b bindings m h =
    let (r, k, q) = Member-of_any p (bound_rules index b) h in
    any-Member p r _ (Member-flat_map (bound_rules index) b r bindings m k) q

any-nonempty : (p : Rule → Bool) (rules : List Rule) → any p rules ≡ true → nonempty rules ≡ true
unfolding any
any-nonempty p [] h = h
any-nonempty p (r ∷ rules) h = refl

Member-present :
    (risk : Risk) (risks : List (Option Risk))
    → Member (some risk) risks
    → Member risk (present risks)
unfolding present
Member-present risk [] m = elim m [ ]
Member-present risk (none ∷ risks) (here e) = cc
Member-present risk (none ∷ risks) (there m) = Member-present risk risks m
Member-present risk (some x ∷ risks) (here e) = here (some-injective risk x e)
Member-present risk (some x ∷ risks) (there m) = there (Member-present risk risks m)

-- The two critical combinations, where both halves are granted.
role_escalation_found :
    (rules : List Rule)
    → can_create_roles rules ≡ true
    → can_escalate rules ≡ true
    → (risk : Risk) × (risk.rule_type ≡ "combo_role_escalation")
      × (risk.severity ≡ "CRITICAL")
      × (combo_role_escalation rules ≡ some risk)
unfolding combo_role_escalation
role_escalation_found rules h k = rw (h, k) (_, refl, refl, refl)

bind_escalation_found :
    (rules : List Rule)
    → can_create_bindings rules ≡ true
    → can_bind rules ≡ true
    → (risk : Risk) × (risk.rule_type ≡ "combo_bind_escalation")
      × (risk.severity ≡ "CRITICAL")
      × (combo_bind_escalation rules ≡ some risk)
unfolding combo_bind_escalation
bind_escalation_found rules h k = rw (h, k) (_, refl, refl, refl)

role_escalation-combo_risks :
    (namespaces : List String) (s : Subject) (rules : List Rule)
    → can_create_roles rules ≡ true
    → can_escalate rules ≡ true
    → (risk : Risk) × (risk.rule_type ≡ "combo_role_escalation")
      × (risk.severity ≡ "CRITICAL")
      × Member risk (combo_risks namespaces s rules)
unfolding combo_risks
role_escalation-combo_risks namespaces s rules h k =
    let (risk, t, v, e) = role_escalation_found rules h k in
    (risk, t, v, Member-present risk _ (here (sym e)))

bind_escalation-combo_risks :
    (namespaces : List String) (s : Subject) (rules : List Rule)
    → can_create_bindings rules ≡ true
    → can_bind rules ≡ true
    → (risk : Risk) × (risk.rule_type ≡ "combo_bind_escalation")
      × (risk.severity ≡ "CRITICAL")
      × Member risk (combo_risks namespaces s rules)
unfolding combo_risks
bind_escalation-combo_risks namespaces s rules h k =
    let (risk, t, v, e) = bind_escalation_found rules h k in
    (risk, t, v, Member-present risk _ (there (here (sym e))))

-- The namespaces with a privileged service account, and the rules that the bindings of a subject
-- grant together.
abbrev pub privileged_of : Graph → List String
privileged_of g = build_privileged_namespaces (all_bindings g) (named_role_index g)

abbrev pub granted : Graph → SubjectKey → List Rule
granted g k = flatten_rules_for_subject (bindings_of k (all_bindings g)) (named_role_index g)

module _ (F : Floats) (g : Graph) (c : Context) where
  reported :
      (k : SubjectKey) (b : Binding) (s : Subject) (risk : Risk)
      → Member b (bindings_of k (all_bindings g))
      → representative k (bindings_of k (all_bindings g)) ≡ some s
      → nonempty (granted g k) ≡ true
      → Member risk (combo_risks (privileged_of g) s (granted g k))
      → Member
          (combo_finding F c s (bindings_of k (all_bindings g)) risk)
          (evaluate_combo_findings F g c)
  unfolding evaluate_combo_findings collect_combo_findings subject_findings found_findings
  reported k b s risk m r n q = Member-sort (ranks_before F) _ (collect_combo_findings F g c) (
      Member-flat_map (subject_findings F c (privileged_of g) (named_role_index g))
        (k, bindings_of k (all_bindings g)) _ (subject_index (all_bindings g) [])
        (Member-subject_index k b (all_bindings g) m)
        (rw (r, n) (Member-map (combo_finding F c s (bindings_of k (all_bindings g))) risk _ q)))

  -- What a subject with this key is reported for: a finding of the rule, made from all its bindings.
  abbrev pub IsReported : SubjectKey → String → Type 0
  IsReported k rule =
      (s : Subject) × (risk : Risk) × (subject_key s ≡ k)
      × (risk.rule_type ≡ rule)
      × (risk.severity ≡ "CRITICAL")
      × Member (combo_finding F c s (bindings_of k (all_bindings g)) risk)
          (evaluate_combo_findings F g c)

  split-IsReported :
      (p q : Rule → Bool) (rule : String) (k : SubjectKey) (a b : Binding)
      → ((s : Subject) (rules : List Rule)
          → any p rules ≡ true
          → any q rules ≡ true
          → (risk : Risk) × (risk.rule_type ≡ rule)
            × (risk.severity ≡ "CRITICAL")
            × Member risk (combo_risks (privileged_of g) s rules))
      → Member a (all_bindings g)
      → Member b (all_bindings g)
      → Names k a
      → Names k b
      → any p (bound_rules (named_role_index g) a) ≡ true
      → any q (bound_rules (named_role_index g) b) ≡ true
      → IsReported k rule
  split-IsReported p q rule k a b found ma mb na nb ha hb =
      let bindings = bindings_of k (all_bindings g) in
      let ka = Member-bindings_of k a (all_bindings g) ma na in
      let kb = Member-bindings_of k b (all_bindings g) mb nb in
      let creates = any-flat_map-Member p (named_role_index g) a bindings ka ha in
      let escalates = any-flat_map-Member q (named_role_index g) b bindings kb hb in
      let (s, r, e) = representative_of_bindings k a (all_bindings g) ka in
      let (risk, t, v, m) = found s (granted g k) creates escalates in
      (s, risk, e, t, v, reported k a s risk ka r (any-nonempty p (granted g k) creates) m)

  -- A subject that one binding lets create roles, and one binding, the same or another, lets escalate,
  -- is reported as critical, whichever roles and namespaces the two bindings are of.
  pub role_escalation-IsReported :
      (k : SubjectKey) (a b : Binding)
      → Member a (all_bindings g)
      → Member b (all_bindings g)
      → Names k a
      → Names k b
      → can_create_roles (bound_rules (named_role_index g) a) ≡ true
      → can_escalate (bound_rules (named_role_index g) b) ≡ true
      → IsReported k "combo_role_escalation"
  unfolding can_create_roles can_escalate
  role_escalation-IsReported k a b =
      split-IsReported _ _ _ k a b
        (λ s rules. role_escalation-combo_risks (privileged_of g) s rules)

  -- A subject that one binding lets create role bindings, and one binding, the same or another, lets
  -- bind, is reported as critical, whichever roles and namespaces the two bindings are of.
  pub bind_escalation-IsReported :
      (k : SubjectKey) (a b : Binding)
      → Member a (all_bindings g)
      → Member b (all_bindings g)
      → Names k a
      → Names k b
      → can_create_bindings (bound_rules (named_role_index g) a) ≡ true
      → can_bind (bound_rules (named_role_index g) b) ≡ true
      → IsReported k "combo_bind_escalation"
  unfolding can_create_bindings can_bind
  bind_escalation-IsReported k a b =
      split-IsReported _ _ _ k a b
        (λ s rules. bind_escalation-combo_risks (privileged_of g) s rules)
