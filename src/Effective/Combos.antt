-- ===== src/Effective/Combos.antt =====
-- control-plane/app/effective_access.py: `evaluate_combo_findings`.
pub mod Laws
use kaaval.Base.{
  String, ◌<>◌, Bool, true, false, not, ◌&&◌, Option, none, some, List, [], ◌∷◌, ◌++◌, map,
  if◌then◌else◌, nonempty, is_some, flat_map, contains, string_eq,
}
use kaaval.Base.Dict.{Dict}
use kaaval.Base.Sort.{sort}
use kaaval.Base.Text.{show, title, spaced}
use kaaval.Floats.{Floats}
use kaaval.Scoring.{Context, compute_contextual_score}
use kaaval.Finding.{Finding, Target, bare_finding}
use kaaval.Remediation.Build.{with_remediation}
use kaaval.Rbac.Graph.{Rule, Subject, Role, Binding, Graph, RoleKey, all_bindings}
use kaaval.Rbac.Risks.{Risk}
use kaaval.Rbac.Findings.{ranks_before, target_of}
use kaaval.Effective.Predicates.{
  combo_role_escalation, combo_bind_escalation, impersonation_grant, privileged_pod_creation,
}
use kaaval.Effective.Privileged.{build_privileged_namespaces}
use kaaval.Effective.Subjects.{
  SubjectKey, subject_description, named_role_index, flatten_rules_for_subject, subject_index,
  representative,
}

-- The risks that are not None.
unfoldable pub present : List (Option Risk) → List Risk
present [] = []
present (none ∷ risks) = present risks
present (some risk ∷ risks) = risk ∷ present risks

-- `subject_ns is not None and subject_ns in privileged_namespaces`
abbrev pub has_privileged_sa : List String → Option String → Bool
has_privileged_sa namespaces none = false
has_privileged_sa namespaces (some ns) = contains namespaces ns

unfoldable pub combo_risks : List String → Subject → List Rule → List Risk
unfolding present contains
combo_risks namespaces s rules = present (
    combo_role_escalation rules
    ∷ combo_bind_escalation rules
    ∷ impersonation_grant rules
    ∷ privileged_pod_creation rules s.namespace (has_privileged_sa namespaces s.namespace)
    ∷ [])

module _ (F : Floats) where
  unfoldable pub combo_finding : Context → Subject → List Binding → Risk → Finding F
  unfolding with_remediation
  combo_finding c s bindings risk =
      let bare = bare_finding F risk.severity (compute_contextual_score F none risk.severity c) in
      with_remediation F (record bare {
        rule_type = some risk.rule_type;
        title = title (spaced risk.rule_type) <> " — " <> subject_description s;
        description = risk.detail;
        subject = some s;
        bindings = map (target_of F) bindings;
      })

  -- The rest of one round of the loop over the subjects, from the representative.
  unfoldable pub found_findings :
      Context → List String → List Binding → List Rule → Option Subject → List (Finding F)
  unfolding combo_finding
  found_findings c namespaces bindings rules none = []
  found_findings c namespaces bindings rules (some s) =
      if not (nonempty rules)
      then []
      else map (combo_finding c s bindings) (combo_risks namespaces s rules)

  unfoldable pub subject_findings :
      Context → List String → Dict RoleKey Role → SubjectKey × List Binding → List (Finding F)
  unfolding found_findings
  subject_findings c namespaces index (k, bindings) =
      found_findings c namespaces bindings (flatten_rules_for_subject bindings index)
        (representative k bindings)

  -- The list before it is sorted.
  unfoldable pub collect_combo_findings : Graph → Context → List (Finding F)
  unfolding subject_findings
  collect_combo_findings g c =
      let index = named_role_index g in
      let bindings = all_bindings g in
      flat_map (subject_findings c (build_privileged_namespaces bindings index) index)
        (subject_index bindings [])

  unfoldable pub evaluate_combo_findings : Graph → Context → List (Finding F)
  unfolding collect_combo_findings
  evaluate_combo_findings g c = sort (ranks_before F) (collect_combo_findings g c)
