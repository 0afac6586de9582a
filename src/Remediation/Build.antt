-- ===== src/Remediation/Build.antt =====
-- control-plane/app/remediation.py: the remediation of one finding.
use kaaval.Base.{
  String, ◌<>◌, Bool, not, Option, none, some, List, [], ◌∷◌, ◌++◌, if◌then◌else◌, get_or, is_some,
  nonempty, any, head?, ◌==◌, string_eq, option_eq,
}
use kaaval.Base.Dict.{Dict, lookup}
use kaaval.Base.Text.{show, is_text, truthy, or_text, or_none, lower, join, strip}
use kaaval.Floats.{Floats}
use kaaval.Scoring.{Factors}
use kaaval.Rbac.Subjects.{is_masters}
use kaaval.Remediation.References.{Reference, cis_refs, system_masters_ref}
use kaaval.Remediation.Actions.{
  Piece, Template, rbac_actions, default_action, cve_compliance_notes, rbac_compliance_notes,
}
use kaaval.Finding.{Finding, Target, Remediation}

-- `template.format(role=..., role_arg=..., binding_cmd=...)`
unfoldable pub format : Template → String → String → String → String
format [] role role_arg binding_cmd = ""
format (Piece.literal s ∷ t) role role_arg binding_cmd = s <> format t role role_arg binding_cmd
format (Piece.role ∷ t) role role_arg binding_cmd = role <> format t role role_arg binding_cmd
format (Piece.role_arg ∷ t) role role_arg binding_cmd =
    role_arg <> format t role role_arg binding_cmd
format (Piece.binding_cmd ∷ t) role role_arg binding_cmd =
    binding_cmd <> format t role role_arg binding_cmd

-- The notes of the frameworks that have one.
unfoldable pub framework_notes : Dict String String → List String → List String
unfolding lookup
framework_notes table [] = []
framework_notes table (fw ∷ scope) =
    let rest = framework_notes table scope in
    elim (lookup fw table) [ none ↦ rest | some note ↦ if is_text note then note ∷ rest else rest ]

unfoldable pub compliance_note : List String → Dict String String → Option String
unfolding framework_notes
compliance_note scope table =
    if nonempty scope then or_none (some (join " " (framework_notes table scope))) else none

-- The part after "Role 'x'" of an automount finding, or the role itself.
unfoldable pub namespaced : String → Target → String
namespaced desc t =
    if truthy t.namespace then desc <> " in namespace '" <> show t.namespace <> "'" else desc

module _ (F : Floats) where
  open F use {Float, tenths, at_most, text}

  -- `weight > 1.0`
  abbrev raises : Float → Bool
  raises w = not (at_most w (tenths 10))

  abbrev reason : Bool → String → List String
  reason test s = if test then s ∷ [] else []

  unfoldable pub context_reasons : Factors F → List String
  context_reasons f =
      reason (raises f.environment.weight)
        ("this is a " <> show f.environment.value <> " environment")
      ++ (reason (raises f.data_classification.weight)
            ("it handles " <> show f.data_classification.value <> " data")
          ++ (reason (raises f.exposure.weight) ("it's " <> show f.exposure.value)
              ++ reason (nonempty f.compliance_scope.value)
                  ("it's in scope for " <> join ", " f.compliance_scope.value)))

  unfoldable pub why_it_matters : Finding F → String → String
  unfolding context_reasons
  why_it_matters f inherent =
      let reasons = context_reasons f.score_factors in
      strip (
        inherent
        <> " "
        <> (if nonempty reasons
            then "Ranked "
              <> text f.contextual_score
              <> " because "
              <> join ", and " reasons
              <> " — higher than raw severity alone would suggest."
            else "Ranked "
              <> text f.contextual_score
              <> ", using baseline severity only — no elevated risk "
              <> "context (environment, data classification, exposure) is set for this cluster. "
              <> "Configure it under Settings for sharper prioritization."))

  unfoldable pub build_cve_remediation : Finding F → Remediation
  unfolding why_it_matters compliance_note
  build_cve_remediation f =
      let fixed = head? f.fixed_in in
      let component : String = elim f.affected [
        | [] ↦ "the affected component"
        | a ∷ rest ↦ a.component
      ] in
      let scope = f.score_factors.compliance_scope.value in
      let cve_id = get_or f.cve_id "this CVE" in
      record {
        action =
            if truthy fixed
            then "Upgrade " <> component <> " to " <> show fixed <> " or later."
            else "No fixed version published yet for " <> component
              <> " — track this CVE for an update.";
        why_it_matters = why_it_matters f "";
        compliance_note = compliance_note scope cve_compliance_notes;
        audit_note =
            if nonempty scope
            then "Document remediation of "
              <> cve_id
              <> " as evidence for "
              <> join ", " scope
              <> " audit scope."
            else "Document remediation of " <> cve_id <> " in your change log.";
        benchmark_refs = [];
      }

  -- The workload of an automount finding, or its service account.
  abbrev automount_target : Finding F → Target
  automount_target f =
      get_or f.workload
        (get_or f.service_account (record { kind = none; name = some "?"; namespace = none }))

  unfoldable pub role_desc : Finding F → String
  unfolding namespaced
  role_desc f =
      if f.rule_type == some "token_automount"
      then namespaced
          (if is_some f.workload
            then get_or (automount_target f).kind "Pod"
              <> " '"
              <> show (automount_target f).name
              <> "'"
            else "ServiceAccount '" <> show (automount_target f).name <> "'")
          (automount_target f)
      else elim f.role [ none ↦ "Role '?'" | some r ↦ show r.kind <> " '" <> show r.name <> "'" ]

  unfoldable pub role_arg : Finding F → String
  role_arg f = elim f.role [
    | none ↦ "role"
    | some r ↦ strip (lower (or_text r.kind "role") <> " " <> show r.name)
  ]

  unfoldable pub binding_cmd : Finding F → String
  binding_cmd f = elim f.binding [
    | none ↦ "kubectl delete rolebinding "
    | some b ↦
        let cmd = "kubectl delete " <> lower (or_text b.kind "rolebinding") <> " " <> show b.name in
        if truthy b.namespace then cmd <> " -n " <> show b.namespace else cmd
  ]

  unfoldable pub benchmark_refs : Finding F → List Reference
  unfolding lookup
  benchmark_refs f =
      get_or (lookup (get_or f.rule_type "") cis_refs) []
      ++ (if any is_masters f.subjects then system_masters_ref ∷ [] else [])

  unfoldable pub build_rbac_remediation : Finding F → Remediation
  unfolding format role_desc role_arg binding_cmd benchmark_refs why_it_matters compliance_note
      lookup
  build_rbac_remediation f =
      let rule_type = get_or f.rule_type "" in
      let scope = f.score_factors.compliance_scope.value in
      let change =
        (if rule_type == "token_automount"
          then "the automount opt-out for "
          else "the narrowing of ")
        <> role_desc f in
      record {
        action =
            format (get_or (lookup rule_type rbac_actions) default_action) (role_desc f)
              (role_arg f) (binding_cmd f);
        why_it_matters = why_it_matters f f.description;
        compliance_note = compliance_note scope rbac_compliance_notes;
        audit_note =
            if nonempty scope
            then "Record "
              <> change
              <> " as access-review evidence for "
              <> join ", " scope
              <> " audit scope."
            else "Record " <> change <> " in your access-review log.";
        benchmark_refs = benchmark_refs f;
      }

  unfoldable pub build_remediation : Finding F → Remediation
  unfolding build_rbac_remediation build_cve_remediation
  build_remediation f =
      if is_some f.rule_type then build_rbac_remediation f else build_cve_remediation f

  -- `finding["remediation"] = build_remediation(finding)`
  unfoldable pub with_remediation : Finding F → Finding F
  unfolding build_remediation
  with_remediation f = record f { remediation = some (build_remediation f) }
