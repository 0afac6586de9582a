-- ===== src/Cli/Gate.antt =====
-- control-plane/app/cli.py: `_apply_gate`, and the part of `main` that checks the severity threshold
-- and gates an image scan. The score threshold is the finite number that `main` has made of it.
pub mod Laws
pub mod Image
use kaaval.Base.{
  ℕ, suc, String, Bool, true, false, not, ◌&&◌, Option, none, some, List, [], ◌∷◌, ◌++◌,
  if◌then◌else◌, leb, nonempty, filter, contains, ◌==◌, string_eq,
}
use kaaval.Base.Text.{upper, truthy, show}
use kaaval.Floats.{Floats}
use kaaval.Scoring.{Context, severity_order}
use kaaval.Finding.{Finding}
use kaaval.Images.Report.{ImageReport, Scored, score_report}

-- How a run ends: with an exit code, in `_fail_usage` (exit code 2), or in an exception.
pub data Exit : Type 0 where
  code : ℕ → Exit
  usage : Exit
  raises : String → Exit

-- `xs.index(x)`; `none` is the ValueError.
unfoldable pub index : List String → String → Option ℕ
index [] x = none
index (y ∷ ys) x =
    let rest = index ys x in
    if x == y then some 0 else elim rest [ none ↦ none | some n ↦ some (suc n) ]

-- `fail_on_severity.upper() not in SEVERITY_ORDER[1:]`
unfoldable pub severity_valid : Option String → Bool
unfolding contains
severity_valid none = true
severity_valid (some s) = contains ("LOW" ∷ "MEDIUM" ∷ "HIGH" ∷ "CRITICAL" ∷ []) (upper s)

module _ (F : Floats) where
  -- `[f for f in findings if f["contextual_score"] >= threshold]`, where there is a threshold
  unfoldable pub score_breaches : Option F.Float → List (Finding F) → List (Finding F)
  unfolding filter
  score_breaches none fs = []
  score_breaches (some threshold) fs = filter (λ f. F.at_most threshold f.contextual_score) fs

  -- The finding before the breaches after it, if its rank reaches the threshold's.
  abbrev add_breach :
      ℕ → Finding F → Option ℕ → Option (List (Finding F)) → Option (List (Finding F))
  add_breach rank f none rest = none
  add_breach rank f (some n) none = none
  add_breach rank f (some n) (some breaches) = some (if leb rank n then f ∷ breaches else breaches)

  -- `[f for f in findings if SEVERITY_ORDER.index(f["severity"]) >= rank]`
  unfoldable pub severity_breaches : ℕ → List (Finding F) → Option (List (Finding F))
  unfolding index
  severity_breaches rank [] = some []
  severity_breaches rank (f ∷ fs) =
      add_breach rank f (index severity_order f.severity) (severity_breaches rank fs)

  -- `1` if there is a breach.
  abbrev verdict : List (Finding F) → Option (List (Finding F)) → Exit
  verdict scored none = Exit.raises "ValueError"
  verdict scored (some ranked) = Exit.code (if nonempty (scored ++ ranked) then 1 else 0)

  -- The gate on the severity, from the rank of the threshold.
  abbrev ranked_verdict : List (Finding F) → List (Finding F) → Option ℕ → Exit
  ranked_verdict scored fs none = Exit.usage
  ranked_verdict scored fs (some rank) = verdict scored (severity_breaches rank fs)

  unfoldable pub apply_gate : List (Finding F) → Option F.Float → Option String → Exit
  unfolding score_breaches severity_breaches index
  apply_gate fs fail_on_score fail_on_severity =
      let scored = score_breaches fail_on_score fs in
      if truthy fail_on_severity
      then ranked_verdict scored fs (index severity_order (upper (show fail_on_severity)))
      else verdict scored (some [])

  abbrev gate_scored : Option (Scored F) → Option F.Float → Option String → Exit
  gate_scored none fail_on_score fail_on_severity = Exit.raises "KeyError"
  gate_scored (some result) fail_on_score fail_on_severity =
      apply_gate result.findings fail_on_score fail_on_severity

  -- `main` on `scan image`, from the report and the context that it has read.
  unfoldable pub run_image_scan : ImageReport F → Context → Option F.Float → Option String → Exit
  unfolding apply_gate severity_valid score_report
  run_image_scan report c fail_on_score fail_on_severity =
      if not (severity_valid fail_on_severity)
      then Exit.usage
      else gate_scored (score_report F report c) fail_on_score fail_on_severity
