-- ===== src/Cli/Gate/Image.antt =====
-- How `kaaval scan image` of control-plane/app/cli.py ends.
use kaaval.Base.{
  ◌≡◌, refl, ap, ◌∙◌, String, true, not, ◌||◌, Option, none, some, map, if◌then◌else◌, any,
  all_of_All, contains, or-true, ◌==◌, string_eq, Bool-cases, inl, inr,
}
use kaaval.Base.Text.{upper, truthy, show}
use kaaval.Floats.{Floats}
use kaaval.Scoring.{Context, severity_order}
use kaaval.Images.Report.{ImageReport, image_of, known_severity, parse_report}
use kaaval.Images.Report.Laws.{score_report_breakdown}
use kaaval.Cli.Gate.{Exit, severity_valid, run_image_scan}
use kaaval.Cli.Gate.Laws.{reaches, apply_gate-reaches}

pub severity_valid-known :
    (s : Option String)
    → severity_valid s ≡ true
    → (not (truthy s) || contains severity_order (upper (show s))) ≡ true
unfolding severity_valid contains
severity_valid-known none h = refl
severity_valid-known (some s) h =
    rw (h, or-true (upper s == "UNKNOWN")) (or-true (not (truthy (some s))))

module _ (F : Floats) where
  -- On a report that names its image, a severity threshold other than LOW, MEDIUM, HIGH or CRITICAL in
  -- any case ends the run with a usage error. Otherwise it exits with 1 if some finding of the adapter,
  -- with a severity outside of the order read as UNKNOWN, reaches a threshold that is set, and else
  -- with 0; no exception is raised.
  pub run_image_scan_exits :
      (report : ImageReport F) (c : Context) (image : String) (score : Option F.Float)
      (severity : Option String)
      → image_of F report ≡ some image
      → run_image_scan F report c score severity ≡ (
          if severity_valid severity
          then Exit.code (
              if any (reaches F score severity) (map (known_severity F) (parse_report F report c))
              then 1
              else 0)
          else Exit.usage)
  unfolding run_image_scan
  run_image_scan_exits report c image score severity h =
      let (r, e, fs, known, total, counts) = score_report_breakdown F report c image h in
      elim (Bool-cases (severity_valid severity)) [
        | inl v ↦
            rw (v, e)
              (apply_gate-reaches F r.findings score severity (all_of_All _ r.findings known)
                  (severity_valid-known severity v)
                ∙ ap (λ gs. Exit.code (if any (reaches F score severity) gs then 1 else 0)) fs)
        | inr v ↦ rw v refl
      ]
